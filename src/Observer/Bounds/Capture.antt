-- ===== src/Observer/Bounds/Capture.antt =====
-- agents/linux/pcap_observer.c: `capture_packet` stays in bounds.
use tlslatch.Base.{
  ℕ, zero, suc, ◌+◌, ◌≤◌, ◌≡◌, List, Option, Bool, true, false, length, arith, Safe, returns,
  Safe->>=, Safe-reject_if, Safe-branch, Safe-attempt, Safe-read, Safe-slice, by_option,
}
use tlslatch.Packet.{FlowKey, View, normalize_flow}
use tlslatch.Packet.Safety.{parse_ipv4_tcp-Safe}
use tlslatch.Tls.Safety.{Safe-read16}
use tlslatch.Tls.Hello.{ServerShare}
use tlslatch.Tls.Walk.{tls_find_clienthello-Safe, tls_find_serverhello-Safe}
use tlslatch.Observer.{Stash, Observer, Lanes, Env, Call, lookup_callback}
use tlslatch.Observer.Stashes.{ch_find_stash}
use tlslatch.Observer.Capture.{
  skip_tags, network_offset, captured_view, count_recovered, capture_client, report_deferred,
  recover_deferred, recover_slot, capture_share, capture_server, capture_flow, count_mismatch,
  release, lane_of, counted, capture_view, capture_packet,
}
use tlslatch.Observer.Bounds.{
  IsStash, AreStashes, IsHandled, released-IsStash, set-AreAll, ch_find_stash-AreStashes,
  ch_clear_stash-AreStashes,
}
use tlslatch.Observer.Bounds.Feed.{ch_emit-AreStashes, ch_feed-AreStashes}

skip_tags-Safe :
    (left : ℕ) (packet : List ℕ) (offset protocol : ℕ)
    → offset ≤ length packet
    → Safe (λ n. n ≤ length packet) (skip_tags left packet offset protocol)
unfolding skip_tags
skip_tags-Safe zero packet offset protocol h = Safe-reject_if _ _ λ _. returns _ h
skip_tags-Safe (suc left) packet offset protocol h =
    Safe-branch _ _ _
      (λ _. Safe-reject_if _ _ λ long.
        Safe-read16 _ _ _ (ground arith)
          λ inner. skip_tags-Safe left packet (offset + 4) inner (ground arith))
      λ _. Safe-reject_if _ _ λ _. returns _ h

-- The offset of the IPv4 header is in the packet, or at its end.
pub network_offset-Safe :
    (datalink : ℕ) (packet : List ℕ)
    → Safe (λ n. n ≤ length packet) (network_offset datalink packet)
unfolding network_offset
network_offset-Safe datalink packet =
    Safe-branch _ _ _ (λ _. returns _ (omega arith))
      λ _.
        Safe-branch _ _ _ (λ _. Safe-reject_if _ _ λ long. returns _ (ground arith))
          λ _.
            Safe-branch _ _ _ (λ _. Safe-reject_if _ _ λ long. returns _ (ground arith))
              λ _. Safe-reject_if _ _ λ long.
                Safe-read16 _ _ _ (ground arith)
                  λ protocol. skip_tags-Safe 2 packet 14 protocol (ground arith)

captured_view-Safe :
    (datalink : ℕ) (packet : List ℕ)
    → Safe
        (λ (view : View). length view.payload + 40 ≤ length packet)
        (captured_view datalink packet)
unfolding captured_view
captured_view-Safe datalink packet = Safe->>= _ _ (network_offset-Safe datalink packet) λ offset h.
    Safe-reject_if _ _ λ _. Safe-slice _ _ _ _ (omega arith) λ bytes e.
      Safe->>= _ _ (parse_ipv4_tcp-Safe bytes)
        λ view k. Safe-reject_if _ _ λ _. returns _ (omega arith)

abbrev pub AreLanes : Lanes → Type 0
AreLanes lanes = AreStashes lanes.input × AreStashes lanes.output

abbrev pub AreCaptured : Lanes × List Call → Type 0
AreCaptured answer = AreLanes answer.0

module _ (sha512 : List ℕ → Option (List ℕ)) (env : Env) (flow : FlowKey) (view : View) where
  capture_client-AreStashes :
      (observer : Observer)
      → AreStashes observer
      → Safe IsHandled (capture_client sha512 env observer flow view)
  unfolding capture_client
  capture_client-AreStashes observer h =
      Safe-branch _ _ _
        (λ long. Safe-read _ _ _ (ground arith) λ _.
          Safe-branch _ _ _
            (λ _.
              Safe->>= _ _ (ch_emit-AreStashes sha512 env flow observer view.payload h)
                λ emission k.
                  Safe-branch _ _ _
                    (λ _. returns _ (ch_clear_stash-AreStashes env.now_ns flow emission.observer k))
                    λ _. ch_feed-AreStashes sha512 env flow view emission.observer k)
            λ _. ch_feed-AreStashes sha512 env flow view observer h)
        λ _. ch_feed-AreStashes sha512 env flow view observer h

  released-AreStashes :
      (observer : Observer) (i : ℕ) → AreStashes observer → AreStashes (release i observer)
  released-AreStashes observer i h = set-AreAll _ i _ h (released-IsStash _ (h i))

  count_recovered-AreStashes :
      (b : Bool) (observer : Observer)
      → AreStashes observer
      → AreStashes (count_recovered b observer)
  count_recovered-AreStashes true observer h = h
  count_recovered-AreStashes false observer h = h

  module _ (cookie : ℕ) where
    report_deferred-AreStashes :
        (input : Observer) (i : ℕ) (slot : Stash)
        → AreStashes input
        → IsStash slot
        → Safe IsHandled (report_deferred sha512 env input i slot flow cookie)
    unfolding report_deferred
    report_deferred-AreStashes input i slot h k =
        let n : length slot.buf ≡ slot.filled = k.written in
        Safe-slice _ _ _ _ (omega arith) λ bytes _.
          Safe-attempt _ _ (tls_find_clienthello-Safe sha512 bytes)
            (returns _ (released-AreStashes input i h))
            λ key _.
              let answer = env.answers (lookup_callback flow key slot.born_ns cookie) in
              returns _ (
                released-AreStashes (count_recovered answer input) i
                  (count_recovered-AreStashes answer input h))

    recover_deferred-AreStashes :
        (input : Observer)
        → AreStashes input
        → Safe IsHandled (recover_deferred sha512 env input flow view cookie)
    unfolding recover_deferred recover_slot
    recover_deferred-AreStashes input h =
        let found = ch_find_stash-AreStashes env.now_ns flow input h in
        by_option (Safe IsHandled) (ch_find_stash env.now_ns flow input).1 (λ _. returns _ found)
          λ i _.
            Safe-branch _ _ _
              (λ _.
                Safe-branch _ _ _ (λ _. report_deferred-AreStashes _ i _ found (found i))
                  λ _. returns _ (
                    released-AreStashes (count_mismatch (ch_find_stash env.now_ns flow input).0) i
                      found))
              λ _. returns _ found

  capture_share-AreStashes :
      (input : Observer) (share : ServerShare)
      → AreStashes input
      → Safe IsHandled (capture_share sha512 env input flow view share)
  unfolding capture_share
  capture_share-AreStashes input share h =
      by_option (Safe IsHandled) (env.socket_cookie flow) (λ _. returns _ h)
        λ cookie _.
          Safe->>= _ _ (recover_deferred-AreStashes cookie input h) λ recovered k. returns _ k

  capture_server-AreStashes :
      (input : Observer)
      → AreStashes input
      → Safe IsHandled (capture_server sha512 env input flow view)
  unfolding capture_server
  capture_server-AreStashes input h =
      Safe-branch _ _ _
        (λ long. Safe-read _ _ _ (ground arith) λ _.
          Safe-branch _ _ _
            (λ _.
              Safe-attempt _ _ (tls_find_serverhello-Safe sha512 view.payload) (returns _ h)
                λ share _. capture_share-AreStashes input share h)
            λ _. returns _ h)
        λ _. returns _ h

  capture_flow-AreStashes :
      (is_output to_server : Bool) (input : Observer)
      → AreStashes input
      → Safe IsHandled (capture_flow sha512 env is_output flow to_server view input)
  unfolding capture_flow
  capture_flow-AreStashes false true input h = capture_client-AreStashes input h
  capture_flow-AreStashes true false input h = capture_server-AreStashes input h
  capture_flow-AreStashes false false input h = returns _ h
  capture_flow-AreStashes true true input h = returns _ h

module _ (sha512 : List ℕ → Option (List ℕ)) (env : Env) (is_output : Bool) where
  capture_view-AreStashes :
      (view : View) (lanes : Lanes)
      → AreLanes lanes
      → Safe AreCaptured (capture_view sha512 env is_output view lanes)
  unfolding capture_view
  capture_view-AreStashes view lanes h =
      by_option (Safe AreCaptured) (normalize_flow view (lane_of is_output lanes).server_port)
        (λ _. returns _ h)
        λ normal _.
          Safe->>= _ _
            (capture_flow-AreStashes sha512 env normal.0 view is_output normal.1 lanes.input h.0)
            λ handled k. returns _ (k, h.1)

  counted-AreLanes :
      (b : Bool) (packet : List ℕ) (lanes : Lanes)
      → AreLanes lanes
      → AreLanes (counted b packet lanes)
  counted-AreLanes false packet lanes h = h
  counted-AreLanes true packet lanes h = h

  -- Whatever the packet, `capture_packet` reads inside it, copies nothing past the 2048 bytes of a stash,
  -- and its loops end. Afterwards, in both lanes, every stash again has `filled` bytes, no more than it
  -- needs, and needs no more than 2048, if this held before.
  pub capture_packet-Safe :
      (packet : List ℕ) (lanes : Lanes)
      → AreLanes lanes
      → Safe AreCaptured (capture_packet sha512 env is_output packet lanes)
  unfolding capture_packet
  capture_packet-Safe packet lanes h =
      let after = counted-AreLanes is_output packet lanes h in
      Safe-attempt _ _ (captured_view-Safe (lane_of is_output lanes).datalink packet)
        (returns _ after) λ view _. capture_view-AreStashes view _ after
