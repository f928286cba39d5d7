-- ===== src/Observer/Capture.antt =====
-- agents/linux/pcap_observer.c: `capture_packet`, which libpcap calls for a copy of a packet.
use tlslatch.Base.{
  ℕ, zero, suc, ◌+◌, ◌-◌, List, [], ◌∷◌, ◌++◌, Option, some, none, Bool, true, false, length, ltb,
  leb, ◌==◌, ◌/=◌, ◌&&◌, ◌||◌, Result, ok, reject_if, attempt, branch, read, slice, ◌>>=◌, ◌>>◌,
}
use tlslatch.Packet.{FlowKey, View, parse_ipv4_tcp, normalize_flow}
use tlslatch.Tls.Digest.{read16}
use tlslatch.Tls.Hello.{ServerShare}
use tlslatch.Tls.Records.{tls_find_clienthello, tls_find_serverhello}
use tlslatch.Observer.{Stash, Observer, Lanes, Env, Call, lookup_callback, key_callback, Handled}
use tlslatch.Observer.Stashes.{stash_at, put_stash, released, ch_find_stash, ch_clear_stash}
use tlslatch.Observer.Feed.{is_emitted, ch_emit, ch_feed}

-- The link types of libpcap.
abbrev pub dlt_en10mb : ℕ
dlt_en10mb = 1

abbrev pub dlt_raw : ℕ
dlt_raw = 12

abbrev pub dlt_linux_sll : ℕ
dlt_linux_sll = 113

abbrev pub dlt_linux_sll2 : ℕ
dlt_linux_sll2 = 276

-- The loop over the VLAN tags, of which `left` may still come.
unfoldable pub skip_tags : ℕ → List ℕ → ℕ → ℕ → Result ℕ
skip_tags zero packet offset protocol = do reject_if (protocol /= 2048); ok offset
skip_tags (suc left) packet offset protocol =
    branch (protocol == 33024 || protocol == 34984)
      (do
        reject_if (ltb (length packet) (offset + 4))
        inner ← read16 packet (offset + 2)
        skip_tags left packet (offset + 4) inner)
      (do reject_if (protocol /= 2048); ok offset)

-- `SIZE_MAX` is `reject`.
unfoldable pub network_offset : ℕ → List ℕ → Result ℕ
network_offset datalink packet = branch (datalink == dlt_raw) (ok 0) (
    branch (datalink == dlt_linux_sll) (do reject_if (ltb (length packet) 16); ok 16)
      (branch (datalink == dlt_linux_sll2) (do reject_if (ltb (length packet) 20); ok 20)
        (do
          reject_if (datalink /= dlt_en10mb || ltb (length packet) 14)
          protocol ← read16 packet 12
          skip_tags 2 packet 14 protocol)))

-- The view that a packet gives, if it has a payload.
unfoldable pub captured_view : ℕ → List ℕ → Result View
captured_view datalink packet = do
  offset ← network_offset datalink packet
  reject_if (leb (length packet) offset)
  bytes ← slice packet offset (length packet - offset)
  view ← parse_ipv4_tcp bytes
  reject_if (length view.payload == 0)
  ok view

abbrev pub is_fresh : Option ℕ → ℕ → Bool
is_fresh none cookie = false
is_fresh (some fresh) cookie = fresh == cookie

abbrev pub count_recovered : Bool → Observer → Observer
count_recovered true observer = record observer { ch_recovered = observer.ch_recovered + 1 }
count_recovered false observer = observer

abbrev pub count_mismatch : Observer → Observer
count_mismatch observer = record observer { ch_ack_mismatch = observer.ch_ack_mismatch + 1 }

abbrev pub release : ℕ → Observer → Observer
release i observer = put_stash observer i (released (stash_at observer i))

abbrev pub key_call : Env → FlowKey → ServerShare → ℕ → Call
key_call env flow share cookie =
    key_callback flow share.group_id share.public_key share.public_key_length env.now_ns cookie

abbrev pub count_copied : List ℕ → Observer → Observer
count_copied packet observer = record observer {
  copied_packets = observer.copied_packets + 1;
  copied_bytes = observer.copied_bytes + length packet;
}

abbrev pub lane_of : Bool → Lanes → Observer
lane_of false lanes = lanes.input
lane_of true lanes = lanes.output

abbrev pub counted : Bool → List ℕ → Lanes → Lanes
counted false packet lanes = record lanes { input = count_copied packet lanes.input }
counted true packet lanes = record lanes { output = count_copied packet lanes.output }

abbrev pub with_input : Lanes → Handled → Lanes × List Call
with_input lanes handled = (record lanes { input = handled.observer }, handled.calls)

module _ (sha512 : List ℕ → Option (List ℕ)) where
  unfoldable pub capture_client : Env → Observer → FlowKey → View → Result Handled
  capture_client env observer flow view =
      branch (ltb 5 (length view.payload))
        (do
          content_type ← read view.payload 0
          branch (content_type == 22)
              (do
                emission ← ch_emit sha512 env observer flow view.payload
                branch (is_emitted emission.verdict)
                    (ok (record {
                      observer = ch_clear_stash env.now_ns flow emission.observer;
                      calls = emission.calls;
                    }))
                    (ch_feed sha512 env emission.observer flow view))
              (ch_feed sha512 env observer flow view))
        (ch_feed sha512 env observer flow view)

  -- `slot` is what place `i` holds.
  unfoldable pub report_deferred : Env → Observer → ℕ → Stash → FlowKey → ℕ → Result Handled
  report_deferred env input i slot flow cookie = do
    bytes ← slice slot.buf 0 slot.filled
    lookup_key ← attempt (tls_find_clienthello sha512 bytes)
    ok (elim lookup_key [
      | none ↦ record { observer = release i input; calls = [] }
      | some key ↦
          let call = lookup_callback flow key slot.born_ns cookie in
          record {
            observer = release i (count_recovered (env.answers call) input);
            calls = call ∷ [];
          }
    ])

  unfoldable pub recover_slot : Env → Observer → ℕ → Stash → FlowKey → View → ℕ → Result Handled
  recover_slot env input i slot flow view cookie =
      branch slot.deferred
        (branch (slot.raw_end == view.acknowledgement && is_fresh (env.fresh_cookie flow) cookie)
          (report_deferred env input i slot flow cookie)
          (ok (record { observer = release i (count_mismatch input); calls = [] })))
        (ok (record { observer = input; calls = [] }))

  -- The deferred ClientHello that the server's hello answers.
  unfoldable pub recover_deferred : Env → Observer → FlowKey → View → ℕ → Result Handled
  recover_deferred env input flow view cookie =
      let (found, place) = ch_find_stash env.now_ns flow input in
      elim place [
        | none ↦ ok (record { observer = found; calls = [] })
        | some i ↦ recover_slot env found i (stash_at found i) flow view cookie
      ]

  -- A ServerHello: what is deferred is reported before the key.
  unfoldable pub capture_share : Env → Observer → FlowKey → View → ServerShare → Result Handled
  capture_share env input flow view share = elim (env.socket_cookie flow) [
    | none ↦ ok (record { observer = input; calls = [] })
    | some cookie ↦ do
      recovered ← recover_deferred env input flow view cookie
      ok (record {
        observer = recovered.observer;
        calls = recovered.calls ++ key_call env flow share cookie ∷ [];
      })
  ]

  unfoldable pub capture_server : Env → Observer → FlowKey → View → Result Handled
  capture_server env input flow view =
      branch (ltb 5 (length view.payload))
        (do
          content_type ← read view.payload 0
          branch (content_type == 22)
              (do
                share ← attempt (tls_find_serverhello sha512 view.payload)
                elim share [
                  | none ↦ ok (record { observer = input; calls = [] })
                  | some found ↦ capture_share env input flow view found
                ])
              (ok (record { observer = input; calls = [] })))
        (ok (record { observer = input; calls = [] }))

  -- The direction, and the lane, which is the output's if `is_output`, decide who handles the packet.
  -- Both handlers change the stashes of the input lane.
  unfoldable pub capture_flow : Env → Bool → FlowKey → Bool → View → Observer → Result Handled
  capture_flow env false flow true view input = capture_client env input flow view
  capture_flow env true flow false view input = capture_server env input flow view
  capture_flow env _ flow _ view input = ok (record { observer = input; calls = [] })

  unfoldable pub capture_view : Env → Bool → View → Lanes → Result (Lanes × List Call)
  capture_view env is_output view lanes =
      elim (normalize_flow view (lane_of is_output lanes).server_port) [
        | none ↦ ok (lanes, [])
        | some normal ↦ do
          handled ← capture_flow env is_output normal.0 normal.1 view lanes.input
          ok (with_input lanes handled)
      ]

  unfoldable pub capture_packet : Env → Bool → List ℕ → Lanes → Result (Lanes × List Call)
  capture_packet env is_output packet lanes = do
    let after = counted is_output packet lanes
    view ← attempt (captured_view (lane_of is_output lanes).datalink packet)
    elim view [ none ↦ ok (after, []) | some found ↦ capture_view env is_output found after ]
