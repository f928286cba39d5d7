-- ===== src/Windows/Bounds/Hello.antt =====
-- agents/windows/tcpra_agent_c.c: the parsers read inside the packet, the stream and the messages.
use tlslatch.Base.{
  ℕ, zero, suc, ◌+◌, ◌≤◌, ◌<◌, List, [], Option, some, none, Bool, true, false, length, arith, Safe,
  returns, rejects, Safe->>=, Safe-reject_if, Safe-branch, Safe-attempt, Safe-read, Safe-slice,
  Safe-implies, slice-Safe,
}
use tlslatch.Tls.Safety.{IsKey, digest-IsKey, Safe-read16, Safe-read24}
use tlslatch.Packet.Safety.{Safe-read32}
use tlslatch.Windows.{FlowKey, PacketView, Config, tls_cap}
use tlslatch.Windows.Hello.{
  required, packet_view, key_share_from, parse_client_key_share, parse_server_key_share,
  parse_key_share, sha512_parts, hello_from, gather_from, find_hello_key,
}
use tlslatch.Windows.Bounds.Buffer.{reserve-IsRoom, append_within-Safe, Safe-room}

abbrev pub Any : {A : Type 0} → A → Type 0
Any a = Unit {0}

required-Safe : (o : Option (FlowKey × Bool)) → Safe Any (required o)
unfolding required
required-Safe none = rejects
required-Safe (some found) = returns found tt

pub packet_view-Safe :
    (config : Config) (packet : List ℕ)
    → Safe
        (λ (view : PacketView). length view.payload + 40 ≤ length packet)
        (packet_view config packet)
unfolding packet_view
packet_view-Safe config packet = Safe-reject_if _ _ λ long.
    Safe-read _ _ _ (ground arith) λ version_ihl. Safe-reject_if _ _ λ _.
      Safe-read _ _ _ (ground arith) λ protocol. Safe-reject_if _ _ λ _. Safe-reject_if _ _ λ ip.
        Safe-read _ _ _ (ground arith) λ data_offset. Safe-reject_if _ _ λ tcp.
          Safe-slice _ _ _ _ (ground arith) λ source _.
            Safe-slice _ _ _ _ (ground arith) λ destination _.
              Safe-read16 _ _ _ (ground arith) λ source_port.
                Safe-read16 _ _ _ (ground arith) λ destination_port.
                  Safe-read32 _ _ _ (ground arith) λ sequence.
                    Safe->>= _ _ (required-Safe _) λ found _.
                      Safe-read _ _ _ (ground arith) λ flags.
                        Safe-slice _ _ _ _ (ground arith) λ payload e. returns _ (ground arith)

key_share_from-Safe :
    (fuel : ℕ) (hello : List ℕ) (p end : ℕ)
    → p ≤ end
    → end ≤ length hello
    → end < p + fuel
    → Safe Any (key_share_from fuel hello p end)
unfolding key_share_from
key_share_from-Safe zero hello p end b l m = absurd (omega arith)
key_share_from-Safe (suc fuel) hello p end b l m =
    Safe-branch _ _ _ (λ _. rejects)
      λ more. Safe-read16 _ _ _ (ground arith) λ type. Safe-read16 _ _ _ (ground arith) λ item.
        Safe-reject_if _ _ λ fits.
          Safe-branch _ _ _
            (λ _. Safe-implies (slice-Safe hello (p + 4) item (ground arith)) λ _ _. tt)
            λ _. key_share_from-Safe fuel hello (p + 4 + item) end (ground arith) l (omega arith)

parse_client_key_share-Safe : (hello : List ℕ) → Safe Any (parse_client_key_share hello)
unfolding parse_client_key_share
parse_client_key_share-Safe hello = Safe-reject_if _ _ λ a.
    Safe-read _ _ _ (ground arith) λ session_id. Safe-reject_if _ _ λ b.
      Safe-read16 _ _ _ (ground arith) λ suites. Safe-reject_if _ _ λ c.
        Safe-read _ _ _ (ground arith) λ compression. Safe-reject_if _ _ λ d.
          Safe-read16 _ _ _ (ground arith) λ extensions.
            Safe-reject_if _ _
              λ e. key_share_from-Safe _ hello _ _ (omega arith) (ground arith) (ground arith)

parse_server_key_share-Safe : (hello : List ℕ) → Safe Any (parse_server_key_share hello)
unfolding parse_server_key_share
parse_server_key_share-Safe hello = Safe-reject_if _ _ λ a.
    Safe-read _ _ _ (ground arith) λ session_id. Safe-reject_if _ _ λ b.
      Safe-read16 _ _ _ (ground arith) λ extensions.
        Safe-reject_if _ _
          λ e. key_share_from-Safe _ hello _ _ (omega arith) (ground arith) (ground arith)

parse_key_share-Safe : (client : Bool) (hello : List ℕ) → Safe Any (parse_key_share client hello)
parse_key_share-Safe true hello = parse_client_key_share-Safe hello
parse_key_share-Safe false hello = parse_server_key_share-Safe hello

-- What is put together fits in the room for it.
gather_from-Safe :
    (fuel : ℕ) (allocates : ℕ → Bool) (records : List ℕ) (r capacity : ℕ) (hs : List ℕ)
    → r ≤ length records
    → length records < r + fuel
    → length hs ≤ capacity
    → capacity ≤ tls_cap
    → Safe (λ (hs : List ℕ). length hs ≤ tls_cap) (gather_from fuel allocates records r capacity hs)
unfolding gather_from
gather_from-Safe zero allocates records r capacity hs b m f c = absurd (omega arith)
gather_from-Safe (suc fuel) allocates records r capacity hs b m f c =
    Safe-branch _ _ _ (λ _. returns _ (omega arith))
      λ header. Safe-read16 _ _ _ (ground arith) λ n.
        Safe-branch _ _ _ (λ _. returns _ (omega arith))
          λ whole. Safe-read _ _ _ (ground arith) λ type.
            let next : r + 5 + n ≤ length records = ground arith in
            Safe-branch _ _ _
              (λ _.
                Safe-branch _ _ _ (λ _. returns _ (omega arith))
                  λ small.
                    let limit : length hs + n ≤ tls_cap = ground arith in
                    Safe-room (length hs + n) _
                      (reserve-IsRoom allocates capacity (length hs + n) c limit) rejects
                      λ room enough bound. Safe-slice _ _ _ _ next λ part e.
                        Safe->>= _ _ (append_within-Safe room hs part (omega arith)) λ more k.
                          gather_from-Safe fuel allocates records (r + 5 + n) room more next
                            (omega arith) (omega arith) bound)
              λ _.
                gather_from-Safe fuel allocates records (r + 5 + n) capacity hs next (omega arith) f
                  c

module _ (sha512 : List ℕ → Option (List ℕ)) where
  hello_from-Safe :
      (fuel : ℕ) (client : Bool) (hs : List ℕ) (p : ℕ)
      → p ≤ length hs
      → length hs < p + fuel
      → Safe IsKey (hello_from sha512 fuel client hs p)
  unfolding hello_from sha512_parts
  hello_from-Safe zero client hs p b m = absurd (omega arith)
  hello_from-Safe (suc fuel) client hs p b m =
      Safe-branch _ _ _ (λ _. rejects)
        λ header. Safe-read _ _ _ (ground arith) λ type. Safe-read24 _ _ _ (ground arith) λ body.
          Safe-branch _ _ _ (λ _. rejects)
            λ whole.
              let next : p + 4 + body ≤ length hs = ground arith in
              let later = hello_from-Safe fuel client hs (p + 4 + body) next (omega arith) in
              Safe-branch _ _ _
                (λ _. Safe-slice _ _ _ _ next λ hello _.
                  Safe-attempt _ _ (parse_key_share-Safe client hello) later
                    λ share _. digest-IsKey sha512 _)
                λ _. later

  -- For any stream, `find_hello_key` reads inside it and inside the messages that it puts together,
  -- which are at most 256 KiB, and a key that it stores has 64 bytes.
  pub find_hello_key-Safe :
      (allocates : ℕ → Bool) (records : List ℕ) (client : Bool)
      → Safe IsKey (find_hello_key sha512 allocates records client)
  unfolding find_hello_key
  find_hello_key-Safe allocates records client =
      Safe->>= _ _
        (gather_from-Safe _ allocates records 0 0 [] (omega arith) (omega arith) (omega arith)
          (omega arith))
        λ hs _. hello_from-Safe _ client hs 0 (omega arith) (omega arith)
