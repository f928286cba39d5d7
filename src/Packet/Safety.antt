-- ===== src/Packet/Safety.antt =====
-- agents/linux/packet_view.c reads inside the packet, and gives both directions one flow.
use tlslatch.Base.{
  ℕ, ◌+◌, ◌≤◌, ◌<◌, ◌≡◌, ◌≢◌, ◌⊎◌, List, some, Bool, not, length, arith, Result, Safe, returns,
  Safe->>=, Safe-reject_if, Safe-read, Safe-slice, ◌>>=◌,
}
use tlslatch.Tls.Safety.{Safe-read16}
use tlslatch.Packet.{View, FlowKey, read_word, read32, parse_ipv4_tcp, normalize_flow}

module _ {B : Type 0} {Q : B → Type 0} (packet : List ℕ) (i : ℕ) (f : ℕ → Result B) where
  pub Safe-read_word :
      i + 3 < length packet → ((v : ℕ) → Safe Q (f v)) → Safe Q (read_word packet i >>= f)
  unfolding read_word
  Safe-read_word h k =
      Safe->>= {P = λ _. Unit {0}} _ _
        (Safe-read _ _ _ (omega arith) λ _.
          Safe-read _ _ _ (omega arith)
            λ _. Safe-read _ _ _ (omega arith) λ _. Safe-read _ _ _ h λ _. returns _ tt)
        λ v _. k v

  pub Safe-read32 :
      i + 3 < length packet → ((v : ℕ) → Safe Q (f v)) → Safe Q (read32 packet i >>= f)
  unfolding read32
  Safe-read32 h k =
      Safe->>= {P = λ _. Unit {0}} _ _
        (Safe-read _ _ _ (omega arith) λ _.
          Safe-read _ _ _ (omega arith)
            λ _. Safe-read _ _ _ (omega arith) λ _. Safe-read _ _ _ h λ _. returns _ tt)
        λ v _. k v

-- Whatever the packet, `tcpra_parse_ipv4_tcp` reads inside it, and a view that it fills has a payload
-- at least 40 bytes shorter than the packet.
pub parse_ipv4_tcp-Safe :
    (packet : List ℕ)
    → Safe (λ (view : View). length view.payload + 40 ≤ length packet) (parse_ipv4_tcp packet)
unfolding parse_ipv4_tcp
parse_ipv4_tcp-Safe packet = Safe-reject_if _ _ λ long.
    Safe-read _ _ _ (ground arith) λ version_ihl. Safe-reject_if _ _ λ _.
      Safe-read _ _ _ (ground arith) λ protocol. Safe-reject_if _ _ λ _. Safe-reject_if _ _ λ ip.
        Safe-read16 _ _ _ (ground arith) λ fragment. Safe-reject_if _ _ λ _.
          Safe-read _ _ _ (ground arith) λ data_offset. Safe-reject_if _ _ λ tcp.
            Safe-read_word _ _ _ (ground arith) λ source.
              Safe-read_word _ _ _ (ground arith) λ destination.
                Safe-read16 _ _ _ (ground arith) λ source_port.
                  Safe-read16 _ _ _ (ground arith) λ destination_port.
                    Safe-read _ _ _ (ground arith) λ tcp_flags.
                      Safe-read32 _ _ _ (ground arith) λ sequence.
                        Safe-read32 _ _ _ (ground arith) λ acknowledgement.
                          Safe-slice _ _ _ _ (ground arith) λ payload e. returns _ (ground arith)

-- The answer to a packet: addresses and ports change places.
abbrev pub reverse_view : View → View
reverse_view view = record view {
  source = view.destination;
  destination = view.source;
  source_port = view.destination_port;
  destination_port = view.source_port;
}

-- A packet and its answer belong to one flow, and go in opposite directions, unless both ports are
-- the server's.
pub normalize_flow-reverse :
    (view : View) (server_port : ℕ) {flow : FlowKey} {direction : Bool}
    → (view.source_port ≢ server_port) ⊎ (view.destination_port ≢ server_port)
    → normalize_flow view server_port ≡ some (flow, direction)
    → normalize_flow (reverse_view view) server_port ≡ some (flow, not direction)
unfolding normalize_flow
normalize_flow-reverse view server_port h e = ground arith
