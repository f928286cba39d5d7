-- ===== src/Packet.antt =====
-- agents/linux/packet_view.c: the view of an IPv4 TCP packet, and the flow that it belongs to.
-- `memcpy` into a wider integer reads it as a little-endian host does.
pub mod Tests
pub mod Safety
pub mod RoundTrip
use tlslatch.Base.{
  ℕ, ◌+◌, ◌-◌, ◌*◌, ◌/◌, ◌%◌, ◌^◌, List, Option, some, none, Bool, true, false, length, ltb, leb,
  ◌==◌, ◌/=◌, ◌||◌, if◌then◌else◌, Result, ok, ◌>>=◌, ◌>>◌, reject_if, read, slice,
}
use tlslatch.Tls.Digest.{read16}

-- `struct flow_key` of agents/linux/flow_gate.h
pub record FlowKey : Type 0 where
  pub client_ip : ℕ
  pub server_ip : ℕ
  pub client_port : ℕ
  pub server_port : ℕ

-- `struct tcpra_ipv4_tcp_view`; the payload and its length are one list
pub record View : Type 0 where
  pub source : ℕ
  pub destination : ℕ
  pub source_port : ℕ
  pub destination_port : ℕ
  pub tcp_flags : ℕ
  pub raw_sequence : ℕ
  pub acknowledgement : ℕ
  pub sequence : ℕ
  pub payload : List ℕ

abbrev pub le32 : ℕ → ℕ → ℕ → ℕ → ℕ
le32 a b c d = a + b * 256 + c * 65536 + d * 16777216

abbrev pub be32 : ℕ → ℕ → ℕ → ℕ → ℕ
be32 a b c d = a * 16777216 + b * 65536 + c * 256 + d

-- a `memcpy` of four bytes
unfoldable pub read_word : List ℕ → ℕ → Result ℕ
read_word packet i = do
  a ← read packet i
  b ← read packet (i + 1)
  c ← read packet (i + 2)
  d ← read packet (i + 3)
  ok (le32 a b c d)

-- a `memcpy` of four bytes and `ntohl`
unfoldable pub read32 : List ℕ → ℕ → Result ℕ
read32 packet i = do
  a ← read packet i
  b ← read packet (i + 1)
  c ← read packet (i + 2)
  d ← read packet (i + 3)
  ok (be32 a b c d)

abbrev pub ipproto_tcp : ℕ
ipproto_tcp = 6

unfoldable pub parse_ipv4_tcp : List ℕ → Result View
parse_ipv4_tcp packet = do
  reject_if (ltb (length packet) 40)
  version_ihl ← read packet 0
  reject_if ((version_ihl / 16) /= 4)
  protocol ← read packet 9
  reject_if (protocol /= ipproto_tcp)
  let ip_header = version_ihl % 16 * 4
  reject_if (ltb ip_header 20 || ltb (length packet) (ip_header + 20))
  fragment ← read16 packet 6
  reject_if ((fragment % 8192) /= 0)
  data_offset ← read packet (ip_header + 12)
  let tcp_header = data_offset / 16 % 16 * 4
  reject_if (ltb tcp_header 20 || ltb (length packet) (ip_header + tcp_header))
  source ← read_word packet 12
  destination ← read_word packet 16
  source_port ← read16 packet ip_header
  destination_port ← read16 packet (ip_header + 2)
  tcp_flags ← read packet (ip_header + 13)
  sequence ← read32 packet (ip_header + 4)
  acknowledgement ← read32 packet (ip_header + 8)
  payload ← slice packet (ip_header + tcp_header) (length packet - ip_header - tcp_header)
  ok (record {
    source = source;
    destination = destination;
    source_port = source_port;
    destination_port = destination_port;
    tcp_flags = tcp_flags;
    raw_sequence = sequence;
    acknowledgement = acknowledgement;
    sequence = (sequence + tcp_header) % 2 ^ 32;
    payload = payload;
  })

-- The flow, and whether the packet goes from the client to the server; `none` is `return 0`.
unfoldable pub normalize_flow : View → ℕ → Option (FlowKey × Bool)
normalize_flow view server_port =
    if view.destination_port == server_port
    then some (
      record {
        client_ip = view.source;
        server_ip = view.destination;
        client_port = view.source_port;
        server_port = view.destination_port;
      },
      true,
    )
    else if view.source_port == server_port
    then some (
      record {
        client_ip = view.destination;
        server_ip = view.source;
        client_port = view.destination_port;
        server_port = view.source_port;
      },
      false,
    )
    else none
