-- ===== src/Packet/Tests.antt =====
-- Examples for the theorems on agents/linux/packet_view.c.
use tlslatch.Base.{ℕ, ◌+◌, ◌≤◌, List, [], ◌∷◌, some, false, ◌≡◌, refl, length, arith, ok, Safe, inl}
use tlslatch.Packet.{View, FlowKey, parse_ipv4_tcp, normalize_flow}
use tlslatch.Packet.RoundTrip.{IpHeader, TcpHeader, put_ip, put_tcp, view_of, parse_ipv4_tcp-put}
use tlslatch.Packet.Safety.{parse_ipv4_tcp-Safe, reverse_view, normalize_flow-reverse}

abbrev pub ip : IpHeader
ip = record {
  service = 0;
  total_length = 46;
  identification = 7;
  flags = 2;
  ttl = 64;
  checksum = 0;
  source = 16777343;
  destination = 33554559;
  options = 1 ∷ 1 ∷ 1 ∷ 0 ∷ [];
}

abbrev pub tcp : TcpHeader
tcp = record {
  source_port = 40000;
  destination_port = 443;
  sequence = 4294967290;
  acknowledgement = 5;
  reserved = 0;
  flags = 24;
  window = 500;
  checksum = 0;
  urgent = 0;
  options = [];
}

abbrev packet : List ℕ
packet = put_ip ip 1 (put_tcp tcp 0 (9 ∷ 9 ∷ []))

parse_ipv4_tcp-put_example : parse_ipv4_tcp packet ≡ ok (view_of ip tcp 0 (9 ∷ 9 ∷ []))
parse_ipv4_tcp-put_example =
    parse_ipv4_tcp-put ip tcp 1 0 (9 ∷ 9 ∷ []) packet
      (record {
        few = omega arith;
        padded = refl;
        flags_fit = omega arith;
        source_fits = omega arith;
        destination_fits = omega arith;
      })
      (record {
        few = omega arith;
        padded = refl;
        reserved_fits = omega arith;
        source_port_fits = omega arith;
        destination_port_fits = omega arith;
        sequence_fits = omega arith;
        acknowledgement_fits = omega arith;
      })
      refl

parse_ipv4_tcp-Safe_example :
    Safe (λ (view : View). length view.payload + 40 ≤ length packet) (parse_ipv4_tcp packet)
parse_ipv4_tcp-Safe_example = parse_ipv4_tcp-Safe packet

abbrev view : View
view = view_of ip tcp 0 (9 ∷ 9 ∷ [])

abbrev flow : FlowKey
flow = record { client_ip = 16777343; server_ip = 33554559; client_port = 40000; server_port = 443 }

normalize_flow-reverse_example : normalize_flow (reverse_view view) 443 ≡ some (flow, false)
unfolding normalize_flow
normalize_flow-reverse_example = normalize_flow-reverse view 443 (inl (omega arith)) refl
