-- ===== src/Packet/RoundTrip.antt =====
-- `tcpra_parse_ipv4_tcp` on packets as RFC 791 and RFC 9293 lay them out.
use tlslatch.Base.{
  ℕ, suc, ◌+◌, ◌-◌, ◌*◌, ◌/◌, ◌%◌, ◌^◌, ◌≤◌, ◌<◌, ◌≡◌, refl, sym, subst, ap, List, [], ◌∷◌, ◌++◌,
  some, length, arith, ok, get_elem?, append-nil,
}
use tlslatch.Tls.Format.{put16}
use tlslatch.Tls.Cursor.{
  At, At-length, At-skip, At-read, At-read16, At-u16, At-slice, bind-ok, reject_if-pass,
}
use tlslatch.Packet.{View, read_word, read32, parse_ipv4_tcp}

-- A number as the host stores it, and in network order.
abbrev put_word : ℕ → List ℕ → List ℕ
put_word n rest = n % 256 ∷ n / 256 % 256 ∷ n / 65536 % 256 ∷ n / 16777216 % 256 ∷ rest

abbrev put32 : ℕ → List ℕ → List ℕ
put32 n rest = n / 16777216 % 256 ∷ n / 65536 % 256 ∷ n / 256 % 256 ∷ n % 256 ∷ rest

pub record IpHeader : Type 0 where
  pub service : ℕ
  pub total_length : ℕ
  pub identification : ℕ
  pub flags : ℕ
  pub ttl : ℕ
  pub checksum : ℕ
  pub source : ℕ
  pub destination : ℕ
  pub options : List ℕ

pub record TcpHeader : Type 0 where
  pub source_port : ℕ
  pub destination_port : ℕ
  pub sequence : ℕ
  pub acknowledgement : ℕ
  pub reserved : ℕ
  pub flags : ℕ
  pub window : ℕ
  pub checksum : ℕ
  pub urgent : ℕ
  pub options : List ℕ

-- `words` is the length of the options in 32-bit words; the fragment offset is 0.
unfoldable pub put_ip : IpHeader → ℕ → List ℕ → List ℕ
put_ip h words rest =
    (69 + words)
    ∷ h.service
    ∷ put16 h.total_length (
        put16 h.identification (
          h.flags * 32
          ∷ 0
          ∷ h.ttl
          ∷ 6
          ∷ put16 h.checksum (put_word h.source (put_word h.destination (h.options ++ rest)))))

unfoldable pub put_tcp : TcpHeader → ℕ → List ℕ → List ℕ
put_tcp h words rest = put16 h.source_port (
    put16 h.destination_port (
      put32 h.sequence (
        put32 h.acknowledgement (
          ((5 + words) * 16 + h.reserved)
          ∷ h.flags
          ∷ put16 h.window (put16 h.checksum (put16 h.urgent (h.options ++ rest)))))))

pub record IsIp (h : IpHeader) (words : ℕ) : Type 0 where
  pub few : words ≤ 10
  pub padded : length h.options ≡ 4 * words
  pub flags_fit : h.flags < 8
  pub source_fits : h.source < 2 ^ 32
  pub destination_fits : h.destination < 2 ^ 32

pub record IsTcp (h : TcpHeader) (words : ℕ) : Type 0 where
  pub few : words ≤ 10
  pub padded : length h.options ≡ 4 * words
  pub reserved_fits : h.reserved < 16
  pub source_port_fits : h.source_port < 65536
  pub destination_port_fits : h.destination_port < 65536
  pub sequence_fits : h.sequence < 2 ^ 32
  pub acknowledgement_fits : h.acknowledgement < 2 ^ 32

-- What the packet means. The sequence number is moved on by the length of the TCP header.
abbrev pub view_of : IpHeader → TcpHeader → ℕ → List ℕ → View
view_of ip tcp words payload = record {
  source = ip.source;
  destination = ip.destination;
  source_port = tcp.source_port;
  destination_port = tcp.destination_port;
  tcp_flags = tcp.flags;
  raw_sequence = tcp.sequence;
  acknowledgement = tcp.acknowledgement;
  sequence = (tcp.sequence + (5 + words) * 4) % 2 ^ 32;
  payload = payload;
}

module _ {packet : List ℕ} {i : ℕ} {rest : List ℕ} (n j k : ℕ) where
  At-word :
      At packet i rest
      → j ≡ i + k
      → n < 2 ^ 32
      → get_elem? rest k ≡ some (n % 256)
      → get_elem? rest (suc k) ≡ some (n / 256 % 256)
      → get_elem? rest (suc (suc k)) ≡ some (n / 65536 % 256)
      → get_elem? rest (suc (suc (suc k))) ≡ some (n / 16777216 % 256)
      → read_word packet j ≡ ok n
  unfolding read_word
  At-word h e l p q r s = bind-ok _ _ (At-read j k _ h e p) (
      bind-ok _ _ (At-read (j + 1) (suc k) _ h (omega arith) q) (
        bind-ok _ _ (At-read (j + 2) (suc (suc k)) _ h (omega arith) r) (
          bind-ok _ _ (At-read (j + 3) (suc (suc (suc k))) _ h (omega arith) s)
            (ap ok (omega arith)))))

  At-u32 :
      At packet i rest
      → j ≡ i + k
      → n < 2 ^ 32
      → get_elem? rest k ≡ some (n / 16777216 % 256)
      → get_elem? rest (suc k) ≡ some (n / 65536 % 256)
      → get_elem? rest (suc (suc k)) ≡ some (n / 256 % 256)
      → get_elem? rest (suc (suc (suc k))) ≡ some (n % 256)
      → read32 packet j ≡ ok n
  unfolding read32
  At-u32 h e l p q r s = bind-ok _ _ (At-read j k _ h e p) (
      bind-ok _ _ (At-read (j + 1) (suc k) _ h (omega arith) q) (
        bind-ok _ _ (At-read (j + 2) (suc (suc k)) _ h (omega arith) r) (
          bind-ok _ _ (At-read (j + 3) (suc (suc (suc k))) _ h (omega arith) s)
            (ap ok (omega arith)))))

module _ (ip : IpHeader) (tcp : TcpHeader) (ip_words tcp_words : ℕ) (payload packet : List ℕ) where
  -- `tcpra_parse_ipv4_tcp` reads an unfragmented IPv4 packet with a TCP segment, with options or
  -- without, as the view that its fields mean.
  pub parse_ipv4_tcp-put :
      IsIp ip ip_words
      → IsTcp tcp tcp_words
      → packet ≡ put_ip ip ip_words (put_tcp tcp tcp_words payload)
      → parse_ipv4_tcp packet ≡ ok (view_of ip tcp tcp_words payload)
  unfolding parse_ipv4_tcp put_ip put_tcp
  parse_ipv4_tcp-put u v e =
      let h : At packet 0 (put_ip ip ip_words (put_tcp tcp tcp_words payload)) = record {
        front = [];
        splits = e;
        index = refl;
      } in
      let i = (69 + ip_words) % 16 * 4 in
      let after_ip : At packet 20 (ip.options ++ put_tcp tcp tcp_words payload) =
        At-skip
          ((69 + ip_words)
            ∷ ip.service
            ∷ put16 ip.total_length (
                put16 ip.identification (
                  ip.flags * 32
                  ∷ 0
                  ∷ ip.ttl
                  ∷ 6
                  ∷ put16 ip.checksum (put_word ip.source (put_word ip.destination [])))))
          _ 20 h refl in
      let at_tcp : At packet i (put_tcp tcp tcp_words payload) =
        At-skip ip.options _ i after_ip (omega arith) in
      let after_tcp : At packet (i + 20) (tcp.options ++ payload) =
        At-skip
          (put16 tcp.source_port (
            put16 tcp.destination_port (
              put32 tcp.sequence (
                put32 tcp.acknowledgement (
                  ((5 + tcp_words) * 16 + tcp.reserved)
                  ∷ tcp.flags
                  ∷ put16 tcp.window (put16 tcp.checksum (put16 tcp.urgent [])))))))
          _ (i + 20) at_tcp refl in
      let t = ((5 + tcp_words) * 16 + tcp.reserved) / 16 % 16 * 4 in
      let at_payload : At packet (i + t) payload =
        At-skip tcp.options _ (i + t) after_tcp (omega arith) in
      let size = At-length payload at_payload in
      reject_if-pass _ _ (ground arith) (
        bind-ok _ _ (At-read 0 0 (69 + ip_words) h refl refl) (
          reject_if-pass _ _ (ground arith) (
            bind-ok _ _ (At-read 9 9 6 h refl refl) (
              reject_if-pass _ _ refl (
                reject_if-pass _ _ (ground arith) (
                  bind-ok _ _ (At-read16 6 6 (ip.flags * 32) 0 h refl refl refl) (
                    reject_if-pass _ _ (ground arith) (
                      bind-ok _ _
                        (At-read (i + 12) 12 ((5 + tcp_words) * 16 + tcp.reserved) at_tcp refl refl)
                        (reject_if-pass _ _ (ground arith) (
                          bind-ok _ _
                            (At-word ip.source 12 12 h refl u.source_fits refl refl refl refl)
                            (bind-ok _ _
                              (At-word ip.destination 16 16 h refl u.destination_fits refl refl refl
                                refl)
                              (bind-ok _ _ (At-u16 tcp.source_port i at_tcp refl v.source_port_fits)
                                (bind-ok _ _
                                  (At-u16 tcp.destination_port (i + 2)
                                    (At-skip (put16 tcp.source_port []) _ (i + 2) at_tcp refl) refl
                                    v.destination_port_fits)
                                  (bind-ok _ _ (At-read (i + 13) 13 tcp.flags at_tcp refl refl) (
                                    bind-ok _ _
                                      (At-u32 tcp.sequence (i + 4) 4 at_tcp refl v.sequence_fits
                                        refl refl refl refl)
                                      (bind-ok _ _
                                        (At-u32 tcp.acknowledgement (i + 8) 8 at_tcp refl
                                          v.acknowledgement_fits refl refl refl refl)
                                        (bind-ok _ _
                                          (At-slice payload [] (length packet - i - t)
                                            (subst (λ rest. At packet (i + t) rest)
                                              (sym (append-nil payload)) at_payload)
                                            (omega arith))
                                          (ap
                                            (λ s. ok (record (view_of ip tcp tcp_words payload) {
                                              sequence = s;
                                            }))
                                            (omega arith)))))))))))))))))))
