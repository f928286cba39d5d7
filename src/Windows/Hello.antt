-- ===== src/Windows/Hello.antt =====
-- agents/windows/tcpra_agent_c.c: the view of a packet, and the keys of the two hellos, which are taken
-- from the handshake records of a stream, put together.
use tlslatch.Base.{
  ℕ, zero, suc, ◌+◌, ◌-◌, ◌*◌, ◌/◌, ◌%◌, List, [], ◌++◌, Option, some, none, Bool, true, false, ltb,
  ◌==◌, ◌/=◌, ◌&&◌, ◌||◌, if◌then◌else◌, length, same_bytes, Result, ok, reject, stuck, branch,
  reject_if, attempt, read, slice, ◌>>=◌, ◌>>◌,
}
use tlslatch.Tls.Digest.{read16, read24, digest, clienthello_label, serverhello_label}
use tlslatch.Packet.{read32}
use tlslatch.Windows.{FlowKey, PacketView, Config, tls_cap}
use tlslatch.Windows.Buffer.{reserve, append_within}

abbrev flag : ℕ → ℕ → Bool
flag flags bit = (flags / bit % 2) == 1

unfoldable pub directed : Config → List ℕ → List ℕ → ℕ → ℕ → Option (FlowKey × Bool)
directed config source destination source_port destination_port =
    if same_bytes destination config.server_addr && destination_port == config.main_port
    then some (
      record {
        local_ip = source;
        remote_ip = destination;
        local_port = source_port;
        remote_port = destination_port;
      },
      true,
    )
    else if same_bytes source config.server_addr && source_port == config.main_port
    then some (
      record {
        local_ip = destination;
        remote_ip = source;
        local_port = destination_port;
        remote_port = source_port;
      },
      false,
    )
    else none

unfoldable pub required : Option (FlowKey × Bool) → Result (FlowKey × Bool)
required none = reject
required (some found) = ok found

unfoldable pub packet_view : Config → List ℕ → Result PacketView
packet_view config packet = do
  reject_if (ltb (length packet) 40)
  version_ihl ← read packet 0
  reject_if (version_ihl / 16 /= 4)
  protocol ← read packet 9
  reject_if (protocol /= 6)
  let ihl = version_ihl % 16 * 4
  reject_if (ltb ihl 20 || ltb (length packet) (ihl + 20))
  data_offset ← read packet (ihl + 12)
  let thl = data_offset / 16 * 4
  reject_if (ltb thl 20 || ltb (length packet) (ihl + thl))
  source ← slice packet 12 4
  destination ← slice packet 16 4
  source_port ← read16 packet ihl
  destination_port ← read16 packet (ihl + 2)
  sequence ← read32 packet (ihl + 4)
  found ← required (directed config source destination source_port destination_port)
  flags ← read packet (ihl + 13)
  payload ← slice packet (ihl + thl) (length packet - (ihl + thl))
  ok (record {
    flow = found.0;
    sequence = sequence;
    outbound = found.1;
    syn = flag flags 2;
    ack = flag flags 16;
    fin = flag flags 1;
    rst = flag flags 4;
    payload = payload;
  })

-- The loop over the extensions; what is returned are the bytes of the first key shares.
unfoldable pub key_share_from : ℕ → List ℕ → ℕ → ℕ → Result (List ℕ)
key_share_from zero hello p end = stuck
key_share_from (suc fuel) hello p end = branch (ltb end (p + 4)) reject (do
  type ← read16 hello p
  item ← read16 hello (p + 2)
  reject_if (ltb end (p + 4 + item))
  branch (type == 51) (slice hello (p + 4) item) (key_share_from fuel hello (p + 4 + item) end))

unfoldable pub parse_client_key_share : List ℕ → Result (List ℕ)
parse_client_key_share hello = do
  reject_if (ltb (length hello) 35)
  session_id ← read hello 34
  reject_if (ltb (length hello) (35 + session_id + 2))
  suites ← read16 hello (35 + session_id)
  let p = 35 + session_id + 2
  reject_if (ltb (length hello) (p + suites + 1))
  compression ← read hello (p + suites)
  let q = p + suites + 1
  reject_if (ltb (length hello) (q + compression + 2))
  extensions ← read16 hello (q + compression)
  let r = q + compression + 2
  reject_if (ltb (length hello) (r + extensions))
  key_share_from (suc (length hello)) hello r (r + extensions)

unfoldable pub parse_server_key_share : List ℕ → Result (List ℕ)
parse_server_key_share hello = do
  reject_if (ltb (length hello) 35)
  session_id ← read hello 34
  reject_if (ltb (length hello) (35 + session_id + 5))
  let p = 35 + session_id + 3
  extensions ← read16 hello p
  let r = p + 2
  reject_if (ltb (length hello) (r + extensions))
  key_share_from (suc (length hello)) hello r (r + extensions)

abbrev pub parse_key_share : Bool → List ℕ → Result (List ℕ)
parse_key_share true hello = parse_client_key_share hello
parse_key_share false hello = parse_server_key_share hello

abbrev pub hello_type : Bool → ℕ
hello_type true = 1
hello_type false = 2

abbrev pub hello_label : Bool → List ℕ
hello_label true = clienthello_label
hello_label false = serverhello_label

module _ (sha512 : List ℕ → Option (List ℕ)) where
  unfoldable pub sha512_parts : List ℕ → List ℕ → Result (List ℕ)
  sha512_parts label bytes = digest sha512 (label ++ bytes)

  -- The loop over the messages: the first hello of the wanted kind with key shares gives the key.
  unfoldable pub hello_from : ℕ → Bool → List ℕ → ℕ → Result (List ℕ)
  hello_from zero client hs p = stuck
  hello_from (suc fuel) client hs p = branch (ltb (length hs) (p + 4)) reject (do
    type ← read hs p
    body ← read24 hs (p + 1)
    branch (ltb (length hs) (p + 4 + body)) reject (
        branch (type == hello_type client)
          (do
            hello ← slice hs (p + 4) body
            share ← attempt (parse_key_share client hello)
            elim share [
              | some bytes ↦ sha512_parts (hello_label client) bytes
              | none ↦ hello_from fuel client hs (p + 4 + body)
            ])
          (hello_from fuel client hs (p + 4 + body))))

-- The loop over the records; it ends where a record is not whole, or too much would be put together.
unfoldable pub gather_from : ℕ → (ℕ → Bool) → List ℕ → ℕ → ℕ → List ℕ → Result (List ℕ)
gather_from zero allocates records r capacity hs = stuck
gather_from (suc fuel) allocates records r capacity hs =
    branch (ltb (length records) (r + 5)) (ok hs) (do
      n ← read16 records (r + 3)
      branch (ltb (length records) (r + 5 + n)) (ok hs) (do
        type ← read records r
        branch (type == 22 && ltb 0 n)
            (branch (ltb tls_cap (length hs + n)) (ok hs)
              (elim (reserve allocates capacity (length hs + n)) [
                | none ↦ reject
                | some room ↦ do
                  part ← slice records (r + 5) n
                  more ← append_within room hs part
                  gather_from fuel allocates records (r + 5 + n) room more
              ]))
            (gather_from fuel allocates records (r + 5 + n) capacity hs)))

module _ (sha512 : List ℕ → Option (List ℕ)) where
  unfoldable pub find_hello_key : (ℕ → Bool) → List ℕ → Bool → Result (List ℕ)
  find_hello_key allocates records client = do
    hs ← gather_from (suc (length records)) allocates records 0 0 []
    hello_from sha512 (suc (length hs)) client hs 0
