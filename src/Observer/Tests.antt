-- ===== src/Observer/Tests.antt =====
-- Examples for the theorems on agents/linux/pcap_observer.c: a ClientHello of 70 bytes, in three
-- segments and whole, and the ServerHello that answers it.
use tlslatch.Base.{
  ℕ, ◌+◌, List, [], ◌∷◌, ◌++◌, Option, some, none, true, false, subst, sym, get_or-replicate, ◌≡◌,
  refl, replicate, arith, ok, Safe, get_or, ◌>>=◌, reject_if, branch, read, slice,
}
use tlslatch.Packet.{FlowKey, View}
use tlslatch.Packet.RoundTrip.{put_ip, put_tcp}
use tlslatch.Packet.Tests.{ip, tcp}
use tlslatch.Tls.Hello.{
  ServerShare, extract_clienthello_lookup, clienthello_extensions, extract_serverhello,
  serverhello_extensions,
}
use tlslatch.Tls.Digest.{
  clienthello_label, serverhello_label, client_lookup_from_key_share, digest, digest_share,
  key_sized, read16, read24,
}
use tlslatch.Tls.Records.{
  find_handshake, find_records, find_in_record, extract_wanted, lookup_key_of, share_of, return_or,
  tls_find_clienthello, tls_find_serverhello,
}
use tlslatch.Observer.{Observer, Env, lookup_callback, Handled}
use tlslatch.Observer.Stashes.{zero_stash}
use tlslatch.Observer.Capture.{capture_client, capture_server, capture_packet, key_call}
use tlslatch.Observer.Bounds.{IsStash, AreStashes, zero_stash-IsStash}
use tlslatch.Observer.Bounds.Capture.{AreCaptured, capture_packet-Safe}
use tlslatch.Observer.Gather.Whole.{Segments}
use tlslatch.Observer.Recover.{capture_server-recovers}

abbrev sha512 : List ℕ → Option (List ℕ)
sha512 bytes = some (replicate 64 (get_or bytes 0 0))

abbrev observer : Observer
observer = record {
  datalink = 1;
  server_port = 443;
  stashes = replicate 128 zero_stash;
  force_once = false;
  copied_packets = 0;
  copied_bytes = 0;
  ch_split = 0;
  ch_reassembled = 0;
  ch_deferred = 0;
  ch_recovered = 0;
  ch_ack_mismatch = 0;
  ch_stale = 0;
}

abbrev flow : FlowKey
flow = record { client_ip = 1; server_ip = 2; client_port = 40000; server_port = 443 }

abbrev at_time : ℕ → Option ℕ → Env
at_time now cookie = record {
  now_ns = now;
  socket_cookie = λ _. cookie;
  fresh_cookie = λ _. cookie;
  answers = λ _. true;
}

abbrev view_at : ℕ → List ℕ → View
view_at raw_sequence payload = record {
  source = 1;
  destination = 2;
  source_port = 40000;
  destination_port = 443;
  tcp_flags = 24;
  raw_sequence = raw_sequence;
  acknowledgement = 570;
  sequence = raw_sequence + 20;
  payload = payload;
}

abbrev part1 : List ℕ
part1 = 22 ∷ 3 ∷ 3 ∷ 0 ∷ 65 ∷ 1 ∷ 0 ∷ 0 ∷ 61 ∷ replicate 11 3

abbrev part2 : List ℕ
part2 = replicate 13 3

abbrev part3 : List ℕ
part3 =
    replicate 10 3
    ++ 1 ∷ 1 ∷ 0 ∷ 2 ∷ 19 ∷ 1 ∷ 1 ∷ 0 ∷ 0 ∷ 17 ∷ 0 ∷ 10 ∷ 0 ∷ 2 ∷ 0 ∷ 2 ∷ 0 ∷ 51 ∷ 0 ∷ 7 ∷ 0 ∷ 5 ∷ 0
      ∷ 29 ∷ 0 ∷ 1 ∷ 9 ∷ []

abbrev hello_key : List ℕ
hello_key = replicate 64 (get_or clienthello_label 0 0)

hello_found : tls_find_clienthello sha512 (part1 ++ part2 ++ part3) ≡ ok hello_key
unfolding tls_find_clienthello find_handshake find_records find_in_record extract_wanted
    extract_clienthello_lookup clienthello_extensions client_lookup_from_key_share digest
    digest_share key_sized lookup_key_of return_or branch read read16 read24 slice reject_if ◌>>=◌
hello_found = refl

abbrev share : ServerShare
share = record {
  group_id = 29;
  public_key = 9 ∷ 8 ∷ [];
  public_key_length = 2;
  report_key = replicate 64 (get_or serverhello_label 0 0);
}

abbrev server_payload : List ℕ
server_payload =
    22
    ∷ 3
    ∷ 3
    ∷ 0
    ∷ 61
    ∷ 2
    ∷ 0
    ∷ 0
    ∷ 57
    ∷ (replicate 34 3
        ++ 1 ∷ 1 ∷ 19 ∷ 1 ∷ 0 ∷ 0 ∷ 16 ∷ 0 ∷ 43 ∷ 0 ∷ 2 ∷ 3 ∷ 4 ∷ 0 ∷ 51 ∷ 0 ∷ 6 ∷ 0 ∷ 29 ∷ 0 ∷ 2
          ∷ 9 ∷ 8 ∷ [])

server_found : tls_find_serverhello sha512 server_payload ≡ ok share
unfolding tls_find_serverhello find_handshake find_records find_in_record extract_wanted
    extract_serverhello serverhello_extensions digest digest_share key_sized share_of return_or
    branch read read16 read24 slice reject_if ◌>>=◌
server_found = refl

abbrev segments : Segments
segments = (at_time 2000 none, view_at 520 part2) ∷ (at_time 3000 (some 7), view_at 533 part3) ∷ []

abbrev answer : View
answer = record (view_at 900 server_payload) { source_port = 443; destination_port = 40000 }

capture_server-recovers_example :
    (between : Handled) × (after : Observer) × (capture_client sha512
        (at_time 1000 none)
        observer
        flow
        (view_at 500 (part1 ++ part2 ++ part3))
      ≡ ok between)
    × (between.calls ≡ [])
    × (capture_server sha512 (at_time 4000 (some 7)) between.observer flow answer
        ≡ ok (record {
          observer = after;
          calls =
              lookup_callback flow hello_key 1000 7
              ∷ key_call (at_time 4000 (some 7)) flow share 7
              ∷ [];
        }))
capture_server-recovers_example =
    capture_server-recovers sha512 flow (at_time 1000 none) (at_time 4000 (some 7))
      (view_at 500 (part1 ++ part2 ++ part3)) answer observer share hello_key 7
      (record { header = omega arith; handshake = refl; size = refl }) (omega arith) (omega arith)
      hello_found (omega arith) refl refl
      (record { long = omega arith; handshake = refl; hello = server_found; acknowledges = refl })
      (omega arith) (omega arith) refl refl

abbrev ethernet : List ℕ → List ℕ
ethernet rest = 0 ∷ 0 ∷ 0 ∷ 0 ∷ 0 ∷ 0 ∷ 0 ∷ 0 ∷ 0 ∷ 0 ∷ 0 ∷ 1 ∷ 129 ∷ 0 ∷ 0 ∷ 5 ∷ 8 ∷ 0 ∷ rest

capture_packet-Safe_example : Safe AreCaptured (
    capture_packet sha512
      (at_time 1000 none)
      false
      (ethernet (put_ip ip 1 (put_tcp tcp 0 part1)))
      (record { input = observer; output = observer }))
capture_packet-Safe_example =
    capture_packet-Safe sha512 (at_time 1000 none) false
      (ethernet (put_ip ip 1 (put_tcp tcp 0 part1)))
      (record { input = observer; output = observer }) (empty, empty)
  where
    empty : AreStashes observer
    empty i = subst IsStash (sym (get_or-replicate 128 i zero_stash)) zero_stash-IsStash
