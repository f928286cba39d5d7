-- ===== src/Windows/Tests.antt =====
-- Examples for the theorems on agents/windows/tcpra_agent_c.c: a session with its two hellos, a report of
-- zero bytes but for the curve, and a packet of data.
use tlslatch.Base.{
  ℕ, List, [], ◌∷◌, ◌++◌, Option, some, none, Bool, true, false, ◌≡◌, refl, arith, replicate,
  length, subst, ok, Safe, ◌>>=◌, reject_if, branch, read, slice, attempt, same_bytes,
}
use tlslatch.Protocol.{ra_magic, ra_version, ra_report_size}
use tlslatch.Tls.Digest.{read16, read24, digest, key_sized}
use tlslatch.Windows.{FlowKey, PacketView, Session}
use tlslatch.Windows.Buffer.{grow, new_capacity, reserve, append_within, buffer_append}
use tlslatch.Windows.Hello.{
  key_share_from, parse_client_key_share, parse_server_key_share, sha512_parts, hello_from,
  gather_from, find_hello_key,
}
use tlslatch.Windows.Inspect.{
  InspectEnv, action_send, find_client_key, find_server_key, observe_outbound, observe_inbound,
  observe, choose_action, inspect_packet,
}
use tlslatch.Packet.{read_word}
use tlslatch.Csv.{xor_word, xor_words, hex_value, hex_bytes, hex_decode}
use tlslatch.Windows.Report.{Trust, sm2_verify_signature, verify_pek, verify_report}
use tlslatch.Windows.Decide.{DecideEnv, shutdown_recv, release_from, allow, decide}
use tlslatch.Windows.Control.{
  write_be16, write_be32, ra_response, RequestEnv, Exchange, answered, take_report, exchange,
  request_report, FinishEnv, Finished, put_verdict, conclude, verify_answer, finish_request,
}
use tlslatch.Windows.Worker.{session_new}
use tlslatch.Windows.Bounds.Session.{IsSession}
use tlslatch.Windows.Bounds.Inspect.{IsInspected, inspect_packet-Safe}
use tlslatch.Windows.Run.Decision.{IsReleased, decide-IsReleased}
use tlslatch.Windows.Run.Life.{
  Life, opened, packet, requested, finished, IsApprovedIn, inspect_packet-IsApprovedIn,
}

abbrev sha512 : List ℕ → Option (List ℕ)
sha512 bytes = some (replicate 64 0)

abbrev env : InspectEnv
env = record { now_ns = 7; allocates = λ _. true }

abbrev flow : FlowKey
flow = record {
  local_ip = 10 ∷ 0 ∷ 0 ∷ 1 ∷ [];
  remote_ip = 10 ∷ 0 ∷ 0 ∷ 2 ∷ [];
  local_port = 50000;
  remote_port = 19443;
}

abbrev view_of : Bool → List ℕ → PacketView
view_of outbound payload = record {
  flow = flow;
  sequence = 1;
  outbound = outbound;
  syn = false;
  ack = true;
  fin = false;
  rst = false;
  payload = payload;
}

abbrev hello : List ℕ
hello =
    22
    ∷ 3
    ∷ 3
    ∷ 0
    ∷ 65
    ∷ 1
    ∷ 0
    ∷ 0
    ∷ 61
    ∷ (replicate 34 3
        ++ 1 ∷ 1 ∷ 0 ∷ 2 ∷ 19 ∷ 1 ∷ 1 ∷ 0 ∷ 0 ∷ 17 ∷ 0 ∷ 10 ∷ 0 ∷ 2 ∷ 0 ∷ 2 ∷ 0 ∷ 51 ∷ 0 ∷ 7 ∷ 0 ∷ 5
          ∷ 0 ∷ 29 ∷ 0 ∷ 1 ∷ 9 ∷ [])

abbrev server_hello : List ℕ
server_hello =
    22
    ∷ 3
    ∷ 3
    ∷ 0
    ∷ 61
    ∷ 2
    ∷ 0
    ∷ 0
    ∷ 57
    ∷ (replicate 34 3
        ++ 1 ∷ 1 ∷ 19 ∷ 1 ∷ 0 ∷ 0 ∷ 16 ∷ 0 ∷ 43 ∷ 0 ∷ 2 ∷ 3 ∷ 4 ∷ 0 ∷ 51 ∷ 0 ∷ 6 ∷ 0 ∷ 29 ∷ 0 ∷ 2
          ∷ 9 ∷ 8 ∷ [])

abbrev session1 : Session
session1 = record (session_new true 1) {
  client_tls = record { bytes = hello; capacity = 4096 };
  worker_started = true;
  row = record ((session_new true 1).row) {
    lookup_key = replicate 64 0;
    have_lookup_key = true;
    client_hello_ns = 7;
    packets_copied = 1;
    bytes_copied = 1;
  };
}

seen1 :
    inspect_packet sha512 env (view_of true hello) 0 (9 ∷ []) (session_new true 1)
    ≡ ok (record { session = session1; action = action_send; submit = true; detach = false })
unfolding session_new inspect_packet observe observe_outbound find_client_key buffer_append reserve
    new_capacity grow append_within find_hello_key gather_from hello_from parse_client_key_share
    key_share_from sha512_parts digest key_sized choose_action branch read read16 read24 slice
    attempt reject_if ◌>>=◌
seen1 = refl

abbrev session2 : Session
session2 = record session1 {
  server_tls = record { bytes = server_hello; capacity = 4096 };
  row = record (session1.row) {
    local_serverhello_key = replicate 64 0;
    have_local_serverhello_key = true;
    server_hello_ns = 7;
    packets_copied = 2;
    bytes_copied = 2;
  };
}

seen2 :
    inspect_packet sha512 env (view_of false server_hello) 0 (9 ∷ []) session1
    ≡ ok (record { session = session2; action = action_send; submit = false; detach = false })
unfolding session_new inspect_packet observe observe_inbound find_server_key buffer_append reserve
    new_capacity grow append_within find_hello_key gather_from hello_from parse_server_key_share
    key_share_from sha512_parts digest key_sized choose_action branch read read16 read24 slice
    attempt reject_if ◌>>=◌
seen2 = refl

-- The report: zero bytes but for the number of the curve in the certificate.
abbrev report : List ℕ
report = replicate 352 0 ++ 3 ∷ replicate 2195 0

abbrev header : List ℕ
header =
    write_be32 ra_magic
    ++ write_be16 ra_version
    ++ write_be16 ra_response
    ++ write_be32 0
    ++ write_be32 ra_report_size
    ++ replicate 72 0

abbrev request_env : RequestEnv
request_env = record {
  worker_id = 3;
  connected = false;
  connects = true;
  request_start_ns = 8;
  response_done_ns = 9;
  nonce = some (replicate 8 5);
  reply = λ _. some header;
  report = some report;
}

abbrev trust : Trust
trust = record { pek_text = some (replicate 128 48); measurement_text = some (replicate 64 48) }

abbrev any_signature : List ℕ → List ℕ → List ℕ → List ℕ → List ℕ → Bool
any_signature sec1 uid message r s = true

abbrev decide_env : DecideEnv
decide_env = record {
  now_ns = 12;
  is_tripped = false;
  tripped_before = λ _. false;
  drop_opens = true;
  takes = λ _. true;
}

abbrev finish_env : FinishEnv
finish_env = record {
  verify_start_ns = 10;
  verify_done_ns = 11;
  verdict_sent = true;
  decision = decide_env;
}

abbrev session3 : Session
session3 = record session2 {
  row = record (session2.row) {
    control_worker = 3;
    control_reused = false;
    request_start_ns = 8;
    response_status = 0;
    response_report_key = replicate 64 0;
    have_response_report_key = true;
    response_done_ns = 9;
  };
}

asked :
    request_report request_env session2
    ≡ (session3, answered (replicate 64 0) (replicate 8 5) (replicate 64 0) report)
unfolding session_new request_report exchange take_report
asked = refl

abbrev session4 : Session
session4 = record session3 {
  allowed = true;
  decision_done = true;
  row = record (session3.row) {
    key_match = true;
    verify_start_ns = 10;
    report_verify = true;
    verify_done_ns = 11;
    remote_verdict_sent = true;
    decision_ns = 12;
  };
}

verified : verify_report any_signature trust report (replicate 64 0) ≡ ok tt
unfolding verify_report verify_pek sm2_verify_signature xor_words xor_word hex_decode hex_bytes
    hex_value read_word read slice reject_if same_bytes ◌>>=◌
verified = refl

abbrev finished_with : Finished
finished_with = record {
  session = session4;
  effects = shutdown_recv ∷ [];
  verdict = put_verdict true (replicate 8 5) (replicate 64 0);
}

finishes :
    finish_request any_signature trust finish_env
      (answered (replicate 64 0) (replicate 8 5) (replicate 64 0) report)
      session3
    ≡ ok finished_with
unfolding session_new finish_request verify_answer conclude decide allow release_from same_bytes
    attempt verify_report verify_pek sm2_verify_signature xor_words xor_word hex_decode hex_bytes
    hex_value read_word read slice reject_if ◌>>=◌
finishes = refl

report_size : (found : List ℕ) → some report ≡ some found → length found ≡ ra_report_size
report_size found e =
    let same : report ≡ found = cc in subst (λ r. length r ≡ ra_report_size) same long
  where
    long : length report ≡ ra_report_size
    long = refl

life : Life sha512 any_signature trust session4 none
life =
    finished
      (subst (λ (r : Session × Exchange). Life sha512 any_signature trust r.0 (some r.1)) asked
        (requested
          (packet (packet (opened 1) env (view_of true hello) 0 (9 ∷ []) seen1) env
            (view_of false server_hello) 0 (9 ∷ []) seen2)
          request_env report_size))
      finish_env finishes

abbrev session5 : Session
session5 = record session4 {
  client_tls = record { bytes = hello ++ 23 ∷ []; capacity = 4096 };
  row = record (session4.row) { packets_copied = 3; bytes_copied = 3 };
}

sent :
    inspect_packet sha512 env (view_of true (23 ∷ [])) 0 (9 ∷ []) session4
    ≡ ok (record { session = session5; action = action_send; submit = false; detach = false })
unfolding session_new inspect_packet observe observe_outbound find_client_key buffer_append reserve
    new_capacity grow append_within choose_action branch attempt ◌>>=◌
sent = refl

inspect_packet-IsApprovedIn_example : IsApprovedIn sha512 any_signature trust life
inspect_packet-IsApprovedIn_example =
    inspect_packet-IsApprovedIn sha512 any_signature trust life env (view_of true (23 ∷ [])) 0
      (9 ∷ []) sent refl refl refl refl

abbrev held_session : Session
held_session = record session3 {
  held =
      (record { address = 1; bytes = 23 ∷ 3 ∷ [] }) ∷ record { address = 2; bytes = 24 ∷ [] } ∷ [];
  held_bytes = 3;
}

held_session-IsSession : IsSession held_session
unfolding session_new
held_session-IsSession = record {
  client = record { fits = omega arith; bounded = omega arith };
  server = record { fits = omega arith; bounded = omega arith };
  counted = refl;
  limit = omega arith;
  idle = λ e. absurd (cc);
  plain = λ e. absurd (cc);
}

inspect_packet-Safe_example :
    Safe
      (IsInspected (view_of true (23 ∷ [])) held_session)
      (inspect_packet sha512 env (view_of true (23 ∷ [])) 0 (9 ∷ []) held_session)
inspect_packet-Safe_example =
    inspect_packet-Safe sha512 env (view_of true (23 ∷ [])) 0 (9 ∷ []) held_session
      held_session-IsSession

decide-IsReleased_example :
    IsReleased decide_env true held_session (decide decide_env true [] held_session)
decide-IsReleased_example = decide-IsReleased decide_env [] held_session true
