-- ===== src/Client/Scenario.antt =====
-- A flow through the client's agent of agents/linux/tcpra_client_agent.c, from its SYN to its data.
use tlslatch.Base.{ℕ, List, [], ◌∷◌, Option, some, true, false, refl, replicate, length}
use tlslatch.Packet.{FlowKey, View}
use tlslatch.Packet.RoundTrip.{IpHeader, TcpHeader, put_ip, put_tcp}
use tlslatch.Tls.Format.{put16, client_shares, server_share, put_clienthello, put_serverhello}
use tlslatch.Client.State.{Agent, Env, Session, Counters, zero_gate}
use tlslatch.Client.Sessions.{new_session}
use tlslatch.Client.Handler.{nfqueue_callback}
use tlslatch.Client.Decision.{apply_decision_impl}
use tlslatch.Client.Gate.Run.{Run, starts, packet, decision}

abbrev pub sha512 : List ℕ → Option (List ℕ)
sha512 bytes = some (replicate 64 7)

abbrev pub no_counts : Counters
no_counts = record {
  copied_packets = 0;
  copied_bytes = 0;
  accepted_packets = 0;
  dropped_packets = 0;
  held_packets = 0;
  released_packets = 0;
  client_hellos = 0;
  server_hellos = 0;
  decisions_allowed = 0;
  decisions_denied = 0;
  decision_mismatches = 0;
  timeouts = 0;
  flow_map_deletes = 0;
  flow_map_delete_misses = 0;
  flow_generation_resets = 0;
  flow_table_full = 0;
  held_table_full = 0;
  job_queue_full = 0;
}

-- An agent before the first packet. Its table has the one slot that the flow below falls into.
abbrev pub start : Agent
start = record {
  audit_only = false;
  mutual_ra = false;
  has_selector = false;
  main_port = 443;
  timeout_ns = 1000;
  expected_sessions = 4;
  audit = record { items = []; capacity = 0; failed = false };
  endpoint_quarantined = false;
  sessions = [];
  started_sessions = 0;
  completed_sessions = 0;
  verified_sessions = 0;
  failed_sessions = 0;
  jobs = record { slots = replicate 4 0; head = 0; tail = 0; count = 0 };
  decisions = record { slots = replicate 4 0; head = 0; tail = 0; count = 0 };
  stopping = false;
  flows = replicate 1 zero_gate;
  counters = no_counts;
  last_expiry_scan_ns = 0;
  verdicts = [];
  quarantine_calls = 0;
}

abbrev pub env : Env
env = record {
  clock = λ n. 5000;
  wall_clock = 6000;
  socket_cookie = λ flow state. some 9;
  verdict_ok = λ id. true;
  alloc_ok = true;
  selector_delete = λ flow. true;
  event_ok = true;
}

abbrev pub flow : FlowKey
flow = record { client_ip = 1; server_ip = 2; client_port = 737; server_port = 443 }

abbrev pub ip_header : ℕ → ℕ → IpHeader
ip_header source destination = record {
  service = 0;
  total_length = 40;
  identification = 0;
  flags = 0;
  ttl = 64;
  checksum = 0;
  source = source;
  destination = destination;
  options = [];
}

abbrev pub tcp_header : ℕ → ℕ → ℕ → TcpHeader
tcp_header source_port destination_port flags = record {
  source_port = source_port;
  destination_port = destination_port;
  sequence = 0;
  acknowledgement = 0;
  reserved = 0;
  flags = flags;
  window = 0;
  checksum = 0;
  urgent = 0;
  options = [];
}

abbrev pub in_record : List ℕ → List ℕ
in_record message = 22 ∷ 3 ∷ 3 ∷ put16 (length message) message

abbrev pub syn : List ℕ
syn = put_ip (ip_header 1 2) 0 (put_tcp (tcp_header 737 443 2) 0 [])

abbrev pub client_hello : List ℕ
client_hello = put_ip (ip_header 1 2) 0 (
    put_tcp (tcp_header 737 443 24) 0 (
      in_record (
        put_clienthello
          (record {
            version_and_random = replicate 34 3;
            session_id = [];
            suites = 19 ∷ 1 ∷ [];
            compression = 0 ∷ [];
            extensions = client_shares (0 ∷ 29 ∷ 0 ∷ 1 ∷ 9 ∷ []) ∷ [];
          })
          [])))

abbrev pub server_hello_packet : List ℕ
server_hello_packet = put_ip (ip_header 2 1) 0 (
    put_tcp (tcp_header 443 737 24) 0 (
      in_record (
        put_serverhello
          (record {
            version_and_random = replicate 34 3;
            session_id = [];
            suite = 4865;
            compression = 0;
            extensions = server_share 29 (9 ∷ []) ∷ [];
          })
          [])))

abbrev pub data_view : View
data_view = record {
  source = 1;
  destination = 2;
  source_port = 737;
  destination_port = 443;
  tcp_flags = 24;
  raw_sequence = 0;
  acknowledgement = 0;
  sequence = 20;
  payload = 23 ∷ 3 ∷ 3 ∷ 0 ∷ 1 ∷ 5 ∷ [];
}

-- The session of the flow, as its control thread leaves it before the decision.
abbrev pub verified_session : Session
verified_session = record (new_session 1 flow (replicate 64 7) 5000) {
  local_report_key = replicate 64 7;
  has_server_hello = true;
  report_verify = true;
}

abbrev pub after_hellos : Agent
after_hellos =
    nfqueue_callback sha512 env server_hello_packet 3
      (nfqueue_callback sha512 env client_hello 2 (nfqueue_callback sha512 env syn 1 start))

abbrev pub after_decision : Agent
after_decision = apply_decision_impl env verified_session after_hellos

abbrev pub run : Run sha512 after_decision
run = decision env verified_session _ (
    packet env server_hello_packet 3 _
      (packet env client_hello 2 _ (packet env syn 1 _ (starts 1 start refl))))
