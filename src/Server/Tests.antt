-- ===== src/Server/Tests.antt =====
-- Examples for the theorems on agents/linux/tcpra_server_agent.c.
use tlslatch.Base.{
  ℕ, zero, suc, inl, List, [], ◌∷◌, Option, none, some, Bool, length, Safe, true, false, ◌≡◌, ◌≢◌,
  refl, replicate, same_bytes,
}
use tlslatch.Protocol.{ra_report_size}
use tlslatch.Csv.{Context}
use tlslatch.Server.Worker.{answer_request}
use tlslatch.Server.Mutual.{IsAnswered, answer_request-IsAnswered}
use tlslatch.Slots.{taken}
use tlslatch.Packet.{FlowKey}
use tlslatch.Ring.{enqueue}
use tlslatch.Server.State.{CacheEntry, zero_entry, Agent, Env, ReportJob, entry_at, same_flow}
use tlslatch.Server.Index.{
  hash_bytes, lookup_hash, index_from, find_lookup_index, find_lookup_entry,
}
use tlslatch.Server.Schedule.{
  attestation_key_of, enqueue_report, queue_report, schedule_report_locked,
}
use tlslatch.Server.Control.{
  Request, ra_ok, register_request, register_entry, deliver_entry, wait_for_report,
}
use tlslatch.Server.Serving.{Run, starts, requested, stored, waited, IsDeliveredIn}
use tlslatch.Server.Serving.Answered.{IsEntitled, wait_for_report-once, wait_for_report-IsEntitled}
use tlslatch.Server.Observe.{store_report}

abbrev sha512 : List ℕ → Option (List ℕ)
sha512 bytes = some (replicate 64 7)

-- A key whose hash is 0.
abbrev key : List ℕ
key = 11 ∷ 24 ∷ replicate 62 0

abbrev flow : FlowKey
flow = record { client_ip = 1; server_ip = 2; client_port = 737; server_port = 443 }

-- The entry behind both hellos.
abbrev observed : CacheEntry
observed = record zero_entry {
  occupancy = taken;
  has_lookup_key = true;
  lookup_observed = true;
  has_report_key = true;
  flow = flow;
  socket_cookie = 9;
  lookup_key = key;
  report_key = replicate 64 7;
  observed_ns = 1000;
  lookup_observed_ns = 900;
}

-- The entry with its report.
abbrev reported : CacheEntry
reported = record observed {
  request_received = true;
  ready = true;
  request_nonce = replicate 8 5;
  report = replicate 3 1;
  report_start_ns = 1100;
  report_done_ns = 1200;
}

abbrev agent_with : CacheEntry → Agent
agent_with entry = record {
  expected_sessions = 4;
  mutual_ra = false;
  deferred = false;
  epoch = [];
  d_seq = 0;
  cache = entry ∷ [];
  lookup_index = record { occupancy = taken; cache_slot = 0; lookup_key = key } ∷ [];
  records = [];
  jobs = record { slots = []; head = 0; tail = 0; count = 0 };
  counters = record {
    client_hellos = 1;
    duplicate_keys = 0;
    report_failures = 0;
    client_reports_verified = 0;
    client_report_failures = 0;
    report_queue_full = 0;
    cache_full = 0;
  };
  stopping = false;
}

abbrev env : Env
env = record { clock = λ n. 2000; wall_clock = 3000; socket_cookie = λ flow. some 9 }

abbrev request : Request
request = record { lookup_key = key; client_nonce = replicate 8 5 }

none_received : (i : ℕ) → (entry_at (agent_with observed) i).request_received ≡ false
none_received zero = refl
none_received (suc i) = refl

abbrev registered_agent : Agent
registered_agent = (register_request sha512 env request 1500 (agent_with observed)).1

-- The report comes while the request waits.
abbrev job : ReportJob
job = record { slot = 0; flow = flow; report_key = replicate 64 7 }

abbrev stored_agent : Agent
stored_agent = store_report job (some (replicate 3 1)) 1800 registered_agent

run : Run sha512 stored_agent
run =
    stored job (some (replicate 3 1)) 1800 registered_agent (
      requested env request 1500 (agent_with observed) (starts (agent_with observed) none_received))

delivered : (wait_for_report env request 1500 stored_agent).0.0 ≡ some ra_ok
unfolding register_request register_entry store_report wait_for_report deliver_entry
    find_lookup_entry find_lookup_index index_from lookup_hash hash_bytes same_bytes
    schedule_report_locked attestation_key_of queue_report enqueue_report enqueue same_flow
delivered = refl

found : find_lookup_entry stored_agent key ≡ some 0
unfolding register_request register_entry store_report find_lookup_entry find_lookup_index
    index_from lookup_hash hash_bytes same_bytes schedule_report_locked attestation_key_of
    queue_report enqueue_report enqueue same_flow
found = refl

found_again : find_lookup_entry (wait_for_report env request 1500 stored_agent).1 key ≡ some 0
unfolding register_request register_entry store_report wait_for_report deliver_entry
    find_lookup_entry find_lookup_index index_from lookup_hash hash_bytes same_bytes
    schedule_report_locked attestation_key_of queue_report enqueue_report enqueue same_flow
found_again = refl

wait_for_report-IsEntitled_example :
    IsEntitled sha512 run env request (wait_for_report env request 1500 stored_agent)
wait_for_report-IsEntitled_example =
    wait_for_report-IsEntitled sha512 run env request 1500 delivered

delivered_once : IsDeliveredIn sha512 (waited env request 1500 stored_agent run) 0
unfolding IsDeliveredIn
delivered_once = inl (delivered, found)

wait_for_report-once_example :
    (wait_for_report env request 1600 (wait_for_report env request 1500 stored_agent).1).0.0
    ≢ some ra_ok
wait_for_report-once_example =
    wait_for_report-once sha512 (waited env request 1500 stored_agent run) env request 1600 0
      found_again delivered_once

-- A client's report of zero bytes.
abbrev any_signature : List ℕ → List ℕ → List ℕ → List ℕ → Bool
any_signature point uid message signature = true

abbrev context : Context
context = record {
  get_report = none;
  sm2_verify = some any_signature;
  trusted_pek = replicate 64 0;
  trusted_measurement = replicate 32 0;
  reporter = true;
}

abbrev client_report : List ℕ
client_report = replicate ra_report_size 0

client_report_size : length client_report ≡ ra_report_size
client_report_size = refl

answer_request-IsAnswered_example :
    Safe
      (IsAnswered sha512 context any_signature refl request client_report client_report_size
        (record (agent_with reported) { mutual_ra = true }))
      (answer_request sha512 context env request 1500 client_report
        (record (agent_with reported) { mutual_ra = true }))
answer_request-IsAnswered_example =
    answer_request-IsAnswered sha512 context any_signature refl request client_report
      client_report_size env 1500 (record (agent_with reported) { mutual_ra = true })
