-- ===== src/Server/State.antt =====
-- The state of agents/linux/tcpra_server_agent.c that its cache and its control threads share.
use tlslatch.Base.{ℕ, List, [], Option, Bool, false, replicate, get_or, set, ◌&&◌, ◌==◌}
use tlslatch.Slots.{Occupancy, vacant}
use tlslatch.Packet.{FlowKey}
use tlslatch.Ring.{Ring}

abbrev pub cache_capacity : ℕ
cache_capacity = 8192

abbrev pub lookup_capacity : ℕ
lookup_capacity = 16384

-- `struct server_cache_entry`
pub record CacheEntry : Type 0 where
  pub occupancy : Occupancy
  pub has_lookup_key : Bool
  pub lookup_observed : Bool
  pub request_received : Bool
  pub has_report_key : Bool
  pub ready : Bool
  pub delivered : Bool
  pub admitted : Bool
  pub flow : FlowKey
  pub socket_cookie : ℕ
  pub lookup_key : List ℕ
  pub report_key : List ℕ
  pub attestation_key : List ℕ
  pub report : List ℕ
  pub request_nonce : List ℕ
  pub observed_ns : ℕ
  pub lookup_observed_ns : ℕ
  pub report_start_ns : ℕ
  pub report_done_ns : ℕ
  pub request_ns : ℕ
  pub response_ns : ℕ
  pub verdict_ns : ℕ
  pub d_seq : ℕ
  pub d_t_srv : ℕ
  pub d_t_utc : ℕ

-- What `memset` leaves.
abbrev pub zero_entry : CacheEntry
zero_entry = record {
  occupancy = vacant;
  has_lookup_key = false;
  lookup_observed = false;
  request_received = false;
  has_report_key = false;
  ready = false;
  delivered = false;
  admitted = false;
  flow = record { client_ip = 0; server_ip = 0; client_port = 0; server_port = 0 };
  socket_cookie = 0;
  lookup_key = replicate 64 0;
  report_key = replicate 64 0;
  attestation_key = replicate 64 0;
  report = [];
  request_nonce = replicate 8 0;
  observed_ns = 0;
  lookup_observed_ns = 0;
  report_start_ns = 0;
  report_done_ns = 0;
  request_ns = 0;
  response_ns = 0;
  verdict_ns = 0;
  d_seq = 0;
  d_t_srv = 0;
  d_t_utc = 0;
}

-- `struct report_job`
pub record ReportJob : Type 0 where
  pub slot : ℕ
  pub flow : FlowKey
  pub report_key : List ℕ

-- `struct lookup_index_entry`
pub record IndexEntry : Type 0 where
  pub occupancy : Occupancy
  pub cache_slot : ℕ
  pub lookup_key : List ℕ

abbrev pub zero_index : IndexEntry
zero_index = record { occupancy = vacant; cache_slot = 0; lookup_key = replicate 64 0 }

-- `struct completed_record`
pub record CompletedRecord : Type 0 where
  pub session : ℕ
  pub admitted : Bool
  pub client_report_verified : Bool
  pub flow : FlowKey
  pub observed_ns : ℕ
  pub report_start_ns : ℕ
  pub report_done_ns : ℕ
  pub request_ns : ℕ
  pub response_ns : ℕ
  pub verdict_ns : ℕ

-- `struct server_counters`, as far as the cache counts.
pub record Counters : Type 0 where
  pub client_hellos : ℕ
  pub duplicate_keys : ℕ
  pub report_failures : ℕ
  pub client_reports_verified : ℕ
  pub client_report_failures : ℕ
  pub report_queue_full : ℕ
  pub cache_full : ℕ

-- `records` are the completed sessions, the oldest first, `completed_sessions` many.
pub record Agent : Type 0 where
  pub expected_sessions : ℕ
  pub mutual_ra : Bool
  pub deferred : Bool
  pub epoch : List ℕ
  pub d_seq : ℕ
  pub cache : List CacheEntry
  pub lookup_index : List IndexEntry
  pub records : List CompletedRecord
  pub jobs : Ring ReportJob
  pub counters : Counters
  pub stopping : Bool

-- What the kernel answers in one call: the clocks by their place in it, and the cookie of a flow's
-- socket.
pub record Env : Type 0 where
  pub clock : ℕ → ℕ
  pub wall_clock : ℕ
  pub socket_cookie : FlowKey → Option ℕ

abbrev pub entry_at : Agent → ℕ → CacheEntry
entry_at agent slot = get_or agent.cache slot zero_entry

abbrev pub put_entry : Agent → ℕ → CacheEntry → Agent
put_entry agent slot entry = record agent { cache = set agent.cache slot entry }

-- `same_flow`, and `same_route`, which compares the same four fields
unfoldable pub same_flow : FlowKey → FlowKey → Bool
same_flow left right =
    left.client_ip == right.client_ip
    && left.server_ip == right.server_ip
    && left.client_port == right.client_port
    && left.server_port == right.server_port
