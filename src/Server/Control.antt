-- ===== src/Server/Control.antt =====
-- agents/linux/tcpra_server_agent.c: a control request from its registration to its verdict. The two
-- functions that wait are modelled by one round of their loop, under the cache's mutex, in which they
-- come to a status or wait on.
use tlslatch.Base.{
  ℕ, ◌+◌, ◌-◌, ◌%◌, ◌^◌, List, [], ◌∷◌, ◌++◌, Option, some, none, Bool, true, false, not, ◌==◌,
  ◌/=◌, ◌&&◌, ◌||◌, leb, if◌then◌else◌, length, same_bytes,
}
use tlslatch.Protocol.{ra_window_ns}
use tlslatch.Server.State.{CacheEntry, CompletedRecord, Agent, Env, entry_at, put_entry}
use tlslatch.Server.Index.{find_lookup_entry, delete_lookup_index}
use tlslatch.Server.Schedule.{schedule_report_locked}
use tlslatch.Server.Observe.{freed_entry}

-- The statuses of agents/linux/ra_protocol_early.h.
pub data RaStatus : Type 0 where
  ra_ok ra_not_found ra_expired ra_bad_binding ra_internal ra_client_report_invalid : RaStatus

-- `struct ra_request`, as far as the cache reads it.
pub record Request : Type 0 where
  pub lookup_key : List ℕ
  pub client_nonce : List ℕ

-- `struct ra_verdict`, with `verified` in the machine's order.
pub record Verdict : Type 0 where
  pub verified : ℕ
  pub lookup_key : List ℕ

-- The difference of two readings of the clock, on 64 bits.
abbrev pub elapsed : ℕ → ℕ → ℕ
elapsed current earlier = (current + 2 ^ 64 - earlier) % 2 ^ 64

abbrev pub is_cookie : Option ℕ → ℕ → Bool
is_cookie none bound = false
is_cookie (some cookie) bound = cookie == bound

-- The ClientHello is in the window, and the flow's socket is still the one it was seen on.
abbrev pub is_bound : Env → CacheEntry → Bool
is_bound env entry =
    not (leb ra_window_ns (elapsed (env.clock 0) entry.lookup_observed_ns))
    && is_cookie (env.socket_cookie entry.flow) entry.socket_cookie

-- The end of the waiting: the agent stops, or the window has passed since `started`.
abbrev pub give_up : Env → ℕ → Agent → Option RaStatus × Agent
give_up env started agent =
    if agent.stopping || leb ra_window_ns (elapsed (env.clock 3) started)
    then (some ra_not_found, agent)
    else (none, agent)

abbrev pub scheduled : Bool × Agent → Option RaStatus × Agent
scheduled (true, agent) = (some ra_ok, agent)
scheduled (false, agent) = (some ra_internal, agent)

module _ (sha512 : List ℕ → Option (List ℕ)) where
  unfoldable pub register_entry : Env → Request → ℕ → ℕ → Agent → Option RaStatus × Agent
  register_entry env request started slot agent =
      let entry = entry_at agent slot in
      if entry.lookup_observed && not entry.request_received
      then if not (is_bound env entry)
        then (some ra_bad_binding, agent)
        else scheduled (
            schedule_report_locked sha512 env slot (
              put_entry agent slot (record entry {
                request_received = true;
                request_ns = started;
                request_nonce = request.client_nonce;
              })))
      else if entry.request_received
      then (some ra_bad_binding, agent)
      else give_up env started agent

  unfoldable pub register_request : Env → Request → ℕ → Agent → Option RaStatus × Agent
  register_request env request started agent = elim (find_lookup_entry agent request.lookup_key) [
    | none ↦ give_up env started agent
    | some slot ↦ register_entry env request started slot agent
  ]

-- The answer of `wait_for_report`: the status, and the entry that was delivered.
unfoldable pub deliver_entry :
    Env → Request → ℕ → ℕ → Agent → (Option RaStatus × Option CacheEntry) × Agent
deliver_entry env request started slot agent =
    let entry = entry_at agent slot in
    let delivered = record entry { delivered = true } in
    if entry.request_received && entry.ready && not entry.delivered
    then if not (same_bytes entry.request_nonce request.client_nonce) || not (is_bound env entry)
      then ((some ra_bad_binding, none), agent)
      else ((some ra_ok, some delivered), put_entry agent slot delivered)
    else if entry.report_done_ns /= 0 && not entry.ready
    then ((some ra_internal, none), agent)
    else (((give_up env started agent).0, none), agent)

unfoldable pub wait_for_report :
    Env → Request → ℕ → Agent → (Option RaStatus × Option CacheEntry) × Agent
wait_for_report env request started agent = elim (find_lookup_entry agent request.lookup_key) [
  | none ↦ (((give_up env started agent).0, none), agent)
  | some slot ↦ deliver_entry env request started slot agent
]

unfoldable pub mark_response_sent : Env → Request → Agent → Agent
mark_response_sent env request agent = elim (find_lookup_entry agent request.lookup_key) [
  | none ↦ agent
  | some slot ↦
      let entry = entry_at agent slot in
      if entry.delivered
      then put_entry agent slot (record entry { response_ns = env.clock 0 })
      else agent
]

abbrev completed : Env → ℕ → Bool → Bool → CacheEntry → CompletedRecord
completed env count admitted client_report_verified entry = record {
  session = count + 1;
  admitted = admitted;
  client_report_verified = client_report_verified;
  flow = entry.flow;
  observed_ns = entry.observed_ns;
  report_start_ns = entry.report_start_ns;
  report_done_ns = entry.report_done_ns;
  request_ns = entry.request_ns;
  response_ns = entry.response_ns;
  verdict_ns = env.clock 0;
}

-- The session is recorded, and its entry and its place in the index are free again.
unfoldable pub complete_entry : Env → Verdict → Bool → ℕ → Agent → Agent
complete_entry env verdict client_report_verified slot agent =
    let entry = entry_at agent slot in
    record agent {
      records =
          agent.records
          ++ completed env (length agent.records) (verdict.verified == 1) client_report_verified
              entry
            ∷ [];
      lookup_index = delete_lookup_index agent.lookup_index entry.lookup_key;
      cache = (put_entry agent slot freed_entry).cache;
    }

unfoldable pub record_verdict : Env → Request → Verdict → Bool → Agent → Agent
record_verdict env request verdict client_report_verified agent =
    elim (find_lookup_entry agent request.lookup_key) [
      | none ↦ agent
      | some slot ↦
          let entry = entry_at agent slot in
          if not entry.delivered
            || not (same_bytes entry.lookup_key verdict.lookup_key)
            || leb agent.expected_sessions (length agent.records)
          then agent
          else complete_entry env verdict client_report_verified slot agent
    ]
