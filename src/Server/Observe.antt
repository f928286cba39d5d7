-- ===== src/Server/Observe.antt =====
-- agents/linux/tcpra_server_agent.c: what the server's agent does with the keys of the two hellos, and
-- with a report that has been generated.
use tlslatch.Base.{
  ℕ, ◌+◌, List, Option, some, none, Bool, true, false, ◌==◌, ◌&&◌, if◌then◌else◌, same_bytes,
}
use tlslatch.Slots.{taken, tombstone}
use tlslatch.Packet.{FlowKey}
use tlslatch.Ring.{dequeue}
use tlslatch.Server.State.{
  CacheEntry, IndexEntry, zero_entry, ReportJob, Agent, Env, entry_at, put_entry, same_flow,
}
use tlslatch.Server.Schedule.{schedule_report_locked}
use tlslatch.Server.Cache.{
  cache_new_slot, find_newest_report_orphan, find_newest_lookup_placeholder, find_report_generation,
}
use tlslatch.Server.Index.{find_lookup_entry, insert_lookup_index, is_taken}

abbrev count_duplicate : Agent → Agent
count_duplicate agent = record agent {
  counters = record (agent.counters) { duplicate_keys = agent.counters.duplicate_keys + 1 };
}

abbrev count_cache_full : Agent → Agent
count_cache_full agent = record agent {
  counters = record (agent.counters) { cache_full = agent.counters.cache_full + 1 };
}

abbrev count_client_hello : Agent → Agent
count_client_hello agent = record agent {
  counters = record (agent.counters) { client_hellos = agent.counters.client_hellos + 1 };
}

abbrev count_report_failure : Agent → Agent
count_report_failure agent = record agent {
  counters = record (agent.counters) { report_failures = agent.counters.report_failures + 1 };
}

-- What `memset` and `occupancy = 1` leave.
abbrev pub taken_entry : CacheEntry
taken_entry = record zero_entry { occupancy = taken }

abbrev pub freed_entry : CacheEntry
freed_entry = record zero_entry { occupancy = tombstone }

abbrev pub with_lookup_key : FlowKey → ℕ → List ℕ → ℕ → CacheEntry → CacheEntry
with_lookup_key flow cookie lookup_key observed_ns entry = record entry {
  flow = flow;
  socket_cookie = cookie;
  has_lookup_key = true;
  lookup_observed = true;
  lookup_key = lookup_key;
  lookup_observed_ns = observed_ns;
}

abbrev pub after_insert : ℕ → Agent → Bool × List IndexEntry → Bool × Agent
after_insert slot agent (true, index) =
    (true, count_client_hello (record agent { lookup_index = index }))
after_insert slot agent (false, index) =
    (false, count_cache_full (put_entry agent slot freed_entry))

unfoldable pub bind_lookup_key : FlowKey → List ℕ → ℕ → ℕ → ℕ → CacheEntry → Agent → Bool × Agent
bind_lookup_key flow lookup_key observed_ns cookie slot entry agent =
    after_insert slot
      (put_entry agent slot (with_lookup_key flow cookie lookup_key observed_ns entry))
      (insert_lookup_index agent.lookup_index lookup_key slot)

unfoldable pub new_lookup_key : FlowKey → List ℕ → ℕ → ℕ → Agent → Bool × Agent
new_lookup_key flow lookup_key observed_ns cookie agent =
    elim (find_newest_report_orphan agent.cache flow cookie) [
      | some slot ↦
          bind_lookup_key flow lookup_key observed_ns cookie slot (entry_at agent slot) agent
      | none ↦ elim (cache_new_slot agent.cache flow) [
        | none ↦ (false, count_cache_full agent)
        | some slot ↦ bind_lookup_key flow lookup_key observed_ns cookie slot taken_entry agent
      ]
    ]

abbrev pub is_same_observation : FlowKey → ℕ → CacheEntry → Bool
is_same_observation flow cookie entry = same_flow entry.flow flow && entry.socket_cookie == cookie

abbrev pub repeat_lookup_key : FlowKey → ℕ → CacheEntry → Agent → Bool × Agent
repeat_lookup_key flow cookie entry agent =
    if is_same_observation flow cookie entry then (true, agent) else (false, count_duplicate agent)

unfoldable pub observe_lookup_key : FlowKey → List ℕ → ℕ → ℕ → Agent → Bool × Agent
observe_lookup_key flow lookup_key observed_ns cookie agent =
    elim (find_lookup_entry agent lookup_key) [
      | none ↦ new_lookup_key flow lookup_key observed_ns cookie agent
      | some slot ↦
          let entry = entry_at agent slot in
          if entry.lookup_observed
          then repeat_lookup_key flow cookie entry agent
          else bind_lookup_key flow lookup_key observed_ns cookie slot entry agent
    ]

module _ (sha512 : List ℕ → Option (List ℕ)) where
  unfoldable pub bind_report_key : Env → List ℕ → ℕ → ℕ → ℕ → CacheEntry → Agent → Bool × Agent
  bind_report_key env report_key observed_ns cookie slot entry agent =
      schedule_report_locked sha512 env slot (
        put_entry agent slot (record entry {
          has_report_key = true;
          socket_cookie = cookie;
          report_key = report_key;
          observed_ns = observed_ns;
        }))

  unfoldable pub observe_report_key : Env → FlowKey → List ℕ → ℕ → ℕ → Agent → Bool × Agent
  observe_report_key env flow report_key observed_ns cookie agent =
      elim (find_report_generation agent.cache flow report_key cookie) [
        | some slot ↦ (true, count_duplicate agent)
        | none ↦ elim (find_newest_lookup_placeholder agent.cache flow cookie) [
          | some slot ↦
              bind_report_key env report_key observed_ns cookie slot
                (record (entry_at agent slot) { flow = flow }) agent
          | none ↦ elim (cache_new_slot agent.cache flow) [
            | none ↦ (false, count_cache_full agent)
            | some slot ↦
                bind_report_key env report_key observed_ns cookie slot
                  (record taken_entry { flow = flow }) agent
          ]
        ]
      ]

-- The report thread takes the oldest job, and has its report, or none, when it has the cache's mutex.
unfoldable pub take_job : Agent → Option ReportJob × Agent
take_job agent = let (job, jobs) = dequeue agent.jobs in (job, record agent { jobs = jobs })

abbrev pub is_job_of : ReportJob → CacheEntry → Bool
is_job_of job entry =
    is_taken entry.occupancy
    && same_flow entry.flow job.flow
    && same_bytes entry.attestation_key job.report_key

-- Without the files that a deferred report is written to.
unfoldable pub store_report : ReportJob → Option (List ℕ) → ℕ → Agent → Agent
store_report job report finished agent =
    let entry = entry_at agent job.slot in
    if is_job_of job entry
    then elim report [
      | some report ↦
          put_entry agent job.slot
            (record entry { report = report; ready = true; report_done_ns = finished })
      | none ↦
          count_report_failure
            (put_entry agent job.slot (record entry { report_done_ns = finished }))
    ]
    else agent
