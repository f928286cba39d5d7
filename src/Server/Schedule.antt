-- ===== src/Server/Schedule.antt =====
-- agents/linux/tcpra_server_agent.c: the key that a report is made on, and the queue of report jobs.
use tlslatch.Base.{
  ℕ, ◌+◌, ◌/◌, ◌%◌, ◌^◌, List, [], ◌∷◌, ◌++◌, Option, some, none, Bool, true, false, not, ◌/=◌,
  ◌&&◌, ◌||◌, if◌then◌else◌, Result, ok, ◌>>=◌,
}
use tlslatch.Ring.{enqueue}
use tlslatch.Tls.Digest.{codes, digest, early_client_report_key, early_server_report_key}
use tlslatch.Server.State.{CacheEntry, ReportJob, Agent, Env, entry_at, put_entry}

abbrev count_queue_full : Agent → Agent
count_queue_full agent = record agent {
  counters = record (agent.counters) { report_queue_full = agent.counters.report_queue_full + 1 };
}

unfoldable pub enqueue_report : ReportJob → Agent → Bool × Agent
enqueue_report job agent =
    let (queued, jobs) = enqueue (not agent.stopping) job agent.jobs in
    (queued, record agent { jobs = jobs })

-- `d_store_be64`
unfoldable pub d_store_be64 : ℕ → List ℕ
d_store_be64 v =
    v / 2 ^ 56 % 256
    ∷ v / 2 ^ 48 % 256
    ∷ v / 2 ^ 40 % 256
    ∷ v / 2 ^ 32 % 256
    ∷ v / 2 ^ 24 % 256
    ∷ v / 2 ^ 16 % 256
    ∷ v / 2 ^ 8 % 256
    ∷ v % 256
    ∷ []

abbrev pub audit_label : List ℕ
audit_label = codes "tcp-level-ra/audit/v1"

abbrev as_option {ℓ} : {A : Type ℓ} → Result A → Option A
as_option (ok a) = some a
as_option _ = none

module _ (sha512 : List ℕ → Option (List ℕ)) where
  unfoldable pub d_audit_user_data : List ℕ → ℕ → List ℕ → ℕ → Result (List ℕ)
  d_audit_user_data epoch seq sh t_mono =
      digest sha512 (audit_label ++ epoch ++ d_store_be64 seq ++ sh ++ d_store_be64 t_mono)

  -- The key that the report of an entry is made on.
  unfoldable pub attestation_key_of : Agent → CacheEntry → Option (List ℕ)
  attestation_key_of agent entry =
      if agent.deferred
      then as_option (d_audit_user_data agent.epoch entry.d_seq entry.report_key entry.d_t_srv)
      else if agent.mutual_ra
      then as_option (
          early_client_report_key sha512 entry.lookup_key entry.request_nonce >>= λ client.
          early_server_report_key sha512 entry.report_key client)
      else some entry.report_key

  -- `++agent->d_seq` and the times of a deferred report.
  abbrev pub number_report : Env → Agent → CacheEntry → Agent × CacheEntry
  number_report env agent entry =
      if agent.deferred
      then (
        record agent { d_seq = agent.d_seq + 1 },
        record entry {
          d_seq = agent.d_seq + 1;
          d_t_srv = entry.observed_ns;
          d_t_utc = env.wall_clock;
        },
      )
      else (agent, entry)

  abbrev pub after_enqueue : Env → ℕ → Bool × Agent → Bool × Agent
  after_enqueue env slot (true, agent) = (true, agent)
  after_enqueue env slot (false, agent) = (
    false,
    count_queue_full
        (put_entry agent slot (record (entry_at agent slot) { report_done_ns = env.clock 2 })),
  )

  unfoldable pub queue_report : Env → ℕ → CacheEntry → List ℕ → Agent → Bool × Agent
  queue_report env slot entry key agent = after_enqueue env slot (
      enqueue_report (record { slot = slot; flow = entry.flow; report_key = key })
        (put_entry agent slot
          (record entry { attestation_key = key; report_start_ns = env.clock 1 })))

  abbrev pub with_key : Env → ℕ → Option (List ℕ) → Agent × CacheEntry → Bool × Agent
  with_key env slot none (agent, entry) = (false, put_entry agent slot entry)
  with_key env slot (some key) (agent, entry) = queue_report env slot entry key agent

  unfoldable pub schedule_report_locked : Env → ℕ → Agent → Bool × Agent
  schedule_report_locked env slot agent =
      let entry = entry_at agent slot in
      if entry.report_start_ns /= 0
        || not entry.has_report_key
        || agent.mutual_ra && not entry.request_received
      then (true, agent)
      else (let numbered = number_report env agent entry in
          with_key env slot (attestation_key_of numbered.0 numbered.1) numbered)
