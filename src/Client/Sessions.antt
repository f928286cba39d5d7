-- ===== src/Client/Sessions.antt =====
-- The sessions of agents/linux/tcpra_client_agent.c: `find_generation`, `create_session`,
-- `enqueue_job`, `client_observe_hello` and `client_observe_server_key`.
use tlslatch.Base.{
  ℕ, ◌+◌, List, [], ◌∷◌, Option, some, none, Bool, true, false, not, ◌&&◌, ltb, ◌==◌, if◌then◌else◌,
  same_bytes,
}
use tlslatch.Ring.{enqueue, dequeue}
use tlslatch.Packet.{FlowKey}
use tlslatch.Client.State.{Session, Agent, Env, zero_bytes}
use tlslatch.Client.Table.{same_flow}

-- The list of sessions, the newest first.
unfoldable pub find_generation : List Session → FlowKey → List ℕ → Option Session
find_generation [] flow lookup_key = none
find_generation (session ∷ next) flow lookup_key =
    if not session.finalized
      && same_flow session.flow flow
      && same_bytes session.lookup_key lookup_key
    then some session
    else find_generation next flow lookup_key

abbrev pub new_session : ℕ → FlowKey → List ℕ → ℕ → Session
new_session id flow lookup_key observed_ns = record {
  id = id;
  flow = flow;
  lookup_key = lookup_key;
  local_report_key = zero_bytes;
  has_server_hello = false;
  decision_applied = false;
  gate_allowed = false;
  finalized = false;
  report_verify = false;
  client_report_accepted = false;
  clienthello_observed_ns = observed_ns;
  serverhello_observed_ns = 0;
  local_decision_ns = 0;
  selector_delete_ns = 0;
  remote_verdict_sent = false;
  success = false;
}

unfoldable pub create_session : Env → FlowKey → List ℕ → ℕ → Agent → Option Session × Agent
create_session env flow lookup_key observed_ns agent =
    if ltb agent.started_sessions agent.expected_sessions && env.alloc_ok
    then (let session = new_session (agent.started_sessions + 1) flow lookup_key observed_ns in
        (
          some session,
          record agent {
            started_sessions = agent.started_sessions + 1;
            sessions = session ∷ agent.sessions;
          },
        ))
    else (none, agent)

unfoldable pub enqueue_job : ℕ → Agent → Bool × Agent
enqueue_job session agent =
    let (queued, jobs) = enqueue (not agent.stopping) session agent.jobs in
    (queued, record agent { jobs = jobs })

-- The part of `dequeue_job` behind its wait.
unfoldable pub dequeue_job : Agent → Option ℕ × Agent
dequeue_job agent =
    let (session, jobs) = dequeue agent.jobs in (session, record agent { jobs = jobs })

abbrev pub job_refused : Agent → Bool × Agent
job_refused agent = (
  false,
  record agent {
    counters = record (agent.counters) { job_queue_full = agent.counters.job_queue_full + 1 };
  },
)

abbrev pub after_enqueue : Bool × Agent → Bool × Agent
after_enqueue (true, agent) = (true, agent)
after_enqueue (false, agent) = job_refused agent

abbrev pub after_create : Option Session × Agent → Bool × Agent
after_create (none, agent) = job_refused agent
after_create (some session, agent) = after_enqueue (enqueue_job session.id agent)

unfoldable pub client_observe_hello : Env → FlowKey → List ℕ → ℕ → Agent → Bool × Agent
client_observe_hello env flow lookup_key observed_ns agent =
    elim (find_generation agent.sessions flow lookup_key) [
      | some session ↦ (true, agent)
      | none ↦ after_create (create_session env flow lookup_key observed_ns agent)
    ]

-- A write through the pointer to the session `id`.
unfoldable pub update_session : ℕ → (Session → Session) → List Session → List Session
update_session id f [] = []
update_session id f (session ∷ next) =
    if session.id == id then f session ∷ next else session ∷ update_session id f next

abbrev pub with_server_key : List ℕ → ℕ → Session → Session
with_server_key report_key observed_ns session =
    if session.has_server_hello then session else record session {
      local_report_key = report_key;
      serverhello_observed_ns = observed_ns;
      has_server_hello = true;
    }

unfoldable pub client_observe_server_key : FlowKey → List ℕ → List ℕ → ℕ → Agent → Agent
client_observe_server_key flow lookup_key report_key observed_ns agent =
    elim (find_generation agent.sessions flow lookup_key) [
      | none ↦ agent
      | some session ↦ record agent {
        sessions =
            update_session session.id (with_server_key report_key observed_ns) agent.sessions;
      }
    ]
