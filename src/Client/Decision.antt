-- ===== src/Client/Decision.antt =====
-- The decisions of agents/linux/tcpra_client_agent.c: `enqueue_decision`, `dequeue_decision`,
-- `apply_decision_impl`, `drain_decisions` and `finish_session`.
use tlslatch.Base.{
  ℕ, zero, suc, ◌+◌, ◌-◌, ◌%◌, ◌^◌, List, [], ◌∷◌, Option, some, none, Bool, true, false, not, ◌&&◌,
  ◌||◌, ◌==◌, if◌then◌else◌, same_bytes,
}
use tlslatch.Ring.{enqueue, dequeue}
use tlslatch.Client.State.{
  GateFlow, admitted, denied, GateState, Session, Agent, Env, gate_at, put_gate,
}
use tlslatch.Client.Table.{gate_flow_find}
use tlslatch.Client.Held.{finish_held, quarantine_endpoint}
use tlslatch.Client.Sessions.{update_session}

-- The write of the event can fail behind a session that is in the queue.
unfoldable pub enqueue_decision : Env → ℕ → Agent → Bool × Agent
enqueue_decision env session agent =
    let (queued, decisions) = enqueue true session agent.decisions in
    (queued && env.event_ok, record agent { decisions = decisions })

unfoldable pub dequeue_decision : Agent → Option ℕ × Agent
dequeue_decision agent =
    let (session, decisions) = dequeue agent.decisions in
    (session, record agent { decisions = decisions })

-- The tests of `apply_decision_impl`, in its order.
unfoldable pub decided_for : GateFlow → Session → Bool
decided_for gate session = gate.client_hello_seen && same_bytes gate.lookup_key session.lookup_key

unfoldable pub attested : Agent → GateFlow → Session → Bool
attested agent gate session =
    not agent.endpoint_quarantined
    && session.report_verify
    && (not agent.mutual_ra || session.client_report_accepted)
    && gate.server_hello_seen
    && same_bytes gate.report_key session.local_report_key

abbrev pub is_cookie : Option ℕ → ℕ → Bool
is_cookie none bound = false
is_cookie (some cookie) bound = cookie == bound

unfoldable pub same_socket : Env → Agent → GateFlow → Bool
same_socket env agent gate =
    not agent.has_selector || is_cookie (env.socket_cookie gate.key 1) gate.socket_cookie

abbrev with_delete_time : ℕ → Session → Session
with_delete_time ns session = record session { selector_delete_ns = ns }

abbrev pub count_delete : Bool → Agent → Agent
count_delete true agent = record agent {
  counters = record (agent.counters) { flow_map_deletes = agent.counters.flow_map_deletes + 1 };
}
count_delete false agent = record agent {
  counters = record (agent.counters) {
    flow_map_delete_misses = agent.counters.flow_map_delete_misses + 1;
  };
}

-- The element of the flow in the nftables set, which sends its packets to the queue, is deleted.
unfoldable pub release_flow : Env → GateFlow → Session → Bool → Agent → Bool × Agent
release_flow env gate session allow agent =
    let deleted = env.selector_delete gate.key in
    if allow && agent.has_selector
    then (
      deleted,
      count_delete deleted (record agent {
        sessions =
            update_session session.id
              (with_delete_time ((env.clock 1 + 2 ^ 64 - env.clock 0) % 2 ^ 64)) agent.sessions;
      }),
    )
    else (allow, agent)

abbrev decided_state : Bool → GateState
decided_state true = admitted
decided_state false = denied

abbrev pub count_decision : Bool → Agent → Agent
count_decision true agent = record agent {
  counters = record (agent.counters) { decisions_allowed = agent.counters.decisions_allowed + 1 };
}
count_decision false agent = record agent {
  counters = record (agent.counters) { decisions_denied = agent.counters.decisions_denied + 1 };
}

abbrev pub count_mismatch : Agent → Agent
count_mismatch agent = record agent {
  counters = record (agent.counters) {
    decision_mismatches = agent.counters.decision_mismatches + 1;
  };
}

abbrev pub unless_allowed : Bool → Agent → Agent
unless_allowed true agent = agent
unless_allowed false agent = quarantine_endpoint agent

unfoldable pub decide_gate : Env → ℕ → Bool × Agent → Bool × Agent
decide_gate env i (allow, agent) =
    let finished = finish_held env allow i (unless_allowed allow agent) in
    (
      allow,
      count_decision allow (
          put_gate finished i (record (gate_at finished i) {
            state = decided_state allow;
            state_ns = env.clock 2;
            deadline_ns = 0;
          })),
    )

unfoldable pub decide : Env → Session → Option ℕ → Agent → Bool × Agent
decide env session none agent = (false, count_mismatch agent)
decide env session (some i) agent =
    let gate = gate_at agent i in
    if decided_for gate session
    then decide_gate env i (
        release_flow env gate session (attested agent gate session && same_socket env agent gate)
          agent)
    else (false, count_mismatch agent)

abbrev with_decision : Bool → ℕ → Session → Session
with_decision allow ns session = record session {
  gate_allowed = allow;
  local_decision_ns = ns;
  decision_applied = true;
}

unfoldable pub tell_session : Env → ℕ → Bool × Agent → Agent
tell_session env id (allow, agent) =
    let told = unless_allowed allow agent in
    record told { sessions = update_session id (with_decision allow (env.clock 3)) told.sessions }

unfoldable pub apply_decision_impl : Env → Session → Agent → Agent
apply_decision_impl env session agent =
    tell_session env session.id (decide env session (gate_flow_find agent.flows session.flow) agent)

-- The session behind a pointer in the queue.
unfoldable pub find_session : ℕ → List Session → Option Session
find_session id [] = none
find_session id (session ∷ next) = if session.id == id then some session else find_session id next

abbrev pub apply_to : Env → Option Session → Agent → Agent
apply_to env none agent = agent
apply_to env (some session) agent = apply_decision_impl env session agent

-- The loop takes at most the sessions that are queued when it starts: the fuel is their number, and
-- nothing is queued meanwhile. Each decision has an environment of its own.
unfoldable pub drain_from : (ℕ → Env) → ℕ → ℕ → Agent → Agent
drain_from envs zero n agent = agent
drain_from envs (suc left) n agent =
    let (queued, rest) = dequeue_decision agent in
    elim queued [
      | none ↦ rest
      | some id ↦
          drain_from envs left (n + 1) (apply_to (envs n) (find_session id rest.sessions) rest)
    ]

unfoldable pub drain_decisions : (ℕ → Env) → Agent → Agent
drain_decisions envs agent = drain_from envs agent.decisions.count 0 agent

abbrev finalize : Session → Session
finalize session = record session {
  success = session.gate_allowed && session.remote_verdict_sent;
  finalized = true;
}

abbrev one_if : Bool → ℕ
one_if true = 1
one_if false = 0

-- Without `finished_ns`, which only the report of the run reads.
unfoldable pub finish_session : Session → Agent → Agent
finish_session session agent = record agent {
  sessions = update_session session.id finalize agent.sessions;
  completed_sessions = agent.completed_sessions + 1;
  verified_sessions = agent.verified_sessions + one_if session.gate_allowed;
  failed_sessions =
      agent.failed_sessions + one_if (not (session.gate_allowed && session.remote_verdict_sent));
}
