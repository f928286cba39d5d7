-- ===== src/Client/Gate/Drain.antt =====
-- `drain_decisions` of agents/linux/tcpra_client_agent.c applies every decision that is queued.
use tlslatch.Base.{
  by_test, ℕ, zero, suc, ◌+◌, ◌≤◌, List, [], ◌∷◌, Option, some, none, Bool, true, false, ◌≡◌, refl,
  sym, ◌∙◌, ap, subst, length, arith, ◌&&◌,
}
use tlslatch.Ring.{dequeue}
use tlslatch.Ring.Refine.{IsQueue, dequeue-IsQueue, dequeue-empty}
use tlslatch.Client.State.{Agent, Env, Session, GateFlow, gate_at}
use tlslatch.Client.Table.{gate_flow_find}
use tlslatch.Client.Held.{finish_one, finish_ids, finish_held, quarantine_endpoint}
use tlslatch.Client.Decision.{
  dequeue_decision, decided_for, attested, same_socket, count_delete, release_flow, decide_gate,
  decide, tell_session, apply_decision_impl, find_session, apply_to, drain_from, drain_decisions,
}

-- No step of a decision queues another.
quarantine-decisions : (agent : Agent) → (quarantine_endpoint agent).decisions ≡ agent.decisions
unfolding quarantine_endpoint
quarantine-decisions agent =
    by_test (λ (r : Agent). r.decisions ≡ agent.decisions) agent.endpoint_quarantined (λ e. refl)
      (λ e. refl)

finish_ids-decisions :
    (env : Env) (accepts : Bool) (ids : List ℕ) (agent : Agent)
    → (finish_ids env accepts ids agent).decisions ≡ agent.decisions
unfolding finish_ids finish_one
finish_ids-decisions env accepts [] agent = refl
finish_ids-decisions env accepts (id ∷ ids) agent =
    finish_ids-decisions env accepts ids (finish_one env accepts id agent)
    ∙ by_test (λ (r : Agent). r.decisions ≡ agent.decisions) (env.verdict_ok id) (λ e. refl)
        (λ e. refl)

finish_held-decisions :
    (env : Env) (accepts : Bool) (i : ℕ) (agent : Agent)
    → (finish_held env accepts i agent).decisions ≡ agent.decisions
unfolding finish_held
finish_held-decisions env accepts i agent =
    finish_ids-decisions env accepts (gate_at agent i).held_ids agent

release_flow-decisions :
    (env : Env) (gate : GateFlow) (session : Session) (allow : Bool) (agent : Agent)
    → (release_flow env gate session allow agent).1.decisions ≡ agent.decisions
unfolding release_flow
release_flow-decisions env gate session allow agent =
    by_test (λ (r : Bool × Agent). r.1.decisions ≡ agent.decisions) (allow && agent.has_selector)
      (λ e. count_delete-decisions (env.selector_delete gate.key) _) (λ e. refl)
  where
    count_delete-decisions : (b : Bool) (a : Agent) → (count_delete b a).decisions ≡ a.decisions
    count_delete-decisions true a = refl
    count_delete-decisions false a = refl

decide_gate-decisions :
    (env : Env) (i : ℕ) (r : Bool × Agent) → (decide_gate env i r).1.decisions ≡ r.1.decisions
unfolding decide_gate
decide_gate-decisions env i (true, b) = finish_held-decisions env true i b
decide_gate-decisions env i (false, b) =
    finish_held-decisions env false i (quarantine_endpoint b) ∙ quarantine-decisions b

decide-decisions :
    (env : Env) (session : Session) (found : Option ℕ) (agent : Agent)
    → (decide env session found agent).1.decisions ≡ agent.decisions
unfolding decide
decide-decisions env session none agent = refl
decide-decisions env session (some i) agent =
    let gate = gate_at agent i in
    by_test (λ (r : Bool × Agent). r.1.decisions ≡ agent.decisions) (decided_for gate session)
      (λ d.
        decide_gate-decisions env i _
        ∙ release_flow-decisions env gate session
            (attested agent gate session && same_socket env agent gate) agent)
      (λ d. refl)

tell_session-decisions :
    (env : Env) (id : ℕ) (r : Bool × Agent) → (tell_session env id r).decisions ≡ r.1.decisions
unfolding tell_session
tell_session-decisions env id (true, b) = refl
tell_session-decisions env id (false, b) = quarantine-decisions b

apply_to-decisions :
    (env : Env) (session : Option Session) (agent : Agent)
    → (apply_to env session agent).decisions ≡ agent.decisions
unfolding apply_decision_impl
apply_to-decisions env none agent = refl
apply_to-decisions env (some session) agent =
    tell_session-decisions env session.id _
    ∙ decide-decisions env session (gate_flow_find agent.flows session.flow) agent

module _ (envs : ℕ → Env) where
  -- One round of the loop, by what is taken from the queue.
  drain_from-round :
      (left n : ℕ) (agent : Agent) (o : Option ℕ)
      → (dequeue agent.decisions).0 ≡ o
      → drain_from envs (suc left) n agent ≡ elim o as (λ _. Agent) [
        | none ↦ record agent { decisions = (dequeue agent.decisions).1 }
        | some id ↦ drain_from envs left (n + 1) (
            apply_to
              (envs n)
              (find_session id agent.sessions)
              (record agent { decisions = (dequeue agent.decisions).1 }))
      ]
  unfolding drain_from dequeue_decision
  drain_from-round left n agent o e =
      ap
        (λ t. elim t as (λ _. Agent) [
          | none ↦ record agent { decisions = (dequeue agent.decisions).1 }
          | some id ↦ drain_from envs left (n + 1) (
              apply_to (envs n) (find_session id agent.sessions)
                (record agent { decisions = (dequeue agent.decisions).1 }))
        ])
        e

  drain_from-empties :
      (left n : ℕ) (agent : Agent) (entries : List ℕ)
      → IsQueue agent.decisions entries
      → length entries ≤ left
      → IsQueue (drain_from envs left n agent).decisions []
  unfolding drain_from
  drain_from-empties zero n agent [] q l = q
  drain_from-empties zero n agent (x ∷ entries) q l = absurd (omega arith)
  drain_from-empties (suc left) n agent [] q l =
      let e = dequeue-empty agent.decisions q in
      subst (λ (a : Agent). IsQueue a.decisions [])
        (sym (drain_from-round left n agent none (ap (λ r. r.0) e)))
        (subst (λ r. IsQueue r []) (sym (ap (λ r. r.1) e)) q)
  drain_from-empties (suc left) n agent (x ∷ entries) q l =
      let d = dequeue-IsQueue agent.decisions x entries q in
      let rest : Agent = record agent { decisions = (dequeue agent.decisions).1 } in
      subst (λ (a : Agent). IsQueue a.decisions [])
        (sym (drain_from-round left n agent (some x) d.0))
        (drain_from-empties left (n + 1) (apply_to (envs n) (find_session x agent.sessions) rest)
          entries
          (subst (λ r. IsQueue r entries)
            (sym (apply_to-decisions (envs n) (find_session x agent.sessions) rest)) d.1)
          (omega arith))

  -- Where the queue of decisions is a queue, no decision is left in it behind `drain_decisions`, so that
  -- its fuel is enough.
  pub drain_decisions-IsQueue :
      (agent : Agent) (entries : List ℕ)
      → IsQueue agent.decisions entries
      → IsQueue (drain_decisions envs agent).decisions []
  unfolding drain_decisions
  drain_decisions-IsQueue agent entries q =
      let c = q.as_many in drain_from-empties agent.decisions.count 0 agent entries q (omega arith)
