-- ===== src/Client/Gate/Decisions.antt =====
-- `apply_decision_impl` of agents/linux/tcpra_client_agent.c as steps of the state machine of a slot,
-- and what its tests, in the order of the code, come to.
use tlslatch.Base.{
  by_test, ℕ, ◌<◌, List, [], Option, some, none, Bool, true, false, ◌≡◌, refl, sym, ◌∙◌, ap, subst,
  get_or, ◌&&◌, length, arith, same_bytes_iff, length-set, get_or-set_self,
}
use tlslatch.Packet.{FlowKey}
use tlslatch.Client.State.{GateFlow, zero_gate, Agent, Env, gate_at, Session}
use tlslatch.Client.Table.{gate_flow_find}
use tlslatch.Client.Held.{finish_held, quarantine_endpoint}
use tlslatch.Client.Decision.{
  decided_for, attested, same_socket, is_cookie, release_flow, decide_gate, decide, tell_session,
  apply_decision_impl, unless_allowed, count_delete,
}
use tlslatch.Client.Gate.{admits, denies}
use tlslatch.Client.Gate.Moves.{Moves, Moves-refl, Moves-trans, Moves-set}
use tlslatch.Client.Gate.Held.{
  finish_held-flows, finish_held-Moves, finish_held-empty, quarantine_endpoint-flows,
}

-- What `apply_decision_impl` asks of the agent, the session and the gate before it admits the flow.
pub record IsAuthorised (env : Env) (session : Session) (agent : Agent) (gate : GateFlow)
    : Type 0 where
  pub client_hello : gate.client_hello_seen ≡ true
  pub same_lookup_key : gate.lookup_key ≡ session.lookup_key
  pub no_quarantine : agent.endpoint_quarantined ≡ false
  pub verified : session.report_verify ≡ true
  pub accepted_if_mutual : agent.mutual_ra ≡ true → session.client_report_accepted ≡ true
  pub server_hello : gate.server_hello_seen ≡ true
  pub same_report_key : gate.report_key ≡ session.local_report_key
  pub own_socket :
      agent.has_selector ≡ true → env.socket_cookie gate.key 1 ≡ some gate.socket_cookie
  pub deleted : agent.has_selector ≡ true → env.selector_delete gate.key ≡ true

-- A decision in this state admits the flow that the three values name.
pub record IsApproval (env : Env) (session : Session) (agent : Agent) (key : FlowKey)
    (lookup_key : List ℕ) (cookie : ℕ) : Type 0 where
  pub slot : ℕ
  pub found : gate_flow_find agent.flows session.flow ≡ some slot
  pub authorised : IsAuthorised env session agent (gate_at agent slot)
  pub of_key : (gate_at agent slot).key ≡ key
  pub of_lookup_key : (gate_at agent slot).lookup_key ≡ lookup_key
  pub of_cookie : (gate_at agent slot).socket_cookie ≡ cookie

is_cookie-some : (o : Option ℕ) (bound : ℕ) → is_cookie o bound ≡ true → o ≡ some bound
is_cookie-some none bound e = cc
is_cookie-some (some cookie) bound e = let h : cookie ≡ bound = ground arith in rw h refl

same_socket-some :
    (env : Env) (agent : Agent) (gate : GateFlow)
    → same_socket env agent gate ≡ true
    → agent.has_selector ≡ true
    → env.socket_cookie gate.key 1 ≡ some gate.socket_cookie
unfolding same_socket
same_socket-some env agent gate e h =
    is_cookie-some (env.socket_cookie gate.key 1) gate.socket_cookie (ground arith)

pub authorised :
    (env : Env) (session : Session) (agent : Agent) (gate : GateFlow)
    → decided_for gate session ≡ true
    → attested agent gate session && same_socket env agent gate ≡ true
    → (agent.has_selector ≡ true → env.selector_delete gate.key ≡ true)
    → IsAuthorised env session agent gate
unfolding decided_for attested
authorised env session agent gate d a s = record {
  client_hello = ground arith;
  same_lookup_key = (same_bytes_iff gate.lookup_key session.lookup_key).0 (ground arith);
  no_quarantine = ground arith;
  verified = ground arith;
  accepted_if_mutual = λ m. ground arith;
  server_hello = ground arith;
  same_report_key = (same_bytes_iff gate.report_key session.local_report_key).0 (ground arith);
  own_socket = same_socket-some env agent gate (ground arith);
  deleted = s;
}

release_flow-flows :
    (env : Env) (gate : GateFlow) (session : Session) (allow : Bool) (agent : Agent)
    → (release_flow env gate session allow agent).1.flows ≡ agent.flows
unfolding release_flow
release_flow-flows env gate session allow agent =
    by_test (λ (r : Bool × Agent). r.1.flows ≡ agent.flows) (allow && agent.has_selector)
      (λ e. count_delete-flows (env.selector_delete gate.key) _) (λ e. refl)
  where
    count_delete-flows : (b : Bool) (a : Agent) → (count_delete b a).flows ≡ a.flows
    count_delete-flows true a = refl
    count_delete-flows false a = refl

-- The flow is released only if it is allowed, and its element is deleted where there is a set.
release_flow-allows :
    (env : Env) (gate : GateFlow) (session : Session) (allow : Bool) (agent : Agent)
    → (release_flow env gate session allow agent).0 ≡ true
    → (allow ≡ true) × (agent.has_selector ≡ true → env.selector_delete gate.key ≡ true)
unfolding release_flow
release_flow-allows env gate session allow agent =
    by_test
      (λ (r : Bool × Agent).
        r.0 ≡ true
        → (allow ≡ true) × (agent.has_selector ≡ true → env.selector_delete gate.key ≡ true))
      (allow && agent.has_selector) (λ e h. (ground arith, λ s. h)) (λ e h. (h, λ s. ground arith))

unless_allowed-flows :
    (allow : Bool) (agent : Agent) → (unless_allowed allow agent).flows ≡ agent.flows
unless_allowed-flows true agent = refl
unless_allowed-flows false agent = quarantine_endpoint-flows agent

finish_held-at :
    (env : Env) (accepts : Bool) (i : ℕ) (agent : Agent)
    → i < length (finish_held env accepts i agent).flows
    → gate_at (finish_held env accepts i agent) i ≡ record (gate_at agent i) { held_ids = [] }
finish_held-at env accepts i agent l =
    let e = finish_held-flows env accepts i agent in
    let here = subst (λ n. i < n) (ap length e ∙ length-set agent.flows i _) l in
    ap (λ t. get_or t i zero_gate) e ∙ get_or-set_self agent.flows i _ zero_gate here

-- What is asked of a gate that is admitted.
abbrev pub IsApproved : (FlowKey → List ℕ → ℕ → Type 0) → GateFlow → Type 0
IsApproved Approves g =
    (g.client_hello_seen ≡ true)
    × (g.server_hello_seen ≡ true)
    × Approves g.key g.lookup_key g.socket_cookie

tell_session-flows :
    (env : Env) (id : ℕ) (r : Bool × Agent) → (tell_session env id r).flows ≡ r.1.flows
unfolding tell_session
tell_session-flows env id (allow, b) = unless_allowed-flows allow b

module _ {Approves : FlowKey → List ℕ → ℕ → Type 0} where
  decide_gate-Moves :
      (env : Env) (i : ℕ) (r : Bool × Agent)
      → (r.0 ≡ true → IsApproved Approves (gate_at r.1 i))
      → Moves Approves r.1.flows (decide_gate env i r).1.flows
  unfolding decide_gate
  decide_gate-Moves env i (true, b) p = Moves-set i _ (finish_held-Moves env true i b) (λ l.
      let (c, s, a) = subst (IsApproved Approves) (sym (finish_held-at env true i b l)) (p refl) in
      admits (gate_at (finish_held env true i b) i) (env.clock 2) (finish_held-empty env true i b) c
        s a)
  decide_gate-Moves env i (false, b) p =
      Moves-set i _
        (Moves-trans
          (subst (λ t. Moves Approves t (quarantine_endpoint b).flows) (quarantine_endpoint-flows b)
            (Moves-refl (quarantine_endpoint b).flows))
          (finish_held-Moves env false i (quarantine_endpoint b)))
        (λ l. denies _ (env.clock 2) (finish_held-empty env false i (quarantine_endpoint b)))

  decide-Moves :
      (env : Env) (session : Session) (found : Option ℕ) (agent : Agent)
      → ((i : ℕ)
          → found ≡ some i
          → IsAuthorised env session agent (gate_at agent i)
          → IsApproved Approves (gate_at agent i))
      → Moves Approves agent.flows (decide env session found agent).1.flows
  unfolding decide
  decide-Moves env session none agent p = Moves-refl agent.flows
  decide-Moves env session (some i) agent p =
      let gate = gate_at agent i in
      let allow = attested agent gate session && same_socket env agent gate in
      by_test (λ (r : Bool × Agent). Moves Approves agent.flows r.1.flows)
        (decided_for gate session)
        (λ d.
          let released = release_flow env gate session allow agent in
          let same = release_flow-flows env gate session allow agent in
          subst (λ t. Moves Approves t (decide_gate env i released).1.flows) same
            (decide_gate-Moves env i released (λ h.
              let (a, s) = release_flow-allows env gate session allow agent h in
              subst (λ t. IsApproved Approves (get_or t i zero_gate)) (sym same)
                (p i refl (authorised env session agent gate d a s)))))
        (λ d. Moves-refl agent.flows)

-- A decision takes each slot along its state machine, and admits a slot only where the slot is that of
-- the session's flow and everything that `IsAuthorised` lists was so.
pub apply_decision_impl-Moves :
    (env : Env) (session : Session) (agent : Agent)
    → Moves (IsApproval env session agent) agent.flows (apply_decision_impl env session agent).flows
unfolding apply_decision_impl
apply_decision_impl-Moves env session agent =
    subst (λ t. Moves (IsApproval env session agent) agent.flows t)
      (sym (tell_session-flows env session.id _))
      (decide-Moves env session (gate_flow_find agent.flows session.flow) agent (λ i f a. (
        a.client_hello,
        a.server_hello,
        record {
          slot = i;
          found = f;
          authorised = a;
          of_key = refl;
          of_lookup_key = refl;
          of_cookie = refl;
        },
      )))
