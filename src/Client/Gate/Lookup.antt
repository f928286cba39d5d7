-- ===== src/Client/Gate/Lookup.antt =====
-- `gate_flow_find` of agents/linux/tcpra_client_agent.c answers with a slot in use that is bound to the
-- flow, and the sessions' operations leave the table alone.
use tlslatch.Base.{
  by_test, by_option, ℕ, zero, suc, ◌+◌, ◌%◌, List, Option, some, none, Bool, true, false,
  if◌then◌else◌, ◌≡◌, refl, subst, get_or, ◌&&◌, ltb,
}
use tlslatch.Packet.{FlowKey}
use tlslatch.Client.State.{GateFlow, zero_gate, Agent, Env, taken, vacant, tombstone, Session}
use tlslatch.Client.Table.{same_flow, find_from, gate_flow_find, flow_capacity, flow_hash}
use tlslatch.Client.Held.{is_taken}
use tlslatch.Client.Sessions.{
  find_generation, create_session, enqueue_job, after_enqueue, after_create, client_observe_hello,
  client_observe_server_key,
}
use tlslatch.Client.Action.{count_reset}

-- What is said of the slot `i` that a search found.
abbrev pub IsSlotOf : List GateFlow → FlowKey → ℕ → Type 0
IsSlotOf flows key i =
    (is_taken (get_or flows i zero_gate) ≡ true)
    × (same_flow (get_or flows i zero_gate).key key ≡ true)

-- The search answers with a slot in use whose key is the flow.
pub find_from-IsSlotOf :
    (flows : List GateFlow) (key : FlowKey) (start left offset i : ℕ)
    → find_from flows key start left offset ≡ some i
    → IsSlotOf flows key i
unfolding find_from
find_from-IsSlotOf flows key start zero offset i = λ e. cc
find_from-IsSlotOf flows key start (suc left) offset i =
    let index = (start + offset) % flow_capacity in
    let flow = get_or flows index zero_gate in
    let ih = find_from-IsSlotOf flows key start left (offset + 1) i in
    elim flow.occupancy
        as (λ o.
          flow.occupancy ≡ o
          → elim o as (λ _. Option ℕ) [
            | vacant ↦ none
            | taken ↦
                if same_flow flow.key key
                then some index
                else find_from flows key start left (offset + 1)
            | tombstone ↦ find_from flows key start left (offset + 1)
          ]
            ≡ some i
          → IsSlotOf flows key i) [
            | vacant ↦ λ o e. cc
            | tombstone ↦ λ o e. ih e
            | taken ↦ λ o.
                by_test (λ (r : Option ℕ). r ≡ some i → IsSlotOf flows key i)
                  (same_flow flow.key key)
                  (λ s e. subst (λ n. IsSlotOf flows key n) (same e) (taken_is_taken flow o, s))
                  (λ s e. ih e)
          ]
      refl
  where
    same : {a b : ℕ} → some a ≡ some b → a ≡ b
    same e = cc

    taken_is_taken : (g : GateFlow) → g.occupancy ≡ taken → is_taken g ≡ true
    taken_is_taken g o = rw o refl

-- The search for a flow, if it answers, answers with a slot in use whose key is the flow.
pub gate_flow_find-IsSlotOf :
    (flows : List GateFlow) (key : FlowKey) (i : ℕ)
    → gate_flow_find flows key ≡ some i
    → IsSlotOf flows key i
unfolding gate_flow_find
gate_flow_find-IsSlotOf flows key i = find_from-IsSlotOf flows key (flow_hash key) flow_capacity 0 i

pub count_reset-flows : (b : Bool) (agent : Agent) → (count_reset b agent).flows ≡ agent.flows
count_reset-flows true agent = refl
count_reset-flows false agent = refl

-- The operations of the sessions leave the table as it is.
after_enqueue-flows :
    (r : Bool × Agent) (agent : Agent)
    → r.1.flows ≡ agent.flows
    → (after_enqueue r).1.flows ≡ agent.flows
after_enqueue-flows (true, b) agent e = e
after_enqueue-flows (false, b) agent e = e

after_create-flows :
    (r : Option Session × Agent) (agent : Agent)
    → r.1.flows ≡ agent.flows
    → (after_create r).1.flows ≡ agent.flows
unfolding enqueue_job
after_create-flows (none, b) agent e = e
after_create-flows (some s, b) agent e = after_enqueue-flows (enqueue_job s.id b) agent e

create_session-flows :
    (env : Env) (key : FlowKey) (lookup_key : List ℕ) (observed_ns : ℕ) (agent : Agent)
    → (create_session env key lookup_key observed_ns agent).1.flows ≡ agent.flows
unfolding create_session
create_session-flows env key lookup_key observed_ns agent =
    by_test (λ (r : Option Session × Agent). r.1.flows ≡ agent.flows)
      (ltb agent.started_sessions agent.expected_sessions && env.alloc_ok) (λ e. refl) (λ e. refl)

pub client_observe_hello-flows :
    (env : Env) (key : FlowKey) (lookup_key : List ℕ) (observed_ns : ℕ) (agent : Agent)
    → (client_observe_hello env key lookup_key observed_ns agent).1.flows ≡ agent.flows
unfolding client_observe_hello
client_observe_hello-flows env key lookup_key observed_ns agent =
    by_option (λ (r : Bool × Agent). r.1.flows ≡ agent.flows)
      (find_generation agent.sessions key lookup_key)
      (λ e. after_create-flows _ agent (create_session-flows env key lookup_key observed_ns agent))
      (λ s e. refl)

pub client_observe_server_key-flows :
    (key : FlowKey) (lookup_key report_key : List ℕ) (observed_ns : ℕ) (agent : Agent)
    → (client_observe_server_key key lookup_key report_key observed_ns agent).flows ≡ agent.flows
unfolding client_observe_server_key
client_observe_server_key-flows key lookup_key report_key observed_ns agent =
    by_option (λ (r : Agent). r.flows ≡ agent.flows) (find_generation agent.sessions key lookup_key)
      (λ e. refl) (λ s e. refl)
