-- ===== src/Client/Gate/Held.antt =====
-- `finish_held`, `drop_all_held` and `reset_gate_flow` of agents/linux/tcpra_client_agent.c as steps of
-- the state machine of a slot.
use tlslatch.Base.{
  by_test, ℕ, zero, suc, ◌+◌, ◌<◌, List, [], ◌∷◌, Bool, true, false, ◌≡◌, refl, sym, ◌∙◌, ap,
  get_or, set, length, get_or-set_self, length-set, subst,
}
use tlslatch.Packet.{FlowKey}
use tlslatch.Client.State.{GateFlow, zero_gate, Agent, Env, gate_at, handshake}
use tlslatch.Client.Held.{
  finish_one, finish_ids, finish_held, is_taken, holds_packets, drop_held, drop_held_from,
  drop_all_held, reset_gate_flow, quarantine_endpoint,
}
use tlslatch.Client.Gate.{finishes, resets}
use tlslatch.Client.Gate.Moves.{Moves, Moves-refl, Moves-trans, Moves-set}

pub finish_ids-flows :
    (env : Env) (accepts : Bool) (ids : List ℕ) (agent : Agent)
    → (finish_ids env accepts ids agent).flows ≡ agent.flows
unfolding finish_ids finish_one
finish_ids-flows env accepts [] agent = refl
finish_ids-flows env accepts (id ∷ ids) agent =
    finish_ids-flows env accepts ids (finish_one env accepts id agent)
    ∙ by_test (λ (r : Agent). r.flows ≡ agent.flows) (env.verdict_ok id) (λ e. refl) (λ e. refl)

pub finish_held-flows :
    (env : Env) (accepts : Bool) (i : ℕ) (agent : Agent)
    → (finish_held env accepts i agent).flows
      ≡ set agent.flows i (record (gate_at agent i) { held_ids = [] })
unfolding finish_held
finish_held-flows env accepts i agent =
    ap (λ t. set t i (record (gate_at agent i) { held_ids = [] }))
      (finish_ids-flows env accepts (gate_at agent i).held_ids agent)

-- Behind `finish_held` the slot holds nothing.
pub finish_held-empty :
    (env : Env) (accepts : Bool) (i : ℕ) (agent : Agent)
    → (gate_at (finish_held env accepts i agent) i).held_ids ≡ []
finish_held-empty env accepts i agent =
    subst (λ t. (get_or t i zero_gate).held_ids ≡ []) (sym (finish_held-flows env accepts i agent))
      (set-empty agent.flows i (gate_at agent i))
  where
    set-empty :
        (flows : List GateFlow) (i : ℕ) (g : GateFlow)
        → (get_or (set flows i (record g { held_ids = [] })) i zero_gate).held_ids ≡ []
    set-empty [] i g = refl
    set-empty (x ∷ xs) zero g = refl
    set-empty (x ∷ xs) (suc i) g = set-empty xs i g

module _ {Approves : FlowKey → List ℕ → ℕ → Type 0} where
  pub finish_held-Moves :
      (env : Env) (accepts : Bool) (i : ℕ) (agent : Agent)
      → Moves Approves agent.flows (finish_held env accepts i agent).flows
  finish_held-Moves env accepts i agent =
      subst (λ t. Moves Approves agent.flows t) (sym (finish_held-flows env accepts i agent))
        (Moves-set i _ (Moves-refl agent.flows) (λ l. finishes (gate_at agent i)))

  pub drop_held-Moves :
      (env : Env) (i : ℕ) (agent : Agent) → Moves Approves agent.flows (drop_held env i agent).flows
  unfolding drop_held
  drop_held-Moves env i agent =
      by_test (λ (r : Agent). Moves Approves agent.flows r.flows) (is_taken (gate_at agent i))
        (λ t.
          by_test (λ (r : Agent). Moves Approves agent.flows r.flows)
            (holds_packets (gate_at agent i)) (λ h. finish_held-Moves env false i agent)
            (λ h. Moves-refl agent.flows))
        (λ t. Moves-refl agent.flows)

  pub drop_held_from-Moves :
      (env : Env) (left i : ℕ) (agent : Agent)
      → Moves Approves agent.flows (drop_held_from env left i agent).flows
  unfolding drop_held_from
  drop_held_from-Moves env zero i agent = Moves-refl agent.flows
  drop_held_from-Moves env (suc left) i agent =
      Moves-trans (drop_held-Moves env i agent)
        (drop_held_from-Moves env left (i + 1) (drop_held env i agent))

  pub drop_all_held-Moves :
      (env : Env) (agent : Agent) → Moves Approves agent.flows (drop_all_held env agent).flows
  unfolding drop_all_held
  drop_all_held-Moves env agent = drop_held_from-Moves env (length agent.flows) 0 agent

-- A slot in use holds nothing behind `drop_held`.
pub holds_packets-empty : (g : GateFlow) → holds_packets g ≡ false → g.held_ids ≡ []
holds_packets-empty g h = holds-empty g.held_ids h
  where
    holds-empty :
        (ids : List ℕ) → elim ids as (λ _. Bool) [ [] ↦ false | _ ∷ _ ↦ true ] ≡ false → ids ≡ []
    holds-empty [] h = refl
    holds-empty (id ∷ ids) h = cc

pub drop_held-empty :
    (env : Env) (i : ℕ) (agent : Agent)
    → is_taken (gate_at (drop_held env i agent) i) ≡ true
    → (gate_at (drop_held env i agent) i).held_ids ≡ []
unfolding drop_held
drop_held-empty env i agent =
    by_test (λ r. is_taken (gate_at r i) ≡ true → (gate_at r i).held_ids ≡ [])
      (is_taken (gate_at agent i))
      (λ t.
        by_test (λ r. is_taken (gate_at r i) ≡ true → (gate_at r i).held_ids ≡ [])
          (holds_packets (gate_at agent i)) (λ h u. finish_held-empty env false i agent)
          (λ h u. holds_packets-empty (gate_at agent i) h))
      (λ t u. cc)

module _ {Approves : FlowKey → List ℕ → ℕ → Type 0} where
  pub reset_gate_flow-Moves :
      (env : Env) (i : ℕ) (key : FlowKey) (agent : Agent)
      → Moves Approves agent.flows (reset_gate_flow env i key agent).flows
  unfolding reset_gate_flow
  reset_gate_flow-Moves env i key agent =
      Moves-set i _ (drop_held-Moves env i agent)
        (λ l. resets (gate_at (drop_held env i agent) i) key _ _ (drop_held-empty env i agent))

-- The slot that was reset is in the handshake.
pub reset_gate_flow-state :
    (env : Env) (i : ℕ) (key : FlowKey) (agent : Agent)
    → i < length (reset_gate_flow env i key agent).flows
    → (gate_at (reset_gate_flow env i key agent) i).state ≡ handshake
unfolding reset_gate_flow
reset_gate_flow-state env i key agent l =
    let flows = (drop_held env i agent).flows in
    let here = subst (λ n. i < n) (length-set flows i _) l in
    ap (λ g. g.state) (get_or-set_self flows i _ zero_gate here)

pub quarantine_endpoint-flows : (agent : Agent) → (quarantine_endpoint agent).flows ≡ agent.flows
unfolding quarantine_endpoint
quarantine_endpoint-flows agent =
    by_test (λ (r : Agent). r.flows ≡ agent.flows) agent.endpoint_quarantined (λ e. refl)
      (λ e. refl)
