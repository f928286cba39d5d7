-- ===== src/Client/Gate/Run.antt =====
-- The agent of agents/linux/tcpra_client_agent.c over time: the thread of the gate handles packets,
-- decisions and deadlines in any order, and the other threads change what is not the flow table.
use tlslatch.Base.{
  ℕ, List, Option, ◌≡◌, refl, sym, subst, get_or, get_or-replicate, ◌⊎◌, inl, inr, replicate, arith,
}
use tlslatch.Packet.{FlowKey}
use tlslatch.Client.State.{GateFlow, zero_gate, admitted, Agent, Env, gate_at, Session}
use tlslatch.Client.Held.{drop_all_held}
use tlslatch.Client.Handler.{nfqueue_callback}
use tlslatch.Client.Decision.{apply_decision_impl}
use tlslatch.Client.Expiry.{expire_gate_flows}
use tlslatch.Client.Gate.{
  GateSteps, GateSteps-keeps, GateSteps-IsExplained, IsWellFormed, IsExplained,
}
use tlslatch.Client.Gate.Held.{drop_all_held-Moves}
use tlslatch.Client.Gate.Answers.{nfqueue_callback-Moves}
use tlslatch.Client.Gate.Expiry.{expire_gate_flows-Moves}
use tlslatch.Client.Gate.Decisions.{IsApproval, apply_decision_impl-Moves}

module _ (sha512 : List ℕ → Option (List ℕ)) where
  -- What happens to the agent, from a zeroed table on, whatever its size.
  pub data Run : Agent → Type 0 where
    starts : (size : ℕ) (agent : Agent) → agent.flows ≡ replicate size zero_gate → Run agent
    packet :
        (env : Env) (payload : List ℕ) (packet_id : ℕ) (agent : Agent)
        → Run agent
        → Run (nfqueue_callback sha512 env payload packet_id agent)
    decision :
        (env : Env) (session : Session) (agent : Agent)
        → Run agent
        → Run (apply_decision_impl env session agent)
    expiry : (env : Env) (agent : Agent) → Run agent → Run (expire_gate_flows env agent)
    shutdown : (env : Env) (agent : Agent) → Run agent → Run (drop_all_held env agent)
    elsewhere : (agent next : Agent) → next.flows ≡ agent.flows → Run agent → Run next

  -- Some decision of the run approved the flow.
  abbrev pub IsApprovedIn : {agent : Agent} → Run agent → FlowKey → List ℕ → ℕ → Type 0
  IsApprovedIn (starts size agent e) key lookup_key cookie = ⊥
  IsApprovedIn (packet env payload packet_id agent run) key lookup_key cookie =
      IsApprovedIn run key lookup_key cookie
  IsApprovedIn (decision env session agent run) key lookup_key cookie =
      IsApprovedIn run key lookup_key cookie ⊎ IsApproval env session agent key lookup_key cookie
  IsApprovedIn (expiry env agent run) key lookup_key cookie = IsApprovedIn run key lookup_key cookie
  IsApprovedIn (shutdown env agent run) key lookup_key cookie =
      IsApprovedIn run key lookup_key cookie
  IsApprovedIn (elsewhere agent next e run) key lookup_key cookie =
      IsApprovedIn run key lookup_key cookie

  -- In every run each slot of the table is well formed: it holds at most 512 packets, and none once it
  -- is free or its flow is decided, and only a flow with both hellos is admitted.
  pub Run-IsWellFormed : {agent : Agent} (run : Run agent) (i : ℕ) → IsWellFormed (gate_at agent i)
  Run-IsWellFormed (starts size agent e) i =
      subst (λ t. IsWellFormed (get_or t i zero_gate)) (sym e) (zero_well_formed size i)
    where
      zero_well_formed : (n i : ℕ) → IsWellFormed (get_or (replicate n zero_gate) i zero_gate)
      zero_well_formed n i = subst IsWellFormed (sym (get_or-replicate n i zero_gate)) (record {
        few_held = omega arith;
        unused_holds_none = λ h. refl;
        decided_holds_none = λ h. refl;
        admitted_seen = λ h. cc;
      })
  Run-IsWellFormed (packet env payload packet_id agent run) i =
      GateSteps-keeps {Approves = IsApprovedIn run}
        ((nfqueue_callback-Moves sha512 env payload packet_id agent).at i) (Run-IsWellFormed run i)
  Run-IsWellFormed (decision env session agent run) i =
      GateSteps-keeps ((apply_decision_impl-Moves env session agent).at i) (Run-IsWellFormed run i)
  Run-IsWellFormed (expiry env agent run) i =
      GateSteps-keeps {Approves = IsApprovedIn run} ((expire_gate_flows-Moves env agent).at i)
        (Run-IsWellFormed run i)
  Run-IsWellFormed (shutdown env agent run) i =
      GateSteps-keeps {Approves = IsApprovedIn run} ((drop_all_held-Moves env agent).at i)
        (Run-IsWellFormed run i)
  Run-IsWellFormed (elsewhere agent next e run) i =
      subst (λ t. IsWellFormed (get_or t i zero_gate)) (sym e) (Run-IsWellFormed run i)

  -- An admitted flow was admitted before the step, and then approved in the run so far, or is approved
  -- by the step.
  approved_before :
      {agent : Agent} (run : Run agent) (Approves : FlowKey → List ℕ → ℕ → Type 0) (g h : GateFlow)
      → ((g.state ≡ admitted) → IsApprovedIn run g.key g.lookup_key g.socket_cookie)
      → IsExplained Approves g h
      → IsApprovedIn run h.key h.lookup_key h.socket_cookie
        ⊎ Approves h.key h.lookup_key h.socket_cookie
  approved_before run Approves g h ih (inr p) = inr p
  approved_before run Approves g h ih (inl (a, k, l, c)) = inl (
      subst (λ t. IsApprovedIn run t h.lookup_key h.socket_cookie) k
        (subst (λ t. IsApprovedIn run g.key t h.socket_cookie) l
          (subst (λ t. IsApprovedIn run g.key g.lookup_key t) c (ih a))))

  either_way : {A : Type 0} → A ⊎ A → A
  either_way (inl a) = a
  either_way (inr a) = a

  kept :
      {agent : Agent} (run : Run agent) (g h : GateFlow)
      → GateSteps (IsApprovedIn run) g h
      → (g.state ≡ admitted → IsApprovedIn run g.key g.lookup_key g.socket_cookie)
      → h.state ≡ admitted
      → IsApprovedIn run h.key h.lookup_key h.socket_cookie
  kept run g h steps ih a =
      either_way (approved_before run (IsApprovedIn run) g h ih (GateSteps-IsExplained steps a))

  -- In every run a flow that is admitted was approved by a decision for the same flow, ClientHello and
  -- socket: one whose report was verified, in the state that the agent then had.
  pub Run-admitted-approved :
      {agent : Agent} (run : Run agent) (i : ℕ)
      → (gate_at agent i).state ≡ admitted
      → IsApprovedIn run
          (gate_at agent i).key
          (gate_at agent i).lookup_key
          (gate_at agent i).socket_cookie
  Run-admitted-approved (starts size agent e) i =
      subst (λ t. (get_or t i zero_gate).state ≡ admitted → ⊥) (sym e)
        (subst (λ g. g.state ≡ admitted → ⊥) (sym (get_or-replicate size i zero_gate)) (λ h. cc))
  Run-admitted-approved (packet env payload packet_id agent run) i =
      kept run (gate_at agent i) _
        ((nfqueue_callback-Moves sha512 env payload packet_id agent).at i)
        (Run-admitted-approved run i)
  Run-admitted-approved (decision env session agent run) i = λ a.
      approved_before run (IsApproval env session agent) (gate_at agent i)
        (gate_at (apply_decision_impl env session agent) i) (Run-admitted-approved run i)
        (GateSteps-IsExplained ((apply_decision_impl-Moves env session agent).at i) a)
  Run-admitted-approved (expiry env agent run) i =
      kept run (gate_at agent i) _ ((expire_gate_flows-Moves env agent).at i)
        (Run-admitted-approved run i)
  Run-admitted-approved (shutdown env agent run) i =
      kept run (gate_at agent i) _ ((drop_all_held-Moves env agent).at i)
        (Run-admitted-approved run i)
  Run-admitted-approved (elsewhere agent next e run) i =
      subst
        (λ t.
          (get_or t i zero_gate).state ≡ admitted
          → IsApprovedIn run (get_or t i zero_gate).key (get_or t i zero_gate).lookup_key
              (get_or t i zero_gate).socket_cookie)
        (sym e) (Run-admitted-approved run i)
