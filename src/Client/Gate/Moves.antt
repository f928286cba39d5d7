-- ===== src/Client/Gate/Moves.antt =====
-- The operations of agents/linux/tcpra_client_agent.c as steps of the slots of the flow table: the
-- relation and its rules.
use tlslatch.Base.{ℕ, ◌<◌, List, if◌then◌else◌, get_or, set, length, get_or-set-keeps}
use tlslatch.Packet.{FlowKey}
use tlslatch.Client.State.{GateFlow, zero_gate}
use tlslatch.Client.Gate.{GateStep, GateSteps, stays, ◌then◌}

module _ (Approves : FlowKey → List ℕ → ℕ → Type 0) where
  pub GateSteps-trans :
      {g h k : GateFlow} → GateSteps Approves g h → GateSteps Approves h k → GateSteps Approves g k
  GateSteps-trans p (stays g) = p
  GateSteps-trans p (q then step) = GateSteps-trans p q then step

-- The slots of one table are brought to those of another, each by steps.
pub record Moves (Approves : FlowKey → List ℕ → ℕ → Type 0) (old new : List GateFlow) : Type 0 where
  pub at : (i : ℕ) → GateSteps Approves (get_or old i zero_gate) (get_or new i zero_gate)

module _ {Approves : FlowKey → List ℕ → ℕ → Type 0} where
  pub Moves-refl : (flows : List GateFlow) → Moves Approves flows flows
  Moves-refl flows = record { at = λ i. stays (get_or flows i zero_gate) }

  pub Moves-trans :
      {a b c : List GateFlow} → Moves Approves a b → Moves Approves b c → Moves Approves a c
  Moves-trans p q = record { at = λ i. GateSteps-trans Approves (p.at i) (q.at i) }

  -- A write to a slot that is a step of what was there.
  pub Moves-set :
      {a b : List GateFlow} (i : ℕ) (gate : GateFlow)
      → Moves Approves a b
      → (i < length b → GateStep Approves (get_or b i zero_gate) gate)
      → Moves Approves a (set b i gate)
  Moves-set {a} {b} i gate p step = record {
    at =
        get_or-set-keeps (λ j g. GateSteps Approves (get_or a j zero_gate) g) b i gate zero_gate
          p.at (λ l. p.at i then step l);
  }
