-- ===== src/Client/Gate/Expiry.antt =====
-- `expire_gate_flows` of agents/linux/tcpra_client_agent.c as steps of the state machine of a slot.
use tlslatch.Base.{
  by_test, ℕ, zero, suc, ◌+◌, ◌*◌, List, true, false, not, ◌≡◌, sym, subst, ltb, length, arith,
  not-true,
}
use tlslatch.Packet.{FlowKey}
use tlslatch.Client.State.{GateFlow, Agent, Env, gate_at}
use tlslatch.Client.Held.{is_taken, holds_packets}
use tlslatch.Client.Expiry.{
  elapsed, is_overdue, is_stale, deny_overdue, expire_one, expire_from, expire_gate_flows,
}
use tlslatch.Client.Gate.{denies, vacates}
use tlslatch.Client.Gate.Moves.{Moves, Moves-refl, Moves-trans, Moves-set}
use tlslatch.Client.Gate.Held.{
  finish_held-Moves, finish_held-empty, holds_packets-empty, quarantine_endpoint-flows,
}

module _ {Approves : FlowKey → List ℕ → ℕ → Type 0} (env : Env) (current : ℕ) where
  deny_overdue-Moves :
      (i : ℕ) (agent : Agent) → Moves Approves agent.flows (deny_overdue env current i agent).flows
  unfolding deny_overdue
  deny_overdue-Moves i agent =
      subst (λ t. Moves Approves agent.flows t) (sym (quarantine_endpoint-flows _))
        (Moves-set i _ (finish_held-Moves env false i agent)
          (λ l. denies _ current (finish_held-empty env false i agent)))

  expire_one-Moves :
      (i : ℕ) (agent : Agent) → Moves Approves agent.flows (expire_one env current i agent).flows
  unfolding expire_one
  expire_one-Moves i agent =
      let gate = gate_at agent i in
      by_test (λ (r : Agent). Moves Approves agent.flows r.flows) (not (is_taken gate))
        (λ e. Moves-refl agent.flows)
        (λ e.
          by_test (λ (r : Agent). Moves Approves agent.flows r.flows) (is_overdue current gate)
            (λ o. deny_overdue-Moves i agent)
            (λ o.
              by_test (λ (r : Agent). Moves Approves agent.flows r.flows) (is_stale current gate)
                (λ s.
                  Moves-set i _ (Moves-refl agent.flows)
                    (λ l. vacates gate (holds_packets-empty gate (stale-holds_none gate s))))
                (λ s. Moves-refl agent.flows)))
    where
      stale-holds_none : (g : GateFlow) → is_stale current g ≡ true → holds_packets g ≡ false
      stale-holds_none g s = not-true (holds_packets g) (ground arith)

  pub expire_from-Moves :
      (left i : ℕ) (agent : Agent)
      → Moves Approves agent.flows (expire_from env current left i agent).flows
  unfolding expire_from
  expire_from-Moves zero i agent = Moves-refl agent.flows
  expire_from-Moves (suc left) i agent =
      Moves-trans (expire_one-Moves i agent)
        (expire_from-Moves left (i + 1) (expire_one env current i agent))

module _ {Approves : FlowKey → List ℕ → ℕ → Type 0} where
  -- The scan of the deadlines takes each slot along its state machine for every approval that one names,
  -- so it admits no flow and frees no slot that holds packets.
  pub expire_gate_flows-Moves :
      (env : Env) (agent : Agent) → Moves Approves agent.flows (expire_gate_flows env agent).flows
  unfolding expire_gate_flows
  expire_gate_flows-Moves env agent =
      by_test (λ (r : Agent). Moves Approves agent.flows r.flows)
        (ltb (elapsed (env.clock 0) agent.last_expiry_scan_ns) (10 * 1000000))
        (λ e. Moves-refl agent.flows)
        (λ e. expire_from-Moves env (env.clock 0) (length agent.flows) 0 _)
