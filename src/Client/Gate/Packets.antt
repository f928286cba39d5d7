-- ===== src/Client/Gate/Packets.antt =====
-- The branches of `handle_client_packet` of agents/linux/tcpra_client_agent.c as steps of the state
-- machine of a slot: none of them admits a flow.
use tlslatch.Base.{
  by_test, by_option, ℕ, zero, suc, ◌<◌, List, [], ◌∷◌, Bool, true, false, not, ◌≡◌, sym, subst,
  get_or, set, ◌&&◌, length, arith, not-false,
}
use tlslatch.Packet.{FlowKey}
use tlslatch.Client.State.{GateFlow, zero_gate, Agent, Env, gate_at, put_gate, tombstone, handshake}
use tlslatch.Client.Table.{gate_flow_find, gate_flow_slot}
use tlslatch.Client.Held.{is_taken, holds_packets, reset_gate_flow, quarantine_endpoint}
use tlslatch.Client.Action.{Action, count_full, count_reset, refuse, see_client_hello}
use tlslatch.Client.Gated.{
  open_gate, handle_syn, handle_close, hello_verdict, is_other_hello, is_new_hello, restart_gate,
  handle_client_hello, handle_server_hello,
}
use tlslatch.Client.Gate.{binds, sees_client_hello, sees_server_hello, vacates}
use tlslatch.Client.Gate.Moves.{Moves, Moves-refl, Moves-set}
use tlslatch.Client.Gate.Held.{
  finish_held-Moves, finish_held-empty, holds_packets-empty, reset_gate_flow-Moves,
  reset_gate_flow-state, quarantine_endpoint-flows,
}
use tlslatch.Client.Gate.Lookup.{
  count_reset-flows, client_observe_hello-flows, client_observe_server_key-flows,
}

-- A handler's answer, with the table that it leaves.
abbrev pub Acts : (FlowKey → List ℕ → ℕ → Type 0) → Agent → Action × Agent → Type 0
Acts Approves agent r = Moves Approves agent.flows r.1.flows

module _ {Approves : FlowKey → List ℕ → ℕ → Type 0} where
  pub same_flows-Moves : {a b : List GateFlow} → b ≡ a → Moves Approves a b
  same_flows-Moves {a} e = subst (λ t. Moves Approves a t) (sym e) (Moves-refl a)

  pub quarantine-Moves :
      (agent : Agent) → Moves Approves agent.flows (quarantine_endpoint agent).flows
  quarantine-Moves agent = same_flows-Moves (quarantine_endpoint-flows agent)

  refuse-Moves : (agent : Agent) → Moves Approves agent.flows (refuse agent).1.flows
  refuse-Moves agent =
      by_test (λ r. Acts Approves agent r) agent.audit_only (λ e. Moves-refl agent.flows)
        (λ e. quarantine-Moves agent)

  open_gate-Moves :
      (env : Env) (i : ℕ) (key : FlowKey) (cookie : ℕ) (agent : Agent)
      → Moves Approves agent.flows (open_gate env i key cookie agent).flows
  open_gate-Moves env i key cookie agent =
      Moves-set i _ (reset_gate_flow-Moves env i key agent) (λ l.
        binds (gate_at (reset_gate_flow env i key agent) i) cookie _
          (reset_gate_flow-state env i key agent l))

  pub handle_syn-Moves :
      (env : Env) (key : FlowKey) (agent : Agent)
      → Moves Approves agent.flows (handle_syn env key agent).1.flows
  unfolding handle_syn
  handle_syn-Moves env key agent =
      by_option (λ r. Acts Approves agent r) (env.socket_cookie key 2) (λ e. refuse-Moves agent)
        (λ cookie c.
          by_option (λ r. Acts Approves agent r) (gate_flow_slot agent.flows key)
            (λ e. refuse-Moves _)
            (λ i e.
              let b = is_taken (gate_at agent i) && (gate_at agent i).client_hello_seen in
              subst (λ t. Moves Approves t (open_gate env i key cookie (count_reset b agent)).flows)
                (count_reset-flows b agent)
                (open_gate-Moves env i key cookie (count_reset b agent))))

  pub handle_close-Moves :
      (env : Env) (key : FlowKey) (agent : Agent)
      → Moves Approves agent.flows (handle_close env key agent).1.flows
  unfolding handle_close
  handle_close-Moves env key agent =
      by_option (λ r. Acts Approves agent r) (gate_flow_find agent.flows key)
        (λ e. Moves-refl agent.flows)
        (λ i e.
          by_test
            (λ (r : Agent).
              Moves Approves agent.flows
                (put_gate r i (record zero_gate { occupancy = tombstone })).flows)
            (holds_packets (gate_at agent i))
            (λ h.
              Moves-set i _ (finish_held-Moves env false i agent)
                (λ l. vacates _ (finish_held-empty env false i agent)))
            (λ h.
              Moves-set i _ (Moves-refl agent.flows)
                (λ l. vacates _ (holds_packets-empty (gate_at agent i) h))))

  pub see_client_hello-Moves :
      (i : ℕ) (lookup_key : List ℕ) (old : List GateFlow) (agent : Agent)
      → Moves Approves old agent.flows
      → (i < length agent.flows → (gate_at agent i).state ≡ handshake)
      → Moves Approves old (see_client_hello i lookup_key agent).flows
  see_client_hello-Moves i lookup_key old agent m s =
      Moves-set i _ m (λ l. sees_client_hello (gate_at agent i) lookup_key (s l))

  restart_gate-Moves :
      (env : Env) (i : ℕ) (key : FlowKey) (cookie : ℕ) (lookup_key : List ℕ) (agent : Agent)
      → Acts Approves agent (restart_gate env i key cookie lookup_key agent)
  unfolding restart_gate
  restart_gate-Moves env i key cookie lookup_key agent =
      let reset = reset_gate_flow env i key agent in
      let bound = put_gate reset i (record (gate_at reset i) { socket_cookie = cookie }) in
      let seen = see_client_hello i lookup_key bound in
      hello_verdict-acts _ (
        subst (λ t. Moves Approves agent.flows t)
          (sym (client_observe_hello-flows env key lookup_key (gate_at seen i).state_ns seen))
          (see_client_hello-Moves i lookup_key agent.flows bound
            (Moves-set i _ (reset_gate_flow-Moves env i key agent)
              (λ l. binds (gate_at reset i) cookie _ (reset_gate_flow-state env i key agent l)))
            (λ l. bound-state reset.flows i cookie (reset_gate_flow-state env i key agent) l)))
    where
      hello_verdict-acts :
          (r : Bool × Agent)
          → Moves Approves agent.flows r.1.flows
          → Acts Approves agent (hello_verdict r)
      hello_verdict-acts (true, b) m = m
      hello_verdict-acts (false, b) m = m

      bound-state :
          (flows : List GateFlow) (i cookie : ℕ)
          → (i < length flows → (get_or flows i zero_gate).state ≡ handshake)
          → i < length (set flows i (record (get_or flows i zero_gate) { socket_cookie = cookie }))
          → (get_or
              (set flows i (record (get_or flows i zero_gate) { socket_cookie = cookie }))
              i
              zero_gate).state
            ≡ handshake
      bound-state [] i cookie s l = absurd (omega arith)
      bound-state (x ∷ xs) zero cookie s l = s (omega arith)
      bound-state (x ∷ xs) (suc i) cookie s l =
          bound-state xs i cookie (λ h. s (omega arith)) (omega arith)

  pub handle_client_hello-Moves :
      (env : Env) (key : FlowKey) (lookup_key : List ℕ) (agent : Agent)
      → Acts Approves agent (handle_client_hello env key lookup_key agent)
  unfolding handle_client_hello
  handle_client_hello-Moves env key lookup_key agent =
      by_option (λ r. Acts Approves agent r) (env.socket_cookie key 1) (λ e. quarantine-Moves agent)
        (λ cookie c.
          by_option (λ r. Acts Approves agent r) (gate_flow_slot agent.flows key)
            (λ e. quarantine-Moves (count_full agent))
            (λ i e.
              let gate = gate_at agent i in
              let b = is_taken gate && gate.client_hello_seen && is_other_hello gate lookup_key in
              by_test (λ r. Acts Approves agent r) (is_new_hello gate cookie lookup_key)
                (λ n.
                  subst
                    (λ t.
                      Moves Approves t
                        (restart_gate env i key cookie lookup_key (count_reset b agent)).1.flows)
                    (count_reset-flows b agent)
                    (restart_gate-Moves env i key cookie lookup_key (count_reset b agent)))
                (λ n. same_flows-Moves (count_reset-flows b agent))))

  pub handle_server_hello-Moves :
      (env : Env) (key : FlowKey) (report_key : List ℕ) (agent : Agent)
      → Acts Approves agent (handle_server_hello env key report_key agent)
  unfolding handle_server_hello
  handle_server_hello-Moves env key report_key agent =
      by_option (λ r. Acts Approves agent r) (gate_flow_find agent.flows key)
        (λ e. Moves-refl agent.flows)
        (λ i e.
          let gate = gate_at agent i in
          by_test (λ r. Acts Approves agent r) (not gate.client_hello_seen)
            (λ c. Moves-refl agent.flows)
            (λ c.
              by_test (λ r. Acts Approves agent r) gate.server_hello_seen
                (λ s. Moves-refl agent.flows)
                (λ s.
                  subst (λ t. Moves Approves agent.flows t)
                    (sym (
                      client_observe_server_key-flows key gate.lookup_key report_key (env.clock 0)
                        _))
                    (Moves-set i _ (Moves-refl agent.flows) (λ l.
                      sees_server_hello gate report_key (env.clock 0)
                        (not-false gate.client_hello_seen c) s)))))
