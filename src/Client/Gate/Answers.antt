-- ===== src/Client/Gate/Answers.antt =====
-- `handle_client_packet`, `nfqueue_callback`, `apply_decision_impl` and `expire_gate_flows` of
-- agents/linux/tcpra_client_agent.c as steps of the state machine of each slot.
use tlslatch.Base.{
  by_test, by_option, ℕ, List, Option, none, Bool, not, if◌then◌else◌, ◌≡◌, refl, sym, subst, ◌&&◌,
  ltb, length,
}
use tlslatch.Packet.{FlowKey, View, parse_ipv4_tcp, normalize_flow}
use tlslatch.Tls.Records.{tls_find_clienthello, tls_find_serverhello}
use tlslatch.Client.State.{Agent, Env}
use tlslatch.Client.Table.{gate_flow_find}
use tlslatch.Client.Action.{
  Action, drop, accept, hold, authorize, parsed, has_payload, is_syn, is_fin_or_rst,
}
use tlslatch.Client.Handler.{
  handle_audit, handle_gated, handle_flow, handle_client_packet, act, classify, nfqueue_callback,
}
use tlslatch.Client.Gate.Moves.{Moves, Moves-refl}
use tlslatch.Client.Gate.Packets.{
  Acts, handle_syn-Moves, handle_close-Moves, handle_client_hello-Moves, handle_server_hello-Moves,
}
use tlslatch.Client.Gate.Data.{
  handle_data-Moves, audit_client_hello-Moves, audit_server_hello-Moves, audit_verdict-Moves,
}

pub act-flows :
    (env : Env) (packet_id : ℕ) (r : Action × Agent) → (act env packet_id r).flows ≡ r.1.flows
unfolding act
act-flows env packet_id (hold, agent) = refl
act-flows env packet_id (drop, agent) =
    by_test (λ (r : Agent). r.flows ≡ agent.flows) (env.verdict_ok packet_id) (λ e. refl)
      (λ e. refl)
act-flows env packet_id (accept, agent) =
    by_test (λ (r : Agent). r.flows ≡ agent.flows) (env.verdict_ok packet_id) (λ e. refl)
      (λ e. refl)
act-flows env packet_id (authorize, agent) =
    by_test (λ (r : Agent). r.flows ≡ agent.flows) (env.verdict_ok packet_id) (λ e. refl)
      (λ e. refl)

module _ {Approves : FlowKey → List ℕ → ℕ → Type 0} (sha512 : List ℕ → Option (List ℕ))
    (env : Env) where
  handle_audit-Moves :
      (view : View) (key : FlowKey) (client_to_server : Bool) (agent : Agent)
      → Acts Approves agent (handle_audit sha512 env view key client_to_server agent)
  unfolding handle_audit
  handle_audit-Moves view key client_to_server agent =
      let gate = gate_flow_find agent.flows key in
      audit_verdict-Moves client_to_server _ agent (
        by_option (λ (r : Option ℕ × Agent). Moves Approves agent.flows r.1.flows)
          (if client_to_server && has_payload view
            then parsed (tls_find_clienthello sha512 view.payload)
            else none)
          (λ e.
            by_option (λ (r : Option ℕ × Agent). Moves Approves agent.flows r.1.flows)
              (if not client_to_server && has_payload view
                then parsed (tls_find_serverhello sha512 view.payload)
                else none)
              (λ n. Moves-refl agent.flows)
              (λ share n. audit_server_hello-Moves env share.report_key gate agent))
          (λ ch e. audit_client_hello-Moves env key ch gate agent))

  handle_gated-Moves :
      (view : View) (key : FlowKey) (client_to_server : Bool) (packet_id : ℕ) (agent : Agent)
      → Acts Approves agent (handle_gated sha512 env view key client_to_server packet_id agent)
  unfolding handle_gated
  handle_gated-Moves view key client_to_server packet_id agent =
      by_test (λ r. Acts Approves agent r)
        (client_to_server
          && not (has_payload view)
          && is_fin_or_rst view.tcp_flags
          && agent.has_selector)
        (λ e. handle_close-Moves env key agent)
        (λ e.
          by_option (λ r. Acts Approves agent r)
            (if client_to_server && has_payload view
              then parsed (tls_find_clienthello sha512 view.payload)
              else none)
            (λ n.
              by_option (λ r. Acts Approves agent r)
                (if not client_to_server && has_payload view
                  then parsed (tls_find_serverhello sha512 view.payload)
                  else none)
                (λ m. handle_data-Moves env view key client_to_server packet_id agent)
                (λ share m. handle_server_hello-Moves env key share.report_key agent))
            (λ lookup_key n. handle_client_hello-Moves env key lookup_key agent))

  handle_flow-Moves :
      (view : View) (key : FlowKey) (client_to_server : Bool) (packet_id : ℕ) (agent : Agent)
      → Acts Approves agent (handle_flow sha512 env view key client_to_server packet_id agent)
  unfolding handle_flow
  handle_flow-Moves view key client_to_server packet_id agent =
      by_test (λ r. Acts Approves agent r) agent.endpoint_quarantined (λ e. Moves-refl agent.flows)
        (λ e.
          by_test (λ r. Acts Approves agent r) (client_to_server && is_syn view.tcp_flags)
            (λ s. handle_syn-Moves env key agent)
            (λ s.
              by_test (λ r. Acts Approves agent r) agent.audit_only
                (λ a. handle_audit-Moves view key client_to_server agent)
                (λ a. handle_gated-Moves view key client_to_server packet_id agent)))

  handle_client_packet-Moves :
      (view : View) (packet_id : ℕ) (agent : Agent)
      → Acts Approves agent (handle_client_packet sha512 env view packet_id agent)
  unfolding handle_client_packet
  handle_client_packet-Moves view packet_id agent =
      by_option (λ r. Acts Approves agent r) (normalize_flow view agent.main_port)
        (λ e. Moves-refl agent.flows) (λ f e. handle_flow-Moves view f.0 f.1 packet_id agent)

  classify-Moves :
      (payload : List ℕ) (packet_id : ℕ) (agent : Agent)
      → Acts Approves agent (classify sha512 env payload packet_id agent)
  unfolding classify
  classify-Moves payload packet_id agent =
      by_test (λ r. Acts Approves agent r) (ltb 0 (length payload))
        (λ e.
          by_option (λ r. Acts Approves agent r) (parsed (parse_ipv4_tcp payload))
            (λ n. Moves-refl agent.flows)
            (λ view n. handle_client_packet-Moves view packet_id agent))
        (λ e. Moves-refl agent.flows)

  -- Handling a packet takes each slot along its state machine for every approval that one names, so for
  -- none: no packet admits a flow.
  pub nfqueue_callback-Moves :
      (payload : List ℕ) (packet_id : ℕ) (agent : Agent)
      → Moves Approves agent.flows (nfqueue_callback sha512 env payload packet_id agent).flows
  unfolding nfqueue_callback
  nfqueue_callback-Moves payload packet_id agent =
      subst (λ t. Moves Approves agent.flows t) (sym (act-flows env packet_id _))
        (classify-Moves payload packet_id _)
