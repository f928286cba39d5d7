-- ===== src/Client/Gate/Authorization.antt =====
-- What `handle_client_packet` of agents/linux/tcpra_client_agent.c guarantees of the data of a client,
-- in one step and over a run of the agent.
use tlslatch.Base.{
  by_test, by_option, ℕ, List, Option, some, none, Bool, true, false, not, if◌then◌else◌, ◌≡◌, ◌≢◌,
  ◌&&◌,
}
use tlslatch.Packet.{FlowKey, View, normalize_flow}
use tlslatch.Tls.Records.{tls_find_clienthello, tls_find_serverhello}
use tlslatch.Client.State.{Agent, Env, gate_at}
use tlslatch.Client.Table.{gate_flow_find, same_flow}
use tlslatch.Client.Gate.Lookup.{gate_flow_find-IsSlotOf}
use tlslatch.Client.Action.{Action, accept, authorize, parsed, has_payload, is_syn, is_fin_or_rst}
use tlslatch.Client.Handler.{handle_gated, handle_flow, handle_client_packet}
use tlslatch.Client.Gate.Verdicts.{
  IsAdmittedFlow, IsJustified, handle_data-IsJustified, handle_data-IsStopped,
  handle_syn-IsJustified, handle_close-IsJustified, handle_client_hello-IsJustified,
  handle_server_hello-IsJustified,
}
use tlslatch.Client.Gate.Run.{Run, IsApprovedIn, Run-admitted-approved}

module _ (sha512 : List ℕ → Option (List ℕ)) (env : Env) where
  handle_flow-IsJustified :
      (view : View) (key : FlowKey) (client_to_server : Bool) (packet_id : ℕ) (agent : Agent)
      → agent.audit_only ≡ false
      → IsJustified env key agent (handle_flow sha512 env view key client_to_server packet_id agent)
  unfolding handle_flow handle_gated
  handle_flow-IsJustified view key client_to_server packet_id agent g =
      by_test (IsJustified env key agent) agent.endpoint_quarantined (λ e h. cc)
        (λ e.
          by_test (IsJustified env key agent) (client_to_server && is_syn view.tcp_flags)
            (λ s. handle_syn-IsJustified env key agent)
            (λ s.
              by_test (IsJustified env key agent) agent.audit_only (λ a h. cc)
                (λ a.
                  by_test (IsJustified env key agent)
                    (client_to_server
                      && not (has_payload view)
                      && is_fin_or_rst view.tcp_flags
                      && agent.has_selector)
                    (λ c. handle_close-IsJustified env key agent)
                    (λ c.
                      by_option (IsJustified env key agent)
                        (if client_to_server && has_payload view
                          then parsed (tls_find_clienthello sha512 view.payload)
                          else none)
                        (λ n.
                          by_option (IsJustified env key agent)
                            (if not client_to_server && has_payload view
                              then parsed (tls_find_serverhello sha512 view.payload)
                              else none)
                            (λ m.
                              handle_data-IsJustified env key agent view client_to_server packet_id)
                            (λ share m.
                              handle_server_hello-IsJustified env key agent share.report_key))
                        (λ lookup_key n.
                          handle_client_hello-IsJustified env key agent lookup_key)))))

  -- Unless the agent only audits, a packet is authorized only where it belongs to a flow of the main
  -- port whose slot is admitted and bound to the socket that the kernel names at that time.
  pub handle_client_packet-authorize :
      (view : View) (packet_id : ℕ) (agent : Agent)
      → agent.audit_only ≡ false
      → (handle_client_packet sha512 env view packet_id agent).0 ≡ authorize
      → (key : FlowKey) × (client_to_server : Bool) × (normalize_flow view agent.main_port
          ≡ some (key, client_to_server))
        × IsAdmittedFlow env agent key
  unfolding handle_client_packet
  handle_client_packet-authorize view packet_id agent g =
      by_option
        (λ (r : Action × Agent).
          r.0 ≡ authorize
          → (key : FlowKey) × (client_to_server : Bool) × (normalize_flow view agent.main_port
              ≡ some (key, client_to_server))
            × IsAdmittedFlow env agent key)
        (normalize_flow view agent.main_port) (λ e h. cc)
        (λ f e h. (f.0, f.1, e, handle_flow-IsJustified view f.0 f.1 packet_id agent g h))

  -- Unless the agent only audits, a packet of the client that carries data, is no SYN and has no
  -- ClientHello that can be read is never accepted as it is: it is dropped, held or authorized.
  pub handle_flow-IsStopped :
      (view : View) (key : FlowKey) (packet_id : ℕ) (agent : Agent)
      → agent.audit_only ≡ false
      → is_syn view.tcp_flags ≡ false
      → has_payload view ≡ true
      → parsed (tls_find_clienthello sha512 view.payload) ≡ none
      → (handle_flow sha512 env view key true packet_id agent).0 ≢ accept
  unfolding handle_flow handle_gated
  handle_flow-IsStopped view key packet_id agent g s p n =
      rw (g, s, p, n)
        (by_test (λ (r : Action × Agent). r.0 ≢ accept) agent.endpoint_quarantined (λ e h. cc)
          (λ e. handle_data-IsStopped env key agent view packet_id p))

  -- Over a run of the agent, unless it only audits: where a packet is authorized, a decision of the
  -- run approved the flow, the ClientHello and the socket of the slot that is found for the packet's
  -- flow, and the slot's flow is the packet's.
  pub Run-authorize-approved :
      {agent : Agent} (run : Run sha512 agent) (view : View) (packet_id : ℕ)
      → agent.audit_only ≡ false
      → (handle_client_packet sha512 env view packet_id agent).0 ≡ authorize
      → (key : FlowKey) × (client_to_server : Bool) × (i : ℕ) × (normalize_flow view agent.main_port
          ≡ some (key, client_to_server))
        × (gate_flow_find agent.flows key ≡ some i)
        × (same_flow (gate_at agent i).key key ≡ true)
        × IsApprovedIn sha512 run
            (gate_at agent i).key
            (gate_at agent i).lookup_key
            (gate_at agent i).socket_cookie
  Run-authorize-approved {agent} run view packet_id g h =
      let (key, direction, of_packet, flow) =
        handle_client_packet-authorize view packet_id agent g h in
      (
        key,
        direction,
        flow.slot,
        of_packet,
        flow.found,
        (gate_flow_find-IsSlotOf agent.flows key flow.slot flow.found).1,
        Run-admitted-approved sha512 run flow.slot flow.is_admitted,
      )
