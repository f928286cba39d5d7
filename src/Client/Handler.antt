-- ===== src/Client/Handler.antt =====
-- `handle_client_packet` and `nfqueue_callback` of agents/linux/tcpra_client_agent.c, as built with
-- `TCPRA_SELECTOR_CLOSE_CLEANUP` (agents/linux/build.sh). Each `if` of the C function that ends in a
-- `return` is a function here.
use tlslatch.Base.{
  ℕ, ◌+◌, List, ◌∷◌, Option, some, none, Bool, true, false, not, ◌&&◌, ltb, if◌then◌else◌, length,
}
use tlslatch.Tls.Records.{tls_find_clienthello, tls_find_serverhello}
use tlslatch.Packet.{FlowKey, View, parse_ipv4_tcp, normalize_flow}
use tlslatch.Client.State.{Agent, Env, authorize_mark}
use tlslatch.Client.Table.{gate_flow_find}
use tlslatch.Client.Action.{
  Action, drop, accept, hold, authorize, parsed, is_syn, is_fin_or_rst, has_payload,
}
use tlslatch.Client.AuditMode.{audit_client_hello, audit_server_hello, audit_verdict}
use tlslatch.Client.Gated.{
  handle_syn, handle_close, handle_client_hello, handle_server_hello, handle_data,
}

-- The verdict of the kernel, where it takes it.
abbrev give_verdict : Env → ℕ → Bool → ℕ → Agent → Agent
give_verdict env packet_id accepts mark agent =
    if env.verdict_ok packet_id
    then record agent {
      verdicts = record { packet_id = packet_id; accepts = accepts; mark = mark } ∷ agent.verdicts;
    }
    else agent

abbrev count_copied : ℕ → Agent → Agent
count_copied n agent = record agent {
  counters = record (agent.counters) {
    copied_packets = agent.counters.copied_packets + 1;
    copied_bytes = agent.counters.copied_bytes + n;
  };
}

abbrev count_dropped : Agent → Agent
count_dropped agent = record agent {
  counters = record (agent.counters) { dropped_packets = agent.counters.dropped_packets + 1 };
}

abbrev count_accepted : Agent → Agent
count_accepted agent = record agent {
  counters = record (agent.counters) { accepted_packets = agent.counters.accepted_packets + 1 };
}

unfoldable pub act : Env → ℕ → Action × Agent → Agent
act env packet_id (hold, agent) = agent
act env packet_id (drop, agent) = give_verdict env packet_id false 0 (count_dropped agent)
act env packet_id (accept, agent) = give_verdict env packet_id true 0 (count_accepted agent)
act env packet_id (authorize, agent) =
    give_verdict env packet_id true authorize_mark (count_accepted agent)

module _ (sha512 : List ℕ → Option (List ℕ)) where
  unfoldable pub handle_audit : Env → View → FlowKey → Bool → Agent → Action × Agent
  handle_audit env view key client_to_server agent =
      let gate = gate_flow_find agent.flows key in
      let ch =
        if client_to_server && has_payload view
        then parsed (tls_find_clienthello sha512 view.payload)
        else none in
      let sh =
        if not client_to_server && has_payload view
        then parsed (tls_find_serverhello sha512 view.payload)
        else none in
      audit_verdict client_to_server (elim ch [
        | some ch ↦ audit_client_hello env key ch gate agent
        | none ↦ elim sh [
          | some share ↦ audit_server_hello env share.report_key gate agent
          | none ↦ (gate, agent)
        ]
      ])

  -- The handler of a gate that is not only auditing, behind the SYN.
  unfoldable pub handle_gated : Env → View → FlowKey → Bool → ℕ → Agent → Action × Agent
  handle_gated env view key client_to_server packet_id agent =
      if client_to_server
        && not (has_payload view)
        && is_fin_or_rst view.tcp_flags
        && agent.has_selector
      then handle_close env key agent
      else elim (if client_to_server && has_payload view
          then parsed (tls_find_clienthello sha512 view.payload)
          else none) [
            | some lookup_key ↦ handle_client_hello env key lookup_key agent
            | none ↦
                elim (if not client_to_server && has_payload view
                  then parsed (tls_find_serverhello sha512 view.payload)
                  else none) [
                    | some share ↦ handle_server_hello env key share.report_key agent
                    | none ↦ handle_data env view key client_to_server packet_id agent
                  ]
          ]

  unfoldable pub handle_flow : Env → View → FlowKey → Bool → ℕ → Agent → Action × Agent
  handle_flow env view key client_to_server packet_id agent =
      if agent.endpoint_quarantined
      then (drop, agent)
      else if client_to_server && is_syn view.tcp_flags
      then handle_syn env key agent
      else if agent.audit_only
      then handle_audit env view key client_to_server agent
      else handle_gated env view key client_to_server packet_id agent

  unfoldable pub handle_client_packet : Env → View → ℕ → Agent → Action × Agent
  handle_client_packet env view packet_id agent = elim (normalize_flow view agent.main_port) [
    | none ↦ (accept, agent)
    | some (key, client_to_server) ↦ handle_flow env view key client_to_server packet_id agent
  ]

  -- What `handle_client_packet` decides of a packet that can be parsed; another is dropped.
  unfoldable pub classify : Env → List ℕ → ℕ → Agent → Action × Agent
  classify env payload packet_id agent =
      if ltb 0 (length payload)
      then elim (parsed (parse_ipv4_tcp payload)) [
        | some view ↦ handle_client_packet env view packet_id agent
        | none ↦ (drop, agent)
      ]
      else (drop, agent)

  -- A packet with no header has the identifier 0, and one with no payload the empty one.
  unfoldable pub nfqueue_callback : Env → List ℕ → ℕ → Agent → Agent
  nfqueue_callback env payload packet_id agent =
      act env packet_id (classify env payload packet_id (count_copied (length payload) agent))
