-- ===== src/Client/AuditMode.antt =====
-- `handle_client_packet` of agents/linux/tcpra_client_agent.c where the agent only audits (lines 696
-- to 731 of the file). Each `if` of the C function that ends in a `return` is a function here.
use tlslatch.Base.{
  ℕ, List, Option, some, none, Bool, true, false, not, ◌&&◌, if◌then◌else◌, same_bytes,
}
use tlslatch.Packet.{FlowKey}
use tlslatch.Client.State.{Agent, Env, gate_at, put_gate}
use tlslatch.Client.Table.{gate_flow_slot}
use tlslatch.Client.Held.{reset_gate_flow}
use tlslatch.Client.Audit.{client_audit_record, fail_audit}
use tlslatch.Client.Action.{Action, accept, authorize, count_server_hello, see_client_hello}

-- The gate of the flow, if it knows this ClientHello.
abbrev pub known_hello : Agent → Option ℕ → List ℕ → Bool
known_hello agent none ch = false
known_hello agent (some i) ch = same_bytes (gate_at agent i).lookup_key ch

unfoldable pub audit_client_hello : Env → FlowKey → List ℕ → Option ℕ → Agent → Option ℕ × Agent
audit_client_hello env key ch gate agent =
    if known_hello agent gate ch then (gate, agent) else elim (gate_flow_slot agent.flows key) [
      | none ↦ (none, fail_audit agent)
      | some i ↦
          let reset = reset_gate_flow env i key agent in
          let timeless = put_gate reset i (record (gate_at reset i) { deadline_ns = 0 }) in
          (some i, see_client_hello i ch timeless)
    ]

abbrev pub record_server_hello : Env → ℕ → List ℕ → Agent → Agent
record_server_hello env i sh agent =
    let gate = record (gate_at agent i) { server_hello_seen = true; report_key = sh } in
    let seen = count_server_hello (put_gate agent i gate) in
    record seen { audit = client_audit_record env gate seen.audit }

unfoldable pub audit_server_hello : Env → List ℕ → Option ℕ → Agent → Option ℕ × Agent
audit_server_hello env sh none agent = (none, fail_audit agent)
audit_server_hello env sh (some i) agent =
    let gate = gate_at agent i in
    if not gate.client_hello_seen
    then (some i, fail_audit agent)
    else if not gate.server_hello_seen
    then (some i, record_server_hello env i sh agent)
    else (some i, agent)

abbrev pub audit_verdict : Bool → Option ℕ × Agent → Action × Agent
audit_verdict client_to_server (none, agent) = (accept, agent)
audit_verdict client_to_server (some i, agent) =
    if (gate_at agent i).server_hello_seen && client_to_server
    then (authorize, agent)
    else (accept, agent)
