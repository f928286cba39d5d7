-- ===== src/Client/Gated.antt =====
-- `handle_client_packet` of agents/linux/tcpra_client_agent.c: the SYN, and the branches of an agent
-- that does not only audit, each a function here.
use tlslatch.Base.{
  ℕ, ◌+◌, List, [], ◌∷◌, ◌++◌, Option, some, none, Bool, true, false, not, ◌&&◌, ◌||◌, leb, ◌==◌,
  ◌/=◌, if◌then◌else◌, same_bytes, length,
}
use tlslatch.Packet.{FlowKey, View}
use tlslatch.Client.State.{
  GateFlow, zero_gate, tombstone, server_hello, admitted, denied, Agent, Env, gate_at, put_gate,
}
use tlslatch.Client.Table.{gate_flow_find, gate_flow_slot}
use tlslatch.Client.Held.{
  is_taken, finish_held, holds_packets, reset_gate_flow, quarantine_endpoint,
}
use tlslatch.Client.Sessions.{client_observe_hello, client_observe_server_key}
use tlslatch.Client.Action.{
  Action, drop, accept, hold, authorize, max_held_packets, count_full, count_reset,
  count_server_hello, refuse, see_client_hello, has_payload,
}

abbrev pub open_gate : Env → ℕ → FlowKey → ℕ → Agent → Agent
open_gate env i key cookie agent =
    let reset = reset_gate_flow env i key agent in
    let gate = gate_at reset i in
    put_gate reset i (record gate {
      socket_cookie = cookie;
      deadline_ns = if agent.audit_only then 0 else gate.deadline_ns;
    })

unfoldable pub handle_syn : Env → FlowKey → Agent → Action × Agent
handle_syn env key agent = elim (env.socket_cookie key 2) [
  | none ↦ refuse agent
  | some cookie ↦ elim (gate_flow_slot agent.flows key) [
    | none ↦ refuse (count_full agent)
    | some i ↦
        let gate = gate_at agent i in
        (
          accept,
          open_gate env i key cookie (count_reset (is_taken gate && gate.client_hello_seen) agent),
        )
  ]
]

unfoldable pub handle_close : Env → FlowKey → Agent → Action × Agent
handle_close env key agent = elim (gate_flow_find agent.flows key) [
  | none ↦ (accept, agent)
  | some i ↦
      let dropped =
        if holds_packets (gate_at agent i) then finish_held env false i agent else agent in
      (accept, put_gate dropped i (record zero_gate { occupancy = tombstone }))
]

abbrev pub hello_verdict : Bool × Agent → Action × Agent
hello_verdict (true, agent) = (accept, agent)
hello_verdict (false, agent) = (drop, agent)

abbrev pub is_other_hello : GateFlow → List ℕ → Bool
is_other_hello gate lookup_key = not (same_bytes gate.lookup_key lookup_key)

-- A ClientHello that the gate has not seen on this connection.
abbrev pub is_new_hello : GateFlow → ℕ → List ℕ → Bool
is_new_hello gate cookie lookup_key =
    not (is_taken gate)
    || not gate.client_hello_seen
    || gate.socket_cookie /= cookie
    || is_other_hello gate lookup_key

unfoldable pub restart_gate : Env → ℕ → FlowKey → ℕ → List ℕ → Agent → Action × Agent
restart_gate env i key cookie lookup_key agent =
    let reset = reset_gate_flow env i key agent in
    let bound = put_gate reset i (record (gate_at reset i) { socket_cookie = cookie }) in
    let seen = see_client_hello i lookup_key bound in
    hello_verdict (client_observe_hello env key lookup_key (gate_at seen i).state_ns seen)

unfoldable pub handle_client_hello : Env → FlowKey → List ℕ → Agent → Action × Agent
handle_client_hello env key lookup_key agent = elim (env.socket_cookie key 1) [
  | none ↦ (drop, quarantine_endpoint agent)
  | some cookie ↦ elim (gate_flow_slot agent.flows key) [
    | none ↦ (drop, quarantine_endpoint (count_full agent))
    | some i ↦
        let gate = gate_at agent i in
        let counted =
          count_reset (is_taken gate && gate.client_hello_seen && is_other_hello gate lookup_key)
            agent in
        if is_new_hello gate cookie lookup_key
        then restart_gate env i key cookie lookup_key counted
        else (accept, counted)
  ]
]

unfoldable pub handle_server_hello : Env → FlowKey → List ℕ → Agent → Action × Agent
handle_server_hello env key report_key agent = elim (gate_flow_find agent.flows key) [
  | none ↦ (drop, agent)
  | some i ↦
      let gate = gate_at agent i in
      if not gate.client_hello_seen
      then (drop, agent)
      else if gate.server_hello_seen
      then (accept, agent)
      else (
        accept,
        client_observe_server_key key gate.lookup_key report_key (env.clock 0) (
            count_server_hello (
              put_gate agent i (record gate {
                server_hello_seen = true;
                state = server_hello;
                state_ns = env.clock 0;
                report_key = report_key;
              }))),
      )
]

abbrev pub hold_packet : ℕ → ℕ → Agent → Action × Agent
hold_packet packet_id i agent =
    let gate = gate_at agent i in
    if leb max_held_packets (length gate.held_ids)
    then (
      drop,
      quarantine_endpoint (record agent {
        counters = record (agent.counters) { held_table_full = agent.counters.held_table_full + 1 };
      }),
    )
    else (
      hold,
      put_gate
          (record agent {
            counters = record (agent.counters) { held_packets = agent.counters.held_packets + 1 };
          })
          i (record gate { held_ids = gate.held_ids ++ packet_id ∷ [] }),
    )

-- The two socket tests of an admitted flow.
abbrev pub check_socket : Option ℕ → ℕ → Agent → Action × Agent
check_socket none bound agent = (drop, quarantine_endpoint agent)
check_socket (some cookie) bound agent =
    if cookie == bound then (authorize, agent) else (drop, quarantine_endpoint agent)

abbrev pub handle_undecided : View → Bool → ℕ → ℕ → Agent → Action × Agent
handle_undecided view client_to_server packet_id i agent =
    if not (has_payload view) || not client_to_server
    then (accept, agent)
    else hold_packet packet_id i agent

-- The part of the handler behind the two hellos.
unfoldable pub handle_data : Env → View → FlowKey → Bool → ℕ → Agent → Action × Agent
handle_data env view key client_to_server packet_id agent = elim (gate_flow_find agent.flows key) [
  | none ↦
      if not (has_payload view)
      then (accept, agent)
      else if client_to_server
      then (drop, agent)
      else (accept, agent)
  | some i ↦
      let gate = gate_at agent i in
      elim gate.state [
        | admitted ↦
            if client_to_server
            then check_socket (env.socket_cookie key 1) gate.socket_cookie agent
            else (accept, agent)
        | denied ↦ (drop, agent)
        | _ ↦ handle_undecided view client_to_server packet_id i agent
      ]
]
