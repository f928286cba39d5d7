-- ===== src/Client/Expiry.antt =====
-- `expire_gate_flows` of agents/linux/tcpra_client_agent.c.
use tlslatch.Base.{
  ℕ, zero, suc, ◌+◌, ◌-◌, ◌*◌, ◌%◌, ◌^◌, Bool, true, false, not, ◌&&◌, ltb, leb, ◌/=◌,
  if◌then◌else◌, length,
}
use tlslatch.Client.State.{
  GateFlow, zero_gate, tombstone, admitted, denied, GateState, Agent, Env, gate_at, put_gate,
}
use tlslatch.Client.Held.{is_taken, holds_packets, finish_held, quarantine_endpoint}

-- The difference of two readings of the clock, on 64 bits.
abbrev pub elapsed : ℕ → ℕ → ℕ
elapsed current earlier = (current + 2 ^ 64 - earlier) % 2 ^ 64

abbrev pub is_decided : GateState → Bool
is_decided state = elim state [ admitted ↦ true | denied ↦ true | _ ↦ false ]

abbrev pub is_overdue : ℕ → GateFlow → Bool
is_overdue current gate =
    gate.deadline_ns /= 0 && leb gate.deadline_ns current && not (is_decided gate.state)

abbrev pub is_stale : ℕ → GateFlow → Bool
is_stale current gate =
    not (holds_packets gate)
    && is_decided gate.state
    && ltb (120 * 1000000000) (elapsed current gate.state_ns)

abbrev count_timeout : Agent → Agent
count_timeout agent = record agent {
  counters = record (agent.counters) { timeouts = agent.counters.timeouts + 1 };
}

unfoldable pub deny_overdue : Env → ℕ → ℕ → Agent → Agent
deny_overdue env current i agent =
    let finished = finish_held env false i agent in
    let denied_gate =
      put_gate finished i
        (record (gate_at finished i) { state = denied; deadline_ns = 0; state_ns = current }) in
    quarantine_endpoint (count_timeout denied_gate)

unfoldable pub expire_one : Env → ℕ → ℕ → Agent → Agent
expire_one env current i agent =
    let gate = gate_at agent i in
    if not (is_taken gate)
    then agent
    else if is_overdue current gate
    then deny_overdue env current i agent
    else if is_stale current gate
    then put_gate agent i (record zero_gate { occupancy = tombstone })
    else agent

unfoldable pub expire_from : Env → ℕ → ℕ → ℕ → Agent → Agent
expire_from env current zero i agent = agent
expire_from env current (suc left) i agent =
    expire_from env current left (i + 1) (expire_one env current i agent)

unfoldable pub expire_gate_flows : Env → Agent → Agent
expire_gate_flows env agent =
    let current = env.clock 0 in
    if ltb (elapsed current agent.last_expiry_scan_ns) (10 * 1000000)
    then agent
    else expire_from env current (length agent.flows) 0
        (record agent { last_expiry_scan_ns = current })
