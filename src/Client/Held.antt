-- ===== src/Client/Held.antt =====
-- `finish_held`, `drop_all_held`, `reset_gate_flow` and `quarantine_endpoint` of
-- agents/linux/tcpra_client_agent.c.
use tlslatch.Base.{
  ℕ, zero, suc, ◌+◌, ◌%◌, ◌^◌, List, [], ◌∷◌, Bool, true, false, if◌then◌else◌, length,
}
use tlslatch.Packet.{FlowKey}
use tlslatch.Client.State.{
  GateFlow, zero_gate, taken, handshake, Counters, Agent, Env, gate_at, put_gate, authorize_mark,
}

-- A verdict that the kernel took, with the counters that go with it.
abbrev pub count_verdict : Bool → Counters → Counters
count_verdict true c = record c {
  released_packets = c.released_packets + 1;
  accepted_packets = c.accepted_packets + 1;
}
count_verdict false c = record c { dropped_packets = c.dropped_packets + 1 }

abbrev pub mark_for : Bool → ℕ
mark_for true = authorize_mark
mark_for false = 0

unfoldable pub finish_one : Env → Bool → ℕ → Agent → Agent
finish_one env accepts id agent =
    if env.verdict_ok id
    then record agent {
      verdicts =
          record { packet_id = id; accepts = accepts; mark = mark_for accepts } ∷ agent.verdicts;
      counters = count_verdict accepts agent.counters;
    }
    else agent

-- The loop of `finish_held`.
unfoldable pub finish_ids : Env → Bool → List ℕ → Agent → Agent
finish_ids env accepts [] agent = agent
finish_ids env accepts (id ∷ ids) agent =
    finish_ids env accepts ids (finish_one env accepts id agent)

unfoldable pub finish_held : Env → Bool → ℕ → Agent → Agent
finish_held env accepts i agent =
    let gate = gate_at agent i in
    put_gate (finish_ids env accepts gate.held_ids agent) i (record gate { held_ids = [] })

abbrev pub is_taken : GateFlow → Bool
is_taken gate = elim gate.occupancy [ taken ↦ true | _ ↦ false ]

abbrev pub holds_packets : GateFlow → Bool
holds_packets gate = elim gate.held_ids [ [] ↦ false | _ ∷ _ ↦ true ]

-- `if (gate->occupancy == 1 && gate->held_count) finish_held(agent, gate, NF_DROP);`
unfoldable pub drop_held : Env → ℕ → Agent → Agent
drop_held env i agent =
    if is_taken (gate_at agent i)
    then if holds_packets (gate_at agent i) then finish_held env false i agent else agent
    else agent

-- The loop of `drop_all_held` over the table, and of `close_nfqueue`.
unfoldable pub drop_held_from : Env → ℕ → ℕ → Agent → Agent
drop_held_from env zero i agent = agent
drop_held_from env (suc left) i agent = drop_held_from env left (i + 1) (drop_held env i agent)

unfoldable pub drop_all_held : Env → Agent → Agent
drop_all_held env agent = drop_held_from env (length agent.flows) 0 agent

unfoldable pub reset_gate_flow : Env → ℕ → FlowKey → Agent → Agent
reset_gate_flow env i key agent = put_gate (drop_held env i agent) i (record zero_gate {
  occupancy = taken;
  key = key;
  state_ns = env.clock 0;
  deadline_ns = (env.clock 0 + agent.timeout_ns) % 2 ^ 64;
  state = handshake;
})

-- What is printed, and whether the rule could be installed, changes nothing here.
unfoldable pub quarantine_endpoint : Agent → Agent
quarantine_endpoint agent =
    if agent.endpoint_quarantined
    then agent
    else record agent { endpoint_quarantined = true; quarantine_calls = agent.quarantine_calls + 1 }
