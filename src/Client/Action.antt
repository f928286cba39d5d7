-- ===== src/Client/Action.antt =====
-- The verdicts of `handle_client_packet` of agents/linux/tcpra_client_agent.c, and what its branches
-- share.
use Prim.Native.Nat.{bit_and}
use tlslatch.Base.{
  ℕ, ◌+◌, List, Option, some, none, Bool, true, false, ltb, ◌==◌, ◌/=◌, if◌then◌else◌, length,
  Result, ok,
}
use tlslatch.Packet.{View}
use tlslatch.Client.State.{Agent, gate_at, put_gate}
use tlslatch.Client.Held.{quarantine_endpoint}
use tlslatch.Client.Audit.{fail_audit}

-- `enum packet_action`
pub data Action : Type 0 where
  drop accept hold authorize : Action

abbrev pub max_held_packets : ℕ
max_held_packets = 512

-- A parser's answer as the C function's 1 and 0.
abbrev pub parsed {ℓ} : {A : Type ℓ} → Result A → Option A
parsed (ok a) = some a
parsed _ = none

abbrev pub is_syn : ℕ → Bool
is_syn tcp_flags = bit_and tcp_flags 0x12 == 0x02

abbrev pub is_fin_or_rst : ℕ → Bool
is_fin_or_rst tcp_flags = bit_and tcp_flags 0x05 /= 0

abbrev pub count_full : Agent → Agent
count_full agent = record agent {
  counters = record (agent.counters) { flow_table_full = agent.counters.flow_table_full + 1 };
}

abbrev pub count_reset : Bool → Agent → Agent
count_reset true agent = record agent {
  counters = record (agent.counters) {
    flow_generation_resets = agent.counters.flow_generation_resets + 1;
  };
}
count_reset false agent = agent

abbrev pub count_client_hello : Agent → Agent
count_client_hello agent = record agent {
  counters = record (agent.counters) { client_hellos = agent.counters.client_hellos + 1 };
}

abbrev pub count_server_hello : Agent → Agent
count_server_hello agent = record agent {
  counters = record (agent.counters) { server_hellos = agent.counters.server_hellos + 1 };
}

-- What a handler does where the flow cannot be watched.
abbrev pub refuse : Agent → Action × Agent
refuse agent =
    if agent.audit_only then (accept, fail_audit agent) else (drop, quarantine_endpoint agent)

abbrev pub see_client_hello : ℕ → List ℕ → Agent → Agent
see_client_hello i lookup_key agent = count_client_hello (
    put_gate agent i
      (record (gate_at agent i) { client_hello_seen = true; lookup_key = lookup_key }))

abbrev pub has_payload : View → Bool
has_payload view = ltb 0 (length view.payload)
