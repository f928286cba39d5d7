-- ===== src/Client/Table.antt =====
-- The flow table of agents/linux/tcpra_client_agent.c: open addressing with linear probing and
-- tombstones. `& (CLIENT_FLOW_CAPACITY - 1u)` is `% flow_capacity`.
use Prim.Native.Nat.{bit_xor}
use tlslatch.Base.{
  ℕ, zero, suc, ◌+◌, ◌*◌, ◌/◌, ◌%◌, ◌^◌, List, Option, some, none, Bool, ◌==◌, ◌&&◌, if◌then◌else◌,
  get_or,
}
use tlslatch.Packet.{FlowKey}
use tlslatch.Client.State.{GateFlow, zero_gate, vacant, taken, tombstone}

abbrev pub flow_capacity : ℕ
flow_capacity = 8192

-- `memcmp` over the twelve bytes of the two structures, which have no padding
unfoldable pub same_flow : FlowKey → FlowKey → Bool
same_flow left right =
    left.client_ip == right.client_ip
    && left.server_ip == right.server_ip
    && left.client_port == right.client_port
    && left.server_port == right.server_port

-- `value >> 33`
abbrev mix : ℕ → ℕ
mix value = bit_xor value (value / 2 ^ 33)

unfoldable pub flow_hash : FlowKey → ℕ
flow_hash flow =
    let ips = bit_xor flow.client_ip (flow.server_ip * 2) in
    let value = bit_xor ips (flow.client_port * 2 ^ 32 + flow.server_port) in
    mix (mix value * 0xff51afd7ed558ccd % 2 ^ 64) % flow_capacity

-- The loops over `offset`, with the number of rounds left. A slot is named by its index.
unfoldable pub find_from : List GateFlow → FlowKey → ℕ → ℕ → ℕ → Option ℕ
find_from flows key start zero offset = none
find_from flows key start (suc left) offset =
    let index = (start + offset) % flow_capacity in
    let flow = get_or flows index zero_gate in
    let next = find_from flows key start left (offset + 1) in
    elim flow.occupancy [
      | vacant ↦ none
      | taken ↦ if same_flow flow.key key then some index else next
      | tombstone ↦ next
    ]

unfoldable pub gate_flow_find : List GateFlow → FlowKey → Option ℕ
gate_flow_find flows key = find_from flows key (flow_hash key) flow_capacity 0

abbrev pub or_index : Option ℕ → ℕ → ℕ
or_index none index = index
or_index (some first_tombstone) index = first_tombstone

-- `first_tombstone == CLIENT_FLOW_CAPACITY` is `none`.
unfoldable pub slot_from : List GateFlow → FlowKey → ℕ → ℕ → ℕ → Option ℕ → Option ℕ
slot_from flows key start zero offset first_tombstone = first_tombstone
slot_from flows key start (suc left) offset first_tombstone =
    let index = (start + offset) % flow_capacity in
    let flow = get_or flows index zero_gate in
    let next = slot_from flows key start left (offset + 1) in
    elim flow.occupancy [
      | vacant ↦ some (or_index first_tombstone index)
      | taken ↦ if same_flow flow.key key then some index else next first_tombstone
      | tombstone ↦ next (some (or_index first_tombstone index))
    ]

unfoldable pub gate_flow_slot : List GateFlow → FlowKey → Option ℕ
gate_flow_slot flows key = slot_from flows key (flow_hash key) flow_capacity 0 none
