-- ===== src/Client/State.antt =====
-- The state of agents/linux/tcpra_client_agent.c, and the calls of the kernel that its handlers make.
use tlslatch.Base.{ℕ, List, [], Option, Bool, false, replicate, get_or, set}
pub use tlslatch.Slots.{Occupancy, vacant, taken, tombstone}
use tlslatch.Packet.{FlowKey}
use tlslatch.Ring.{Ring}

-- `enum gate_state`, and the 0 that `memset` leaves.
pub data GateState : Type 0 where
  zeroed handshake server_hello admitted denied : GateState

-- `struct gate_flow`; the identifiers and their count are one list.
pub record GateFlow : Type 0 where
  pub occupancy : Occupancy
  pub client_hello_seen : Bool
  pub server_hello_seen : Bool
  pub state : GateState
  pub key : FlowKey
  pub lookup_key : List ℕ
  pub report_key : List ℕ
  pub state_ns : ℕ
  pub deadline_ns : ℕ
  pub socket_cookie : ℕ
  pub held_ids : List ℕ

abbrev pub zero_key : FlowKey
zero_key = record { client_ip = 0; server_ip = 0; client_port = 0; server_port = 0 }

abbrev pub zero_bytes : List ℕ
zero_bytes = replicate 64 0

-- What `memset(gate, 0, sizeof(*gate))` leaves.
abbrev pub zero_gate : GateFlow
zero_gate = record {
  occupancy = vacant;
  client_hello_seen = false;
  server_hello_seen = false;
  state = zeroed;
  key = zero_key;
  lookup_key = zero_bytes;
  report_key = zero_bytes;
  state_ns = 0;
  deadline_ns = 0;
  socket_cookie = 0;
  held_ids = [];
}

-- `struct client_session`, as far as the gate's thread and `finish_session` read or write it. A pointer to a session is
-- its `id`, which is different for each.
pub record Session : Type 0 where
  pub id : ℕ
  pub flow : FlowKey
  pub lookup_key : List ℕ
  pub local_report_key : List ℕ
  pub has_server_hello : Bool
  pub decision_applied : Bool
  pub gate_allowed : Bool
  pub finalized : Bool
  pub report_verify : Bool
  pub client_report_accepted : Bool
  pub clienthello_observed_ns : ℕ
  pub serverhello_observed_ns : ℕ
  pub local_decision_ns : ℕ
  pub selector_delete_ns : ℕ
  pub remote_verdict_sent : Bool
  pub success : Bool

-- `struct client_counters`
pub record Counters : Type 0 where
  pub copied_packets : ℕ
  pub copied_bytes : ℕ
  pub accepted_packets : ℕ
  pub dropped_packets : ℕ
  pub held_packets : ℕ
  pub released_packets : ℕ
  pub client_hellos : ℕ
  pub server_hellos : ℕ
  pub decisions_allowed : ℕ
  pub decisions_denied : ℕ
  pub decision_mismatches : ℕ
  pub timeouts : ℕ
  pub flow_map_deletes : ℕ
  pub flow_map_delete_misses : ℕ
  pub flow_generation_resets : ℕ
  pub flow_table_full : ℕ
  pub held_table_full : ℕ
  pub job_queue_full : ℕ

-- `struct audit_item` of agents/linux/client_audit.h
pub record AuditItem : Type 0 where
  pub ch : List ℕ
  pub sh : List ℕ
  pub mono : ℕ
  pub utc : ℕ

-- `struct client_audit`: the items recorded so far are `count` many.
pub record ClientAudit : Type 0 where
  pub items : List AuditItem
  pub capacity : ℕ
  pub failed : Bool

-- A call of `nfq_set_verdict` or `nfq_set_verdict2`: the packet, `NF_ACCEPT` or `NF_DROP`, the mark.
pub record Verdict : Type 0 where
  pub packet_id : ℕ
  pub accepts : Bool
  pub mark : ℕ

pub record Agent : Type 0 where
  pub audit_only : Bool
  pub mutual_ra : Bool
  pub has_selector : Bool
  pub main_port : ℕ
  pub timeout_ns : ℕ
  pub expected_sessions : ℕ
  pub audit : ClientAudit
  pub endpoint_quarantined : Bool
  pub sessions : List Session
  pub started_sessions : ℕ
  pub completed_sessions : ℕ
  pub verified_sessions : ℕ
  pub failed_sessions : ℕ
  pub jobs : Ring ℕ
  pub decisions : Ring ℕ
  pub stopping : Bool
  pub flows : List GateFlow
  pub counters : Counters
  pub last_expiry_scan_ns : ℕ
  -- the verdicts that the kernel took, the newest first, and the calls of `tcpra_quarantine`
  pub verdicts : List Verdict
  pub quarantine_calls : ℕ

-- What the kernel and the C library answer in one call of a handler: the readings of the monotonic
-- clock by their place in the handler and the wall clock, the cookie of the socket of a flow in a TCP
-- state, whether a verdict on a packet is taken, whether memory is given, whether an element is
-- deleted from the nftables set, and whether the event of the decision queue is written.
pub record Env : Type 0 where
  pub clock : ℕ → ℕ
  pub wall_clock : ℕ
  pub socket_cookie : FlowKey → ℕ → Option ℕ
  pub verdict_ok : ℕ → Bool
  pub alloc_ok : Bool
  pub selector_delete : FlowKey → Bool
  pub event_ok : Bool

abbrev pub gate_at : Agent → ℕ → GateFlow
gate_at agent i = get_or agent.flows i zero_gate

abbrev pub put_gate : Agent → ℕ → GateFlow → Agent
put_gate agent i gate = record agent { flows = set agent.flows i gate }

-- The mark of a packet that the agent lets pass on an admitted flow.
abbrev pub authorize_mark : ℕ
authorize_mark = 0x544c0001
