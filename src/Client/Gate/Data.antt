-- ===== src/Client/Gate/Data.antt =====
-- `handle_client_packet` of agents/linux/tcpra_client_agent.c as steps of the state machine of a slot:
-- the packets behind the hellos, the agent that only audits, and the handler as a whole.
use tlslatch.Base.{
  by_test, by_option, ℕ, ◌==◌, zero, suc, ◌<◌, List, [], ◌∷◌, Option, some, none, Bool, true, false,
  not, if◌then◌else◌, ◌≡◌, refl, get_or, set, ◌&&◌, ◌||◌, leb, length, arith, not-false, not-true,
}
use tlslatch.Packet.{FlowKey, View}
use tlslatch.Client.State.{
  GateFlow, zero_gate, Agent, Env, gate_at, put_gate, handshake, server_hello, admitted, denied,
  zeroed,
}
use tlslatch.Client.Table.{gate_flow_find, gate_flow_slot}
use tlslatch.Client.Held.{is_taken, reset_gate_flow}
use tlslatch.Client.Action.{Action, drop, accept, max_held_packets, has_payload}
use tlslatch.Client.AuditMode.{audit_client_hello, audit_server_hello, audit_verdict, known_hello}
use tlslatch.Client.Gated.{hold_packet, check_socket, handle_undecided, handle_data}
use tlslatch.Client.Expiry.{is_decided}
use tlslatch.Client.Gate.{binds, audits_server_hello, holds}
use tlslatch.Client.Gate.Moves.{Moves, Moves-refl, Moves-set}
use tlslatch.Client.Gate.Held.{reset_gate_flow-Moves, reset_gate_flow-state}
use tlslatch.Client.Gate.Lookup.{gate_flow_find-IsSlotOf}
use tlslatch.Client.Gate.Packets.{Acts, quarantine-Moves, see_client_hello-Moves}

module _ {Approves : FlowKey → List ℕ → ℕ → Type 0} where
  hold_packet-Moves :
      (packet_id i : ℕ) (agent : Agent)
      → is_taken (gate_at agent i) ≡ true
      → is_decided (gate_at agent i).state ≡ false
      → Acts Approves agent (hold_packet packet_id i agent)
  hold_packet-Moves packet_id i agent t d =
      by_test (λ r. Acts Approves agent r)
        (leb max_held_packets (length (gate_at agent i).held_ids)) (λ e. quarantine-Moves _)
        (λ e.
          Moves-set i _ (Moves-refl agent.flows)
            (λ l. holds (gate_at agent i) packet_id t d (ground arith)))

  handle_undecided-Moves :
      (view : View) (client_to_server : Bool) (packet_id i : ℕ) (agent : Agent)
      → is_taken (gate_at agent i) ≡ true
      → is_decided (gate_at agent i).state ≡ false
      → Acts Approves agent (handle_undecided view client_to_server packet_id i agent)
  handle_undecided-Moves view client_to_server packet_id i agent t d =
      by_test (λ r. Acts Approves agent r) (not (has_payload view) || not client_to_server)
        (λ e. Moves-refl agent.flows) (λ e. hold_packet-Moves packet_id i agent t d)

  check_socket-Moves :
      (cookie : Option ℕ) (bound : ℕ) (agent : Agent)
      → Acts Approves agent (check_socket cookie bound agent)
  check_socket-Moves none bound agent = quarantine-Moves agent
  check_socket-Moves (some cookie) bound agent =
      by_test (λ r. Acts Approves agent r) (cookie == bound) (λ e. Moves-refl agent.flows)
        (λ e. quarantine-Moves agent)

  pub handle_data-Moves :
      (env : Env) (view : View) (key : FlowKey) (client_to_server : Bool) (packet_id : ℕ)
      (agent : Agent)
      → Acts Approves agent (handle_data env view key client_to_server packet_id agent)
  unfolding handle_data
  handle_data-Moves env view key client_to_server packet_id agent =
      by_option (λ r. Acts Approves agent r) (gate_flow_find agent.flows key)
        (λ e.
          by_test (λ r. Acts Approves agent r) (not (has_payload view))
            (λ h. Moves-refl agent.flows)
            (λ h.
              by_test (λ r. Acts Approves agent r) client_to_server (λ c. Moves-refl agent.flows)
                (λ c. Moves-refl agent.flows)))
        (λ i e.
          let gate = gate_at agent i in
          let t = (gate_flow_find-IsSlotOf agent.flows key i e).0 in
          let undecided = λ (d : is_decided gate.state ≡ false).
            handle_undecided-Moves view client_to_server packet_id i agent t d in
          elim gate.state
              as (λ s.
                gate.state ≡ s
                → Acts Approves agent (elim s as (λ _. Action × Agent) [
                  | admitted ↦
                      if client_to_server
                      then check_socket (env.socket_cookie key 1) gate.socket_cookie agent
                      else (accept, agent)
                  | denied ↦ (drop, agent)
                  | _ ↦ handle_undecided view client_to_server packet_id i agent
                ])) [
                  | admitted ↦ λ s.
                      by_test (λ r. Acts Approves agent r) client_to_server
                        (λ c. check_socket-Moves (env.socket_cookie key 1) gate.socket_cookie agent)
                        (λ c. Moves-refl agent.flows)
                  | denied ↦ λ s. Moves-refl agent.flows
                  | zeroed ↦ λ s. undecided (rw s refl)
                  | handshake ↦ λ s. undecided (rw s refl)
                  | server_hello ↦ λ s. undecided (rw s refl)
                ]
            refl)

  pub audit_client_hello-Moves :
      (env : Env) (key : FlowKey) (ch : List ℕ) (gate : Option ℕ) (agent : Agent)
      → Moves Approves agent.flows (audit_client_hello env key ch gate agent).1.flows
  unfolding audit_client_hello
  audit_client_hello-Moves env key ch gate agent =
      by_test (λ (r : Option ℕ × Agent). Moves Approves agent.flows r.1.flows)
        (known_hello agent gate ch) (λ e. Moves-refl agent.flows)
        (λ e.
          by_option (λ (r : Option ℕ × Agent). Moves Approves agent.flows r.1.flows)
            (gate_flow_slot agent.flows key) (λ n. Moves-refl agent.flows)
            (λ i n.
              let reset = reset_gate_flow env i key agent in
              see_client_hello-Moves i ch agent.flows
                (put_gate reset i (record (gate_at reset i) { deadline_ns = 0 }))
                (Moves-set i _ (reset_gate_flow-Moves env i key agent)
                  (λ l. binds (gate_at reset i) _ 0 (reset_gate_flow-state env i key agent l)))
                (timeless-state reset.flows i (reset_gate_flow-state env i key agent))))
    where
      timeless-state :
          (flows : List GateFlow) (i : ℕ)
          → (i < length flows → (get_or flows i zero_gate).state ≡ handshake)
          → i < length (set flows i (record (get_or flows i zero_gate) { deadline_ns = 0 }))
          → (get_or
              (set flows i (record (get_or flows i zero_gate) { deadline_ns = 0 }))
              i
              zero_gate).state
            ≡ handshake
      timeless-state [] i s l = absurd (omega arith)
      timeless-state (x ∷ xs) zero s l = s (omega arith)
      timeless-state (x ∷ xs) (suc i) s l = timeless-state xs i (λ h. s (omega arith)) (omega arith)

  pub audit_server_hello-Moves :
      (env : Env) (sh : List ℕ) (gate : Option ℕ) (agent : Agent)
      → Moves Approves agent.flows (audit_server_hello env sh gate agent).1.flows
  unfolding audit_server_hello
  audit_server_hello-Moves env sh none agent = Moves-refl agent.flows
  audit_server_hello-Moves env sh (some i) agent =
      let gate = gate_at agent i in
      by_test (λ (r : Option ℕ × Agent). Moves Approves agent.flows r.1.flows)
        (not gate.client_hello_seen) (λ c. Moves-refl agent.flows)
        (λ c.
          by_test (λ (r : Option ℕ × Agent). Moves Approves agent.flows r.1.flows)
            (not gate.server_hello_seen)
            (λ s. Moves-set i _ (Moves-refl agent.flows) (λ l.
              audits_server_hello gate sh (not-false gate.client_hello_seen c)
                (not-true gate.server_hello_seen s)))
            (λ s. Moves-refl agent.flows))

  pub audit_verdict-Moves :
      (client_to_server : Bool) (r : Option ℕ × Agent) (agent : Agent)
      → Moves Approves agent.flows r.1.flows
      → Acts Approves agent (audit_verdict client_to_server r)
  audit_verdict-Moves client_to_server (none, b) agent m = m
  audit_verdict-Moves client_to_server (some i, b) agent m =
      by_test (λ r. Acts Approves agent r) ((gate_at b i).server_hello_seen && client_to_server)
        (λ e. m) (λ e. m)
