-- ===== src/Client/Gate/Verdicts.antt =====
-- The verdicts of `handle_client_packet` of agents/linux/tcpra_client_agent.c on the data of a client,
-- in an agent that does not only audit.
use tlslatch.Base.{
  by_test, by_option, ℕ, List, Option, some, none, Bool, true, false, not, if◌then◌else◌, ◌≡◌, ◌≢◌,
  refl, ◌∙◌, ap, ◌||◌, leb, length, arith, ◌==◌,
}
use tlslatch.Packet.{FlowKey, View}
use tlslatch.Client.State.{zeroed, handshake, server_hello, admitted, denied, Agent, Env, gate_at}
use tlslatch.Client.Table.{gate_flow_find, gate_flow_slot}
use tlslatch.Client.Action.{
  Action, drop, accept, authorize, has_payload, refuse, count_full, max_held_packets,
}
use tlslatch.Client.Gated.{
  handle_syn, handle_close, handle_client_hello, handle_server_hello, handle_data, hold_packet,
  handle_undecided, check_socket, hello_verdict, is_new_hello, restart_gate,
}

-- The slot of a flow that is admitted, on the socket that the kernel names now.
pub record IsAdmittedFlow (env : Env) (agent : Agent) (key : FlowKey) : Type 0 where
  pub slot : ℕ
  pub found : gate_flow_find agent.flows key ≡ some slot
  pub is_admitted : (gate_at agent slot).state ≡ admitted
  pub own_socket : env.socket_cookie key 1 ≡ some (gate_at agent slot).socket_cookie

module _ (env : Env) (key : FlowKey) (agent : Agent) where
  -- What an answer of a handler of data says if it authorizes the packet.
  abbrev pub IsJustified : Action × Agent → Type 0
  IsJustified r = r.0 ≡ authorize → IsAdmittedFlow env agent key

  hold_packet-IsJustified : (packet_id i : ℕ) → IsJustified (hold_packet packet_id i agent)
  hold_packet-IsJustified packet_id i =
      by_test IsJustified (leb max_held_packets (length (gate_at agent i).held_ids)) (λ e h. cc)
        (λ e h. cc)

  pub handle_undecided-IsJustified :
      (view : View) (client_to_server : Bool) (packet_id i : ℕ)
      → IsJustified (handle_undecided view client_to_server packet_id i agent)
  handle_undecided-IsJustified view client_to_server packet_id i =
      by_test IsJustified (not (has_payload view) || not client_to_server) (λ e h. cc)
        (λ e. hold_packet-IsJustified packet_id i)

  check_socket-IsJustified :
      (cookie : Option ℕ) (i : ℕ)
      → env.socket_cookie key 1 ≡ cookie
      → gate_flow_find agent.flows key ≡ some i
      → (gate_at agent i).state ≡ admitted
      → IsJustified (check_socket cookie (gate_at agent i).socket_cookie agent)
  check_socket-IsJustified none i c f a = λ h. cc
  check_socket-IsJustified (some cookie) i c f a =
      by_test IsJustified (cookie == (gate_at agent i).socket_cookie)
        (λ e h.
          let same : cookie ≡ (gate_at agent i).socket_cookie = ground arith in
          record { slot = i; found = f; is_admitted = a; own_socket = c ∙ ap some same })
        (λ e h. cc)

  pub handle_data-IsJustified :
      (view : View) (client_to_server : Bool) (packet_id : ℕ)
      → IsJustified (handle_data env view key client_to_server packet_id agent)
  unfolding handle_data
  handle_data-IsJustified view client_to_server packet_id =
      by_option IsJustified (gate_flow_find agent.flows key)
        (λ e.
          by_test IsJustified (not (has_payload view)) (λ h j. cc)
            (λ h. by_test IsJustified client_to_server (λ c j. cc) (λ c j. cc)))
        (λ i e.
          let gate = gate_at agent i in
          let undecided = handle_undecided-IsJustified view client_to_server packet_id i in
          elim gate.state
              as (λ s.
                gate.state ≡ s
                → IsJustified (elim s as (λ _. Action × Agent) [
                  | admitted ↦
                      if client_to_server
                      then check_socket (env.socket_cookie key 1) gate.socket_cookie agent
                      else (accept, agent)
                  | denied ↦ (drop, agent)
                  | _ ↦ handle_undecided view client_to_server packet_id i agent
                ])) [
                  | admitted ↦ λ s.
                      by_test IsJustified client_to_server
                        (λ c. check_socket-IsJustified (env.socket_cookie key 1) i refl e s)
                        (λ c h. cc)
                  | denied ↦ λ s h. cc
                  | zeroed ↦ λ s. undecided
                  | handshake ↦ λ s. undecided
                  | server_hello ↦ λ s. undecided
                ]
            refl)

  pub handle_syn-IsJustified : IsJustified (handle_syn env key agent)
  unfolding handle_syn
  handle_syn-IsJustified =
      by_option IsJustified (env.socket_cookie key 2) (λ e. refuse-IsJustified agent)
        (λ cookie c.
          by_option IsJustified (gate_flow_slot agent.flows key)
            (λ e. refuse-IsJustified (count_full agent)) (λ i e h. cc))
    where
      refuse-IsJustified : (a : Agent) → IsJustified (refuse a)
      refuse-IsJustified a = by_test IsJustified a.audit_only (λ e h. cc) (λ e h. cc)

  pub handle_close-IsJustified : IsJustified (handle_close env key agent)
  unfolding handle_close
  handle_close-IsJustified =
      by_option IsJustified (gate_flow_find agent.flows key) (λ e h. cc) (λ i e h. cc)

  pub handle_client_hello-IsJustified :
      (lookup_key : List ℕ) → IsJustified (handle_client_hello env key lookup_key agent)
  unfolding handle_client_hello restart_gate
  handle_client_hello-IsJustified lookup_key =
      by_option IsJustified (env.socket_cookie key 1) (λ e h. cc)
        (λ cookie c.
          by_option IsJustified (gate_flow_slot agent.flows key) (λ e h. cc)
            (λ i e.
              by_test IsJustified (is_new_hello (gate_at agent i) cookie lookup_key)
                (λ n. hello_verdict-IsJustified _) (λ n h. cc)))
    where
      hello_verdict-IsJustified : (r : Bool × Agent) → IsJustified (hello_verdict r)
      hello_verdict-IsJustified (true, b) = λ h. cc
      hello_verdict-IsJustified (false, b) = λ h. cc

  pub handle_server_hello-IsJustified :
      (report_key : List ℕ) → IsJustified (handle_server_hello env key report_key agent)
  unfolding handle_server_hello
  handle_server_hello-IsJustified report_key =
      by_option IsJustified (gate_flow_find agent.flows key) (λ e h. cc)
        (λ i e.
          by_test IsJustified (not (gate_at agent i).client_hello_seen) (λ c h. cc)
            (λ c. by_test IsJustified (gate_at agent i).server_hello_seen (λ s h. cc) (λ s h. cc)))

  -- The data that a client sends is not let past the queue unmarked.
  abbrev pub IsStopped : Action × Agent → Type 0
  IsStopped r = r.0 ≢ accept

  pub handle_data-IsStopped :
      (view : View) (packet_id : ℕ)
      → has_payload view ≡ true
      → IsStopped (handle_data env view key true packet_id agent)
  unfolding handle_data
  handle_data-IsStopped view packet_id p =
      by_option IsStopped (gate_flow_find agent.flows key)
        (λ e. by_test IsStopped (not (has_payload view)) (λ h. absurd (has_none p h)) (λ h j. cc))
        (λ i e.
          elim (gate_at agent i).state
            as (λ s. IsStopped (elim s as (λ _. Action × Agent) [
              | admitted ↦
                  check_socket (env.socket_cookie key 1) (gate_at agent i).socket_cookie agent
              | denied ↦ (drop, agent)
              | _ ↦ handle_undecided view true packet_id i agent
            ])) [
              | admitted ↦
                  check_socket-IsStopped (env.socket_cookie key 1) (gate_at agent i).socket_cookie
              | denied ↦ λ h. cc
              | zeroed ↦ undecided i
              | handshake ↦ undecided i
              | server_hello ↦ undecided i
            ])
    where
      has_none : {b : Bool} → b ≡ true → not b ≡ true → ⊥
      has_none p h = cc

      check_socket-IsStopped :
          (cookie : Option ℕ) (bound : ℕ) → IsStopped (check_socket cookie bound agent)
      check_socket-IsStopped none bound = λ h. cc
      check_socket-IsStopped (some cookie) bound =
          by_test IsStopped (cookie == bound) (λ e h. cc) (λ e h. cc)

      undecided : (i : ℕ) → IsStopped (handle_undecided view true packet_id i agent)
      undecided i =
          by_test IsStopped (not (has_payload view) || not true)
            (λ e. absurd (has_none p (ground arith)))
            (λ e.
              by_test IsStopped (leb max_held_packets (length (gate_at agent i).held_ids))
                (λ l h. cc) (λ l h. cc))
