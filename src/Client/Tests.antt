-- ===== src/Client/Tests.antt =====
-- Examples for the theorems on the client's agent of agents/linux/tcpra_client_agent.c.
use tlslatch.Base.{
  [], ℕ, some, none, Bool, true, false, ◌≡◌, ◌≢◌, refl, ◌>>=◌, reject_if, branch, read, slice,
  same_bytes,
}
use tlslatch.Ring.{enqueue}
use tlslatch.Packet.{FlowKey, parse_ipv4_tcp, normalize_flow, read_word, read32}
use tlslatch.Packet.RoundTrip.{put_ip, put_tcp}
use tlslatch.Tls.Format.{put_clienthello, put_serverhello, put_extension}
use tlslatch.Tls.Digest.{
  read16, read24, key_sized, digest, digest_share, client_lookup_from_key_share,
  report_key_from_public,
}
use tlslatch.Tls.Hello.{
  extract_clienthello_lookup, clienthello_extensions, extract_serverhello, serverhello_extensions,
}
use tlslatch.Tls.Records.{
  lookup_key_of, share_of, return_or, extract_wanted, find_in_record, find_records, find_handshake,
  tls_find_clienthello, tls_find_serverhello,
}
use tlslatch.Client.State.{gate_at, admitted}
use tlslatch.Client.Table.{
  same_flow, flow_hash, find_from, gate_flow_find, slot_from, gate_flow_slot,
}
use tlslatch.Client.Held.{
  finish_one, finish_ids, finish_held, drop_held, reset_gate_flow, quarantine_endpoint,
}
use tlslatch.Client.Sessions.{
  find_generation, create_session, enqueue_job, client_observe_hello, update_session,
  client_observe_server_key,
}
use tlslatch.Client.Action.{authorize, accept, parsed}
use tlslatch.Client.Gated.{
  handle_syn, handle_close, restart_gate, handle_client_hello, handle_server_hello, handle_data,
}
use tlslatch.Client.Handler.{
  handle_gated, handle_flow, handle_client_packet, act, classify, nfqueue_callback,
}
use tlslatch.Client.Decision.{
  decided_for, attested, same_socket, release_flow, decide_gate, decide, tell_session,
  apply_decision_impl,
}
use tlslatch.Client.Gate.Authorization.{
  Run-authorize-approved, handle_flow-IsStopped, handle_client_packet-authorize,
}
use tlslatch.Base.{set, ◌∷◌, arith}
use tlslatch.Client.Table.{gate_flow_slot, slot_from, flow_hash, same_flow}
use tlslatch.Client.Held.{finish_held}
use tlslatch.Client.State.{Agent}
use tlslatch.Client.Gate.{fresh_gate}
use tlslatch.Client.Gate.Dropped.{OnlyDrops, expire_gate_flows-OnlyDrops}
use tlslatch.Client.Held.{drop_all_held}
use tlslatch.Client.Gate.Released.{verdict_on, finish_held-verdicts}
use tlslatch.Client.Gate.Slot.{gate_flow_slot-gate_flow_find}
use tlslatch.Base.{replicate, length-replicate}
use tlslatch.Ring.{Ring, ring_capacity}
use tlslatch.Ring.Refine.{IsQueue, enqueue-IsQueue}
use tlslatch.Client.Decision.{drain_decisions}
use tlslatch.Client.Gate.Drain.{drain_decisions-IsQueue}
use tlslatch.Client.Scenario.{
  sha512, start, env, flow, data_view, verified_session, after_hellos, after_decision, run,
  client_hello,
}
use tlslatch.Client.Expiry.{expire_gate_flows}
use tlslatch.Client.Gate.{IsWellFormed}
use tlslatch.Client.Gate.Run.{IsApprovedIn, Run-IsWellFormed, Run-admitted-approved}
use tlslatch.Client.Gate.Verdicts.{IsAdmittedFlow}
use tlslatch.Client.Gate.Moves.{Moves}
use tlslatch.Client.Gate.Decisions.{IsApproval, apply_decision_impl-Moves}
use tlslatch.Client.Gate.Answers.{nfqueue_callback-Moves}
use tlslatch.Client.Gate.Expiry.{expire_gate_flows-Moves}

gated : after_decision.audit_only ≡ false
unfolding handle_client_packet normalize_flow handle_flow handle_gated handle_data
    apply_decision_impl nfqueue_callback tell_session decide gate_flow_find find_from act classify
    put_ip put_tcp put_serverhello put_clienthello put_extension parse_ipv4_tcp ◌>>=◌ reject_if read
    read16 read_word read32 branch slice same_bytes attested decide_gate decided_for release_flow
    same_socket handle_client_hello handle_close handle_server_hello handle_syn restart_gate
    drop_held finish_held finish_ids finish_one quarantine_endpoint reset_gate_flow
    client_observe_hello client_observe_server_key create_session enqueue_job find_generation
    update_session flow_hash gate_flow_slot same_flow slot_from enqueue client_lookup_from_key_share
    digest digest_share key_sized read24 clienthello_extensions extract_clienthello_lookup
    extract_serverhello serverhello_extensions extract_wanted find_handshake find_in_record
    find_records lookup_key_of return_or share_of tls_find_clienthello tls_find_serverhello
    report_key_from_public
gated = refl

data_authorized : (handle_client_packet sha512 env data_view 4 after_decision).0 ≡ authorize
unfolding handle_client_packet normalize_flow handle_flow handle_gated handle_data
    apply_decision_impl nfqueue_callback tell_session decide gate_flow_find find_from act classify
    put_ip put_tcp put_serverhello put_clienthello put_extension parse_ipv4_tcp ◌>>=◌ reject_if read
    read16 read_word read32 branch slice same_bytes attested decide_gate decided_for release_flow
    same_socket handle_client_hello handle_close handle_server_hello handle_syn restart_gate
    drop_held finish_held finish_ids finish_one quarantine_endpoint reset_gate_flow
    client_observe_hello client_observe_server_key create_session enqueue_job find_generation
    update_session flow_hash gate_flow_slot same_flow slot_from enqueue client_lookup_from_key_share
    digest digest_share key_sized read24 clienthello_extensions extract_clienthello_lookup
    extract_serverhello serverhello_extensions extract_wanted find_handshake find_in_record
    find_records lookup_key_of return_or share_of tls_find_clienthello tls_find_serverhello
    report_key_from_public
data_authorized = refl

flow_admitted : (gate_at after_decision 0).state ≡ admitted
unfolding handle_client_packet normalize_flow handle_flow handle_gated handle_data
    apply_decision_impl nfqueue_callback tell_session decide gate_flow_find find_from act classify
    put_ip put_tcp put_serverhello put_clienthello put_extension parse_ipv4_tcp ◌>>=◌ reject_if read
    read16 read_word read32 branch slice same_bytes attested decide_gate decided_for release_flow
    same_socket handle_client_hello handle_close handle_server_hello handle_syn restart_gate
    drop_held finish_held finish_ids finish_one quarantine_endpoint reset_gate_flow
    client_observe_hello client_observe_server_key create_session enqueue_job find_generation
    update_session flow_hash gate_flow_slot same_flow slot_from enqueue client_lookup_from_key_share
    digest digest_share key_sized read24 clienthello_extensions extract_clienthello_lookup
    extract_serverhello serverhello_extensions extract_wanted find_handshake find_in_record
    find_records lookup_key_of return_or share_of tls_find_clienthello tls_find_serverhello
    report_key_from_public
flow_admitted = refl

flow_found : gate_flow_find after_decision.flows flow ≡ some 0
unfolding handle_client_packet normalize_flow handle_flow handle_gated handle_data
    apply_decision_impl nfqueue_callback tell_session decide gate_flow_find find_from act classify
    put_ip put_tcp put_serverhello put_clienthello put_extension parse_ipv4_tcp ◌>>=◌ reject_if read
    read16 read_word read32 branch slice same_bytes attested decide_gate decided_for release_flow
    same_socket handle_client_hello handle_close handle_server_hello handle_syn restart_gate
    drop_held finish_held finish_ids finish_one quarantine_endpoint reset_gate_flow
    client_observe_hello client_observe_server_key create_session enqueue_job find_generation
    update_session flow_hash gate_flow_slot same_flow slot_from enqueue client_lookup_from_key_share
    digest digest_share key_sized read24 clienthello_extensions extract_clienthello_lookup
    extract_serverhello serverhello_extensions extract_wanted find_handshake find_in_record
    find_records lookup_key_of return_or share_of tls_find_clienthello tls_find_serverhello
    report_key_from_public
flow_found = refl

no_hello : parsed (tls_find_clienthello sha512 data_view.payload) ≡ none
unfolding handle_client_packet normalize_flow handle_flow handle_gated handle_data
    apply_decision_impl nfqueue_callback tell_session decide gate_flow_find find_from act classify
    put_ip put_tcp put_serverhello put_clienthello put_extension parse_ipv4_tcp ◌>>=◌ reject_if read
    read16 read_word read32 branch slice same_bytes attested decide_gate decided_for release_flow
    same_socket handle_client_hello handle_close handle_server_hello handle_syn restart_gate
    drop_held finish_held finish_ids finish_one quarantine_endpoint reset_gate_flow
    client_observe_hello client_observe_server_key create_session enqueue_job find_generation
    update_session flow_hash gate_flow_slot same_flow slot_from enqueue client_lookup_from_key_share
    digest digest_share key_sized read24 clienthello_extensions extract_clienthello_lookup
    extract_serverhello serverhello_extensions extract_wanted find_handshake find_in_record
    find_records lookup_key_of return_or share_of tls_find_clienthello tls_find_serverhello
    report_key_from_public
no_hello = refl

Run-authorize-approved_example :
    (key : FlowKey) × (client_to_server : Bool) × (i : ℕ) × (normalize_flow data_view
        after_decision.main_port
      ≡ some (key, client_to_server))
    × (gate_flow_find after_decision.flows key ≡ some i)
    × (same_flow (gate_at after_decision i).key key ≡ true)
    × IsApprovedIn sha512 run
        (gate_at after_decision i).key
        (gate_at after_decision i).lookup_key
        (gate_at after_decision i).socket_cookie
Run-authorize-approved_example =
    Run-authorize-approved sha512 env run data_view 4 gated data_authorized

handle_client_packet-authorize_example :
    (key : FlowKey) × (client_to_server : Bool) × (normalize_flow data_view after_decision.main_port
      ≡ some (key, client_to_server))
    × IsAdmittedFlow env after_decision key
handle_client_packet-authorize_example =
    handle_client_packet-authorize sha512 env data_view 4 after_decision gated data_authorized

handle_flow-IsStopped_example : (handle_flow sha512 env data_view flow true 4 start).0 ≢ accept
handle_flow-IsStopped_example =
    handle_flow-IsStopped sha512 env data_view flow 4 start refl refl refl no_hello

Run-IsWellFormed_example : IsWellFormed (gate_at after_decision 0)
Run-IsWellFormed_example = Run-IsWellFormed sha512 run 0

Run-admitted-approved_example :
    IsApprovedIn sha512 run
      (gate_at after_decision 0).key
      (gate_at after_decision 0).lookup_key
      (gate_at after_decision 0).socket_cookie
Run-admitted-approved_example = Run-admitted-approved sha512 run 0 flow_admitted

apply_decision_impl-Moves_example :
    Moves (IsApproval env verified_session after_hellos) after_hellos.flows after_decision.flows
apply_decision_impl-Moves_example = apply_decision_impl-Moves env verified_session after_hellos

nfqueue_callback-Moves_example :
    Moves
      (λ key lookup_key cookie. ⊥)
      start.flows
      (nfqueue_callback sha512 env client_hello 2 start).flows
nfqueue_callback-Moves_example = nfqueue_callback-Moves sha512 env client_hello 2 start

expire_gate_flows-Moves_example :
    Moves (λ key lookup_key cookie. ⊥) after_hellos.flows (expire_gate_flows env after_hellos).flows
expire_gate_flows-Moves_example = expire_gate_flows-Moves env after_hellos

-- The agent with two packets held for the flow.
abbrev holding : Agent
holding = record start {
  flows =
      record (fresh_gate flow 5000 6000) { client_hello_seen = true; held_ids = 4 ∷ 5 ∷ [] } ∷ [];
}

finish_held-verdicts_example :
    ((finish_held env true 0 holding).verdicts ≡ verdict_on true 5 ∷ verdict_on true 4 ∷ [])
    × ((gate_at (finish_held env true 0 holding) 0).held_ids ≡ [])
finish_held-verdicts_example = finish_held-verdicts env true 0 holding

expire_gate_flows-OnlyDrops_example :
    OnlyDrops holding (expire_gate_flows env holding)
    × OnlyDrops holding (drop_all_held env holding)
expire_gate_flows-OnlyDrops_example = expire_gate_flows-OnlyDrops env holding

slot_free : gate_flow_slot start.flows flow ≡ some 0
unfolding gate_flow_slot slot_from flow_hash same_flow
slot_free = refl

gate_flow_slot-gate_flow_find_example :
    gate_flow_find (set start.flows 0 (fresh_gate flow 5000 6000)) flow ≡ some 0
unfolding same_flow
gate_flow_slot-gate_flow_find_example =
    gate_flow_slot-gate_flow_find start.flows flow 0 (fresh_gate flow 5000 6000) (omega arith) refl
      refl slot_free

abbrev no_decisions : Ring ℕ
no_decisions = record { slots = replicate ring_capacity 0; head = 0; tail = 0; count = 0 }

no_decisions-IsQueue : IsQueue no_decisions []
no_decisions-IsQueue = record {
  valid = record {
    size = length-replicate {A = ℕ} ring_capacity 0;
    head_in = omega arith;
    few = omega arith;
    tail_at = omega arith;
  };
  as_many = refl;
  entry = λ i l. absurd (omega arith);
}

-- The agent behind the hellos, with one decision queued.
abbrev deciding : Agent
deciding = record after_hellos { decisions = (enqueue true 1 no_decisions).1 }

drain_decisions-IsQueue_example : IsQueue (drain_decisions (λ n. env) deciding).decisions []
drain_decisions-IsQueue_example =
    drain_decisions-IsQueue (λ n. env) deciding (1 ∷ [])
      (enqueue-IsQueue no_decisions [] 1 no_decisions-IsQueue (omega arith)).1
