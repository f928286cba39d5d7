-- ===== src/Windows/Worker.antt =====
-- agents/windows/tcpra_agent_c.c: what a flow worker does with a packet, and how a session ends.
use tlslatch.Base.{
  ℕ, List, [], ◌∷◌, ◌++◌, Option, some, none, Bool, true, false, not, ◌==◌, ◌&&◌, ◌||◌,
  if◌then◌else◌, Result, ok, attempt, ◌>>=◌,
}
use tlslatch.Windows.{ByteBuffer, Config, Row, Session, HeldPacket, pool_stopped, send_failed}
use tlslatch.Windows.Hello.{packet_view}
use tlslatch.Windows.Inspect.{InspectEnv, Action, action_send, inspect_packet, append_error}
use tlslatch.Windows.Decide.{DecideEnv, Effect, divert_send, shutdown_recv, decide}

pub record WorkerEnv : Type 0 where
  pub inspection : InspectEnv
  pub decision : DecideEnv
  pub queue_takes : Bool
  pub divert_takes : Bool

-- The session, what was done to the outside, and whether the control worker was given the session.
pub record Worked : Type 0 where
  pub session : Session
  pub effects : List Effect
  pub submitted : Bool

-- `queue_push` of the control queue; a closed queue refuses.
abbrev submitted : WorkerEnv → Bool → Session → Worked
submitted env false s = record { session = s; effects = []; submitted = false }
submitted env true s =
    if env.queue_takes
    then record { session = s; effects = []; submitted = true }
    else let decision = decide env.decision false (pool_stopped ∷ []) s in
      record { session = decision.0; effects = decision.1; submitted = false }

abbrev passed : WorkerEnv → HeldPacket → Action → Session → Session × List Effect
passed env packet action_send s =
    (if env.divert_takes then s else append_error send_failed s, divert_send packet ∷ [])
passed env packet _ s = (s, [])

module _ (sha512 : List ℕ → Option (List ℕ)) (config : Config) where
  unfoldable pub work_packet : WorkerEnv → ℕ → List ℕ → Session → Result Worked
  work_packet env address packet s = do
    view ← attempt (packet_view config packet)
    elim view [
      | none ↦ ok (record {
        session = s;
        effects = divert_send (record { address = address; bytes = packet }) ∷ [];
        submitted = false;
      })
      | some found ↦ do
        inspected ← inspect_packet sha512 env.inspection found address packet s
        let given = submitted env inspected.submit inspected.session
        let sent =
            passed env (record { address = address; bytes = packet }) inspected.action given.session
        ok (record {
          session = sent.0;
          effects =
              given.effects ++ sent.1 ++ (if inspected.detach then shutdown_recv ∷ [] else []);
          submitted = given.submitted;
        })
    ]

-- `finish_session`: the row that is kept of the session.
unfoldable pub finished_row : ℕ → Session → Row
finished_row now s =
    let closed = if s.row.closed_ns == 0 then now else s.row.closed_ns in
    record (s.row) {
      closed_ns = closed;
      success = s.decision_done && s.allowed && (not s.row.ra || s.row.remote_verdict_sent);
      verified = s.row.report_verify;
    }

abbrev no_bytes : ByteBuffer
no_bytes = record { bytes = []; capacity = 0 }

-- `session_new`, without the number and the flow of the session, and its handles.
unfoldable pub session_new : Bool → ℕ → Session
session_new ra now = record {
  client_tls = no_bytes;
  server_tls = no_bytes;
  held = [];
  held_bytes = 0;
  row = record {
    ra = ra;
    success = false;
    verified = false;
    lookup_key = [];
    local_serverhello_key = [];
    response_report_key = [];
    have_lookup_key = false;
    have_local_serverhello_key = false;
    have_response_report_key = false;
    opened_ns = now;
    client_hello_ns = 0;
    server_hello_ns = 0;
    request_start_ns = 0;
    response_done_ns = 0;
    verify_start_ns = 0;
    verify_done_ns = 0;
    decision_ns = 0;
    closed_ns = 0;
    packets_copied = 0;
    bytes_copied = 0;
    held_packets = 0;
    released_packets = 0;
    response_status = 4294967295;
    key_match = false;
    report_verify = false;
    remote_verdict_sent = false;
    control_worker = 18446744073709551615;
    control_reused = false;
    errors = [];
  };
  worker_started = false;
  decision_done = false;
  allowed = false;
  fin_seen = false;
}
