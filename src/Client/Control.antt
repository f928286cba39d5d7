-- ===== src/Client/Control.antt =====
-- The job of a control thread of agents/linux/tcpra_client_agent.c: `run_control_job` in three parts,
-- divided by its waits for the ServerHello and for the gate. Meanwhile the gate's thread goes on. The
-- numbers of the worker and the readings of the clock, which only the report of the run reads, are left out.
use tlslatch.Base.{
  ℕ, List, [], Option, none, some, Bool, true, false, not, ◌==◌, ◌&&◌, ◌||◌, if◌then◌else◌,
  same_bytes, Result, ok, attempt, branch, ◌>>=◌,
}
use tlslatch.Protocol.{ra_magic, ra_version, ra_mra_version, ra_report_size}
use tlslatch.Tls.Digest.{early_client_report_key, early_server_report_key}
use tlslatch.Csv.{Context, tcpra_csv_verify_report, tcpra_csv_generate_report}
use tlslatch.Client.State.{Session, Agent, Env, zero_bytes}
use tlslatch.Client.Sessions.{update_session}
use tlslatch.Client.Decision.{enqueue_decision, finish_session}

-- `struct ra_response` with its numbers in the order of the machine
pub record Response : Type 0 where
  pub magic : ℕ
  pub version : ℕ
  pub type : ℕ
  pub status : ℕ
  pub report_len : ℕ
  pub report_key : List ℕ

-- What the job is answered before the report is there: whether a connection is open or can be opened,
-- whether the request and the client's report are written, the header and the report that are read.
-- `client_nonce` is the eight bytes of the number of the request.
pub record RequestEnv : Type 0 where
  pub connected : Bool
  pub reconnects : Bool
  pub client_nonce : List ℕ
  pub request_written : Bool
  pub report_written : Bool
  pub response : Option Response
  pub report : Option (List ℕ)

-- The session, as it is for the worker, and the values that only the worker uses.
pub record Job : Type 0 where
  pub session : Session
  pub client_report_key : List ℕ
  pub client_report_generated : Bool
  pub response_report_key : List ℕ
  pub full_response : Bool
  pub report : List ℕ
  pub key_match : Bool

abbrev pub new_job : Session → Job
new_job session = record {
  session = session;
  client_report_key = zero_bytes;
  client_report_generated = false;
  response_report_key = zero_bytes;
  full_response = false;
  report = [];
  key_match = false;
}

abbrev pub request_version : Bool → ℕ
request_version mutual_ra = if mutual_ra then ra_mra_version else ra_version

abbrev pub is_response : Bool → Response → Bool
is_response mutual_ra response =
    response.magic == ra_magic
    && response.version == request_version mutual_ra
    && response.type == 2

abbrev pub is_whole : Response → Bool
is_whole response = response.status == 0 && response.report_len == ra_report_size

-- A response that has its form gives its key; the report is read only where it is announced.
unfoldable pub take_response : Bool → Option Response → Option (List ℕ) → Job → Job
take_response mutual_ra none report job = job
take_response mutual_ra (some response) report job =
    if is_response mutual_ra response
    then (elim report [
      | none ↦ record job { response_report_key = response.report_key }
      | some bytes ↦
          if is_whole response
          then record job {
            response_report_key = response.report_key;
            full_response = true;
            report = bytes;
          }
          else record job { response_report_key = response.report_key }
    ])
    else job

-- Between two attesting sides the client's report counts as accepted with a whole response.
abbrev pub accept_report : Bool → Job → Job
accept_report mutual_ra job =
    if mutual_ra
    then record job {
      session = record (job.session) {
        client_report_accepted = job.full_response && job.client_report_generated;
      };
    }
    else job

abbrev pub answer_job : RequestEnv → Bool → Bool × Job → Job
answer_job env mutual_ra (request_ok, job) =
    accept_report mutual_ra
      (if request_ok then take_response mutual_ra env.response env.report job else job)

module _ (sha512 : List ℕ → Option (List ℕ)) (context : Context) where
  abbrev pub generate_report : RequestEnv → Job → Option (List ℕ) → Result (Bool × Job)
  generate_report env job none = ok (false, job)
  generate_report env job (some key) =
      attempt (tcpra_csv_generate_report context key) >>= λ generated. ok (elim generated [
        | none ↦ (false, record job { client_report_key = key })
        | some report ↦ (
          env.report_written,
          record job { client_report_key = key; client_report_generated = true },
        )
      ])

  unfoldable pub send_early_client_report : RequestEnv → Job → Result (Bool × Job)
  send_early_client_report env job =
      attempt (early_client_report_key sha512 job.session.lookup_key env.client_nonce)
      >>= generate_report env job

  unfoldable pub send_request : RequestEnv → Bool → Job → Result (Bool × Job)
  send_request env mutual_ra job =
      branch (env.request_written && mutual_ra) (send_early_client_report env job)
        (ok (env.request_written, job))

  -- Up to the report; without a connection there is no request.
  unfoldable pub request_report : RequestEnv → Bool → Session → Result (Option Job)
  request_report env mutual_ra session =
      branch (env.connected || env.reconnects)
        (send_request env mutual_ra (new_job session) >>= λ sent.
          ok (some (answer_job env mutual_ra sent)))
        (ok none)

  -- The key that the report of the server is to be on.
  unfoldable pub expected_report_key : Bool → Job → Result (List ℕ)
  expected_report_key mutual_ra job =
      branch mutual_ra
        (early_server_report_key sha512 job.session.local_report_key job.client_report_key)
        (ok job.session.local_report_key)

  abbrev pub is_verified : Option (Unit {0}) → Bool
  is_verified none = false
  is_verified (some _) = true

  unfoldable pub verify_key : Job → List ℕ → Result Job
  verify_key job expected =
      branch (same_bytes job.response_report_key expected)
        (attempt (tcpra_csv_verify_report context job.report expected) >>= λ answer.
          ok (record job {
            key_match = true;
            session = record (job.session) { report_verify = is_verified answer };
          }))
        (ok (record job { key_match = false }))

  abbrev pub verify_expected : Job → Option (List ℕ) → Result Job
  verify_expected job none = ok (record job { key_match = false })
  verify_expected job (some expected) = verify_key job expected

  -- Behind the wait for the ServerHello.
  unfoldable pub verify_response : Bool → Job → Result Job
  verify_response mutual_ra job =
      branch (job.full_response && job.session.has_server_hello)
        (attempt (expected_report_key mutual_ra job) >>= verify_expected job) (ok job)

-- `struct ra_verdict`, with its numbers in the order of the machine
pub record SentVerdict : Type 0 where
  pub version : ℕ
  pub verified : ℕ
  pub client_nonce : List ℕ
  pub lookup_key : List ℕ

pub record Finished : Type 0 where
  pub agent : Agent
  pub verdict : Option SentVerdict

-- The end of a job that had no connection, behind the same wait.
abbrev pub conclude_unconnected : Session → Agent → Agent
conclude_unconnected session agent = finish_session session agent

-- Whether the decision was queued stays with the worker until the gate has answered.
unfoldable pub queue_decision : Env → Job → Agent → Bool × Agent
queue_decision env job agent = enqueue_decision env job.session.id agent

-- The verdict goes out, if the response was whole and the client's report was accepted.
unfoldable pub sends_verdict : Bool → Job → Bool
sends_verdict mutual_ra job =
    job.full_response && (not mutual_ra || job.session.client_report_accepted)

-- Behind the wait for the gate; `session` is what the gate has left.
unfoldable pub conclude_job : RequestEnv → Bool → Bool → Bool → Job → Session → Agent → Finished
conclude_job env verdict_written mutual_ra queued job session agent =
    let allowed = queued && session.decision_applied && session.gate_allowed in
    let sends = sends_verdict mutual_ra job in
    let after = record session {
      gate_allowed = allowed;
      remote_verdict_sent = if sends then verdict_written else session.remote_verdict_sent;
    } in
    record {
      agent =
          finish_session after
            (record agent { sessions = update_session session.id (λ _. after) agent.sessions });
      verdict =
          if sends
          then some (record {
            version = request_version mutual_ra;
            verified = if allowed then 1 else 0;
            client_nonce = env.client_nonce;
            lookup_key = session.lookup_key;
          })
          else none;
    }
