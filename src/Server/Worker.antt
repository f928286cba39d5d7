-- ===== src/Server/Worker.antt =====
-- agents/linux/tcpra_server_agent.c, `control_worker_main`: the answer to a request that is registered,
-- in one round of the wait for its report, and the verdict on it.
use tlslatch.Base.{
  ℕ, ◌+◌, List, Option, none, some, Bool, ◌==◌, ◌&&◌, same_bytes, Result, ok, attempt, branch,
  ◌>>=◌, if◌then◌else◌,
}
use tlslatch.Protocol.{ra_magic, ra_version, ra_mra_version}
use tlslatch.Tls.Digest.{early_client_report_key}
use tlslatch.Csv.{Context, tcpra_csv_verify_report}
use tlslatch.Server.State.{CacheEntry, Agent, Env}
use tlslatch.Server.Control.{
  RaStatus, ra_ok, ra_client_report_invalid, Request, Verdict, wait_for_report, record_verdict,
}

-- The head of a message, with its numbers in the order of the machine
pub record Head : Type 0 where
  pub magic : ℕ
  pub version : ℕ
  pub type : ℕ

-- A request is of the kind that the agent was started for.
unfoldable pub is_request : Agent → Head → Bool
is_request agent head =
    head.magic == ra_magic
    && (if agent.mutual_ra
        then head.type == 4 && head.version == ra_mra_version
        else head.type == 1 && head.version == ra_version)

abbrev pub count_verified : Agent → Agent
count_verified agent = record agent {
  counters = record (agent.counters) {
    client_reports_verified = agent.counters.client_reports_verified + 1;
  };
}

abbrev pub count_failure : Agent → Agent
count_failure agent = record agent {
  counters = record (agent.counters) {
    client_report_failures = agent.counters.client_report_failures + 1;
  };
}

-- What is written to the client, with the delivered entry where the status is `ra_ok`.
pub record Answer : Type 0 where
  pub status : RaStatus
  pub entry : Option CacheEntry

module _ (sha512 : List ℕ → Option (List ℕ)) (context : Context) where
  unfoldable pub verify_early_client_report : Request → List ℕ → Result (Unit {0})
  verify_early_client_report request client_report =
      early_client_report_key sha512 request.lookup_key request.client_nonce >>= λ expected.
      tcpra_csv_verify_report context client_report expected

  abbrev pub verified_answer : CacheEntry → Agent → Option (Unit {0}) → Answer × Agent
  verified_answer entry agent none =
      (record { status = ra_client_report_invalid; entry = none }, count_failure agent)
  verified_answer entry agent (some _) =
      (record { status = ra_ok; entry = some entry }, count_verified agent)

  -- The report is ready for the request; a client that attests itself has sent its own report.
  unfoldable pub answer_delivered : Request → List ℕ → CacheEntry → Agent → Result (Answer × Agent)
  answer_delivered request client_report entry agent =
      branch agent.mutual_ra
        (attempt (verify_early_client_report request client_report) >>= λ answer.
          ok (verified_answer entry agent answer))
        (ok (record { status = ra_ok; entry = some entry }, agent))

  abbrev pub answer_waited :
      Request
      → List ℕ
      → (Option RaStatus × Option CacheEntry) × Agent
      → Result (Option Answer × Agent)
  answer_waited request client_report ((some status, some entry), agent) =
      answer_delivered request client_report entry agent >>= λ answer. ok (some answer.0, answer.1)
  answer_waited request client_report ((some status, none), agent) =
      ok (some (record { status = status; entry = none }), agent)
  answer_waited request client_report ((none, entry), agent) = ok (none, agent)

  -- `none` where the wait goes on.
  unfoldable pub answer_request :
      Env → Request → ℕ → List ℕ → Agent → Result (Option Answer × Agent)
  answer_request env request started client_report agent =
      answer_waited request client_report (wait_for_report env request started agent)

-- The verdict is recorded if it is one on the request: `nonce` is the nonce in the verdict.
unfoldable pub take_verdict : Env → Request → Head → Head → List ℕ → Verdict → Bool → Agent → Agent
take_verdict env request request_head head nonce verdict client_report_verified agent =
    if head.magic == ra_magic
      && head.version == request_head.version
      && head.type == 3
      && same_bytes nonce request.client_nonce
      && same_bytes verdict.lookup_key request.lookup_key
    then record_verdict env request verdict client_report_verified agent
    else agent
