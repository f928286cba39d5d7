-- ===== src/Client/ControlTests.antt =====
-- Examples for the theorem on the control job of agents/linux/tcpra_client_agent.c.
use tlslatch.Base.{
  ℕ, List, Option, none, some, Bool, true, false, ◌≡◌, refl, length, replicate, ok, attempt, branch,
  read, slice, reject_if, same_bytes, ◌>>=◌, subst,
}
use tlslatch.Protocol.{ra_magic, ra_version, ra_report_size}
use tlslatch.Csv.{Context, xor_word, xor_words, verify_impl, verify_with, verify_certificate}
use tlslatch.Client.State.{Session, zero_bytes, zero_key}
use tlslatch.Client.Sessions.{new_session}
use tlslatch.Client.Control.{
  RequestEnv, Job, new_job, request_report, send_request, take_response, expected_report_key,
  verify_key, verify_response,
}
use tlslatch.Client.Attested.{IsAttested, IsWholeResponse, run_control_job-IsAttested}

abbrev sha512 : List ℕ → Option (List ℕ)
sha512 bytes = some (replicate 64 0)

abbrev any_signature : List ℕ → List ℕ → List ℕ → List ℕ → Bool
any_signature point uid message signature = true

abbrev context : Context
context = record {
  get_report = none;
  sm2_verify = some any_signature;
  trusted_pek = replicate 64 0;
  trusted_measurement = replicate 32 0;
  reporter = false;
}

abbrev report : List ℕ
report = replicate ra_report_size 0

abbrev request_env : RequestEnv
request_env = record {
  connected = false;
  reconnects = true;
  client_nonce = replicate 8 5;
  request_written = true;
  report_written = true;
  response = some (record {
    magic = ra_magic;
    version = ra_version;
    type = 2;
    status = 0;
    report_len = ra_report_size;
    report_key = zero_bytes;
  });
  report = some report;
}

abbrev session : Session
session = new_session 1 zero_key zero_bytes 7

abbrev job : Job
job = record (new_job session) { full_response = true; report = report }

asked : request_report sha512 context request_env false session ≡ ok (some job)
unfolding request_report send_request take_response branch ◌>>=◌
asked = refl

-- The ServerHello was seen while the response came.
abbrev observed : Session
observed = record session { has_server_hello = true; serverhello_observed_ns = 8 }

abbrev verified : Job
verified = record job { session = record observed { report_verify = true }; key_match = true }

verifies : verify_response sha512 context false (record job { session = observed }) ≡ ok verified
unfolding verify_response expected_report_key verify_key verify_impl verify_with verify_certificate
    xor_words xor_word attempt branch read slice reject_if same_bytes ◌>>=◌
verifies = refl

report_size : (found : List ℕ) → request_env.report ≡ some found → length found ≡ ra_report_size
report_size found e =
    let same : report ≡ found = cc in subst (λ r. length r ≡ ra_report_size) same long
  where
    long : length report ≡ ra_report_size
    long = refl

run_control_job-IsAttested_example :
    IsAttested sha512 context any_signature false (record job { session = observed })
    × IsWholeResponse request_env false job
run_control_job-IsAttested_example =
    run_control_job-IsAttested sha512 context any_signature refl request_env false session observed
      report_size asked refl verifies refl
