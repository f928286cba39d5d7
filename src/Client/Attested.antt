-- ===== src/Client/Attested.antt =====
-- agents/linux/tcpra_client_agent.c, `run_control_job`: when it notes that a report was verified.
use tlslatch.Base.{
  arith, ◌==◌, if◌then◌else◌, returns_itself, first_true, second_true, ℕ, ◌≡◌, refl, sym, ◌∙◌,
  subst, ◌||◌, List, Option, none, some, Bool, true, false, length, ◌&&◌, same_bytes_iff, Result,
  ok, reject, fault, stuck, attempt, Safe, returns, Safe-attempt, Safe-branch, Safe-implies,
  Safe-ok, ◌>>=◌, branch, by_test, by_option,
}
use tlslatch.Protocol.{ra_report_size, ra_magic, ra_version, ra_mra_version}
use tlslatch.Tls.Digest.{early_client_report_key, early_server_report_key}
use tlslatch.Tls.Safety.{digest-IsKey}
use tlslatch.Csv.{Context, tcpra_csv_generate_report}
use tlslatch.Csv.Report.{IsGenuine, verify_impl-Safe}
use tlslatch.Client.State.{Session}
use tlslatch.Client.Control.{
  Response, RequestEnv, Job, new_job, is_response, is_whole, take_response, accept_report,
  answer_job, generate_report, send_early_client_report, send_request, request_report,
  expected_report_key, verify_key, verify_response,
}

-- `tcpra_read_all` fills the array of a report.
abbrev pub FillsReport : RequestEnv → Type 0
FillsReport env = (report : List ℕ) → env.report ≡ some report → length report ≡ ra_report_size

abbrev IsSized : Job → Type 0
IsSized job = job.full_response ≡ true → length job.report ≡ ra_report_size

never : {P : Type 0} → false ≡ true → P
never e = absurd (cc)

-- The agent has read a header with the protocol's number, the version for its kind of request, the type
-- of a response, the status of success and the length of a report, and the report behind it.
pub record IsWholeResponse (env : RequestEnv) (mutual_ra : Bool) (job : Job) : Type 0 where
  pub response : Response
  pub header_read : env.response ≡ some response
  pub magic : response.magic ≡ ra_magic
  pub version : response.version ≡ (if mutual_ra then ra_mra_version else ra_version)
  pub type : response.type ≡ 2
  pub status : response.status ≡ 0
  pub report_len : response.report_len ≡ ra_report_size
  pub key : job.response_report_key ≡ response.report_key
  pub report_read : env.report ≡ some job.report

abbrev IsFull : RequestEnv → Bool → Job → Type 0
IsFull env mutual_ra job = job.full_response ≡ true → IsWholeResponse env mutual_ra job

same_number : (a b : ℕ) → (a == b) ≡ true → a ≡ b
same_number a b e = ground arith

IsFull-IsSized :
    (env : RequestEnv) (mutual_ra : Bool) (job : Job)
    → FillsReport env
    → IsFull env mutual_ra job
    → IsSized job
IsFull-IsSized env mutual_ra job fills h f = fills job.report (h f).report_read

take_response-IsFull :
    (env : RequestEnv) (mutual_ra : Bool) (job : Job)
    → job.full_response ≡ false
    → IsFull env mutual_ra (take_response mutual_ra env.response env.report job)
unfolding take_response
take_response-IsFull env mutual_ra job u = taken env.response refl
  where
    none_yet : IsFull env mutual_ra job
    none_yet f = never (sym u ∙ f)

    taken :
        (o : Option Response)
        → env.response ≡ o
        → IsFull env mutual_ra (take_response mutual_ra o env.report job)
    taken none e = none_yet
    taken (some response) e =
        by_test (IsFull env mutual_ra) (is_response mutual_ra response)
          (λ r.
            by_option (IsFull env mutual_ra) env.report (λ _ f. never (sym u ∙ f))
              λ bytes p.
                by_test (IsFull env mutual_ra) (is_whole response)
                  (λ w _. record {
                    response = response;
                    header_read = e;
                    magic = same_number _ _ (first_true _ _ (first_true _ _ r));
                    version = same_number _ _ (second_true _ _ (first_true _ _ r));
                    type = same_number _ _ (second_true _ _ r);
                    status = same_number _ _ (first_true _ _ w);
                    report_len = same_number _ _ (second_true _ _ w);
                    key = refl;
                    report_read = p;
                  })
                  λ _ f. never (sym u ∙ f))
          λ _. none_yet

-- What a result that is returned comes from.
module _ {A B P : Type 0} where
  returned :
      (m : Result A) (f : A → Result B) {b : B}
      → (m >>= f) ≡ ok b
      → ((a : A) → m ≡ ok a → f a ≡ ok b → P)
      → P
  unfolding ◌>>=◌
  returned (ok a) f e k = k a refl e
  returned reject f e k = absurd (cc)
  returned fault f e k = absurd (cc)
  returned stuck f e k = absurd (cc)

module _ {A : Type 0} (Q : A → Type 0) where
  returned_value : (a : A) {b : A} → Q a → ok a ≡ ok b → Q b
  returned_value a {b} q e = let same : a ≡ b = cc in subst Q same q

module _ (sha512 : List ℕ → Option (List ℕ)) (context : Context) where
  -- The client's own report is sent before the response comes.
  abbrev Unanswered : Bool × Job → Type 0
  Unanswered sent = sent.1.full_response ≡ false

  generate_report-Unanswered :
      (env : RequestEnv) (job : Job) (key : Option (List ℕ)) {sent : Bool × Job}
      → job.full_response ≡ false
      → generate_report sha512 context env job key ≡ ok sent
      → Unanswered sent
  generate_report-Unanswered env job none u e = returned_value Unanswered _ u e
  generate_report-Unanswered env job (some key) u e =
      returned (attempt (tcpra_csv_generate_report context key)) _ e
        λ answer _ f. returned_value Unanswered _ (by_option Unanswered answer (λ _. u) λ _ _. u) f

  send_request-Unanswered :
      (env : RequestEnv) (mutual_ra : Bool) (job : Job) {sent : Bool × Job}
      → job.full_response ≡ false
      → send_request sha512 context env mutual_ra job ≡ ok sent
      → Unanswered sent
  unfolding send_request send_early_client_report branch
  send_request-Unanswered env mutual_ra job {sent} u = by_case (env.request_written && mutual_ra)
    where
      by_case :
          (b : Bool)
          → branch b
              (send_early_client_report sha512 context env job)
              (ok (env.request_written, job))
            ≡ ok sent
          → Unanswered sent
      by_case true e =
          returned
            (attempt (early_client_report_key sha512 job.session.lookup_key env.client_nonce)) _ e
            λ key _ f. generate_report-Unanswered env job key u f
      by_case false e = returned_value Unanswered _ u e

  accept_report-IsFull :
      (env : RequestEnv) (mutual_ra : Bool) (job : Job)
      → IsFull env mutual_ra job
      → IsFull env mutual_ra (accept_report mutual_ra job)
  accept_report-IsFull env mutual_ra job h =
      by_test (IsFull env mutual_ra) mutual_ra
        (λ _ f.
          let w = h f in
          record {
            response = w.response;
            header_read = w.header_read;
            magic = w.magic;
            version = w.version;
            type = w.type;
            status = w.status;
            report_len = w.report_len;
            key = w.key;
            report_read = w.report_read;
          })
        λ _. h

  answer_job-IsFull :
      (env : RequestEnv) (mutual_ra : Bool) (sent : Bool × Job)
      → Unanswered sent
      → IsFull env mutual_ra (answer_job env mutual_ra sent)
  answer_job-IsFull env mutual_ra (request_ok, job) u = accept_report-IsFull env mutual_ra _ (
      by_test (IsFull env mutual_ra) request_ok (λ _. take_response-IsFull env mutual_ra job u)
        λ _ f. never (sym u ∙ f))

  request_report-IsFull :
      (env : RequestEnv) (mutual_ra : Bool) (session : Session) {job : Job}
      → request_report sha512 context env mutual_ra session ≡ ok (some job)
      → IsFull env mutual_ra job
  unfolding request_report branch
  request_report-IsFull env mutual_ra session {job} = by_case (env.connected || env.reconnects)
    where
      by_case :
          (b : Bool)
          → branch b
              (send_request sha512 context env mutual_ra (new_job session) >>= λ sent.
                ok (some (answer_job env mutual_ra sent)))
              (ok none)
            ≡ ok (some job)
          → IsFull env mutual_ra job
      by_case true e =
          returned (send_request sha512 context env mutual_ra (new_job session)) _ e λ sent s f.
            let same : answer_job env mutual_ra sent ≡ job = cc in
            subst (IsFull env mutual_ra) same (
              answer_job-IsFull env mutual_ra sent
                (send_request-Unanswered env mutual_ra (new_job session) refl s))
      by_case false e = absurd (cc)

  -- The report is genuine for the key that the agent itself expects of the server it saw, and that the
  -- response names.
  pub record IsAttested (sm2_verify : List ℕ → List ℕ → List ℕ → List ℕ → Bool) (mutual_ra : Bool)
      (job : Job) : Type 0 where
    pub answered : job.full_response ≡ true
    pub observed : job.session.has_server_hello ≡ true
    pub expected : expected_report_key sha512 context mutual_ra job ≡ ok job.response_report_key
    pub genuine : IsGenuine sm2_verify context job.report job.response_report_key

  -- Where a report is noted as verified that was not before, it is attested.
  abbrev pub Noted : (List ℕ → List ℕ → List ℕ → List ℕ → Bool) → Bool → Job → Job → Type 0
  Noted sm2_verify mutual_ra job after =
      after.session.report_verify ≡ true → IsAttested sm2_verify mutual_ra job

  expected-Safe :
      (mutual_ra : Bool) (job : Job)
      → Safe (λ _. Unit) (expected_report_key sha512 context mutual_ra job)
  unfolding expected_report_key early_server_report_key
  expected-Safe mutual_ra job =
      Safe-branch _ _ _ (λ _. Safe-implies (digest-IsKey sha512 _) λ _ _. tt) λ _. returns _ tt

  module _ (sm2_verify : List ℕ → List ℕ → List ℕ → List ℕ → Bool)
      (library : context.sm2_verify ≡ some sm2_verify) where
    verify_key-Noted :
        (mutual_ra : Bool) (job : Job) (key : List ℕ)
        → IsSized job
        → job.full_response ≡ true
        → job.session.has_server_hello ≡ true
        → job.session.report_verify ≡ false
        → expected_report_key sha512 context mutual_ra job ≡ ok key
        → Safe (Noted sm2_verify mutual_ra job) (verify_key sha512 context job key)
    unfolding verify_key
    verify_key-Noted mutual_ra job key z full seen new e =
        Safe-branch _ _ _
          (λ m.
            Safe-attempt _ _ (verify_impl-Safe context job.report key (z full) sm2_verify library)
              (returns _ (λ v. never v))
              λ _ g.
                let same : key ≡ job.response_report_key = sym ((same_bytes_iff _ _).0 m) in
                returns _ λ _. record {
                  answered = full;
                  observed = seen;
                  expected =
                      subst (λ k. expected_report_key sha512 context mutual_ra job ≡ ok k) same e;
                  genuine = subst (λ k. IsGenuine sm2_verify context job.report k) same g;
                })
          λ _. returns _ λ v. never (sym new ∙ v)

    verify_response-Noted :
        (mutual_ra : Bool) (job : Job)
        → IsSized job
        → job.session.report_verify ≡ false
        → Safe (Noted sm2_verify mutual_ra job) (verify_response sha512 context mutual_ra job)
    unfolding verify_response
    verify_response-Noted mutual_ra job z new =
        Safe-branch _ _ _
          (λ both.
            Safe-attempt _ _ (returns_itself (expected-Safe mutual_ra job))
              (returns _ λ v. never (sym new ∙ v))
              λ key e.
                verify_key-Noted mutual_ra job key z (first_true _ _ both) (second_true _ _ both)
                  new e)
          λ _. returns _ λ v. never (sym new ∙ v)

    -- Where the agent's control job notes that a report was verified, on a session where none was before,
    -- it has read a response with the header that the protocol demands of a success and a report behind
    -- it, the session's ServerHello was observed, and the report is genuine for the key that the agent
    -- itself expects of it and the response names: the key of the ServerHello, or with two attesting sides
    -- the one derived from it and the client's report key. The session may have been changed by the
    -- observers meanwhile.
    pub run_control_job-IsAttested :
        (env : RequestEnv) (mutual_ra : Bool) (session observed : Session) {job after : Job}
        → FillsReport env
        → request_report sha512 context env mutual_ra session ≡ ok (some job)
        → observed.report_verify ≡ false
        → verify_response sha512 context mutual_ra (record job { session = observed }) ≡ ok after
        → after.session.report_verify ≡ true
        → IsAttested sm2_verify mutual_ra (record job { session = observed })
          × IsWholeResponse env mutual_ra job
    run_control_job-IsAttested env mutual_ra session observed {job} {after} fills asked new e v =
        let full = request_report-IsFull env mutual_ra session asked in
        let attested =
          Safe-ok
            (verify_response-Noted mutual_ra (record job { session = observed })
              (IsFull-IsSized env mutual_ra job fills full) new)
            e v in
        (attested, full attested.answered)
