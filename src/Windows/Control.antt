-- ===== src/Windows/Control.antt =====
-- agents/windows/tcpra_agent_c.c: the job of a control worker, in two parts: up to the report, and from
-- the end of its wait for the ServerHello to the decision. Between them packets of the flow are handled.
use tlslatch.Base.{
  ℕ, ◌+◌, ◌/◌, ◌%◌, List, [], ◌∷◌, ◌++◌, Option, some, none, Bool, true, false, not, ◌==◌, ◌/=◌,
  ◌&&◌, ◌||◌, if◌then◌else◌, same_bytes, get_or, take, drop, Result, ok, attempt, ◌>>=◌,
}
use tlslatch.Protocol.{ra_magic, ra_version, ra_report_size}
use tlslatch.Packet.{be32}
use tlslatch.Tls.Digest.{be16}
use tlslatch.Windows.{
  Row, Session, Message, connect_failed, nonce_failed, io_failed, bad_header, bad_status,
  report_read_failed, hello_timeout, verdict_failed, report_refused,
}
use tlslatch.Windows.Report.{Trust, verify_report}
use tlslatch.Windows.Decide.{DecideEnv, Effect, decide}

abbrev pub write_be16 : ℕ → List ℕ
write_be16 v = v / 256 % 256 ∷ v % 256 ∷ []

abbrev pub write_be32 : ℕ → List ℕ
write_be32 v = v / 16777216 % 256 ∷ v / 65536 % 256 ∷ v / 256 % 256 ∷ v % 256 ∷ []

abbrev pub ra_request : ℕ
ra_request = 1

abbrev pub ra_response : ℕ
ra_response = 2

abbrev pub ra_verdict : ℕ
ra_verdict = 3

-- The 80 bytes of a request, and the 84 of a verdict.
abbrev pub put_request : List ℕ → List ℕ → List ℕ
put_request lookup nonce =
    write_be32 ra_magic ++ write_be16 ra_version ++ write_be16 ra_request ++ lookup ++ nonce

abbrev pub put_verdict : Bool → List ℕ → List ℕ → List ℕ
put_verdict verified nonce lookup =
    write_be32 ra_magic
    ++ write_be16 ra_version
    ++ write_be16 ra_verdict
    ++ write_be32 (if verified then 1 else 0)
    ++ nonce
    ++ lookup

-- The fields of the header, an array of 88 bytes.
abbrev pub field32 : List ℕ → ℕ → ℕ
field32 header i =
    be32 (get_or header i 0) (get_or header (i + 1) 0) (get_or header (i + 2) 0)
      (get_or header (i + 3) 0)

abbrev pub field16 : List ℕ → ℕ → ℕ
field16 header i = be16 (get_or header i 0) (get_or header (i + 1) 0)

-- What the job is answered before the report is there. `reply` is the header that comes back for a
-- request, `report` the bytes behind it; `none` is a failure of the socket.
pub record RequestEnv : Type 0 where
  pub worker_id : ℕ
  pub connected : Bool
  pub connects : Bool
  pub request_start_ns : ℕ
  pub response_done_ns : ℕ
  pub nonce : Option (List ℕ)
  pub reply : List ℕ → Option (List ℕ)
  pub report : Option (List ℕ)

-- The end of the first part: a reason to refuse, or what is needed to verify.
pub data Exchange : Type 0 where
  refused : Message → Exchange
  answered : List ℕ → List ℕ → List ℕ → List ℕ → Exchange

abbrev pub is_response : List ℕ → Bool
is_response header =
    field32 header 0 == ra_magic
    && field16 header 4 == ra_version
    && field16 header 6 == ra_response

abbrev pub response_seen : List ℕ → Session → Session
response_seen header s = record s {
  row = record (s.row) {
    response_status = field32 header 8;
    response_report_key = take 64 (drop 24 header);
    have_response_report_key = true;
  };
}

unfoldable pub take_report : RequestEnv → List ℕ → List ℕ → List ℕ → Session → Session × Exchange
take_report env lookup nonce header s =
    if not (field32 header 8 == 0) || field32 header 12 /= ra_report_size
    then (s, refused bad_status)
    else elim env.report [
      | none ↦ (s, refused report_read_failed)
      | some report ↦ (
        record s { row = record (s.row) { response_done_ns = env.response_done_ns } },
        answered lookup nonce (take 64 (drop 24 header)) report,
      )
    ]

unfoldable pub exchange : RequestEnv → List ℕ → Session → Session × Exchange
exchange env lookup s = elim env.nonce [
  | none ↦ (s, refused nonce_failed)
  | some nonce ↦ elim (env.reply (put_request lookup nonce)) [
    | none ↦ (s, refused io_failed)
    | some header ↦
        if is_response header
        then take_report env lookup nonce header (response_seen header s)
        else (s, refused bad_header)
  ]
]

unfoldable pub request_report : RequestEnv → Session → Session × Exchange
request_report env s =
    let started = record s {
      row = record (s.row) {
        control_worker = env.worker_id;
        control_reused = env.connected;
        request_start_ns = env.request_start_ns;
      };
    } in
    if env.connected || env.connects
    then exchange env s.row.lookup_key started
    else (started, refused connect_failed)

-- What the job is answered after its wait. The report and the verdict are dealt with as one step.
pub record FinishEnv : Type 0 where
  pub verify_start_ns : ℕ
  pub verify_done_ns : ℕ
  pub verdict_sent : Bool
  pub decision : DecideEnv

pub record Finished : Type 0 where
  pub session : Session
  pub effects : List Effect
  pub verdict : List ℕ

abbrev pub verified_row : FinishEnv → Bool → Bool → Row → Row
verified_row env matches verified row = record row {
  key_match = matches;
  verify_start_ns = env.verify_start_ns;
  report_verify = verified;
  verify_done_ns = env.verify_done_ns;
  remote_verdict_sent = row.remote_verdict_sent || env.verdict_sent;
}

-- The reason that is kept: none where the keys differ.
abbrev pub reason : Bool → Bool → Bool → List Message
reason matches verified true = if verified || not matches then [] else report_refused ∷ []
reason matches verified false = verdict_failed ∷ []

unfoldable pub conclude : FinishEnv → List ℕ → List ℕ → Bool → Bool → Session → Finished
conclude env lookup nonce matches verified s =
    let decision =
      decide env.decision (verified && env.verdict_sent) (reason matches verified env.verdict_sent)
        (record s { row = verified_row env matches verified s.row }) in
    record {
      session = decision.0;
      effects = decision.1;
      verdict = put_verdict verified nonce lookup;
    }

abbrev pub refuse : FinishEnv → Message → Session → Finished
refuse env message s =
    let decision = decide env.decision false (message ∷ []) s in
    record { session = decision.0; effects = decision.1; verdict = [] }

abbrev is_some : Option (Unit {0}) → Bool
is_some none = false
is_some (some _) = true

module _ (sm2 : List ℕ → List ℕ → List ℕ → List ℕ → List ℕ → Bool) (trust : Trust) where
  unfoldable pub verify_answer :
      FinishEnv → List ℕ → List ℕ → List ℕ → List ℕ → Session → Result Finished
  verify_answer env lookup nonce response_key report s =
      if same_bytes s.row.local_serverhello_key response_key
      then (attempt (verify_report sm2 trust report s.row.local_serverhello_key) >>= λ answer.
          ok (conclude env lookup nonce true (is_some answer) s))
      else ok (conclude env lookup nonce false false s)

  unfoldable pub finish_request : FinishEnv → Exchange → Session → Result Finished
  finish_request env (refused message) s = ok (refuse env message s)
  finish_request env (answered lookup nonce response_key report) s =
      if s.row.have_local_serverhello_key
      then verify_answer env lookup nonce response_key report s
      else ok (refuse env hello_timeout s)
