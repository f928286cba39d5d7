-- ===== src/Windows/Run/Life.antt =====
-- agents/windows/tcpra_agent_c.c: what holds in the life of a session whose server is to be attested.
use tlslatch.Base.{
  ℕ, ◌≡◌, refl, sym, ◌∙◌, ◌⊎◌, inl, List, [], ◌∷◌, Option, some, none, Bool, true, false, length,
  ◌==◌, ◌||◌, ◌/=◌, not, arith, ok, Safe-ok, by_test, by_option,
}
use tlslatch.Protocol.{ra_report_size}
use tlslatch.Windows.{Session, PacketView, pool_stopped}
use tlslatch.Windows.Report.{Trust}
use tlslatch.Windows.Inspect.{InspectEnv, action_send, Inspected, inspect_packet}
use tlslatch.Windows.Decide.{DecideEnv, decide}
use tlslatch.Windows.Control.{
  put_request, is_response, field32, RequestEnv, Exchange, request_report, exchange, take_report,
  response_seen, FinishEnv, Finished, finish_request,
}
use tlslatch.Windows.Worker.{session_new}
use tlslatch.Windows.Bounds.Session.{IsSession, Kept, changed}
use tlslatch.Windows.Bounds.Inspect.{inspect_packet-Safe}
use tlslatch.Windows.Run.Decision.{decide-Decided}
use tlslatch.Windows.Run.Approval.{
  IsApproved, IsSized, unanswered, sized, finish_request-IsConcluded,
}

-- `recv_all` fills the array of a report.
abbrev pub FillsReport : RequestEnv → Type 0
FillsReport env = (report : List ℕ) → env.report ≡ some report → length report ≡ ra_report_size

session_new-IsSession : (now : ℕ) → IsSession (session_new true now)
unfolding session_new
session_new-IsSession now = record {
  client = record { fits = omega arith; bounded = omega arith };
  server = record { fits = omega arith; bounded = omega arith };
  counted = refl;
  limit = omega arith;
  idle = λ _. refl;
  plain = λ _. refl;
}

never : false ≡ true → ⊥
never e = cc

module _ (sha512 : List ℕ → Option (List ℕ))
    (sm2 : List ℕ → List ℕ → List ℕ → List ℕ → List ℕ → Bool) (trust : Trust) where
  -- The session and the exchange that its control worker has made, if it has not yet decided.
  pub data Life : Session → Option Exchange → Type 0 where
    opened : (now : ℕ) → Life (session_new true now) none
    packet :
        {s : Session} {x : Option Exchange}
        → Life s x
        → (env : InspectEnv) (view : PacketView) (address : ℕ) (bytes : List ℕ) {r : Inspected}
        → inspect_packet sha512 env view address bytes s ≡ ok r
        → Life r.session x
    requested :
        {s : Session}
        → Life s none
        → (env : RequestEnv) → FillsReport env
        → Life (request_report env s).0 (some (request_report env s).1)
    finished :
        {s : Session} {x : Exchange}
        → Life s (some x)
        → (env : FinishEnv) {f : Finished} → finish_request sm2 trust env x s ≡ ok f
        → Life f.session none
    turned_away :
        {s : Session} {x : Option Exchange}
        → Life s x
        → (env : DecideEnv) → Life (decide env false (pool_stopped ∷ []) s).0 x

  -- A decision of the life was made on a genuine report.
  pub IsApprovedIn : {s : Session} {x : Option Exchange} → Life s x → Type 0
  IsApprovedIn (opened now) = ⊥
  IsApprovedIn (packet life env view address bytes e) = IsApprovedIn life
  IsApprovedIn (requested life env h) = IsApprovedIn life
  IsApprovedIn (finished {s} {x} life env e) = IsApproved sm2 trust env s x ⊎ IsApprovedIn life
  IsApprovedIn (turned_away life env) = IsApprovedIn life

  abbrev IsPending : Option Exchange → Type 0
  IsPending none = Unit
  IsPending (some x) = IsSized sm2 trust x

  record Asked (s : Session) (asked : Session × Exchange) : Type 0 where
    kept : Kept s asked.0
    is_sized : IsSized sm2 trust asked.1

  -- The same of a session whose row was written to.
  Kept-Asked :
      {s after : Session} {asked : Session × Exchange}
      → Kept s after
      → Asked after asked
      → Asked s asked
  Kept-Asked k h = record {
    kept = record {
      whole = h.kept.whole;
      ra = h.kept.ra ∙ k.ra;
      held = h.kept.held ∙ k.held;
      allowed = λ r. h.kept.allowed (k.ra ∙ r) ∙ k.allowed r;
      done = λ r. h.kept.done (k.ra ∙ r) ∙ k.done r;
    };
    is_sized = h.is_sized;
  }

  unchanged : (s : Session) → IsSession s → Kept s s
  unchanged s h = changed s s refl refl refl refl refl refl refl h

  take_report-Asked :
      (env : RequestEnv) (lookup nonce header : List ℕ) (s : Session)
      → FillsReport env
      → IsSession s
      → Asked s (take_report env lookup nonce header s)
  unfolding take_report
  take_report-Asked env lookup nonce header s fills h =
      by_test (Asked s) (not (field32 header 8 == 0) || field32 header 12 /= ra_report_size)
        (λ _. record { kept = unchanged s h; is_sized = unanswered _ })
        λ _.
          by_option (Asked s) env.report
            (λ _. record { kept = unchanged s h; is_sized = unanswered _ })
            λ report e. record {
              kept = changed s _ refl refl refl refl refl refl refl h;
              is_sized = sized _ _ _ report (fills report e);
            }

  exchange-Asked :
      (env : RequestEnv) (lookup : List ℕ) (s : Session)
      → FillsReport env
      → IsSession s
      → Asked s (exchange env lookup s)
  unfolding exchange
  exchange-Asked env lookup s fills h =
      by_option (Asked s) env.nonce (λ _. record { kept = unchanged s h; is_sized = unanswered _ })
        λ nonce _.
          by_option (Asked s) (env.reply (put_request lookup nonce))
            (λ _. record { kept = unchanged s h; is_sized = unanswered _ })
            λ header _.
              by_test (Asked s) (is_response header)
                (λ _.
                  let seen =
                    changed s (response_seen header s) refl refl refl refl refl refl refl h in
                  Kept-Asked seen (take_report-Asked env lookup nonce header _ fills seen.whole))
                λ _. record { kept = unchanged s h; is_sized = unanswered _ }

  request_report-Asked :
      (env : RequestEnv) (s : Session)
      → FillsReport env
      → IsSession s
      → Asked s (request_report env s)
  unfolding request_report
  request_report-Asked env s fills h =
      by_test (Asked s) (env.connected || env.connects)
        (λ _.
          let started =
            changed s
              (record s {
                row = record (s.row) {
                  control_worker = env.worker_id;
                  control_reused = env.connected;
                  request_start_ns = env.request_start_ns;
                };
              })
              refl refl refl refl refl refl refl h in
          Kept-Asked started (exchange-Asked env s.row.lookup_key _ fills started.whole))
        λ _. record {
          kept = changed s _ refl refl refl refl refl refl refl h;
          is_sized = unanswered _;
        }

  record IsLife {s : Session} {x : Option Exchange} (life : Life s x) : Type 0 where
    whole : IsSession s
    ra : s.row.ra ≡ true
    pending : IsPending x
    approved_before : s.allowed ≡ true → IsApprovedIn life

  Life-IsLife : {s : Session} {x : Option Exchange} (life : Life s x) → IsLife life
  unfolding IsApprovedIn session_new
  Life-IsLife (opened now) = record {
    whole = session_new-IsSession now;
    ra = refl;
    pending = tt;
    approved_before = λ a. never a;
  }
  Life-IsLife (packet life env view address bytes e) =
      let before = Life-IsLife life in
      let step = Safe-ok (inspect_packet-Safe sha512 env view address bytes _ before.whole) e in
      record {
        whole = step.whole;
        ra = step.ra ∙ before.ra;
        pending = before.pending;
        approved_before = λ a. before.approved_before (sym (step.allowed before.ra) ∙ a);
      }
  Life-IsLife (requested life env fills) =
      let before = Life-IsLife life in
      let step = request_report-Asked env _ fills before.whole in
      record {
        whole = step.kept.whole;
        ra = step.kept.ra ∙ before.ra;
        pending = step.is_sized;
        approved_before = λ a. before.approved_before (sym (step.kept.allowed before.ra) ∙ a);
      }
  Life-IsLife (finished life env e) =
      let before = Life-IsLife life in
      let step =
        Safe-ok (finish_request-IsConcluded sm2 trust env _ _ before.pending before.whole) e in
      record {
        whole = step.whole;
        ra = step.ra ∙ before.ra;
        pending = tt;
        approved_before = λ a. inl (step.approved_by a);
      }
  Life-IsLife (turned_away life env) =
      let before = Life-IsLife life in
      let step = decide-Decided env false (pool_stopped ∷ []) _ before.whole in
      record {
        whole = step.whole;
        ra = step.ra ∙ before.ra;
        pending = before.pending;
        approved_before = λ a. absurd (never (step.opened a).0);
      }

  -- In every life of a session whose server is to be attested, data of the client that comes behind the
  -- lookup key is let through only if a decision of that life approved the flow: on a report that is
  -- genuine, for the trusted key and measurement, on the key of the ServerHello that the agent saw itself
  -- and the server names too, with the verdict sent and no guard tripped, if `recv_all` fills a report.
  pub inspect_packet-IsApprovedIn :
      {s : Session} {x : Option Exchange} (life : Life s x) (env : InspectEnv) (view : PacketView)
      (address : ℕ) (bytes : List ℕ) {r : Inspected}
      → inspect_packet sha512 env view address bytes s ≡ ok r
      → r.action ≡ action_send
      → view.outbound ≡ true
      → (length view.payload == 0) ≡ false
      → s.row.have_lookup_key ≡ true
      → IsApprovedIn life
  inspect_packet-IsApprovedIn life env view address bytes e a o p l =
      let h = Life-IsLife life in
      let step = Safe-ok (inspect_packet-Safe sha512 env view address bytes _ h.whole) e in
      h.approved_before (step.gated a h.ra o p l).1
