-- ===== src/Windows/Run/Approval.antt =====
-- agents/windows/tcpra_agent_c.c: data of a client is sent on a verified report only.
use tlslatch.Base.{
  first_true, second_true, ℕ, ◌≡◌, refl, subst, List, [], ◌∷◌, Bool, true, false, length, ◌&&◌,
  same_bytes, same_bytes_iff, Safe, returns, Safe-attempt, by_test,
}
use tlslatch.Protocol.{ra_report_size}
use tlslatch.Windows.{Message, hello_timeout, Session}
use tlslatch.Windows.Genuine.{IsGenuine, verify_report-Safe}
use tlslatch.Windows.Report.{Trust}
use tlslatch.Windows.Control.{
  Exchange, refused, answered, FinishEnv, Finished, conclude, refuse, verified_row, reason,
  verify_answer, finish_request,
}
use tlslatch.Windows.Bounds.Session.{IsSession, Kept, changed}
use tlslatch.Windows.Run.Decision.{decide-Decided}

module _ (sm2 : List ℕ → List ℕ → List ℕ → List ℕ → List ℕ → Bool) (trust : Trust) where
  -- The report is genuine for the key of the ServerHello that the agent itself saw, which the server
  -- names too; the verdict was sent, and no guard was tripped.
  pub data IsApproved (env : FinishEnv) (s : Session) : Exchange → Type 0 where
    approved :
        (lookup nonce report : List ℕ)
        → s.row.have_local_serverhello_key ≡ true
        → IsGenuine sm2 trust report s.row.local_serverhello_key
        → env.verdict_sent ≡ true
        → env.decision.is_tripped ≡ false
        → IsApproved env s (answered lookup nonce s.row.local_serverhello_key report)

  -- A report has its size: `recv_all` fills the whole array.
  pub data IsSized : Exchange → Type 0 where
    unanswered : (message : Message) → IsSized (refused message)
    sized :
        (lookup nonce key report : List ℕ)
        → length report ≡ ra_report_size
        → IsSized (answered lookup nonce key report)

  pub record IsConcluded (env : FinishEnv) (s : Session) (x : Exchange) (f : Finished)
      : Type 0 where
    pub whole : IsSession f.session
    pub ra : f.session.row.ra ≡ s.row.ra
    pub approved_by : f.session.allowed ≡ true → IsApproved env s x

  refuse-IsConcluded :
      (env : FinishEnv) (message : Message) (s : Session) (x : Exchange)
      → IsSession s
      → IsConcluded env s x (refuse env message s)
  refuse-IsConcluded env message s x h =
      let d = decide-Decided env.decision false (message ∷ []) s h in
      record { whole = d.whole; ra = d.ra; approved_by = λ e. absurd (never (d.opened e).0) }
    where
      never : false ≡ true → ⊥
      never e = cc

  conclude-IsConcluded :
      (env : FinishEnv) (lookup nonce : List ℕ) (matches verified : Bool) (s : Session)
      (x : Exchange)
      → IsSession s
      → (verified ≡ true
          → env.verdict_sent ≡ true
          → env.decision.is_tripped ≡ false
          → IsApproved env s x)
      → IsConcluded env s x (conclude env lookup nonce matches verified s)
  unfolding conclude
  conclude-IsConcluded env lookup nonce matches verified s x h k =
      let after = record s { row = verified_row env matches verified s.row } in
      let kept : Kept s after = changed s after refl refl refl refl refl refl refl h in
      let d =
        decide-Decided env.decision (verified && env.verdict_sent)
          (reason matches verified env.verdict_sent) after kept.whole in
      record {
        whole = d.whole;
        ra = d.ra;
        approved_by = λ e. let o = d.opened e in k (first_true _ _ o.0) (second_true _ _ o.0) o.1;
      }

  verify_answer-IsConcluded :
      (env : FinishEnv) (lookup nonce key report : List ℕ) (s : Session)
      → length report ≡ ra_report_size
      → s.row.have_local_serverhello_key ≡ true
      → IsSession s
      → Safe
          (IsConcluded env s (answered lookup nonce key report))
          (verify_answer sm2 trust env lookup nonce key report s)
  unfolding verify_answer
  verify_answer-IsConcluded env lookup nonce key report s size known h =
      by_test (Safe (IsConcluded env s (answered lookup nonce key report)))
        (same_bytes s.row.local_serverhello_key key)
        (λ m.
          Safe-attempt _ _ (verify_report-Safe sm2 report size trust s.row.local_serverhello_key)
            (returns _ (conclude-IsConcluded env lookup nonce true false s _ h (λ e. absurd (cc))))
            λ _ g. returns _ (
              conclude-IsConcluded env lookup nonce true true s _ h λ _ sent calm.
                subst (λ k. IsApproved env s (answered lookup nonce k report))
                  ((same_bytes_iff _ _).0 m) (approved lookup nonce report known g sent calm)))
        λ _. returns _ (conclude-IsConcluded env lookup nonce false false s _ h (λ e. absurd (cc)))

  pub finish_request-IsConcluded :
      (env : FinishEnv) (x : Exchange) (s : Session)
      → IsSized x
      → IsSession s
      → Safe (IsConcluded env s x) (finish_request sm2 trust env x s)
  unfolding finish_request
  finish_request-IsConcluded env (refused message) s z h =
      returns _ (refuse-IsConcluded env message s _ h)
  finish_request-IsConcluded env (answered lookup nonce key report) s (sized _ _ _ _ z) h =
      by_test (Safe (IsConcluded env s (answered lookup nonce key report)))
        s.row.have_local_serverhello_key
        (λ known. verify_answer-IsConcluded env lookup nonce key report s z known h)
        λ _. returns _ (refuse-IsConcluded env hello_timeout s _ h)
