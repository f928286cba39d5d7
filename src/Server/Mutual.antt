-- ===== src/Server/Mutual.antt =====
-- agents/linux/tcpra_server_agent.c: when a client that is to attest itself is given a report.
use tlslatch.Base.{
  ℕ, ◌≡◌, refl, sym, ◌∙◌, ap, subst, not, ◌&&◌, ◌||◌, ◌/=◌, leb, same_bytes, by_test, by_option,
  returns_itself, List, Option, none, some, Bool, true, false, length, ok, Safe, returns, Safe->>=,
  Safe-attempt, Safe-branch, Safe-implies,
}
use tlslatch.Protocol.{ra_report_size, ra_window_ns}
use tlslatch.Tls.Digest.{early_client_report_key}
use tlslatch.Tls.Safety.{digest-IsKey}
use tlslatch.Csv.{Context}
use tlslatch.Csv.Report.{IsGenuine, verify_impl-Safe}
use tlslatch.Server.State.{CacheEntry, Agent, Env, entry_at}
use tlslatch.Server.Index.{find_lookup_entry}
use tlslatch.Server.Control.{
  RaStatus, ra_ok, Request, wait_for_report, deliver_entry, give_up, elapsed, is_bound,
}
use tlslatch.Server.Worker.{
  Answer, verify_early_client_report, answer_delivered, answer_waited, answer_request,
}

-- The client's report is genuine for the key of this request: of its lookup key and its nonce.
pub record IsClient (sha512 : List ℕ → Option (List ℕ))
    (sm2_verify : List ℕ → List ℕ → List ℕ → List ℕ → Bool) (context : Context) (request : Request)
    (client_report : List ℕ) : Type 0 where
  pub key : List ℕ
  pub derived : early_client_report_key sha512 request.lookup_key request.client_nonce ≡ ok key
  pub genuine : IsGenuine sm2_verify context client_report key

-- A wait that names no entry has no report to give.
record IsWaited (agent : Agent) (w : (Option RaStatus × Option CacheEntry) × Agent) : Type 0 where
  mode : w.1.mutual_ra ≡ agent.mutual_ra
  named : w.0.1 ≡ none → w.0.0 ≡ some ra_ok → ⊥

give_up-IsWaited :
    (env : Env) (started : ℕ) (agent : Agent)
    → IsWaited agent (((give_up env started agent).0, none), agent)
give_up-IsWaited env started agent =
    by_test (λ (g : Option RaStatus × Agent). IsWaited agent ((g.0, none), agent))
      (agent.stopping || leb ra_window_ns (elapsed (env.clock 3) started))
      (λ _. record { mode = refl; named = λ _ e. cc })
      λ _. record { mode = refl; named = λ _ e. cc }

wait_for_report-IsWaited :
    (env : Env) (request : Request) (started : ℕ) (agent : Agent)
    → IsWaited agent (wait_for_report env request started agent)
unfolding wait_for_report deliver_entry
wait_for_report-IsWaited env request started agent =
    by_option (IsWaited agent) (find_lookup_entry agent request.lookup_key)
      (λ _. give_up-IsWaited env started agent)
      λ slot _.
        let entry = entry_at agent slot in
        by_test (IsWaited agent) (entry.request_received && entry.ready && not entry.delivered)
          (λ _.
            by_test (IsWaited agent)
              (not (same_bytes entry.request_nonce request.client_nonce)
                || not (is_bound env entry))
              (λ _. record { mode = refl; named = λ _ e. cc })
              λ _. record { mode = refl; named = λ e _. cc })
          λ _.
            by_test (IsWaited agent) (entry.report_done_ns /= 0 && not entry.ready)
              (λ _. record { mode = refl; named = λ _ e. cc })
              λ _. give_up-IsWaited env started agent

module _ (sha512 : List ℕ → Option (List ℕ)) (context : Context)
    (sm2_verify : List ℕ → List ℕ → List ℕ → List ℕ → Bool)
    (library : context.sm2_verify ≡ some sm2_verify) (request : Request) (client_report : List ℕ)
    (size : length client_report ≡ ra_report_size) where
  -- An answer with a report, of an agent whose clients are to attest themselves, is for a genuine client.
  abbrev pub IsEntitled : Agent → Answer × Agent → Type 0
  IsEntitled agent answer =
      agent.mutual_ra ≡ true
      → answer.0.status ≡ ra_ok
      → IsClient sha512 sm2_verify context request client_report

  verify_early_client_report-IsClient :
      Safe
        (λ _. IsClient sha512 sm2_verify context request client_report)
        (verify_early_client_report sha512 context request client_report)
  unfolding verify_early_client_report early_client_report_key
  verify_early_client_report-IsClient =
      Safe->>= _ _ (returns_itself (digest-IsKey sha512 _)) λ key e.
        Safe-implies (verify_impl-Safe context client_report key size sm2_verify library)
          λ _ g. record { key = key; derived = e; genuine = g }

  answer_delivered-IsEntitled :
      (entry : CacheEntry) (agent : Agent)
      → Safe (IsEntitled agent) (answer_delivered sha512 context request client_report entry agent)
  unfolding answer_delivered
  answer_delivered-IsEntitled entry agent =
      Safe-branch _ _ _
        (λ _.
          Safe-attempt _ _ verify_early_client_report-IsClient (returns _ λ _ e. absurd (cc))
            λ _ c. returns _ λ _ _. c)
        λ plain. returns _ λ m _. absurd (let no : false ≡ true = sym plain ∙ m in cc)

  abbrev pub IsAnswered : Agent → Option Answer × Agent → Type 0
  IsAnswered agent answer = (a : Answer) → answer.0 ≡ some a → IsEntitled agent (a, answer.1)

  answer_waited-IsAnswered :
      (agent : Agent) (w : (Option RaStatus × Option CacheEntry) × Agent)
      → IsWaited agent w
      → Safe (IsAnswered agent) (answer_waited sha512 context request client_report w)
  answer_waited-IsAnswered agent ((some status, some entry), after) h =
      Safe->>= _ _ (answer_delivered-IsEntitled entry after) λ answer k. returns _ λ a e m o.
        let same : answer.0 ≡ a = cc in
        k (h.mode ∙ m) (subst (λ (x : Answer). x.status ≡ ra_ok) (sym same) o)
  answer_waited-IsAnswered agent ((some status, none), after) h = returns _ λ a e m o. absurd (
      h.named refl (
        let same : (record { status = status; entry = none }) ≡ a = cc in
        ap some (subst (λ (x : Answer). x.status ≡ ra_ok) (sym same) o)))
  answer_waited-IsAnswered agent ((none, entry), after) h = returns _ λ a e. absurd (cc)

  -- Whatever a client sends as its report of 2548 bytes, the server's agent reads inside it, and where its
  -- clients are to attest themselves it answers a request with its own report only if the client's is
  -- genuine for the key of that request: of the request's lookup key and nonce.
  pub answer_request-IsAnswered :
      (env : Env) (started : ℕ) (agent : Agent)
      → Safe
          (IsAnswered agent)
          (answer_request sha512 context env request started client_report agent)
  unfolding answer_request
  answer_request-IsAnswered env started agent =
      answer_waited-IsAnswered agent _ (wait_for_report-IsWaited env request started agent)
