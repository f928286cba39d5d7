-- ===== src/Server/Serving/Register.antt =====
-- agents/linux/tcpra_server_agent.c: what `register_request` leaves of the entries.
use tlslatch.Base.{
  ℕ, ◌≡◌, ◌⊎◌, inl, inr, refl, ◌∙◌, ap, List, Option, none, some, Bool, true, false, not, ◌&&◌,
  ◌||◌, leb, arith, first_true, second_true, not-true, not-false, by_test, by_option,
  get_or-set-keeps,
}
use tlslatch.Protocol.{ra_window_ns}
use tlslatch.Server.State.{CacheEntry, zero_entry, Agent, Env, entry_at, put_entry}
use tlslatch.Server.Index.{find_lookup_entry}
use tlslatch.Server.Schedule.{schedule_report_locked}
use tlslatch.Server.Control.{
  RaStatus, Request, elapsed, is_cookie, is_bound, give_up, scheduled, register_entry,
  register_request,
}
use tlslatch.Server.Kept.{IsKept, IsKept-refl, IsKept-trans, schedule-Kept}
use tlslatch.Server.Serving.{IsCurrent, IsRegistering}

pub is_bound-IsCurrent :
    (env : Env) (entry : CacheEntry) → is_bound env entry ≡ true → IsCurrent env entry
is_bound-IsCurrent env entry e = record {
  in_time =
      let fresh =
        first_true (not (leb ra_window_ns (elapsed (env.clock 0) entry.lookup_observed_ns))) _ e in
      ground arith;
  on_socket = named (env.socket_cookie entry.flow) entry.socket_cookie (second_true _ _ e);
}
  where
    named : (o : Option ℕ) (bound : ℕ) → is_cookie o bound ≡ true → o ≡ some bound
    named none bound h = absurd (cc)
    named (some cookie) bound h = let same : cookie ≡ bound = ground arith in ap some same

module _ (sha512 : List ℕ → Option (List ℕ)) where
  -- A round of `register_request` keeps an entry, or registers its request there.
  module _ (env : Env) (request : Request) (started : ℕ) (agent : Agent) where
    abbrev pub Step : ℕ → CacheEntry → Type 0
    Step i e =
        IsKept (entry_at agent i) e
        ⊎ (IsRegistering env request agent i
            × (e.request_received ≡ true → e.request_nonce ≡ request.client_nonce))

    abbrev pub Steps : Agent → Type 0
    Steps after = (i : ℕ) → Step i (entry_at after i)

    Step-IsKept : (i : ℕ) (e f : CacheEntry) → Step i e → IsKept e f → Step i f
    Step-IsKept i e f (inl k) h = inl (IsKept-trans (entry_at agent i) e f k h)
    Step-IsKept i e f (inr (g, n)) h = inr (g, λ r. h.nonce r ∙ n (h.received r))

    scheduled-Steps : (r : Bool × Agent) → Steps r.1 → Steps (scheduled r).1
    scheduled-Steps (true, after) h = h
    scheduled-Steps (false, after) h = h

    unchanged : Steps agent
    unchanged i = inl (IsKept-refl (entry_at agent i))

    give_up-Steps : Steps (give_up env started agent).1
    give_up-Steps =
        by_test (λ (r : Option RaStatus × Agent). Steps r.1)
          (agent.stopping || leb ra_window_ns (elapsed (env.clock 3) started)) (λ _. unchanged)
          λ _. unchanged

    registers :
        (slot : ℕ)
        → IsRegistering env request agent slot
        → Steps
            (scheduled (
              schedule_report_locked sha512 env slot (
                put_entry agent slot (record (entry_at agent slot) {
                  request_received = true;
                  request_ns = started;
                  request_nonce = request.client_nonce;
                })))).1
    registers slot g =
        let v : CacheEntry = record (entry_at agent slot) {
          request_received = true;
          request_ns = started;
          request_nonce = request.client_nonce;
        } in
        scheduled-Steps (schedule_report_locked sha512 env slot (put_entry agent slot v)) λ i.
          Step-IsKept i (entry_at (put_entry agent slot v) i) _
            (get_or-set-keeps Step agent.cache slot v zero_entry unchanged (λ _. inr (g, λ _. refl))
              i)
            (schedule-Kept sha512 env slot (put_entry agent slot v) i)

    pub register_request-Steps : Steps (register_request sha512 env request started agent).1
    unfolding register_request register_entry
    register_request-Steps =
        by_option P (find_lookup_entry agent request.lookup_key) (λ _. give_up-Steps)
          λ slot e.
            let entry = entry_at agent slot in
            by_test P (entry.lookup_observed && not entry.request_received)
              (λ w.
                by_test P (not (is_bound env entry)) (λ _. unchanged)
                  λ b. registers slot (record {
                    found = e;
                    observed = first_true _ _ w;
                    first = not-true _ (second_true entry.lookup_observed _ w);
                    current = is_bound-IsCurrent env entry (not-false _ b);
                  }))
              λ _. by_test P entry.request_received (λ _. unchanged) λ _. give_up-Steps
      where
        P : Option RaStatus × Agent → Type 0
        P r = Steps r.1
