-- ===== src/Server/Serving/Answered.antt =====
-- agents/linux/tcpra_server_agent.c: what a run of the server's agent delivers a report on, and how often.
use tlslatch.Base.{
  ℕ, ◌≡◌, ◌≢◌, ◌⊎◌, inl, inr, refl, sym, ◌∙◌, subst, List, Option, some, true, false,
  get_or-set-either,
}
use tlslatch.Server.State.{CacheEntry, zero_entry, Agent, Env, entry_at, put_entry}
use tlslatch.Server.Index.{find_lookup_entry}
use tlslatch.Server.Observe.{take_job}
use tlslatch.Server.Control.{RaStatus, ra_ok, Request, wait_for_report}
use tlslatch.Server.Kept.{
  IsKept, observe_report_key-Kept, observe_lookup_key-Kept, store_report-Kept,
  mark_response_sent-Kept, record_verdict-Kept, wait_for_report-Kept,
}
use tlslatch.Server.Delivery.{wait_for_report-IsDelivery}
use tlslatch.Server.Serving.{
  IsCurrent, IsRegistering, Run, starts, client_hello, server_hello, job_taken, stored, requested,
  waited, response_sent, verdict_taken, IsRegisteredIn, IsDeliveredIn,
}
use tlslatch.Server.Serving.Register.{is_bound-IsCurrent, Step, register_request-Steps}

module _ (sha512 : List ℕ → Option (List ℕ)) where
  -- A step that keeps each entry keeps what is known of the registrations and the deliveries.
  abbrev Received : {agent : Agent} → Run sha512 agent → CacheEntry → ℕ → Type 0
  Received run e i = e.request_received ≡ true → IsRegisteredIn sha512 run i e.request_nonce

  abbrev Delivered : {agent : Agent} → Run sha512 agent → CacheEntry → ℕ → Type 0
  Delivered run e i = IsDeliveredIn sha512 run i → e.request_received ≡ true → e.delivered ≡ true

  Received-kept :
      {agent : Agent} (run : Run sha512 agent) (i : ℕ) (e f : CacheEntry)
      → IsKept e f
      → Received run e i
      → Received run f i
  Received-kept run i e f k h r =
      subst (IsRegisteredIn sha512 run i) (sym (k.nonce r)) (h (k.received r))

  Delivered-kept :
      {agent : Agent} (run : Run sha512 agent) (i : ℕ) (e f : CacheEntry)
      → IsKept e f
      → Delivered run e i
      → Delivered run f i
  Delivered-kept run i e f k h d r = k.delivered r (h d (k.received r))

  Received-registered :
      (env : Env) (request : Request) (started : ℕ) {agent : Agent} (run : Run sha512 agent) (i : ℕ)
      (f : CacheEntry)
      → Step sha512 env request started agent i f
      → Received run (entry_at agent i) i
      → f.request_received ≡ true
      → (IsRegistering env request agent i × (f.request_nonce ≡ request.client_nonce))
        ⊎ IsRegisteredIn sha512 run i f.request_nonce
  Received-registered env request started {agent} run i f (inl k) h r =
      inr (Received-kept run i (entry_at agent i) f k h r)
  Received-registered env request started run i f (inr (g, n)) h r = inl (g, n r)

  Delivered-registered :
      (env : Env) (request : Request) (started : ℕ) {agent : Agent} (run : Run sha512 agent) (i : ℕ)
      (f : CacheEntry)
      → Step sha512 env request started agent i f
      → Delivered run (entry_at agent i) i
      → (IsRegistering env request agent i → ⊥) × IsDeliveredIn sha512 run i
      → f.request_received ≡ true
      → f.delivered ≡ true
  Delivered-registered env request started {agent} run i f (inl k) h d r =
      Delivered-kept run i (entry_at agent i) f k h d.1 r
  Delivered-registered env request started run i f (inr (g, n)) h d r = absurd (d.0 g)

  Run-Received :
      {agent : Agent} (run : Run sha512 agent) (i : ℕ) → Received run (entry_at agent i) i
  unfolding IsRegisteredIn take_job
  Run-Received (starts agent n) i = λ r. absurd (let no = n i in cc)
  Run-Received (client_hello flow key observed_ns cookie agent run) i =
      Received-kept run i (entry_at agent i) _
        (observe_lookup_key-Kept flow key observed_ns cookie agent i) (Run-Received run i)
  Run-Received (server_hello env flow key observed_ns cookie agent run) i =
      Received-kept run i (entry_at agent i) _
        (observe_report_key-Kept sha512 env flow key observed_ns cookie agent i)
        (Run-Received run i)
  Run-Received (job_taken agent run) i = Run-Received run i
  Run-Received (stored job report finished agent run) i =
      Received-kept run i (entry_at agent i) _ (store_report-Kept job report finished agent i)
        (Run-Received run i)
  Run-Received (requested env request started agent run) i =
      Received-registered env request started run i _
        (register_request-Steps sha512 env request started agent i) (Run-Received run i)
  Run-Received (waited env request started agent run) i =
      Received-kept run i (entry_at agent i) _ (wait_for_report-Kept env request started agent i)
        (Run-Received run i)
  Run-Received (response_sent env request agent run) i =
      Received-kept run i (entry_at agent i) _ (mark_response_sent-Kept env request agent i)
        (Run-Received run i)
  Run-Received (verdict_taken env request verdict verified agent run) i =
      Received-kept run i (entry_at agent i) _
        (record_verdict-Kept env request verdict verified agent i) (Run-Received run i)

  -- What a delivery leaves.
  delivery-Delivered :
      (env : Env) (request : Request) (started : ℕ) (agent : Agent) (i : ℕ)
      → (wait_for_report env request started agent).0.0 ≡ some ra_ok
      → find_lookup_entry agent request.lookup_key ≡ some i
      → (entry_at (wait_for_report env request started agent).1 i).request_received ≡ true
      → (entry_at (wait_for_report env request started agent).1 i).delivered ≡ true
  delivery-Delivered env request started agent i h e =
      let d = wait_for_report-IsDelivery env request started agent h in
      let same : d.slot ≡ i = let f = d.found in cc in
      let P : CacheEntry → Type 0 = λ e. e.request_received ≡ true → e.delivered ≡ true in
      subst (λ a. P (entry_at a i)) (sym d.marked)
        (subst
          (λ j. P (entry_at (put_entry agent j (record (entry_at agent j) { delivered = true })) i))
          (sym same)
          (get_or-set-either P agent.cache i (record (entry_at agent i) { delivered = true })
            zero_entry (λ _. refl) (λ r. absurd (cc))))

  Delivered-waited :
      (env : Env) (request : Request) (started : ℕ) {agent : Agent} (run : Run sha512 agent) (i : ℕ)
      → Delivered run (entry_at agent i) i
      → (((wait_for_report env request started agent).0.0 ≡ some ra_ok)
          × (find_lookup_entry agent request.lookup_key ≡ some i))
        ⊎ IsDeliveredIn sha512 run i
      → (entry_at (wait_for_report env request started agent).1 i).request_received ≡ true
      → (entry_at (wait_for_report env request started agent).1 i).delivered ≡ true
  Delivered-waited env request started {agent} run i h (inl (ok, found)) =
      delivery-Delivered env request started agent i ok found
  Delivered-waited env request started {agent} run i h (inr d) =
      Delivered-kept run i (entry_at agent i) _ (wait_for_report-Kept env request started agent i) h
        d

  Run-Delivered :
      {agent : Agent} (run : Run sha512 agent) (i : ℕ) → Delivered run (entry_at agent i) i
  unfolding IsDeliveredIn take_job
  Run-Delivered (starts agent n) i = λ d r. absurd d
  Run-Delivered (client_hello flow key observed_ns cookie agent run) i =
      Delivered-kept run i (entry_at agent i) _
        (observe_lookup_key-Kept flow key observed_ns cookie agent i) (Run-Delivered run i)
  Run-Delivered (server_hello env flow key observed_ns cookie agent run) i =
      Delivered-kept run i (entry_at agent i) _
        (observe_report_key-Kept sha512 env flow key observed_ns cookie agent i)
        (Run-Delivered run i)
  Run-Delivered (job_taken agent run) i = Run-Delivered run i
  Run-Delivered (stored job report finished agent run) i =
      Delivered-kept run i (entry_at agent i) _ (store_report-Kept job report finished agent i)
        (Run-Delivered run i)
  Run-Delivered (requested env request started agent run) i =
      Delivered-registered env request started run i _
        (register_request-Steps sha512 env request started agent i) (Run-Delivered run i)
  Run-Delivered (waited env request started agent run) i =
      Delivered-waited env request started run i (Run-Delivered run i)
  Run-Delivered (response_sent env request agent run) i =
      Delivered-kept run i (entry_at agent i) _ (mark_response_sent-Kept env request agent i)
        (Run-Delivered run i)
  Run-Delivered (verdict_taken env request verdict verified agent run) i =
      Delivered-kept run i (entry_at agent i) _
        (record_verdict-Kept env request verdict verified agent i) (Run-Delivered run i)

  -- In every run of the agent, no round of `wait_for_report` answers `RA_OK` for the entry that the index
  -- names, whoever asks, if a report of that entry was delivered before and no request was registered in
  -- it since: a registered request is answered with a report at most once.
  pub wait_for_report-once :
      {agent : Agent} (run : Run sha512 agent) (env : Env) (request : Request) (started slot : ℕ)
      → find_lookup_entry agent request.lookup_key ≡ some slot
      → IsDeliveredIn sha512 run slot
      → (wait_for_report env request started agent).0.0 ≢ some ra_ok
  wait_for_report-once {agent} run env request started slot e d h =
      let k = wait_for_report-IsDelivery env request started agent h in
      let same : k.slot ≡ slot = let f = k.found in cc in
      let before : (entry_at agent slot).delivered ≡ false =
        subst (λ j. (entry_at agent j).delivered ≡ false) same k.first in
      let after =
        Run-Delivered run slot d
          (subst (λ j. (entry_at agent j).request_received ≡ true) same k.registered) in
      let no : false ≡ true = sym before ∙ after in cc

  -- The report that is delivered, and what it is delivered on.
  pub record IsEntitled {agent : Agent} (run : Run sha512 agent) (env : Env) (request : Request)
      (answer : (Option RaStatus × Option CacheEntry) × Agent) : Type 0 where
    pub slot : ℕ
    pub found : find_lookup_entry agent request.lookup_key ≡ some slot
    pub registered : IsRegisteredIn sha512 run slot request.client_nonce
    pub ready : (entry_at agent slot).ready ≡ true
    pub current : IsCurrent env (entry_at agent slot)
    pub snapshot : answer.0.1 ≡ some (record (entry_at agent slot) { delivered = true })

  -- In every run of the agent, where a round of `wait_for_report` answers `RA_OK`, `register_request` has
  -- registered a request with the same nonce in the entry that the index names for the key, when that
  -- entry's ClientHello was observed, less than 30 seconds old and on the socket that the kernel named,
  -- and had no other request. The ClientHello still is less than 30 seconds old and on the socket that the
  -- kernel names, the report is ready, and the answer is that entry.
  pub wait_for_report-IsEntitled :
      {agent : Agent} (run : Run sha512 agent) (env : Env) (request : Request) (started : ℕ)
      → (wait_for_report env request started agent).0.0 ≡ some ra_ok
      → IsEntitled run env request (wait_for_report env request started agent)
  wait_for_report-IsEntitled {agent} run env request started h =
      let k = wait_for_report-IsDelivery env request started agent h in
      record {
        slot = k.slot;
        found = k.found;
        registered =
            subst (IsRegisteredIn sha512 run k.slot) k.same_nonce
              (Run-Received run k.slot k.registered);
        ready = k.ready;
        current = is_bound-IsCurrent env (entry_at agent k.slot) k.bound;
        snapshot = k.snapshot;
      }
