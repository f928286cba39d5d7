-- ===== src/Server/Kept.antt =====
-- agents/linux/tcpra_server_agent.c: what its functions leave of the requests that are registered.
use tlslatch.Base.{
  ℕ, ◌+◌, ◌≡◌, refl, sym, ◌∙◌, List, Option, none, some, Bool, true, false, not, ◌&&◌, ◌||◌, ◌/=◌,
  leb, length, same_bytes, by_test, by_option, get_or-set-keeps,
}
use tlslatch.Protocol.{ra_window_ns}
use tlslatch.Packet.{FlowKey}
use tlslatch.Server.State.{
  CacheEntry, zero_entry, ReportJob, IndexEntry, Agent, Env, entry_at, put_entry,
}
use tlslatch.Server.Cache.{
  cache_new_slot, find_newest_report_orphan, find_newest_lookup_placeholder, find_report_generation,
}
use tlslatch.Server.Index.{find_lookup_entry, insert_lookup_index}
use tlslatch.Server.Schedule.{
  attestation_key_of, enqueue_report, queue_report, schedule_report_locked, with_key, after_enqueue,
}
use tlslatch.Server.Observe.{
  freed_entry, bind_lookup_key, new_lookup_key, after_insert, observe_lookup_key,
  is_same_observation, bind_report_key, observe_report_key, is_job_of, store_report,
}
use tlslatch.Server.Control.{
  RaStatus, Request, Verdict, elapsed, is_bound, give_up, deliver_entry, wait_for_report,
  mark_response_sent, complete_entry, record_verdict,
}

-- No request is registered in an entry; its nonce stays, and what was delivered stays delivered.
pub record IsKept (e f : CacheEntry) : Type 0 where
  pub received : f.request_received ≡ true → e.request_received ≡ true
  pub nonce : f.request_received ≡ true → f.request_nonce ≡ e.request_nonce
  pub delivered : f.request_received ≡ true → e.delivered ≡ true → f.delivered ≡ true

pub IsKept-refl : (e : CacheEntry) → IsKept e e
IsKept-refl e = record { received = λ h. h; nonce = λ _. refl; delivered = λ _ d. d }

pub IsKept-trans : (e f g : CacheEntry) → IsKept e f → IsKept f g → IsKept e g
IsKept-trans e f g h k = record {
  received = λ r. h.received (k.received r);
  nonce = λ r. k.nonce r ∙ h.nonce (k.received r);
  delivered = λ r d. k.delivered r (h.delivered (k.received r) d);
}

-- An entry without a request is kept of any.
IsKept-without : (e f : CacheEntry) → f.request_received ≡ false → IsKept e f
IsKept-without e f n = record {
  received = λ r. absurd (cc);
  nonce = λ r. absurd (cc);
  delivered = λ r d. absurd (cc);
}

abbrev pub Kept : Agent → Agent → Type 0
Kept a b = (i : ℕ) → IsKept (entry_at a i) (entry_at b i)

pub Kept-refl : (a : Agent) → Kept a a
Kept-refl a i = IsKept-refl (entry_at a i)

pub Kept-trans : (a b c : Agent) → Kept a b → Kept b c → Kept a c
Kept-trans a b c h k i = IsKept-trans _ _ _ (h i) (k i)

pub Kept-put :
    (a : Agent) (j : ℕ) (v : CacheEntry) → IsKept (entry_at a j) v → Kept a (put_entry a j v)
Kept-put a j v h =
    get_or-set-keeps (λ i e. IsKept (entry_at a i) e) a.cache j v zero_entry
      (λ i. IsKept-refl (entry_at a i)) (λ _. h)

Kept-put_after :
    (a b : Agent) (j : ℕ) (v : CacheEntry)
    → Kept a b
    → IsKept (entry_at b j) v
    → Kept a (put_entry b j v)
Kept-put_after a b j v h k = Kept-trans a b (put_entry b j v) h (Kept-put b j v k)

same_request :
    (e f : CacheEntry)
    → f.request_received ≡ e.request_received
    → f.request_nonce ≡ e.request_nonce
    → f.delivered ≡ e.delivered
    → IsKept e f
same_request e f r n d = record {
  received = λ h. sym r ∙ h;
  nonce = λ _. n;
  delivered = λ _ h. d ∙ h;
}

-- The scheduling of a report.
module _ (sha512 : List ℕ → Option (List ℕ)) (env : Env) where
  after_enqueue-Kept :
      (slot : ℕ) (agent : Agent) (sent : Bool × Agent)
      → Kept agent sent.1
      → Kept agent (after_enqueue sha512 env slot sent).1
  after_enqueue-Kept slot agent (true, next) h = h
  after_enqueue-Kept slot agent (false, next) h =
      Kept-put_after agent next slot _ h (same_request (entry_at next slot) _ refl refl refl)

  with_key-Kept :
      (slot : ℕ) (key : Option (List ℕ)) (agent : Agent) (entry : CacheEntry)
      → IsKept (entry_at agent slot) entry
      → Kept agent (with_key sha512 env slot key (agent, entry)).1
  unfolding queue_report enqueue_report
  with_key-Kept slot none agent entry k = Kept-put agent slot entry k
  with_key-Kept slot (some key) agent entry k = after_enqueue-Kept slot agent _ (
      Kept-put agent slot _
        (IsKept-trans (entry_at agent slot) entry _ k (same_request entry _ refl refl refl)))

  pub schedule-Kept :
      (slot : ℕ) (agent : Agent) → Kept agent (schedule_report_locked sha512 env slot agent).1
  unfolding schedule_report_locked
  schedule-Kept slot agent =
      by_test (λ (r : Bool × Agent). Kept agent r.1)
        ((entry_at agent slot).report_start_ns /= 0
          || not (entry_at agent slot).has_report_key
          || agent.mutual_ra && not (entry_at agent slot).request_received)
        (λ _. Kept-refl agent)
        λ _.
          by_test
            (λ (n : Agent × CacheEntry).
              Kept agent (with_key sha512 env slot (attestation_key_of sha512 n.0 n.1) n).1)
            agent.deferred
            (λ _.
              with_key-Kept slot _ (record agent { d_seq = agent.d_seq + 1 }) _
                (same_request (entry_at agent slot) _ refl refl refl))
            λ _. with_key-Kept slot _ agent _ (IsKept-refl (entry_at agent slot))

  bind_report_key-Kept :
      (report_key : List ℕ) (observed_ns cookie slot : ℕ) (entry : CacheEntry) (agent : Agent)
      → IsKept (entry_at agent slot) entry
      → Kept agent (bind_report_key sha512 env report_key observed_ns cookie slot entry agent).1
  unfolding bind_report_key
  bind_report_key-Kept report_key observed_ns cookie slot entry agent k =
      let bound : CacheEntry = record entry {
        has_report_key = true;
        socket_cookie = cookie;
        report_key = report_key;
        observed_ns = observed_ns;
      } in
      Kept-trans agent (put_entry agent slot bound)
        (schedule_report_locked sha512 env slot (put_entry agent slot bound)).1
        (Kept-put agent slot bound (
          IsKept-trans (entry_at agent slot) entry bound k
            (same_request entry bound refl refl refl)))
        (schedule-Kept slot (put_entry agent slot bound))

  pub observe_report_key-Kept :
      (flow : FlowKey) (report_key : List ℕ) (observed_ns cookie : ℕ) (agent : Agent)
      → Kept agent (observe_report_key sha512 env flow report_key observed_ns cookie agent).1
  unfolding observe_report_key
  observe_report_key-Kept flow report_key observed_ns cookie agent =
      by_option (λ (r : Bool × Agent). Kept agent r.1)
        (find_report_generation agent.cache flow report_key cookie)
        (λ _.
          by_option (λ (r : Bool × Agent). Kept agent r.1)
            (find_newest_lookup_placeholder agent.cache flow cookie)
            (λ _.
              by_option (λ (r : Bool × Agent). Kept agent r.1) (cache_new_slot agent.cache flow)
                (λ _. Kept-refl agent)
                λ slot _.
                  bind_report_key-Kept report_key observed_ns cookie slot _ agent
                    (IsKept-without (entry_at agent slot) _ refl))
            λ slot _.
              bind_report_key-Kept report_key observed_ns cookie slot _ agent
                (same_request (entry_at agent slot) _ refl refl refl))
        λ slot _. Kept-refl agent

-- The key of a ClientHello.
after_insert-Kept :
    (slot : ℕ) (agent next : Agent) (inserted : Bool × List IndexEntry)
    → Kept agent next
    → Kept agent (after_insert slot next inserted).1
after_insert-Kept slot agent next (true, index) h = h
after_insert-Kept slot agent next (false, index) h =
    Kept-put_after agent next slot freed_entry h
      (IsKept-without (entry_at next slot) freed_entry refl)

bind_lookup_key-Kept :
    (flow : FlowKey) (lookup_key : List ℕ) (observed_ns cookie slot : ℕ) (entry : CacheEntry)
    (agent : Agent)
    → IsKept (entry_at agent slot) entry
    → Kept agent (bind_lookup_key flow lookup_key observed_ns cookie slot entry agent).1
unfolding bind_lookup_key
bind_lookup_key-Kept flow lookup_key observed_ns cookie slot entry agent k =
    after_insert-Kept slot agent _ (insert_lookup_index agent.lookup_index lookup_key slot) (
      Kept-put agent slot _
        (IsKept-trans (entry_at agent slot) entry _ k (same_request entry _ refl refl refl)))

pub observe_lookup_key-Kept :
    (flow : FlowKey) (lookup_key : List ℕ) (observed_ns cookie : ℕ) (agent : Agent)
    → Kept agent (observe_lookup_key flow lookup_key observed_ns cookie agent).1
unfolding observe_lookup_key new_lookup_key
observe_lookup_key-Kept flow lookup_key observed_ns cookie agent =
    by_option P (find_lookup_entry agent lookup_key)
      (λ _.
        by_option P (find_newest_report_orphan agent.cache flow cookie)
          (λ _.
            by_option P (cache_new_slot agent.cache flow) (λ _. Kept-refl agent)
              λ slot _.
                bind_lookup_key-Kept flow lookup_key observed_ns cookie slot _ agent
                  (IsKept-without (entry_at agent slot) _ refl))
          λ slot _.
            bind_lookup_key-Kept flow lookup_key observed_ns cookie slot _ agent
              (IsKept-refl (entry_at agent slot)))
      λ slot _.
        by_test P (entry_at agent slot).lookup_observed
          (λ _.
            by_test P (is_same_observation flow cookie (entry_at agent slot)) (λ _. Kept-refl agent)
              λ _. Kept-refl agent)
          λ _.
            bind_lookup_key-Kept flow lookup_key observed_ns cookie slot _ agent
              (IsKept-refl (entry_at agent slot))
  where
    P : Bool × Agent → Type 0
    P r = Kept agent r.1

pub store_report-Kept :
    (job : ReportJob) (report : Option (List ℕ)) (finished : ℕ) (agent : Agent)
    → Kept agent (store_report job report finished agent)
unfolding store_report
store_report-Kept job report finished agent =
    by_test (Kept agent) (is_job_of job (entry_at agent job.slot))
      (λ _.
        by_option (Kept agent) report
          (λ _. Kept-put agent job.slot _ (same_request (entry_at agent job.slot) _ refl refl refl))
          λ _ _.
            Kept-put agent job.slot _ (same_request (entry_at agent job.slot) _ refl refl refl))
      λ _. Kept-refl agent

-- A request's answer and verdict.
pub mark_response_sent-Kept :
    (env : Env) (request : Request) (agent : Agent)
    → Kept agent (mark_response_sent env request agent)
unfolding mark_response_sent
mark_response_sent-Kept env request agent =
    by_option (Kept agent) (find_lookup_entry agent request.lookup_key) (λ _. Kept-refl agent)
      λ slot _.
        by_test (Kept agent) (entry_at agent slot).delivered
          (λ _. Kept-put agent slot _ (same_request (entry_at agent slot) _ refl refl refl))
          λ _. Kept-refl agent

pub record_verdict-Kept :
    (env : Env) (request : Request) (verdict : Verdict) (client_report_verified : Bool)
    (agent : Agent)
    → Kept agent (record_verdict env request verdict client_report_verified agent)
unfolding record_verdict complete_entry
record_verdict-Kept env request verdict client_report_verified agent =
    by_option (Kept agent) (find_lookup_entry agent request.lookup_key) (λ _. Kept-refl agent)
      λ slot _.
        by_test (Kept agent)
          (not (entry_at agent slot).delivered
            || not (same_bytes (entry_at agent slot).lookup_key verdict.lookup_key)
            || leb agent.expected_sessions (length agent.records))
          (λ _. Kept-refl agent)
          λ _. Kept-put agent slot freed_entry (IsKept-without (entry_at agent slot) _ refl)

give_up-Kept : (env : Env) (started : ℕ) (agent : Agent) → Kept agent (give_up env started agent).1
give_up-Kept env started agent =
    by_test (λ (r : Option RaStatus × Agent). Kept agent r.1)
      (agent.stopping || leb ra_window_ns (elapsed (env.clock 3) started)) (λ _. Kept-refl agent)
      λ _. Kept-refl agent

pub wait_for_report-Kept :
    (env : Env) (request : Request) (started : ℕ) (agent : Agent)
    → Kept agent (wait_for_report env request started agent).1
unfolding wait_for_report deliver_entry
wait_for_report-Kept env request started agent =
    by_option P (find_lookup_entry agent request.lookup_key) (λ _. Kept-refl agent)
      λ slot _.
        let entry = entry_at agent slot in
        by_test P (entry.request_received && entry.ready && not entry.delivered)
          (λ _.
            by_test P
              (not (same_bytes entry.request_nonce request.client_nonce)
                || not (is_bound env entry))
              (λ _. Kept-refl agent)
              λ _.
                Kept-put agent slot _
                  (record { received = λ h. h; nonce = λ _. refl; delivered = λ _ _. refl }))
          λ _.
            by_test P (entry.report_done_ns /= 0 && not entry.ready) (λ _. Kept-refl agent)
              λ _. Kept-refl agent
  where
    P : (Option RaStatus × Option CacheEntry) × Agent → Type 0
    P r = Kept agent r.1
