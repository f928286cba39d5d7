-- ===== src/Server/Serving.antt =====
-- agents/linux/tcpra_server_agent.c: runs of the server's agent on its cache, and what was registered and
-- delivered in them.
pub mod Register
pub mod Answered
use tlslatch.Base.{
  ℕ, ◌<◌, ◌≡◌, ◌≢◌, ◌⊎◌, inl, inr, refl, sym, ◌∙◌, ap, subst, List, Option, none, some, Bool, true,
  false, not, ◌&&◌, ◌||◌, leb, arith, first_true, second_true, not-true, not-false, by_test,
  by_option, get_or-set-keeps, get_or-set-either,
}
use tlslatch.Protocol.{ra_window_ns}
use tlslatch.Packet.{FlowKey}
use tlslatch.Server.State.{CacheEntry, zero_entry, ReportJob, Agent, Env, entry_at, put_entry}
use tlslatch.Server.Index.{find_lookup_entry}
use tlslatch.Server.Schedule.{schedule_report_locked}
use tlslatch.Server.Observe.{observe_lookup_key, observe_report_key, take_job, store_report}
use tlslatch.Server.Control.{
  RaStatus, ra_ok, Request, Verdict, elapsed, is_cookie, is_bound, give_up, scheduled,
  register_entry, register_request, wait_for_report, mark_response_sent, record_verdict,
}
use tlslatch.Server.Kept.{
  IsKept, IsKept-refl, IsKept-trans, schedule-Kept, observe_report_key-Kept,
  observe_lookup_key-Kept, store_report-Kept, mark_response_sent-Kept, record_verdict-Kept,
  wait_for_report-Kept,
}
use tlslatch.Server.Delivery.{wait_for_report-IsDelivery}

-- The ClientHello is less than 30 seconds old, and the kernel names the socket it was seen on.
pub record IsCurrent (env : Env) (entry : CacheEntry) : Type 0 where
  pub in_time : elapsed (env.clock 0) entry.lookup_observed_ns < ra_window_ns
  pub on_socket : env.socket_cookie entry.flow ≡ some entry.socket_cookie

-- A round of `register_request` that registers its request in the entry at `slot`: the index names it for
-- the key, it was observed and had no request.
pub record IsRegistering (env : Env) (request : Request) (agent : Agent) (slot : ℕ) : Type 0 where
  pub found : find_lookup_entry agent request.lookup_key ≡ some slot
  pub observed : (entry_at agent slot).lookup_observed ≡ true
  pub first : (entry_at agent slot).request_received ≡ false
  pub current : IsCurrent env (entry_at agent slot)

module _ (sha512 : List ℕ → Option (List ℕ)) where
  -- An agent without requests, and what its threads do from there on, each under the cache's mutex.
  pub data Run : Agent → Type 0 where
    starts : (agent : Agent) → ((i : ℕ) → (entry_at agent i).request_received ≡ false) → Run agent
    client_hello :
        (flow : FlowKey) (key : List ℕ) (observed_ns cookie : ℕ) (agent : Agent)
        → Run agent
        → Run (observe_lookup_key flow key observed_ns cookie agent).1
    server_hello :
        (env : Env) (flow : FlowKey) (key : List ℕ) (observed_ns cookie : ℕ) (agent : Agent)
        → Run agent
        → Run (observe_report_key sha512 env flow key observed_ns cookie agent).1
    job_taken : (agent : Agent) → Run agent → Run (take_job agent).1
    stored :
        (job : ReportJob) (report : Option (List ℕ)) (finished : ℕ) (agent : Agent)
        → Run agent
        → Run (store_report job report finished agent)
    requested :
        (env : Env) (request : Request) (started : ℕ) (agent : Agent)
        → Run agent
        → Run (register_request sha512 env request started agent).1
    waited :
        (env : Env) (request : Request) (started : ℕ) (agent : Agent)
        → Run agent
        → Run (wait_for_report env request started agent).1
    response_sent :
        (env : Env) (request : Request) (agent : Agent)
        → Run agent
        → Run (mark_response_sent env request agent)
    verdict_taken :
        (env : Env) (request : Request) (verdict : Verdict) (verified : Bool) (agent : Agent)
        → Run agent
        → Run (record_verdict env request verdict verified agent)

  -- A request with the nonce was registered in the entry at `slot`.
  pub IsRegisteredIn : {agent : Agent} → Run agent → ℕ → List ℕ → Type 0
  IsRegisteredIn (starts agent h) slot nonce = ⊥
  IsRegisteredIn (client_hello flow key observed_ns cookie agent run) slot nonce =
      IsRegisteredIn run slot nonce
  IsRegisteredIn (server_hello env flow key observed_ns cookie agent run) slot nonce =
      IsRegisteredIn run slot nonce
  IsRegisteredIn (job_taken agent run) slot nonce = IsRegisteredIn run slot nonce
  IsRegisteredIn (stored job report finished agent run) slot nonce = IsRegisteredIn run slot nonce
  IsRegisteredIn (requested env request started agent run) slot nonce =
      (IsRegistering env request agent slot × (nonce ≡ request.client_nonce))
      ⊎ IsRegisteredIn run slot nonce
  IsRegisteredIn (waited env request started agent run) slot nonce = IsRegisteredIn run slot nonce
  IsRegisteredIn (response_sent env request agent run) slot nonce = IsRegisteredIn run slot nonce
  IsRegisteredIn (verdict_taken env request verdict verified agent run) slot nonce =
      IsRegisteredIn run slot nonce

  -- The report of the entry at `slot` was delivered, and no request was registered in it since.
  unfoldable pub IsDeliveredIn : {agent : Agent} → Run agent → ℕ → Type 0
  IsDeliveredIn (starts agent h) slot = ⊥
  IsDeliveredIn (client_hello flow key observed_ns cookie agent run) slot = IsDeliveredIn run slot
  IsDeliveredIn (server_hello env flow key observed_ns cookie agent run) slot =
      IsDeliveredIn run slot
  IsDeliveredIn (job_taken agent run) slot = IsDeliveredIn run slot
  IsDeliveredIn (stored job report finished agent run) slot = IsDeliveredIn run slot
  IsDeliveredIn (requested env request started agent run) slot =
      (IsRegistering env request agent slot → ⊥) × IsDeliveredIn run slot
  IsDeliveredIn (waited env request started agent run) slot =
      (((wait_for_report env request started agent).0.0 ≡ some ra_ok)
        × (find_lookup_entry agent request.lookup_key ≡ some slot))
      ⊎ IsDeliveredIn run slot
  IsDeliveredIn (response_sent env request agent run) slot = IsDeliveredIn run slot
  IsDeliveredIn (verdict_taken env request verdict verified agent run) slot = IsDeliveredIn run slot
