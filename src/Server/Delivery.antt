-- ===== src/Server/Delivery.antt =====
-- What agents/linux/tcpra_server_agent.c delivers a report on, and how often.
use tlslatch.Base.{
  ℕ, Option, some, true, false, not, ◌&&◌, ◌||◌, ◌/=◌, leb, ◌≡◌, ◌≢◌, refl, arith, same_bytes,
  same_bytes_iff, by_test, by_option, not-false, not-true,
}
use tlslatch.Protocol.{ra_window_ns}
use tlslatch.Server.State.{CacheEntry, Agent, Env, entry_at, put_entry}
use tlslatch.Server.Index.{find_lookup_entry}
use tlslatch.Server.Control.{
  RaStatus, ra_ok, Request, elapsed, is_bound, give_up, deliver_entry, wait_for_report,
}

-- What holds where a report is delivered: the entry is the one that the index names for the key, its
-- report is ready, and the request is the one that was registered, in the window and on the socket.
pub record IsDelivery (env : Env) (request : Request) (agent : Agent)
    (r : (Option RaStatus × Option CacheEntry) × Agent) : Type 0 where
  pub slot : ℕ
  pub found : find_lookup_entry agent request.lookup_key ≡ some slot
  pub registered : (entry_at agent slot).request_received ≡ true
  pub ready : (entry_at agent slot).ready ≡ true
  pub first : (entry_at agent slot).delivered ≡ false
  pub same_nonce : (entry_at agent slot).request_nonce ≡ request.client_nonce
  pub bound : is_bound env (entry_at agent slot) ≡ true
  pub snapshot : r.0.1 ≡ some (record (entry_at agent slot) { delivered = true })
  pub marked : r.1 ≡ put_entry agent slot (record (entry_at agent slot) { delivered = true })

give_up-not_ok :
    (env : Env) (started : ℕ) (agent : Agent) → (give_up env started agent).0 ≢ some ra_ok
give_up-not_ok env started agent =
    by_test (λ (r : Option RaStatus × Agent). r.0 ≢ some ra_ok)
      (agent.stopping || leb ra_window_ns (elapsed (env.clock 3) started)) (λ e h. cc) (λ e h. cc)

module _ (env : Env) (request : Request) (started : ℕ) (agent : Agent) where
  abbrev Delivers : (Option RaStatus × Option CacheEntry) × Agent → Type 0
  Delivers r = r.0.0 ≡ some ra_ok → IsDelivery env request agent r

  -- A round of `wait_for_report` answers `RA_OK` only for an entry that the index names for the key,
  -- with its report ready, the nonce of its registration, in the window and on its socket, and not
  -- delivered before; the answer is that entry, which is marked as delivered.
  pub wait_for_report-IsDelivery :
      (wait_for_report env request started agent).0.0 ≡ some ra_ok
      → IsDelivery env request agent (wait_for_report env request started agent)
  unfolding wait_for_report deliver_entry
  wait_for_report-IsDelivery =
      by_option Delivers (find_lookup_entry agent request.lookup_key)
        (λ e h. absurd (give_up-not_ok env started agent h))
        (λ i e.
          let entry = entry_at agent i in
          by_test Delivers (entry.request_received && entry.ready && not entry.delivered)
            (λ w.
              by_test Delivers
                (not (same_bytes entry.request_nonce request.client_nonce)
                  || not (is_bound env entry))
                (λ b h. cc)
                (λ b h. record {
                  slot = i;
                  found = e;
                  registered = ground arith;
                  ready = ground arith;
                  first = not-true entry.delivered (ground arith);
                  same_nonce =
                      (same_bytes_iff entry.request_nonce request.client_nonce).0
                        (not-false _ (ground arith));
                  bound = not-false _ (ground arith);
                  snapshot = refl;
                  marked = refl;
                }))
            (λ w.
              by_test Delivers (entry.report_done_ns /= 0 && not entry.ready) (λ d h. cc)
                (λ d h. absurd (give_up-not_ok env started agent h))))
