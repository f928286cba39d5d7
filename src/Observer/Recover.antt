-- ===== src/Observer/Recover.antt =====
-- agents/linux/pcap_observer.c: a ClientHello that could not be reported waits for the server's answer.
use tlslatch.Base.{
  ℕ, ◌+◌, ◌≤◌, ◌<◌, ◌≡◌, refl, ap, ◌∙◌, List, [], ◌∷◌, ◌++◌, Option, some, none, true, false,
  length, get_or, take, drop, take-length, arith, Result, ok, ◌>>=◌, read-ok, slice-ok, attempt-ok,
  by_test, by_option, ◌==◌, ◌&&◌,
}
use tlslatch.Packet.{FlowKey, View}
use tlslatch.Tls.Hello.{ServerShare}
use tlslatch.Tls.Cursor.{bind-ok, branch-true, branch-false}
use tlslatch.Tls.Records.{tls_find_clienthello, tls_find_serverhello}
use tlslatch.Observer.{
  Stash, Observer, Env, lookup_callback, Handled, ch_record_max, ch_stash_ttl_ns,
}
use tlslatch.Observer.Stashes.{stash_at, put_stash, new_stash, ch_find_stash, ch_claim_stash, store}
use tlslatch.Observer.Feed.{
  postponed, Emission, emit_key, ch_emit, raw_end_of, count_deferred, defer_whole, feed_whole,
  feed_record, ch_feed,
}
use tlslatch.Observer.Capture.{
  is_fresh, count_recovered, release, report_deferred, recover_slot, recover_deferred, key_call,
  capture_client, capture_share, capture_server,
}
use tlslatch.Observer.Gather.Table.{
  Holding, Holding-put, ch_find_stash-Holding, ch_claim_stash-Holding,
}
use tlslatch.Observer.Gather.Segments.{same_flow_refl, fresh, store-first}
use tlslatch.Observer.Gather.Whole.{Begins}

module _ (sha512 : List ℕ → Option (List ℕ)) (env : Env) (flow : FlowKey) (view : View)
    (observer : Observer) where
  -- The stash of a ClientHello that came whole in `view`.
  abbrev pub deferred_stash : Stash
  deferred_stash = record (new_stash env.now_ns flow) {
    buf = view.payload;
    filled = length view.payload;
    needed = length view.payload;
    deferred = true;
    raw_end = raw_end_of view;
  }

  ch_emit-postponed :
      (bytes : List ℕ) {key : List ℕ}
      → tls_find_clienthello sha512 bytes ≡ ok key
      → observer.force_once ≡ false
      → env.socket_cookie flow ≡ none
      → ch_emit sha512 env observer flow bytes
        ≡ ok (record { verdict = postponed; observer = observer; calls = [] })
  unfolding ch_emit emit_key
  ch_emit-postponed bytes k calm c = bind-ok _ _ (attempt-ok _ k) (
      ap ok (
        by_test (λ (e : Emission). e ≡ emission) observer.force_once (λ t. absurd (cc))
          λ _.
            by_option (λ (e : Emission). e ≡ emission) (env.socket_cookie flow) (λ _. refl)
              λ a s. absurd (cc)))
    where
      emission : Emission
      emission = record { verdict = postponed; observer = observer; calls = [] }

  -- A call that calls nothing back, and leaves the deferred ClientHello.
  pub record Defers (m : Result Handled) : Type 0 where
    pub handled : Handled
    pub returned : m ≡ ok handled
    pub silent : handled.calls ≡ []
    pub place : ℕ
    pub holding : Holding flow place deferred_stash handled.observer

  whole : take (length view.payload) (drop 0 view.payload) ≡ view.payload
  whole = take-length view.payload

  defer_whole-Defers :
      length view.payload ≤ ch_record_max
      → 0 < length observer.stashes
      → observer.force_once ≡ false
      → Defers (defer_whole sha512 env observer flow view (length view.payload))
  unfolding defer_whole
  defer_whole-Defers m s calm =
      let claim = ch_claim_stash env.now_ns flow observer in
      let held = ch_claim_stash-Holding env.now_ns flow observer s calm in
      let slot : Stash = record (stash_at claim.0 claim.1) {
        buf = view.payload;
        filled = length view.payload;
        needed = length view.payload;
        deferred = true;
        raw_end = raw_end_of view;
      } in
      let put = Holding-put flow claim.1 _ slot claim.0 held in
      record {
        handled = record { observer = count_deferred (put_stash claim.0 claim.1 slot); calls = [] };
        returned = bind-ok _ _ (slice-ok view.payload 0 (length view.payload) (omega arith)) (
            bind-ok _ _
              (ap (store (stash_at claim.0 claim.1).buf 0) whole
                ∙ store-first (stash_at claim.0 claim.1).buf view.payload m)
              refl);
        silent = refl;
        place = claim.1;
        holding = record {
          before = put.before;
          inside = put.inside;
          there =
              put.there
              ∙ ap
                  (λ (slot : Stash). record slot {
                    buf = view.payload;
                    filled = length view.payload;
                    needed = length view.payload;
                    deferred = true;
                    raw_end = raw_end_of view;
                  })
                  held.there;
          calm = put.calm;
        };
      }

  capture_client-Defers :
      {key : List ℕ}
      → Begins view (length view.payload)
      → 5 < length view.payload
      → length view.payload ≤ ch_record_max
      → 0 < length observer.stashes
      → observer.force_once ≡ false
      → tls_find_clienthello sha512 view.payload ≡ ok key
      → env.socket_cookie flow ≡ none
      → Defers (capture_client sha512 env observer flow view)
  unfolding capture_client ch_feed feed_record feed_whole
  capture_client-Defers b l m s calm k c =
      let d = defer_whole-Defers m s calm in
      record {
        handled = d.handled;
        returned = branch-true _ _ _ (ground arith) (
            bind-ok _ _ (read-ok view.payload 0 (omega arith)) (
              branch-true _ _ _ (ground (arith, b.handshake)) (
                bind-ok _ _ (ch_emit-postponed view.payload k calm c) (
                  branch-false _ _ _ refl (
                    branch-true _ _ _ (ground arith) (
                      bind-ok _ _ (read-ok view.payload 0 (omega arith)) (
                        branch-true _ _ _ (ground (arith, b.handshake)) (
                          bind-ok _ _ (read-ok view.payload 3 (omega arith)) (
                            bind-ok _ _ (read-ok view.payload 4 (omega arith)) (
                              ap (feed_record sha512 env observer flow view) b.size
                              ∙ branch-true _ _ _ (ground arith) (
                                  branch-true _ _ _ (ground arith) (
                                    bind-ok _ _ (slice-ok view.payload 0 _ (omega arith)) (
                                      bind-ok _ _
                                        (attempt-ok _ (ap (tls_find_clienthello sha512) whole ∙ k))
                                        d.returned)))))))))))));
        silent = d.silent;
        place = d.place;
        holding = d.holding;
      }

-- The packet holds a ServerHello, and acknowledges `raw_end`.
pub record Answers (sha512 : List ℕ → Option (List ℕ)) (raw_end : ℕ) (share : ServerShare)
    (view : View) : Type 0 where
  pub long : 5 < length view.payload
  pub handshake : get_or view.payload 0 0 ≡ 22
  pub hello : tls_find_serverhello sha512 view.payload ≡ ok share
  pub acknowledges : view.acknowledgement ≡ raw_end

module _ (sha512 : List ℕ → Option (List ℕ)) (env : Env) (flow : FlowKey) (cookie : ℕ)
    (known : env.socket_cookie flow ≡ some cookie) where
  is_fresh-some : (o : Option ℕ) → o ≡ some cookie → is_fresh o cookie ≡ true
  is_fresh-some none e = cc
  is_fresh-some (some c) e = ground arith

  share_calls :
      (input : Observer) (view : View) (share : ServerShare) (m : Handled)
      → recover_deferred sha512 env input flow view cookie ≡ ok m
      → capture_share sha512 env input flow view share
        ≡ ok (record {
          observer = m.observer;
          calls = m.calls ++ key_call env flow share cookie ∷ [];
        })
  unfolding capture_share
  share_calls input view share m e =
      ap
        (λ o. elim o as (λ _. Result Handled) [
          | none ↦ ok (record { observer = input; calls = [] })
          | some cookie ↦ recover_deferred sha512 env input flow view cookie >>= λ recovered.
              ok (record {
                observer = recovered.observer;
                calls = recovered.calls ++ key_call env flow share cookie ∷ [];
              })
        ])
        known
      ∙ bind-ok _ _ e refl

  capture_server-hello :
      (input : Observer) (view : View) (share : ServerShare) {raw_end : ℕ}
      → Answers sha512 raw_end share view
      → capture_server sha512 env input flow view ≡ capture_share sha512 env input flow view share
  unfolding capture_server
  capture_server-hello input view share a =
      let long = a.long in
      branch-true _ _ _ (ground arith) (
        bind-ok _ _ (read-ok view.payload 0 (omega arith)) (
          branch-true _ _ _ (ground (arith, a.handshake))
            (bind-ok _ _ (attempt-ok _ a.hello) refl)))

module _ (sha512 : List ℕ → Option (List ℕ)) (flow : FlowKey) where
  -- A ClientHello that comes whole while its socket has no cookie is not lost: if the ServerHello that
  -- acknowledges its last byte comes at most ten seconds later, and the socket then has one cookie when
  -- it is asked for it twice, the packet of the ServerHello calls back twice, first with the lookup key,
  -- the time at which the ClientHello came, and that cookie, and then with the server's key and the same
  -- cookie.
  pub capture_server-recovers :
      (env later : Env) (view answer : View) (observer : Observer) (share : ServerShare)
      (key : List ℕ) (cookie : ℕ)
      → Begins view (length view.payload)
      → 5 < length view.payload
      → length view.payload ≤ ch_record_max
      → tls_find_clienthello sha512 view.payload ≡ ok key
      → 0 < length observer.stashes
      → observer.force_once ≡ false
      → env.socket_cookie flow ≡ none
      → Answers sha512 (raw_end_of view) share answer
      → env.now_ns ≤ later.now_ns
      → later.now_ns ≤ env.now_ns + ch_stash_ttl_ns
      → later.socket_cookie flow ≡ some cookie
      → later.fresh_cookie flow ≡ some cookie
      → (between : Handled) × (after : Observer) × (capture_client sha512 env observer flow view
          ≡ ok between)
        × (between.calls ≡ [])
        × (capture_server sha512 later between.observer flow answer
            ≡ ok (record {
              observer = after;
              calls =
                  lookup_callback flow key env.now_ns cookie
                  ∷ key_call later flow share cookie
                  ∷ [];
            }))
  unfolding recover_deferred recover_slot report_deferred
  capture_server-recovers env later view answer observer share key cookie b l m k s calm c a h t e
        f =
      let d = capture_client-Defers sha512 env flow view observer b l m s calm k c in
      let slot = deferred_stash sha512 env flow view observer in
      let found =
        ch_find_stash-Holding later.now_ns flow d.handled.observer d.holding refl
          (fresh later.now_ns slot h t) (same_flow_refl flow) in
      let input = (ch_find_stash later.now_ns flow d.handled.observer).0 in
      let call = lookup_callback flow key env.now_ns cookie in
      let recovered : Handled = record {
        observer = release d.place (count_recovered (later.answers call) input);
        calls = call ∷ [];
      } in
      let recovers : recover_deferred sha512 later d.handled.observer flow answer cookie
          ≡ ok recovered =
        ap
          (λ place. elim place as (λ _. Result Handled) [
            | none ↦ ok (record { observer = input; calls = [] })
            | some i ↦ recover_slot sha512 later input i (stash_at input i) flow answer cookie
          ])
          found.0
        ∙ ap (λ (slot : Stash). recover_slot sha512 later input d.place slot flow answer cookie)
            found.1.there
        ∙ branch-true _ _ _ refl (
            branch-true _ _ _
              (acked a.acknowledges
                (is_fresh-some sha512 later flow cookie e (later.fresh_cookie flow) f))
              (bind-ok _ _ (slice-ok view.payload 0 _ (omega arith)) (
                bind-ok _ _
                  (attempt-ok _ (ap (tls_find_clienthello sha512) (take-length view.payload) ∙ k))
                  refl))) in
      (
        d.handled,
        recovered.observer,
        d.returned,
        d.silent,
        capture_server-hello sha512 later flow cookie e d.handled.observer answer share a
            ∙ share_calls sha512 later flow cookie e d.handled.observer answer share recovered
                recovers,
      )
    where
      acked :
          answer.acknowledgement ≡ raw_end_of view
          → is_fresh (later.fresh_cookie flow) cookie ≡ true
          → (raw_end_of view == answer.acknowledgement && is_fresh (later.fresh_cookie flow) cookie)
            ≡ true
      acked p q = ground arith
