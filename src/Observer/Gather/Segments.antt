-- ===== src/Observer/Gather/Segments.antt =====
-- agents/linux/pcap_observer.c: what `ch_feed` does with the segments of a ClientHello.
use tlslatch.Base.{
  ℕ, ◌+◌, ◌%◌, ◌^◌, ◌≤◌, ◌<◌, ◌≡◌, ◌≢◌, ◌⊎◌, inl, inr, refl, sym, ap, ◌∙◌, List, [], ◌∷◌, ◌++◌,
  Option, some, true, false, Bool-cases, length, get_or, take, length-append, take-length,
  attempt-ok, by_test, by_option, arith, leb, le→leb, Result, ok, read-ok, slice-ok,
}
use tlslatch.Packet.{FlowKey, View}
use tlslatch.Tls.Cursor.{bind-ok, branch-true, branch-false}
use tlslatch.Tls.Records.{tls_find_clienthello}
use tlslatch.Observer.{
  Stash, Observer, Env, lookup_callback, Handled, ch_record_max, ch_stash_ttl_ns,
}
use tlslatch.Observer.Stashes.{
  stash_at, put_stash, is_stale, ch_same_flow, new_stash, ch_claim_stash, store,
}
use tlslatch.Observer.Feed.{
  emitted, Emission, emit_key, ch_emit, feed_first, feed_grown, feed_next, feed_rest, ch_feed,
  settled, count_settled,
}
use tlslatch.Observer.Gather.Table.{Holding, Holding-put, ch_claim_stash-Holding}

-- The stash that holds `bytes` of a record of `needed` bytes, before the sequence number `seq`.
abbrev pub stash_of : ℕ → FlowKey → ℕ → List ℕ → ℕ → Stash
stash_of born flow needed bytes seq = record (new_stash born flow) {
  buf = bytes;
  filled = length bytes;
  needed = needed;
  next_seq = seq;
}

pub same_flow_refl : (flow : FlowKey) → ch_same_flow flow flow ≡ true
same_flow_refl flow = ground arith

pub fresh :
    (now : ℕ) (slot : Stash)
    → slot.born_ns ≤ now
    → now ≤ slot.born_ns + ch_stash_ttl_ns
    → is_stale now slot ≡ false
unfolding is_stale
fresh now slot h l = ground arith

store-ok :
    (buf : List ℕ) (bytes : List ℕ)
    → length buf + length bytes ≤ ch_record_max
    → store buf (length buf) bytes ≡ ok (buf ++ bytes)
unfolding store
store-ok buf bytes h =
    branch-true _ _ _ (le→leb _ _ h) (ap (λ b. ok (b ++ bytes)) (take-length buf))

pub store-first :
    (buf : List ℕ) (bytes : List ℕ) → length bytes ≤ ch_record_max → store buf 0 bytes ≡ ok bytes
unfolding store
store-first buf bytes h = branch-true _ _ _ (le→leb _ _ (omega arith)) refl

-- A call of `ch_feed` that calls nothing back, and leaves `slot` at place `i`.
pub record Gathers (flow : FlowKey) (i : ℕ) (slot : Stash) (m : Result Handled) : Type 0 where
  pub handled : Handled
  pub returned : m ≡ ok handled
  pub silent : handled.calls ≡ []
  pub holding : Holding flow i slot handled.observer

-- A call of `ch_feed` that reports the ClientHello.
pub record Reports (flow : FlowKey) (key : List ℕ) (now cookie : ℕ) (m : Result Handled)
    : Type 0 where
  pub handled : Handled
  pub returned : m ≡ ok handled
  pub reported : handled.calls ≡ lookup_callback flow key now cookie ∷ []

module _ (sha512 : List ℕ → Option (List ℕ)) (env : Env) (flow : FlowKey) (view : View) where
  emit_key-reported :
      (observer : Observer) (key : List ℕ) {cookie : ℕ}
      → observer.force_once ≡ false
      → env.socket_cookie flow ≡ some cookie
      → emit_key env observer flow (some key) ≡ record {
        verdict = emitted;
        observer = observer;
        calls = lookup_callback flow key env.now_ns cookie ∷ [];
      }
  unfolding emit_key
  emit_key-reported observer key {cookie} calm c =
      by_test (λ (e : Emission). e ≡ emission cookie) observer.force_once (λ t. absurd (cc))
        λ _.
          by_option (λ (e : Emission). e ≡ emission cookie) (env.socket_cookie flow)
            (λ n. absurd (cc)) λ a s. let same : a ≡ cookie = cc in ap emission same
    where
      emission : ℕ → Emission
      emission cookie = record {
        verdict = emitted;
        observer = observer;
        calls = lookup_callback flow key env.now_ns cookie ∷ [];
      }

  pub ch_emit-reported :
      (observer : Observer) (bytes : List ℕ) {key : List ℕ} {cookie : ℕ}
      → tls_find_clienthello sha512 bytes ≡ ok key
      → observer.force_once ≡ false
      → env.socket_cookie flow ≡ some cookie
      → ch_emit sha512 env observer flow bytes
        ≡ ok (record {
          verdict = emitted;
          observer = observer;
          calls = lookup_callback flow key env.now_ns cookie ∷ [];
        })
  unfolding ch_emit
  ch_emit-reported observer bytes k calm c =
      bind-ok _ _ (attempt-ok _ k) (ap ok (emit_key-reported observer _ calm c))

  pub first_segment :
      (observer : Observer) (needed : ℕ)
      → length view.payload ≤ needed
      → needed ≤ ch_record_max
      → 0 < length observer.stashes
      → observer.force_once ≡ false
      → Gathers flow
          (ch_claim_stash env.now_ns flow observer).1
          (stash_of env.now_ns flow needed view.payload
            ((view.sequence + length view.payload) % 2 ^ 32))
          (feed_first sha512 env observer flow view needed)
  unfolding feed_first
  first_segment observer needed l m s calm =
      let claim = ch_claim_stash env.now_ns flow observer in
      let held = ch_claim_stash-Holding env.now_ns flow observer s calm in
      let slot : Stash = record (stash_at claim.0 claim.1) {
        buf = view.payload;
        filled = length view.payload;
        needed = needed;
        next_seq = (view.sequence + length view.payload) % 2 ^ 32;
      } in
      let put = Holding-put flow claim.1 _ slot claim.0 held in
      record {
        handled = record {
          observer = record (put_stash claim.0 claim.1 slot) { ch_split = claim.0.ch_split + 1 };
          calls = [];
        };
        returned =
            bind-ok _ _ (store-first (stash_at claim.0 claim.1).buf view.payload (omega arith))
              refl;
        silent = refl;
        holding = record {
          before = put.before;
          inside = put.inside;
          there =
              put.there
              ∙ ap
                  (λ (slot : Stash). record slot {
                    buf = view.payload;
                    filled = length view.payload;
                    needed = needed;
                    next_seq = (view.sequence + length view.payload) % 2 ^ 32;
                  })
                  held.there;
          calm = put.calm;
        };
      }

  pub rest_segment :
      (observer : Observer)
      → (length view.payload < 5) ⊎ (get_or view.payload 0 0 ≢ 22)
      → ch_feed sha512 env observer flow view ≡ feed_rest sha512 env observer flow view
  unfolding ch_feed
  rest_segment observer (inl short) = branch-false _ _ _ (ground arith) refl
  rest_segment observer (inr other) = elim (Bool-cases (leb 5 (length view.payload))) [
    | inl long ↦ branch-true _ _ _ long (
        bind-ok _ _ (read-ok view.payload 0 (ground arith))
          (branch-false _ _ _ (ground arith) refl))
    | inr short ↦ branch-false _ _ _ short refl
  ]

  module _ (observer : Observer) (born needed seq i : ℕ) (bytes : List ℕ)
      (held : Holding flow i (stash_of born flow needed bytes seq) observer) where
    abbrev pub grown : Stash
    grown = stash_of born flow needed (bytes ++ view.payload) ((seq + length view.payload) % 2 ^ 32)

    -- The bytes of the next segment are put behind those of the stash.
    put_next :
        view.sequence ≡ seq
        → length bytes + length view.payload ≤ needed
        → needed ≤ ch_record_max
        → feed_next sha512 env observer i (stash_at observer i) flow view
          ≡ feed_grown sha512 env (put_stash observer i grown) i grown flow view
    unfolding feed_next
    put_next e l m =
        ap (λ (slot : Stash). feed_next sha512 env observer i slot flow view) held.there
        ∙ branch-false _ _ _ (ground arith) (
            bind-ok _ _ (store-ok bytes view.payload (omega arith)) (
              ap
                (λ n.
                  feed_grown sha512 env (put_stash observer i (record grown { filled = n })) i
                    (record grown { filled = n }) flow view)
                (sym (length-append bytes view.payload))))

    -- In the middle of the record nothing is reported.
    pub middle_segment :
        view.sequence ≡ seq
        → length bytes + length view.payload < needed
        → needed ≤ ch_record_max
        → Gathers flow i grown (feed_next sha512 env observer i (stash_at observer i) flow view)
    unfolding feed_grown
    middle_segment e l m = record {
      handled = record { observer = put_stash observer i grown; calls = [] };
      returned =
          put_next e (omega arith) m
          ∙ branch-false _ _ _ (ground (arith, length-append bytes view.payload)) refl;
      silent = refl;
      holding = Holding-put flow i _ grown observer held;
    }

    -- The last segment has the ClientHello reported.
    pub last_segment :
        {key : List ℕ} {cookie : ℕ}
        → view.sequence ≡ seq
        → length bytes + length view.payload ≡ needed
        → needed ≤ ch_record_max
        → tls_find_clienthello sha512 (bytes ++ view.payload) ≡ ok key
        → env.socket_cookie flow ≡ some cookie
        → Reports flow key env.now_ns cookie
            (feed_next sha512 env observer i (stash_at observer i) flow view)
    unfolding feed_grown
    last_segment {key} {cookie} e l m k c =
        let put = put_stash observer i grown in
        let whole = bytes ++ view.payload in
        let emission : Emission = record {
          verdict = emitted;
          observer = put;
          calls = lookup_callback flow key env.now_ns cookie ∷ [];
        } in
        record {
          handled = record {
            observer = count_settled emitted (put_stash put i (settled view emitted grown));
            calls = emission.calls;
          };
          returned =
              put_next e (omega arith) m
              ∙ branch-true _ _ _ (ground (arith, length-append bytes view.payload)) (
                  bind-ok _ _ (slice-ok whole 0 (length whole) (omega arith)) (
                    bind-ok _ _
                      (ch_emit-reported put (take (length whole) whole)
                        (ap (tls_find_clienthello sha512) (take-length whole) ∙ k) held.calm c)
                      refl));
          reported = refl;
        }
