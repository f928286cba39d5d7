-- ===== src/Observer/Bounds/Feed.antt =====
-- agents/linux/pcap_observer.c: `ch_emit` and `ch_feed` keep the stashes in bounds.
use tlslatch.Base.{
  ℕ, ◌+◌, ◌%◌, ◌^◌, ◌≤◌, ◌≡◌, refl, sym, subst, List, Option, some, none, length, arith, Safe,
  returns, Safe->>=, Safe-branch, Safe-attempt, Safe-read, Safe-slice, by_test, by_option,
}
use tlslatch.Packet.{FlowKey, View}
use tlslatch.Tls.Walk.{tls_find_clienthello-Safe}
use tlslatch.Observer.{Stash, Observer, Env, ch_record_max}
use tlslatch.Observer.Stashes.{put_stash, ch_find_stash}
use tlslatch.Observer.Feed.{
  Verdict, emitted, no_hello, postponed, Emission, emit_key, ch_emit, defer_whole, feed_whole,
  feed_first, feed_record, feed_grown, feed_next, feed_rest, ch_feed, settled, count_settled,
  cleared,
}
use tlslatch.Observer.Bounds.{
  IsStash, AreStashes, IsHandled, released-IsStash, AreAll, set-AreAll, ch_find_stash-AreStashes,
  ch_clear_stash-AreStashes, ch_claim_stash-AreStashes, store-Safe,
}

module _ (sha512 : List ℕ → Option (List ℕ)) (env : Env) (flow : FlowKey) where
  emit_key-stashes :
      (observer : Observer) (key : Option (List ℕ))
      → (emit_key env observer flow key).observer.stashes ≡ observer.stashes
  unfolding emit_key
  emit_key-stashes observer none = refl
  emit_key-stashes observer (some key) =
      by_test (λ (e : Emission). e.observer.stashes ≡ observer.stashes) observer.force_once
        (λ _. refl)
        λ _.
          by_option (λ (e : Emission). e.observer.stashes ≡ observer.stashes)
            (env.socket_cookie flow) (λ _. refl) λ _ _. refl

  pub ch_emit-AreStashes :
      (observer : Observer) (bytes : List ℕ)
      → AreStashes observer
      → Safe (λ (e : Emission). AreStashes e.observer) (ch_emit sha512 env observer flow bytes)
  unfolding ch_emit
  ch_emit-AreStashes observer bytes h =
      let same : (key : Option (List ℕ)) → AreStashes (emit_key env observer flow key).observer =
        λ key. subst AreAll (sym (emit_key-stashes observer key)) h in
      Safe-attempt _ _ (tls_find_clienthello-Safe sha512 bytes) (returns _ (same none))
        λ key _. returns _ (same (some key))

  cleared-AreStashes :
      (observer : Observer) → AreStashes observer → IsHandled (cleared env observer flow)
  cleared-AreStashes observer h = ch_clear_stash-AreStashes env.now_ns flow observer h

  module _ (view : View) where
    defer_whole-AreStashes :
        (observer : Observer) (needed : ℕ)
        → needed ≤ length view.payload
        → needed ≤ ch_record_max
        → AreStashes observer
        → Safe IsHandled (defer_whole sha512 env observer flow view needed)
    unfolding defer_whole
    defer_whole-AreStashes observer needed whole small h =
        Safe-slice _ _ _ _ (omega arith) λ bytes n.
          Safe->>= _ _ (store-Safe _ 0 bytes (omega arith) (omega arith)) λ buf e. returns _ (
            set-AreAll _ _ _ (ch_claim_stash-AreStashes env.now_ns flow observer h)
              (record { written = omega arith; fits = omega arith; bounded = small }))

    feed_whole-AreStashes :
        (observer : Observer) (needed : ℕ)
        → needed ≤ length view.payload
        → AreStashes observer
        → Safe IsHandled (feed_whole sha512 env observer flow view needed)
    unfolding feed_whole
    feed_whole-AreStashes observer needed whole h =
        Safe-branch _ _ _
          (λ small. Safe-slice _ _ _ _ (omega arith) λ bytes _.
            Safe-attempt _ _ (tls_find_clienthello-Safe sha512 bytes)
              (returns _ (cleared-AreStashes observer h))
              λ _ _. defer_whole-AreStashes observer needed whole (ground arith) h)
          λ _. returns _ (cleared-AreStashes observer h)

    feed_first-AreStashes :
        (observer : Observer) (needed : ℕ)
        → length view.payload ≤ needed
        → needed ≤ ch_record_max
        → AreStashes observer
        → Safe IsHandled (feed_first sha512 env observer flow view needed)
    unfolding feed_first
    feed_first-AreStashes observer needed part small h =
        Safe->>= _ _ (store-Safe _ 0 view.payload (omega arith) (omega arith)) λ buf e. returns _ (
          set-AreAll _ _ _ (ch_claim_stash-AreStashes env.now_ns flow observer h)
            (record { written = omega arith; fits = part; bounded = small }))

    feed_record-AreStashes :
        (observer : Observer) (needed : ℕ)
        → AreStashes observer
        → Safe IsHandled (feed_record sha512 env observer flow view needed)
    unfolding feed_record
    feed_record-AreStashes observer needed h =
        Safe-branch _ _ _ (λ whole. feed_whole-AreStashes observer needed (ground arith) h)
          λ part.
            Safe-branch _ _ _ (λ _. returns _ (cleared-AreStashes observer h))
              λ small. feed_first-AreStashes observer needed (ground arith) (ground arith) h

    settle-AreStashes :
        (verdict : Verdict) (observer : Observer) (i : ℕ) (slot : Stash)
        → AreStashes observer
        → IsStash slot
        → AreStashes (count_settled verdict (put_stash observer i (settled view verdict slot)))
    settle-AreStashes emitted observer i slot h k = set-AreAll _ i _ h (released-IsStash slot k)
    settle-AreStashes no_hello observer i slot h k = set-AreAll _ i _ h (released-IsStash slot k)
    settle-AreStashes postponed observer i slot h k =
        set-AreAll _ i _ h (record { written = k.written; fits = k.fits; bounded = k.bounded })

    feed_grown-AreStashes :
        (observer : Observer) (i : ℕ) (slot : Stash)
        → AreStashes observer
        → IsStash slot
        → Safe IsHandled (feed_grown sha512 env observer i slot flow view)
    unfolding feed_grown
    feed_grown-AreStashes observer i slot h k =
        let n : length slot.buf ≡ slot.filled = k.written in
        Safe-branch _ _ _
          (λ _. Safe-slice _ _ _ _ (omega arith) λ bytes _.
            Safe->>= _ _ (ch_emit-AreStashes observer bytes h) λ emission m.
              returns _ (settle-AreStashes emission.verdict emission.observer i slot m k))
          λ _. returns _ h

    feed_next-AreStashes :
        (observer : Observer) (i : ℕ) (slot : Stash)
        → AreStashes observer
        → IsStash slot
        → Safe IsHandled (feed_next sha512 env observer i slot flow view)
    unfolding feed_next
    feed_next-AreStashes observer i slot h k =
        let n : length slot.buf ≡ slot.filled = k.written in
        let b : slot.needed ≤ ch_record_max = k.bounded in
        Safe-branch _ _ _ (λ _. returns _ h)
          λ next.
            Safe->>= _ _ (store-Safe slot.buf slot.filled view.payload (omega arith) (ground arith))
              λ buf e.
                let grown : IsStash (record slot {
                  buf = buf;
                  filled = slot.filled + length view.payload;
                  next_seq = (slot.next_seq + length view.payload) % 2 ^ 32;
                }) =
                  record { written = e; fits = ground arith; bounded = b } in
                feed_grown-AreStashes _ i _ (set-AreAll _ i _ h grown) grown

    feed_rest-AreStashes :
        (observer : Observer)
        → AreStashes observer
        → Safe IsHandled (feed_rest sha512 env observer flow view)
    unfolding feed_rest
    feed_rest-AreStashes observer h =
        let found = ch_find_stash-AreStashes env.now_ns flow observer h in
        by_option (Safe IsHandled) (ch_find_stash env.now_ns flow observer).1 (λ _. returns _ found)
          λ i _. feed_next-AreStashes _ i _ found (found i)

    pub ch_feed-AreStashes :
        (observer : Observer)
        → AreStashes observer
        → Safe IsHandled (ch_feed sha512 env observer flow view)
    unfolding ch_feed
    ch_feed-AreStashes observer h =
        Safe-branch _ _ _
          (λ long. Safe-read _ _ _ (ground arith) λ _.
            Safe-branch _ _ _
              (λ _.
                Safe-read _ _ _ (ground arith)
                  λ _. Safe-read _ _ _ (ground arith) λ _. feed_record-AreStashes observer _ h)
              λ _. feed_rest-AreStashes observer h)
          λ _. feed_rest-AreStashes observer h
