-- ===== src/Observer/Bounds.antt =====
-- agents/linux/pcap_observer.c stays inside the packets that it reads and the buffers of its stashes.
pub mod Feed
pub mod Capture
use tlslatch.Base.{
  ℕ, zero, suc, ◌+◌, ◌%◌, ◌≤◌, ◌<◌, ◌≡◌, refl, sym, subst, List, [], ◌∷◌, ◌++◌, Option, some, none,
  Bool, true, false, not, length, get_or, set, take, length-take, length-append, get_or-set-keeps,
  arith, leb, Result, Safe, returns, Safe->>=, Safe-reject_if, Safe-branch, Safe-attempt, Safe-read,
  Safe-slice, by_test, by_option, ◌>>=◌, ok,
}
use tlslatch.Packet.{FlowKey, View}
use tlslatch.Tls.Walk.{tls_find_clienthello-Safe}
use tlslatch.Observer.{Stash, Observer, Env, Handled, ch_record_max}
use tlslatch.Observer.Stashes.{
  zero_stash, stash_at, put_stash, released, passed, is_stale, ch_same_flow, Search, find_from,
  free_or_oldest, ch_find_stash, ch_clear_stash, ch_claim_stash, new_stash, store,
}
use tlslatch.Observer.Feed.{
  Verdict, emitted, no_hello, postponed, Emission, emit_key, ch_emit, defer_whole, feed_whole,
  feed_first, feed_record, feed_grown, feed_next, feed_rest, ch_feed, raw_end_of, settled,
  count_settled, cleared,
}

-- `buf` holds `filled` bytes, no more than are needed, which are no more than the array has.
pub record IsStash (slot : Stash) : Type 0 where
  pub written : length slot.buf ≡ slot.filled
  pub fits : slot.filled ≤ slot.needed
  pub bounded : slot.needed ≤ ch_record_max

abbrev pub AreStashes : Observer → Type 0
AreStashes observer = (i : ℕ) → IsStash (stash_at observer i)

abbrev pub IsHandled : Handled → Type 0
IsHandled handled = AreStashes handled.observer

pub zero_stash-IsStash : IsStash zero_stash
zero_stash-IsStash = record { written = refl; fits = omega arith; bounded = omega arith }

pub released-IsStash : (slot : Stash) → IsStash slot → IsStash (released slot)
released-IsStash slot h = record { written = h.written; fits = h.fits; bounded = h.bounded }

abbrev pub AreAll : List Stash → Type 0
AreAll slots = (i : ℕ) → IsStash (get_or slots i zero_stash)

pub set-AreAll :
    (slots : List Stash) (i : ℕ) (slot : Stash)
    → AreAll slots
    → IsStash slot
    → AreAll (set slots i slot)
set-AreAll slots i slot h k = get_or-set-keeps (λ _ s. IsStash s) slots i slot zero_stash h (λ _. k)

module _ (now : ℕ) (flow : FlowKey) where
  record AreFound (search : Search) : Type 0 where
    all : AreAll search.slots

  passed-AreFound :
      (slot : Stash) (stale : ℕ) (next : Search)
      → IsStash slot
      → AreFound next
      → AreFound (passed slot stale next)
  passed-AreFound slot stale next h k = record {
    all = λ i. elim i as (λ i. IsStash (get_or (slot ∷ next.slots) i zero_stash)) [
      | zero ↦ h
      | suc i ↦ k.all i
    ];
  }

  find_from-AreFound : (slots : List Stash) → AreAll slots → AreFound (find_from now flow slots)
  unfolding find_from
  find_from-AreFound [] h = record { all = h }
  find_from-AreFound (slot ∷ rest) h =
      let next = find_from-AreFound rest (λ i. h (suc i)) in
      by_test AreFound (not slot.used) (λ _. passed-AreFound slot 0 _ (h 0) next)
        λ _.
          by_test AreFound (is_stale now slot)
            (λ _. passed-AreFound _ 1 _ (released-IsStash slot (h 0)) next)
            λ _.
              by_test AreFound (ch_same_flow slot.flow flow) (λ _. record { all = h })
                λ _. passed-AreFound slot 0 _ (h 0) next

  module _ (observer : Observer) (h : AreStashes observer) where
    pub ch_find_stash-AreStashes : AreStashes (ch_find_stash now flow observer).0
    unfolding ch_find_stash
    ch_find_stash-AreStashes = (find_from-AreFound observer.stashes h).all

  pub ch_clear_stash-AreStashes :
      (observer : Observer) → AreStashes observer → AreStashes (ch_clear_stash now flow observer)
  unfolding ch_clear_stash
  ch_clear_stash-AreStashes observer h =
      let found = ch_find_stash-AreStashes observer h in
      by_option AreStashes (ch_find_stash now flow observer).1 (λ _. found)
        λ i _. set-AreAll _ i _ found (released-IsStash _ (found i))

  pub ch_claim_stash-AreStashes :
      (observer : Observer) → AreStashes observer → AreStashes (ch_claim_stash now flow observer).0
  unfolding ch_claim_stash
  ch_claim_stash-AreStashes observer h =
      let found = ch_find_stash-AreStashes observer h in
      let empty : IsStash (new_stash now flow) = record {
        written = refl;
        fits = omega arith;
        bounded = omega arith;
      } in
      by_option (λ (c : Observer × ℕ). AreStashes c.0) (ch_find_stash now flow observer).1
        (λ _. set-AreAll _ _ _ found empty) λ i _. set-AreAll _ i _ found empty

pub store-Safe :
    (buf : List ℕ) (at : ℕ) (bytes : List ℕ)
    → at ≤ length buf
    → at + length bytes ≤ ch_record_max
    → Safe (λ (b : List ℕ). length b ≡ at + length bytes) (store buf at bytes)
unfolding store
store-Safe buf at bytes h k =
    Safe-branch _ _ _
      (λ _. returns _ (omega (arith, length-append (take at buf) bytes, length-take at buf)))
      λ e. absurd (ground arith)
