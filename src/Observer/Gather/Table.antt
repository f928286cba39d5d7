-- ===== src/Observer/Gather/Table.antt =====
-- agents/linux/pcap_observer.c: the stash of a flow is found again.
use tlslatch.Base.{
  ℕ, zero, suc, ◌+◌, ◌≤◌, ◌<◌, ◌≡◌, refl, ap, subst, List, [], ◌∷◌, Option, some, none, Bool, true,
  false, not, length, get_or, set, length-set, get_or-set_self, arith, by_test, by_option, ltb,
  set-get_or, not-false, not-true,
}
use tlslatch.Packet.{FlowKey}
use tlslatch.Observer.{Stash, Observer}
use tlslatch.Observer.Stashes.{
  zero_stash, stash_at, put_stash, released, passed, next_place, is_stale, ch_same_flow, Search,
  find_from, new_stash, free_or_oldest, ch_claim_stash, ch_find_stash,
}

-- None of the first `i` slots holds the flow.
abbrev pub Before : FlowKey → ℕ → List Stash → Type 0
Before flow zero slots = Unit
Before flow (suc i) [] = ⊥
Before flow (suc i) (slot ∷ rest) =
    (slot.used ≡ true → ch_same_flow slot.flow flow ≡ false) × Before flow i rest

-- What a search has established: it ended at the first slot of the flow, or there is none.
abbrev pub Ended : FlowKey → Option ℕ → List Stash → Type 0
Ended flow none slots = Before flow (length slots) slots
Ended flow (some i) slots = Before flow i slots × (i < length slots)

record HasEnded (flow : FlowKey) (n : ℕ) (search : Search) : Type 0 where
  long : length search.slots ≡ n
  ended : Ended flow search.place search.slots

module _ (now : ℕ) (flow : FlowKey) where
  passed-HasEnded :
      (slot : Stash) (stale n : ℕ) (next : Search)
      → (slot.used ≡ true → ch_same_flow slot.flow flow ≡ false)
      → HasEnded flow n next
      → HasEnded flow (suc n) (passed slot stale next)
  passed-HasEnded slot stale n next h k = record {
    long = ap suc k.long;
    ended = at_place next.place k.ended;
  }
    where
      at_place :
          (place : Option ℕ)
          → Ended flow place next.slots
          → Ended flow (next_place place) (slot ∷ next.slots)
      at_place none e = (h, e)
      at_place (some i) e = ((h, e.0), omega (arith, e.1))

  find_from-HasEnded :
      (slots : List Stash) → HasEnded flow (length slots) (find_from now flow slots)
  unfolding find_from
  find_from-HasEnded [] = record { long = refl; ended = tt }
  find_from-HasEnded (slot ∷ rest) =
      let next = find_from-HasEnded rest in
      by_test (HasEnded flow (suc (length rest))) (not slot.used)
        (λ e. passed-HasEnded slot 0 _ _ (λ u. unused (not-true _ e) u) next)
        λ _.
          by_test (HasEnded flow (suc (length rest))) (is_stale now slot)
            (λ _. passed-HasEnded (released slot) 1 _ _ (λ u. unused refl u) next)
            λ _.
              by_test (HasEnded flow (suc (length rest))) (ch_same_flow slot.flow flow)
                (λ _. record { long = refl; ended = (tt, omega arith) })
                λ e. passed-HasEnded slot 0 _ _ (λ _. e) next
    where
      unused : {b c : Bool} → b ≡ false → b ≡ true → c ≡ false
      unused e u = cc

  pub record FoundAt (i : ℕ) (slot : Stash) (search : Search) : Type 0 where
    pub place : search.place ≡ some i
    pub there : get_or search.slots i zero_stash ≡ slot

  passed-FoundAt :
      (i : ℕ) (slot first : Stash) (stale : ℕ) (next : Search)
      → FoundAt i slot next
      → FoundAt (suc i) slot (passed first stale next)
  passed-FoundAt i slot first stale next h = record {
    place = ap next_place h.place;
    there = h.there;
  }

  -- A stash that is put at the end of a search, or anywhere after one that found nothing, is found
  -- there by the next search, if it is not stale then.
  pub find_from-set :
      (slots : List Stash) (i : ℕ) (slot : Stash)
      → Before flow i slots
      → i < length slots
      → slot.used ≡ true
      → is_stale now slot ≡ false
      → ch_same_flow slot.flow flow ≡ true
      → FoundAt i slot (find_from now flow (set slots i slot))
  unfolding find_from
  find_from-set [] i slot b l u f s = absurd (omega arith)
  find_from-set (first ∷ rest) zero slot b l u f s =
      by_test (FoundAt 0 slot) (not slot.used) (λ e. absurd (used_not e))
        λ _.
          by_test (FoundAt 0 slot) (is_stale now slot) (λ e. absurd (cc))
            λ _.
              by_test (FoundAt 0 slot) (ch_same_flow slot.flow flow)
                (λ _. record { place = refl; there = refl }) λ e. absurd (cc)
    where
      used_not : not slot.used ≡ true → ⊥
      used_not e = let e' = not-true _ e in cc
  find_from-set (first ∷ rest) (suc i) slot b l u f s =
      let next = find_from-set rest i slot b.1 (omega arith) u f s in
      by_test (FoundAt (suc i) slot) (not first.used) (λ _. passed-FoundAt i slot first 0 _ next)
        λ used.
          by_test (FoundAt (suc i) slot) (is_stale now first)
            (λ _. passed-FoundAt i slot (released first) 1 _ next)
            λ _.
              by_test (FoundAt (suc i) slot) (ch_same_flow first.flow flow)
                (λ same. let other = b.0 (not-false _ used) in absurd (cc))
                λ _. passed-FoundAt i slot first 0 _ next

Before-set :
    (flow : FlowKey) (i : ℕ) (slots : List Stash) (slot : Stash)
    → Before flow i slots
    → Before flow i (set slots i slot)
Before-set flow zero slots slot h = tt
Before-set flow (suc i) [] slot h = h
Before-set flow (suc i) (first ∷ rest) slot h = (h.0, Before-set flow i rest slot h.1)

Before-le :
    (flow : FlowKey) (i j : ℕ) (slots : List Stash)
    → Before flow j slots
    → i ≤ j
    → Before flow i slots
Before-le flow zero j slots h l = tt
Before-le flow (suc i) zero slots h l = absurd (omega arith)
Before-le flow (suc i) (suc j) [] h l = h
Before-le flow (suc i) (suc j) (first ∷ rest) h l = (h.0, Before-le flow i j rest h.1 (omega arith))

-- Slot `i` is the first of the flow, and it is `slot`.
pub record Holding (flow : FlowKey) (i : ℕ) (slot : Stash) (observer : Observer) : Type 0 where
  pub before : Before flow i observer.stashes
  pub inside : i < length observer.stashes
  pub there : stash_at observer i ≡ slot
  pub calm : observer.force_once ≡ false

pub put_stash-Holding :
    (flow : FlowKey) (i : ℕ) (slot : Stash) (observer : Observer)
    → Before flow i observer.stashes
    → i < length observer.stashes
    → observer.force_once ≡ false
    → Holding flow i slot (put_stash observer i slot)
put_stash-Holding flow i slot observer b l calm = record {
  before = Before-set flow i observer.stashes slot b;
  inside = omega (arith, length-set observer.stashes i slot);
  there = get_or-set_self observer.stashes i slot zero_stash l;
  calm = calm;
}

pub Holding-put :
    (flow : FlowKey) (i : ℕ) (slot next : Stash) (observer : Observer)
    → Holding flow i slot observer
    → Holding flow i next (put_stash observer i next)
Holding-put flow i slot next observer h =
    put_stash-Holding flow i next observer h.before h.inside h.calm

free_or_oldest-lt :
    (slots : List Stash) (i slot born n : ℕ)
    → i + length slots ≤ n
    → slot < n
    → free_or_oldest slots i slot born < n
unfolding free_or_oldest
free_or_oldest-lt [] i slot born n h l = l
free_or_oldest-lt (s ∷ rest) i slot born n h l =
    by_test (λ k. k < n) (not s.used) (λ _. omega arith)
      λ _.
        by_test (λ k. k < n) (ltb s.born_ns born)
          (λ _. free_or_oldest-lt rest (i + 1) i s.born_ns n (omega arith) (omega arith))
          λ _. free_or_oldest-lt rest (i + 1) slot born n (omega arith) l

module _ (now : ℕ) (flow : FlowKey) where
  ch_find_stash-Ended :
      (observer : Observer) (place : Option ℕ)
      → (ch_find_stash now flow observer).1 ≡ place
      → Ended flow place (ch_find_stash now flow observer).0.stashes
  unfolding ch_find_stash
  ch_find_stash-Ended observer place e =
      subst (λ p. Ended flow p (find_from now flow observer.stashes).slots) e
        (find_from-HasEnded now flow observer.stashes).ended

  length-ch_find_stash :
      (observer : Observer)
      → length (ch_find_stash now flow observer).0.stashes ≡ length observer.stashes
  unfolding ch_find_stash
  length-ch_find_stash observer = (find_from-HasEnded now flow observer.stashes).long

  still_calm :
      (observer : Observer)
      → observer.force_once ≡ false
      → (ch_find_stash now flow observer).0.force_once ≡ false
  unfolding ch_find_stash
  still_calm observer calm = calm

  -- The stash of a flow is found, where it was, as long as it is not stale.
  pub ch_find_stash-Holding :
      {i : ℕ} {slot : Stash} (observer : Observer)
      → Holding flow i slot observer
      → slot.used ≡ true
      → is_stale now slot ≡ false
      → ch_same_flow slot.flow flow ≡ true
      → ((ch_find_stash now flow observer).1 ≡ some i)
        × Holding flow i slot (ch_find_stash now flow observer).0
  unfolding ch_find_stash
  ch_find_stash-Holding {i} {slot} observer h u f s = (
    found.place,
    record { before = ended.0; inside = ended.1; there = found.there; calm = h.calm },
  )
    where
      found : FoundAt now flow i slot (find_from now flow observer.stashes)
      found =
          subst (λ slots. FoundAt now flow i slot (find_from now flow slots))
            (set-get_or observer.stashes i zero_stash slot h.there)
            (find_from-set now flow observer.stashes i slot h.before h.inside u f s)

      ended : Ended flow (some i) (find_from now flow observer.stashes).slots
      ended = ch_find_stash-Ended observer (some i) found.place

  pub ch_claim_stash-Holding :
      (observer : Observer)
      → 0 < length observer.stashes
      → observer.force_once ≡ false
      → Holding flow
          (ch_claim_stash now flow observer).1
          (new_stash now flow)
          (ch_claim_stash now flow observer).0
  unfolding ch_claim_stash
  ch_claim_stash-Holding observer l calm =
      by_option (λ (c : Observer × ℕ). Holding flow c.1 (new_stash now flow) c.0)
        (ch_find_stash now flow observer).1
        (λ e.
          let found = (ch_find_stash now flow observer).0 in
          let n : length found.stashes ≡ length observer.stashes = length-ch_find_stash observer in
          let place = free_or_oldest found.stashes 0 0 (stash_at found 0).born_ns in
          let inside : place < length found.stashes =
            free_or_oldest-lt found.stashes 0 0 _ _ (omega arith) (omega arith) in
          put_stash-Holding flow place _ found
            (Before-le flow place _ found.stashes (ch_find_stash-Ended observer none e)
              (omega arith))
            inside (still_calm observer calm))
        λ i e.
          let ended = ch_find_stash-Ended observer (some i) e in
          let found = (ch_find_stash now flow observer).0 in
          put_stash-Holding flow i (new_stash now flow)
            (record found { ch_stale = found.ch_stale + 1 }) ended.0 ended.1
            (still_calm observer calm)
