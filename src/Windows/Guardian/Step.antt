-- ===== src/Windows/Guardian/Step.antt =====
-- agents/windows/guardian.c: what a message does to the references and the quarantine.
use tlslatch.Base.{
  first_true, second_true, ℕ, subst, ◌∙◌, ◌+◌, ◌-◌, ◌%◌, ◌^◌, ◌≡◌, refl, ap, List, [], ◌∷◌, Option,
  some, none, Bool, true, false, not, ltb, ◌==◌, ◌&&◌, if◌then◌else◌, length, arith, by_test,
  not-true, by_option, ◌≤◌,
}
use tlslatch.Windows.Guardian.{
  max_references, g_hold, g_release, g_trip, g_done, Reference, Guardian, Received, Effect, Stepped,
  ignored, behind, hold_from, hold, Released, released_behind, release_from, release, trip,
  guardian_step, matching, quarantine,
}
use tlslatch.Windows.Guardian.Tally.{
  tally, one, quarantined, duplicated, closed, weight_of, open_count, any_handle, that_handle,
  open_count-any,
}

-- The handle `copy` was put into a slot.
record Taken (copy : ℕ) (refs after : List Reference) : Type 0 where
  size : length after ≡ length refs
  more : (weight : ℕ → ℕ) → open_count weight after ≡ open_count weight refs + weight copy

abbrev IsTaken : ℕ → List Reference → Option (List Reference) → Type 0
IsTaken copy refs none = Unit
IsTaken copy refs (some after) = Taken copy refs after

behind-IsTaken :
    (copy : ℕ) (ref : Reference) (rest : List Reference) (o : Option (List Reference))
    → IsTaken copy rest o
    → IsTaken copy (ref ∷ rest) (behind ref o)
behind-IsTaken copy ref rest none h = tt
behind-IsTaken copy ref rest (some after) h = record {
  size = omega (arith, h.size);
  more = λ weight. omega (arith, h.more weight);
}

hold_from-IsTaken :
    (w copy : ℕ) (refs : List Reference)
    → IsTaken copy refs (hold_from (record { worker_handle = w; handle = some copy }) refs)
unfolding hold_from
hold_from-IsTaken w copy [] = tt
hold_from-IsTaken w copy (ref ∷ rest) =
    by_option (IsTaken copy (ref ∷ rest)) ref.handle
      (λ e. record { size = refl; more = λ weight. omega (arith, ap (weight_of weight) e) })
      λ _ _. behind-IsTaken copy ref rest _ (hold_from-IsTaken w copy rest)

-- The handle of a slot was closed.
record Freed (refs : List Reference) (released : Released) : Type 0 where
  size : length released.refs ≡ length refs
  less :
      (weight : ℕ → ℕ)
      → open_count weight refs ≡ open_count weight released.refs + weight released.copy

abbrev IsFreed : List Reference → Option Released → Type 0
IsFreed refs none = Unit
IsFreed refs (some released) = Freed refs released

released_behind-IsFreed :
    (ref : Reference) (rest : List Reference) (o : Option Released)
    → IsFreed rest o
    → IsFreed (ref ∷ rest) (released_behind ref o)
released_behind-IsFreed ref rest none h = tt
released_behind-IsFreed ref rest (some released) h = record {
  size = omega (arith, h.size);
  less = λ weight. omega (arith, h.less weight);
}

matched :
    (o : Option ℕ) (b : Bool) (c : ℕ)
    → (elim o [ none ↦ none | some copy ↦ if b then some copy else none ]) ≡ some c
    → o ≡ some c
matched none b c e = absurd (cc)
matched (some x) true c e = e
matched (some x) false c e = absurd (cc)

release_from-IsFreed : (w : ℕ) (refs : List Reference) → IsFreed refs (release_from w refs)
unfolding release_from
release_from-IsFreed w [] = tt
release_from-IsFreed w (ref ∷ rest) =
    by_option (IsFreed (ref ∷ rest)) (matching w ref)
      (λ _. released_behind-IsFreed ref rest _ (release_from-IsFreed w rest))
      λ c e. record {
        size = refl;
        less = λ weight.
            omega (arith, ap (weight_of weight) (matched ref.handle (ref.worker_handle == w) c e));
      }

-- What holds of a guardian while its loop runs.
pub record IsSound (g : Guardian) : Type 0 where
  pub size : length g.refs ≡ max_references
  pub counted : g.held ≡ open_count any_handle g.refs

-- A message keeps that, puts the endpoint in quarantine at most once, and opens and closes each copy as
-- often as its references tell. Only a message that finds nothing held and no quarantine ends the loop.
pub record IsStep (g : Guardian) (s : Stepped) : Type 0 where
  pub sound : IsSound s.guardian
  pub bans : tally quarantined s.effects + one g.banned ≡ one s.guardian.banned
  pub balanced :
      (h : ℕ)
      → tally (duplicated h) s.effects + open_count (that_handle h) g.refs
        ≡ tally (closed h) s.effects + open_count (that_handle h) s.guardian.refs
  pub ended :
      g.clean ≡ false
      → s.guardian.clean ≡ true
      → (s.guardian.held ≡ 0) × (s.guardian.banned ≡ false)

unended : {P : Type 0} (b : Bool) → b ≡ false → b ≡ true → P
unended b f t = absurd (cc)

ignored-IsStep : (g : Guardian) → IsSound g → IsStep g (ignored g)
ignored-IsStep g h = record {
  sound = h;
  bans = omega arith;
  balanced = λ _. omega arith;
  ended = unended g.clean;
}

hold-IsStep : (m : Received) (g : Guardian) → IsSound g → IsStep g (hold m g)
unfolding hold
hold-IsStep m g h =
    by_option (IsStep g) m.duplicate (λ _. ignored-IsStep g h)
      λ copy _.
        by_option (IsStep g)
          (hold_from (record { worker_handle = m.handle; handle = some copy }) g.refs)
          (λ _. ignored-IsStep g h)
          λ after e.
            let t : Taken copy g.refs after =
              subst (IsTaken copy g.refs) e (hold_from-IsTaken m.handle copy g.refs) in
            record {
              sound = record {
                size = t.size ∙ h.size;
                counted = omega (arith, h.counted, t.more any_handle);
              };
              bans = omega arith;
              balanced = λ k. omega (arith, t.more (that_handle k));
              ended = unended g.clean;
            }

less_one : (held n bound : ℕ) → held ≡ n + 1 → held ≤ 8192 → (held + 2 ^ 64 - 1) % 2 ^ 64 ≡ n
less_one held n bound e l = omega arith

release-IsStep : (m : Received) (g : Guardian) → IsSound g → IsStep g (release m g)
unfolding release
release-IsStep m g h =
    by_option (IsStep g) (release_from m.handle g.refs) (λ _. ignored-IsStep g h)
      λ released e.
        let f : Freed g.refs released =
          subst (IsFreed g.refs) e (release_from-IsFreed m.handle g.refs) in
        record {
          sound = record {
            size = f.size ∙ h.size;
            counted =
                less_one g.held _ 0 (omega (arith, h.counted, f.less any_handle))
                  (omega (arith, h.counted, open_count-any g.refs, h.size));
          };
          bans = omega arith;
          balanced = λ k. omega (arith, f.less (that_handle k));
          ended = unended g.clean;
        }

trip-IsStep : (g : Guardian) → IsSound g → IsStep g (trip g)
unfolding trip
trip-IsStep g h = record {
  sound = record { size = h.size; counted = h.counted };
  bans = once g.banned;
  balanced = λ k. none_handled g.banned (duplicated k) (closed k) _ refl refl;
  ended = unended g.clean;
}
  where
    once : (b : Bool) → tally quarantined (if b then [] else quarantine ∷ []) + one b ≡ 1
    once true = omega arith
    once false = omega arith

    none_handled :
        (b : Bool) (v w : Effect → ℕ) (n : ℕ)
        → v quarantine ≡ 0
        → w quarantine ≡ 0
        → tally v (if b then [] else quarantine ∷ []) + n
          ≡ tally w (if b then [] else quarantine ∷ []) + n
    none_handled true v w n p q = refl
    none_handled false v w n p q = omega arith

pub zero_of : (n : ℕ) → (n == 0) ≡ true → n ≡ 0
zero_of n e = ground arith

done-IsStep :
    (is_done : Bool) (g : Guardian)
    → IsSound g
    → (is_done && g.held == 0 && not g.banned) ≡ true
    → IsStep g (record { guardian = record g { clean = true }; effects = []; ack = 1 })
done-IsStep is_done g h e = record {
  sound = record { size = h.size; counted = h.counted };
  bans = omega arith;
  balanced = λ _. omega arith;
  ended = λ _ _. (
    zero_of g.held (second_true is_done _ (first_true _ _ e)),
    not-true g.banned (second_true _ _ e),
  );
}

pub guardian_step-IsStep : (m : Received) (g : Guardian) → IsSound g → IsStep g (guardian_step m g)
unfolding guardian_step
guardian_step-IsStep m g h =
    by_test (IsStep g) (m.operation == g_hold && not g.banned && ltb g.held max_references)
      (λ _. hold-IsStep m g h)
      λ _.
        by_test (IsStep g) (m.operation == g_release) (λ _. release-IsStep m g h)
          λ _.
            by_test (IsStep g) (m.operation == g_trip) (λ _. trip-IsStep g h)
              λ _.
                by_test (IsStep g) (m.operation == g_done && g.held == 0 && not g.banned)
                  (λ e. done-IsStep (m.operation == g_done) g h e) λ _. ignored-IsStep g h
