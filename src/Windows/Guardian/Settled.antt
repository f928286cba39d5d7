-- ===== src/Windows/Guardian/Settled.antt =====
-- agents/windows/guardian.c: how the guardian of a worker ends.
use tlslatch.Base.{
  ℕ, ◌+◌, ◌≡◌, refl, List, [], ◌∷◌, ◌++◌, none, Bool, true, false, not, ◌&&◌, ◌||◌, if◌then◌else◌,
  arith, by_test, by_option, length-replicate, ap,
}
use tlslatch.Windows.Guardian.{
  max_references, Reference, Guardian, Received, Effect, quarantine, guardian_step, Ended,
  guardian_loop, close_all, guardian_end, new_guardian, guard_parent,
}
use tlslatch.Windows.Guardian.Tally.{
  tally, tally-append, one, quarantined, duplicated, closed, weight_of, open_count, any_handle,
  that_handle, open_count-replicate,
}
use tlslatch.Windows.Guardian.Step.{IsSound, guardian_step-IsStep}

-- What the loop leaves, in the words of one message.
record IsEnded (g : Guardian) (e : Ended) : Type 0 where
  sound : IsSound e.guardian
  bans : tally quarantined e.effects + one g.banned ≡ one e.guardian.banned
  balanced :
      (h : ℕ)
      → tally (duplicated h) e.effects + open_count (that_handle h) g.refs
        ≡ tally (closed h) e.effects + open_count (that_handle h) e.guardian.refs
  ended : e.guardian.clean ≡ true → (e.guardian.held ≡ 0) × (e.guardian.banned ≡ false)

second_false : (a b : Bool) → (a || b) ≡ false → b ≡ false
second_false true b e = absurd (cc)
second_false false b e = e

guardian_loop-IsEnded :
    (messages : List Received) (g : Guardian)
    → IsSound g
    → g.clean ≡ false
    → IsEnded g (guardian_loop messages g)
unfolding guardian_loop
guardian_loop-IsEnded [] g h c = record {
  sound = h;
  bans = omega arith;
  balanced = λ _. omega arith;
  ended = λ e. absurd (cc);
}
guardian_loop-IsEnded (m ∷ rest) g h c =
    let step = guardian_step-IsStep m g h in
    by_test (IsEnded g) (not m.ack_written || (guardian_step m g).guardian.clean)
      (λ _. record {
        sound = step.sound;
        bans = step.bans;
        balanced = step.balanced;
        ended = step.ended c;
      })
      λ e.
        let later : IsEnded (guardian_step m g).guardian
            (guardian_loop rest (guardian_step m g).guardian) =
          guardian_loop-IsEnded rest (guardian_step m g).guardian step.sound
            (second_false (not m.ack_written) (guardian_step m g).guardian.clean e) in
        record {
          sound = later.sound;
          bans = omega (arith, step.bans, later.bans, tally-append quarantined _ _);
          balanced = λ k. omega (
            arith,
            step.balanced k,
            later.balanced k,
            tally-append (duplicated k) (guardian_step m g).effects _,
            tally-append (closed k) (guardian_step m g).effects _,
          );
          ended = later.ended;
        }

-- The handles that are closed in the end.
record IsClosing (refs : List Reference) (effects : List Effect) : Type 0 where
  calm : tally quarantined effects ≡ 0
  none_opened : (h : ℕ) → tally (duplicated h) effects ≡ 0
  all_closed : (h : ℕ) → tally (closed h) effects ≡ open_count (that_handle h) refs

close_all-IsClosing : (refs : List Reference) → IsClosing refs (close_all refs)
unfolding close_all
close_all-IsClosing [] = record { calm = refl; none_opened = λ _. refl; all_closed = λ _. refl }
close_all-IsClosing (ref ∷ rest) =
    let k = close_all-IsClosing rest in
    by_option (IsClosing (ref ∷ rest)) ref.handle
      (λ e. record {
        calm = k.calm;
        none_opened = k.none_opened;
        all_closed = λ h. omega (arith, k.all_closed h, ap (weight_of (that_handle h)) e);
      })
      λ copy e. record {
        calm = omega (arith, k.calm);
        none_opened = λ h. omega (arith, k.none_opened h);
        all_closed = λ h. omega (arith, k.all_closed h, ap (weight_of (that_handle h)) e);
      }

-- The endpoint is in quarantine once if the end is not clean, and never if it is; each copy was closed
-- as often as it was made; a clean end has nothing held.
pub record IsSettled (run : Ended) : Type 0 where
  pub refuge : tally quarantined run.effects ≡ (if run.guardian.clean then 0 else 1)
  pub banned : run.guardian.banned ≡ not run.guardian.clean
  pub balanced : (h : ℕ) → tally (duplicated h) run.effects ≡ tally (closed h) run.effects
  pub released : run.guardian.clean ≡ true → run.guardian.held ≡ 0

-- The quarantine at the end, by the two flags.
abbrev last : Bool → Bool → List Effect
last clean banned = if not clean && not banned then quarantine ∷ [] else []

last-tally :
    (clean banned : Bool) (n : ℕ)
    → n + 0 ≡ one banned
    → (clean ≡ true → banned ≡ false)
    → n + tally quarantined (last clean banned) ≡ (if clean then 0 else 1)
last-tally true true n e k = absurd (let c = k refl in cc)
last-tally true false n e k = omega arith
last-tally false true n e k = omega arith
last-tally false false n e k = omega arith

last-handles :
    (clean banned : Bool) (h : ℕ)
    → (tally (duplicated h) (last clean banned) ≡ 0) × (tally (closed h) (last clean banned) ≡ 0)
last-handles true banned h = (refl, refl)
last-handles false true h = (refl, refl)
last-handles false false h = (refl, refl)

banned-end :
    (clean banned : Bool) → (clean ≡ true → banned ≡ false) → (banned || not clean) ≡ not clean
banned-end true true k = absurd (let c = k refl in cc)
banned-end true false k = refl
banned-end false true k = refl
banned-end false false k = refl

abbrev no_reference : Reference
no_reference = record { worker_handle = 0; handle = none }

pub new_guardian-IsSound : IsSound new_guardian
new_guardian-IsSound = record {
  size = length-replicate max_references no_reference;
  counted = omega (arith, open_count-replicate any_handle max_references);
}

joined :
    (weight : Effect → ℕ) (xs ys zs : List Effect)
    → tally weight (xs ++ (ys ++ zs)) ≡ tally weight xs + tally weight ys + tally weight zs
joined weight xs ys zs = omega (arith, tally-append weight xs (ys ++ zs), tally-append weight ys zs)

abbrev with_end : Ended → Ended
with_end run = record {
  guardian = (guardian_end run.guardian).guardian;
  effects = run.effects ++ (guardian_end run.guardian).effects;
}

with_end-IsSettled : (run : Ended) → IsEnded new_guardian run → IsSettled (with_end run)
unfolding guardian_end
with_end-IsSettled run e =
    let k = close_all-IsClosing run.guardian.refs in
    let flags = last-handles run.guardian.clean run.guardian.banned in
    let parts : (weight : Effect → ℕ)
        → tally weight (with_end run).effects
          ≡ tally weight run.effects
            + tally weight (last run.guardian.clean run.guardian.banned)
            + tally weight (close_all run.guardian.refs) =
      λ weight. joined weight run.effects _ _ in
    record {
      refuge = omega (
        arith,
        parts quarantined,
        k.calm,
        last-tally run.guardian.clean run.guardian.banned (tally quarantined run.effects) e.bans
            (λ c. (e.ended c).1),
      );
      banned = banned-end run.guardian.clean run.guardian.banned (λ c. (e.ended c).1);
      balanced = λ h. omega (
        arith,
        parts (duplicated h),
        parts (closed h),
        e.balanced h,
        open_count-replicate (that_handle h) max_references,
        (flags h).0,
        (flags h).1,
        k.none_opened h,
        k.all_closed h,
      );
      released = λ c. (e.ended c).0;
    }

-- Whatever messages the worker sends, whatever copies of handles can be made, and whenever an answer
-- cannot be written or the worker ends: the guardian ends cleanly, with nothing held and never having
-- put the endpoint in quarantine, or it puts it in quarantine, exactly once; and every copy of a handle
-- is closed as often as it was made.
pub guard_parent-IsSettled : (messages : List Received) → IsSettled (guard_parent messages)
unfolding guard_parent
guard_parent-IsSettled messages =
    with_end-IsSettled (guardian_loop messages new_guardian)
      (guardian_loop-IsEnded messages new_guardian new_guardian-IsSound refl)
