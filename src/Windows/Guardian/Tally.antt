-- ===== src/Windows/Guardian/Tally.antt =====
-- agents/windows/guardian.c: how often an effect occurs, and how many references have a handle.
use tlslatch.Base.{
  ℕ, zero, suc, ◌+◌, ◌≤◌, ◌≡◌, refl, List, [], ◌∷◌, ◌++◌, Option, some, none, Bool, true, false,
  ◌==◌, length, replicate, arith,
}
use tlslatch.Windows.Guardian.{Reference, Effect, quarantine, duplicate_handle, close_handle}

abbrev pub tally : (Effect → ℕ) → List Effect → ℕ
tally weight [] = 0
tally weight (e ∷ rest) = weight e + tally weight rest

pub tally-append :
    (weight : Effect → ℕ) (xs ys : List Effect)
    → tally weight (xs ++ ys) ≡ tally weight xs + tally weight ys
tally-append weight [] ys = omega arith
tally-append weight (x ∷ xs) ys = omega (arith, tally-append weight xs ys)

abbrev pub one : Bool → ℕ
one true = 1
one false = 0

abbrev pub quarantined : Effect → ℕ
quarantined quarantine = 1
quarantined (duplicate_handle _) = 0
quarantined (close_handle _) = 0

abbrev pub duplicated : ℕ → Effect → ℕ
duplicated h quarantine = 0
duplicated h (duplicate_handle copy) = one (copy == h)
duplicated h (close_handle _) = 0

abbrev pub closed : ℕ → Effect → ℕ
closed h quarantine = 0
closed h (duplicate_handle _) = 0
closed h (close_handle copy) = one (copy == h)

-- The references whose handle is of a kind.
abbrev pub weight_of : (ℕ → ℕ) → Option ℕ → ℕ
weight_of weight none = 0
weight_of weight (some copy) = weight copy

abbrev pub open_count : (ℕ → ℕ) → List Reference → ℕ
open_count weight [] = 0
open_count weight (ref ∷ rest) = weight_of weight ref.handle + open_count weight rest

abbrev pub any_handle : ℕ → ℕ
any_handle _ = 1

abbrev pub that_handle : ℕ → ℕ → ℕ
that_handle h copy = one (copy == h)

pub open_count-replicate :
    (weight : ℕ → ℕ) (n : ℕ)
    → open_count weight (replicate n (record { worker_handle = 0; handle = none })) ≡ 0
open_count-replicate weight zero = refl
open_count-replicate weight (suc n) = omega (arith, open_count-replicate weight n)

pub open_count-any : (refs : List Reference) → open_count any_handle refs ≤ length refs
open_count-any [] = omega arith
open_count-any (ref ∷ rest) = omega (arith, open_count-any rest, weight_of-any ref.handle)
  where
    weight_of-any : (o : Option ℕ) → weight_of any_handle o ≤ 1
    weight_of-any none = omega arith
    weight_of-any (some copy) = omega arith
