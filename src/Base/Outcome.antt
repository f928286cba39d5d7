-- ===== src/Base/Outcome.antt =====
-- The outcome of a C function that reads a buffer: a value, `return 0`, a read outside the buffer,
-- which C leaves undefined, or a loop that has not ended when its fuel ran out.
use Prim.Native.Nat.{ℕ, ◌+◌, ◌≤◌, ◌<◌}
use mathlib.Core.Path.{◌≡◌, refl, sym, subst}
use mathlib.Core.Bool.{Bool, true, false}
use mathlib.Core.List.{List}
use mathlib.Core.Option.{Option, none, some}
use native.Mathlib.Omega.{arith}
use tlslatch.Base.Tests.{leb, le→leb, if◌then◌else◌}
use tlslatch.Base.Lists.{
  length, get_elem?, get_or, get_elem?-eq-get_or, take, drop, length-take, length-drop,
}

pub data Result {ℓ} (A : Type ℓ) : Type ℓ where
  ok : A → Result A
  reject : Result A
  fault : Result A
  stuck : Result A

infixl 5 ◌>>=◌ ◌>>◌
unfoldable pub ◌>>=◌ {ℓ κ} : {A : Type ℓ} {B : Type κ} → Result A → (A → Result B) → Result B
ok a >>= f = f a
reject >>= f = reject
fault >>= f = fault
stuck >>= f = stuck

abbrev pub ◌>>◌ {ℓ} : {B : Type ℓ} → Result (Unit {0}) → Result B → Result B
m >> k = m >>= λ _. k

-- `if (test) return 0;`
unfoldable pub reject_if : Bool → Result (Unit {0})
reject_if true = reject
reject_if false = ok tt

-- The answer of a function, of which `return 0` is one case: for `if (!function(…))`.
unfoldable pub attempt {ℓ} : {A : Type ℓ} → Result A → Result (Option A)
attempt (ok a) = ok (some a)
attempt reject = ok none
attempt fault = fault
attempt stuck = stuck

pub attempt-ok {ℓ} : {A : Type ℓ} (m : Result A) {a : A} → m ≡ ok a → attempt m ≡ ok (some a)
unfolding attempt
attempt-ok m e = rw e

-- `if (test) …; else …;` where both go on to a `return`
unfoldable pub branch {ℓ} : {A : Type ℓ} → Bool → Result A → Result A → Result A
branch true x y = x
branch false x y = y

-- `buffer[i]`
unfoldable pub read : List ℕ → ℕ → Result ℕ
read buffer i = elim (get_elem? buffer i) [ some b ↦ ok b | none ↦ fault ]

-- The `n` bytes from `buffer + i` on, as handed to another function or to `memcpy`.
unfoldable pub slice : List ℕ → ℕ → ℕ → Result (List ℕ)
slice buffer i n = if leb (i + n) (length buffer) then ok (take n (drop i buffer)) else fault

-- No read is outside its buffer, the loops end, and a value that is returned satisfies `Q`.
pub data Safe {A : Type 0} (Q : A → Type 0) : Result A → Type 0 where
  returns : (a : A) → Q a → Safe Q (ok a)
  rejects : Safe Q reject

module _ {A B : Type 0} {P : A → Type 0} {Q : B → Type 0} where
  pub Safe->>= :
      (m : Result A) (f : A → Result B)
      → Safe P m
      → ((a : A) → P a → Safe Q (f a))
      → Safe Q (m >>= f)
  unfolding ◌>>=◌
  Safe->>= m f (returns a p) k = k a p
  Safe->>= m f rejects k = rejects

module _ {A : Type 0} {Q : A → Type 0} where
  pub Safe-ok : {m : Result A} {a : A} → Safe Q m → m ≡ ok a → Q a
  Safe-ok {a = a} (returns b q) e = let same : b ≡ a = cc in subst Q same q
  Safe-ok rejects e = absurd (cc)

module _ {A : Type 0} {P Q : A → Type 0} where
  pub Safe-implies : {m : Result A} → Safe P m → ((a : A) → P a → Q a) → Safe Q m
  Safe-implies (returns a p) k = returns a (k a p)
  Safe-implies rejects k = rejects

module _ {A B : Type 0} {P : A → Type 0} {Q : B → Type 0} where
  pub Safe-attempt :
      (m : Result A) (f : Option A → Result B)
      → Safe P m
      → Safe Q (f none)
      → ((a : A) → P a → Safe Q (f (some a)))
      → Safe Q (attempt m >>= f)
  unfolding attempt ◌>>=◌
  Safe-attempt m f (returns a p) n k = k a p
  Safe-attempt m f rejects n k = n

module _ {B : Type 0} {Q : B → Type 0} where
  pub Safe-reject_if :
      (test : Bool) (k : Result B) → (test ≡ false → Safe Q k) → Safe Q (reject_if test >> k)
  unfolding reject_if ◌>>=◌
  Safe-reject_if true k h = rejects
  Safe-reject_if false k h = h refl

  pub Safe-branch :
      (test : Bool) (x y : Result B)
      → (test ≡ true → Safe Q x)
      → (test ≡ false → Safe Q y)
      → Safe Q (branch test x y)
  unfolding branch
  Safe-branch true x y h k = h refl
  Safe-branch false x y h k = k refl

pub read-ok : (buffer : List ℕ) (i : ℕ) → i < length buffer → read buffer i ≡ ok (get_or buffer i 0)
unfolding read
read-ok buffer i h = rw (get_elem?-eq-get_or buffer i 0 h, read)

pub slice-ok :
    (buffer : List ℕ) (i n : ℕ)
    → i + n ≤ length buffer
    → slice buffer i n ≡ ok (take n (drop i buffer))
unfolding slice
slice-ok buffer i n h = rw (le→leb _ _ h, slice)

pub slice-Safe :
    (buffer : List ℕ) (i n : ℕ)
    → i + n ≤ length buffer
    → Safe (λ (part : List ℕ). length part ≡ n) (slice buffer i n)
slice-Safe buffer i n h =
    subst (λ m. Safe (λ (part : List ℕ). length part ≡ n) m) (sym (slice-ok buffer i n h))
      (returns _ (omega (arith, length-take n (drop i buffer), length-drop i buffer)))

-- Read or cut out at a place inside the buffer, and go on with any value.
module _ {B : Type 0} {Q : B → Type 0} (buffer : List ℕ) where
  pub Safe-read :
      (i : ℕ) (f : ℕ → Result B)
      → i < length buffer
      → ((b : ℕ) → Safe Q (f b))
      → Safe Q (read buffer i >>= f)
  unfolding ◌>>=◌
  Safe-read i f h k = subst (λ m. Safe Q (m >>= f)) (sym (read-ok buffer i h)) (k _)

  pub Safe-slice :
      (i n : ℕ) (f : List ℕ → Result B)
      → i + n ≤ length buffer
      → ((part : List ℕ) → length part ≡ n → Safe Q (f part))
      → Safe Q (slice buffer i n >>= f)
  unfolding ◌>>=◌
  Safe-slice i n f h k =
      subst (λ m. Safe Q (m >>= f)) (sym (slice-ok buffer i n h))
        (k (take n (drop i buffer))
          (omega (arith, length-take n (drop i buffer), length-drop i buffer)))

-- What is returned safely is what is returned.
module _ {A : Type 0} {Q : A → Type 0} where
  pub returns_itself : {m : Result A} → Safe Q m → Safe (λ a. m ≡ ok a) m
  returns_itself (returns a q) = returns a refl
  returns_itself rejects = rejects
