-- ===== src/Tls/Cursor.antt =====
-- A place in a buffer: what stands from index `i` on, and what the reads of tls_parse.c find there.
use mathlib.Core.Path.{◌≡◌}
use tlslatch.Base.{
  ℕ, suc, ◌+◌, ◌<◌, refl, sym, ap, ◌∙◌, Bool, true, false, List, [], ◌∷◌, ◌++◌, length, get_elem?,
  arith, Result, ok, reject, ◌>>=◌, ◌>>◌, reject_if, branch, read, slice, slice-ok, length-append,
  take-append, drop-append, some, append_assoc, get_elem?-append,
}
use tlslatch.Tls.Digest.{read16, read24, be16, be24}
use tlslatch.Tls.Format.{put16, put24}
use Prim.Native.Nat.{◌/◌, ◌%◌}

pub record At (buffer : List ℕ) (i : ℕ) (rest : List ℕ) : Type 0 where
  pub front : List ℕ
  pub splits : buffer ≡ front ++ rest
  pub index : i ≡ length front

pub At-start : (buffer : List ℕ) → At buffer 0 buffer
At-start buffer = record { front = []; splits = refl; index = refl }

module _ {buffer : List ℕ} {i : ℕ} where
  pub At-length : (rest : List ℕ) → At buffer i rest → length buffer ≡ i + length rest
  At-length rest h = rw h.splits (omega (arith, length-append h.front rest, h.index))

  pub At-skip :
      (xs rest : List ℕ) (j : ℕ) → At buffer i (xs ++ rest) → j ≡ i + length xs → At buffer j rest
  At-skip xs rest j h e = record {
    front = h.front ++ xs;
    splits = h.splits ∙ sym (append_assoc h.front xs rest);
    index = omega (arith, length-append h.front xs, h.index);
  }

  At-get :
      (rest : List ℕ) (j k : ℕ)
      → At buffer i rest
      → j ≡ i + k
      → get_elem? buffer j ≡ get_elem? rest k
  At-get rest j k h e =
      let e' : j ≡ length h.front + k = omega (arith, h.index) in
      rw (h.splits, e') (get_elem?-append h.front rest k)

  pub At-read :
      (j k x : ℕ) {rest : List ℕ}
      → At buffer i rest
      → j ≡ i + k
      → get_elem? rest k ≡ some x
      → read buffer j ≡ ok x
  unfolding read
  At-read j k x {rest} h e g = rw (At-get rest j k h e, g, read)

  pub At-slice :
      (xs rest : List ℕ) (n : ℕ)
      → At buffer i (xs ++ rest)
      → n ≡ length xs
      → slice buffer i n ≡ ok xs
  At-slice xs rest n h e =
      slice-ok buffer i n (omega (arith, At-length (xs ++ rest) h, length-append xs rest))
      ∙ ap ok (rw (h.splits, h.index, e, drop-append h.front (xs ++ rest)) (take-append xs rest))

  pub At-read16 :
      (j k x y : ℕ) {rest : List ℕ}
      → At buffer i rest
      → j ≡ i + k
      → get_elem? rest k ≡ some x
      → get_elem? rest (suc k) ≡ some y
      → read16 buffer j ≡ ok (be16 x y)
  unfolding read16 ◌>>=◌
  At-read16 j k x y h e p q = rw (At-read j k x h e p, At-read (j + 1) (suc k) y h (omega arith) q)

  pub At-read24 :
      (j k x y z : ℕ) {rest : List ℕ}
      → At buffer i rest
      → j ≡ i + k
      → get_elem? rest k ≡ some x
      → get_elem? rest (suc k) ≡ some y
      → get_elem? rest (suc (suc k)) ≡ some z
      → read24 buffer j ≡ ok (be24 x y z)
  unfolding read24 ◌>>=◌
  At-read24 j k x y z h e p q r = rw (
    At-read j k x h e p,
    At-read (j + 1) (suc k) y h (omega arith) q,
    At-read (j + 2) (suc (suc k)) z h (omega arith) r,
  )

-- One step of a `do` block, towards the value of the whole.
module _ {A : Type 0} {B : Type 0} where
  pub bind-ok :
      (m : Result A) (f : A → Result B) {a : A} {r : Result B} → m ≡ ok a → f a ≡ r → (m >>= f) ≡ r
  unfolding ◌>>=◌
  bind-ok m f e h = rw e h

module _ {B : Type 0} where
  pub reject_if-pass :
      (test : Bool) (k : Result B) {r : Result B} → test ≡ false → k ≡ r → (reject_if test >> k) ≡ r
  unfolding ◌>>=◌ reject_if
  reject_if-pass test k e h = rw e h

  pub reject_if-stop : (test : Bool) (k : Result B) → test ≡ true → (reject_if test >> k) ≡ reject
  unfolding ◌>>=◌ reject_if
  reject_if-stop test k e = rw e

  pub branch-true :
      (test : Bool) (x y : Result B) {r : Result B} → test ≡ true → x ≡ r → branch test x y ≡ r
  unfolding branch
  branch-true test x y e h = rw e h

  pub branch-false :
      (test : Bool) (x y : Result B) {r : Result B} → test ≡ false → y ≡ r → branch test x y ≡ r
  unfolding branch
  branch-false test x y e h = rw e h

-- The numbers that the printers of `Format` write, read back.
module _ {buffer : List ℕ} {i : ℕ} {rest : List ℕ} where
  pub At-u8 : (x j : ℕ) → At buffer i (x ∷ rest) → j ≡ i → read buffer j ≡ ok x
  At-u8 x j h e = At-read j 0 x h (omega arith) refl

  pub At-u16 : (n j : ℕ) → At buffer i (put16 n rest) → j ≡ i → n < 65536 → read16 buffer j ≡ ok n
  At-u16 n j h e l =
      At-read16 j 0 (n / 256 % 256) (n % 256) h (omega arith) refl refl ∙ ap ok (omega arith)

  pub At-u24 :
      (n j : ℕ) → At buffer i (put24 n rest) → j ≡ i → n < 16777216 → read24 buffer j ≡ ok n
  At-u24 n j h e l =
      At-read24 j 0 (n / 65536 % 256) (n / 256 % 256) (n % 256) h (omega arith) refl refl refl
      ∙ ap ok (omega arith)

  pub At-past8 : (x j : ℕ) → At buffer i (x ∷ rest) → j ≡ i + 1 → At buffer j rest
  At-past8 x j h e = At-skip (x ∷ []) rest j h (omega arith)

  pub At-past16 : (n j : ℕ) → At buffer i (put16 n rest) → j ≡ i + 2 → At buffer j rest
  At-past16 n j h e = At-skip (put16 n []) rest j h (omega arith)

  pub At-past24 : (n j : ℕ) → At buffer i (put24 n rest) → j ≡ i + 3 → At buffer j rest
  At-past24 n j h e = At-skip (put24 n []) rest j h (omega arith)
