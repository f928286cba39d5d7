-- ===== src/Wire/Whole.antt =====
-- What agents/linux/wire_io.c promises: whole buffers, in order, whatever the kernel splits them into.
use tlslatch.Base.{
  ℕ, zero, suc, ◌+◌, ◌-◌, ◌^◌, ◌≤◌, ◌<◌, List, [], ◌∷◌, ◌++◌, true, false, leb, ◌==◌, length, take,
  drop, ◌≡◌, refl, sym, ◌∙◌, ap, arith, length-drop, Bool-cases, inl, inr,
}
use tlslatch.Wire.{
  htonl, tcpra_network_u64, Answer, interrupted, failed, moved, complete, after, tcpra_write_all,
  Vectors, both, second_only, sent_all, vector_bytes, consume, consume_second, write_vectors,
  tcpra_write_pair, is_sent_all,
}

-- The conversion to network order is its own inverse on 64-bit numbers.
tcpra_network_u64-involutive :
    (value : ℕ) → value < 2 ^ 64 → tcpra_network_u64 (tcpra_network_u64 value) ≡ value
unfolding tcpra_network_u64 htonl
tcpra_network_u64-involutive value h = omega arith

take-drop : (n : ℕ) (xs : List ℕ) → take n xs ++ drop n xs ≡ xs
take-drop zero xs = refl
take-drop (suc n) [] = refl
take-drop (suc n) (x ∷ xs) = ap (λ t. x ∷ t) (take-drop n xs)

-- A write that returns 1 has sent the whole buffer, in order.
tcpra_write_all-complete :
    (answers : List Answer) (buffer : List ℕ)
    → (tcpra_write_all answers buffer).status ≡ complete
    → (tcpra_write_all answers buffer).sent ≡ buffer
unfolding tcpra_write_all
tcpra_write_all-complete [] [] h = refl
tcpra_write_all-complete (a ∷ answers) [] h = refl
tcpra_write_all-complete [] (b ∷ buffer) h = cc
tcpra_write_all-complete (interrupted ∷ answers) (b ∷ buffer) h =
    tcpra_write_all-complete answers (b ∷ buffer) h
tcpra_write_all-complete (failed ∷ answers) (b ∷ buffer) h = cc
tcpra_write_all-complete (moved zero ∷ answers) (b ∷ buffer) h = cc
tcpra_write_all-complete (moved (suc n) ∷ answers) (b ∷ buffer) h =
    ap (λ t. b ∷ take n buffer ++ t) (tcpra_write_all-complete answers (drop n buffer) h)
    ∙ ap (λ t. b ∷ t) (take-drop n buffer)

-- The calls that moved something, if none of them failed.
abbrev pub count_moves : List Answer → ℕ
count_moves [] = 0
count_moves (interrupted ∷ answers) = count_moves answers
count_moves (failed ∷ answers) = 0
count_moves (moved zero ∷ answers) = 0
count_moves (moved (suc n) ∷ answers) = suc (count_moves answers)

-- A write returns 1 once the kernel has taken something as often as there are bytes, however often it
-- was interrupted in between.
pub tcpra_write_all-returns :
    (answers : List Answer) (buffer : List ℕ)
    → length buffer ≤ count_moves answers
    → (tcpra_write_all answers buffer).status ≡ complete
unfolding tcpra_write_all
tcpra_write_all-returns [] [] h = refl
tcpra_write_all-returns (a ∷ answers) [] h = refl
tcpra_write_all-returns [] (b ∷ buffer) h = absurd (omega arith)
tcpra_write_all-returns (interrupted ∷ answers) (b ∷ buffer) h =
    tcpra_write_all-returns answers (b ∷ buffer) h
tcpra_write_all-returns (failed ∷ answers) (b ∷ buffer) h = absurd (omega arith)
tcpra_write_all-returns (moved zero ∷ answers) (b ∷ buffer) h = absurd (omega arith)
tcpra_write_all-returns (moved (suc n) ∷ answers) (b ∷ buffer) h =
    tcpra_write_all-returns answers (drop n buffer) (omega (arith, length-drop n buffer))

drop-length-take : (n : ℕ) (xs : List ℕ) → drop (length (take n xs)) xs ≡ drop n xs
drop-length-take zero xs = refl
drop-length-take (suc n) [] = refl
drop-length-take (suc n) (x ∷ xs) = drop-length-take n xs

-- The vectors whose bytes are all sent are at their end.
IsLive : Vectors → Type 0
IsLive v = vector_bytes v ≡ [] → is_sent_all v ≡ true

nonempty : {xs : List ℕ} → xs ≡ [] → length xs ≡ 0
nonempty e = ap length e

length-append_nat : (xs ys : List ℕ) → length (xs ++ ys) ≡ length xs + length ys
length-append_nat [] ys = omega arith
length-append_nat (x ∷ xs) ys = omega (arith, length-append_nat xs ys)

drop-all : (n : ℕ) (xs : List ℕ) → length xs ≤ n → drop n xs ≡ []
drop-all zero [] h = refl
drop-all zero (x ∷ xs) h = absurd (omega arith)
drop-all (suc n) [] h = refl
drop-all (suc n) (x ∷ xs) h = drop-all n xs (omega arith)

drop-append_left : (n : ℕ) (xs ys : List ℕ) → n ≤ length xs → drop n (xs ++ ys) ≡ drop n xs ++ ys
drop-append_left zero xs ys h = refl
drop-append_left (suc n) [] ys h = absurd (omega arith)
drop-append_left (suc n) (x ∷ xs) ys h = drop-append_left n xs ys (omega arith)

drop-append_right :
    (n : ℕ) (xs ys : List ℕ) → length xs ≤ n → drop n (xs ++ ys) ≡ drop (n - length xs) ys
drop-append_right n [] ys h = ap (λ k. drop k ys) (omega arith)
drop-append_right zero (x ∷ xs) ys h = absurd (omega arith)
drop-append_right (suc n) (x ∷ xs) ys h =
    let e : n - length xs ≡ suc n - suc (length xs) = omega arith in
    drop-append_right n xs ys (omega arith) ∙ ap (λ k. drop k ys) e

-- The inner loop drops what was sent, and stops at the end only.
consume_second-drops :
    (n : ℕ) (second : List ℕ)
    → (vector_bytes (consume_second n second) ≡ drop n second) × IsLive (consume_second n second)
unfolding consume_second IsLive
consume_second-drops n second = elim (Bool-cases (leb (length second) n)) [
  | inl e ↦ rw e (sym (drop-all n second (ground arith)), λ h. refl)
  | inr e ↦ rw e (refl, λ h. let l = ap length h in absurd (ground (arith, length-drop n second)))
]

consume-drops :
    (n : ℕ) (v : Vectors)
    → (vector_bytes (consume n v) ≡ drop n (vector_bytes v)) × IsLive (consume n v)
unfolding consume IsLive
consume-drops n sent_all = (sym (drop-all n [] (omega arith)), λ h. refl)
consume-drops n (second_only second) = consume_second-drops n second
consume-drops n (both first second) = elim (Bool-cases (leb (length first) n)) [
  | inl e ↦
      let (d, l) = consume_second-drops (n - length first) second in
      rw e (d ∙ sym (drop-append_right n first second (ground arith)), l)
  | inr e ↦ rw e (
    sym (drop-append_left n first second (ground arith)),
    λ h.
        let l = ap length h in
        absurd (ground (arith, length-drop n first, length-append_nat (drop n first) second)),
  )
]

sent_all-empty : (v : Vectors) → is_sent_all v ≡ true → vector_bytes v ≡ []
sent_all-empty (both first second) h = cc
sent_all-empty (second_only second) h = cc
sent_all-empty sent_all h = refl

still_there :
    (v : Vectors) (b : ℕ) (buffer : List ℕ) → vector_bytes v ≡ b ∷ buffer → is_sent_all v ≡ false
still_there v b buffer e = elim (Bool-cases (is_sent_all v)) [
  | inl h ↦ let n = sent_all-empty v h in cc
  | inr h ↦ h
]

write_vectors-as-write_all :
    (answers : List Answer) (v : Vectors) (bytes : List ℕ)
    → vector_bytes v ≡ bytes
    → IsLive v
    → write_vectors answers v ≡ tcpra_write_all answers bytes
unfolding write_vectors tcpra_write_all IsLive
write_vectors-as-write_all [] v [] e l = rw (l e) refl
write_vectors-as-write_all [] v (b ∷ buffer) e l = rw (still_there v b buffer e) refl
write_vectors-as-write_all (interrupted ∷ answers) v [] e l =
    write_vectors-as-write_all answers v [] e l ∙ empty answers
  where
    empty :
        (answers : List Answer)
        → tcpra_write_all answers [] ≡ record { status = complete; sent = [] }
    empty [] = refl
    empty (a ∷ answers) = refl
write_vectors-as-write_all (interrupted ∷ answers) v (b ∷ buffer) e l =
    write_vectors-as-write_all answers v (b ∷ buffer) e l
write_vectors-as-write_all (failed ∷ answers) v [] e l = rw (l e) refl
write_vectors-as-write_all (failed ∷ answers) v (b ∷ buffer) e l =
    rw (still_there v b buffer e) refl
write_vectors-as-write_all (moved n ∷ answers) v [] e l = rw (l e) refl
write_vectors-as-write_all (moved zero ∷ answers) v (b ∷ buffer) e l =
    rw (still_there v b buffer e) refl
write_vectors-as-write_all (moved (suc n) ∷ answers) v (b ∷ buffer) e l =
    let k = suc (length (take n buffer)) in
    let (d, live) = consume-drops k v in
    let rest =
      write_vectors-as-write_all answers (consume k v) (drop n buffer)
        (d ∙ ap (λ t. drop k t) e ∙ drop-length-take n buffer) live in
    let some_sent : (suc (length (take n buffer)) == 0) ≡ false = ground arith in
    rw (still_there v b buffer e, e, some_sent) (ap (λ t. after (b ∷ take n buffer) t) rest)

-- Two buffers that are not both empty are sent as their concatenation would be: the same bytes, in the
-- same calls, with the same answer.
pub tcpra_write_pair-as-write_all :
    (answers : List Answer) (first second : List ℕ)
    → 0 < length first + length second
    → tcpra_write_pair answers first second ≡ tcpra_write_all answers (first ++ second)
unfolding tcpra_write_pair IsLive
tcpra_write_pair-as-write_all answers first second h =
    write_vectors-as-write_all answers (both first second) (first ++ second) refl
      (λ e. let l = ap length e in absurd (omega (arith, length-append_nat first second)))
