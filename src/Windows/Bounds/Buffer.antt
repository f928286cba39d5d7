-- ===== src/Windows/Bounds/Buffer.antt =====
-- agents/windows/tcpra_agent_c.c: the buffers grow to what is needed, and no further than 256 KiB.
use tlslatch.Base.{
  ℕ, zero, suc, ◌+◌, ◌*◌, ◌/◌, ◌≤◌, ◌≡◌, List, Option, some, none, Bool, true, ltb, ◌==◌, ◌&&◌,
  if◌then◌else◌, length, length-append, by_test, arith, Result, Safe, returns, rejects, Safe->>=,
  Safe-branch,
}
use tlslatch.Windows.{ByteBuffer, tls_cap}
use tlslatch.Windows.Buffer.{grow, new_capacity, reserve, append_within, buffer_append}

pub record IsBuffer (buffer : ByteBuffer) : Type 0 where
  pub fits : length buffer.bytes ≤ buffer.capacity
  pub bounded : buffer.capacity ≤ tls_cap

grow-le : (fuel capacity wanted : ℕ) → capacity ≤ tls_cap → grow fuel capacity wanted ≤ tls_cap
unfolding grow
grow-le zero capacity wanted h = h
grow-le (suc fuel) capacity wanted h =
    by_test (λ n. n ≤ tls_cap) (ltb capacity wanted && ltb capacity (tls_cap / 2))
      (λ e. grow-le fuel (capacity * 2) wanted (half e)) λ _. h
  where
    half : (ltb capacity wanted && ltb capacity (tls_cap / 2)) ≡ true → capacity * 2 ≤ tls_cap
    half e = ground arith

pub new_capacity-le :
    (capacity wanted : ℕ)
    → capacity ≤ tls_cap
    → wanted ≤ tls_cap
    → (wanted ≤ new_capacity capacity wanted) × (new_capacity capacity wanted ≤ tls_cap)
unfolding new_capacity
new_capacity-le capacity wanted h w =
    let start = if capacity == 0 then 4096 else capacity in
    let grown : grow 18 start wanted ≤ tls_cap = grow-le 18 start wanted (ground arith) in
    by_test (λ n. (wanted ≤ n) × (n ≤ tls_cap)) (ltb (grow 18 start wanted) wanted)
      (λ _. (w, omega arith)) λ e. (ground arith, grown)

-- Room that is had is enough, and in the limit.
pub IsRoom : ℕ → Option ℕ → Type 0
IsRoom wanted none = Unit
IsRoom wanted (some capacity) = (wanted ≤ capacity) × (capacity ≤ tls_cap)

pub reserve-IsRoom :
    (allocates : ℕ → Bool) (capacity wanted : ℕ)
    → capacity ≤ tls_cap
    → wanted ≤ tls_cap
    → IsRoom wanted (reserve allocates capacity wanted)
unfolding reserve IsRoom
reserve-IsRoom allocates capacity wanted h w =
    by_test (IsRoom wanted) (ltb capacity wanted)
      (λ _.
        by_test (IsRoom wanted) (allocates (new_capacity capacity wanted))
          (λ _. new_capacity-le capacity wanted h w) λ _. tt)
      λ e. (ground arith, h)

pub append_within-Safe :
    (capacity : ℕ) (bytes part : List ℕ)
    → length bytes + length part ≤ capacity
    → Safe
        (λ (b : List ℕ). length b ≡ length bytes + length part)
        (append_within capacity bytes part)
unfolding append_within
append_within-Safe capacity bytes part h =
    Safe-branch _ _ _ (λ _. returns _ (length-append bytes part)) λ e. absurd (ground arith)

-- To go on with room, or to give up without.
module _ {B : Type 0} {Q : B → Type 0} where
  pub Safe-room :
      (wanted : ℕ) (o : Option ℕ) {n : Result B} {f : ℕ → Result B}
      → IsRoom wanted o
      → Safe Q n
      → ((capacity : ℕ) → wanted ≤ capacity → capacity ≤ tls_cap → Safe Q (f capacity))
      → Safe Q (elim o [ none ↦ n | some capacity ↦ f capacity ])
  unfolding IsRoom
  Safe-room wanted none h n k = n
  Safe-room wanted (some capacity) h n k = k capacity h.0 h.1

pub buffer_append-Safe :
    (allocates : ℕ → Bool) (buffer : ByteBuffer) (part : List ℕ)
    → IsBuffer buffer
    → Safe IsBuffer (buffer_append allocates buffer part)
unfolding buffer_append
buffer_append-Safe allocates buffer part h =
    let f : length buffer.bytes ≤ buffer.capacity = h.fits in
    let b : buffer.capacity ≤ tls_cap = h.bounded in
    Safe-branch _ _ _ (λ _. returns _ h)
      λ _.
        Safe-branch _ _ _ (λ _. rejects)
          λ room.
            let wanted : length buffer.bytes + length part ≤ tls_cap = ground arith in
            Safe-room (length buffer.bytes + length part) _
              (reserve-IsRoom allocates buffer.capacity _ b wanted) rejects
              λ capacity enough limit.
                Safe->>= _ _ (append_within-Safe capacity buffer.bytes part enough)
                  λ bytes e. returns _ (record { fits = omega arith; bounded = limit })
