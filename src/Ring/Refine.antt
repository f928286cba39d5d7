-- ===== src/Ring/Refine.antt =====
-- The job and decision queues of agents/linux as first-in first-out queues of at most 8192 entries.
use tlslatch.Base.{
  ℕ, zero, suc, ◌+◌, ◌%◌, ◌≤◌, ◌<◌, List, [], ◌∷◌, ◌++◌, Option, some, none, Bool, true, false, ltb,
  ◌==◌, ◌&&◌, get_elem?, set, length, ◌≡◌, refl, sym, ◌∙◌, ap, arith, length-set,
  get_elem?-set_self, get_elem?-set_ne, Bool-cases, ◌⊎◌, inl, inr,
}
use tlslatch.Ring.{ring_capacity, Ring, enqueue, dequeue}

module _ {A : Type 0} where
  -- The array has its size, the positions are in it, and the tail is `count` behind the head.
  pub record IsValid (r : Ring A) : Type 0 where
    pub size : length r.slots ≡ ring_capacity
    pub head_in : r.head < ring_capacity
    pub few : r.count ≤ ring_capacity
    pub tail_at : r.tail ≡ (r.head + r.count) % ring_capacity

  -- The slot `i` places behind the head.
  abbrev slot_of : Ring A → ℕ → Option A
  slot_of r i = get_elem? r.slots ((r.head + i) % ring_capacity)

  -- The ring is this queue, the oldest entry first.
  pub record IsQueue (r : Ring A) (entries : List A) : Type 0 where
    pub valid : IsValid r
    pub as_many : r.count ≡ length entries
    pub entry : (i : ℕ) → i < length entries → slot_of r i ≡ get_elem? entries i

  get_elem?-append_left :
      (xs ys : List A) (i : ℕ) → i < length xs → get_elem? (xs ++ ys) i ≡ get_elem? xs i
  get_elem?-append_left [] ys i l = absurd (omega arith)
  get_elem?-append_left (x ∷ xs) ys zero l = refl
  get_elem?-append_left (x ∷ xs) ys (suc i) l = get_elem?-append_left xs ys i (omega arith)

  get_elem?-append_last :
      (xs : List A) (x : A) (i : ℕ) → i ≡ length xs → get_elem? (xs ++ x ∷ []) i ≡ some x
  get_elem?-append_last [] x zero e = refl
  get_elem?-append_last [] x (suc i) e = absurd (omega arith)
  get_elem?-append_last (y ∷ xs) x zero e = absurd (omega arith)
  get_elem?-append_last (y ∷ xs) x (suc i) e = get_elem?-append_last xs x i (omega arith)

  length-append_last : (xs : List A) (x : A) → length (xs ++ x ∷ []) ≡ length xs + 1
  length-append_last [] x = omega arith
  length-append_last (y ∷ xs) x = omega (arith, length-append_last xs x)

  -- An open ring with room takes the entry at the end of the queue.
  pub enqueue-IsQueue :
      (r : Ring A) (entries : List A) (x : A)
      → IsQueue r entries
      → length entries < ring_capacity
      → ((enqueue true x r).0 ≡ true) × IsQueue (enqueue true x r).1 (entries ++ x ∷ [])
  unfolding enqueue
  enqueue-IsQueue r entries x q room =
      let v = q.valid in
      let open_ring : ltb r.count ring_capacity && true ≡ true =
        let c = q.as_many in ground arith in
      rw open_ring (
        refl,
        record {
          valid = record {
            size = length-set r.slots r.tail x ∙ v.size;
            head_in = v.head_in;
            few = let c = q.as_many in omega arith;
            tail_at = let t = v.tail_at in omega arith;
          };
          as_many = let c = q.as_many in omega (arith, length-append_last entries x);
          entry = λ i l. elim (Bool-cases (ltb i (length entries))) [
            | inl e ↦
                let here : i < length entries = ground arith in
                get_elem?-set_ne r.slots r.tail _ x (λ t.
                  let a = v.tail_at in
                  let b = q.as_many in let c = v.head_in in absurd (omega arith))
                ∙ q.entry i here
                ∙ sym (get_elem?-append_left entries (x ∷ []) i here)
            | inr e ↦
                let last : i ≡ length entries =
                  let n = length-append_last entries x in ground arith in
                let at_tail : (r.head + i) % ring_capacity ≡ r.tail =
                  let a = v.tail_at in let b = q.as_many in omega arith in
                let inside : r.tail < length r.slots =
                  let a = v.tail_at in let b = v.size in let c = v.head_in in omega arith in
                ap (λ k. get_elem? (set r.slots r.tail x) k) at_tail
                ∙ get_elem?-set_self r.slots r.tail x inside
                ∙ sym (get_elem?-append_last entries x i last)
          ];
        },
      )

  -- From a ring that is not empty the oldest entry is taken, and the others are left in their order.
  pub dequeue-IsQueue :
      (r : Ring A) (x : A) (entries : List A)
      → IsQueue r (x ∷ entries)
      → ((dequeue r).0 ≡ some x) × IsQueue (dequeue r).1 entries
  unfolding dequeue
  dequeue-IsQueue r x entries q =
      let v = q.valid in
      let c = q.as_many in
      let t = v.tail_at in
      let h = v.head_in in
      let f = v.few in
      let some_left : (r.count == 0) ≡ false = ground arith in
      let at_head : (r.head + 0) % ring_capacity ≡ r.head = omega arith in
      rw some_left (
        sym (ap (λ k. get_elem? r.slots k) at_head) ∙ q.entry 0 (omega arith),
        record {
          valid = record {
            size = v.size;
            head_in = omega arith;
            few = omega arith;
            tail_at = omega arith;
          };
          as_many = omega arith;
          entry = λ i l.
              let at : ((r.head + 1) % ring_capacity + i) % ring_capacity
                  ≡ (r.head + suc i) % ring_capacity =
                omega arith in
              ap (λ k. get_elem? r.slots k) at ∙ q.entry (suc i) (omega arith);
        },
      )

  -- A ring that is full, or closed, refuses the entry and stays as it is.
  pub enqueue-refuses :
      (r : Ring A) (entries : List A) (x : A) (is_open : Bool)
      → IsQueue r entries
      → (length entries ≡ ring_capacity) ⊎ (is_open ≡ false)
      → enqueue is_open x r ≡ (false, r)
  unfolding enqueue
  enqueue-refuses r entries x is_open q full =
      let c = q.as_many in
      let shut : ltb r.count ring_capacity && is_open ≡ false = elim full [
        | inl e ↦ ground arith
        | inr e ↦ ground arith
      ] in
      rw shut refl

  -- An empty ring gives nothing.
  pub dequeue-empty : (r : Ring A) → IsQueue r [] → dequeue r ≡ (none, r)
  unfolding dequeue
  dequeue-empty r q =
      let c = q.as_many in let none_left : (r.count == 0) ≡ true = ground arith in rw none_left refl
