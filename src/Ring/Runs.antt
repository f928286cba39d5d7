-- ===== src/Ring/Runs.antt =====
-- The job and decision queues of agents/linux over a run of calls: they answer as a bounded queue.
use tlslatch.Base.{
  List, [], ◌∷◌, ◌++◌, Option, some, none, Bool, true, false, ltb, ◌&&◌, if◌then◌else◌, length, ◌≡◌,
  refl, sym, ap, subst, ◌∙◌, arith, Bool-cases, inl, inr,
}
use tlslatch.Ring.{ring_capacity, Ring, enqueue, dequeue}
use tlslatch.Ring.Refine.{IsQueue, enqueue-IsQueue, enqueue-refuses, dequeue-IsQueue, dequeue-empty}

-- A call: of `enqueue`, with the rest of its test, or of `dequeue`.
pub data Operation (A : Type 0) : Type 0 where
  put : Bool → A → Operation A
  get : Operation A

pub data Answer (A : Type 0) : Type 0 where
  taken : Bool → Answer A
  given : Option A → Answer A

module _ {A : Type 0} where
  -- The calls on the array, one after the other.
  abbrev pub run_ring : List (Operation A) → Ring A → List (Answer A) × Ring A
  run_ring [] r = ([], r)
  run_ring (put is_open x ∷ rest) r =
      let step = enqueue is_open x r in
      let later = run_ring rest step.1 in (taken step.0 ∷ later.0, later.1)
  run_ring (get ∷ rest) r =
      let step = dequeue r in let later = run_ring rest step.1 in (given step.0 ∷ later.0, later.1)

  -- The queue that is specified: it takes an entry at its end if it is open and has fewer than 8192.
  abbrev pub put_last : Bool → A → List A → Bool × List A
  put_last is_open x entries =
      if is_open && ltb (length entries) ring_capacity
      then (true, entries ++ x ∷ [])
      else (false, entries)

  abbrev pub get_first : List A → Option A × List A
  get_first [] = (none, [])
  get_first (x ∷ entries) = (some x, entries)

  abbrev pub run_queue : List (Operation A) → List A → List (Answer A) × List A
  run_queue [] entries = ([], entries)
  run_queue (put is_open x ∷ rest) entries =
      let step = put_last is_open x entries in
      let later = run_queue rest step.1 in (taken step.0 ∷ later.0, later.1)
  run_queue (get ∷ rest) entries =
      let step = get_first entries in
      let later = run_queue rest step.1 in (given step.0 ∷ later.0, later.1)

  put-Agrees :
      (is_open : Bool) (x : A) (r : Ring A) (entries : List A)
      → IsQueue r entries
      → ((enqueue is_open x r).0 ≡ (put_last is_open x entries).0)
        × IsQueue (enqueue is_open x r).1 (put_last is_open x entries).1
  put-Agrees false x r entries q =
      let e = enqueue-refuses r entries x false q (inr refl) in
      (
        ap (λ (s : Bool × Ring A). s.0) e,
        subst (λ (s : Bool × Ring A). IsQueue s.1 entries) (sym e) q,
      )
  put-Agrees true x r entries q = elim (Bool-cases (ltb (length entries) ring_capacity)) [
    | inl room ↦ let e = enqueue-IsQueue r entries x q (ground arith) in rw room e
    | inr full ↦
        let size : length entries ≡ ring_capacity =
          let f = q.valid.few in let c = q.as_many in ground arith in
        let e = enqueue-refuses r entries x true q (inl size) in
        rw full (
          ap (λ (s : Bool × Ring A). s.0) e,
          subst (λ (s : Bool × Ring A). IsQueue s.1 entries) (sym e) q,
        )
  ]

  get-Agrees :
      (r : Ring A) (entries : List A)
      → IsQueue r entries
      → ((dequeue r).0 ≡ (get_first entries).0) × IsQueue (dequeue r).1 (get_first entries).1
  get-Agrees r [] q =
      let e = dequeue-empty r q in
      (
        ap (λ (s : Option A × Ring A). s.0) e,
        subst (λ (s : Option A × Ring A). IsQueue s.1 []) (sym e) q,
      )
  get-Agrees r (x ∷ entries) q = dequeue-IsQueue r x entries q

  -- Over any calls, on a ring that is this queue, the array answers each of them as the queue of at most
  -- 8192 entries does, refusals and the null pointer included, and is that queue again.
  pub run_ring-IsQueue :
      (calls : List (Operation A)) (r : Ring A) (entries : List A)
      → IsQueue r entries
      → ((run_ring calls r).0 ≡ (run_queue calls entries).0)
        × IsQueue (run_ring calls r).1 (run_queue calls entries).1
  run_ring-IsQueue [] r entries q = (refl, q)
  run_ring-IsQueue (put is_open x ∷ rest) r entries q =
      let step = put-Agrees is_open x r entries q in
      let later = run_ring-IsQueue rest _ _ step.1 in
      (
        ap (λ b. taken b ∷ (run_ring rest (enqueue is_open x r).1).0) step.0
            ∙ ap (λ answers. taken (put_last is_open x entries).0 ∷ answers) later.0,
        later.1,
      )
  run_ring-IsQueue (get ∷ rest) r entries q =
      let step = get-Agrees r entries q in
      let later = run_ring-IsQueue rest _ _ step.1 in
      (
        ap (λ o. given o ∷ (run_ring rest (dequeue r).1).0) step.0
            ∙ ap (λ answers. given (get_first entries).0 ∷ answers) later.0,
        later.1,
      )
