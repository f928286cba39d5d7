-- ===== src/Ring/Tests.antt =====
-- Examples for the theorems on the ring buffers of agents/linux.
use tlslatch.Base.{
  ℕ, [], ◌∷◌, some, true, false, ◌≡◌, refl, arith, replicate, length-replicate, List, none,
}
use tlslatch.Ring.{Ring, ring_capacity, enqueue, dequeue}
use tlslatch.Ring.Refine.{IsQueue, enqueue-IsQueue, dequeue-IsQueue}
use tlslatch.Ring.Runs.{Operation, put, get, taken, given, run_ring, run_ring-IsQueue}

-- The ring whose next entry goes to its last slot.
abbrev ring : Ring ℕ
ring = record { slots = replicate ring_capacity 0; head = 8191; tail = 8191; count = 0 }

is_empty-IsQueue : IsQueue ring []
is_empty-IsQueue = record {
  valid = record {
    size = length-replicate {A = ℕ} ring_capacity 0;
    head_in = omega arith;
    few = omega arith;
    tail_at = omega arith;
  };
  as_many = refl;
  entry = λ i l. absurd (omega arith);
}

abbrev one_queued : Ring ℕ
one_queued = (enqueue true 7 ring).1

enqueue-IsQueue_example : ((enqueue true 7 ring).0 ≡ true) × IsQueue one_queued (7 ∷ [])
enqueue-IsQueue_example = enqueue-IsQueue ring [] 7 is_empty-IsQueue (omega arith)

dequeue-IsQueue_example : ((dequeue one_queued).0 ≡ some 7) × IsQueue (dequeue one_queued).1 []
dequeue-IsQueue_example =
    dequeue-IsQueue one_queued 7 [] (enqueue-IsQueue ring [] 7 is_empty-IsQueue (omega arith)).1

abbrev calls : List (Operation ℕ)
calls = get ∷ put true 7 ∷ put false 8 ∷ put true 9 ∷ get ∷ get ∷ get ∷ []

run_ring-IsQueue_example :
    ((run_ring calls ring).0
      ≡ given none
        ∷ taken true
        ∷ taken false
        ∷ taken true
        ∷ given (some 7)
        ∷ given (some 9)
        ∷ given none
        ∷ [])
    × IsQueue (run_ring calls ring).1 []
run_ring-IsQueue_example = run_ring-IsQueue calls ring [] is_empty-IsQueue
