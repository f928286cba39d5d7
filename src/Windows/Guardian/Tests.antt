-- ===== src/Windows/Guardian/Tests.antt =====
-- Examples for the theorems on the guardian of agents/windows.
use tlslatch.Base.{ℕ, [], ◌∷◌, none, some, Bool, true, false, ◌≡◌, refl}
use tlslatch.Windows.Guardian.{
  Guardian, Received, quarantine, duplicate_handle, close_handle, hold_from, hold, release_from,
  release, trip, guardian_step, guardian_loop, close_all, guardian_end, guard_parent,
}
use tlslatch.Windows.Guardian.Settled.{IsSettled, guard_parent-IsSettled}
use tlslatch.Windows.Guardian.Client.{Link, hold_call, release_call, calls, new_world}
use tlslatch.Windows.Guardian.Calls.{IsRefuge, calls-IsRefuge}

abbrev message : ℕ → ℕ → Received
message operation handle = record {
  operation = operation;
  handle = handle;
  duplicate = some 77;
  ack_written = true;
}

abbrev two_slots : Guardian
two_slots = record {
  refs =
      (record { worker_handle = 0; handle = none })
      ∷ record { worker_handle = 0; handle = none }
      ∷ [];
  held = 0;
  clean = false;
  banned = false;
}

-- A handle is kept and given back, and the worker is done.
clean_run :
    guardian_loop (message 1 5 ∷ message 2 5 ∷ message 4 0 ∷ message 3 0 ∷ []) two_slots ≡ record {
      guardian = record two_slots {
        refs =
            (record { worker_handle = 5; handle = none })
            ∷ record { worker_handle = 0; handle = none }
            ∷ [];
        clean = true;
      };
      effects = duplicate_handle 77 ∷ close_handle 77 ∷ [];
    }
unfolding guardian_loop guardian_step hold hold_from release release_from trip
clean_run = refl

-- The worker ends with a handle that it did not give back.
held_end :
    (guardian_end (guardian_loop (message 1 5 ∷ message 4 0 ∷ []) two_slots).guardian).effects
    ≡ quarantine ∷ close_handle 77 ∷ []
unfolding guardian_loop guardian_step hold hold_from release release_from trip guardian_end
    close_all
held_end = refl

guard_parent-IsSettled_example :
    IsSettled (guard_parent (message 1 5 ∷ message 3 0 ∷ message 2 5 ∷ message 4 0 ∷ []))
guard_parent-IsSettled_example =
    guard_parent-IsSettled (message 1 5 ∷ message 3 0 ∷ message 2 5 ∷ message 4 0 ∷ [])

abbrev link : Bool → Link
link written = record {
  written = written;
  duplicate = some 77;
  ack_written = true;
  ack_read = true;
}

-- A pipe breaks between the hold of a handle and its release.
calls-IsRefuge_example : IsRefuge (link true) (
    calls
      (hold_call (link true) (link true) 5 ∷ release_call (link false) (link false) 5 ∷ [])
      new_world)
calls-IsRefuge_example =
    calls-IsRefuge
      (hold_call (link true) (link true) 5 ∷ release_call (link false) (link false) 5 ∷ [])
      (link true)
