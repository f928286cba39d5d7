-- ===== src/Windows/Guardian.antt =====
-- agents/windows/guardian.c: the loop over the messages of the worker, and how the guardian ends. The
-- helper that `quarantine` runs is repeated until it succeeds, so that its call is one effect.
pub mod Tally
pub mod Step
pub mod Settled
pub mod Client
pub mod Calls
pub mod Tests
use tlslatch.Base.{
  ℕ, ◌+◌, ◌-◌, ◌%◌, ◌^◌, List, [], ◌∷◌, ◌++◌, Option, some, none, Bool, true, false, not, ltb, ◌==◌,
  ◌&&◌, ◌||◌, if◌then◌else◌, replicate,
}

abbrev pub max_references : ℕ
max_references = 8192

abbrev pub g_hold : ℕ
g_hold = 1

abbrev pub g_release : ℕ
g_release = 2

abbrev pub g_trip : ℕ
g_trip = 3

abbrev pub g_done : ℕ
g_done = 4

-- A handle that is NULL is `none`.
pub record Reference : Type 0 where
  pub worker_handle : ℕ
  pub handle : Option ℕ

pub record Guardian : Type 0 where
  pub refs : List Reference
  pub held : ℕ
  pub clean : Bool
  pub banned : Bool

-- A message that is read, the copy that DuplicateHandle would give for it, and whether the answer can
-- be written. The copy is not NULL.
pub record Received : Type 0 where
  pub operation : ℕ
  pub handle : ℕ
  pub duplicate : Option ℕ
  pub ack_written : Bool

pub data Effect : Type 0 where
  quarantine : Effect
  duplicate_handle : ℕ → Effect
  close_handle : ℕ → Effect

pub record Stepped : Type 0 where
  pub guardian : Guardian
  pub effects : List Effect
  pub ack : ℕ

abbrev pub ignored : Guardian → Stepped
ignored g = record { guardian = g; effects = []; ack = 0 }

abbrev pub behind : Reference → Option (List Reference) → Option (List Reference)
behind ref none = none
behind ref (some rest) = some (ref ∷ rest)

-- The first slot without a handle is taken, if there is one.
unfoldable pub hold_from : Reference → List Reference → Option (List Reference)
hold_from new [] = none
hold_from new (ref ∷ rest) = elim ref.handle [
  | none ↦ some (new ∷ rest)
  | some _ ↦ behind ref (hold_from new rest)
]

unfoldable pub hold : Received → Guardian → Stepped
hold m g = elim m.duplicate [
  | none ↦ ignored g
  | some copy ↦ elim (hold_from (record { worker_handle = m.handle; handle = some copy }) g.refs) [
    | none ↦ ignored g
    | some refs ↦ record {
      guardian = record g { refs = refs; held = g.held + 1 };
      effects = duplicate_handle copy ∷ [];
      ack = 1;
    }
  ]
]

abbrev pub matching : ℕ → Reference → Option ℕ
matching handle ref = elim ref.handle [
  | none ↦ none
  | some copy ↦ if ref.worker_handle == handle then some copy else none
]

-- The references after a release, and the copy that was closed.
pub record Released : Type 0 where
  pub refs : List Reference
  pub copy : ℕ

abbrev pub released_behind : Reference → Option Released → Option Released
released_behind ref none = none
released_behind ref (some released) =
    some (record { refs = ref ∷ released.refs; copy = released.copy })

unfoldable pub release_from : ℕ → List Reference → Option Released
release_from handle [] = none
release_from handle (ref ∷ rest) = elim (matching handle ref) [
  | some copy ↦ some (record { refs = record ref { handle = none } ∷ rest; copy = copy })
  | none ↦ released_behind ref (release_from handle rest)
]

-- `held` is a `size_t`.
unfoldable pub release : Received → Guardian → Stepped
release m g = elim (release_from m.handle g.refs) [
  | none ↦ ignored g
  | some released ↦ record {
    guardian = record g { refs = released.refs; held = (g.held + 2 ^ 64 - 1) % 2 ^ 64 };
    effects = close_handle released.copy ∷ [];
    ack = 1;
  }
]

unfoldable pub trip : Guardian → Stepped
trip g = record {
  guardian = record g { banned = true };
  effects = if g.banned then [] else quarantine ∷ [];
  ack = 1;
}

unfoldable pub guardian_step : Received → Guardian → Stepped
guardian_step m g =
    if m.operation == g_hold && not g.banned && ltb g.held max_references
    then hold m g
    else if m.operation == g_release
    then release m g
    else if m.operation == g_trip
    then trip g
    else if m.operation == g_done && g.held == 0 && not g.banned
    then record { guardian = record g { clean = true }; effects = []; ack = 1 }
    else ignored g

-- The state at an end, and all that was done to the outside up to it.
pub record Ended : Type 0 where
  pub guardian : Guardian
  pub effects : List Effect

-- The loop; where the messages end, none can be read any more.
unfoldable pub guardian_loop : List Received → Guardian → Ended
guardian_loop [] g = record { guardian = g; effects = [] }
guardian_loop (m ∷ rest) g =
    let step = guardian_step m g in
    let later = guardian_loop rest step.guardian in
    if not m.ack_written || step.guardian.clean
    then record { guardian = step.guardian; effects = step.effects }
    else record { guardian = later.guardian; effects = step.effects ++ later.effects }

unfoldable pub close_all : List Reference → List Effect
close_all [] = []
close_all (ref ∷ rest) = elim ref.handle [
  | none ↦ close_all rest
  | some copy ↦ close_handle copy ∷ close_all rest
]

-- Behind the loop: a worker that did not end cleanly is put in quarantine, and every copy is closed.
unfoldable pub guardian_end : Guardian → Ended
guardian_end g = record {
  guardian = record g { banned = g.banned || not g.clean };
  effects = (if not g.clean && not g.banned then quarantine ∷ [] else []) ++ close_all g.refs;
}

abbrev pub new_guardian : Guardian
new_guardian = record {
  refs = replicate max_references (record { worker_handle = 0; handle = none });
  held = 0;
  clean = false;
  banned = false;
}

unfoldable pub guard_parent : List Received → Ended
guard_parent messages =
    let ended = guardian_loop messages new_guardian in
    let closed = guardian_end ended.guardian in
    record { guardian = closed.guardian; effects = ended.effects ++ closed.effects }

-- What `guard_parent` returns, from the exit code of the worker.
abbrev pub guard_result : Ended → ℕ → ℕ
guard_result ended code = if ended.guardian.clean then code else 3
