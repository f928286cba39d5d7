-- ===== src/Windows/Guardian/Client.antt =====
-- agents/windows/guardian_client.c: the worker's calls of its guardian. A call is one step: what other
-- threads of the worker do comes before or behind it.
use tlslatch.Base.{
  ℕ, List, [], ◌∷◌, ◌++◌, Option, Bool, true, false, not, ◌==◌, ◌&&◌, if◌then◌else◌,
}
use tlslatch.Windows.Guardian.{
  g_hold, g_release, g_trip, g_done, Guardian, Received, Effect, quarantine, Stepped, guardian_step,
  new_guardian,
}

-- The worker's flag, the guardian's state and whether its loop still runs, and what either has done.
pub record World : Type 0 where
  pub tripped : Bool
  pub alive : Bool
  pub guardian : Guardian
  pub effects : List Effect

-- What becomes of one message on the two pipes, and the copy that the guardian would get.
pub record Link : Type 0 where
  pub written : Bool
  pub duplicate : Option ℕ
  pub ack_written : Bool
  pub ack_read : Bool

-- The guardian reads the message, which ends its loop if the answer fails or it is done.
abbrev pub received : Link → ℕ → ℕ → Received
received link operation handle = record {
  operation = operation;
  handle = handle;
  duplicate = link.duplicate;
  ack_written = link.ack_written;
}

abbrev pub answered_world : Link → Stepped → World → World
answered_world link step w = record w {
  alive = link.ack_written && not step.guardian.clean;
  guardian = step.guardian;
  effects = w.effects ++ step.effects;
}

unfoldable pub command : Link → ℕ → ℕ → World → World × Bool
command link operation handle w =
    if w.alive && link.written
    then (
      answered_world link (guardian_step (received link operation handle) w.guardian) w,
      link.ack_written
          && link.ack_read
          && (guardian_step (received link operation handle) w.guardian).ack == 1,
    )
    else (w, false)

unfoldable pub guard_trip : Link → World → World
guard_trip link w =
    let sent = command link g_trip 0 (record w { tripped = true }) in
    if sent.1 then sent.0 else record (sent.0) { effects = sent.0.effects ++ quarantine ∷ [] }

-- The answer of a call that trips where it fails; the second link is that of `guard_trip`.
abbrev pub or_trip : Link → World × Bool → World × Bool
or_trip link sent = if sent.1 then sent else (guard_trip link sent.0, false)

unfoldable pub guard_hold : Link → Link → ℕ → World → World × Bool
guard_hold link trip_link handle w =
    or_trip trip_link (if w.tripped then (w, false) else command link g_hold handle w)

unfoldable pub guard_release : Link → Link → ℕ → World → World × Bool
guard_release link trip_link handle w = or_trip trip_link (command link g_release handle w)

unfoldable pub guard_done : Link → World → World × Bool
guard_done link w = if w.tripped then (w, false) else command link g_done 0 w

pub data Call : Type 0 where
  hold_call : Link → Link → ℕ → Call
  release_call : Link → Link → ℕ → Call
  trip_call : Link → Call
  done_call : Link → Call

abbrev pub call : Call → World → World
call (hold_call link trip_link handle) w = (guard_hold link trip_link handle w).0
call (release_call link trip_link handle) w = (guard_release link trip_link handle w).0
call (trip_call link) w = guard_trip link w
call (done_call link) w = (guard_done link w).0

abbrev pub calls : List Call → World → World
calls [] w = w
calls (c ∷ rest) w = calls rest (call c w)

abbrev pub new_world : World
new_world = record { tripped = false; alive = true; guardian = new_guardian; effects = [] }
