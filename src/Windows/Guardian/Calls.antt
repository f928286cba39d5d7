-- ===== src/Windows/Guardian/Calls.antt =====
-- agents/windows/guardian_client.c and guardian.c together: what the calls of a worker come to.
use tlslatch.Base.{
  first_true, second_true, ℕ, ◌+◌, ◌≤◌, ◌≡◌, refl, sym, ◌∙◌, ap, List, [], ◌∷◌, Bool, true, false,
  not, ◌==◌, ◌&&◌, arith, by_test, not-true,
}
use tlslatch.Windows.Guardian.{g_trip, g_done, quarantine, Stepped, guardian_step, trip}
use tlslatch.Windows.Guardian.Tally.{tally, tally-append, one, quarantined}
use tlslatch.Windows.Guardian.Step.{IsSound, guardian_step-IsStep, zero_of}
use tlslatch.Windows.Guardian.Settled.{new_guardian-IsSound}
use tlslatch.Windows.Guardian.Client.{
  World, Link, received, command, guard_trip, or_trip, guard_hold, guard_release, guard_done, Call,
  hold_call, release_call, trip_call, done_call, call, calls, new_world,
}

-- The quarantines are at least those of the guardian, and one where the worker is tripped.
pub record IsGuarded (w : World) : Type 0 where
  pub sound : IsSound w.guardian
  pub running : w.alive ≡ true → w.guardian.clean ≡ false
  pub recorded : one w.guardian.banned ≤ tally quarantined w.effects
  pub quiet : w.tripped ≡ false → tally quarantined w.effects ≡ one w.guardian.banned
  pub loud : w.tripped ≡ true → 1 ≤ tally quarantined w.effects

-- The same without the worker's flag.
record IsCommand (w : World) (sent : World × Bool) : Type 0 where
  sound : IsSound sent.0.guardian
  running : sent.0.alive ≡ true → sent.0.guardian.clean ≡ false
  tripped : sent.0.tripped ≡ w.tripped
  counted :
      tally quarantined sent.0.effects + one w.guardian.banned
      ≡ tally quarantined w.effects + one sent.0.guardian.banned
  keeps : one w.guardian.banned ≤ one sent.0.guardian.banned

command-IsCommand :
    (link : Link) (operation handle : ℕ) (w : World)
    → IsSound w.guardian
    → (w.alive ≡ true → w.guardian.clean ≡ false)
    → IsCommand w (command link operation handle w)
unfolding command
command-IsCommand link operation handle w h r =
    by_test (IsCommand w) (w.alive && link.written)
      (λ e.
        let step = guardian_step-IsStep (received link operation handle) w.guardian h in
        record {
          sound = step.sound;
          running = λ a. not-true _ (second_true link.ack_written _ a);
          tripped = refl;
          counted = omega (arith, step.bans, tally-append quarantined w.effects _);
          keeps = omega (arith, step.bans);
        })
      λ _. record {
        sound = h;
        running = r;
        tripped = refl;
        counted = omega arith;
        keeps = omega arith;
      }

-- A command that trips is acknowledged only with the guardian in quarantine.
command-trip-banned :
    (link : Link) (w : World)
    → (command link g_trip 0 w).1 ≡ true
    → (command link g_trip 0 w).0.guardian.banned ≡ true
unfolding command guardian_step trip
command-trip-banned link w =
    by_test (λ (sent : World × Bool). sent.1 ≡ true → sent.0.guardian.banned ≡ true)
      (w.alive && link.written) (λ _ _. refl) λ _ e. absurd (cc)

guard_trip-IsGuarded :
    (link : Link) (w : World)
    → IsSound w.guardian
    → (w.alive ≡ true → w.guardian.clean ≡ false)
    → one w.guardian.banned ≤ tally quarantined w.effects
    → IsGuarded (guard_trip link w)
unfolding guard_trip
guard_trip-IsGuarded link w h r b =
    let sent = command link g_trip 0 (record w { tripped = true }) in
    let k = command-IsCommand link g_trip 0 (record w { tripped = true }) h r in
    by_test IsGuarded sent.1
      (λ e.
        let banned = command-trip-banned link (record w { tripped = true }) e in
        record {
          sound = k.sound;
          running = k.running;
          recorded = omega (arith, k.counted, b);
          quiet = λ q. absurd (let t = k.tripped in cc);
          loud = λ _. omega (arith, k.counted, b, ap one banned);
        })
      λ _.
        let more = tally-append quarantined sent.0.effects (quarantine ∷ []) in
        record {
          sound = k.sound;
          running = k.running;
          recorded = omega (arith, k.counted, b, more);
          quiet = λ q. absurd (let t = k.tripped in cc);
          loud = λ _. omega (arith, more);
        }

command-IsGuarded :
    (w : World) (sent : World × Bool) → IsGuarded w → IsCommand w sent → IsGuarded sent.0
command-IsGuarded w sent h k = record {
  sound = k.sound;
  running = k.running;
  recorded = omega (arith, k.counted, h.recorded);
  quiet = λ q. omega (arith, k.counted, h.quiet (sym k.tripped ∙ q));
  loud = λ t. omega (arith, k.counted, k.keeps, h.recorded, h.loud (sym k.tripped ∙ t));
}

or_trip-IsGuarded :
    (link : Link) (sent : World × Bool) → IsGuarded sent.0 → IsGuarded (or_trip link sent).0
or_trip-IsGuarded link sent h =
    by_test (λ (s : World × Bool). IsGuarded s.0) sent.1 (λ _. h)
      λ _. guard_trip-IsGuarded link sent.0 h.sound h.running h.recorded

call-IsGuarded : (c : Call) (w : World) → IsGuarded w → IsGuarded (call c w)
unfolding guard_hold guard_release guard_done
call-IsGuarded (hold_call link trip_link handle) w h = or_trip-IsGuarded trip_link _ (
    by_test (λ (s : World × Bool). IsGuarded s.0) w.tripped (λ _. h)
      λ _. command-IsGuarded w _ h (command-IsCommand link _ handle w h.sound h.running))
call-IsGuarded (release_call link trip_link handle) w h =
    or_trip-IsGuarded trip_link _
      (command-IsGuarded w _ h (command-IsCommand link _ handle w h.sound h.running))
call-IsGuarded (trip_call link) w h = guard_trip-IsGuarded link w h.sound h.running h.recorded
call-IsGuarded (done_call link) w h =
    by_test (λ (s : World × Bool). IsGuarded s.0) w.tripped (λ _. h)
      λ _. command-IsGuarded w _ h (command-IsCommand link g_done 0 w h.sound h.running)

calls-IsGuarded : (cs : List Call) (w : World) → IsGuarded w → IsGuarded (calls cs w)
calls-IsGuarded [] w h = h
calls-IsGuarded (c ∷ rest) w h = calls-IsGuarded rest (call c w) (call-IsGuarded c w h)

new_world-IsGuarded : IsGuarded new_world
new_world-IsGuarded = record {
  sound = new_guardian-IsSound;
  running = λ _. refl;
  recorded = omega arith;
  quiet = λ _. refl;
  loud = λ e. absurd (cc);
}

-- The guardian acknowledges the end only with nothing held and no quarantine.
command-done-idle :
    (link : Link) (w : World)
    → (command link g_done 0 w).1 ≡ true
    → ((command link g_done 0 w).0.guardian.held ≡ 0)
      × ((command link g_done 0 w).0.guardian.banned ≡ false)
unfolding command guardian_step
command-done-idle link w =
    by_test
      (λ (sent : World × Bool).
        sent.1 ≡ true → (sent.0.guardian.held ≡ 0) × (sent.0.guardian.banned ≡ false))
      (w.alive && link.written)
      (λ _.
        by_test
          (λ (s : Stepped).
            (link.ack_written && link.ack_read && s.ack == 1) ≡ true
            → (s.guardian.held ≡ 0) × (s.guardian.banned ≡ false))
          (w.guardian.held == 0 && not w.guardian.banned)
          (λ c _. (
            zero_of w.guardian.held (first_true _ _ c),
            not-true w.guardian.banned (second_true _ _ c),
          ))
          λ _ o.
            absurd (
              let no : false ≡ true = second_true (link.ack_written && link.ack_read) false o in
              cc))
      λ _ e. absurd (cc)

-- What the calls of a worker have come to: a refuge where it is tripped, and none where it is done.
pub record IsRefuge (link : Link) (w : World) : Type 0 where
  pub refuge : w.tripped ≡ true → 1 ≤ tally quarantined w.effects
  pub done :
      (guard_done link w).1 ≡ true
      → (tally quarantined (guard_done link w).0.effects ≡ 0)
        × ((guard_done link w).0.guardian.held ≡ 0)

IsGuarded-IsRefuge : (link : Link) (w : World) → IsGuarded w → IsRefuge link w
unfolding guard_done
IsGuarded-IsRefuge link w h = record {
  refuge = h.loud;
  done =
      by_test
        (λ (sent : World × Bool).
          sent.1 ≡ true → (tally quarantined sent.0.effects ≡ 0) × (sent.0.guardian.held ≡ 0))
        w.tripped (λ _ e. absurd (cc))
        λ q o.
          let k = command-IsCommand link g_done 0 w h.sound h.running in
          let d = command-done-idle link w o in
          (omega (arith, k.counted, h.quiet q, ap one d.1), d.0);
}

-- Whatever calls a worker makes of its guardian, one after the other, and wherever the pipes fail: where
-- it is tripped, the endpoint was put in quarantine, by the guardian or by itself; and its end is
-- acknowledged only if that was never done and the guardian holds no handle.
pub calls-IsRefuge : (cs : List Call) (link : Link) → IsRefuge link (calls cs new_world)
calls-IsRefuge cs link =
    IsGuarded-IsRefuge link _ (calls-IsGuarded cs new_world new_world-IsGuarded)
