-- ===== src/Windows/Run/Decision.antt =====
-- agents/windows/tcpra_agent_c.c: what a decision leaves of a session.
use tlslatch.Base.{
  ◌+◌, length, ◌∙◌, ℕ, suc, ◌≡◌, refl, ap, List, [], ◌∷◌, ◌++◌, Bool, true, false, not, ◌&&◌,
  if◌then◌else◌, arith, by_test,
}
use tlslatch.Windows.{HeldPacket, Session, Message}
use tlslatch.Windows.Decide.{
  DecideEnv, Effect, guard_trip, drop_flow, divert_send, shutdown_recv, Release, release_from,
  sends, deny, allow, decide,
}
use tlslatch.Windows.Bounds.Session.{IsSession}

-- No packet is held any more, and the flow is allowed only where it was to be and no guard was tripped.
pub record Decided (env : DecideEnv) (allowed : Bool) (s : Session) (after : Session × List Effect)
    : Type 0 where
  pub whole : IsSession after.0
  pub ra : after.0.row.ra ≡ s.row.ra
  pub opened : after.0.allowed ≡ true → (allowed ≡ true) × (env.is_tripped ≡ false)

both : (a b : Bool) → (a && not b) ≡ true → (a ≡ true) × (b ≡ false)
both true false e = (refl, refl)
both true true e = absurd (cc)
both false b e = absurd (cc)

pub decide-Decided :
    (env : DecideEnv) (allowed : Bool) (error : List Message) (s : Session)
    → IsSession s
    → Decided env allowed s (decide env allowed error s)
unfolding decide allow deny
decide-Decided env allowed error s h =
    by_test (Decided env allowed s) (allowed && not env.is_tripped)
      (λ e. record {
        whole = record {
          client = h.client;
          server = h.server;
          counted = refl;
          limit = omega arith;
          idle = λ _. refl;
          plain = λ _. refl;
        };
        ra = refl;
        opened = λ _. both allowed env.is_tripped e;
      })
      λ _. record {
        whole = record {
          client = h.client;
          server = h.server;
          counted = refl;
          limit = omega arith;
          idle = λ _. refl;
          plain = λ _. refl;
        };
        ra = refl;
        opened = λ e. absurd (cc);
      }

-- What is released of the packets from the `i`-th on: the first of them, and all unless it is stopped.
pub record Releases (packets : List HeldPacket) (release : Release) : Type 0 where
  pub left : List HeldPacket
  pub in_order : release.taken ++ left ≡ packets
  pub all : release.complete ≡ true → left ≡ []

pub release_from-Releases :
    (env : DecideEnv) (i : ℕ) (packets : List HeldPacket)
    → Releases packets (release_from env i packets)
unfolding release_from
release_from-Releases env i [] = record { left = []; in_order = refl; all = λ _. refl }
release_from-Releases env i (p ∷ rest) =
    let next = release_from-Releases env (suc i) rest in
    by_test (Releases (p ∷ rest)) (env.tripped_before i)
      (λ _. record { left = p ∷ rest; in_order = refl; all = λ e. absurd (cc) })
      λ _.
        by_test (Releases (p ∷ rest)) (env.takes i)
          (λ _. record {
            left = next.left;
            in_order = ap (λ ps. p ∷ ps) next.in_order;
            all = next.all;
          })
          λ _. record { left = p ∷ rest; in_order = refl; all = λ e. absurd (cc) }

-- No packet is sent.
abbrev pub IsSilent : List Effect → Type 0
IsSilent [] = Unit
IsSilent (divert_send p ∷ rest) = ⊥
IsSilent (_ ∷ rest) = IsSilent rest

abbrev pub trips : List Effect → Bool
trips [] = false
trips (guard_trip ∷ rest) = true
trips (_ ∷ rest) = trips rest

abbrev pub drops : List Effect → Bool
drops [] = false
drops (drop_flow ∷ rest) = true
drops (_ ∷ rest) = drops rest

-- Sending packets trips no guard.
trips-sends :
    (packets : List HeldPacket) (effects : List Effect)
    → trips (sends packets ++ effects) ≡ trips effects
trips-sends [] effects = refl
trips-sends (p ∷ rest) effects = trips-sends rest effects

-- The first of the held packets are sent, in their order, and nothing else; all of them if the flow is
-- allowed in the end, and none if it was to be denied. They are counted, and none is held any more. The
-- guard is tripped exactly where the flow is not allowed in the end, and a denial has its packets dropped.
pub record IsReleased (env : DecideEnv) (allowed : Bool) (s : Session)
    (after : Session × List Effect) : Type 0 where
  pub taken : List HeldPacket
  pub left : List HeldPacket
  pub behind : List Effect
  pub in_order : taken ++ left ≡ s.held
  pub sent : after.1 ≡ sends taken ++ behind
  pub silent : IsSilent behind
  pub none_left : after.0.allowed ≡ true → left ≡ []
  pub none_taken : allowed ≡ false → taken ≡ []
  pub counted : after.0.row.released_packets ≡ s.row.released_packets + length taken
  pub emptied : after.0.held ≡ []
  pub tripped : trips after.1 ≡ not after.0.allowed
  pub dropped : allowed ≡ false → drops after.1 ≡ env.drop_opens

module _ (env : DecideEnv) (error : List Message) (s : Session) where
  allow-IsReleased :
      (allowed : Bool) → allowed ≡ true → IsReleased env allowed s (allow env error s)
  unfolding allow
  allow-IsReleased allowed e =
      let r = release_from-Releases env 0 s.held in
      record {
        taken = (release_from env 0 s.held).taken;
        left = r.left;
        behind =
            (if (release_from env 0 s.held).complete then [] else guard_trip ∷ [])
            ++ shutdown_recv ∷ [];
        in_order = r.in_order;
        sent = refl;
        silent =
            by_test (λ effects. IsSilent (effects ++ shutdown_recv ∷ []))
              (release_from env 0 s.held).complete (λ _. tt) λ _. tt;
        none_left = r.all;
        none_taken = λ f. absurd (cc);
        counted = refl;
        emptied = refl;
        tripped =
            trips-sends (release_from env 0 s.held).taken _
            ∙ trips-unless (release_from env 0 s.held).complete;
        dropped = λ f. absurd (cc);
      }
    where
      trips-unless :
          (complete : Bool)
          → trips ((if complete then [] else guard_trip ∷ []) ++ shutdown_recv ∷ []) ≡ not complete
      trips-unless true = refl
      trips-unless false = refl

  deny-IsReleased : (allowed : Bool) → IsReleased env allowed s (deny env error s)
  unfolding deny
  deny-IsReleased allowed = record {
    taken = [];
    left = s.held;
    behind =
        guard_trip ∷ (if env.drop_opens then drop_flow ∷ [] else [])
        ++ guard_trip ∷ shutdown_recv ∷ [];
    in_order = refl;
    sent = refl;
    silent = drop_silent env.drop_opens;
    none_left = λ e. absurd (cc);
    none_taken = λ _. refl;
    counted = omega arith;
    emptied = refl;
    tripped = refl;
    dropped = λ _. drops-if env.drop_opens;
  }
    where
      drop_silent :
          (opens : Bool)
          → IsSilent (
              guard_trip ∷ (if opens then drop_flow ∷ [] else [])
              ++ guard_trip ∷ shutdown_recv ∷ [])
      drop_silent true = tt
      drop_silent false = tt

      drops-if :
          (opens : Bool)
          → drops (
              guard_trip ∷ (if opens then drop_flow ∷ [] else [])
              ++ guard_trip ∷ shutdown_recv ∷ [])
            ≡ opens
      drops-if true = refl
      drops-if false = refl

  -- A decision sends held packets only, in the order in which they were held and each once: all of them
  -- if the flow is allowed in the end, a first part of them if the guard is tripped or WinDivert refuses
  -- one in between, and none if the decision is to deny. They are counted as released, and none is held
  -- any more. The guard is tripped exactly where the flow is not allowed in the end, and where the
  -- decision is to deny the flow's packets are dropped by a handle of its own, if one opens.
  pub decide-IsReleased : (allowed : Bool) → IsReleased env allowed s (decide env allowed error s)
  unfolding decide
  decide-IsReleased allowed =
      by_test (IsReleased env allowed s) (allowed && not env.is_tripped)
        (λ e. allow-IsReleased allowed (both _ _ e).0) λ _. deny-IsReleased allowed
