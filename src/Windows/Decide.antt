-- ===== src/Windows/Decide.antt =====
-- agents/windows/tcpra_agent_c.c: the decision on a session.
use tlslatch.Base.{
  ℕ, suc, ◌+◌, List, [], ◌∷◌, ◌++◌, Bool, true, false, not, ◌&&◌, if◌then◌else◌, length,
}
use tlslatch.Windows.{HeldPacket, Session, Message, release_failed, open_failed}
use tlslatch.Windows.Inspect.{free_held}

-- What `decide` is answered: whether the guard is tripped, at its first question and before each held
-- packet, whether the handle that drops the flow opens, whether WinDivert takes each held packet.
pub record DecideEnv : Type 0 where
  pub now_ns : ℕ
  pub is_tripped : Bool
  pub tripped_before : ℕ → Bool
  pub drop_opens : Bool
  pub takes : ℕ → Bool

-- What `decide` does to the outside, in order.
pub data Effect : Type 0 where
  guard_trip : Effect
  drop_flow : Effect
  divert_send : HeldPacket → Effect
  shutdown_recv : Effect

-- How the release of the held packets ends: those taken, whether all were, and the message if one
-- was not taken.
pub record Release : Type 0 where
  pub taken : List HeldPacket
  pub complete : Bool
  pub failed : List Message

unfoldable pub release_from : DecideEnv → ℕ → List HeldPacket → Release
release_from env i [] = record { taken = []; complete = true; failed = [] }
release_from env i (p ∷ rest) =
    let next = release_from env (suc i) rest in
    if env.tripped_before i
    then record { taken = []; complete = false; failed = [] }
    else if env.takes i
    then record { taken = p ∷ next.taken; complete = next.complete; failed = next.failed }
    else record { taken = []; complete = false; failed = release_failed ∷ [] }

abbrev pub optional : Bool → Message → List Message
optional true message = []
optional false message = message ∷ []

abbrev pub sends : List HeldPacket → List Effect
sends [] = []
sends (p ∷ rest) = divert_send p ∷ sends rest

abbrev noted : List Message → Session → Session
noted messages s = record s { row = record (s.row) { errors = s.row.errors ++ messages } }

abbrev pub decided : ℕ → Bool → Session → Session
decided now allowed s = record (free_held s) {
  allowed = allowed;
  decision_done = true;
  row = record (s.row) { decision_ns = now };
}

abbrev count_released : List HeldPacket → Session → Session
count_released taken s = record s {
  row = record (s.row) { released_packets = s.row.released_packets + length taken };
}

-- The denial: the guard is tripped before the flow's packets are dropped, and once more at the end.
unfoldable pub deny : DecideEnv → List Message → Session → Session × List Effect
deny env error s = (
  decided env.now_ns false (noted (optional env.drop_opens open_failed ++ error) s),
  guard_trip ∷ (if env.drop_opens then drop_flow ∷ [] else []) ++ guard_trip ∷ shutdown_recv ∷ [],
)

unfoldable pub allow : DecideEnv → List Message → Session → Session × List Effect
allow env error s =
    let release = release_from env 0 s.held in
    (
      decided env.now_ns release.complete
          (count_released release.taken (noted (error ++ release.failed) s)),
      sends release.taken
          ++ ((if release.complete then [] else guard_trip ∷ []) ++ shutdown_recv ∷ []),
    )

unfoldable pub decide : DecideEnv → Bool → List Message → Session → Session × List Effect
decide env allowed error s =
    if allowed && not env.is_tripped then allow env error s else deny env error s
