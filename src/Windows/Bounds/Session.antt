-- ===== src/Windows/Bounds/Session.antt =====
-- agents/windows/tcpra_agent_c.c: what handling a packet keeps of a session.
use tlslatch.Base.{
  first_true, ℕ, ◌+◌, ◌-◌, ◌%◌, ◌^◌, ◌≤◌, ◌≡◌, refl, sym, ap, ◌∙◌, List, [], ◌∷◌, ◌++◌, Option,
  some, none, Bool, true, false, not, ltb, ◌&&◌, ◌||◌, ◌==◌, length, arith, subst, by_test, ltb→le,
}
use tlslatch.Windows.Genuine.{first_false}
use tlslatch.Windows.{PacketView, HeldPacket, Session, held_cap, arena_exceeded}
use tlslatch.Windows.Inspect.{
  InspectEnv, Action, action_send, action_hold, action_drop, Seen, append_error, hold_packet,
  choose_action,
}
use tlslatch.Windows.Bounds.Buffer.{IsBuffer}

abbrev pub total : List HeldPacket → ℕ
total [] = 0
total (p ∷ rest) = length p.bytes + total rest

total-append :
    (xs : List HeldPacket) (p : HeldPacket) → total (xs ++ p ∷ []) ≡ total xs + length p.bytes
total-append [] p = omega arith
total-append (x ∷ xs) p = omega (arith, total-append xs p)

-- The buffers are in their limits; the bytes of the held packets are counted, and at most 32 MiB; a
-- session on which is decided holds none.
pub record IsSession (s : Session) : Type 0 where
  pub client : IsBuffer s.client_tls
  pub server : IsBuffer s.server_tls
  pub counted : total s.held ≡ s.held_bytes
  pub limit : s.held_bytes ≤ held_cap
  pub idle : s.decision_done ≡ true → s.held ≡ []
  pub plain : s.row.ra ≡ false → s.held ≡ []

-- What a packet of an attested flow leaves as it is.
pub record Kept (s after : Session) : Type 0 where
  pub whole : IsSession after
  pub ra : after.row.ra ≡ s.row.ra
  pub held : after.held ≡ s.held
  pub allowed : s.row.ra ≡ true → after.allowed ≡ s.allowed
  pub done : s.row.ra ≡ true → after.decision_done ≡ s.decision_done

pub record KeptSeen (s : Session) (found : Seen) : Type 0 where
  pub kept : Kept s found.session

pub same : (s : Session) → IsSession s → Kept s s
same s h = record { whole = h; ra = refl; held = refl; allowed = λ _. refl; done = λ _. refl }

-- A packet is held, or there is no room for it.
data Holds (s : Session) (address : ℕ) (bytes : List ℕ) : Option Session → Type 0 where
  refuses : Holds s address bytes none
  holds :
      (held : Session)
      → IsSession held
      → held.row.ra ≡ s.row.ra
      → held.allowed ≡ s.allowed
      → held.decision_done ≡ s.decision_done
      → Holds s address bytes (some held)

hold_packet-Holds :
    (env : InspectEnv) (address : ℕ) (bytes : List ℕ) (s : Session)
    → IsSession s
    → s.decision_done ≡ false
    → s.row.ra ≡ true
    → Holds s address bytes (hold_packet env address bytes s)
unfolding hold_packet
hold_packet-Holds env address bytes s h d attested =
    let l : s.held_bytes ≤ held_cap = h.limit in
    let c : total s.held ≡ s.held_bytes = h.counted in
    by_test (Holds s address bytes)
      (ltb ((held_cap + 2 ^ 64 - s.held_bytes) % 2 ^ 64) (length bytes)
        || not (env.allocates (length bytes)))
      (λ _. refuses)
      λ e.
        holds _
          (record {
            client = h.client;
            server = h.server;
            counted =
                omega (arith, total-append s.held (record { address = address; bytes = bytes }));
            limit = fits l (room e);
            idle = λ t. absurd (cc);
            plain = λ f. absurd (cc);
          })
          refl refl refl
  where
    room :
        (ltb ((held_cap + 2 ^ 64 - s.held_bytes) % 2 ^ 64) (length bytes)
            || not (env.allocates (length bytes)))
          ≡ false
        → length bytes ≤ (held_cap + 2 ^ 64 - s.held_bytes) % 2 ^ 64
    room e = ltb→le _ _ (first_false _ _ e)

    fits :
        s.held_bytes ≤ held_cap
        → length bytes ≤ (held_cap + 2 ^ 64 - s.held_bytes) % 2 ^ 64
        → s.held_bytes + length bytes ≤ held_cap
    fits l r = omega arith

-- What is chosen for a packet. Data of an attested client behind the lookup key is sent only once it is
-- decided that the flow is allowed.
pub record Chosen (view : PacketView) (had_lookup : Bool) (s : Session) (chosen : Session × Action)
    : Type 0 where
  pub whole : IsSession chosen.0
  pub ra : chosen.0.row.ra ≡ s.row.ra
  pub allowed : chosen.0.allowed ≡ s.allowed
  pub done : chosen.0.decision_done ≡ s.decision_done
  pub gated :
      chosen.1 ≡ action_send
      → s.row.ra ≡ true
      → view.outbound ≡ true
      → (length view.payload == 0) ≡ false
      → had_lookup ≡ true
      → (s.decision_done ≡ true) × (s.allowed ≡ true)

unless_sent :
    (view : PacketView) (had_lookup : Bool) (s after : Session) (action : Action)
    → (action ≡ action_send → ⊥)
    → IsSession after
    → after.row.ra ≡ s.row.ra
    → after.allowed ≡ s.allowed
    → after.decision_done ≡ s.decision_done
    → Chosen view had_lookup s (after, action)
unless_sent view had_lookup s after action n h r a d = record {
  whole = h;
  ra = r;
  allowed = a;
  done = d;
  gated = λ e _ _ _ _. absurd (n e);
}

open_gate :
    (had_lookup done allowed : Bool)
    → (had_lookup && not done) ≡ false
    → (done && not allowed) ≡ false
    → had_lookup ≡ true
    → (done ≡ true) × (allowed ≡ true)
open_gate true true true g o h = (refl, refl)
open_gate true true false g o h = absurd (cc)
open_gate true false allowed g o h = absurd (cc)
open_gate false done allowed g o h = absurd (cc)

all_true :
    (ra outbound empty : Bool)
    → (ra && outbound && not empty) ≡ false
    → ra ≡ true
    → outbound ≡ true
    → empty ≡ false
    → ⊥
all_true true true false n r o e = cc
all_true true true true n r o e = cc
all_true true false empty n r o e = cc
all_true false outbound empty n r o e = cc

-- The decision is still to come where a packet is held.
undecided : (had_lookup done : Bool) → (had_lookup && not done) ≡ true → done ≡ false
undecided true true e = cc
undecided true false e = refl
undecided false done e = cc

pub choose_action-Chosen :
    (env : InspectEnv) (view : PacketView) (address : ℕ) (packet : List ℕ) (had_lookup : Bool)
    (s : Session)
    → IsSession s
    → Chosen view had_lookup s (choose_action env view address packet had_lookup s)
unfolding choose_action
choose_action-Chosen env view address packet had_lookup s h =
    by_test (Chosen view had_lookup s) (s.row.ra && view.outbound && not (length view.payload == 0))
      (λ t.
        by_test (Chosen view had_lookup s) (had_lookup && not s.decision_done)
          (λ e. kept_or_dropped (hold_packet env address packet s) (
            hold_packet-Holds env address packet s h (undecided _ _ e)
              (first_true _ _ (first_true _ _ t))))
          λ g.
            by_test (Chosen view had_lookup s) (s.decision_done && not s.allowed)
              (λ _. unless_sent view had_lookup s s action_drop (λ e. cc) h refl refl refl)
              λ o. record {
                whole = h;
                ra = refl;
                allowed = refl;
                done = refl;
                gated = λ _ _ _ _ l. open_gate had_lookup s.decision_done s.allowed g o l;
              })
      λ n. record {
        whole = h;
        ra = refl;
        allowed = refl;
        done = refl;
        gated = λ _ r o e _. absurd (all_true _ _ _ n r o e);
      }
  where
    kept_or_dropped :
        (o : Option Session)
        → Holds s address packet o
        → Chosen view had_lookup s (elim o as (λ _. Session × Action) [
          | some held ↦ (held, action_hold)
          | none ↦ (append_error arena_exceeded s, action_drop)
        ])
    kept_or_dropped none refuses =
        unless_sent view had_lookup s _ action_drop (λ e. cc)
          (record {
            client = h.client;
            server = h.server;
            counted = h.counted;
            limit = h.limit;
            idle = h.idle;
            plain = h.plain;
          })
          refl refl refl
    kept_or_dropped (some held) (holds _ k r a d) =
        unless_sent view had_lookup s held action_hold (λ e. cc) k r a d

-- A change of the row, but of `ra`, or of the flag of the worker.
pub changed :
    (s after : Session)
    → after.row.ra ≡ s.row.ra
    → after.client_tls ≡ s.client_tls
    → after.server_tls ≡ s.server_tls
    → after.held ≡ s.held
    → after.held_bytes ≡ s.held_bytes
    → after.allowed ≡ s.allowed
    → after.decision_done ≡ s.decision_done
    → IsSession s
    → Kept s after
changed s after r c v p b a d h = record {
  whole = record {
    client = subst IsBuffer (sym c) h.client;
    server = subst IsBuffer (sym v) h.server;
    counted = ap total p ∙ h.counted ∙ sym b;
    limit = subst (λ n. n ≤ held_cap) (sym b) h.limit;
    idle = λ t. p ∙ h.idle (sym d ∙ t);
    plain = λ t. p ∙ h.plain (sym r ∙ t);
  };
  ra = r;
  held = p;
  allowed = λ _. a;
  done = λ _. d;
}
