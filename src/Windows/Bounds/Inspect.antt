-- ===== src/Windows/Bounds/Inspect.antt =====
-- agents/windows/tcpra_agent_c.c: `inspect_packet` stays in its limits, and keeps data behind the gate.
use tlslatch.Base.{
  ℕ, ◌≡◌, refl, sym, ◌∙◌, List, Option, Bool, true, false, not, ◌&&◌, ◌||◌, ◌==◌, length, Safe,
  returns, Safe->>=, Safe-branch, Safe-attempt, Safe-implies, by_test, not-true,
}
use tlslatch.Windows.{PacketView, Session}
use tlslatch.Windows.Inspect.{
  InspectEnv, action_send, Seen, client_hello_seen, server_hello_seen, count_copied, close_seen,
  find_client_key, find_server_key, observe_outbound, observe_inbound, observe, Inspected,
  inspect_packet,
}
use tlslatch.Windows.Bounds.Buffer.{buffer_append-Safe}
use tlslatch.Windows.Bounds.Hello.{find_hello_key-Safe}
use tlslatch.Windows.Bounds.Session.{IsSession, Kept, KeptSeen, same, changed, choose_action-Chosen}

-- The observation of a payload.
module _ (sha512 : List ℕ → Option (List ℕ)) (env : InspectEnv) where
  client_hello_seen-KeptSeen :
      (key : List ℕ) (s : Session) → IsSession s → KeptSeen s (client_hello_seen env key s)
  client_hello_seen-KeptSeen key s h =
      by_test (KeptSeen s) (s.row.ra && not s.worker_started)
        (λ _. record { kept = changed s _ refl refl refl refl refl refl refl h })
        λ _. record { kept = changed s _ refl refl refl refl refl refl refl h }

  server_hello_seen-KeptSeen :
      (key : List ℕ) (s : Session) → IsSession s → KeptSeen s (server_hello_seen env key s)
  server_hello_seen-KeptSeen key s h =
      by_test (KeptSeen s) (not s.row.ra)
        (λ n. record {
          kept = record {
            whole = record {
              client = h.client;
              server = h.server;
              counted = h.counted;
              limit = h.limit;
              idle = λ _. h.plain (not-true _ n);
              plain = h.plain;
            };
            ra = refl;
            held = refl;
            allowed = λ r. absurd (attested s.row.ra n r);
            done = λ r. absurd (attested s.row.ra n r);
          };
        })
        λ _. record { kept = changed s _ refl refl refl refl refl refl refl h }
    where
      attested : (b : Bool) → not b ≡ true → b ≡ true → ⊥
      attested true n r = cc
      attested false n r = cc

  -- A change of a buffer.
  buffered :
      (s after : Session) (found : Seen)
      → after.row.ra ≡ s.row.ra
      → after.held ≡ s.held
      → after.allowed ≡ s.allowed
      → after.decision_done ≡ s.decision_done
      → KeptSeen after found
      → KeptSeen s found
  buffered s after found r p a d k = record {
    kept = record {
      whole = k.kept.whole;
      ra = k.kept.ra ∙ r;
      held = k.kept.held ∙ p;
      allowed = λ t. k.kept.allowed (r ∙ t) ∙ a;
      done = λ t. k.kept.done (r ∙ t) ∙ d;
    };
  }

  find_client_key-KeptSeen :
      (s : Session) → IsSession s → Safe (KeptSeen s) (find_client_key sha512 env s)
  unfolding find_client_key
  find_client_key-KeptSeen s h =
      by_test (Safe (KeptSeen s)) s.row.have_lookup_key
        (λ _. returns _ (record { kept = same s h }))
        λ _.
          Safe-attempt _ _ (find_hello_key-Safe sha512 env.allocates s.client_tls.bytes true)
            (returns _ (record { kept = same s h }))
            λ key _. returns _ (client_hello_seen-KeptSeen key s h)

  find_server_key-KeptSeen :
      (s : Session) → IsSession s → Safe (KeptSeen s) (find_server_key sha512 env s)
  unfolding find_server_key
  find_server_key-KeptSeen s h =
      by_test (Safe (KeptSeen s)) s.row.have_local_serverhello_key
        (λ _. returns _ (record { kept = same s h }))
        λ _.
          Safe-attempt _ _ (find_hello_key-Safe sha512 env.allocates s.server_tls.bytes false)
            (returns _ (record { kept = same s h }))
            λ key _. returns _ (server_hello_seen-KeptSeen key s h)

  observe_outbound-KeptSeen :
      (payload : List ℕ) (s : Session)
      → IsSession s
      → Safe (KeptSeen s) (observe_outbound sha512 env payload s)
  unfolding observe_outbound
  observe_outbound-KeptSeen payload s h =
      Safe-attempt _ _ (buffer_append-Safe env.allocates s.client_tls payload h.client)
        (returns _ (record { kept = changed s _ refl refl refl refl refl refl refl h }))
        λ buffer b.
          Safe-implies
            (find_client_key-KeptSeen (record s { client_tls = buffer })
              (record {
                client = b;
                server = h.server;
                counted = h.counted;
                limit = h.limit;
                idle = h.idle;
                plain = h.plain;
              }))
            λ found k. buffered s (record s { client_tls = buffer }) found refl refl refl refl k

  observe_inbound-KeptSeen :
      (payload : List ℕ) (s : Session)
      → IsSession s
      → Safe (KeptSeen s) (observe_inbound sha512 env payload s)
  unfolding observe_inbound
  observe_inbound-KeptSeen payload s h =
      Safe-attempt _ _ (buffer_append-Safe env.allocates s.server_tls payload h.server)
        (returns _ (record { kept = changed s _ refl refl refl refl refl refl refl h }))
        λ buffer b.
          Safe-implies
            (find_server_key-KeptSeen (record s { server_tls = buffer })
              (record {
                client = h.client;
                server = b;
                counted = h.counted;
                limit = h.limit;
                idle = h.idle;
                plain = h.plain;
              }))
            λ found k. buffered s (record s { server_tls = buffer }) found refl refl refl refl k

  observe-KeptSeen :
      (view : PacketView) (s : Session)
      → IsSession s
      → Safe (KeptSeen s) (observe sha512 env view s)
  unfolding observe
  observe-KeptSeen view s h =
      Safe-branch _ _ _ (λ _. returns _ (record { kept = same s h }))
        λ _.
          Safe-branch _ _ _ (λ _. observe_outbound-KeptSeen view.payload s h)
            λ _. observe_inbound-KeptSeen view.payload s h

  close_seen-Kept : (view : PacketView) (s : Session) → IsSession s → Kept s (close_seen env view s)
  close_seen-Kept view s h =
      by_test (Kept s) (view.fin || view.rst)
        (λ _. changed s _ refl refl refl refl refl refl refl h) λ _. same s h

-- A packet of an attested flow decides nothing. Data of its client behind the lookup key is sent only
-- where it is decided that the flow is allowed.
pub record IsInspected (view : PacketView) (s : Session) (inspected : Inspected) : Type 0 where
  pub whole : IsSession inspected.session
  pub ra : inspected.session.row.ra ≡ s.row.ra
  pub allowed : s.row.ra ≡ true → inspected.session.allowed ≡ s.allowed
  pub done : s.row.ra ≡ true → inspected.session.decision_done ≡ s.decision_done
  pub gated :
      inspected.action ≡ action_send
      → s.row.ra ≡ true
      → view.outbound ≡ true
      → (length view.payload == 0) ≡ false
      → s.row.have_lookup_key ≡ true
      → (s.decision_done ≡ true) × (s.allowed ≡ true)

module _ (sha512 : List ℕ → Option (List ℕ)) (env : InspectEnv) where
  -- Handling a packet of a session within its limits reads and writes inside the buffers, its loops end,
  -- and the session is within its limits again: each stream has at most 256 KiB, the bytes of the held
  -- packets are counted and are at most 32 MiB, and none is held once it is decided or if the server is
  -- not to be attested. Where it is to be attested, the packet decides nothing, and data of the client
  -- that comes behind the lookup key is let through only if it was decided that the flow is allowed.
  pub inspect_packet-Safe :
      (view : PacketView) (address : ℕ) (packet : List ℕ) (s : Session)
      → IsSession s
      → Safe (IsInspected view s) (inspect_packet sha512 env view address packet s)
  unfolding inspect_packet
  inspect_packet-Safe view address packet s h =
      let counted =
        changed s (count_copied (length packet) s) refl refl refl refl refl refl refl h in
      Safe->>= _ _ (observe-KeptSeen sha512 env view (count_copied (length packet) s) counted.whole)
        λ found k.
          let closed = close_seen-Kept sha512 env view found.session k.kept.whole in
          let chosen =
            choose_action-Chosen env view address packet s.row.have_lookup_key
              (close_seen env view found.session) closed.whole in
          let ra = closed.ra ∙ k.kept.ra in
          returns _ (record {
            whole = chosen.whole;
            ra = chosen.ra ∙ ra;
            allowed = λ r. chosen.allowed ∙ closed.allowed (k.kept.ra ∙ r) ∙ k.kept.allowed r;
            done = λ r. chosen.done ∙ closed.done (k.kept.ra ∙ r) ∙ k.kept.done r;
            gated = λ e r o p l.
                let g = chosen.gated e (ra ∙ r) o p l in
                (
                  sym (closed.done (k.kept.ra ∙ r) ∙ k.kept.done r) ∙ g.0,
                  sym (closed.allowed (k.kept.ra ∙ r) ∙ k.kept.allowed r) ∙ g.1,
                );
          })
