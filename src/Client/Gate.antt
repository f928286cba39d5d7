-- ===== src/Client/Gate.antt =====
-- The state machine of one slot of the flow table of agents/linux/tcpra_client_agent.c: what a
-- handler can do to a `struct gate_flow`, and what stays true of it.
pub mod Moves
pub mod Drain
pub mod Slot
pub mod Released
pub mod Dropped
pub mod Held
pub mod Data
pub mod Answers
pub mod Authorization
pub mod Verdicts
pub mod Expiry
pub mod Decisions
pub mod Run
pub mod Packets
pub mod Lookup
use tlslatch.Base.{
  ℕ, ◌≤◌, ◌<◌, List, [], ◌∷◌, ◌++◌, Bool, true, false, ◌≡◌, length, length-append, arith, refl, ◌⊎◌,
  inl, inr, ◌∙◌, subst,
}
use tlslatch.Packet.{FlowKey}
use tlslatch.Client.State.{
  GateFlow, zero_gate, taken, tombstone, handshake, server_hello, admitted, denied, GateState,
}
use tlslatch.Client.Held.{is_taken}
use tlslatch.Client.Action.{max_held_packets}
use tlslatch.Client.Expiry.{is_decided}

abbrev pub fresh_gate : FlowKey → ℕ → ℕ → GateFlow
fresh_gate key state_ns deadline_ns = record zero_gate {
  occupancy = taken;
  key = key;
  state_ns = state_ns;
  deadline_ns = deadline_ns;
  state = handshake;
}

-- One step of a slot. `Approves key lookup_key socket_cookie` is what admits a gate.
pub data GateStep (Approves : FlowKey → List ℕ → ℕ → Type 0) : GateFlow → GateFlow → Type 0 where
  vacates :
      (g : GateFlow)
      → g.held_ids ≡ []
      → GateStep Approves g (record zero_gate { occupancy = tombstone })
  resets :
      (g : GateFlow) (key : FlowKey) (state_ns deadline_ns : ℕ)
      → (is_taken g ≡ true → g.held_ids ≡ [])
      → GateStep Approves g (fresh_gate key state_ns deadline_ns)
  binds :
      (g : GateFlow) (socket_cookie deadline_ns : ℕ)
      → g.state ≡ handshake
      → GateStep Approves g (record g { socket_cookie = socket_cookie; deadline_ns = deadline_ns })
  sees_client_hello :
      (g : GateFlow) (lookup_key : List ℕ)
      → g.state ≡ handshake
      → GateStep Approves g (record g { client_hello_seen = true; lookup_key = lookup_key })
  sees_server_hello :
      (g : GateFlow) (report_key : List ℕ) (state_ns : ℕ)
      → g.client_hello_seen ≡ true
      → g.server_hello_seen ≡ false
      → GateStep Approves g (record g {
        server_hello_seen = true;
        state = server_hello;
        state_ns = state_ns;
        report_key = report_key;
      })
  audits_server_hello :
      (g : GateFlow) (report_key : List ℕ)
      → g.client_hello_seen ≡ true
      → g.server_hello_seen ≡ false
      → GateStep Approves g (record g { server_hello_seen = true; report_key = report_key })
  holds :
      (g : GateFlow) (packet_id : ℕ)
      → is_taken g ≡ true
      → is_decided g.state ≡ false
      → length g.held_ids < max_held_packets
      → GateStep Approves g (record g { held_ids = g.held_ids ++ packet_id ∷ [] })
  finishes : (g : GateFlow) → GateStep Approves g (record g { held_ids = [] })
  admits :
      (g : GateFlow) (state_ns : ℕ)
      → g.held_ids ≡ []
      → g.client_hello_seen ≡ true
      → g.server_hello_seen ≡ true
      → Approves g.key g.lookup_key g.socket_cookie
      → GateStep Approves g (record g { state = admitted; state_ns = state_ns; deadline_ns = 0 })
  denies :
      (g : GateFlow) (state_ns : ℕ)
      → g.held_ids ≡ []
      → GateStep Approves g (record g { state = denied; state_ns = state_ns; deadline_ns = 0 })

infixr 5 ◌then◌
pub data GateSteps (Approves : FlowKey → List ℕ → ℕ → Type 0) : GateFlow → GateFlow → Type 0 where
  stays : (g : GateFlow) → GateSteps Approves g g
  ◌then◌ :
      {g h k : GateFlow} → GateSteps Approves g h → GateStep Approves h k → GateSteps Approves g k

-- A slot holds at most 512 packets, none if it is not in use or its flow is decided, and a flow is
-- admitted behind both hellos only.
pub record IsWellFormed (g : GateFlow) : Type 0 where
  pub few_held : length g.held_ids ≤ max_held_packets
  pub unused_holds_none : is_taken g ≡ false → g.held_ids ≡ []
  pub decided_holds_none : is_decided g.state ≡ true → g.held_ids ≡ []
  pub admitted_seen :
      g.state ≡ admitted → (g.client_hello_seen ≡ true) × (g.server_hello_seen ≡ true)

-- A gate is admitted because it was so before, for the same flow, or because it is approved now.
abbrev pub IsExplained : (FlowKey → List ℕ → ℕ → Type 0) → GateFlow → GateFlow → Type 0
IsExplained Approves g h =
    ((g.state ≡ admitted)
      × (g.key ≡ h.key)
      × (g.lookup_key ≡ h.lookup_key)
      × (g.socket_cookie ≡ h.socket_cookie))
    ⊎ Approves h.key h.lookup_key h.socket_cookie

module _ {Approves : FlowKey → List ℕ → ℕ → Type 0} where
  -- Every step of the state machine keeps a slot well formed.
  pub GateStep-keeps : {g h : GateFlow} → GateStep Approves g h → IsWellFormed g → IsWellFormed h
  GateStep-keeps (vacates g e) w = record {
    few_held = omega arith;
    unused_holds_none = λ h. refl;
    decided_holds_none = λ h. refl;
    admitted_seen = λ h. cc;
  }
  GateStep-keeps (resets g key state_ns deadline_ns e) w = record {
    few_held = omega arith;
    unused_holds_none = λ h. refl;
    decided_holds_none = λ h. refl;
    admitted_seen = λ h. cc;
  }
  GateStep-keeps (binds g socket_cookie deadline_ns e) w = record {
    few_held = w.few_held;
    unused_holds_none = w.unused_holds_none;
    decided_holds_none = w.decided_holds_none;
    admitted_seen = w.admitted_seen;
  }
  GateStep-keeps (sees_client_hello g lookup_key e) w = record {
    few_held = w.few_held;
    unused_holds_none = w.unused_holds_none;
    decided_holds_none = w.decided_holds_none;
    admitted_seen = λ h. cc;
  }
  GateStep-keeps (sees_server_hello g report_key state_ns c s) w = record {
    few_held = w.few_held;
    unused_holds_none = w.unused_holds_none;
    decided_holds_none = λ h. cc;
    admitted_seen = λ h. cc;
  }
  GateStep-keeps (audits_server_hello g report_key c s) w = record {
    few_held = w.few_held;
    unused_holds_none = w.unused_holds_none;
    decided_holds_none = w.decided_holds_none;
    admitted_seen = λ h. (c, refl);
  }
  GateStep-keeps (holds g packet_id t d l) w = record {
    few_held = omega (arith, length-append g.held_ids (packet_id ∷ []));
    unused_holds_none = λ h. cc;
    decided_holds_none = λ h. cc;
    admitted_seen = w.admitted_seen;
  }
  GateStep-keeps (finishes g) w = record {
    few_held = omega arith;
    unused_holds_none = λ h. refl;
    decided_holds_none = λ h. refl;
    admitted_seen = w.admitted_seen;
  }
  GateStep-keeps (admits g state_ns e c s a) w = record {
    few_held = w.few_held;
    unused_holds_none = w.unused_holds_none;
    decided_holds_none = λ h. e;
    admitted_seen = λ h. (c, s);
  }
  GateStep-keeps (denies g state_ns e) w = record {
    few_held = w.few_held;
    unused_holds_none = w.unused_holds_none;
    decided_holds_none = λ h. e;
    admitted_seen = λ h. cc;
  }

  pub GateSteps-keeps : {g h : GateFlow} → GateSteps Approves g h → IsWellFormed g → IsWellFormed h
  GateSteps-keeps (stays g) w = w
  GateSteps-keeps (steps then step) w = GateStep-keeps step (GateSteps-keeps steps w)

  GateStep-IsExplained :
      {g h : GateFlow} → GateStep Approves g h → h.state ≡ admitted → IsExplained Approves g h
  GateStep-IsExplained (vacates g e) a = cc
  GateStep-IsExplained (resets g key state_ns deadline_ns e) a = cc
  GateStep-IsExplained (binds g socket_cookie deadline_ns e) a = cc
  GateStep-IsExplained (sees_client_hello g lookup_key e) a = cc
  GateStep-IsExplained (sees_server_hello g report_key state_ns c s) a = cc
  GateStep-IsExplained (audits_server_hello g report_key c s) a = inl (a, refl, refl, refl)
  GateStep-IsExplained (holds g packet_id t d l) a = inl (a, refl, refl, refl)
  GateStep-IsExplained (finishes g) a = inl (a, refl, refl, refl)
  GateStep-IsExplained (admits g state_ns e c s p) a = inr p
  GateStep-IsExplained (denies g state_ns e) a = cc

  pub GateSteps-IsExplained :
      {g h : GateFlow} → GateSteps Approves g h → h.state ≡ admitted → IsExplained Approves g h
  GateSteps-IsExplained (stays g) a = inl (a, refl, refl, refl)
  GateSteps-IsExplained {g} {h = k} (◌then◌ {h} steps step) a = elim (GateStep-IsExplained step a) [
    | inr p ↦ inr p
    | inl (b, e, l, c) ↦ elim (GateSteps-IsExplained steps b) [
      | inl (b0, e0, l0, c0) ↦ inl (b0, e0 ∙ e, l0 ∙ l, c0 ∙ c)
      | inr p ↦ inr (
          subst (λ t. Approves t k.lookup_key k.socket_cookie) e
            (subst (λ t. Approves h.key t k.socket_cookie) l
              (subst (λ t. Approves h.key h.lookup_key t) c p)))
    ]
  ]
