-- ===== src/Client/Gate/Dropped.antt =====
-- agents/linux/tcpra_client_agent.c: the deadlines and the end of the agent release no held packet.
use tlslatch.Base.{
  ℕ, zero, suc, ◌+◌, List, [], ◌∷◌, ◌++◌, false, not, length, ◌≡◌, refl, sym, ◌∙◌, ap, append_assoc,
  by_test, ltb, ◌*◌,
}
use tlslatch.Client.State.{Verdict, Agent, Env, gate_at}
use tlslatch.Client.Held.{
  finish_held, is_taken, holds_packets, drop_held, drop_held_from, drop_all_held,
  quarantine_endpoint,
}
use tlslatch.Client.Expiry.{
  is_overdue, is_stale, elapsed, deny_overdue, expire_one, expire_from, expire_gate_flows,
}
use tlslatch.Client.Gate.Released.{taken_verdicts, finish_held-verdicts}

abbrev pub AllDrop : List Verdict → Type 0
AllDrop [] = Unit
AllDrop (v ∷ rest) = (v.accepts ≡ false) × AllDrop rest

-- What the kernel was told from `before` to `after` is to drop packets.
pub record OnlyDrops (before after : Agent) : Type 0 where
  pub told : List Verdict
  pub added : after.verdicts ≡ told ++ before.verdicts
  pub all_drop : AllDrop told

AllDrop-append : (xs ys : List Verdict) → AllDrop xs → AllDrop ys → AllDrop (xs ++ ys)
AllDrop-append [] ys h k = k
AllDrop-append (x ∷ xs) ys (e, h) k = (e, AllDrop-append xs ys h k)

OnlyDrops-refl : (before after : Agent) → after.verdicts ≡ before.verdicts → OnlyDrops before after
OnlyDrops-refl before after e = record { told = []; added = e; all_drop = tt }

OnlyDrops-trans : (a b c : Agent) → OnlyDrops a b → OnlyDrops b c → OnlyDrops a c
OnlyDrops-trans a b c h k = record {
  told = k.told ++ h.told;
  added = k.added ∙ ap (λ v. k.told ++ v) h.added ∙ sym (append_assoc k.told h.told a.verdicts);
  all_drop = AllDrop-append k.told h.told k.all_drop h.all_drop;
}

taken_verdicts-AllDrop : (env : Env) (ids : List ℕ) → AllDrop (taken_verdicts env false ids)
taken_verdicts-AllDrop env [] = tt
taken_verdicts-AllDrop env (id ∷ ids) =
    AllDrop-append (taken_verdicts env false ids) _ (taken_verdicts-AllDrop env ids)
      (by_test AllDrop (env.verdict_ok id) (λ _. (refl, tt)) λ _. tt)

finish_held-OnlyDrops :
    (env : Env) (i : ℕ) (agent : Agent) → OnlyDrops agent (finish_held env false i agent)
finish_held-OnlyDrops env i agent = record {
  told = taken_verdicts env false (gate_at agent i).held_ids;
  added = (finish_held-verdicts env false i agent).0;
  all_drop = taken_verdicts-AllDrop env (gate_at agent i).held_ids;
}

drop_held-OnlyDrops : (env : Env) (i : ℕ) (agent : Agent) → OnlyDrops agent (drop_held env i agent)
unfolding drop_held
drop_held-OnlyDrops env i agent =
    by_test (OnlyDrops agent) (is_taken (gate_at agent i))
      (λ _.
        by_test (OnlyDrops agent) (holds_packets (gate_at agent i))
          (λ _. finish_held-OnlyDrops env i agent) λ _. OnlyDrops-refl agent agent refl)
      λ _. OnlyDrops-refl agent agent refl

drop_held_from-OnlyDrops :
    (env : Env) (left i : ℕ) (agent : Agent) → OnlyDrops agent (drop_held_from env left i agent)
unfolding drop_held_from
drop_held_from-OnlyDrops env zero i agent = OnlyDrops-refl agent agent refl
drop_held_from-OnlyDrops env (suc left) i agent =
    OnlyDrops-trans agent (drop_held env i agent) _ (drop_held-OnlyDrops env i agent)
      (drop_held_from-OnlyDrops env left (i + 1) (drop_held env i agent))

quarantine-verdicts : (agent : Agent) → (quarantine_endpoint agent).verdicts ≡ agent.verdicts
unfolding quarantine_endpoint
quarantine-verdicts agent =
    by_test (λ (a : Agent). a.verdicts ≡ agent.verdicts) agent.endpoint_quarantined (λ _. refl)
      λ _. refl

deny_overdue-OnlyDrops :
    (env : Env) (current i : ℕ) (agent : Agent) → OnlyDrops agent (deny_overdue env current i agent)
unfolding deny_overdue
deny_overdue-OnlyDrops env current i agent =
    OnlyDrops-trans agent (finish_held env false i agent) _ (finish_held-OnlyDrops env i agent)
      (OnlyDrops-refl (finish_held env false i agent) _ (quarantine-verdicts _))

expire_one-OnlyDrops :
    (env : Env) (current i : ℕ) (agent : Agent) → OnlyDrops agent (expire_one env current i agent)
unfolding expire_one
expire_one-OnlyDrops env current i agent =
    by_test (OnlyDrops agent) (not (is_taken (gate_at agent i)))
      (λ _. OnlyDrops-refl agent agent refl)
      λ _.
        by_test (OnlyDrops agent) (is_overdue current (gate_at agent i))
          (λ _. deny_overdue-OnlyDrops env current i agent)
          λ _.
            by_test (OnlyDrops agent) (is_stale current (gate_at agent i))
              (λ _. OnlyDrops-refl agent _ refl) λ _. OnlyDrops-refl agent agent refl

expire_from-OnlyDrops :
    (env : Env) (current left i : ℕ) (agent : Agent)
    → OnlyDrops agent (expire_from env current left i agent)
unfolding expire_from
expire_from-OnlyDrops env current zero i agent = OnlyDrops-refl agent agent refl
expire_from-OnlyDrops env current (suc left) i agent =
    OnlyDrops-trans agent (expire_one env current i agent) _
      (expire_one-OnlyDrops env current i agent)
      (expire_from-OnlyDrops env current left (i + 1) (expire_one env current i agent))

-- Whatever the table holds, the scan of the deadlines and the end of the agent tell the kernel nothing
-- but to drop held packets: no timeout releases a packet.
pub expire_gate_flows-OnlyDrops :
    (env : Env) (agent : Agent)
    → OnlyDrops agent (expire_gate_flows env agent) × OnlyDrops agent (drop_all_held env agent)
unfolding expire_gate_flows drop_all_held
expire_gate_flows-OnlyDrops env agent = (
  by_test (OnlyDrops agent) (ltb (elapsed (env.clock 0) agent.last_expiry_scan_ns) (10 * 1000000))
      (λ _. OnlyDrops-refl agent agent refl)
      λ _.
        let scanning : Agent = record agent { last_expiry_scan_ns = env.clock 0 } in
        OnlyDrops-trans agent scanning
          (expire_from env (env.clock 0) (length agent.flows) 0 scanning)
          (OnlyDrops-refl agent scanning refl)
          (expire_from-OnlyDrops env (env.clock 0) (length agent.flows) 0 scanning),
  drop_held_from-OnlyDrops env (length agent.flows) 0 agent,
)
