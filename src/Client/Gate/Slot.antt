-- ===== src/Client/Gate/Slot.antt =====
-- `gate_flow_slot` and `gate_flow_find` of agents/linux/tcpra_client_agent.c agree: a flow that is put
-- into the slot that it was given is found there.
use tlslatch.Base.{
  by_test, ℕ, zero, suc, ◌+◌, ◌%◌, ◌<◌, ◌==◌, List, Option, some, none, Bool, true, false,
  if◌then◌else◌, ◌≡◌, ◌≢◌, refl, sym, ◌∙◌, ap, subst, get_or, set, length, Bool-cases, ◌⊎◌, inl,
  inr, arith, get_or-set_self, get_or-set_ne,
}
use tlslatch.Packet.{FlowKey}
use tlslatch.Client.State.{GateFlow, zero_gate, taken, vacant, tombstone, Occupancy}
use tlslatch.Client.Table.{
  same_flow, find_from, gate_flow_find, slot_from, gate_flow_slot, flow_hash, flow_capacity,
}

some_same : {a b : ℕ} → some a ≡ some b → b ≡ a
some_same e = cc

-- One round of `gate_flow_find`.
module _ (flows : List GateFlow) (key : FlowKey) (start left offset : ℕ) where
  abbrev here : ℕ
  here = (start + offset) % flow_capacity

  abbrev next_round : Option ℕ
  next_round = find_from flows key start left (offset + 1)

  abbrev if_same : Bool → Option ℕ
  if_same same = if same then some here else next_round

  -- The round, by what the slot is.
  find_from-round :
      (o : Occupancy)
      → (get_or flows here zero_gate).occupancy ≡ o
      → find_from flows key start (suc left) offset ≡ elim o as (λ _. Option ℕ) [
        | vacant ↦ none
        | taken ↦ if_same (same_flow (get_or flows here zero_gate).key key)
        | tombstone ↦ next_round
      ]
  unfolding find_from
  find_from-round o e =
      ap
        (λ t. elim t as (λ _. Option ℕ) [
          | vacant ↦ none
          | taken ↦ if_same (same_flow (get_or flows here zero_gate).key key)
          | tombstone ↦ next_round
        ])
        e

  find_from-hit :
      (get_or flows here zero_gate).occupancy ≡ taken
      → same_flow (get_or flows here zero_gate).key key ≡ true
      → find_from flows key start (suc left) offset ≡ some here
  find_from-hit o s = find_from-round taken o ∙ ap if_same s

  find_from-other :
      (get_or flows here zero_gate).occupancy ≡ taken
      → same_flow (get_or flows here zero_gate).key key ≡ false
      → find_from flows key start (suc left) offset ≡ find_from flows key start left (offset + 1)
  find_from-other o s = find_from-round taken o ∙ ap if_same s

  find_from-tombstone :
      (get_or flows here zero_gate).occupancy ≡ tombstone
      → find_from flows key start (suc left) offset ≡ find_from flows key start left (offset + 1)
  find_from-tombstone o = find_from-round tombstone o

module _ (flows : List GateFlow) (key : FlowKey) (start i : ℕ) (gate : GateFlow)
    (inside : i < length flows) (in_use : gate.occupancy ≡ taken)
    (of_key : same_flow gate.key key ≡ true) where
  -- A search that comes to the slot stops there, and one that comes to another goes on as before.
  finds_here :
      (left offset : ℕ)
      → (start + offset) % flow_capacity ≡ i
      → find_from (set flows i gate) key start (suc left) offset ≡ some i
  finds_here left offset e =
      let written : get_or (set flows i gate) ((start + offset) % flow_capacity) zero_gate ≡ gate =
        ap (λ n. get_or (set flows i gate) n zero_gate) e
        ∙ get_or-set_self flows i gate zero_gate inside in
      find_from-hit (set flows i gate) key start left offset
        (ap (λ g. g.occupancy) written ∙ in_use) (ap (λ g. same_flow g.key key) written ∙ of_key)
      ∙ ap some e

  goes_on :
      (left offset : ℕ)
      → (P : Option ℕ → Type 0) → P (some i)
      → P (find_from (set flows i gate) key start left (offset + 1))
      → ((get_or flows ((start + offset) % flow_capacity) zero_gate).occupancy ≡ tombstone)
        ⊎ (((get_or flows ((start + offset) % flow_capacity) zero_gate).occupancy ≡ taken)
            × (same_flow (get_or flows ((start + offset) % flow_capacity) zero_gate).key key
                ≡ false))
      → P (find_from (set flows i gate) key start (suc left) offset)
  goes_on left offset P here next passed =
      elim (Bool-cases (((start + offset) % flow_capacity) == i)) [
        | inl e ↦ subst P (sym (finds_here left offset (ground arith))) here
        | inr e ↦
            let apart : (start + offset) % flow_capacity ≢ i = λ h. absurd (ground arith) in
            let same =
              get_or-set_ne flows i ((start + offset) % flow_capacity) gate zero_gate apart in
            elim passed [
              | inl t ↦
                  subst P
                    (sym (
                      find_from-tombstone (set flows i gate) key start left offset
                        (ap (λ g. g.occupancy) same ∙ t)))
                    next
              | inr t ↦
                  subst P
                    (sym (
                      find_from-other (set flows i gate) key start left offset
                        (ap (λ g. g.occupancy) same ∙ t.0)
                        (ap (λ g. same_flow g.key key) same ∙ t.1)))
                    next
            ]
      ]

  -- Behind a tombstone the answer is that tombstone, or is found further on.
  slot_from-finds_later :
      (left offset t : ℕ)
      → slot_from flows key start left offset (some t) ≡ some i
      → (i ≡ t) ⊎ (find_from (set flows i gate) key start left offset ≡ some i)
  unfolding slot_from
  slot_from-finds_later zero offset t = λ e. inl (some_same e)
  slot_from-finds_later (suc left) offset t =
      let flow = get_or flows ((start + offset) % flow_capacity) zero_gate in
      let later = slot_from-finds_later left (offset + 1) t in
      let Later = λ (r : Option ℕ). (i ≡ t) ⊎ (r ≡ some i) in
      elim flow.occupancy
          as (λ o.
            flow.occupancy ≡ o
            → elim o as (λ _. Option ℕ) [
              | vacant ↦ some t
              | taken ↦
                  if same_flow flow.key key
                  then some ((start + offset) % flow_capacity)
                  else slot_from flows key start left (offset + 1) (some t)
              | tombstone ↦ slot_from flows key start left (offset + 1) (some t)
            ]
              ≡ some i
            → (i ≡ t) ⊎ (find_from (set flows i gate) key start (suc left) offset ≡ some i)) [
              | vacant ↦ λ o e. inl (some_same e)
              | tombstone ↦ λ o e. goes_on left offset Later (inr refl) (later e) (inl o)
              | taken ↦ λ o.
                  by_test
                    (λ (r : Option ℕ).
                      r ≡ some i
                      → (i ≡ t)
                        ⊎ (find_from (set flows i gate) key start (suc left) offset ≡ some i))
                    (same_flow flow.key key)
                    (λ s e. inr (finds_here left offset (sym (some_same e))))
                    (λ s e. goes_on left offset Later (inr refl) (later e) (inr (o, s)))
            ]
        refl

  slot_from-found :
      (left offset : ℕ)
      → slot_from flows key start left offset none ≡ some i
      → find_from (set flows i gate) key start left offset ≡ some i
  unfolding slot_from
  slot_from-found zero offset = λ e. cc
  slot_from-found (suc left) offset =
      let index = (start + offset) % flow_capacity in
      let flow = get_or flows index zero_gate in
      let Found = λ (r : Option ℕ). r ≡ some i in
      elim flow.occupancy
          as (λ o.
            flow.occupancy ≡ o
            → elim o as (λ _. Option ℕ) [
              | vacant ↦ some index
              | taken ↦
                  if same_flow flow.key key
                  then some index
                  else slot_from flows key start left (offset + 1) none
              | tombstone ↦ slot_from flows key start left (offset + 1) (some index)
            ]
              ≡ some i
            → find_from (set flows i gate) key start (suc left) offset ≡ some i) [
              | vacant ↦ λ o e. finds_here left offset (sym (some_same e))
              | tombstone ↦ λ o e. elim (slot_from-finds_later left (offset + 1) index e) [
                | inl h ↦ finds_here left offset (sym h)
                | inr h ↦ goes_on left offset Found refl h (inl o)
              ]
              | taken ↦ λ o.
                  by_test
                    (λ (r : Option ℕ).
                      r ≡ some i
                      → find_from (set flows i gate) key start (suc left) offset ≡ some i)
                    (same_flow flow.key key) (λ s e. finds_here left offset (sym (some_same e)))
                    (λ s e.
                      goes_on left offset Found refl (slot_from-found left (offset + 1) e)
                        (inr (o, s)))
            ]
        refl

-- A flow that is put into the slot that `gate_flow_slot` gave for it, inside the table, is what
-- `gate_flow_find` then answers for it, whatever else the table holds.
pub gate_flow_slot-gate_flow_find :
    (flows : List GateFlow) (key : FlowKey) (i : ℕ) (gate : GateFlow)
    → i < length flows
    → gate.occupancy ≡ taken
    → same_flow gate.key key ≡ true
    → gate_flow_slot flows key ≡ some i
    → gate_flow_find (set flows i gate) key ≡ some i
unfolding gate_flow_slot gate_flow_find
gate_flow_slot-gate_flow_find flows key i gate inside in_use of_key e =
    slot_from-found flows key (flow_hash key) i gate inside in_use of_key flow_capacity 0 e
