-- ===== src/Client/Gate/Released.antt =====
-- `finish_held` of agents/linux/tcpra_client_agent.c gives one verdict to each packet that the slot holds.
use tlslatch.Base.{
  ℕ, List, [], ◌∷◌, ◌++◌, Bool, if◌then◌else◌, ◌≡◌, refl, sym, ◌∙◌, ap, Bool-cases, inl, inr,
  append_assoc,
}
use tlslatch.Client.State.{Verdict, Agent, Env, gate_at}
use tlslatch.Client.Held.{finish_one, finish_ids, finish_held, mark_for}
use tlslatch.Client.Gate.Held.{finish_held-empty}

abbrev pub verdict_on : Bool → ℕ → Verdict
verdict_on accepts id = record { packet_id = id; accepts = accepts; mark = mark_for accepts }

-- The verdicts on some packets that the kernel takes, the last one first.
abbrev pub taken_verdicts : Env → Bool → List ℕ → List Verdict
taken_verdicts env accepts [] = []
taken_verdicts env accepts (id ∷ ids) =
    taken_verdicts env accepts ids ++ (if env.verdict_ok id then verdict_on accepts id ∷ [] else [])

finish_one-verdicts :
    (env : Env) (accepts : Bool) (id : ℕ) (agent : Agent)
    → (finish_one env accepts id agent).verdicts
      ≡ (if env.verdict_ok id then verdict_on accepts id ∷ [] else []) ++ agent.verdicts
unfolding finish_one
finish_one-verdicts env accepts id agent = elim (Bool-cases (env.verdict_ok id)) [
  | inl e ↦ rw e refl
  | inr e ↦ rw e refl
]

finish_ids-verdicts :
    (env : Env) (accepts : Bool) (ids : List ℕ) (agent : Agent)
    → (finish_ids env accepts ids agent).verdicts ≡ taken_verdicts env accepts ids ++ agent.verdicts
unfolding finish_ids
finish_ids-verdicts env accepts [] agent = refl
finish_ids-verdicts env accepts (id ∷ ids) agent =
    finish_ids-verdicts env accepts ids (finish_one env accepts id agent)
    ∙ ap (λ t. taken_verdicts env accepts ids ++ t) (finish_one-verdicts env accepts id agent)
    ∙ sym (append_assoc (taken_verdicts env accepts ids) _ agent.verdicts)

-- `finish_held` adds, in the order of the packets that the slot holds, one verdict for each whose
-- verdict the kernel takes: to pass, with the mark of an authorized packet, or to be dropped; the
-- slot then holds none.
pub finish_held-verdicts :
    (env : Env) (accepts : Bool) (i : ℕ) (agent : Agent)
    → ((finish_held env accepts i agent).verdicts
        ≡ taken_verdicts env accepts (gate_at agent i).held_ids ++ agent.verdicts)
      × ((gate_at (finish_held env accepts i agent) i).held_ids ≡ [])
unfolding finish_held
finish_held-verdicts env accepts i agent = (
  finish_ids-verdicts env accepts (gate_at agent i).held_ids agent,
  finish_held-empty env accepts i agent,
)
