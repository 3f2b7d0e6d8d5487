-- ===== src/Operations/Split.antt =====
-- split_into_global_states: one state for each designated world.
use mathlib.Core.List.{append-nil, append_assoc}
use mathlib.Core.Path.{subst}
use mathlib.Core.Option.{some-injective}
use r2dtu_attention.Common.{
  ℕ, ◌<◌, ◌≡◌, ◌≢◌, refl, ◌∙◌, sym, List, [], ◌∷◌, ◌++◌, arith, length, All, some, fold_steps,
  get_elem?, get_elem?_total, set, get_elem?-set_self, get_elem?-set_ne,
}
use r2dtu_attention.State.{State, WorldRelation}
use r2dtu_attention.State
use r2dtu_attention.State.Valid.{IsValid, set_global_for_agent-IsValid}
use r2dtu_attention.Operations.{split_world, split_into_global_states}

-- `t` is `state` seen at world w: the only designated world, which the agent tells from all others;
-- the worlds and what the other agents know are as before.
pub record IsGlobal (state : State) (agent w : ℕ) (t : State) : Type 0 where
  pub valid : IsValid t
  pub agents : t.number_of_agents ≡ state.number_of_agents
  pub worlds : t.worlds ≡ state.worlds
  pub designated : t.designated_worlds ≡ w ∷ []
  pub own :
      get_elem? t.indistinguishability_relation agent
      ≡ some (record { world_from = w; world_to = w } ∷ [])
  pub others :
      (i : ℕ)
      → agent ≢ i
      → get_elem? t.indistinguishability_relation i
        ≡ get_elem? state.indistinguishability_relation i

-- The states are those of the worlds, in the same order.
pub data AreGlobal (state : State) (agent : ℕ) : List ℕ → List State → Type 0 where
  nil : AreGlobal state agent [] []
  cons :
      {w : ℕ} {t : State} {ws : List ℕ} {ts : List State}
      → IsGlobal state agent w t
      → AreGlobal state agent ws ts
      → AreGlobal state agent (w ∷ ws) (t ∷ ts)

-- A world of a valid state can be made the only designated one for an agent of the state. The state that is returned is valid and
-- has the same agents and worlds; the world is its only designated one, the agent has only the relation from the world
-- to itself, and the relations of the other agents are as before.
pub set_global_for_agent-IsGlobal :
    (state : State) (agent w : ℕ)
    → IsValid state
    → agent < state.number_of_agents
    → w < length state.worlds
    → (t : State) × (State.set_global_for_agent state agent w ≡ some t) × IsGlobal state agent w t
unfolding State.set_global_for_agent
set_global_for_agent-IsGlobal state agent w valid known h =
    let (t, e, v) = set_global_for_agent-IsValid state agent w valid known h in
    let rels = state.indistinguishability_relation in
    let (old, q) = get_elem?_total rels agent (omega (arith, valid.agents)) in
    let pointed : State = record state {
      designated_worlds = w ∷ [];
      indistinguishability_relation = set rels agent (record { world_from = w; world_to = w } ∷ []);
    } in
    let e' : State.set_global_for_agent state agent w ≡ some pointed = rw q in
    (
      pointed,
      e',
      record {
        valid = subst IsValid (some-injective t pointed (sym e ∙ e')) v;
        agents = refl;
        worlds = refl;
        designated = refl;
        own = get_elem?-set_self rels agent _ (omega (arith, valid.agents));
        others = λ i n. get_elem?-set_ne rels agent i _ n;
      },
    )

module _ (state : State) (agent : ℕ) (valid : IsValid state)
    (known : agent < state.number_of_agents) where
  split_worlds :
      (done : List State) (ws : List ℕ)
      → All (λ w. w < length state.worlds) ws
      → (ts : List State) × (fold_steps (split_world state agent) done ws ≡ some (done ++ ts))
        × AreGlobal state agent ws ts
  unfolding fold_steps split_world
  split_worlds done [] h = ([], rw (append-nil done), nil)
  split_worlds done (w ∷ ws) h =
      let (t, e, g) = set_global_for_agent-IsGlobal state agent w valid known h.0 in
      let (ts, q, gs) = split_worlds (done ++ t ∷ []) ws h.1 in
      (t ∷ ts, rw (e, q, append_assoc done (t ∷ []) ts), cons g gs)

-- For an agent of a valid state the split is defined, and it gives the designated worlds one state
-- each, in their order.
pub split_into_global_states-AreGlobal :
    (state : State) (agent : ℕ)
    → IsValid state
    → agent < state.number_of_agents
    → (ts : List State) × (split_into_global_states state agent ≡ some ts)
      × AreGlobal state agent state.designated_worlds ts
unfolding split_into_global_states
split_into_global_states-AreGlobal state agent valid known =
    split_worlds state agent valid known [] state.designated_worlds valid.designated
