-- ===== src/Operations/Relate.antt =====
-- perform_product_update: the loops that relate the new worlds.
use r2dtu_attention.Common.{
  ℕ, ◌+◌, ◌<◌, ◌≤◌, ◌≡◌, refl, ◌∙◌, ap, Bool, false, ◌&&◌, ◌==◌, ==_iff, List, [], ◌∷◌, inl, inr,
  arith, length, any, All, some, none, Option, fold_steps, Bool-cases, get_elem?, get_elem?_total,
  range_from, All-range_from, has, has-range_from, ltb, has,
}
use r2dtu_attention.World.{World}
use r2dtu_attention.State.{State}
use r2dtu_attention.State.Valid.{IsValid}
use r2dtu_attention.State.Edges.{
  edge, Adds, Adds-nothing, Adds-weaken, single, add_indistinguishability_relation-Adds,
  fold_steps-Adds, is_one_reachable-edge,
}
use r2dtu_attention.Action.{Action, EventRelation, relates}
use r2dtu_attention.Action
use r2dtu_attention.Operations.{WorldEntry, relate_agent, relate_pair, relate_entry}

abbrev pub relates? : ℕ → ℕ → Option (List EventRelation) → Bool
relates? a b none = false
relates? a b (some rels) = relates a b rels

-- Agent i does not tell event b from event a.
abbrev pub event_edge : Action → ℕ → ℕ → ℕ → Bool
event_edge action i a b = relates? a b (get_elem? action.indistinguishability_relation i)

is_one_reachable-event_edge :
    (a : Action) (i x y : ℕ)
    → i < length a.indistinguishability_relation
    → Action.is_one_reachable a i x y ≡ some (event_edge a i x y)
unfolding Action.is_one_reachable
is_one_reachable-event_edge a i x y h =
    let (rels, e) = get_elem?_total a.indistinguishability_relation i h in rw e

-- Of the agents of a list, only agent i adds edges for agent i.
any-single :
    (test : ℕ → Bool) (c : Bool) (i : ℕ) (agents : List ℕ)
    → any (λ agent. test agent && ((agent == i) && c)) agents ≡ (has i agents && (c && test i))
any-single test c i [] = refl
any-single test c i (agent ∷ agents) = elim (Bool-cases (agent == i)) [
  | inl e ↦ rw (e, ap test ((==_iff agent i).0 e)) (ground (arith, any-single test c i agents))
  | inr e ↦ rw e (ground (arith, any-single test c i agents))
]

module _ (state : State) (action : Action) where
  -- The agent tells neither the old worlds nor the old events of the two entries apart.
  abbrev pub linked : ℕ → WorldEntry → WorldEntry → Bool
  linked agent x y =
      edge state agent x.old_world y.old_world && event_edge action agent x.old_event y.old_event

  -- The edges that a pair of entries makes.
  abbrev pub between : WorldEntry → WorldEntry → ℕ → ℕ → ℕ → Bool
  between x y i a b =
      ((x.new_world == a) && (y.new_world == b)) && (ltb i state.number_of_agents && linked i x y)

module _ (state : State) (action : Action) (valid : IsValid state)
    (enough : state.number_of_agents ≤ length action.indistinguishability_relation) where
  module _ (worlds : List World) where
    abbrev InWorlds : WorldEntry → Type 0
    InWorlds x = x.new_world < length worlds

    relate_agent-Adds :
        (x y : WorldEntry)
        → InWorlds x
        → InWorlds y
        → (s : State) (agent : ℕ) → agent < state.number_of_agents
        → IsValid s
        → s.number_of_agents ≡ state.number_of_agents
        → s.worlds ≡ worlds
        → (t : State) × (relate_agent state action x y s agent ≡ some t)
          × Adds
              (λ i a b. linked state action agent x y && single agent x.new_world y.new_world i a b)
              s
              t
    unfolding relate_agent
    relate_agent-Adds x y hx hy s agent h v n w =
        let e =
          is_one_reachable-edge state agent x.old_world y.old_world (omega (arith, valid.agents)) in
        let e' = is_one_reachable-event_edge action agent x.old_event y.old_event (omega arith) in
        let (t, q, added) =
          add_indistinguishability_relation-Adds s agent x.new_world y.new_world v (omega arith)
            (omega (arith, ap length w)) (omega (arith, ap length w)) in
        elim (Bool-cases (edge state agent x.old_world y.old_world)) [
          | inl y1 ↦ elim (Bool-cases (event_edge action agent x.old_event y.old_event)) [
            | inl y2 ↦ (t, rw (e, y1, e', y2) q, Adds-weaken _ _ s t (λ i a b. rw (y1, y2)) added)
            | inr n2 ↦ (
              s,
              rw (e, y1, e', n2),
              Adds-weaken _ _ s s (λ i a b. rw (y1, n2)) (Adds-nothing s v),
            )
          ]
          | inr n1 ↦ (s, rw (e, n1), Adds-weaken _ _ s s (λ i a b. rw n1) (Adds-nothing s v))
        ]

    relate_pair-Adds :
        (x : WorldEntry)
        → InWorlds x
        → (s : State) (y : WorldEntry) → InWorlds y
        → IsValid s
        → s.number_of_agents ≡ state.number_of_agents
        → s.worlds ≡ worlds
        → (t : State) × (relate_pair state action x s y ≡ some t)
          × Adds (between state action x y) s t
    unfolding relate_pair
    relate_pair-Adds x hx s y hy v n w =
        let (t, e, added) =
          fold_steps-Adds (relate_agent state action x y)
            (λ agent i a b.
              linked state action agent x y && single agent x.new_world y.new_world i a b)
            (λ agent. agent < state.number_of_agents) state.number_of_agents worlds
            (relate_agent-Adds x y hx hy) s (range_from 0 state.number_of_agents)
            (All-range_from state.number_of_agents 0 state.number_of_agents (omega arith)) v n w in
        (
          t,
          e,
          Adds-weaken _ _ s t
              (λ i a b.
                let z : 0 + state.number_of_agents ≡ state.number_of_agents = omega arith in
                any-single (λ agent. linked state action agent x y)
                  ((x.new_world == a) && (y.new_world == b)) i (range_from 0 state.number_of_agents)
                ∙ rw (has-range_from state.number_of_agents 0 i (omega arith), z) (ground arith))
              added,
        )

    relate_entry-Adds :
        (es : List WorldEntry)
        → All InWorlds es
        → (s : State) (x : WorldEntry) → InWorlds x
        → IsValid s
        → s.number_of_agents ≡ state.number_of_agents
        → s.worlds ≡ worlds
        → (t : State) × (relate_entry state action es s x ≡ some t)
          × Adds (λ i a b. any (λ y. between state action x y i a b) es) s t
    unfolding relate_entry
    relate_entry-Adds es hs s x hx v n w =
        fold_steps-Adds (relate_pair state action x) (between state action x) InWorlds
          state.number_of_agents worlds (relate_pair-Adds x hx) s es hs v n w

    -- All pairs of entries.
    pub relate_entries-Adds :
        (s : State) (es : List WorldEntry)
        → All InWorlds es
        → IsValid s
        → s.number_of_agents ≡ state.number_of_agents
        → s.worlds ≡ worlds
        → (t : State) × (fold_steps (relate_entry state action es) s es ≡ some t)
          × Adds (λ i a b. any (λ x. any (λ y. between state action x y i a b) es) es) s t
    relate_entries-Adds s es hs v n w =
        fold_steps-Adds (relate_entry state action es)
          (λ x i a b. any (λ y. between state action x y i a b) es) InWorlds state.number_of_agents
          worlds (relate_entry-Adds es hs) s es hs v n w
