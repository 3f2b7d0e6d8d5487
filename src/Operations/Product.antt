-- ===== src/Operations/Product.antt =====
-- perform_product_update against the definition of the product of an epistemic model and an event
-- model.
use mathlib.Core.Bool.{not}
use r2dtu_attention.Common.{
  ℕ, ◌+◌, ◌<◌, ◌≤◌, ◌≡◌, refl, ◌∙◌, ap, Bool, ◌&&◌, ◌||◌, ◌==◌, List, [], arith, length, any,
  any-cong, All, some, get_elem?, has, ltb, lt→ltb, String,
}
use r2dtu_attention.Common.Sets.{contains}
use r2dtu_attention.World.{World}
use r2dtu_attention.World
use r2dtu_attention.World.Laws.{add_true_propositions_lem, remove_true_propositions_lem}
use r2dtu_attention.State.{State}
use r2dtu_attention.State
use r2dtu_attention.State.Valid.{IsValid}
use r2dtu_attention.State.Edges.{edge, Adds, no_edges}
use r2dtu_attention.Action.{Action, ActionEvent}
use r2dtu_attention.Action
use r2dtu_attention.Operations.{WorldEntry, perform_product_update}
use r2dtu_attention.Operations.Worlds.{
  outcome, entry, outcomes, entries, built, Evaluates, survivors, product_worlds-built,
  length-outcomes,
}
use r2dtu_attention.Operations.Relate.{event_edge, between, linked, relate_entries-Adds}
use r2dtu_attention.Operations.Points.{
  get_elem?-outcomes, has-points_at, entries-All, any-entries, built-IsValid,
}

-- The propositions of the world that an event makes: those of the old world without the deleted,
-- and the added ones.
outcome_true :
    (i : ℕ) (w : World) (e : ActionEvent) (p : String)
    → contains (outcome i (w, e)).true_propositions p ≡ (
        (contains w.true_propositions p && not (contains e.proposition_delete p))
        || contains e.proposition_add p)
unfolding contains
outcome_true i w e p =
    rw (add_true_propositions_lem, remove_true_propositions_lem, add_true_propositions_lem)

-- The product of `state` and `action`, for the pairs `ps` of a world and an event, in this order.
pub record IsProduct (state : State) (action : Action) (ps : List (World × ActionEvent)) (t : State)
    : Type 0 where
  pub valid : IsValid t
  pub agents : t.number_of_agents ≡ state.number_of_agents
  pub size : length t.worlds ≡ length ps
  -- A world for each pair, with the propositions that the event leaves true.
  pub worlds :
      (k : ℕ) (w : World) (e : ActionEvent)
      → get_elem? ps k ≡ some (w, e)
      → (u : World) × (get_elem? t.worlds k ≡ some u)
        × (u.id ≡ k)
        × ((p : String)
            → contains u.true_propositions p ≡ (
                (contains w.true_propositions p && not (contains e.proposition_delete p))
                || contains e.proposition_add p))
  -- It is designated when the world and the event are.
  pub designated :
      (k : ℕ) (w : World) (e : ActionEvent)
      → get_elem? ps k ≡ some (w, e)
      → has k t.designated_worlds
        ≡ (has w.id state.designated_worlds && has e.id action.designated_events)
  -- An agent confuses two pairs when it confuses their worlds and their events.
  pub edges :
      (i k l : ℕ) (w v : World) (e f : ActionEvent)
      → i < state.number_of_agents
      → get_elem? ps k ≡ some (w, e)
      → get_elem? ps l ≡ some (v, f)
      → edge t i k l ≡ (edge state i w.id v.id && event_edge action i e.id f.id)

module _ (holds : World → ActionEvent → Bool) (state : State) (action : Action)
    (valid : IsValid state)
    (enough : state.number_of_agents ≤ length action.indistinguishability_relation) where
  abbrev pub product_pairs : List (World × ActionEvent)
  product_pairs = survivors holds action.events state.worlds

  between-linked :
      (i k l : ℕ) (p q : World × ActionEvent) (ps : List (World × ActionEvent))
      → i < state.number_of_agents
      → get_elem? ps k ≡ some p
      → get_elem? ps l ≡ some q
      → any
          (λ x. any (λ y. between state action x y i k l) (entries state action 0 ps))
          (entries state action 0 ps)
        ≡ linked state action i (entry k p) (entry l q)
  between-linked i k l p q ps h hp hq =
      let es = entries state action 0 ps in
      let inner = λ (x : WorldEntry).
        any-cong (λ y. between state action x y i k l)
          (λ y.
            (y.new_world == l)
            && ((x.new_world == k) && (ltb i state.number_of_agents && linked state action i x y)))
          es (λ y. ground arith)
        ∙ any-entries state action
            (λ y. (x.new_world == k) && (ltb i state.number_of_agents && linked state action i x y))
            0 l l ps q (omega arith) hq in
      any-cong _ _ es inner
      ∙ any-entries state action
          (λ x. ltb i state.number_of_agents && linked state action i x (entry l q)) 0 k k ps p
          (omega arith) hp
      ∙ rw (lt→ltb _ _ h)

  module _ (t : State)
      (h : Adds
        (λ i a b.
          any
            (λ x. any (λ y. between state action x y i a b) (entries state action 0 product_pairs))
            (entries state action 0 product_pairs))
        (built state action product_pairs)
        t) where
    related-IsProduct : IsProduct state action product_pairs t
    unfolding State.is_world_designated Action.is_event_designated World.add_true_propositions
        World.remove_true_propositions
    related-IsProduct = record {
      valid = h.valid;
      agents = h.agents;
      size = ap length h.worlds ∙ length-outcomes state action 0 product_pairs;
      worlds = λ k w e q.
          let z : 0 + k ≡ k = omega arith in
          (
            outcome k (w, e),
            ap (λ ws. get_elem? ws k) h.worlds
                ∙ get_elem?-outcomes state action 0 k product_pairs (w, e) q
                ∙ ap (λ j. some (outcome j (w, e))) z,
            refl,
            outcome_true k w e,
          );
      designated = λ k w e q.
          ap (has k) h.designated
          ∙ has-points_at state action 0 k k product_pairs (w, e) (omega arith) q;
      edges = λ i k l w v e f hi hk hl.
          h.edges i k l
          ∙ rw (no_edges state.number_of_agents i k l)
              (between-linked i k l (w, e) (v, f) product_pairs hi hk hl);
    }

-- In a valid state, with an action that knows the agents and preconditions that evaluate as `holds`
-- says, the product update is defined, and it is the product: a world for each pair of a world and an
-- event whose precondition holds in it, with the propositions, points and indistinguishability that
-- the definition of the product gives it. The result is again a valid state.
pub perform_product_update-IsProduct :
    (holds : World → ActionEvent → Bool) (state : State) (action : Action)
    → IsValid state
    → state.number_of_agents ≤ length action.indistinguishability_relation
    → All (Evaluates holds action.events) state.worlds
    → (t : State) × (perform_product_update state action ≡ some t)
      × IsProduct state action (survivors holds action.events state.worlds) t
unfolding perform_product_update
perform_product_update-IsProduct holds state action valid enough ev =
    let ps = survivors holds action.events state.worlds in
    let first = product_worlds-built holds state action [] state.worlds ev in
    let (t, e, added) =
      relate_entries-Adds state action valid enough (outcomes state action 0 ps)
        (built state action ps) (entries state action 0 ps)
        (entries-All state action 0 _ ps (omega (arith, length-outcomes state action 0 ps)))
        (built-IsValid state action ps) refl refl in
    (t, rw first e, related-IsProduct holds state action valid enough t added)
