-- ===== src/Operations/Applicable.antt =====
-- is_action_applicable: an event for every world that the owner of the action considers possible.
use mathlib.Core.Option.{some-injective}
use r2dtu_attention.Common.{
  ℕ, ◌<◌, ◌≡◌, ◌↔◌, refl, ◌∙◌, ap, sym, Bool, true, false, ◌||◌, List, [], ◌∷◌, inl, inr, arith,
  length, any, All, some, fold_steps, Bool-cases, get_elem?, get_elem?_total, has, All-of_has,
  All-get_elem?, if◌then◌else◌, ==_iff, ◌==◌, ==-refl,
}
use r2dtu_attention.World.{World}
use r2dtu_attention.State.{State, WorldRelation}
use r2dtu_attention.State.Valid.{IsValid}
use r2dtu_attention.State.Search.{get_designated_world_reachables-Reach}
use r2dtu_attention.State.Visits.{Reach}
use r2dtu_attention.Action.{Action, ActionEvent}
use r2dtu_attention.Operations.{found_applicable_event, applicable_in_worlds, is_action_applicable}
use r2dtu_attention.Operations.Worlds.{Evaluates}
use r2dtu_attention.Operations.Perspective.{Reach-lt}

module _ (holds : World → ActionEvent → Bool) where
  found-any :
      (u : World) (events : List ActionEvent) (found : Bool)
      → Evaluates holds events u
      → fold_steps (found_applicable_event u) found events ≡ some (found || any (holds u) events)
  unfolding fold_steps found_applicable_event
  found-any u [] found h = ground arith
  found-any u (e ∷ events) found h =
      rw h.0 (found-any u events (if holds u e then true else found) h.1 ∙ ground arith)

  module _ (state : State) (action : Action)
      (evaluates : All (Evaluates holds action.events) state.worlds) where
    -- Some event of the action is possible in world w.
    abbrev pub Possible : ℕ → Type 0
    Possible w =
        (u : World) → get_elem? state.worlds w ≡ some u → any (holds u) action.events ≡ true

    applicable-Possible :
        (ws : List ℕ)
        → All (λ w. w < length state.worlds) ws
        → (b : Bool) × (applicable_in_worlds state action ws ≡ some b)
          × ((b ≡ true) ↔ ((w : ℕ) → has w ws ≡ true → Possible w))
    unfolding applicable_in_worlds
    applicable-Possible [] h = (true, refl, (λ _ w m. cc, λ _. refl))
    applicable-Possible (w ∷ ws) h =
        let (u, e) = get_elem?_total state.worlds w h.0 in
        let found =
          found-any u action.events false (All-get_elem? _ state.worlds w u evaluates e) in
        let (b, q, i) = applicable-Possible ws h.1 in
        elim (Bool-cases (any (holds u) action.events)) [
          | inl y ↦ (
            b,
            rw (e, found, y) q,
            (
              λ t w' m u' at. elim (Bool-cases (w == w')) [
                | inl k ↦
                    let same =
                      some-injective u u'
                        (sym e ∙ ap (get_elem? state.worlds) ((==_iff w w').0 k) ∙ at) in
                    ap (λ x. any (holds x) action.events) (sym same) ∙ y
                | inr k ↦ i.0 t w' (rw k at m) u' at
              ],
              λ all. i.1 (λ w' m. all w' (ground arith)),
            ),
          )
          | inr n ↦ (
            false,
            rw (e, found, n),
            (λ t w' m u' at. cc, λ all. sym n ∙ all w (rw (==-refl w)) u e),
          )
        ]

-- For a valid state with the agent that owns the action, and preconditions that evaluate as `holds`
-- says, the test is defined: it is true exactly if in every world that the owner considers possible
-- from a designated one the precondition of some event holds.
pub is_action_applicable_lem :
    (holds : World → ActionEvent → Bool) (state : State) (action : Action)
    (rels : List WorldRelation)
    → IsValid state
    → get_elem? state.indistinguishability_relation action.owner ≡ some rels
    → All (Evaluates holds action.events) state.worlds
    → (b : Bool) × (is_action_applicable state action ≡ some b)
      × ((b ≡ true) ↔ (
          (w : ℕ) (u : World)
          → Reach rels state.designated_worlds w
          → get_elem? state.worlds w ≡ some u
          → any (holds u) action.events ≡ true))
unfolding is_action_applicable
is_action_applicable_lem holds state action rels valid e ev =
    let (ws, q, h) = get_designated_world_reachables-Reach state action.owner rels e in
    let inside =
      All-of_has (λ w. w < length state.worlds) ws
        (λ w m. Reach-lt state action.owner rels valid e w ((h w).0 m)) in
    let (b, r, i) = applicable-Possible holds state action ev ws inside in
    (
      b,
      rw (q, r),
      (
        λ t w u reach at. i.0 t w ((h w).1 reach) u at,
        λ all. i.1 (λ w m u at. all w u ((h w).0 m) at),
      ),
    )
