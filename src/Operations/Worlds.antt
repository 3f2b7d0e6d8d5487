-- ===== src/Operations/Worlds.antt =====
-- The first half of perform_product_update: the worlds of the product and where they come from.
use mathlib.Core.List.{append-nil, append_assoc}
use r2dtu_attention.Common.{
  ℕ, suc, ◌+◌, ◌<◌, ◌≤◌, ◌≡◌, ◌⊎◌, refl, ◌∙◌, ap, Bool, false, ◌&&◌, List, [], ◌∷◌, ◌++◌, inl, inr,
  arith, length, set-length, replicate, has, All, some, fold_steps, Bool-cases, if◌then◌else◌,
}
use r2dtu_attention.World.{World}
use r2dtu_attention.World
use r2dtu_attention.State.{State}
use r2dtu_attention.State
use r2dtu_attention.Action.{Action, ActionEvent}
use r2dtu_attention.Action
use r2dtu_attention.Operations.{WorldEntry, apply_event, product_event, product_world}

-- The world that an event makes of a world, under the id i.
abbrev pub outcome : ℕ → World × ActionEvent → World
outcome i (w, e) =
    World.add_true_propositions
      (World.remove_true_propositions
        (World.add_true_propositions (World.fresh i) w.true_propositions) e.proposition_delete)
      e.proposition_add

abbrev pub entry : ℕ → World × ActionEvent → WorldEntry
entry i (w, e) = record { old_world = w.id; old_event = e.id; new_world = i }

module _ (state : State) (action : Action) where
  -- Both the world and the event are designated.
  abbrev pub is_point : World × ActionEvent → Bool
  is_point (w, e) = State.is_world_designated state w.id && Action.is_event_designated action e.id

  abbrev pub outcomes : ℕ → List (World × ActionEvent) → List World
  outcomes i [] = []
  outcomes i (p ∷ ps) = outcome i p ∷ outcomes (suc i) ps

  abbrev pub entries : ℕ → List (World × ActionEvent) → List WorldEntry
  entries i [] = []
  entries i (p ∷ ps) = entry i p ∷ entries (suc i) ps

  abbrev pub points : ℕ → List (World × ActionEvent) → List ℕ
  points i [] = []
  points i (p ∷ ps) = if is_point p then i ∷ points (suc i) ps else points (suc i) ps

  -- The state that the pairs make, before its worlds are related.
  abbrev pub built : List (World × ActionEvent) → State
  built ps = record {
    number_of_agents = state.number_of_agents;
    worlds = outcomes 0 ps;
    designated_worlds = points 0 ps;
    indistinguishability_relation = replicate state.number_of_agents [];
  }

  outcomes-append :
      (i : ℕ) (ps : List (World × ActionEvent)) (p : World × ActionEvent)
      → outcomes i (ps ++ p ∷ []) ≡ outcomes i ps ++ outcome (i + length ps) p ∷ []
  outcomes-append i [] p = let e : i ≡ i + 0 = omega arith in ap (λ j. outcome j p ∷ []) e
  outcomes-append i (q ∷ ps) p =
      let e : suc i + length ps ≡ i + suc (length ps) = omega arith in
      ap (◌∷◌ (outcome i q))
        (outcomes-append (suc i) ps p ∙ ap (λ j. outcomes (suc i) ps ++ outcome j p ∷ []) e)

  entries-append :
      (i : ℕ) (ps : List (World × ActionEvent)) (p : World × ActionEvent)
      → entries i (ps ++ p ∷ []) ≡ entries i ps ++ entry (i + length ps) p ∷ []
  entries-append i [] p = let e : i ≡ i + 0 = omega arith in ap (λ j. entry j p ∷ []) e
  entries-append i (q ∷ ps) p =
      let e : suc i + length ps ≡ i + suc (length ps) = omega arith in
      ap (◌∷◌ (entry i q))
        (entries-append (suc i) ps p ∙ ap (λ j. entries (suc i) ps ++ entry j p ∷ []) e)

  points-append :
      (i : ℕ) (ps : List (World × ActionEvent)) (p : World × ActionEvent)
      → points i (ps ++ p ∷ [])
        ≡ (if is_point p then points i ps ++ (i + length ps) ∷ [] else points i ps)
  points-append i [] p =
      let e : i ≡ i + 0 = omega arith in ap (λ j. if is_point p then j ∷ [] else []) e
  points-append i (q ∷ ps) p =
      let e : suc i + length ps ≡ i + suc (length ps) = omega arith in
      rw (points-append (suc i) ps p, e)
        (elim (Bool-cases (is_point p)) [
          | inl y ↦ rw y (elim (Bool-cases (is_point q)) [ inl z ↦ rw z | inr z ↦ rw z ])
          | inr n ↦ rw n
        ])

  pub has-points :
      (i k : ℕ) (ps : List (World × ActionEvent))
      → (k < i) ⊎ (i + length ps ≤ k)
      → has k (points i ps) ≡ false
  has-points i k [] h = refl
  has-points i k (p ∷ ps) h = ground (arith, has-points (suc i) k ps)

  pub length-outcomes :
      (i : ℕ) (ps : List (World × ActionEvent)) → length (outcomes i ps) ≡ length ps
  length-outcomes i [] = refl
  length-outcomes i (p ∷ ps) = ap suc (length-outcomes (suc i) ps)

  apply_event-built :
      (ps : List (World × ActionEvent)) (w : World) (e : ActionEvent)
      → apply_event state action (built ps, entries 0 ps) w e
        ≡ (built (ps ++ (w, e) ∷ []), entries 0 (ps ++ (w, e) ∷ []))
  unfolding apply_event
  apply_event-built ps w e =
      let z : 0 + length ps ≡ length ps = omega arith in
      rw
        (
          set-length (outcomes 0 ps) _ _,
          outcomes-append 0 ps (w, e),
          entries-append 0 ps (w, e),
          points-append 0 ps (w, e),
          length-outcomes 0 ps,
          z,
          has-points 0 (length ps) ps (inr (omega arith)),
        )
        (elim (Bool-cases (is_point (w, e))) [ inl y ↦ rw y | inr n ↦ rw n ])

-- What the preconditions evaluate to in the worlds of a list: `holds` is any function that agrees
-- with World::valuate there.
abbrev pub Evaluates : (World → ActionEvent → Bool) → List ActionEvent → World → Type 0
Evaluates holds events w = All (λ e. World.valuate w e.precondition ≡ some (holds w e)) events

module _ (holds : World → ActionEvent → Bool) where
  -- The pairs of a world and an event whose precondition holds there, in the order of the loops.
  abbrev pub matches : World → List ActionEvent → List (World × ActionEvent)
  matches w [] = []
  matches w (e ∷ events) = if holds w e then (w, e) ∷ matches w events else matches w events

  abbrev pub survivors : List ActionEvent → List World → List (World × ActionEvent)
  survivors events [] = []
  survivors events (w ∷ ws) = matches w events ++ survivors events ws

  module _ (state : State) (action : Action) where
    product_events-built :
        (w : World) (ps : List (World × ActionEvent)) (events : List ActionEvent)
        → Evaluates holds events w
        → fold_steps
            (product_event state action w)
            (built state action ps, entries state action 0 ps)
            events
          ≡ some (
            built state action (ps ++ matches w events),
            entries state action 0 (ps ++ matches w events),
          )
    unfolding fold_steps product_event
    product_events-built w ps [] h = rw (append-nil ps)
    product_events-built w ps (e ∷ events) h = elim (Bool-cases (holds w e)) [
      | inl y ↦ rw (
        h.0,
        y,
        apply_event-built state action ps w e,
        product_events-built w (ps ++ (w, e) ∷ []) events h.1,
        append_assoc ps ((w, e) ∷ []) (matches w events),
      )
      | inr n ↦ rw (h.0, n, product_events-built w ps events h.1)
    ]

    pub product_worlds-built :
        (ps : List (World × ActionEvent)) (ws : List World)
        → All (Evaluates holds action.events) ws
        → fold_steps
            (product_world state action)
            (built state action ps, entries state action 0 ps)
            ws
          ≡ some (
            built state action (ps ++ survivors action.events ws),
            entries state action 0 (ps ++ survivors action.events ws),
          )
    unfolding fold_steps product_world
    product_worlds-built ps [] h = rw (append-nil ps)
    product_worlds-built ps (w ∷ ws) h = rw (
      product_events-built w ps action.events h.0,
      product_worlds-built (ps ++ matches w action.events) ws h.1,
      append_assoc ps (matches w action.events) (survivors action.events ws),
    )
