-- ===== src/Operations/Points.antt =====
-- The worlds of the product, their entries, and which of them are designated.
use mathlib.Core.Option
use mathlib.Core.Option.{some-injective}
use r2dtu_attention.Common.{
  ℕ, zero, suc, ◌+◌, ◌<◌, ◌≤◌, ◌≡◌, refl, ◌∙◌, ap, Bool, false, ◌&&◌, ◌==◌, ==-refl, List, [], ◌∷◌,
  inl, inr, arith, length, any, All, some, Bool-cases, get_elem?, has, Distinct, length-replicate,
}
use r2dtu_attention.World.{World}
use r2dtu_attention.World
use r2dtu_attention.State.{State}
use r2dtu_attention.State.Valid.{IsValid, Numbered, All-replicate_nil}
use r2dtu_attention.Action.{Action, ActionEvent}
use r2dtu_attention.Operations.{WorldEntry}
use r2dtu_attention.Operations.Worlds.{
  outcome, entry, is_point, outcomes, entries, points, built, length-outcomes, has-points,
}

module _ (state : State) (action : Action) where
  pub outcomes-Numbered :
      (i : ℕ) (ps : List (World × ActionEvent)) → Numbered i (outcomes state action i ps)
  unfolding World.add_true_propositions World.remove_true_propositions
  outcomes-Numbered i [] = tt
  outcomes-Numbered i (p ∷ ps) = (refl, outcomes-Numbered (suc i) ps)

  pub get_elem?-outcomes :
      (i k : ℕ) (ps : List (World × ActionEvent)) (p : World × ActionEvent)
      → get_elem? ps k ≡ some p
      → get_elem? (outcomes state action i ps) k ≡ some (outcome (i + k) p)
  get_elem?-outcomes i k [] p h = cc
  get_elem?-outcomes i zero (q ∷ ps) p h =
      let z : i ≡ i + 0 = omega arith in
      ap (Option.map (outcome i)) h ∙ ap (λ j. some (outcome j p)) z
  get_elem?-outcomes i (suc k) (q ∷ ps) p h =
      let z : suc i + k ≡ i + suc k = omega arith in
      get_elem?-outcomes (suc i) k ps p h ∙ ap (λ j. some (outcome j p)) z

  pub points-All :
      (i n : ℕ) (ps : List (World × ActionEvent))
      → i + length ps ≤ n
      → All (λ w. w < n) (points state action i ps)
  points-All i n [] h = tt
  points-All i n (p ∷ ps) h = elim (Bool-cases (is_point state action p)) [
    | inl y ↦ rw y (omega arith, points-All (suc i) n ps (omega arith))
    | inr y ↦ rw y (points-All (suc i) n ps (omega arith))
  ]

  pub points-Distinct :
      (i : ℕ) (ps : List (World × ActionEvent)) → Distinct (points state action i ps)
  points-Distinct i [] = tt
  points-Distinct i (p ∷ ps) = elim (Bool-cases (is_point state action p)) [
    | inl y ↦
        rw y (has-points state action (suc i) i ps (inl (omega arith)), points-Distinct (suc i) ps)
    | inr y ↦ rw y (points-Distinct (suc i) ps)
  ]

  pub has-points_at :
      (i j k : ℕ) (ps : List (World × ActionEvent)) (p : World × ActionEvent)
      → j ≡ i + k
      → get_elem? ps k ≡ some p
      → has j (points state action i ps) ≡ is_point state action p
  has-points_at i j k [] p e h = cc
  has-points_at i j zero (q ∷ ps) p e h =
      let same : q ≡ p = some-injective q p h in
      rw (← same) (elim (Bool-cases (is_point state action q)) [
        | inl y ↦ rw y (ground arith)
        | inr y ↦ rw y (has-points state action (suc i) j ps (inl (omega arith)))
      ])
  has-points_at i j (suc k) (q ∷ ps) p e h =
      let rest = has-points_at (suc i) j k ps p (omega arith) h in
      elim (Bool-cases (is_point state action q)) [
        | inl y ↦ rw y (let z : (i == j) ≡ false = ground arith in rw z rest)
        | inr y ↦ rw y rest
      ]

  pub entries-All :
      (i n : ℕ) (ps : List (World × ActionEvent))
      → i + length ps ≤ n
      → All (λ (x : WorldEntry). x.new_world < n) (entries state action i ps)
  entries-All i n [] h = tt
  entries-All i n (p ∷ ps) h = (omega arith, entries-All (suc i) n ps (omega arith))

  pub any-entries_none :
      (test : WorldEntry → Bool) (i j : ℕ) (ps : List (World × ActionEvent))
      → j < i
      → any (λ x. (x.new_world == j) && test x) (entries state action i ps) ≡ false
  any-entries_none test i j [] h = refl
  any-entries_none test i j (p ∷ ps) h = ground (arith, any-entries_none test (suc i) j ps)

  -- The entry of a new world is the only one that bears its id.
  pub any-entries :
      (test : WorldEntry → Bool) (i j k : ℕ) (ps : List (World × ActionEvent))
      (p : World × ActionEvent)
      → j ≡ i + k
      → get_elem? ps k ≡ some p
      → any (λ x. (x.new_world == j) && test x) (entries state action i ps) ≡ test (entry j p)
  any-entries test i j k [] p e h = cc
  any-entries test i j zero (q ∷ ps) p e h =
      let z : i ≡ j = omega arith in
      let same : q ≡ p = some-injective q p h in
      rw (← same, any-entries_none test (suc i) j ps (omega arith), z, ==-refl j) (ground arith)
  any-entries test i j (suc k) (q ∷ ps) p e h =
      let z : (i == j) ≡ false = ground arith in
      rw z (any-entries test (suc i) j k ps p (omega arith) h)

  pub built-IsValid : (ps : List (World × ActionEvent)) → IsValid (built state action ps)
  built-IsValid ps = record {
    agents = length-replicate state.number_of_agents [];
    numbered = outcomes-Numbered 0 ps;
    designated = points-All 0 _ ps (omega (arith, length-outcomes state action 0 ps));
    distinct = points-Distinct 0 ps;
    related = All-replicate_nil _ state.number_of_agents;
  }
