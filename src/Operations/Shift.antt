-- ===== src/Operations/Shift.antt =====
-- perform_perspective_shift: the loop that copies the visited worlds under new ids.
use mathlib.Core.List.{append-nil, append_assoc}
use mathlib.Core.Option.{some-injective}
use r2dtu_attention.Common.{
  ℕ, zero, suc, ◌+◌, ◌<◌, ◌≡◌, refl, ◌∙◌, ap, false, ==-refl, List, [], ◌∷◌, ◌++◌, arith, length,
  All, some, none, Option, fold_steps, get_elem?, get_elem?_total, has, Distinct,
  Distinct-range_from, All-range_from, replicate, length-replicate, String, range_from,
  has-range_from,
}
use r2dtu_attention.World.{World}
use r2dtu_attention.State.{State}
use r2dtu_attention.State.Valid.{IsValid, Numbered, All-replicate_nil}
use r2dtu_attention.Operations.{shift_world, lookup_id}

-- The new id of every visited world, the last one first.
abbrev pub renaming : List (ℕ × ℕ) → ℕ → List ℕ → List (ℕ × ℕ)
renaming acc i [] = acc
renaming acc i (w ∷ ws) = renaming ((w, i) ∷ acc) (suc i) ws

renaming-append :
    (acc : List (ℕ × ℕ)) (i : ℕ) (ws : List ℕ) (w : ℕ)
    → renaming acc i (ws ++ w ∷ []) ≡ (w, i + length ws) ∷ renaming acc i ws
renaming-append acc i [] w = let z : i ≡ i + 0 = omega arith in ap (λ j. (w, j) ∷ acc) z
renaming-append acc i (v ∷ ws) w =
    let z : suc i + length ws ≡ i + suc (length ws) = omega arith in
    renaming-append ((v, i) ∷ acc) (suc i) ws w
    ∙ ap (λ j. (w, j) ∷ renaming ((v, i) ∷ acc) (suc i) ws) z

lookup_id-absent :
    (acc : List (ℕ × ℕ)) (i : ℕ) (ws : List ℕ) (w : ℕ)
    → has w ws ≡ false
    → lookup_id (renaming acc i ws) w ≡ lookup_id acc w
unfolding lookup_id
lookup_id-absent acc i [] w h = refl
lookup_id-absent acc i (v ∷ ws) w h = ground (arith, lookup_id-absent ((v, i) ∷ acc) (suc i) ws w)

-- A visited world is looked up under its position.
pub lookup_id-renaming :
    (acc : List (ℕ × ℕ)) (i k : ℕ) (ws : List ℕ) (w : ℕ)
    → Distinct ws
    → get_elem? ws k ≡ some w
    → lookup_id (renaming acc i ws) w ≡ i + k
unfolding lookup_id
lookup_id-renaming acc i k [] w d h = cc
lookup_id-renaming acc i zero (v ∷ ws) w d h =
    let same : v ≡ w = some-injective v w h in
    rw (← same, lookup_id-absent ((v, i) ∷ acc) (suc i) ws v d.0, ==-refl v) (omega arith)
lookup_id-renaming acc i (suc k) (v ∷ ws) w d h =
    let z : suc i + k ≡ i + suc k = omega arith in
    lookup_id-renaming ((v, i) ∷ acc) (suc i) k ws w d.1 h ∙ z

abbrev pub propositions_of : Option World → List String
propositions_of none = []
propositions_of (some w) = w.true_propositions

module _ (state : State) where
  -- The copy of world w under the id i.
  abbrev pub copy : ℕ → ℕ → World
  copy i w = record { id = i; true_propositions = propositions_of (get_elem? state.worlds w) }

  abbrev pub copies : ℕ → List ℕ → List World
  copies i [] = []
  copies i (w ∷ ws) = copy i w ∷ copies (suc i) ws

  abbrev pub shifted : List ℕ → State
  shifted ws = record {
    number_of_agents = state.number_of_agents;
    worlds = copies 0 ws;
    designated_worlds = range_from 0 (length ws);
    indistinguishability_relation = replicate state.number_of_agents [];
  }

  pub length-copies : (i : ℕ) (ws : List ℕ) → length (copies i ws) ≡ length ws
  length-copies i [] = refl
  length-copies i (w ∷ ws) = ap suc (length-copies (suc i) ws)

  copies-append :
      (i : ℕ) (ws : List ℕ) (w : ℕ)
      → copies i (ws ++ w ∷ []) ≡ copies i ws ++ copy (i + length ws) w ∷ []
  copies-append i [] w = let z : i ≡ i + 0 = omega arith in ap (λ j. copy j w ∷ []) z
  copies-append i (v ∷ ws) w =
      let z : suc i + length ws ≡ i + suc (length ws) = omega arith in
      ap (◌∷◌ (copy i v))
        (copies-append (suc i) ws w ∙ ap (λ j. copies (suc i) ws ++ copy j w ∷ []) z)

  range_from-append :
      (i : ℕ) (ws : List ℕ) (w : ℕ)
      → range_from i (length (ws ++ w ∷ [])) ≡ range_from i (length ws) ++ (i + length ws) ∷ []
  range_from-append i [] w = let z : i ≡ i + 0 = omega arith in ap (λ j. j ∷ []) z
  range_from-append i (v ∷ ws) w =
      let z : suc i + length ws ≡ i + suc (length ws) = omega arith in
      ap (◌∷◌ i)
        (range_from-append (suc i) ws w ∙ ap (λ j. range_from (suc i) (length ws) ++ j ∷ []) z)

  shift_world-shifted :
      (ws : List ℕ) (w : ℕ)
      → w < length state.worlds
      → shift_world state (shifted ws, renaming [] 0 ws) w
        ≡ some (shifted (ws ++ w ∷ []), renaming [] 0 (ws ++ w ∷ []))
  unfolding shift_world
  shift_world-shifted ws w h =
      let (u, e) = get_elem?_total state.worlds w h in
      let z : 0 + length ws ≡ length ws = omega arith in
      let new : has (length ws) (range_from 0 (length ws)) ≡ false =
        has-range_from (length ws) 0 (length ws) (omega arith) ∙ ground arith in
      rw (
        copies-append 0 ws w,
        range_from-append 0 ws w,
        renaming-append [] 0 ws w,
        e,
        z,
        length-copies 0 ws,
        new,
      )

  pub shift_worlds-shifted :
      (done ws : List ℕ)
      → All (λ w. w < length state.worlds) ws
      → fold_steps (shift_world state) (shifted done, renaming [] 0 done) ws
        ≡ some (shifted (done ++ ws), renaming [] 0 (done ++ ws))
  unfolding fold_steps
  shift_worlds-shifted done [] h = rw (append-nil done)
  shift_worlds-shifted done (w ∷ ws) h = rw (
    shift_world-shifted done w h.0,
    shift_worlds-shifted (done ++ w ∷ []) ws h.1,
    append_assoc done (w ∷ []) ws,
  )

  copies-Numbered : (i : ℕ) (ws : List ℕ) → Numbered i (copies i ws)
  copies-Numbered i [] = tt
  copies-Numbered i (w ∷ ws) = (refl, copies-Numbered (suc i) ws)

  pub get_elem?-copies :
      (i k : ℕ) (ws : List ℕ) (w : ℕ)
      → get_elem? ws k ≡ some w
      → get_elem? (copies i ws) k ≡ some (copy (i + k) w)
  get_elem?-copies i k [] w h = cc
  get_elem?-copies i zero (v ∷ ws) w h =
      let z : i ≡ i + 0 = omega arith in
      ap (λ j. some (copy i j)) (some-injective v w h) ∙ ap (λ j. some (copy j w)) z
  get_elem?-copies i (suc k) (v ∷ ws) w h =
      let z : suc i + k ≡ i + suc k = omega arith in
      get_elem?-copies (suc i) k ws w h ∙ ap (λ j. some (copy j w)) z

  pub shifted-IsValid : (ws : List ℕ) → IsValid (shifted ws)
  shifted-IsValid ws = record {
    agents = length-replicate state.number_of_agents [];
    numbered = copies-Numbered 0 ws;
    designated = All-range_from (length ws) 0 _ (omega (arith, length-copies 0 ws));
    distinct = Distinct-range_from 0 (length ws);
    related = All-replicate_nil _ state.number_of_agents;
  }
