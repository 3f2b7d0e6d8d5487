-- ===== src/Formula/Stable.antt =====
-- Formula_Component::valuate in a larger arena and with more fuel.
use r2dtu_attention.Common.{
  ℕ, zero, suc, ◌≤◌, ◌≡◌, String, Bool, Option, some, List, [], ◌∷◌, ◌++◌, inl, inr, arith,
  get_elem?, get_elem?-append, Option-cases,
}
use r2dtu_attention.Formula.{
  Component, top, bot, prop, not, and, or, believes, everyone_believes, common_knowledge,
  every_holds, some_holds, valuate_component, valuate_at,
}

-- `g` returns what `f` returns, where `f` returns.
abbrev pub Extends : (ℕ → Option Bool) → (ℕ → Option Bool) → Type 0
Extends f g = (i : ℕ) (b : Bool) → f i ≡ some b → g i ≡ some b

module _ (f g : ℕ → Option Bool) (ext : Extends f g) where
  every_holds-Extends :
      (ids : List ℕ) (b : Bool) → every_holds f ids ≡ some b → every_holds g ids ≡ some b
  unfolding every_holds
  every_holds-Extends [] b e = e
  every_holds-Extends (i ∷ ids) b e = elim (Option-cases (f i)) [
    | inl n ↦ ground arith
    | inr (v, h) ↦ ground (arith, ext i v, every_holds-Extends ids b)
  ]

  some_holds-Extends :
      (ids : List ℕ) (b : Bool) → some_holds f ids ≡ some b → some_holds g ids ≡ some b
  unfolding some_holds
  some_holds-Extends [] b e = e
  some_holds-Extends (i ∷ ids) b e = elim (Option-cases (f i)) [
    | inl n ↦ ground arith
    | inr (v, h) ↦ ground (arith, ext i v, some_holds-Extends ids b)
  ]

module _ (props : List String) (all extra : List Component) where
  at-Extends :
      (fuel more : ℕ)
      → ((c : Component) (b : Bool)
          → valuate_component fuel props all c ≡ some b
          → valuate_component more props (all ++ extra) c ≡ some b)
      → Extends (valuate_at fuel props all) (valuate_at more props (all ++ extra))
  at-Extends fuel more step i b e = elim (Option-cases (get_elem? all i)) [
    | inl n ↦ ground arith
    | inr (c, h) ↦ rw (get_elem?-append all extra i h) (step c b (rw h at e))
  ]

  -- The fuel is enough once, so more fuel and a longer arena give the same value.
  pub valuate_component-append :
      (fuel more : ℕ) (c : Component) (b : Bool)
      → fuel ≤ more
      → valuate_component fuel props all c ≡ some b
      → valuate_component more props (all ++ extra) c ≡ some b
  unfolding valuate_component
  valuate_component-append zero more c b h e = cc
  valuate_component-append (suc fuel) zero c b h e = absurd (omega arith)
  valuate_component-append (suc fuel) (suc more) top b h e = e
  valuate_component-append (suc fuel) (suc more) bot b h e = e
  valuate_component-append (suc fuel) (suc more) (prop p) b h e = e
  valuate_component-append (suc fuel) (suc more) (not i) b h e =
      let ext =
        at-Extends fuel more (λ c v. valuate_component-append fuel more c v (omega arith)) in
      elim (Option-cases (valuate_at fuel props all i)) [
        | inl n ↦ ground arith
        | inr (v, k) ↦ rw (ext i v k) (rw k at e)
      ]
  valuate_component-append (suc fuel) (suc more) (and ids) b h e =
      let ext =
        at-Extends fuel more (λ c v. valuate_component-append fuel more c v (omega arith)) in
      elim (Option-cases (every_holds (valuate_at fuel props all) ids)) [
        | inl n ↦ ground arith
        | inr (v, k) ↦ rw (every_holds-Extends _ _ ext ids v k) (rw k at e)
      ]
  valuate_component-append (suc fuel) (suc more) (or ids) b h e =
      some_holds-Extends _ _
        (at-Extends fuel more (λ c v. valuate_component-append fuel more c v (omega arith))) ids b e
  valuate_component-append (suc fuel) (suc more) (believes a i) b h e = e
  valuate_component-append (suc fuel) (suc more) (everyone_believes i) b h e = e
  valuate_component-append (suc fuel) (suc more) (common_knowledge i) b h e = e

  pub valuate_at-append :
      (fuel more : ℕ)
      → fuel ≤ more
      → Extends (valuate_at fuel props all) (valuate_at more props (all ++ extra))
  valuate_at-append fuel more h =
      at-Extends fuel more (λ c b. valuate_component-append fuel more c b h)
