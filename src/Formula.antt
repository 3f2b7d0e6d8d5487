-- ===== src/Formula.antt =====
-- Pepper_Planner/Pepper_Planner/Formula_Component.{hpp,cpp} and Formula.{hpp,cpp}: formulas in an
-- arena. A formula id is an index into the arena; nothing in the code keeps it in range or keeps
-- the components free of cycles, so reading an id may fail.
pub mod Built
pub mod Print
pub mod Meaning
pub mod Stable
use mathlib.Core.Option
use mathlib.Core.Bool.{not as flip}
use r2dtu_attention.Common.{
  ℕ, zero, suc, ◌-◌, String, Bool, true, false, ◌&&◌, Option, none, some, List, [], ◌∷◌, ◌++◌,
  length, get_elem?, ltb, ◌>>=◌,
}
use r2dtu_attention.Common.Sets.{contains}

-- Formula_Types, with the fields that each kind of Formula_Component uses.
pub data Component : Type 0 where
  top bot : Component
  prop : String → Component
  not : ℕ → Component
  and or : List ℕ → Component
  believes : ℕ → ℕ → Component
  everyone_believes common_knowledge : ℕ → Component

pub record Formula : Type 0 where
  pub root : ℕ
  pub formulas : List Component

-- The loop of case And: it returns at the first formula that is false.
unfoldable pub every_holds : (ℕ → Option Bool) → List ℕ → Option Bool
every_holds value [] = some true
every_holds value (i ∷ ids) = value i >>= elim [ true ↦ every_holds value ids | false ↦ some false ]

-- The loop of case Or: it returns at the first formula that is true.
unfoldable pub some_holds : (ℕ → Option Bool) → List ℕ → Option Bool
some_holds value [] = some false
some_holds value (i ∷ ids) = value i >>= elim [ true ↦ some true | false ↦ some_holds value ids ]

-- Formula_Component::valuate. The fuel bounds the depth of the calls; `none` is an id out of range
-- or a recursion that does not end.
unfoldable pub valuate_component : ℕ → List String → List Component → Component → Option Bool
unfolding every_holds some_holds
valuate_component zero props all c = none
valuate_component (suc fuel) props all top = some true
valuate_component (suc fuel) props all bot = some false
valuate_component (suc fuel) props all (prop p) = some (contains props p)
valuate_component (suc fuel) props all (not i) =
    Option.map flip (get_elem? all i >>= λ c. valuate_component fuel props all c)
valuate_component (suc fuel) props all (and ids) =
    every_holds (λ i. get_elem? all i >>= λ c. valuate_component fuel props all c) ids >>= λ b.
    some (b && ltb 0 (length ids))
valuate_component (suc fuel) props all (or ids) =
    some_holds (λ i. get_elem? all i >>= λ c. valuate_component fuel props all c) ids
valuate_component (suc fuel) props all (believes a i) = some false
valuate_component (suc fuel) props all (everyone_believes i) = some false
valuate_component (suc fuel) props all (common_knowledge i) = some false

-- all_formulas[id].valuate(...)
abbrev pub valuate_at : ℕ → List String → List Component → ℕ → Option Bool
valuate_at fuel props all i = get_elem? all i >>= λ c. valuate_component fuel props all c

-- Formula::valuate. A chain of calls longer than the arena visits a component twice, and then it
-- never ends, so the length of the arena is fuel enough.
unfoldable pub valuate : List String → Formula → Option Bool
unfolding valuate_component
valuate props f = valuate_at (length f.formulas) props f.formulas f.root

-- A default-initialised Formula: no component, and the root is an indeterminate id.
abbrev pub blank : ℕ → Formula
blank garbage = record { root = garbage; formulas = [] }

-- emplace_back, and the new last index as the root and as the result.
unfoldable pub add : Formula → Component → Formula × ℕ
add f c =
    let formulas = f.formulas ++ c ∷ [] in
    (record { root = length formulas - 1; formulas = formulas }, length formulas - 1)

unfoldable pub f_top : Formula → Formula × ℕ
unfolding add
f_top f = add f top

unfoldable pub f_bot : Formula → Formula × ℕ
unfolding add
f_bot f = add f bot

unfoldable pub f_prop : Formula → String → Formula × ℕ
unfolding add
f_prop f p = add f (prop p)

unfoldable pub f_not : Formula → ℕ → Formula × ℕ
unfolding add
f_not f i = add f (not i)

unfoldable pub f_and : Formula → List ℕ → Formula × ℕ
unfolding add
f_and f ids = add f (and ids)

unfoldable pub f_or : Formula → List ℕ → Formula × ℕ
unfolding add
f_or f ids = add f (or ids)

unfoldable pub f_believes : Formula → ℕ → ℕ → Formula × ℕ
unfolding add
f_believes f agent i = add f (believes agent i)

unfoldable pub f_everyone_believes : Formula → ℕ → Formula × ℕ
unfolding add
f_everyone_believes f i = add f (everyone_believes i)

unfoldable pub f_common_knowledge : Formula → ℕ → Formula × ℕ
unfolding add
f_common_knowledge f i = add f (common_knowledge i)
