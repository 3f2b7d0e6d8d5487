-- ===== src/Formula/Print.antt =====
-- Formula::to_string, Formula_Component::to_string and get_string_component.
use r2dtu_attention.Common.{
  ℕ, zero, suc, String, Option, none, some, List, [], ◌∷◌, length, get_elem?, ◌>>=◌,
}
use r2dtu_attention.Common.Texts.{◌<>◌}
use r2dtu_attention.Common.Texts
use r2dtu_attention.Formula.{
  Component, Formula, top, bot, prop, not, and, or, believes, everyone_believes, common_knowledge,
}

-- The loop of get_string_component, with the delimiter before each entry but the first.
unfoldable pub get_string_component : (ℕ → Option String) → List ℕ → Option String
get_string_component text [] = some ""
get_string_component text (i ∷ []) = text i
get_string_component text (i ∷ j ∷ ids) = do
  s ← text i
  rest ← get_string_component text (j ∷ ids)
  some (s <> ";" <> rest)

-- The fuel bounds the depth of the calls, as for the evaluation.
unfoldable pub component_to_string : ℕ → List Component → Component → Option String
unfolding get_string_component Texts.to_string
component_to_string zero all c = none
component_to_string (suc fuel) all top = some "TOP"
component_to_string (suc fuel) all bot = some "BOT"
component_to_string (suc fuel) all (prop p) = some p
component_to_string (suc fuel) all (not i) =
    (get_elem? all i >>= λ c. component_to_string fuel all c) >>= λ s. some ("Not(" <> s <> ")")
component_to_string (suc fuel) all (and ids) =
    get_string_component (λ i. get_elem? all i >>= λ c. component_to_string fuel all c) ids >>= λ s.
    some ("And(" <> s <> ")")
component_to_string (suc fuel) all (or ids) =
    get_string_component (λ i. get_elem? all i >>= λ c. component_to_string fuel all c) ids >>= λ s.
    some ("Or(" <> s <> ")")
component_to_string (suc fuel) all (believes a i) =
    (get_elem? all i >>= λ c. component_to_string fuel all c) >>= λ s.
    some ("Believes_" <> Texts.to_string a <> "(" <> s <> ")")
component_to_string (suc fuel) all (everyone_believes i) =
    (get_elem? all i >>= λ c. component_to_string fuel all c) >>= λ s.
    some ("Everyone_Believes(" <> s <> ")")
component_to_string (suc fuel) all (common_knowledge i) =
    (get_elem? all i >>= λ c. component_to_string fuel all c) >>= λ s.
    some ("Common_Knowledge(" <> s <> ")")

unfoldable pub to_string : Formula → Option String
unfolding component_to_string
to_string f = get_elem? f.formulas f.root >>= component_to_string (length f.formulas) f.formulas
