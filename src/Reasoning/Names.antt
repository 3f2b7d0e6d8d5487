-- ===== src/Reasoning/Names.antt =====
-- The names of objects in questions and answers, and the markers that they are known by.
use Prim.Native.String.{len, slice}
use text.Mathlib.Text.{◌==◌, starts_with}
use r2dtu_attention.Common.{none, some, String, List, [], ◌∷◌, if◌then◌else◌, ◌-◌}
use r2dtu_attention.Common.Texts.{◌<>◌, lookup_name}

-- std::string(1, name.back()): the last byte.
abbrev pub last_of : String → String
last_of name = slice name (len name - 1) (len name)

unfoldable pub translate_into_symbol_names : String → String
translate_into_symbol_names name =
    if starts_with name "box"
    then "marker-100" <> last_of name
    else if name == "red"
    then "marker-1"
    else if name == "green"
    then "marker-2"
    else if name == "blue"
    then "marker-3"
    else name

unfoldable pub translate_into_symbol_names_dk : String → String
translate_into_symbol_names_dk name =
    if starts_with name "kasse"
    then "marker-100" <> last_of name
    else if name == "røde"
    then "marker-1"
    else if name == "grønne"
    then "marker-2"
    else if name == "blå"
    then "marker-3"
    else name

abbrev pub inverse_translate_map_en : List (String × String)
inverse_translate_map_en =
    ("marker-1", "red cube")
    ∷ ("marker-2", "green cube")
    ∷ ("marker-3", "blue cube")
    ∷ ("marker-1001", "box 1")
    ∷ ("marker-1002", "box 2")
    ∷ ("marker-1003", "box 3")
    ∷ ("marker-1004", "box 4")
    ∷ []

abbrev pub inverse_translate_map_dk : List (String × String)
inverse_translate_map_dk =
    ("marker-1", "røde klods")
    ∷ ("marker-2", "grønne klods")
    ∷ ("marker-3", "blå klods")
    ∷ ("marker-1001", "kasse 1")
    ∷ ("marker-1002", "kasse 2")
    ∷ ("marker-1003", "kasse 3")
    ∷ ("marker-1004", "kasse 4")
    ∷ []

unfoldable pub inverse_translate : String → List (String × String) → String
unfolding lookup_name
inverse_translate name map = elim (lookup_name map name) [ some s ↦ s | none ↦ name ]
