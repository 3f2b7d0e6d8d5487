-- ===== src/Reasoning/Markers.antt =====
-- The numbers of markers, which std::stoi reads from the names of objects.
use Prim.Native.Char.{code}
use Prim.Native.String.{String, [], ◌∷◌}
use mathlib.Core.Bool.{Bool}
use mathlib.Core.Option.{Option, none, some}
use r2dtu_attention.Common.{ℕ, if◌then◌else◌, ◌==◌}
use r2dtu_attention.Common.Decimals.{stoi}

-- name.substr(name.find('-') + 1), which is the whole name if there is no dash.
unfoldable pub after_dash : String → Option String
after_dash [] = none
after_dash (c ∷ s) = let rest = after_dash s in if code c == 45 then some s else rest

unfoldable pub marker_number : String → Option (Bool × ℕ)
unfolding after_dash stoi
marker_number name = elim (after_dash name) [ some s ↦ stoi s | none ↦ stoi name ]
