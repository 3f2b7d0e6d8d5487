-- ===== src/Common/Sets.antt =====
-- `std::unordered_set<std::string>`: a list that `insert` keeps free of duplicates.
use Prim.Native.String.{String}
use mathlib.Core.Path.{◌≡◌, refl}
use mathlib.Core.Bool.{Bool, false, not, ◌&&◌, ◌||◌}
use mathlib.Core.List.{List, [], ◌∷◌}
use native.Mathlib.Omega.{arith}
use text.Mathlib.Text.{◌==◌}
use text.Mathlib.TextEquality.{eq_iff}
use r2dtu_attention.Common.Tests.{if◌then◌else◌}

-- set.find(p) != set.end()
unfoldable pub contains : List String → String → Bool
contains [] p = false
contains (q ∷ s) p = (q == p) || contains s p

unfoldable pub insert : List String → String → List String
insert s p = if contains s p then s else p ∷ s

unfoldable pub erase : List String → String → List String
erase [] p = []
erase (q ∷ s) p = if q == p then erase s p else q ∷ erase s p

pub contains-insert :
    (s : List String) (p q : String) → contains (insert s p) q ≡ (contains s q || (p == q))
unfolding contains insert
contains-insert s p q = ground (arith, eq_iff p q)

pub contains-erase :
    (s : List String) (p q : String) → contains (erase s p) q ≡ (contains s q && not (p == q))
unfolding contains erase
contains-erase [] p q = refl
contains-erase (x ∷ s) p q =
    ground (arith, eq_iff x p, eq_iff x q, eq_iff p q, contains-erase s p q)
