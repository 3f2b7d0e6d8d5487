-- ===== src/Common/Texts.antt =====
-- Texts: concatenation, the numbers that std::to_string prints, and lookups by name.
use Prim.Native.Nat.{ℕ, zero, suc, ◌/◌, ◌%◌}
use Prim.Native.Char.{code}
use Prim.Native.String as Text
use Prim.Native.String.{String, ◌++◌, slice}
use mathlib.Core.Option.{Option, none, some}
use mathlib.Core.List.{List, [], ◌∷◌}
use text.Mathlib.Text.{◌==◌}
use r2dtu_attention.Common.Tests.{if◌then◌else◌, ltb}

infixr 65 ◌<>◌
abbrev pub ◌<>◌ : String → String → String
s <> t = s ++ t

abbrev pub digit : ℕ → String
digit d = slice "0123456789" d (suc d)

-- The decimal digits of a number; a number has fewer digits than its successor.
unfoldable pub digits : ℕ → ℕ → String
digits zero n = ""
digits (suc fuel) n =
    let before = digits fuel (n / 10) in if ltb n 10 then digit n else before <> digit (n % 10)

-- std::to_string
unfoldable pub to_string : ℕ → String
unfolding digits
to_string n = digits (suc n) n

-- The texts with a separator between them.
unfoldable pub join : String → List String → String
join sep [] = ""
join sep (s ∷ []) = s
join sep (s ∷ t ∷ ts) = s <> sep <> join sep (t ∷ ts)

-- A text that is read by its c_str(): it ends before its first byte 0.
unfoldable pub c_str : String → String
c_str Text.[] = ""
c_str (Text.◌∷◌ c s) = let rest = c_str s in if ltb 0 (code c) then Text.◌∷◌ c rest else ""

-- map.at(name), or map.find(name)
unfoldable pub lookup_name {ℓ} : {A : Type ℓ} → List (String × A) → String → Option A
lookup_name [] name = none
lookup_name ((key, a) ∷ entries) name = if key == name then some a else lookup_name entries name

-- for (x : xs) result += text(x)
unfoldable pub texts {ℓ} : {A : Type ℓ} → (A → String) → List A → String
texts text [] = ""
texts text (x ∷ xs) = text x <> texts text xs

unfoldable pub try_texts {ℓ} : {A : Type ℓ} → (A → Option String) → List A → Option String
try_texts text [] = some ""
try_texts text (x ∷ xs) = elim (text x) [
  | none ↦ none
  | some s ↦ elim (try_texts text xs) [ none ↦ none | some rest ↦ some (s <> rest) ]
]
