-- ===== src/Common/Slices.antt =====
-- std::string::substr and ranges of a vector: the first elements of a list and those after them.
use Prim.Native.Nat.{ℕ, zero, suc, ◌+◌, ◌-◌, ◌≤◌}
use mathlib.Core.Path.{◌≡◌, refl, ap, ◌∙◌, sym}
use mathlib.Core.List.{List, [], ◌∷◌, ◌++◌, append_assoc}
use native.Mathlib.Omega.{arith}
use r2dtu_attention.Common.Lists.{length}

module _ {ℓ} {A : Type ℓ} where
  abbrev pub take : ℕ → List A → List A
  take zero xs = []
  take (suc n) [] = []
  take (suc n) (x ∷ xs) = x ∷ take n xs

  abbrev pub drop : ℕ → List A → List A
  drop zero xs = xs
  drop (suc n) [] = []
  drop (suc n) (x ∷ xs) = drop n xs

  -- s.substr(from, count) with from <= s.size()
  abbrev pub substr : List A → ℕ → ℕ → List A
  substr s from count = take count (drop from s)

  -- The lists one after the other.
  abbrev pub concat : List (List A) → List A
  concat [] = []
  concat (xs ∷ xss) = xs ++ concat xss

  pub length-take-le : (n : ℕ) (xs : List A) → length (take n xs) ≤ n
  length-take-le zero xs = omega arith
  length-take-le (suc n) [] = omega arith
  length-take-le (suc n) (x ∷ xs) = omega (arith, length-take-le n xs)

  pub take_all : (n : ℕ) (xs : List A) → length xs ≤ n → take n xs ≡ xs
  take_all zero [] h = refl
  take_all zero (x ∷ xs) h = elim h [ ]
  take_all (suc n) [] h = refl
  take_all (suc n) (x ∷ xs) h = ap (λ ys. x ∷ ys) (take_all n xs (omega arith))

  pub length-drop : (n : ℕ) (xs : List A) → length (drop n xs) ≡ length xs - n
  length-drop zero xs = omega arith
  length-drop (suc n) [] = omega arith
  length-drop (suc n) (x ∷ xs) = omega (arith, length-drop n xs)

  pub drop-nil : (n : ℕ) → drop n [] ≡ []
  drop-nil zero = refl
  drop-nil (suc n) = refl

  -- A part of a list from `m` on, and what comes after it.
  pub take-append-drop : (m k : ℕ) (xs : List A) → take k (drop m xs) ++ drop (m + k) xs ≡ drop m xs
  take-append-drop zero zero xs = refl
  take-append-drop zero (suc k) [] = drop-nil (0 + suc k)
  take-append-drop zero (suc k) (x ∷ xs) =
      let e : 0 + suc k ≡ suc (0 + k) = omega arith in
      rw e (ap (λ ys. x ∷ ys) (take-append-drop zero k xs))
  take-append-drop (suc m) zero [] = drop-nil (suc m + zero)
  take-append-drop (suc m) (suc k) [] = drop-nil (suc m + suc k)
  take-append-drop (suc m) k (x ∷ xs) =
      let e : suc m + k ≡ suc (m + k) = omega arith in rw e (take-append-drop m k xs)

  pub concat-append : (xss yss : List (List A)) → concat (xss ++ yss) ≡ concat xss ++ concat yss
  concat-append [] yss = refl
  concat-append (xs ∷ xss) yss =
      ap (λ ys. xs ++ ys) (concat-append xss yss) ∙ sym (append_assoc xs (concat xss) (concat yss))
