-- ===== src/Common/Pigeonhole.antt =====
-- How many distinct numbers there are below a bound.
use mathlib.Core.Bool.{not}
use r2dtu_attention.Common.{
  ℕ, zero, suc, ◌<◌, ◌≤◌, ◌≡◌, refl, ◌∙◌, sym, ap, false, List, [], ◌∷◌, inl, inr, arith, All,
  length, keep, has, Distinct, ==_iff, ◌==◌, Bool-cases,
}

-- At most n numbers below n are distinct.
abbrev pub without : ℕ → List ℕ → List ℕ
without a = keep (λ x. not (x == a))

pub has-without : (a b : ℕ) (xs : List ℕ) → has b xs ≡ false → has b (without a xs) ≡ false
has-without a b [] h = refl
has-without a b (x ∷ xs) h = ground (arith, has-without a b xs)

pub without_new : (a : ℕ) (xs : List ℕ) → has a xs ≡ false → length (without a xs) ≡ length xs
without_new a [] h = refl
without_new a (x ∷ xs) h = ground (arith, without_new a xs)

pub length-without : (a : ℕ) (xs : List ℕ) → Distinct xs → length xs ≤ suc (length (without a xs))
length-without a [] d = omega arith
length-without a (x ∷ xs) d = elim (Bool-cases (x == a)) [
  | inl y ↦
      let q : has a xs ≡ false = ap (λ c. has c xs) (sym ((==_iff x a).0 y)) ∙ d.0 in
      ground (arith, y, without_new a xs q)
  | inr y ↦ ground (arith, y, length-without a xs d.1)
]

pub Distinct-without : (a : ℕ) (xs : List ℕ) → Distinct xs → Distinct (without a xs)
Distinct-without a [] d = tt
Distinct-without a (x ∷ xs) d = elim (Bool-cases (x == a)) [
  | inl y ↦ rw (y, Distinct) (Distinct-without a xs d.1)
  | inr y ↦ rw (y, Distinct) (has-without a x xs d.0, Distinct-without a xs d.1)
]

pub All-without : (n : ℕ) (xs : List ℕ) → All (λ x. x < suc n) xs → All (λ x. x < n) (without n xs)
All-without n [] h = tt
All-without n (x ∷ xs) h = elim (Bool-cases (x == n)) [
  | inl y ↦ rw (y, All) (All-without n xs h.1)
  | inr y ↦ rw (y, All) (ground (arith, h.0), All-without n xs h.1)
]

pub Distinct-length : (n : ℕ) (xs : List ℕ) → Distinct xs → All (λ x. x < n) xs → length xs ≤ n
Distinct-length zero [] d h = omega arith
Distinct-length zero (x ∷ xs) d h = elim h.0 [ ]
Distinct-length (suc n) xs d h =
    let a = length-without n xs d in
    let b = Distinct-length n (without n xs) (Distinct-without n xs d) (All-without n xs h) in
    omega arith
