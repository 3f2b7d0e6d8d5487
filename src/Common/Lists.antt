-- ===== src/Common/Lists.antt =====
-- Lists measured and indexed by native numbers: `std::vector`, whose `operator[]` is `get_elem?`
-- with `none` for an index out of range.
use Prim.Native.Nat.{ℕ, zero, suc, ◌+◌, ◌<◌, ◌≤◌}
use mathlib.Core.Path.{◌≡◌, refl, ap}
use mathlib.Core.Logic.{◌≢◌, ◌⊎◌, inl, inr}
use mathlib.Core.Bool.{Bool, true, false, ◌&&◌, ◌||◌}
use mathlib.Core.List.{List, [], ◌∷◌, ◌++◌, map}
use mathlib.Core.Option.{Option, none, some, some-injective}
use native.Mathlib.Omega.{arith}
use r2dtu_attention.Common.Tests.{◌==◌, ==_iff, ==-refl, ltb, Bool-cases}

module _ {ℓ} {A : Type ℓ} where
  abbrev pub length : List A → ℕ
  length [] = 0
  length (x ∷ xs) = suc (length xs)

  abbrev pub get_elem? : List A → ℕ → Option A
  get_elem? [] i = none
  get_elem? (x ∷ xs) zero = some x
  get_elem? (x ∷ xs) (suc i) = get_elem? xs i

  -- A write out of bounds changes nothing.
  abbrev pub set : List A → ℕ → A → List A
  set [] i v = []
  set (x ∷ xs) zero v = v ∷ xs
  set (x ∷ xs) (suc i) v = x ∷ set xs i v

  abbrev pub replicate : ℕ → A → List A
  replicate zero a = []
  replicate (suc n) a = a ∷ replicate n a

  -- The elements that pass the test, in order.
  abbrev pub keep : (A → Bool) → List A → List A
  keep p [] = []
  keep p (x ∷ xs) = elim (p x) [ true ↦ x ∷ keep p xs | false ↦ keep p xs ]

  abbrev pub any : (A → Bool) → List A → Bool
  any p [] = false
  any p (x ∷ xs) = p x || any p xs

  abbrev pub every : (A → Bool) → List A → Bool
  every p [] = true
  every p (x ∷ xs) = p x && every p xs

  -- The statement holds of each element.
  abbrev pub All {κ} : (A → Type κ) → List A → Type κ
  All P [] = Unit
  All P (x ∷ xs) = P x × All P xs

  pub length-append : (xs ys : List A) → length (xs ++ ys) ≡ length xs + length ys
  length-append [] ys = omega arith
  length-append (x ∷ xs) ys = omega (arith, length-append xs ys)

  pub length-set : (xs : List A) (i : ℕ) (v : A) → length (set xs i v) ≡ length xs
  length-set [] i v = refl
  length-set (x ∷ xs) zero v = refl
  length-set (x ∷ xs) (suc i) v = ap suc (length-set xs i v)

  pub length-replicate : (n : ℕ) (a : A) → length (replicate n a) ≡ n
  length-replicate zero a = refl
  length-replicate (suc n) a = ap suc (length-replicate n a)

  pub any-append : (p : A → Bool) (xs ys : List A) → any p (xs ++ ys) ≡ (any p xs || any p ys)
  any-append p [] ys = refl
  any-append p (x ∷ xs) ys = ground (arith, any-append p xs ys)

  pub any-cong : (p q : A → Bool) (xs : List A) → ((x : A) → p x ≡ q x) → any p xs ≡ any q xs
  any-cong p q [] h = refl
  any-cong p q (x ∷ xs) h = ground (arith, h x, any-cong p q xs h)

  pub get_elem?_total : (xs : List A) (i : ℕ) → i < length xs → (a : A) × (get_elem? xs i ≡ some a)
  get_elem?_total [] i h = elim h [ ]
  get_elem?_total (x ∷ xs) zero h = (x, refl)
  get_elem?_total (x ∷ xs) (suc i) h = get_elem?_total xs i (omega arith)

  pub lt-length_of_get_elem? :
      (xs : List A) (i : ℕ) {a : A} → get_elem? xs i ≡ some a → i < length xs
  lt-length_of_get_elem? [] i e = cc
  lt-length_of_get_elem? (x ∷ xs) zero e = omega arith
  lt-length_of_get_elem? (x ∷ xs) (suc i) e = omega (arith, lt-length_of_get_elem? xs i e)

  pub get_elem?-append :
      (xs ys : List A) (i : ℕ) {a : A} → get_elem? xs i ≡ some a → get_elem? (xs ++ ys) i ≡ some a
  get_elem?-append [] ys i e = cc
  get_elem?-append (x ∷ xs) ys zero e = e
  get_elem?-append (x ∷ xs) ys (suc i) e = get_elem?-append xs ys i e

  pub get_elem?-length : (xs : List A) (a : A) → get_elem? (xs ++ a ∷ []) (length xs) ≡ some a
  get_elem?-length [] a = refl
  get_elem?-length (x ∷ xs) a = get_elem?-length xs a

  pub get_elem?-set_self :
      (xs : List A) (i : ℕ) (v : A) → i < length xs → get_elem? (set xs i v) i ≡ some v
  get_elem?-set_self [] i v h = elim h [ ]
  get_elem?-set_self (x ∷ xs) zero v h = refl
  get_elem?-set_self (x ∷ xs) (suc i) v h = get_elem?-set_self xs i v (omega arith)

  pub get_elem?-set_ne :
      (xs : List A) (i j : ℕ) (v : A) → i ≢ j → get_elem? (set xs i v) j ≡ get_elem? xs j
  get_elem?-set_ne [] i j v h = refl
  get_elem?-set_ne (x ∷ xs) zero zero v h = absurd (h refl)
  get_elem?-set_ne (x ∷ xs) zero (suc j) v h = refl
  get_elem?-set_ne (x ∷ xs) (suc i) zero v h = refl
  get_elem?-set_ne (x ∷ xs) (suc i) (suc j) v h = get_elem?-set_ne xs i j v (λ e. h (ap suc e))

  pub set-length : (xs : List A) (a b : A) → set (xs ++ a ∷ []) (length xs) b ≡ xs ++ b ∷ []
  set-length [] a b = refl
  set-length (x ∷ xs) a b = ap (◌∷◌ x) (set-length xs a b)

  pub All-append {κ} : (P : A → Type κ) (xs ys : List A) → All P xs → All P ys → All P (xs ++ ys)
  All-append P [] ys hx hy = hy
  All-append P (x ∷ xs) ys hx hy = (hx.0, All-append P xs ys hx.1 hy)

  pub All-unit : (xs : List A) → All (λ _. Unit {0}) xs
  All-unit [] = tt
  All-unit (x ∷ xs) = (tt, All-unit xs)

  pub All-set {κ} :
      (P : A → Type κ) (xs : List A) (i : ℕ) (v : A) → All P xs → P v → All P (set xs i v)
  All-set P [] i v h p = h
  All-set P (x ∷ xs) zero v h p = (p, h.1)
  All-set P (x ∷ xs) (suc i) v h p = (h.0, All-set P xs i v h.1 p)

  pub All-map {κ μ} :
      {P : A → Type κ} {Q : A → Type μ} (xs : List A) → ((a : A) → P a → Q a) → All P xs → All Q xs
  All-map [] f h = tt
  All-map (x ∷ xs) f h = (f x h.0, All-map xs f h.1)

  pub All-get_elem? {κ} :
      (P : A → Type κ) (xs : List A) (i : ℕ) (a : A) → All P xs → get_elem? xs i ≡ some a → P a
  All-get_elem? P [] i a h e = cc
  All-get_elem? P (x ∷ xs) zero a h e = ground arith
  All-get_elem? P (x ∷ xs) (suc i) a h e = All-get_elem? P xs i a h.1 e

pub length-map {ℓ κ} :
    {A : Type ℓ} {B : Type κ} (f : A → B) (xs : List A) → length (map f xs) ≡ length xs
length-map f [] = refl
length-map f (x ∷ xs) = ap suc (length-map f xs)

-- `std::find(...) != end()` on a vector of ids.
abbrev pub has : ℕ → List ℕ → Bool
has a = any (λ x. x == a)

-- 0, 1, …, n - 1 after the first `i` of them.
abbrev pub range_from : ℕ → ℕ → List ℕ
range_from i zero = []
range_from i (suc n) = i ∷ range_from (suc i) n

pub has-append : (a : ℕ) (xs : List ℕ) (b : ℕ) → has a (xs ++ b ∷ []) ≡ (has a xs || b == a)
has-append a [] b = ground arith
has-append a (x ∷ xs) b = ground (arith, has-append a xs b)

-- No element occurs twice.
abbrev pub Distinct : List ℕ → Type 0
Distinct [] = Unit
Distinct (x ∷ xs) = (has x xs ≡ false) × Distinct xs

pub Distinct-append :
    (xs : List ℕ) (a : ℕ) → Distinct xs → has a xs ≡ false → Distinct (xs ++ a ∷ [])
Distinct-append [] a d h = (refl, tt)
Distinct-append (x ∷ xs) a d h =
    (ground (arith, has-append x xs a), Distinct-append xs a d.1 (ground arith))

pub All-has {ℓ} : (P : ℕ → Type ℓ) (xs : List ℕ) (a : ℕ) → All P xs → has a xs ≡ true → P a
All-has P [] a h e = cc
All-has P (x ∷ xs) a h e = elim (Bool-cases (x == a)) [
  | inl q ↦ rw (← (==_iff x a).0 q) h.0
  | inr q ↦ All-has P xs a h.1 (rw q at e)
]

pub All-range_from : (n i m : ℕ) → i + n ≤ m → All (λ k. k < m) (range_from i n)
All-range_from zero i m h = tt
All-range_from (suc n) i m h = (omega arith, All-range_from n (suc i) m (omega arith))

pub has-range_from : (n i k : ℕ) → i ≤ k → has k (range_from i n) ≡ ltb k (i + n)
has-range_from zero i k h = ground arith
has-range_from (suc n) i k h = ground (arith, has-range_from n (suc i) k)

has-range_from_below : (n i k : ℕ) → k < i → has k (range_from i n) ≡ false
has-range_from_below zero i k h = refl
has-range_from_below (suc n) i k h = ground (arith, has-range_from_below n (suc i) k)

pub Distinct-range_from : (i n : ℕ) → Distinct (range_from i n)
Distinct-range_from i zero = tt
Distinct-range_from i (suc n) =
    (has-range_from_below n (suc i) i (omega arith), Distinct-range_from (suc i) n)

pub has_at : (xs : List ℕ) (k a : ℕ) → get_elem? xs k ≡ some a → has a xs ≡ true
has_at [] k a h = cc
has_at (x ∷ xs) zero a h = rw ((==_iff x a).1 (ground arith))
has_at (x ∷ xs) (suc k) a h = ground (arith, has_at xs k a h)

pub All-of_has {ℓ} : (P : ℕ → Type ℓ) (xs : List ℕ) → ((a : ℕ) → has a xs ≡ true → P a) → All P xs
All-of_has P [] h = tt
All-of_has P (x ∷ xs) h = (h x (rw (==-refl x)), All-of_has P xs (λ a m. h a (ground arith)))

-- An element of a list with one more at the end.
pub get_elem?_append_cases {ℓ} :
    {A : Type ℓ} (xs : List A) (a : A) (k : ℕ) (b : A)
    → get_elem? (xs ++ a ∷ []) k ≡ some b
    → (get_elem? xs k ≡ some b) ⊎ (length xs ≡ k) × (a ≡ b)
get_elem?_append_cases [] a zero b e = inr (refl, some-injective a b e)
get_elem?_append_cases [] a (suc k) b e = cc
get_elem?_append_cases (x ∷ xs) a zero b e = inl e
get_elem?_append_cases (x ∷ xs) a (suc k) b e = elim (get_elem?_append_cases xs a k b e) [
  | inl h ↦ inl h
  | inr (q, h) ↦ inr (ap suc q, h)
]
