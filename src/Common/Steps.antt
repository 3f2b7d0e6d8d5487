-- ===== src/Common/Steps.antt =====
-- Steps that may fail: `none` stands for undefined behaviour (an index out of range) and for a
-- recursion that does not end. Loops whose body may fail are `fold_steps`.
use mathlib.Core.Path.{◌≡◌, refl, subst}
use mathlib.Core.Logic.{inl, inr}
use mathlib.Core.Option.{some-injective}
use r2dtu_attention.Common.Tests.{Option-cases}
use mathlib.Core.Bool.{Bool, true, false}
use mathlib.Core.Option.{Option, none, some}
use mathlib.Core.List.{List, [], ◌∷◌, ◌++◌}
use r2dtu_attention.Common.Lists.{All}

infixl 5 ◌>>=◌
abbrev pub ◌>>=◌ {ℓ κ} : {A : Type ℓ} {B : Type κ} → Option A → (A → Option B) → Option B
none >>= f = none
some a >>= f = f a

-- `a && b` where `b` is evaluated only if `a` holds.
abbrev pub and_then : Option Bool → Option Bool → Option Bool
and_then a b = a >>= elim [ true ↦ b | false ↦ some false ]

pub none-some {ℓ} : {A : Type ℓ} {a : A} → none ≡ some a → ⊥
none-some e = cc

module _ {ℓ κ} {S : Type ℓ} {A : Type κ} where
  -- for (x : xs) s = f(s, x)
  unfoldable pub fold_steps : (S → A → Option S) → S → List A → Option S
  fold_steps f s [] = some s
  fold_steps f s (x ∷ xs) = f s x >>= λ t. fold_steps f t xs

  -- An invariant that every round can go on from holds at the end, and the end is reached.
  pub fold_steps_inv {μ ν} :
      (f : S → A → Option S) (Q : A → Type μ) (P : S → Type ν)
      → ((s : S) (x : A) → Q x → P s → (t : S) × (f s x ≡ some t) × P t)
      → (s : S) (xs : List A) → All Q xs
      → P s
      → (t : S) × (fold_steps f s xs ≡ some t) × P t
  unfolding fold_steps
  fold_steps_inv f Q P keep s [] q p = (s, refl, p)
  fold_steps_inv f Q P keep s (x ∷ xs) q p =
      let (t, e, p') = keep s x q.0 p in
      let (u, e', p'') = fold_steps_inv f Q P keep t xs q.1 p' in (u, rw (e, fold_steps) e', p'')

  -- An invariant that every round keeps holds at the end of a loop that gets there.
  pub fold_steps_keeps {μ ν} :
      (f : S → A → Option S) (Q : A → Type μ) (P : S → Type ν)
      → ((s : S) (x : A) (t : S) → Q x → P s → f s x ≡ some t → P t)
      → (s : S) (xs : List A) (t : S) → All Q xs
      → P s
      → fold_steps f s xs ≡ some t
      → P t
  unfolding fold_steps
  fold_steps_keeps f Q P keep s [] t q p e = subst P (some-injective s t e) p
  fold_steps_keeps f Q P keep s (x ∷ xs) t q p e = elim (Option-cases (f s x)) [
    | inl none' ↦ absurd (none-some (rw none' at e))
    | inr (u, h) ↦ fold_steps_keeps f Q P keep u xs t q.1 (keep s x u q.0 p h) (rw h at e)
  ]

  -- Where every round does as a plain function says, the loop is that of the plain function.
  abbrev pub fold : (S → A → S) → S → List A → S
  fold f s [] = s
  fold f s (x ∷ xs) = fold f (f s x) xs

  pub fold-append :
      (f : S → A → S) (s : S) (xs ys : List A) → fold f s (xs ++ ys) ≡ fold f (fold f s xs) ys
  fold-append f s [] ys = refl
  fold-append f s (x ∷ xs) ys = fold-append f (f s x) xs ys
