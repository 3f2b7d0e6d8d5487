-- ===== src/Formula/Meaning.antt =====
-- Formulas as trees, their truth value, and what the arena of a tree evaluates to.
use mathlib.Core.Bool.{not as flip}
use mathlib.Core.List.{append_assoc}
use r2dtu_attention.Common.{
  ℕ, zero, suc, ◌-◌, ◌<◌, ◌≤◌, ◌≡◌, refl, String, Bool, true, false, some, List, [], ◌∷◌, ◌++◌,
  ◌&&◌, ◌||◌, arith, get_elem?-length, length, ltb, length-append,
}
use r2dtu_attention.Common.Sets.{contains}
use r2dtu_attention.Formula.{
  Component, every_holds, some_holds, valuate_component, valuate_at, Formula, f_top, f_bot, f_prop,
  f_not, f_and, f_or, f_believes, f_everyone_believes, f_common_knowledge, add,
}
use r2dtu_attention.Formula.Stable.{valuate_at-append}

mutual
  pub data Tree : Type 0 where
    top bot : Tree
    prop : String → Tree
    not : Tree → Tree
    and or : Trees → Tree
    believes : ℕ → Tree → Tree
    everyone_believes common_knowledge : Tree → Tree

  pub data Trees : Type 0 where
    nil : Trees
    cons : Tree → Trees → Trees

-- The truth value that the code gives a formula: a conjunction of nothing is false, and so is every
-- modality.
unfoldable mutual
  pub meaning : List String → Tree → Bool
  meaning props top = true
  meaning props bot = false
  meaning props (prop p) = contains props p
  meaning props (not t) = flip (meaning props t)
  meaning props (and ts) = all_mean props ts && some_tree ts
  meaning props (or ts) = any_means props ts
  meaning props (believes a t) = false
  meaning props (everyone_believes t) = false
  meaning props (common_knowledge t) = false

  pub all_mean : List String → Trees → Bool
  all_mean props nil = true
  all_mean props (cons t ts) = meaning props t && all_mean props ts

  pub any_means : List String → Trees → Bool
  any_means props nil = false
  any_means props (cons t ts) = meaning props t || any_means props ts

  pub some_tree : Trees → Bool
  some_tree nil = false
  some_tree (cons t ts) = true

-- A tree put into an arena by the builders, the parts before the whole.
unfoldable mutual
  pub encode : Formula → Tree → Formula × ℕ
  encode f top = f_top f
  encode f bot = f_bot f
  encode f (prop p) = f_prop f p
  encode f (not t) = let (g, i) = encode f t in f_not g i
  encode f (and ts) = let (g, ids) = encode_all f ts in f_and g ids
  encode f (or ts) = let (g, ids) = encode_all f ts in f_or g ids
  encode f (believes a t) = let (g, i) = encode f t in f_believes g a i
  encode f (everyone_believes t) = let (g, i) = encode f t in f_everyone_believes g i
  encode f (common_knowledge t) = let (g, i) = encode f t in f_common_knowledge g i

  pub encode_all : Formula → Trees → Formula × List ℕ
  encode_all f nil = (f, [])
  encode_all f (cons t ts) =
      let (g, i) = encode f t in let (h, ids) = encode_all g ts in (h, i ∷ ids)

-- The component at `i` evaluates to `b` on any fuel above `i`.
abbrev pub Evaluates : List String → List Component → ℕ → Bool → Type 0
Evaluates props all i b = (fuel : ℕ) → i < fuel → valuate_at fuel props all i ≡ some b

pub Evaluates-append :
    (props : List String) (all extra : List Component) (i : ℕ) (b : Bool)
    → Evaluates props all i b
    → Evaluates props (all ++ extra) i b
Evaluates-append props all extra i b h fuel lt =
    valuate_at-append props all extra fuel fuel (omega arith) i b (h fuel lt)

-- `g` is `f` with more components at the end.
abbrev pub Grows : Formula → Formula → Type 0
Grows f g = (extra : List Component) × (g.formulas ≡ f.formulas ++ extra)

pub Grows-trans : (f g h : Formula) → Grows f g → Grows g h → Grows f h
Grows-trans f g h (x, p) (y, q) = (x ++ y, rw (q, p) (append_assoc f.formulas x y))

pub Grows-Evaluates :
    (props : List String) (f g : Formula) (i : ℕ) (b : Bool)
    → Grows f g
    → Evaluates props f.formulas i b
    → Evaluates props g.formulas i b
Grows-Evaluates props f g i b (x, p) h = rw p (Evaluates-append props f.formulas x i b h)

-- What the ids of several parts evaluate to.
abbrev pub EvaluateAll : List String → List Component → List ℕ → Trees → Type 0
EvaluateAll props all [] nil = Unit
EvaluateAll props all (i ∷ ids) (cons t ts) =
    (i < length all) × Evaluates props all i (meaning props t) × EvaluateAll props all ids ts
EvaluateAll props all _ _ = ⊥

pub record IsBuilt (props : List String) (f : Formula) (t : Tree) (r : Formula × ℕ) : Type 0 where
  pub grown : Grows f r.0
  pub last : suc r.1 ≡ length r.0.formulas
  pub root : r.0.root ≡ r.1
  pub value : Evaluates props r.0.formulas r.1 (meaning props t)

-- Evaluation of the component that was added last.
last-Evaluates :
    (props : List String) (all : List Component) (c : Component) (b : Bool)
    → ((fuel : ℕ)
        → length all ≤ fuel
        → valuate_component (suc fuel) props (all ++ c ∷ []) c ≡ some b)
    → Evaluates props (all ++ c ∷ []) (length all) b
last-Evaluates props all c b value zero h = absurd (omega arith)
last-Evaluates props all c b value (suc fuel) h =
    rw (get_elem?-length all c) (value fuel (omega arith))

module _ (props : List String) (f g : Formula) (t : Tree) (c : Component) (grows : Grows f g) where
  pub add-IsBuilt :
      ((fuel : ℕ)
        → length g.formulas ≤ fuel
        → valuate_component (suc fuel) props (g.formulas ++ c ∷ []) c ≡ some (meaning props t))
      → IsBuilt props f t (add g c)
  unfolding add
  add-IsBuilt value =
      let e : length (g.formulas ++ c ∷ []) - 1 ≡ length g.formulas =
        omega (arith, length-append g.formulas (c ∷ [])) in
      record {
        grown = Grows-trans f g (add g c).0 grows (c ∷ [], refl);
        last = omega (arith, length-append g.formulas (c ∷ []));
        root = refl;
        value = rw e (last-Evaluates props g.formulas c (meaning props t) value);
      }

pub EvaluateAll-append :
    (props : List String) (all extra : List Component) (ids : List ℕ) (ts : Trees)
    → EvaluateAll props all ids ts
    → EvaluateAll props (all ++ extra) ids ts
EvaluateAll-append props all extra [] nil h = tt
EvaluateAll-append props all extra (i ∷ ids) (cons t ts) h = (
  omega (arith, h.0, length-append all extra),
  Evaluates-append props all extra i (meaning props t) h.1,
  EvaluateAll-append props all extra ids ts h.2,
)
EvaluateAll-append props all extra [] (cons t ts) h = absurd h
EvaluateAll-append props all extra (i ∷ ids) nil h = absurd h

module _ (props : List String) (all extra : List Component) (fuel : ℕ)
    (enough : length all ≤ fuel) where
  pub every_holds-EvaluateAll :
      (ids : List ℕ) (ts : Trees)
      → EvaluateAll props all ids ts
      → every_holds (valuate_at fuel props (all ++ extra)) ids ≡ some (all_mean props ts)
  unfolding every_holds meaning
  every_holds-EvaluateAll [] nil h = refl
  every_holds-EvaluateAll (i ∷ ids) (cons t ts) h =
      rw (Evaluates-append props all extra i (meaning props t) h.1 fuel (omega (arith, h.0)))
        (ground (arith, every_holds-EvaluateAll ids ts h.2))
  every_holds-EvaluateAll [] (cons t ts) h = absurd h
  every_holds-EvaluateAll (i ∷ ids) nil h = absurd h

  pub some_holds-EvaluateAll :
      (ids : List ℕ) (ts : Trees)
      → EvaluateAll props all ids ts
      → some_holds (valuate_at fuel props (all ++ extra)) ids ≡ some (any_means props ts)
  unfolding some_holds meaning
  some_holds-EvaluateAll [] nil h = refl
  some_holds-EvaluateAll (i ∷ ids) (cons t ts) h =
      rw (Evaluates-append props all extra i (meaning props t) h.1 fuel (omega (arith, h.0)))
        (ground (arith, some_holds-EvaluateAll ids ts h.2))
  some_holds-EvaluateAll [] (cons t ts) h = absurd h
  some_holds-EvaluateAll (i ∷ ids) nil h = absurd h

pub some_tree-length :
    (props : List String) (all : List Component) (ids : List ℕ) (ts : Trees)
    → EvaluateAll props all ids ts
    → ltb 0 (length ids) ≡ some_tree ts
unfolding meaning
some_tree-length props all [] nil h = refl
some_tree-length props all (i ∷ ids) (cons t ts) h = ground arith
some_tree-length props all [] (cons t ts) h = absurd h
some_tree-length props all (i ∷ ids) nil h = absurd h
