-- ===== src/Formula/Built.antt =====
-- The builders of Formula.cpp and Formula::valuate, on formulas that come from a tree.
use mathlib.Core.List.{append-nil}
use r2dtu_attention.Common.{
  ℕ, ◌≡◌, refl, ap, String, some, List, [], ◌∷◌, arith, length, length-append,
}
use r2dtu_attention.Formula.{
  Component, valuate_component, Formula, valuate, f_top, f_bot, f_prop, f_not, f_and, f_or,
  f_believes, f_everyone_believes, f_common_knowledge,
}
use r2dtu_attention.Formula.Meaning.{
  Tree, Trees, top, bot, prop, not, and, or, believes, everyone_believes, common_knowledge, nil,
  cons, meaning, encode, encode_all, Grows-Evaluates, Evaluates-append, Grows, Grows-trans,
  EvaluateAll, IsBuilt, add-IsBuilt, every_holds-EvaluateAll, some_holds-EvaluateAll,
  some_tree-length,
}

Grows-refl : (f : Formula) → Grows f f
Grows-refl f = ([], rw append-nil)

-- What encoding a list of trees leaves behind.
record AreBuilt (props : List String) (f : Formula) (ts : Trees) (r : Formula × List ℕ)
    : Type 0 where
  grown : Grows f r.0
  values : EvaluateAll props r.0.formulas r.1 ts

module _ (props : List String) where
  not-IsBuilt :
      (f : Formula) (t : Tree) (r : Formula × ℕ)
      → IsBuilt props f t r
      → IsBuilt props f (not t) (f_not r.0 r.1)
  unfolding f_not valuate_component meaning
  not-IsBuilt f t (g, i) b = add-IsBuilt props f g (not t) (Component.not i) b.grown λ fuel h. rw (
      Evaluates-append props g.formulas (Component.not i ∷ []) i (meaning props t) b.value fuel
        (omega (arith, b.last)))

  and-IsBuilt :
      (f : Formula) (ts : Trees) (r : Formula × List ℕ)
      → AreBuilt props f ts r
      → IsBuilt props f (and ts) (f_and r.0 r.1)
  unfolding f_and valuate_component meaning
  and-IsBuilt f ts (g, ids) b = add-IsBuilt props f g (and ts) (Component.and ids) b.grown λ fuel h.
      rw (
        every_holds-EvaluateAll props g.formulas (Component.and ids ∷ []) fuel h ids ts b.values,
        some_tree-length props g.formulas ids ts b.values,
      )

  or-IsBuilt :
      (f : Formula) (ts : Trees) (r : Formula × List ℕ)
      → AreBuilt props f ts r
      → IsBuilt props f (or ts) (f_or r.0 r.1)
  unfolding f_or valuate_component meaning
  or-IsBuilt f ts (g, ids) b = add-IsBuilt props f g (or ts) (Component.or ids) b.grown λ fuel h.
      some_holds-EvaluateAll props g.formulas (Component.or ids ∷ []) fuel h ids ts b.values

  cons-AreBuilt :
      (f : Formula) (t : Tree) (ts : Trees) (r : Formula × ℕ) (s : Formula × List ℕ)
      → IsBuilt props f t r
      → AreBuilt props r.0 ts s
      → AreBuilt props f (cons t ts) (s.0, r.1 ∷ s.1)
  cons-AreBuilt f t ts (g, i) (h, ids) b c = record {
    grown = Grows-trans f g h b.grown c.grown;
    values = (
      omega (arith, b.last, ap length c.grown.1, length-append g.formulas c.grown.0),
      Grows-Evaluates props g h i (meaning props t) c.grown b.value,
      c.values,
    );
  }

mutual
  unfolding encode meaning valuate_component f_top f_bot f_prop f_believes f_everyone_believes
      f_common_knowledge

  encode-IsBuilt : (props : List String) (f : Formula) (t : Tree) → IsBuilt props f t (encode f t)
  encode-IsBuilt props f top =
      add-IsBuilt props f f top Component.top (Grows-refl f) (λ fuel h. refl)
  encode-IsBuilt props f bot =
      add-IsBuilt props f f bot Component.bot (Grows-refl f) (λ fuel h. refl)
  encode-IsBuilt props f (prop p) =
      add-IsBuilt props f f (prop p) (Component.prop p) (Grows-refl f) (λ fuel h. refl)
  encode-IsBuilt props f (not t) = not-IsBuilt props f t (encode f t) (encode-IsBuilt props f t)
  encode-IsBuilt props f (and ts) =
      and-IsBuilt props f ts (encode_all f ts) (encode_all-AreBuilt props f ts)
  encode-IsBuilt props f (or ts) =
      or-IsBuilt props f ts (encode_all f ts) (encode_all-AreBuilt props f ts)
  encode-IsBuilt props f (believes a t) =
      add-IsBuilt props f (encode f t).0 (believes a t) (Component.believes a (encode f t).1)
        (encode-IsBuilt props f t).grown (λ fuel h. refl)
  encode-IsBuilt props f (everyone_believes t) =
      add-IsBuilt props f (encode f t).0 (everyone_believes t)
        (Component.everyone_believes (encode f t).1) (encode-IsBuilt props f t).grown
        (λ fuel h. refl)
  encode-IsBuilt props f (common_knowledge t) =
      add-IsBuilt props f (encode f t).0 (common_knowledge t)
        (Component.common_knowledge (encode f t).1) (encode-IsBuilt props f t).grown
        (λ fuel h. refl)

  encode_all-AreBuilt :
      (props : List String) (f : Formula) (ts : Trees) → AreBuilt props f ts (encode_all f ts)
  encode_all-AreBuilt props f nil = record { grown = Grows-refl f; values = tt }
  encode_all-AreBuilt props f (cons t ts) =
      cons-AreBuilt props f t ts (encode f t) (encode_all (encode f t).0 ts)
        (encode-IsBuilt props f t) (encode_all-AreBuilt props (encode f t).0 ts)

-- A formula that the builders put together from a tree, the parts first and into any arena, is
-- evaluated within the fuel of `valuate`, to the truth value of the tree.
pub valuate-encode :
    (props : List String) (f : Formula) (t : Tree)
    → valuate props (encode f t).0 ≡ some (meaning props t)
unfolding valuate
valuate-encode props f t =
    let b = encode-IsBuilt props f t in
    rw b.root (b.value (length (encode f t).0.formulas) (omega (arith, b.last)))
