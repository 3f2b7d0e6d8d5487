-- ===== src/Planner/Cases.antt =====
-- What the functions that mark nodes may have done, where they return.
use mathlib.Core.Option.{some-injective}
use mathlib.Core.Path.{subst}
use r2dtu_attention.Common.{
  ℕ, suc, ◌≡◌, ◌⊎◌, ◌∙◌, sym, ap, Bool, true, false, some, inl, inr, arith, get_elem?, set, length,
  get_elem?-set_self, get_elem?-set_ne, lt-length_of_get_elem?, Bool-cases, Option-cases, none-some,
  ==_iff, ◌==◌,
}
use r2dtu_attention.Graph.{
  Graph, Node, set_node, set_dead, set_solved, check_if_dead, check_if_solved, children_dead,
  children_solved, get_node,
}
use r2dtu_attention.Planner.{
  propagate_dead, propogate_dead_end_node, propagate_solved, propogate_solved_node,
}
use r2dtu_attention.Planner.Winning.{SameMake, SameMake-refl, Keeps}

pub set_node-Keeps :
    (g : Graph) (k : ℕ) (n m : Node)
    → get_elem? g.nodes k ≡ some n
    → SameMake n m
    → Keeps g (set_node g k m)
unfolding set_node
set_node-Keeps g k n m e same c x at = elim (Bool-cases (k == c)) [
  | inl y ↦
      let q = (==_iff k c).0 y in
      let h : n ≡ x = some-injective n x (sym e ∙ ap (get_elem? g.nodes) q ∙ at) in
      (
        m,
        ap (get_elem? (set g.nodes k m)) (sym q)
            ∙ get_elem?-set_self g.nodes k m (lt-length_of_get_elem? g.nodes k e),
        subst (λ z. SameMake z m) h same,
      )
  | inr y ↦ (x, get_elem?-set_ne g.nodes k c m (ground arith) ∙ at, SameMake-refl x)
]

pub none-true : some false ≡ some true → ⊥
none-true e = cc

-- What the marking functions may have done, where they return.
module _ (g h : Graph) (k : ℕ) (n : Node) (b : Bool) where
  pub check_if_solved_cases :
      check_if_solved g k n ≡ some (h, b)
      → (h ≡ g)
        ⊎ (children_solved g n.type n.children ≡ some true) × (h ≡ set_node g k (set_solved n))
  unfolding check_if_solved
  check_if_solved_cases e = ground arith

  pub check_if_dead_cases :
      check_if_dead g k n ≡ some (h, b)
      → (h ≡ g) ⊎ (children_dead g n.type n.children ≡ some true) × (h ≡ set_node g k (set_dead n))
  unfolding check_if_dead
  check_if_dead_cases e = ground arith

module _ (g h : Graph) (k : ℕ) where
  pub propagate_solved_zero : propagate_solved 0 g k ≡ some h → ⊥
  unfolding propagate_solved
  propagate_solved_zero e = cc

  pub propagate_dead_zero : propagate_dead 0 g k ≡ some h → ⊥
  unfolding propagate_dead
  propagate_dead_zero e = cc

  pub propogate_solved_node_cases :
      (n : Node)
      → get_elem? g.nodes k ≡ some n
      → propogate_solved_node g k ≡ some h
      → (h ≡ set_node g k (set_solved n))
        ⊎ (propagate_solved (length g.nodes) (set_node g k (set_solved n)) n.parent ≡ some h)
  unfolding propogate_solved_node get_node
  propogate_solved_node_cases n at e = ground arith

  pub propogate_dead_cases :
      (n : Node)
      → get_elem? g.nodes k ≡ some n
      → propogate_dead_end_node g k ≡ some h
      → (h ≡ set_node g k (set_dead n))
        ⊎ (propagate_dead (length g.nodes) (set_node g k (set_dead n)) n.parent ≡ some h)
  unfolding propogate_dead_end_node get_node
  propogate_dead_cases n at e = ground arith

  pub propogate_dead_end_node_cases :
      propogate_dead_end_node g k ≡ some h
      → (n : Node) × (get_elem? g.nodes k ≡ some n)
        × ((h ≡ set_node g k (set_dead n))
            ⊎ (propagate_dead (length g.nodes) (set_node g k (set_dead n)) n.parent ≡ some h))
  unfolding propogate_dead_end_node get_node
  propogate_dead_end_node_cases e = elim (Option-cases (get_elem? g.nodes k)) [
    | inl missing ↦ absurd (none-some (rw missing at e))
    | inr (n, at) ↦ (n, at, propogate_dead_cases n at e)
  ]

pub solved_onward :
    (fuel : ℕ) (h : Graph) (n : Node) (next : Graph) (b : Bool)
    → elim b [
      | true ↦ elim n.root [ true ↦ some next | false ↦ propagate_solved fuel next n.parent ]
      | false ↦ some next
    ]
      ≡ some h
    → (h ≡ next) ⊎ (propagate_solved fuel next n.parent ≡ some h)
solved_onward fuel h n next b e = ground arith

pub propagate_solved_cases :
    (fuel : ℕ) (g h : Graph) (k : ℕ)
    → propagate_solved (suc fuel) g k ≡ some h
    → (n : Node) × (next : Graph) × (b : Bool) × (get_elem? g.nodes k ≡ some n)
      × (check_if_solved g k n ≡ some (next, b))
      × ((h ≡ next) ⊎ (propagate_solved fuel next n.parent ≡ some h))
unfolding propagate_solved get_node
propagate_solved_cases fuel g h k e = elim (Option-cases (get_elem? g.nodes k)) [
  | inl missing ↦ absurd (none-some (rw missing at e))
  | inr (n, at) ↦ elim (Option-cases (check_if_solved g k n)) [
    | inl missing ↦ absurd (none-some (rw (at, missing) at e))
    | inr ((next, b), found) ↦
        (n, next, b, at, found, solved_onward fuel h n next b (rw (at, found) at e))
  ]
]

pub dead_onward :
    (fuel : ℕ) (h : Graph) (n : Node) (next : Graph) (b : Bool)
    → elim b [
      | true ↦ elim n.root [ true ↦ some next | false ↦ propagate_dead fuel next n.parent ]
      | false ↦ some next
    ]
      ≡ some h
    → (h ≡ next) ⊎ (propagate_dead fuel next n.parent ≡ some h)
dead_onward fuel h n next b e = ground arith

pub propagate_dead_cases :
    (fuel : ℕ) (g h : Graph) (k : ℕ)
    → propagate_dead (suc fuel) g k ≡ some h
    → (n : Node) × (next : Graph) × (b : Bool) × (get_elem? g.nodes k ≡ some n)
      × (check_if_dead g k n ≡ some (next, b))
      × ((h ≡ next) ⊎ (propagate_dead fuel next n.parent ≡ some h))
unfolding propagate_dead get_node
propagate_dead_cases fuel g h k e = elim (Option-cases (get_elem? g.nodes k)) [
  | inl missing ↦ absurd (none-some (rw missing at e))
  | inr (n, at) ↦ elim (Option-cases (check_if_dead g k n)) [
    | inl missing ↦ absurd (none-some (rw (at, missing) at e))
    | inr ((next, b), found) ↦
        (n, next, b, at, found, dead_onward fuel h n next b (rw (at, found) at e))
  ]
]
