-- ===== src/Planner/Children.antt =====
-- The loops over the children of a node, in Node::check_if_solved and Node::check_if_dead.
use r2dtu_attention.Common.{
  ℕ, ◌≡◌, refl, Bool, true, false, some, List, [], ◌∷◌, inl, inr, get_elem?, All, length,
  length-set, Bool-cases,
}
use r2dtu_attention.Graph.{
  Graph, Node, NodeType, or_node, and_node, set_node, set_dead, set_solved, check_if_dead,
  check_if_solved, children_dead, children_solved, some_child, every_child, get_node,
}
use r2dtu_attention.Planner.Tree.{IsTree, IsChild, marked-IsTree}

pub some_child_total :
    (g : Graph) (k : ℕ) (test : Node → Bool) (cs : List ℕ)
    → All (IsChild g k) cs
    → (b : Bool) × (some_child g test cs ≡ some b)
unfolding some_child get_node
some_child_total g k test [] h = (false, refl)
some_child_total g k test (c ∷ cs) ((m, at, _, _), rest) = elim (Bool-cases (test m)) [
  | inl y ↦ (true, rw (at, y))
  | inr y ↦ let (b, e) = some_child_total g k test cs rest in (b, rw (at, y) e)
]

pub every_child_total :
    (g : Graph) (k : ℕ) (test : Node → Bool) (cs : List ℕ)
    → All (IsChild g k) cs
    → (b : Bool) × (every_child g test cs ≡ some b)
unfolding every_child get_node
every_child_total g k test [] h = (true, refl)
every_child_total g k test (c ∷ cs) ((m, at, _, _), rest) = elim (Bool-cases (test m)) [
  | inl y ↦ let (b, e) = every_child_total g k test cs rest in (b, rw (at, y) e)
  | inr y ↦ (false, rw (at, y))
]

pub children_solved_total :
    (g : Graph) (k : ℕ) (type : NodeType) (cs : List ℕ)
    → All (IsChild g k) cs
    → (b : Bool) × (children_solved g type cs ≡ some b)
unfolding children_solved
children_solved_total g k and_node cs h = every_child_total g k (λ n. n.solved) cs h
children_solved_total g k or_node cs h = some_child_total g k (λ n. n.solved) cs h

pub children_dead_total :
    (g : Graph) (k : ℕ) (type : NodeType) (cs : List ℕ)
    → All (IsChild g k) cs
    → (b : Bool) × (children_dead g type cs ≡ some b)
unfolding children_dead
children_dead_total g k and_node cs h = some_child_total g k (λ n. n.dead) cs h
children_dead_total g k or_node cs h = every_child_total g k (λ n. n.dead) cs h

-- The graph `h` is a tree with as many nodes as `g`.
abbrev pub Fits : Graph → Graph → Type 0
Fits g h = IsTree h × (length h.nodes ≡ length g.nodes)

module _ (g : Graph) (k : ℕ) (n : Node) (tree : IsTree g) (at : get_elem? g.nodes k ≡ some n) where
  pub solved-Fits : Fits g (set_node g k (set_solved n))
  unfolding set_node set_solved
  solved-Fits = (marked-IsTree g k n n.dead true tree at, length-set g.nodes k _)

  pub dead-Fits : Fits g (set_node g k (set_dead n))
  unfolding set_node set_dead
  dead-Fits = (marked-IsTree g k n true n.solved tree at, length-set g.nodes k _)

  pub check_if_solved_total :
      (h : Graph) × (b : Bool) × (check_if_solved g k n ≡ some (h, b)) × Fits g h
  unfolding check_if_solved
  check_if_solved_total = elim (Bool-cases n.solved) [
    | inl y ↦ (g, true, rw y, (tree, refl))
    | inr y ↦ elim (Bool-cases n.dead) [
      | inl z ↦ (g, false, rw (y, z), (tree, refl))
      | inr z ↦
          let (b, e) = children_solved_total g k n.type n.children (tree k n at).down in
          elim (Bool-cases b) [
            | inl t ↦ (set_node g k (set_solved n), true, rw (y, z, e, t), solved-Fits)
            | inr t ↦ (g, false, rw (y, z, e, t), (tree, refl))
          ]
    ]
  ]

  pub check_if_dead_total :
      (h : Graph) × (b : Bool) × (check_if_dead g k n ≡ some (h, b)) × Fits g h
  unfolding check_if_dead
  check_if_dead_total = elim (Bool-cases n.dead) [
    | inl y ↦ (g, true, rw y, (tree, refl))
    | inr y ↦ elim (Bool-cases n.solved) [
      | inl z ↦ (g, false, rw (y, z), (tree, refl))
      | inr z ↦
          let (b, e) = children_dead_total g k n.type n.children (tree k n at).down in
          elim (Bool-cases b) [
            | inl t ↦ (set_node g k (set_dead n), true, rw (y, z, e, t), dead-Fits)
            | inr t ↦ (g, false, rw (y, z, e, t), (tree, refl))
          ]
    ]
  ]

-- One round of a climb, where `onward` is the rest of it.
