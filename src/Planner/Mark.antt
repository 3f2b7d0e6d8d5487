-- ===== src/Planner/Mark.antt =====
-- The marks of nodes and the invariant of the graph: Node::check_if_solved and Node::check_if_dead.
use mathlib.Core.Option.{some-injective}
use mathlib.Core.Path.{subst, subst₂, subst₃}
use mathlib.Core.List.{Memᴰ}
use r2dtu_attention.Common.{
  ℕ, ◌≡◌, refl, ◌∙◌, sym, ap, Bool, true, some, List, [], ◌∷◌, inl, inr, arith, get_elem?, set, All,
  get_elem?-set_self, get_elem?-set_ne, lt-length_of_get_elem?, Bool-cases, ==_iff, ◌==◌,
}
use r2dtu_attention.Formula.{Formula}
use r2dtu_attention.State.{State}
use r2dtu_attention.Action.{Action}
use r2dtu_attention.Graph.{
  Graph, Node, NodeType, or_node, and_node, set_node, set_dead, set_solved, check_if_dead,
  check_if_solved, children_solved, some_child, every_child, get_node,
}
use r2dtu_attention.Planner.{successor}
use r2dtu_attention.Planner.Winning.{
  Keeps, Keeps-refl, Keeps-trans, Zip, Winning, acts, AllWinning, none_left, both, Split, Claim,
  IsMove, Links, Links-Keeps, NodeOk, NodesOk, Inv, NodeOk-Keeps, frontier-Keeps, into, nil, cons,
}
use r2dtu_attention.Planner.Cases.{
  set_node-Keeps, none-true, check_if_solved_cases, check_if_dead_cases,
}

-- A write of a node made alike keeps the graph.
module _ (order : List ℕ → List ℕ) (goal : Formula) (actions : List Action) where
  -- What a step has to leave behind.
  pub record Good (g h : Graph) : Type 0 where
    pub inv : Inv order goal actions h
    pub keeps : Keeps g h
    pub root : h.root ≡ g.root

  pub Good-refl : (g : Graph) → Inv order goal actions g → Good g g
  Good-refl g v = record { inv = v; keeps = Keeps-refl g; root = refl }

  pub Good-trans : (g h k : Graph) → Good g h → Good h k → Good g k
  Good-trans g h k p q = record {
    inv = q.inv;
    keeps = Keeps-trans g h k p.keeps q.keeps;
    root = q.root ∙ p.root;
  }

  -- The marks of a node are written, the one for solved only with the claim.
  write-Good :
      (g : Graph) (k : ℕ) (n : Node) (dead solved : Bool)
      → Inv order goal actions g
      → get_elem? g.nodes k ≡ some n
      → (solved ≡ true → Claim order goal actions n.type n.state n.action_from_parent)
      → Good g (set_node g k (record n { dead = dead; solved = solved }))
  unfolding set_node
  write-Good g k n dead solved v e claim = record {
    inv = record {
      nodes = written;
      frontier = frontier-Keeps order goal actions g h g.frontier keeps v.frontier;
    };
    keeps = keeps;
    root = refl;
  }
    where
      m : Node
      m = record n { dead = dead; solved = solved }

      h : Graph
      h = record g { nodes = set g.nodes k m }

      keeps : Keeps g h
      keeps = set_node-Keeps g k n m e (record {
        type = refl;
        state = refl;
        id = refl;
        parent = refl;
        action = refl;
        root = refl;
      })

      written : NodesOk order goal actions h
      written c x at = elim (Bool-cases (k == c)) [
        | inl y ↦
            let q = (==_iff k c).0 y in
            let here : m ≡ x = some-injective m x (
              sym (get_elem?-set_self g.nodes k m (lt-length_of_get_elem? g.nodes k e))
              ∙ ap (get_elem? (set g.nodes k m)) q
              ∙ at) in
            let ok = v.nodes k n e in
            subst (NodeOk order goal actions h c) here (record {
              id = ok.id ∙ q;
              sound = claim;
              links =
                  Links-Keeps order goal actions g h n.type n.state n.action_from_parent n.children
                    keeps ok.links;
            })
        | inr y ↦
            NodeOk-Keeps order goal actions g h c x keeps
              (v.nodes c x (sym (get_elem?-set_ne g.nodes k c m (ground arith)) ∙ at))
      ]

  pub set_dead-Good :
      (g : Graph) (k : ℕ) (n : Node)
      → Inv order goal actions g
      → get_elem? g.nodes k ≡ some n
      → Good g (set_node g k (set_dead n))
  unfolding set_dead
  set_dead-Good g k n v e = write-Good g k n true n.solved v e (v.nodes k n e).sound

  pub set_solved-Good :
      (g : Graph) (k : ℕ) (n : Node)
      → Inv order goal actions g
      → get_elem? g.nodes k ≡ some n
      → Claim order goal actions n.type n.state n.action_from_parent
      → Good g (set_node g k (set_solved n))
  unfolding set_solved
  set_solved-Good g k n v e claim = write-Good g k n n.dead true v e (λ _. claim)

  Split-Winning :
      {s t : State} (a : Action)
      → Memᴰ a actions
      → successor order s a ≡ some (some t)
      → Split order goal actions t a
      → Winning order goal actions s
  Split-Winning a m applies (into ts e all) = acts a m applies e all

  -- A solved child of an Or node gives a winning action.
  some_child-Winning :
      (g : Graph) (s : State) (cs : List ℕ)
      → NodesOk order goal actions g
      → All (IsMove order goal actions g s) cs
      → some_child g (λ n. n.solved) cs ≡ some true
      → Winning order goal actions s
  unfolding some_child get_node
  some_child-Winning g s [] ok l e = cc
  some_child-Winning g s (c ∷ cs) ok ((a, t, m, applies, (n, at, ty, st, ac)), rest) e =
      elim (Bool-cases n.solved) [
        | inl y ↦
            Split-Winning a m applies
              (subst₃ (λ x y z. Claim order goal actions x y z) ty st ac ((ok c n at).sound y))
        | inr y ↦ some_child-Winning g s cs ok rest (rw (at, y) at e)
      ]

  -- When every child of an And node is solved, all states after the action are won.
  every_child-AllWinning :
      (g : Graph) {cs : List ℕ} {ts : List State}
      → NodesOk order goal actions g
      → Zip g cs ts
      → every_child g (λ n. n.solved) cs ≡ some true
      → AllWinning order goal actions ts
  unfolding every_child get_node
  every_child-AllWinning g ok nil e = none_left
  every_child-AllWinning g ok (cons {c} {s} (n, at, ty, st) z) e = elim (Bool-cases n.solved) [
    | inl y ↦
        both
          (subst₂ (λ x y. Claim order goal actions x y n.action_from_parent) ty st
            ((ok c n at).sound y))
          (every_child-AllWinning g ok z (rw (at, y) at e))
    | inr y ↦ absurd (none-true (rw (at, y) at e))
  ]

  children_solved-Claim :
      (g : Graph) (k : ℕ) (n : Node)
      → NodesOk order goal actions g
      → get_elem? g.nodes k ≡ some n
      → children_solved g n.type n.children ≡ some true
      → Claim order goal actions n.type n.state n.action_from_parent
  unfolding children_solved
  children_solved-Claim g k n ok at e = go n.type n.children (ok k n at).links e
    where
      go :
          (type : NodeType) (cs : List ℕ)
          → Links order goal actions g type n.state n.action_from_parent cs
          → children_solved g type cs ≡ some true
          → Claim order goal actions type n.state n.action_from_parent
      go or_node cs l q = some_child-Winning g n.state cs ok l q
      go and_node cs (ts, s, z) q = into ts s (every_child-AllWinning g ok z q)

  pub check_if_solved-Good :
      (g : Graph) (k : ℕ) (n : Node) (h : Graph) (b : Bool)
      → Inv order goal actions g
      → get_elem? g.nodes k ≡ some n
      → check_if_solved g k n ≡ some (h, b)
      → Good g h
  check_if_solved-Good g k n h b v at e = elim (check_if_solved_cases g h k n b e) [
    | inl same ↦ subst (Good g) (sym same) (Good-refl g v)
    | inr (all, written) ↦
        subst (Good g) (sym written)
          (set_solved-Good g k n v at (children_solved-Claim g k n v.nodes at all))
  ]

  pub check_if_dead-Good :
      (g : Graph) (k : ℕ) (n : Node) (h : Graph) (b : Bool)
      → Inv order goal actions g
      → get_elem? g.nodes k ≡ some n
      → check_if_dead g k n ≡ some (h, b)
      → Good g h
  check_if_dead-Good g k n h b v at e = elim (check_if_dead_cases g h k n b e) [
    | inl same ↦ subst (Good g) (sym same) (Good-refl g v)
    | inr (all, written) ↦ subst (Good g) (sym written) (set_dead-Good g k n v at)
  ]
