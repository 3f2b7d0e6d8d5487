-- ===== src/Planner/Partial.antt =====
-- The graph while an And node gets its children.
use mathlib.Core.Path.{subst, subst₃}
use mathlib.Core.Option.{some-injective}
use mathlib.Core.List.{Memᴰ}
use r2dtu_attention.Common.{
  ℕ, ◌≡◌, ◌≢◌, refl, ◌∙◌, sym, ap, false, some, List, [], ◌∷◌, ◌++◌, inl, inr, arith, get_elem?,
  All, All-append, length, Bool-cases, ==_iff, ◌==◌,
}
use r2dtu_attention.Formula.{Formula}
use r2dtu_attention.State.{State}
use r2dtu_attention.Action.{Action}
use r2dtu_attention.Operations.{split_into_global_states}
use r2dtu_attention.Graph.{
  Graph, Node, NodeType, or_node, and_node, and_node_of, or_node_of, add_child,
}
use r2dtu_attention.Planner.{successor}
use r2dtu_attention.Planner.Winning.{
  Keeps, LooksOr, Zip, Zip-Keeps, nil, cons, IsMove, Links, Links-Keeps, NodeOk, NodesOk, Inv,
  NodeOk-Keeps, frontier-Keeps,
}
use r2dtu_attention.Planner.Attach.{
  attached, attached-last, attached-parent, attached-Keeps, attached_cases,
}

Zip-append :
    {g : Graph} {cs : List ℕ} {ss : List State} (c : ℕ) (s : State)
    → Zip g cs ss
    → LooksOr g c s
    → Zip g (cs ++ c ∷ []) (ss ++ s ∷ [])
Zip-append c s nil l = cons l nil
Zip-append c s (cons m z) l = cons m (Zip-append c s z l)

and-or : and_node ≡ or_node → ⊥
and-or e = cc

module _ (order : List ℕ → List ℕ) (goal : Formula) (actions : List Action) where
  -- The graph while the And node at position c, with state t and action a, is being given its
  -- children: so far those with the states `done`.
  pub record Partial (g : Graph) (c : ℕ) (t : State) (a : Action) (done : List State) : Type 0 where
    pub others :
        (k : ℕ) (n : Node) → c ≢ k → get_elem? g.nodes k ≡ some n → NodeOk order goal actions g k n
    pub node : Node
    pub at : get_elem? g.nodes c ≡ some node
    pub type : node.type ≡ and_node
    pub state : node.state ≡ t
    pub action : node.action_from_parent ≡ a
    pub id : node.id ≡ c
    pub unsolved : node.solved ≡ false
    pub zip : Zip g node.children done
    pub frontier : All (λ c. (s : State) × LooksOr g c s) g.frontier

  pub Partial-Inv :
      (g : Graph) (c : ℕ) (t : State) (a : Action) (ts : List State)
      → Partial g c t a ts
      → split_into_global_states t a.owner ≡ some ts
      → Inv order goal actions g
  Partial-Inv g c t a ts p e = record { nodes = ok; frontier = p.frontier }
    where
      here : (n : Node) → p.node ≡ n → NodeOk order goal actions g c n
      here n q = subst (NodeOk order goal actions g c) q (record {
        id = p.id;
        sound = λ s. cc;
        links =
            subst₃ (λ x y z. Links order goal actions g x y z p.node.children) (sym p.type)
              (sym p.state) (sym p.action) (ts, e, p.zip);
      })

      ok : NodesOk order goal actions g
      ok k n at = elim (Bool-cases (c == k)) [
        | inl y ↦
            let q = (==_iff c k).0 y in
            subst (λ x. NodeOk order goal actions g x n) q
              (here n (some-injective p.node n (sym p.at ∙ ap (get_elem? g.nodes) q ∙ at)))
        | inr y ↦ p.others k n (ground arith) at
      ]

  -- The And node is created below the Or node at position k.
  pub create_and-Partial :
      (g : Graph) (k : ℕ) (n : Node) (t : State) (a : Action)
      → Inv order goal actions g
      → get_elem? g.nodes k ≡ some n
      → n.type ≡ or_node
      → Memᴰ a actions
      → successor order n.state a ≡ some (some t)
      → Partial (attached g k n (and_node_of t (length g.nodes) k a false)) (length g.nodes) t a []
  unfolding add_child
  create_and-Partial g k n t a v at type m applies = record {
    others = others;
    node = new;
    at = attached-last g k n new at;
    type = refl;
    state = refl;
    action = refl;
    id = refl;
    unsolved = refl;
    zip = nil;
    frontier = frontier-Keeps order goal actions g h g.frontier keeps v.frontier;
  }
    where
      new : Node
      new = and_node_of t (length g.nodes) k a false

      h : Graph
      h = attached g k n new

      keeps : Keeps g h
      keeps = attached-Keeps g k n new at

      move : IsMove order goal actions h n.state (length g.nodes)
      move = (a, t, m, applies, (new, attached-last g k n new at, refl, refl, refl))

      more :
          (type : NodeType)
          → type ≡ or_node
          → Links order goal actions h type n.state n.action_from_parent n.children
          → Links order goal actions h type n.state n.action_from_parent
              (n.children ++ length g.nodes ∷ [])
      more or_node e l = All-append _ n.children (length g.nodes ∷ []) l (move, tt)
      more and_node e l = absurd (and-or e)

      others :
          (c : ℕ) (x : Node)
          → length g.nodes ≢ c
          → get_elem? h.nodes c ≡ some x
          → NodeOk order goal actions h c x
      others c x ne e = elim (attached_cases g k n new at c x e) [
        | inl (q, same) ↦
            let ok = v.nodes k n at in
            subst (NodeOk order goal actions h c) same (record {
              id = ok.id ∙ q;
              sound = ok.sound;
              links = more n.type type (
                  Links-Keeps order goal actions g h n.type n.state n.action_from_parent n.children
                    keeps ok.links);
            })
        | inr (inl (q, same)) ↦ absurd (ne q)
        | inr (inr (q, old)) ↦ NodeOk-Keeps order goal actions g h c x keeps (v.nodes c x old)
      ]

  -- An Or node is created below the And node, and put on the frontier.
  pub create_or-Partial :
      (g : Graph) (c : ℕ) (t : State) (a : Action) (done : List State) (s : State)
      → (p : Partial g c t a done)
      → Partial
          (record (attached g c p.node (or_node_of s (length g.nodes) c false)) {
            frontier = g.frontier ++ length g.nodes ∷ [];
          })
          c
          t
          a
          (done ++ s ∷ [])
  unfolding add_child
  create_or-Partial g c t a done s p = record {
    others = others;
    node = add_child p.node (length g.nodes);
    at = attached-parent g c p.node new p.at;
    type = p.type;
    state = p.state;
    action = p.action;
    id = p.id;
    unsolved = p.unsolved;
    zip = Zip-append (length g.nodes) s (Zip-Keeps g h keeps p.zip) fresh;
    frontier =
        All-append _ g.frontier (length g.nodes ∷ [])
          (frontier-Keeps order goal actions g h g.frontier keeps p.frontier) ((s, fresh), tt);
  }
    where
      new : Node
      new = or_node_of s (length g.nodes) c false

      h : Graph
      h = record (attached g c p.node new) { frontier = g.frontier ++ length g.nodes ∷ [] }

      keeps : Keeps g h
      keeps = attached-Keeps g c p.node new p.at

      fresh : LooksOr h (length g.nodes) s
      fresh = (new, attached-last g c p.node new p.at, refl, refl)

      others :
          (k : ℕ) (n : Node)
          → c ≢ k
          → get_elem? h.nodes k ≡ some n
          → NodeOk order goal actions h k n
      others k n ne e = elim (attached_cases g c p.node new p.at k n e) [
        | inl (q, same) ↦ absurd (ne q)
        | inr (inl (q, same)) ↦
            subst (NodeOk order goal actions h k) same
              (record { id = q; sound = λ x. cc; links = tt })
        | inr (inr (q, old)) ↦ NodeOk-Keeps order goal actions g h k n keeps (p.others k n ne old)
      ]
