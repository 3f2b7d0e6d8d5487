-- ===== src/Planner/Tree.antt =====
-- The shape of the graph of the planner: a tree in which a parent stands before its children. It is
-- what the loops of the planner that follow parents and children rely on.
use mathlib.Core.Path.{subst}
use mathlib.Core.Option.{some-injective}
use r2dtu_attention.Common.{
  ℕ, ◌<◌, ◌≤◌, ◌≡◌, refl, ◌∙◌, sym, ap, Bool, false, some, List, [], ◌∷◌, inl, inr, arith,
  get_elem?, set, All, All-map, All-append, length, has, Distinct, Distinct-append,
  get_elem?-set_self, get_elem?-set_ne, lt-length_of_get_elem?, Bool-cases, ==_iff, ◌==◌,
}
use r2dtu_attention.Graph.{Graph, Node, add_child, set_node}
use r2dtu_attention.Planner.Winning.{Keeps, Keeps-refl}
use r2dtu_attention.Planner.Attach.{attached, attached_cases, attached-last, attached-Keeps}
use r2dtu_attention.Planner.Cases.{set_node-Keeps}

-- The node at position c is a child of the one at position k.
abbrev pub IsChild : Graph → ℕ → ℕ → Type 0
IsChild g k c = (m : Node) × (get_elem? g.nodes c ≡ some m) × (m.parent ≡ k) × (m.root ≡ false)

pub record Placed (g : Graph) (k : ℕ) (n : Node) : Type 0 where
  pub near : n.parent ≤ k
  pub up : n.root ≡ false → n.parent < k
  pub down : All (IsChild g k) n.children
  pub distinct : Distinct n.children

abbrev pub IsTree : Graph → Type 0
IsTree g = (k : ℕ) (n : Node) → get_elem? g.nodes k ≡ some n → Placed g k n

IsChild-Keeps : (g h : Graph) (k c : ℕ) → Keeps g h → IsChild g k c → IsChild h k c
IsChild-Keeps g h k c keeps (m, at, p, r) =
    let (m', at', same) = keeps c m at in (m', at', same.parent ∙ p, same.root ∙ r)

Placed-Keeps : (g h : Graph) (k : ℕ) (n : Node) → Keeps g h → Placed g k n → Placed h k n
Placed-Keeps g h k n keeps p = record {
  near = p.near;
  up = p.up;
  down = All-map n.children (λ c. IsChild-Keeps g h k c keeps) p.down;
  distinct = p.distinct;
}

-- Marks do not change the tree.
pub marked-IsTree :
    (g : Graph) (k : ℕ) (n : Node) (dead solved : Bool)
    → IsTree g
    → get_elem? g.nodes k ≡ some n
    → IsTree (set_node g k (record n { dead = dead; solved = solved }))
unfolding set_node
marked-IsTree g k n dead solved tree at c x e = elim (Bool-cases (k == c)) [
  | inl y ↦
      let q = (==_iff k c).0 y in
      let here : m ≡ x = some-injective m x (
        sym (get_elem?-set_self g.nodes k m (lt-length_of_get_elem? g.nodes k at))
        ∙ ap (get_elem? (set g.nodes k m)) q
        ∙ e) in
      subst (Placed h c) here (
        subst (λ j. Placed h j m) q
          (record {
            near = (tree k n at).near;
            up = (tree k n at).up;
            down = All-map n.children (λ j. IsChild-Keeps g h k j keeps) (tree k n at).down;
            distinct = (tree k n at).distinct;
          }))
  | inr y ↦
      Placed-Keeps g h c x keeps
        (tree c x (sym (get_elem?-set_ne g.nodes k c m (ground arith)) ∙ e))
]
  where
    m : Node
    m = record n { dead = dead; solved = solved }

    h : Graph
    h = record g { nodes = set g.nodes k m }

    keeps : Keeps g h
    keeps =
        set_node-Keeps g k n m at (record {
          type = refl;
          state = refl;
          id = refl;
          parent = refl;
          action = refl;
          root = refl;
        })

lt-has : (n : ℕ) (cs : List ℕ) → All (λ c. c < n) cs → has n cs ≡ false
lt-has n [] h = refl
lt-has n (c ∷ cs) h = ground (arith, lt-has n cs h.1, h.0)

-- A node more, below one that is there.
pub attached-IsTree :
    (g : Graph) (parent : ℕ) (p node : Node)
    → get_elem? g.nodes parent ≡ some p
    → IsTree g
    → node.id ≡ length g.nodes
    → node.parent ≡ parent
    → node.root ≡ false
    → node.children ≡ []
    → IsTree (attached g parent p node)
unfolding add_child
attached-IsTree g parent p node at tree id up root none_yet k n e =
    elim (attached_cases g parent p node at k n e) [
      | inl (q, same) ↦
          subst (Placed h k) same (subst (λ j. Placed h j (add_child p node.id)) q grown)
      | inr (inl (q, same)) ↦ subst (Placed h k) same (record {
        near = omega (arith, lt-length_of_get_elem? g.nodes parent at);
        up = λ _. omega (arith, lt-length_of_get_elem? g.nodes parent at);
        down = subst (All (IsChild h k)) (sym none_yet) tt;
        distinct = subst Distinct (sym none_yet) tt;
      })
      | inr (inr (ne, old)) ↦ Placed-Keeps g h k n keeps (tree k n old)
    ]
  where
    h : Graph
    h = attached g parent p node

    keeps : Keeps g h
    keeps = attached-Keeps g parent p node at

    new : IsChild h parent node.id
    new = (node, ap (get_elem? h.nodes) id ∙ attached-last g parent p node at, up, root)

    grown : Placed h parent (add_child p node.id)
    grown =
        let old = tree parent p at in
        record {
          near = old.near;
          up = old.up;
          down =
              All-append (IsChild h parent) p.children (node.id ∷ [])
                (All-map p.children (λ c. IsChild-Keeps g h parent c keeps) old.down) (new, tt);
          distinct = Distinct-append p.children node.id old.distinct (
              ap (λ j. has j p.children) id
              ∙ lt-has (length g.nodes) p.children
                  (All-map p.children (λ c x. lt-length_of_get_elem? g.nodes c x.1) old.down));
        }

-- The frontier has no part in the tree.
pub frontier-IsTree :
    (g : Graph) (frontier : List ℕ) → IsTree g → IsTree (record g { frontier = frontier })
frontier-IsTree g frontier tree k n e =
    Placed-Keeps g (record g { frontier = frontier }) k n (Keeps-refl g) (tree k n e)
