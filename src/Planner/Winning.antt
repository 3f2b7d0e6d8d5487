-- ===== src/Planner/Winning.antt =====
-- What a policy has to achieve, independent of the graph, and the invariant of the graph that makes
-- its solved nodes mean that.
use mathlib.Core.List.{Memᴰ}
use r2dtu_attention.Common.{ℕ, ◌≡◌, refl, ◌∙◌, true, some, List, [], ◌∷◌, get_elem?, All, All-map}
use r2dtu_attention.Formula.{Formula}
use r2dtu_attention.State.{State}
use r2dtu_attention.State
use r2dtu_attention.Action.{Action}
use r2dtu_attention.Operations.{split_into_global_states}
use r2dtu_attention.Graph.{Graph, Node, NodeType, or_node, and_node}
use r2dtu_attention.Planner.{successor}

-- `h` has the nodes of `g`: what a node is made with does not change, its marks and children may.
pub record SameMake (n m : Node) : Type 0 where
  pub type : m.type ≡ n.type
  pub state : m.state ≡ n.state
  pub id : m.id ≡ n.id
  pub parent : m.parent ≡ n.parent
  pub action : m.action_from_parent ≡ n.action_from_parent
  pub root : m.root ≡ n.root

abbrev pub Keeps : Graph → Graph → Type 0
Keeps g h =
    (c : ℕ) (n : Node)
    → get_elem? g.nodes c ≡ some n
    → (m : Node) × (get_elem? h.nodes c ≡ some m) × SameMake n m

pub SameMake-refl : (n : Node) → SameMake n n
SameMake-refl n = record {
  type = refl;
  state = refl;
  id = refl;
  parent = refl;
  action = refl;
  root = refl;
}

SameMake-trans : (n m k : Node) → SameMake n m → SameMake m k → SameMake n k
SameMake-trans n m k p q = record {
  type = q.type ∙ p.type;
  state = q.state ∙ p.state;
  id = q.id ∙ p.id;
  parent = q.parent ∙ p.parent;
  action = q.action ∙ p.action;
  root = q.root ∙ p.root;
}

pub Keeps-refl : (g : Graph) → Keeps g g
Keeps-refl g c n e = (n, e, SameMake-refl n)

pub Keeps-trans : (g h k : Graph) → Keeps g h → Keeps h k → Keeps g k
Keeps-trans g h k p q c n e =
    let (m, e', s) = p c n e in let (l, e'', s') = q c m e' in (l, e'', SameMake-trans n m l s s')

-- The node at position c is of this type, with this state and action.
abbrev pub Looks : Graph → ℕ → NodeType → State → Action → Type 0
Looks g c type state action =
    (n : Node) × (get_elem? g.nodes c ≡ some n)
    × (n.type ≡ type)
    × (n.state ≡ state)
    × (n.action_from_parent ≡ action)

-- The node at position c is an Or node with this state.
abbrev pub LooksOr : Graph → ℕ → State → Type 0
LooksOr g c state =
    (n : Node) × (get_elem? g.nodes c ≡ some n) × (n.type ≡ or_node) × (n.state ≡ state)

pub Looks-Keeps :
    (g h : Graph) (c : ℕ) (type : NodeType) (state : State) (action : Action)
    → Keeps g h
    → Looks g c type state action
    → Looks h c type state action
Looks-Keeps g h c type state action k (n, e, t, s, a) =
    let (m, e', same) = k c n e in (m, e', same.type ∙ t, same.state ∙ s, same.action ∙ a)

pub LooksOr-Keeps :
    (g h : Graph) (c : ℕ) (state : State) → Keeps g h → LooksOr g c state → LooksOr h c state
LooksOr-Keeps g h c state k (n, e, t, s) =
    let (m, e', same) = k c n e in (m, e', same.type ∙ t, same.state ∙ s)

-- The children are Or nodes with the states of the list, in its order.
pub data Zip (g : Graph) : List ℕ → List State → Type 0 where
  nil : Zip g [] []
  cons :
      {c : ℕ} {s : State} {cs : List ℕ} {ss : List State}
      → LooksOr g c s
      → Zip g cs ss
      → Zip g (c ∷ cs) (s ∷ ss)

pub Zip-Keeps :
    (g h : Graph) {cs : List ℕ} {ss : List State} → Keeps g h → Zip g cs ss → Zip h cs ss
Zip-Keeps g h k nil = nil
Zip-Keeps g h k (cons l z) = cons (LooksOr-Keeps g h _ _ k l) (Zip-Keeps g h k z)

module _ (order : List ℕ → List ℕ) (goal : Formula) (actions : List Action) where
  mutual
    -- The goal holds in the state, or there is an action after which it can be won from every state
    -- that the owner of the action may then find itself in.
    pub data Winning : State → Type 0 where
      reached : {s : State} → State.valuate s goal ≡ some true → Winning s
      acts :
          {s t : State} {ts : List State} (a : Action)
          → Memᴰ a actions
          → successor order s a ≡ some (some t)
          → split_into_global_states t a.owner ≡ some ts
          → AllWinning ts
          → Winning s

    pub data AllWinning : List State → Type 0 where
      none_left : AllWinning []
      both : {s : State} {ss : List State} → Winning s → AllWinning ss → AllWinning (s ∷ ss)

  -- The state after an action, split for its owner, is won throughout.
  pub data Split (t : State) (a : Action) : Type 0 where
    into :
        (ts : List State) → split_into_global_states t a.owner ≡ some ts → AllWinning ts → Split t a

  -- What it means that a node is solved.
  abbrev pub Claim : NodeType → State → Action → Type 0
  Claim or_node s a = Winning s
  Claim and_node s a = Split s a

  -- A child of an Or node: an action that applies, and the state after it.
  abbrev pub IsMove : Graph → State → ℕ → Type 0
  IsMove g s c =
      (a : Action) × (t : State) × Memᴰ a actions
      × (successor order s a ≡ some (some t))
      × Looks g c and_node t a

  -- How the children of a node come from it.
  abbrev pub Links : Graph → NodeType → State → Action → List ℕ → Type 0
  Links g or_node s a cs = All (IsMove g s) cs
  Links g and_node s a cs =
      (ts : List State) × (split_into_global_states s a.owner ≡ some ts) × Zip g cs ts

  pub record NodeOk (g : Graph) (k : ℕ) (n : Node) : Type 0 where
    pub id : n.id ≡ k
    pub sound : n.solved ≡ true → Claim n.type n.state n.action_from_parent
    pub links : Links g n.type n.state n.action_from_parent n.children

  abbrev pub NodesOk : Graph → Type 0
  NodesOk g = (k : ℕ) (n : Node) → get_elem? g.nodes k ≡ some n → NodeOk g k n

  -- The invariant between the rounds of the main loop.
  pub record Inv (g : Graph) : Type 0 where
    pub nodes : NodesOk g
    pub frontier : All (λ c. (s : State) × LooksOr g c s) g.frontier

  pub Links-Keeps :
      (g h : Graph) (type : NodeType) (s : State) (a : Action) (cs : List ℕ)
      → Keeps g h
      → Links g type s a cs
      → Links h type s a cs
  Links-Keeps g h or_node s a cs k l =
      All-map cs (λ c (b, t, m, e, look). (b, t, m, e, Looks-Keeps g h c and_node t b k look)) l
  Links-Keeps g h and_node s a cs k (ts, e, z) = (ts, e, Zip-Keeps g h k z)

  pub NodeOk-Keeps : (g h : Graph) (k : ℕ) (n : Node) → Keeps g h → NodeOk g k n → NodeOk h k n
  NodeOk-Keeps g h k n keeps ok = record {
    id = ok.id;
    sound = ok.sound;
    links = Links-Keeps g h n.type n.state n.action_from_parent n.children keeps ok.links;
  }

  pub frontier-Keeps :
      (g h : Graph) (cs : List ℕ)
      → Keeps g h
      → All (λ c. (s : State) × LooksOr g c s) cs
      → All (λ c. (s : State) × LooksOr h c s) cs
  frontier-Keeps g h cs keeps = All-map cs (λ c (s, l). (s, LooksOr-Keeps g h c s keeps l))
