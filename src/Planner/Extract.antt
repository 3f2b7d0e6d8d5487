-- ===== src/Planner/Extract.antt =====
-- The loop of Planner::extract_policy, and the nodes that were ever on its stack.
use mathlib.Core.Option.{some-injective}
use r2dtu_attention.Common.{
  ℕ, zero, suc, ◌+◌, ◌<◌, ◌≤◌, ◌≡◌, ◌⊎◌, refl, ◌∙◌, sym, ap, true, false, some, List, [], ◌∷◌, inl,
  inr, arith, get_elem?, All, All-has, length, get_elem?_total, has, Distinct, ==_iff, ==-refl,
  ◌==◌, lt-length_of_get_elem?, Bool-cases,
}
use r2dtu_attention.Graph.{Graph, Node, NodeType, or_node, and_node, get_node, get_root_node}
use r2dtu_attention.Policy.{Policy}
use r2dtu_attention.Policy
use r2dtu_attention.Planner.{push_children, policy_entry, extract_loop, extract_policy}
use r2dtu_attention.Planner.Tree.{IsTree, IsChild}
use r2dtu_attention.Common.Pigeonhole.{Distinct-length}

type_cases : (t : NodeType) → (t ≡ or_node) ⊎ (t ≡ and_node)
type_cases or_node = inl refl
type_cases and_node = inr refl

extract_loop_step :
    (g : Graph) (i : ℕ) (n : Node) (stack stack' : List ℕ) (p q : Policy) (fuel : ℕ)
    → get_elem? g.nodes i ≡ some n
    → policy_entry g n p ≡ some q
    → push_children g n.type n.children stack ≡ some stack'
    → extract_loop (suc fuel) g (i ∷ stack) p ≡ extract_loop fuel g stack' q
unfolding extract_loop get_node
extract_loop_step g i n stack stack' p q fuel at e e' = rw (at, e, e')

children_of_and :
    (g : Graph) (type : NodeType) (c : ℕ) (cs stack stack' : List ℕ) (m : Node)
    → get_elem? g.nodes c ≡ some m
    → m.solved ≡ true
    → type ≡ and_node
    → push_children g type cs (c ∷ stack) ≡ some stack'
    → push_children g type (c ∷ cs) stack ≡ some stack'
unfolding push_children get_node
children_of_and g or_node c cs stack stack' m at y t e = cc
children_of_and g and_node c cs stack stack' m at y t e = rw (at, y) e

module _ (g : Graph) (tree : IsTree g) where
  -- What holds between the rounds: `met` are the nodes that were ever on the stack.
  record Met (stack met : List ℕ) : Type 0 where
    distinct : Distinct met
    apart : Distinct stack
    inside : All (λ v. v < length g.nodes) met
    queued : (v : ℕ) → has v stack ≡ true → has v met ≡ true
    origin :
        (v : ℕ) (n : Node)
        → has v met ≡ true
        → get_elem? g.nodes v ≡ some n
        → n.root ≡ false
        → (has n.parent met ≡ true) × (has n.parent stack ≡ false)

  -- While the children of node i are pushed.
  record Pushing (i : ℕ) (stack met : List ℕ) : Type 0 where
    state : Met stack met
    parent_met : has i met ≡ true
    parent_off : has i stack ≡ false

  push_one :
      (i c : ℕ) (stack met : List ℕ)
      → IsChild g i c
      → has c met ≡ false
      → Pushing i stack met
      → Pushing i (c ∷ stack) (c ∷ met)
  push_one i c stack met (m, at, up, r) new p = record {
    state = record {
      distinct = (new, p.state.distinct);
      apart = (
        elim (Bool-cases (has c stack)) [
          | inl y ↦ absurd (ground (arith, p.state.queued c y))
          | inr y ↦ y
        ],
        p.state.apart,
      );
      inside = (lt-length_of_get_elem? g.nodes c at, p.state.inside);
      queued = λ v h. elim (Bool-cases (c == v)) [
        | inl y ↦ rw y
        | inr y ↦ rw y (p.state.queued v (rw y at h))
      ];
      origin = λ v n h e r'. elim (Bool-cases (c == v)) [
        | inl y ↦
            let q = (==_iff c v).0 y in
            let same : m ≡ n = some-injective m n (sym at ∙ ap (get_elem? g.nodes) q ∙ e) in
            let k : i ≡ n.parent = sym up ∙ ap (λ (x : Node). x.parent) same in
            (
              ap (λ j. has j (c ∷ met)) (sym k) ∙ ground (arith, p.parent_met),
              ap (λ j. has j (c ∷ stack)) (sym k) ∙ rw (other, p.parent_off),
            )
        | inr y ↦
            let (a, b) = p.state.origin v n (rw y at h) e r' in
            let apart : (c == n.parent) ≡ false = elim (Bool-cases (c == n.parent)) [
              | inl z ↦ absurd (ground (arith, ap (λ j. has j met) ((==_iff c n.parent).0 z)))
              | inr z ↦ z
            ] in
            (rw (apart, a), rw (apart, b))
      ];
    };
    parent_met = ground (arith, p.parent_met);
    parent_off = rw (other, p.parent_off);
  }
    where
      other : (c == i) ≡ false
      other = elim (Bool-cases (c == i)) [
        | inl z ↦ absurd (ground (arith, ap (λ j. has j met) ((==_iff c i).0 z), p.parent_met))
        | inr z ↦ z
      ]

  push_children_total :
      (i : ℕ) (type : NodeType) (cs stack met : List ℕ)
      → All (IsChild g i) cs
      → Distinct cs
      → ((v : ℕ) → has v cs ≡ true → has v met ≡ false)
      → Pushing i stack met
      → (stack' : List ℕ) × (met' : List ℕ) × (push_children g type cs stack ≡ some stack')
        × Met stack' met'
        × (length met' + length stack ≡ length met + length stack')
  unfolding push_children get_node
  push_children_total i type [] stack met h d new p = (stack, met, refl, p.state, refl)
  push_children_total i type (c ∷ cs) stack met ((m, at, up, r), rest) d new p =
      let fresh = new c (ground (arith, ==-refl c)) in
      let pushed = push_one i c stack met (m, at, up, r) fresh p in
      let later : (v : ℕ) → has v cs ≡ true → has v (c ∷ met) ≡ false = λ v h.
        elim (Bool-cases (c == v)) [
          | inl y ↦ absurd (ground (arith, ap (λ j. has j cs) ((==_iff c v).0 y), d.0))
          | inr y ↦ rw (y, new v (ground arith))
        ] in
      elim (Bool-cases m.solved) [
        | inr y ↦
            let (stack', met', e, q, z) =
              push_children_total i type cs stack met rest d.1 (λ v h. new v (ground arith)) p in
            (stack', met', rw (at, y) e, q, z)
        | inl y ↦ elim (type_cases type) [
          | inl t ↦ (c ∷ stack, c ∷ met, rw (at, y, t), pushed.state, omega arith)
          | inr t ↦
              let (stack', met', e, q, z) =
                push_children_total i type cs (c ∷ stack) (c ∷ met) rest d.1 later pushed in
              (
                stack',
                met',
                children_of_and g type c cs stack stack' m at y t e,
                q,
                omega (arith, z),
              )
        ]
      ]

  policy_entry_total :
      (k : ℕ) (n : Node) (p : Policy)
      → get_elem? g.nodes k ≡ some n
      → (q : Policy) × (policy_entry g n p ≡ some q)
  unfolding policy_entry get_node
  policy_entry_total k n p at = elim (type_cases n.type) [
    | inl y ↦ (p, rw y)
    | inr y ↦
        let (m, e) =
          get_elem?_total g.nodes n.parent
            (omega (arith, (tree k n at).near, lt-length_of_get_elem? g.nodes k at)) in
        (Policy.add_policy_entry p m.state n.action_from_parent, rw (y, e))
  ]

  popped : (i : ℕ) (stack met : List ℕ) → Met (i ∷ stack) met → Pushing i stack met
  popped i stack met h = record {
    state = record {
      distinct = h.distinct;
      apart = h.apart.1;
      inside = h.inside;
      queued = λ v e. h.queued v (ground arith);
      origin = λ v n m e r. let (a, b) = h.origin v n m e r in (a, ground arith);
    };
    parent_met = h.queued i (ground (arith, ==-refl i));
    parent_off = h.apart.0;
  }

  -- The children of a node on the stack were not met.
  unmet :
      (i : ℕ) (stack met cs : List ℕ)
      → Met (i ∷ stack) met
      → All (IsChild g i) cs
      → (v : ℕ) → has v cs ≡ true
      → has v met ≡ false
  unmet i stack met cs h down v e = elim (Bool-cases (has v met)) [
    | inr y ↦ y
    | inl y ↦
        let (m, at, up, r) = All-has (IsChild g i) cs v down e in
        let off = (h.origin v m y at r).1 in
        absurd (ground (arith, ap (λ j. has j (i ∷ stack)) up, ==-refl i))
  ]

  extract_loop_total :
      (fuel : ℕ) (stack met : List ℕ) (p : Policy)
      → Met stack met
      → length g.nodes + length stack ≤ fuel + length met
      → (q : Policy) × (extract_loop fuel g stack p ≡ some q)
  unfolding extract_loop
  extract_loop_total fuel [] met p h enough = (p, refl)
  extract_loop_total zero (i ∷ stack) met p h enough =
      absurd (omega (arith, Distinct-length (length g.nodes) met h.distinct h.inside))
  extract_loop_total (suc fuel) (i ∷ stack) met p h enough =
      let lt =
        All-has (λ v. v < length g.nodes) met i h.inside (h.queued i (ground (arith, ==-refl i))) in
      let (n, at) = get_elem?_total g.nodes i lt in
      let placed = tree i n at in
      let (entered, e) = policy_entry_total i n p at in
      let (stack', met', e', h', z) =
        push_children_total i n.type n.children stack met placed.down placed.distinct
          (unmet i stack met n.children h placed.down) (popped i stack met h) in
      let (q, e'') = extract_loop_total fuel stack' met' entered h' (omega (arith, z)) in
      (q, extract_loop_step g i n stack stack' p entered fuel at e e' ∙ e'')

-- In a tree whose root id is that of a root node, the extraction ends within the fuel that it is
-- given, which is one round for each node: a policy is returned.
pub extract_policy_total :
    (g : Graph) (n : Node)
    → IsTree g
    → get_elem? g.nodes g.root ≡ some n
    → n.id ≡ g.root
    → n.root ≡ true
    → (p : Policy) × (extract_policy g ≡ some p)
unfolding extract_policy get_root_node
extract_policy_total g n tree at id root =
    let start : Met g tree (n.id ∷ []) (n.id ∷ []) = record {
      distinct = (refl, tt);
      apart = (refl, tt);
      inside = (omega (arith, id, lt-length_of_get_elem? g.nodes g.root at), tt);
      queued = λ v e. e;
      origin = λ v m e at' r.
          let q : g.root ≡ v = sym id ∙ (==_iff n.id v).0 (ground arith) in
          let same : n ≡ m = some-injective n m (sym at ∙ ap (get_elem? g.nodes) q ∙ at') in
          absurd (ground (arith, ap (λ (x : Node). x.root) same));
    } in
    let (p, e) =
      extract_loop_total g tree (length g.nodes) (n.id ∷ []) (n.id ∷ []) (Policy.init true) start
        (omega arith) in
    (p, rw at e)
