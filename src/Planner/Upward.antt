-- ===== src/Planner/Upward.antt =====
-- The loops of Planner::propogate_solved_node and propogate_dead_end_node, which climb to the root.
use r2dtu_attention.Common.{
  ℕ, zero, suc, ◌<◌, ◌≡◌, ◌∙◌, ap, Bool, true, false, some, inl, inr, arith, get_elem?, length,
  get_elem?_total, Bool-cases, if◌then◌else◌, Option,
}
use r2dtu_attention.Graph.{
  Graph, Node, set_node, set_dead, set_solved, check_if_dead, check_if_solved, get_node,
}
use r2dtu_attention.Planner.{
  propagate_dead, propogate_dead_end_node, propagate_solved, propogate_solved_node,
}
use r2dtu_attention.Planner.Tree.{IsTree}
use r2dtu_attention.Planner.Children.{
  Fits, solved-Fits, dead-Fits, check_if_solved_total, check_if_dead_total,
}

abbrev climb : Node → Bool → Graph → Option Graph → Option Graph
climb n b next onward = elim b [
  | true ↦ elim n.root [ true ↦ some next | false ↦ onward ]
  | false ↦ some next
]

climb_stops :
    (n : Node) (b : Bool) (next : Graph) (onward : Option Graph)
    → b ≡ false
    → climb n b next onward ≡ some next
climb_stops n b next onward y = rw y

climb_root :
    (n : Node) (b : Bool) (next : Graph) (onward : Option Graph)
    → n.root ≡ true
    → climb n b next onward ≡ some next
climb_root n b next onward z = ground arith

climb_on :
    (n : Node) (b : Bool) (next : Graph) (onward : Option Graph)
    → b ≡ true
    → n.root ≡ false
    → climb n b next onward ≡ onward
climb_on n b next onward y z = ground arith

propagate_solved_step :
    (fuel : ℕ) (g next : Graph) (k : ℕ) (n : Node) (b : Bool)
    → get_elem? g.nodes k ≡ some n
    → check_if_solved g k n ≡ some (next, b)
    → propagate_solved (suc fuel) g k ≡ climb n b next (propagate_solved fuel next n.parent)
unfolding propagate_solved get_node
propagate_solved_step fuel g next k n b at e = rw (at, e)

propagate_solved_total :
    (fuel : ℕ) (g : Graph) (k : ℕ)
    → IsTree g
    → k < length g.nodes
    → k < fuel
    → (h : Graph) × (propagate_solved fuel g k ≡ some h) × Fits g h
unfolding propagate_solved
propagate_solved_total zero g k tree lt enough = elim enough [ ]
propagate_solved_total (suc fuel) g k tree lt enough =
    let (n, at) = get_elem?_total g.nodes k lt in
    let (next, b, e, fits) = check_if_solved_total g k n tree at in
    let onward = propagate_solved fuel next n.parent in
    let step = propagate_solved_step fuel g next k n b at e in
    elim (Bool-cases b) [
      | inr y ↦ (next, step ∙ climb_stops n b next onward y, fits)
      | inl y ↦ elim (Bool-cases n.root) [
        | inl z ↦ (next, step ∙ climb_root n b next onward z, fits)
        | inr z ↦
            let above = (tree k n at).up z in
            let (h, q, more) =
              propagate_solved_total fuel next n.parent fits.0 (omega (arith, fits.1))
                (omega arith) in
            (h, step ∙ climb_on n b next onward y z ∙ q, (more.0, more.1 ∙ fits.1))
      ]
    ]

propagate_dead_step :
    (fuel : ℕ) (g next : Graph) (k : ℕ) (n : Node) (b : Bool)
    → get_elem? g.nodes k ≡ some n
    → check_if_dead g k n ≡ some (next, b)
    → propagate_dead (suc fuel) g k ≡ climb n b next (propagate_dead fuel next n.parent)
unfolding propagate_dead get_node
propagate_dead_step fuel g next k n b at e = rw (at, e)

propagate_dead_total :
    (fuel : ℕ) (g : Graph) (k : ℕ)
    → IsTree g
    → k < length g.nodes
    → k < fuel
    → (h : Graph) × (propagate_dead fuel g k ≡ some h) × Fits g h
unfolding propagate_dead
propagate_dead_total zero g k tree lt enough = elim enough [ ]
propagate_dead_total (suc fuel) g k tree lt enough =
    let (n, at) = get_elem?_total g.nodes k lt in
    let (next, b, e, fits) = check_if_dead_total g k n tree at in
    let onward = propagate_dead fuel next n.parent in
    let step = propagate_dead_step fuel g next k n b at e in
    elim (Bool-cases b) [
      | inr y ↦ (next, step ∙ climb_stops n b next onward y, fits)
      | inl y ↦ elim (Bool-cases n.root) [
        | inl z ↦ (next, step ∙ climb_root n b next onward z, fits)
        | inr z ↦
            let above = (tree k n at).up z in
            let (h, q, more) =
              propagate_dead_total fuel next n.parent fits.0 (omega (arith, fits.1))
                (omega arith) in
            (h, step ∙ climb_on n b next onward y z ∙ q, (more.0, more.1 ∙ fits.1))
      ]
    ]

propogate_solved_node_step :
    (g : Graph) (k : ℕ) (n : Node)
    → get_elem? g.nodes k ≡ some n
    → propogate_solved_node g k ≡ (
        if n.root
        then some (set_node g k (set_solved n))
        else propagate_solved (length g.nodes) (set_node g k (set_solved n)) n.parent)
unfolding propogate_solved_node get_node
propogate_solved_node_step g k n at = rw at

-- In a tree, marking a node as solved and telling its ancestors ends within the fuel that it is
-- given, and leaves a tree with as many nodes.
pub propogate_solved_node_total :
    (g : Graph) (k : ℕ)
    → IsTree g
    → k < length g.nodes
    → (h : Graph) × (propogate_solved_node g k ≡ some h)
      × IsTree h
      × (length h.nodes ≡ length g.nodes)
propogate_solved_node_total g k tree lt =
    let (n, at) = get_elem?_total g.nodes k lt in
    let marked = set_node g k (set_solved n) in
    let fits = solved-Fits g k n tree at in
    let step = propogate_solved_node_step g k n at in
    let onward = propagate_solved (length g.nodes) marked n.parent in
    elim (Bool-cases n.root) [
      | inl y ↦ (marked, step ∙ ap (λ b. if b then some marked else onward) y, fits.0, fits.1)
      | inr y ↦
          let above = (tree k n at).up y in
          let (h, e, more) =
            propagate_solved_total (length g.nodes) marked n.parent fits.0 (omega (arith, fits.1))
              (omega arith) in
          (h, step ∙ ap (λ b. if b then some marked else onward) y ∙ e, more.0, more.1 ∙ fits.1)
    ]

propogate_dead_end_node_step :
    (g : Graph) (k : ℕ) (n : Node)
    → get_elem? g.nodes k ≡ some n
    → propogate_dead_end_node g k ≡ (
        if n.root
        then some (set_node g k (set_dead n))
        else propagate_dead (length g.nodes) (set_node g k (set_dead n)) n.parent)
unfolding propogate_dead_end_node get_node
propogate_dead_end_node_step g k n at = rw at

-- In a tree, marking a node as dead and telling its ancestors ends within the fuel that it is given,
-- and leaves a tree with as many nodes.
pub propogate_dead_end_node_total :
    (g : Graph) (k : ℕ)
    → IsTree g
    → k < length g.nodes
    → (h : Graph) × (propogate_dead_end_node g k ≡ some h)
      × IsTree h
      × (length h.nodes ≡ length g.nodes)
propogate_dead_end_node_total g k tree lt =
    let (n, at) = get_elem?_total g.nodes k lt in
    let marked = set_node g k (set_dead n) in
    let fits = dead-Fits g k n tree at in
    let step = propogate_dead_end_node_step g k n at in
    let onward = propagate_dead (length g.nodes) marked n.parent in
    elim (Bool-cases n.root) [
      | inl y ↦ (marked, step ∙ ap (λ b. if b then some marked else onward) y, fits.0, fits.1)
      | inr y ↦
          let above = (tree k n at).up y in
          let (h, e, more) =
            propagate_dead_total (length g.nodes) marked n.parent fits.0 (omega (arith, fits.1))
              (omega arith) in
          (h, step ∙ ap (λ b. if b then some marked else onward) y ∙ e, more.0, more.1 ∙ fits.1)
    ]
