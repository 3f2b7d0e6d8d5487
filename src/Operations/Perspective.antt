-- ===== src/Operations/Perspective.antt =====
-- perform_perspective_shift: the submodel of the worlds that the agent considers possible, with every
-- one of its worlds designated.
use mathlib.Core.List.{reverse}
use r2dtu_attention.Common.{
  ℕ, ◌+◌, ◌<◌, ◌≡◌, ◌↔◌, refl, ◌∙◌, ap, sym, Bool, true, ◌||◌, ◌==◌, ==_iff, List, [], ◌∷◌, inl,
  inr, arith, length, All, some, Bool-cases, get_elem?, get_elem?_total, has, Distinct,
  has-range_from, lt→ltb, All-get_elem?, has_at, All-of_has, All-has, fold, All-of_has, All-has,
  fold,
}
use r2dtu_attention.World.{World}
use r2dtu_attention.State.{State, WorldRelation, relates}
use r2dtu_attention.State.Valid.{IsValid, InRange}
use r2dtu_attention.State.Edges.{edge, Adds, no_edges}
use r2dtu_attention.State.Search.{Reach-mono, has-reverse, search_loop-Reach, search_loop-Distinct}
use r2dtu_attention.State.Visits.{Reach, here, step}
use r2dtu_attention.Operations.{perspective_visited, perform_perspective_shift, insert_id}
use r2dtu_attention.Operations.Shift.{
  copy, propositions_of, shifted, shift_worlds-shifted, length-copies, get_elem?-copies,
}
use r2dtu_attention.Operations.Moved.{shift_agents-Adds, edge-kept}

-- The position of a world in a list that has it.
relates-InRange :
    (n u v : ℕ) (rels : List WorldRelation) → All (InRange n) rels → relates u v rels ≡ true → v < n
relates-InRange n u v [] h e = cc
relates-InRange n u v (r ∷ rels) h e = ground (arith, h.0, relates-InRange n u v rels h.1)

pub Reach-lt :
    (state : State) (agent : ℕ) (rels : List WorldRelation)
    → IsValid state
    → get_elem? state.indistinguishability_relation agent ≡ some rels
    → (v : ℕ) → Reach rels state.designated_worlds v
    → v < length state.worlds
Reach-lt state agent rels valid e v (here h) =
    All-has _ state.designated_worlds v valid.designated h
Reach-lt state agent rels valid e v (step {u} r h) =
    relates-InRange _ u v rels
      (All-get_elem? _ state.indistinguishability_relation agent rels valid.related e) h

has-insert_ids : (v : ℕ) (acc ws : List ℕ) → has v (fold insert_id acc ws) ≡ (has v acc || has v ws)
unfolding insert_id
has-insert_ids v acc [] = ground arith
has-insert_ids v acc (w ∷ ws) = elim (Bool-cases (has w acc)) [
  | inl old ↦ rw old (elim (Bool-cases (w == v)) [
    | inl e ↦
        let here : has v acc ≡ true = ap (λ x. has x acc) (sym ((==_iff w v).0 e)) ∙ old in
        rw (e, has-insert_ids v acc ws, here)
    | inr e ↦ rw e (has-insert_ids v acc ws)
  ])
  | inr new ↦ rw new (has-insert_ids v (w ∷ acc) ws ∙ ground arith)
]

Distinct-insert_ids : (acc ws : List ℕ) → Distinct acc → Distinct (fold insert_id acc ws)
unfolding insert_id
Distinct-insert_ids acc [] d = d
Distinct-insert_ids acc (w ∷ ws) d = elim (Bool-cases (has w acc)) [
  | inl old ↦ rw old (Distinct-insert_ids acc ws d)
  | inr new ↦ rw new (Distinct-insert_ids (w ∷ acc) ws (new, d))
]

-- The search of the shift visits each world that the agent considers possible, once.
perspective_visited-Reach :
    (state : State) (agent : ℕ) (rels : List WorldRelation)
    → get_elem? state.indistinguishability_relation agent ≡ some rels
    → (ws : List ℕ) × (perspective_visited state agent ≡ some ws)
      × Distinct ws
      × ((v : ℕ) → (has v ws ≡ true) ↔ Reach rels state.designated_worlds v)
unfolding perspective_visited
perspective_visited-Reach state agent rels e =
    let start = reverse state.designated_worlds in
    let begun = fold insert_id [] state.designated_worlds in
    let back = λ (v : ℕ). has-reverse v state.designated_worlds in
    let (ws, q, h) =
      search_loop-Reach rels start begun
        (λ v. has-insert_ids v [] state.designated_worlds ∙ sym (back v)) in
    (
      ws,
      rw (e, q),
      search_loop-Distinct _ rels start begun ws (Distinct-insert_ids [] state.designated_worlds tt)
          q,
      λ v. (
        λ k. Reach-mono rels start state.designated_worlds v (λ u x. sym (back u) ∙ x) ((h v).0 k),
        λ r. (h v).1 (Reach-mono rels state.designated_worlds start v (λ u x. back u ∙ x) r),
      ),
    )

-- `t` is the perspective of an agent with relations `rels` on `state`, its worlds in the order `ws`.
pub record IsPerspective (state : State) (rels : List WorldRelation) (ws : List ℕ) (t : State)
    : Type 0 where
  -- The worlds kept are those that the agent's relations reach from a designated world, each once.
  pub reached : (v : ℕ) → (has v ws ≡ true) ↔ Reach rels state.designated_worlds v
  pub distinct : Distinct ws
  pub valid : IsValid t
  pub agents : t.number_of_agents ≡ state.number_of_agents
  pub size : length t.worlds ≡ length ws
  pub worlds :
      (k w : ℕ)
      → get_elem? ws k ≡ some w
      → (u old : World) × (get_elem? t.worlds k ≡ some u)
        × (get_elem? state.worlds w ≡ some old)
        × (u.id ≡ k)
        × (u.true_propositions ≡ old.true_propositions)
  pub designated : (k : ℕ) → k < length ws → has k t.designated_worlds ≡ true
  pub edges :
      (i k l w v : ℕ)
      → i < state.number_of_agents
      → get_elem? ws k ≡ some w
      → get_elem? ws l ≡ some v
      → edge t i k l ≡ edge state i w v

module _ (state : State) (visited order : List ℕ) (same : (v : ℕ) → has v order ≡ has v visited)
    (distinct : Distinct order) (rels : List WorldRelation) where
  Adds-IsPerspective :
      All (λ w. w < length state.worlds) order
      → ((v : ℕ) → (has v order ≡ true) ↔ Reach rels state.designated_worlds v)
      → {new : ℕ → ℕ → ℕ → Bool} (t : State)
      → ((i k l w v : ℕ)
          → i < state.number_of_agents
          → get_elem? order k ≡ some w
          → get_elem? order l ≡ some v
          → new i k l ≡ edge state i w v)
      → Adds new (shifted state order) t
      → IsPerspective state rels order t
  Adds-IsPerspective inside reached t kept_edges added = record {
    reached = reached;
    distinct = distinct;
    valid = added.valid;
    agents = added.agents;
    size = ap length added.worlds ∙ length-copies state 0 order;
    worlds = λ k w h.
        let (old, e) =
          get_elem?_total state.worlds w (All-has _ order w inside (has_at order k w h)) in
        let z : 0 + k ≡ k = omega arith in
        (
          copy state k w,
          old,
          ap (λ ws. get_elem? ws k) added.worlds
              ∙ get_elem?-copies state 0 k order w h
              ∙ ap (λ j. some (copy state j w)) z,
          e,
          refl,
          ap propositions_of e,
        );
    designated = λ k h.
        ap (has k) added.designated
        ∙ has-range_from (length order) 0 k (omega arith)
        ∙ lt→ltb k (0 + length order) (omega arith);
    edges = λ i k l w v hi hk hl.
        added.edges i k l
        ∙ rw (no_edges state.number_of_agents i k l) (kept_edges i k l w v hi hk hl);
  }

-- For an agent of a valid state, and whatever order the set of visited ids is iterated in, the shift
-- is defined: it is the submodel of the worlds that the agent considers possible, all of them
-- designated, with the propositions and the indistinguishability that they had.
pub perform_perspective_shift-IsPerspective :
    (state : State) (order : List ℕ → List ℕ) (agent : ℕ) (rels : List WorldRelation)
    → IsValid state
    → get_elem? state.indistinguishability_relation agent ≡ some rels
    → ((ws : List ℕ) (v : ℕ) → has v (order ws) ≡ has v ws)
    → ((ws : List ℕ) → Distinct ws → Distinct (order ws))
    → (t : State) × (ws : List ℕ) × (perform_perspective_shift state order agent ≡ some t)
      × IsPerspective state rels ws t
unfolding perform_perspective_shift
perform_perspective_shift-IsPerspective state order agent rels valid e same keeps =
    let (visited, q, d, h) = perspective_visited-Reach state agent rels e in
    let ws = order visited in
    let inside =
      All-of_has (λ w. w < length state.worlds) ws
        (λ w m. Reach-lt state agent rels valid e w ((h w).0 (sym (same visited w) ∙ m))) in
    let (t, r, added) = shift_agents-Adds state valid visited ws (same visited) (keeps visited d) in
    (
      t,
      ws,
      rw (q, shift_worlds-shifted state [] ws inside) r,
      Adds-IsPerspective state visited ws (same visited) (keeps visited d) rels inside
          (λ v. (λ m. (h v).0 (sym (same visited v) ∙ m), λ r. same visited v ∙ (h v).1 r)) t
          (edge-kept state valid visited ws (same visited) (keeps visited d)) added,
    )
