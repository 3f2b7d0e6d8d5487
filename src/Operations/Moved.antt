-- ===== src/Operations/Moved.antt =====
-- perform_perspective_shift: the loops over the relations.
use r2dtu_attention.Common.{
  ℕ, suc, ◌+◌, ◌<◌, ◌≡◌, refl, ◌∙◌, ap, Bool, true, ◌&&◌, ◌==◌, ==_iff, ==-refl, List, [], ◌∷◌, inl,
  inr, arith, length, any, any-cong, some, none, Option, fold_steps, Bool-cases, get_elem?,
  get_elem?_total, has, Distinct, range_from, All-range_from, has-range_from, lt→ltb, Option-cases,
  All-unit, has_at,
}
use r2dtu_attention.State.{State, WorldRelation, relates}
use r2dtu_attention.State.Valid.{IsValid}
use r2dtu_attention.State.Edges.{
  edge, Adds, Adds-nothing, Adds-weaken, add_indistinguishability_relation-Adds, fold_steps-Adds,
}
use r2dtu_attention.Operations.{shift_relation, shift_agent, lookup_id}
use r2dtu_attention.Operations.Shift.{
  renaming, lookup_id-renaming, copies, shifted, length-copies, shifted-IsValid,
}

pub position_of :
    (ws : List ℕ) (w : ℕ) → has w ws ≡ true → (k : ℕ) × (get_elem? ws k ≡ some w) × (k < length ws)
position_of [] w h = cc
position_of (v ∷ ws) w h = elim (Bool-cases (v == w)) [
  | inl e ↦ (0, ap some ((==_iff v w).0 e), omega arith)
  | inr e ↦ let (k, q, l) = position_of ws w (rw e at h) in (suc k, q, omega arith)
]

abbrev pub or_empty : Option (List WorldRelation) → List WorldRelation
or_empty none = []
or_empty (some rels) = rels

module _ (state : State) (valid : IsValid state) (visited order : List ℕ)
    (same : (v : ℕ) → has v order ≡ has v visited) (distinct : Distinct order) where
  abbrev pub new_id : ℕ → ℕ
  new_id w = lookup_id (renaming [] 0 order) w

  pub new_id_at : (k w : ℕ) → get_elem? order k ≡ some w → new_id w ≡ k
  new_id_at k w h =
      let z : 0 + k ≡ k = omega arith in lookup_id-renaming [] 0 k order w distinct h ∙ z

  pub new_id-lt : (w : ℕ) → has w visited ≡ true → new_id w < length (copies state 0 order)
  new_id-lt w h =
      let (k, q, l) = position_of order w (same w ∙ h) in
      omega (arith, new_id_at k w q, length-copies state 0 order)

  -- The edge that a relation of the agent leaves in the new state.
  abbrev pub kept : WorldRelation → ℕ → ℕ → Bool
  kept r a b =
      (has r.world_from visited && has r.world_to visited)
      && ((new_id r.world_from == a) && (new_id r.world_to == b))

  pub shift_relation-Adds :
      (agent : ℕ)
      → agent < state.number_of_agents
      → (s : State) (r : WorldRelation) → IsValid s
      → s.number_of_agents ≡ state.number_of_agents
      → s.worlds ≡ copies state 0 order
      → (t : State) × (shift_relation state visited (renaming [] 0 order) agent s r ≡ some t)
        × Adds (λ i a b. (agent == i) && kept r a b) s t
  unfolding shift_relation
  shift_relation-Adds agent h s r v n w =
      elim (Bool-cases (has r.world_from visited && has r.world_to visited)) [
        | inl y ↦
            let (t, e, added) =
              add_indistinguishability_relation-Adds s agent (new_id r.world_from)
                (new_id r.world_to) v (omega arith)
                (omega (arith, ap length w, new_id-lt r.world_from (ground arith)))
                (omega (arith, ap length w, new_id-lt r.world_to (ground arith))) in
            (t, rw y e, Adds-weaken _ _ s t (λ i a b. rw y) added)
        | inr n' ↦
            (s, rw n', Adds-weaken _ _ s s (λ i a b. rw n' (ground arith)) (Adds-nothing s v))
      ]

  abbrev pub relations_of : ℕ → List WorldRelation
  relations_of agent = or_empty (get_elem? state.indistinguishability_relation agent)

  pub any-and :
      (c : Bool) (rels : List WorldRelation) (a b : ℕ)
      → any (λ r. c && kept r a b) rels ≡ (c && any (λ r. kept r a b) rels)
  any-and c [] a b = ground arith
  any-and c (r ∷ rels) a b = ground (arith, any-and c rels a b)

  pub shift_agent-Adds :
      (s : State) (agent : ℕ)
      → agent < state.number_of_agents
      → IsValid s
      → s.number_of_agents ≡ state.number_of_agents
      → s.worlds ≡ copies state 0 order
      → (t : State) × (shift_agent state visited (renaming [] 0 order) s agent ≡ some t)
        × Adds (λ i a b. (agent == i) && any (λ r. kept r a b) (relations_of agent)) s t
  unfolding shift_agent
  shift_agent-Adds s agent h v n w =
      let (rels, e) =
        get_elem?_total state.indistinguishability_relation agent (omega (arith, valid.agents)) in
      let (t, q, added) =
        fold_steps-Adds (shift_relation state visited (renaming [] 0 order) agent)
          (λ r i a b. (agent == i) && kept r a b) (λ r. Unit {0}) state.number_of_agents
          (copies state 0 order) (λ s r _. shift_relation-Adds agent h s r) s rels (All-unit rels) v
          n w in
      (t, rw e q, Adds-weaken _ _ s t (λ i a b. rw e (any-and (agent == i) rels a b)) added)

  -- A world that was visited got the new id k exactly if it is the one at position k.
  pub new_id_iff :
      (x k w : ℕ) → get_elem? order k ≡ some w → (has x visited && (new_id x == k)) ≡ (x == w)
  new_id_iff x k w h = elim (Bool-cases (x == w)) [
    | inl e ↦
        let q = (==_iff x w).0 e in
        rw (q, ← same w, has_at order k w h, new_id_at k w h, ==-refl k, ==-refl w)
    | inr n ↦ elim (Bool-cases (has x visited)) [
      | inl y ↦
          let (j, at, l) = position_of order x (same x ∙ y) in
          rw (n, y, new_id_at j x at) (ground arith)
      | inr y ↦ rw (n, y)
    ]
  ]

  pub kept_at :
      (k l w v : ℕ)
      → get_elem? order k ≡ some w
      → get_elem? order l ≡ some v
      → (r : WorldRelation) → kept r k l ≡ (r.world_from == w && r.world_to == v)
  kept_at k l w v hk hl r =
      ground (arith, new_id_iff r.world_from k w hk, new_id_iff r.world_to l v hl)

  pub any-agent :
      (i : ℕ) (agents : List ℕ) (a b : ℕ)
      → any (λ agent. (agent == i) && any (λ r. kept r a b) (relations_of agent)) agents
        ≡ (has i agents && any (λ r. kept r a b) (relations_of i))
  any-agent i [] a b = refl
  any-agent i (agent ∷ agents) a b = elim (Bool-cases (agent == i)) [
    | inl e ↦
        rw (e, ap relations_of ((==_iff agent i).0 e)) (ground (arith, any-agent i agents a b))
    | inr e ↦ rw e (ground (arith, any-agent i agents a b))
  ]

  pub relates-relations_of : (i w v : ℕ) → relates w v (relations_of i) ≡ edge state i w v
  relates-relations_of i w v =
      elim (Option-cases (get_elem? state.indistinguishability_relation i)) [
        | inl e ↦ rw e
        | inr (rels, e) ↦ rw e
      ]

  pub shift_agents-Adds :
      (t : State) × (fold_steps
          (shift_agent state visited (renaming [] 0 order))
          (shifted state order)
          (range_from 0 state.number_of_agents)
        ≡ some t)
      × Adds
          (λ i a b.
            any
              (λ agent. (agent == i) && any (λ r. kept r a b) (relations_of agent))
              (range_from 0 state.number_of_agents))
          (shifted state order)
          t
  shift_agents-Adds =
      fold_steps-Adds (shift_agent state visited (renaming [] 0 order))
        (λ agent i a b. (agent == i) && any (λ r. kept r a b) (relations_of agent))
        (λ agent. agent < state.number_of_agents) state.number_of_agents (copies state 0 order)
        shift_agent-Adds (shifted state order) (range_from 0 state.number_of_agents)
        (All-range_from state.number_of_agents 0 state.number_of_agents (omega arith))
        (shifted-IsValid state order) refl refl

  pub edge-kept :
      (i k l w v : ℕ)
      → i < state.number_of_agents
      → get_elem? order k ≡ some w
      → get_elem? order l ≡ some v
      → any
          (λ agent. (agent == i) && any (λ r. kept r k l) (relations_of agent))
          (range_from 0 state.number_of_agents)
        ≡ edge state i w v
  edge-kept i k l w v h hk hl =
      any-agent i (range_from 0 state.number_of_agents) k l
      ∙ rw
          (
            has-range_from state.number_of_agents 0 i (omega arith),
            lt→ltb i (0 + state.number_of_agents) (omega arith),
          )
          (any-cong _ _ (relations_of i) (kept_at k l w v hk hl) ∙ relates-relations_of i w v)
