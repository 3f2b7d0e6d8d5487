-- ===== src/State/Valid.antt =====
-- The invariant of a State: worlds stand at the position that is their id, the designated worlds
-- are distinct, every id is in range, and each agent has a list of relations.
use r2dtu_attention.Common.{
  ℕ, zero, suc, ◌+◌, ◌<◌, ◌≤◌, ◌≡◌, refl, List, [], ◌∷◌, ◌++◌, inl, inr, arith, length, set,
  replicate, has, get_elem?, All, All-append, All-map, All-set, Distinct, Distinct-append,
  length-append, length-set, length-replicate, some, get_elem?_total, Bool-cases,
}
use r2dtu_attention.World.{World}
use r2dtu_attention.World
use r2dtu_attention.State.{
  State, WorldRelation, init, create_world, create_world_from, write_world, add_designated_world,
  set_global_for_agent,
}

-- The worlds have the ids i, i + 1, …
abbrev pub Numbered : ℕ → List World → Type 0
Numbered i [] = Unit {0}
Numbered i (w ∷ ws) = (w.id ≡ i) × Numbered (suc i) ws

-- Both ends of the relation are ids of the first n worlds.
abbrev pub InRange : ℕ → WorldRelation → Type 0
InRange n r = (r.world_from < n) × (r.world_to < n)

pub record IsValid (s : State) : Type 0 where
  pub agents : length s.indistinguishability_relation ≡ s.number_of_agents
  pub numbered : Numbered 0 s.worlds
  pub designated : All (λ w. w < length s.worlds) s.designated_worlds
  pub distinct : Distinct s.designated_worlds
  pub related : All (All (InRange (length s.worlds))) s.indistinguishability_relation

pub Numbered-append :
    (i : ℕ) (ws : List World) (w : World)
    → Numbered i ws
    → w.id ≡ i + length ws
    → Numbered i (ws ++ w ∷ [])
Numbered-append i [] w h e = (omega arith, tt)
Numbered-append i (v ∷ ws) w h e = (h.0, Numbered-append (suc i) ws w h.1 (omega arith))

pub Numbered-set :
    (i k : ℕ) (ws : List World) (w : World) → Numbered i ws → w.id ≡ i + k → Numbered i (set ws k w)
Numbered-set i k [] w h e = tt
Numbered-set i zero (v ∷ ws) w h e = (omega arith, h.1)
Numbered-set i (suc k) (v ∷ ws) w h e = (h.0, Numbered-set (suc i) k ws w h.1 (omega arith))

pub Numbered-get_elem? :
    (i k : ℕ) (ws : List World) (w : World) → Numbered i ws → get_elem? ws k ≡ some w → w.id ≡ i + k
Numbered-get_elem? i k [] w h e = cc
Numbered-get_elem? i zero (v ∷ ws) w h e = ground arith
Numbered-get_elem? i (suc k) (v ∷ ws) w h e = omega (arith, Numbered-get_elem? (suc i) k ws w h.1 e)

InRange-mono :
    (m n : ℕ) (rels : List (List WorldRelation))
    → m ≤ n
    → All (All (InRange m)) rels
    → All (All (InRange n)) rels
InRange-mono m n rels h = All-map rels λ rs. All-map rs λ r p. omega arith

lt_mono : (m n : ℕ) (ws : List ℕ) → m ≤ n → All (λ w. w < m) ws → All (λ w. w < n) ws
lt_mono m n ws h = All-map ws λ w p. omega arith

pub All-replicate_nil : (n m : ℕ) → All (All (InRange n)) (replicate m [])
All-replicate_nil n zero = tt
All-replicate_nil n (suc m) = (tt, All-replicate_nil n m)

pub init-IsValid : (n : ℕ) → IsValid (init n)
unfolding init
init-IsValid n = record {
  agents = length-replicate n [];
  numbered = tt;
  designated = tt;
  distinct = tt;
  related = All-replicate_nil 0 n;
}

-- One more world under the next id.
push-IsValid :
    (s : State) (w : World)
    → IsValid s
    → w.id ≡ length s.worlds
    → IsValid (record s { worlds = s.worlds ++ w ∷ [] })
push-IsValid s w v e =
    let more : length s.worlds ≤ length (s.worlds ++ w ∷ []) =
      omega (arith, length-append s.worlds (w ∷ [])) in
    record {
      agents = v.agents;
      numbered = Numbered-append 0 s.worlds w v.numbered (omega arith);
      designated = lt_mono _ _ s.designated_worlds more v.designated;
      distinct = v.distinct;
      related = InRange-mono _ _ s.indistinguishability_relation more v.related;
    }

pub create_world-IsValid : (s : State) → IsValid s → IsValid (create_world s).0
unfolding create_world
create_world-IsValid s v = push-IsValid s (World.fresh (length s.worlds)) v refl

pub create_world_from-IsValid :
    (s : State) (w : World) → IsValid s → IsValid (create_world_from s w).0
unfolding create_world_from
create_world_from-IsValid s w v = push-IsValid s _ v refl

pub write_world-IsValid : (s : State) (w : World) → IsValid s → IsValid (write_world s w)
unfolding write_world
write_world-IsValid s w v =
    let same = length-set s.worlds w.id w in
    record {
      agents = v.agents;
      numbered = Numbered-set 0 w.id s.worlds w v.numbered (omega arith);
      designated = lt_mono _ _ s.designated_worlds (omega arith) v.designated;
      distinct = v.distinct;
      related = InRange-mono _ _ s.indistinguishability_relation (omega arith) v.related;
    }

pub add_designated_world-IsValid :
    (s : State) (w : ℕ) → IsValid s → w < length s.worlds → IsValid (add_designated_world s w)
unfolding add_designated_world
add_designated_world-IsValid s w v h = elim (Bool-cases (has w s.designated_worlds)) [
  | inl old ↦ rw old v
  | inr new ↦ rw new (record {
    agents = v.agents;
    numbered = v.numbered;
    designated = All-append _ s.designated_worlds (w ∷ []) v.designated (h, tt);
    distinct = Distinct-append s.designated_worlds w v.distinct new;
    related = v.related;
  })
]

-- The invariant where the relations of one agent are replaced.
pub set_relations-IsValid :
    (s : State) (agent : ℕ) (rels : List WorldRelation)
    → IsValid s
    → All (InRange (length s.worlds)) rels
    → IsValid (record s {
      indistinguishability_relation = set s.indistinguishability_relation agent rels;
    })
set_relations-IsValid s agent rels v h = record {
  agents = omega (arith, v.agents, length-set s.indistinguishability_relation agent rels);
  numbered = v.numbered;
  designated = v.designated;
  distinct = v.distinct;
  related = All-set _ s.indistinguishability_relation agent rels v.related h;
}

-- For an agent and a world of a valid state, set_global_for_agent returns a valid state.
pub set_global_for_agent-IsValid :
    (s : State) (agent w : ℕ)
    → IsValid s
    → agent < s.number_of_agents
    → w < length s.worlds
    → (t : State) × (set_global_for_agent s agent w ≡ some t) × IsValid t
unfolding set_global_for_agent
set_global_for_agent-IsValid s agent w v ha hw =
    let (rels, e) =
      get_elem?_total s.indistinguishability_relation agent (omega (arith, v.agents)) in
    let pointed : IsValid (record s { designated_worlds = w ∷ [] }) = record {
      agents = v.agents;
      numbered = v.numbered;
      designated = (hw, tt);
      distinct = (refl, tt);
      related = v.related;
    } in
    let rels' : List WorldRelation = record { world_from = w; world_to = w } ∷ [] in
    (
      record s {
        designated_worlds = w ∷ [];
        indistinguishability_relation = set s.indistinguishability_relation agent rels';
      },
      rw e,
      set_relations-IsValid (record s { designated_worlds = w ∷ [] }) agent rels' pointed
          ((hw, hw), tt),
    )
