-- ===== src/State/Edges.antt =====
-- The relations of a State as a Boolean function, and loops whose rounds add relations.
use r2dtu_attention.Common.{
  replicate, zero, suc, ℕ, ◌<◌, ◌≡◌, refl, ◌∙◌, Bool, false, ◌&&◌, ◌||◌, ◌==◌, ==_iff, ==-refl,
  List, [], ◌∷◌, ◌++◌, inl, inr, arith, length, set, any, any-append, get_elem?, All, some, none,
  Option, fold_steps, get_elem?_total, lt-length_of_get_elem?, All-append, All-get_elem?,
  get_elem?-set_self, get_elem?-set_ne, Bool-cases,
}
use r2dtu_attention.World.{World}
use r2dtu_attention.State.{
  State, WorldRelation, relates, is_one_reachable, add_indistinguishability_relation,
}
use r2dtu_attention.State.Valid.{IsValid, set_relations-IsValid}

abbrev pub relates? : ℕ → ℕ → Option (List WorldRelation) → Bool
relates? a b none = false
relates? a b (some rels) = relates a b rels

-- Agent i does not tell world b from world a.
abbrev pub edge : State → ℕ → ℕ → ℕ → Bool
edge s i a b = relates? a b (get_elem? s.indistinguishability_relation i)

pub is_one_reachable-edge :
    (s : State) (i a b : ℕ)
    → i < length s.indistinguishability_relation
    → is_one_reachable s i a b ≡ some (edge s i a b)
unfolding is_one_reachable
is_one_reachable-edge s i a b h =
    let (rels, e) = get_elem?_total s.indistinguishability_relation i h in rw e

-- `t` is the valid state that has the worlds and points of `s`, the edges of `s` and those of `new`.
pub record Adds (new : ℕ → ℕ → ℕ → Bool) (s t : State) : Type 0 where
  pub valid : IsValid t
  pub agents : t.number_of_agents ≡ s.number_of_agents
  pub worlds : t.worlds ≡ s.worlds
  pub designated : t.designated_worlds ≡ s.designated_worlds
  pub edges : (i a b : ℕ) → edge t i a b ≡ (edge s i a b || new i a b)

abbrev pub nothing : ℕ → ℕ → ℕ → Bool
nothing i a b = false

pub Adds-nothing : (s : State) → IsValid s → Adds nothing s s
Adds-nothing s v = record {
  valid = v;
  agents = refl;
  worlds = refl;
  designated = refl;
  edges = λ i a b. ground arith;
}

pub Adds-weaken :
    (f g : ℕ → ℕ → ℕ → Bool) (s t : State)
    → ((i a b : ℕ) → f i a b ≡ g i a b)
    → Adds f s t
    → Adds g s t
Adds-weaken f g s t e h = record {
  valid = h.valid;
  agents = h.agents;
  worlds = h.worlds;
  designated = h.designated;
  edges = λ i a b. ground (arith, h.edges i a b, e i a b);
}

abbrev pub single : ℕ → ℕ → ℕ → ℕ → ℕ → ℕ → Bool
single agent from to i a b = (agent == i) && ((from == a) && (to == b))

relates-append :
    (a b from to : ℕ) (rels : List WorldRelation)
    → relates a b (rels ++ record { world_from = from; world_to = to } ∷ [])
      ≡ (relates a b rels || ((from == a) && (to == b)))
relates-append a b from to rels =
    rw
      (any-append (λ (r : WorldRelation). r.world_from == a && r.world_to == b) rels
        (record { world_from = from; world_to = to } ∷ []))
      (ground arith)

edge-set :
    (rels : List (List WorldRelation)) (old : List WorldRelation) (agent from to i a b : ℕ)
    → get_elem? rels agent ≡ some old
    → relates? a b
        (get_elem? (set rels agent (old ++ record { world_from = from; world_to = to } ∷ [])) i)
      ≡ (relates? a b (get_elem? rels i) || single agent from to i a b)
edge-set rels old agent from to i a b h = elim (Bool-cases (agent == i)) [
  | inl e ↦
      let q = (==_iff agent i).0 e in
      let k = lt-length_of_get_elem? rels agent h in
      rw (← q, get_elem?-set_self rels agent _ k, h, ==-refl agent) (relates-append a b from to old)
  | inr e ↦ rw (get_elem?-set_ne rels agent i _ (λ q. ground arith)) (ground arith)
]

-- For an agent and two worlds of a valid state, a relation can be added. The state that is returned is valid, its agents, worlds
-- and designated worlds are those of the old one, and an agent relates world a to world b there exactly if it did before, or it is
-- the given agent, a the given world to relate from and b the one to relate to.
pub add_indistinguishability_relation-Adds :
    (s : State) (agent from to : ℕ)
    → IsValid s
    → agent < s.number_of_agents
    → from < length s.worlds
    → to < length s.worlds
    → (t : State) × (add_indistinguishability_relation s agent from to ≡ some t)
      × Adds (single agent from to) s t
unfolding add_indistinguishability_relation
add_indistinguishability_relation-Adds s agent from to v ha hf ht =
    let rels = s.indistinguishability_relation in
    let (old, e) = get_elem?_total rels agent (omega (arith, v.agents)) in
    let both = All-append _ old _ (All-get_elem? _ rels agent old v.related e) ((hf, ht), tt) in
    let next = old ++ record { world_from = from; world_to = to } ∷ [] in
    (
      record s { indistinguishability_relation = set rels agent next },
      rw e,
      record {
        valid = set_relations-IsValid s agent next v both;
        agents = refl;
        worlds = refl;
        designated = refl;
        edges = λ i a b. edge-set rels old agent from to i a b e;
      },
    )

module _ {ℓ κ} {A : Type ℓ} (f : State → A → Option State) (new : A → ℕ → ℕ → ℕ → Bool)
    (Q : A → Type κ) (agents : ℕ) (worlds : List World) where
  -- A loop whose rounds add edges adds those of all rounds.
  pub fold_steps-Adds :
      ((s : State) (x : A)
        → Q x
        → IsValid s
        → s.number_of_agents ≡ agents
        → s.worlds ≡ worlds
        → (t : State) × (f s x ≡ some t) × Adds (new x) s t)
      → (s : State) (xs : List A) → All Q xs
      → IsValid s
      → s.number_of_agents ≡ agents
      → s.worlds ≡ worlds
      → (t : State) × (fold_steps f s xs ≡ some t) × Adds (λ i a b. any (λ x. new x i a b) xs) s t
  unfolding fold_steps
  fold_steps-Adds keep s [] q v n w = (s, refl, Adds-nothing s v)
  fold_steps-Adds keep s (x ∷ xs) q v n w =
      let (t, e, h) = keep s x q.0 v n w in
      let (u, e', h') = fold_steps-Adds keep t xs q.1 h.valid (h.agents ∙ n) (h.worlds ∙ w) in
      (
        u,
        rw (e, fold_steps) e',
        record {
          valid = h'.valid;
          agents = h'.agents ∙ h.agents;
          worlds = h'.worlds ∙ h.worlds;
          designated = h'.designated ∙ h.designated;
          edges = λ i a b. ground (arith, h'.edges i a b, h.edges i a b);
        },
      )

pub no_edges : (n i a b : ℕ) → relates? a b (get_elem? (replicate n []) i) ≡ false
no_edges zero i a b = refl
no_edges (suc n) zero a b = refl
no_edges (suc n) (suc i) a b = no_edges n i a b
