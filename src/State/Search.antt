-- ===== src/State/Search.antt =====
-- The search along the relations of one agent, State::get_designated_world_reachables, against
-- reachability.
use mathlib.Core.Path.{subst}
use mathlib.Core.Option.{some-injective}
use mathlib.Core.List.{reverse, reverse-cons}
use r2dtu_attention.Common.{
  ℕ, zero, suc, ◌+◌, ◌≤◌, ◌≡◌, ◌↔◌, ◌⊎◌, refl, ◌∙◌, ap, sym, true, false, ◌==◌, ==_iff, ==-refl,
  List, [], ◌∷◌, inl, inr, arith, length, any-append, some, Bool-cases, get_elem?, has, Distinct,
}
use r2dtu_attention.State.{
  State, WorldRelation, relates, visit, search_loop, get_designated_world_reachables,
}
use r2dtu_attention.State.Visits.{
  Reach, here, step, unvisited, unvisited-le, visit-visited, visit-frontier, visit-work,
  All-IsTarget,
}

-- World v is reached from a world of `start` along the relations.
module _ (rels : List WorldRelation) (start : List ℕ) where
  -- What holds between the rounds of the loop.
  record Inv (frontier visited : List ℕ) : Type 0 where
    started : (v : ℕ) → has v start ≡ true → has v visited ≡ true
    queued : (v : ℕ) → has v frontier ≡ true → has v visited ≡ true
    sound : (v : ℕ) → has v visited ≡ true → Reach rels start v
    closed :
        (u v : ℕ)
        → has u visited ≡ true
        → relates u v rels ≡ true
        → (has u frontier ≡ true) ⊎ (has v visited ≡ true)

  abbrev next : ℕ → List ℕ → List ℕ → List ℕ × List ℕ
  next w frontier visited = visit w rels (frontier, visited)

  Inv-next_closed :
      (w : ℕ) (frontier visited : List ℕ)
      → Inv (w ∷ frontier) visited
      → (u v : ℕ) → has u (next w frontier visited).1 ≡ true
      → relates u v rels ≡ true
      → (has u (next w frontier visited).0 ≡ true) ⊎ (has v (next w frontier visited).1 ≡ true)
  Inv-next_closed w frontier visited h u v s e = elim (Bool-cases (w == u)) [
    | inl q ↦
        let same : relates w v rels ≡ relates u v rels =
          ap (λ x. relates x v rels) ((==_iff w u).0 q) in
        inr (rw (visit-visited w v rels frontier visited, same, e) (ground arith))
    | inr q ↦ ground (
      arith,
      h.closed u v,
      visit-visited w v rels frontier visited,
      visit-visited w u rels frontier visited,
      visit-frontier w u rels frontier visited,
    )
  ]

  Inv-next :
      (w : ℕ) (frontier visited : List ℕ)
      → Inv (w ∷ frontier) visited
      → Inv (next w frontier visited).0 (next w frontier visited).1
  Inv-next w frontier visited h = record {
    started = λ v s. rw (visit-visited w v rels frontier visited) (ground (arith, h.started v s));
    queued = λ v q. ground (
      arith,
      visit-visited w v rels frontier visited,
      visit-frontier w v rels frontier visited,
      h.queued v,
    );
    sound = λ v s. elim (Bool-cases (has v visited)) [
      | inl old ↦ h.sound v old
      | inr new ↦
          step (h.sound w (h.queued w (ground (arith, ==-refl w))))
            (ground (arith, visit-visited w v rels frontier visited))
    ];
    closed = Inv-next_closed w frontier visited h;
  }

  -- With fuel for every world that is or comes on the frontier the loop ends, and its invariant holds.
  search_loop-Inv :
      (fuel : ℕ) (frontier visited : List ℕ)
      → length frontier + unvisited rels visited ≤ fuel
      → Inv frontier visited
      → (ws : List ℕ) × (search_loop fuel rels frontier visited ≡ some ws) × Inv [] ws
  unfolding search_loop
  search_loop-Inv fuel [] visited m h = (visited, refl, h)
  search_loop-Inv zero (w ∷ frontier) visited m h = absurd (omega arith)
  search_loop-Inv (suc fuel) (w ∷ frontier) visited m h =
      search_loop-Inv fuel (next w frontier visited).0 (next w frontier visited).1
        (omega (arith, visit-work rels w rels frontier visited (All-IsTarget rels)))
        (Inv-next w frontier visited h)

  complete : (ws : List ℕ) → Inv [] ws → (v : ℕ) → Reach rels start v → has v ws ≡ true
  complete ws h v (here s) = h.started v s
  complete ws h v (step {u} r e) = elim (h.closed u v (complete ws h u r) e) [
    | inl f ↦ cc
    | inr s ↦ s
  ]

-- The visited worlds stay distinct.
visit-Distinct :
    (w : ℕ) (rels : List WorldRelation) (frontier visited : List ℕ)
    → Distinct visited
    → Distinct (visit w rels (frontier, visited)).1
unfolding visit
visit-Distinct w [] frontier visited d = d
visit-Distinct w (r ∷ rels) frontier visited d = ground (
  arith,
  visit-Distinct w rels frontier visited d,
  λ (new : has r.world_to visited ≡ false).
      visit-Distinct w rels (r.world_to ∷ frontier) (r.world_to ∷ visited) (new, d),
)

pub search_loop-Distinct :
    (fuel : ℕ) (rels : List WorldRelation) (frontier visited ws : List ℕ)
    → Distinct visited
    → search_loop fuel rels frontier visited ≡ some ws
    → Distinct ws
unfolding search_loop
search_loop-Distinct fuel rels [] visited ws d e = subst Distinct (some-injective _ _ e) d
search_loop-Distinct zero rels (w ∷ frontier) visited ws d e = cc
search_loop-Distinct (suc fuel) rels (w ∷ frontier) visited ws d e =
    search_loop-Distinct fuel rels (visit w rels (frontier, visited)).0
      (visit w rels (frontier, visited)).1 ws (visit-Distinct w rels frontier visited d) e

pub has-reverse : (v : ℕ) (ws : List ℕ) → has v (reverse ws) ≡ has v ws
has-reverse v [] = refl
has-reverse v (w ∷ ws) =
    ap (has v) (reverse-cons w ws)
    ∙ any-append (λ x. x == v) (reverse ws) (w ∷ [])
    ∙ ground (arith, has-reverse v ws)

-- A search from `start`, as both operations make it.
pub search_loop-Reach :
    (rels : List WorldRelation) (start visited : List ℕ)
    → ((v : ℕ) → has v visited ≡ has v start)
    → (ws : List ℕ) × (search_loop (length start + length rels) rels start visited ≡ some ws)
      × ((v : ℕ) → (has v ws ≡ true) ↔ Reach rels start v)
search_loop-Reach rels start visited same =
    let begin : Inv rels start start visited = record {
      started = λ v s. same v ∙ s;
      queued = λ v s. same v ∙ s;
      sound = λ v s. here (sym (same v) ∙ s);
      closed = λ u v s e. inl (sym (same u) ∙ s);
    } in
    let (ws, e, h) =
      search_loop-Inv rels start (length start + length rels) start visited
        (omega (arith, unvisited-le rels visited)) begin in
    (ws, e, λ v. (h.sound v, complete rels start ws h v))

pub Reach-mono :
    (rels : List WorldRelation) (s t : List ℕ) (v : ℕ)
    → ((u : ℕ) → has u s ≡ true → has u t ≡ true)
    → Reach rels s v
    → Reach rels t v
Reach-mono rels s t v h (here e) = here (h v e)
Reach-mono rels s t v h (step {u} r e) = step (Reach-mono rels s t u h r) e

-- For an agent of the state the search ends, and it returns exactly the worlds that the agent's
-- relations reach from a designated world.
pub get_designated_world_reachables-Reach :
    (s : State) (agent : ℕ) (rels : List WorldRelation)
    → get_elem? s.indistinguishability_relation agent ≡ some rels
    → (ws : List ℕ) × (get_designated_world_reachables s agent ≡ some ws)
      × ((v : ℕ) → (has v ws ≡ true) ↔ Reach rels s.designated_worlds v)
unfolding get_designated_world_reachables
get_designated_world_reachables-Reach s agent rels e =
    let start = reverse s.designated_worlds in
    let (ws, q, h) = search_loop-Reach rels start start (λ v. refl) in
    let back = λ (u : ℕ). has-reverse u s.designated_worlds in
    (
      reverse ws,
      rw (e, q),
      λ v. (
        λ k.
            Reach-mono rels start s.designated_worlds v (λ u x. sym (back u) ∙ x)
              ((h v).0 (sym (has-reverse v ws) ∙ k)),
        λ r.
            has-reverse v ws
            ∙ (h v).1 (Reach-mono rels s.designated_worlds start v (λ u x. back u ∙ x) r),
      ),
    )
