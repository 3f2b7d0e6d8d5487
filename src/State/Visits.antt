-- ===== src/State/Visits.antt =====
-- One round of State::get_designated_world_reachables, and the measure that it makes smaller.
use mathlib.Core.Bool.{not}
use r2dtu_attention.Common.{
  ℕ, suc, ◌+◌, ◌<◌, ◌≤◌, ◌≡◌, ap, true, false, ◌&&◌, ◌||◌, ◌==◌, ==_iff, ==-refl, List, [], ◌∷◌,
  inl, inr, arith, length, any, All, All-map, Bool-cases, has, if◌then◌else◌,
}
use r2dtu_attention.State.{WorldRelation, relates, visit}

pub data Reach (rels : List WorldRelation) (start : List ℕ) : ℕ → Type 0 where
  here : {v : ℕ} → has v start ≡ true → Reach rels start v
  step : {u v : ℕ} → Reach rels start u → relates u v rels ≡ true → Reach rels start v

-- The relations whose end has not been visited.
abbrev pub unvisited : List WorldRelation → List ℕ → ℕ
unvisited [] visited = 0
unvisited (r ∷ rels) visited =
    if has r.world_to visited then unvisited rels visited else suc (unvisited rels visited)

pub unvisited-le :
    (rels : List WorldRelation) (visited : List ℕ) → unvisited rels visited ≤ length rels
unvisited-le [] visited = omega arith
unvisited-le (r ∷ rels) visited = ground (arith, unvisited-le rels visited)

abbrev pub IsTarget : List WorldRelation → ℕ → Type 0
IsTarget rels v = any (λ r. r.world_to == v) rels ≡ true

pub unvisited_mono :
    (rels : List WorldRelation) (visited : List ℕ) (v : ℕ)
    → unvisited rels (v ∷ visited) ≤ unvisited rels visited
unvisited_mono [] visited v = omega arith
unvisited_mono (r ∷ rels) visited v = ground (arith, unvisited_mono rels visited v)

pub unvisited-push :
    (rels : List WorldRelation) (visited : List ℕ) (v : ℕ)
    → IsTarget rels v
    → has v visited ≡ false
    → unvisited rels (v ∷ visited) < unvisited rels visited
unvisited-push [] visited v t h = cc
unvisited-push (r ∷ rels) visited v t h = elim (Bool-cases (r.world_to == v)) [
  | inl e ↦
      let q = (==_iff r.world_to v).0 e in
      rw (ap (λ u. has u visited) q, h) (ground (arith, unvisited_mono rels visited v))
  | inr e ↦ ground (arith, unvisited-push rels visited v)
]

-- One round: what `visit` does to the two lists.
pub visit-visited :
    (w v : ℕ) (rels : List WorldRelation) (frontier visited : List ℕ)
    → has v (visit w rels (frontier, visited)).1 ≡ (has v visited || relates w v rels)
unfolding visit
visit-visited w v [] frontier visited = ground arith
visit-visited w v (r ∷ rels) frontier visited = ground (
  arith,
  visit-visited w v rels frontier visited,
  visit-visited w v rels (r.world_to ∷ frontier) (r.world_to ∷ visited),
)

pub visit-frontier :
    (w v : ℕ) (rels : List WorldRelation) (frontier visited : List ℕ)
    → has v (visit w rels (frontier, visited)).0
      ≡ (has v frontier || (relates w v rels && not (has v visited)))
unfolding visit
visit-frontier w v [] frontier visited = ground arith
visit-frontier w v (r ∷ rels) frontier visited = ground (
  arith,
  visit-frontier w v rels frontier visited,
  visit-frontier w v rels (r.world_to ∷ frontier) (r.world_to ∷ visited),
)

-- Each world that a round puts on the frontier uses up a relation whose end was not visited.
pub visit-work :
    (all : List WorldRelation) (w : ℕ) (rels : List WorldRelation) (frontier visited : List ℕ)
    → All (λ r. IsTarget all r.world_to) rels
    → length (visit w rels (frontier, visited)).0
        + unvisited all (visit w rels (frontier, visited)).1
      ≤ length frontier + unvisited all visited
unfolding visit
visit-work all w [] frontier visited h = omega arith
visit-work all w (r ∷ rels) frontier visited h = ground (
  arith,
  h.0,
  unvisited-push all visited r.world_to,
  visit-work all w rels frontier visited h.1,
  visit-work all w rels (r.world_to ∷ frontier) (r.world_to ∷ visited) h.1,
)

pub IsTarget-cons :
    (r : WorldRelation) (rels all : List WorldRelation)
    → All (λ x. IsTarget all x.world_to) rels
    → All (λ x. IsTarget (r ∷ all) x.world_to) rels
IsTarget-cons r rels all = All-map rels λ x h. ground arith

pub All-IsTarget : (all : List WorldRelation) → All (λ r. IsTarget all r.world_to) all
All-IsTarget [] = tt
All-IsTarget (r ∷ rels) =
    (ground (arith, ==-refl r.world_to), IsTarget-cons r rels rels (All-IsTarget rels))
