-- ===== src/Bisimulation/Blocks.antt =====
-- Bisimulation_Context::are_relations_equal: the comparison of two lists of worlds by their blocks.
use r2dtu_attention.Common.{
  ℕ, ◌<◌, ◌≤◌, ◌≡◌, ◌↔◌, refl, ◌∙◌, sym, ap, true, false, ◌||◌, List, [], ◌∷◌, map, inl, inr, arith,
  All, All-map, has, ltb, ◌==◌, ==_iff, ==-refl, Bool-cases,
}
use r2dtu_attention.Operations.{lookup_id}
use r2dtu_attention.Bisimulation.{
  Partition, insert_number, sort_numbers, unique, same_numbers, are_relations_equal,
}

has-insert_number : (v a : ℕ) (bs : List ℕ) → has v (insert_number a bs) ≡ (a == v || has v bs)
unfolding insert_number
has-insert_number v a [] = refl
has-insert_number v a (b ∷ bs) = ground (arith, has-insert_number v a bs)

has-sort_numbers : (v : ℕ) (cs : List ℕ) → has v (sort_numbers cs) ≡ has v cs
unfolding sort_numbers
has-sort_numbers v [] = refl
has-sort_numbers v (a ∷ cs) =
    has-insert_number v a (sort_numbers cs) ∙ ap (◌||◌ (a == v)) (has-sort_numbers v cs)

has-unique : (v : ℕ) (cs : List ℕ) → has v (unique cs) ≡ has v cs
unfolding unique
has-unique v [] = refl
has-unique v (a ∷ []) = refl
has-unique v (a ∷ b ∷ cs) = ground (arith, has-unique v (b ∷ cs))

abbrev Sorted : List ℕ → Type 0
Sorted [] = Unit
Sorted (a ∷ cs) = All (λ c. a ≤ c) cs × Sorted cs

abbrev Ascending : List ℕ → Type 0
Ascending [] = Unit
Ascending (a ∷ cs) = All (λ c. a < c) cs × Ascending cs

All-insert_number :
    (P : ℕ → Type 0) (a : ℕ) (bs : List ℕ) → P a → All P bs → All P (insert_number a bs)
unfolding insert_number
All-insert_number P a [] p h = (p, tt)
All-insert_number P a (b ∷ bs) p h = elim (Bool-cases (ltb b a)) [
  | inl y ↦ rw (y, All) (h.0, All-insert_number P a bs p h.1)
  | inr y ↦ rw (y, All) (p, h)
]

insert_number-Sorted : (a : ℕ) (bs : List ℕ) → Sorted bs → Sorted (insert_number a bs)
unfolding insert_number
insert_number-Sorted a [] h = (tt, tt)
insert_number-Sorted a (b ∷ bs) h = elim (Bool-cases (ltb b a)) [
  | inl y ↦
      rw (y, Sorted) (All-insert_number _ a bs (ground arith) h.0, insert_number-Sorted a bs h.1)
  | inr y ↦
      let le : a ≤ b = ground arith in rw (y, Sorted) ((le, All-map bs (λ c q. omega arith) h.0), h)
]

sort_numbers-Sorted : (cs : List ℕ) → Sorted (sort_numbers cs)
unfolding sort_numbers
sort_numbers-Sorted [] = tt
sort_numbers-Sorted (a ∷ cs) = insert_number-Sorted a (sort_numbers cs) (sort_numbers-Sorted cs)

All-unique : (P : ℕ → Type 0) (cs : List ℕ) → All P cs → All P (unique cs)
unfolding unique
All-unique P [] h = h
All-unique P (a ∷ []) h = h
All-unique P (a ∷ b ∷ cs) h = elim (Bool-cases (a == b)) [
  | inl y ↦ rw y (All-unique P (b ∷ cs) h.1)
  | inr y ↦ rw (y, All) (h.0, All-unique P (b ∷ cs) h.1)
]

unique-Ascending : (cs : List ℕ) → Sorted cs → Ascending (unique cs)
unfolding unique
unique-Ascending [] h = tt
unique-Ascending (a ∷ []) h = (tt, tt)
unique-Ascending (a ∷ b ∷ cs) h = elim (Bool-cases (a == b)) [
  | inl y ↦ rw y (unique-Ascending (b ∷ cs) h.1)
  | inr y ↦
      let lt : a < b = ground (arith, h.0.0) in
      rw (y, Ascending)
        (
          All-unique _ (b ∷ cs) (lt, All-map cs (λ c q. omega arith) h.1.0),
          unique-Ascending (b ∷ cs) h.1,
        )
]

below-head : (a : ℕ) (cs : List ℕ) → All (λ c. a < c) cs → has a cs ≡ false
below-head a [] h = refl
below-head a (c ∷ cs) h = ground (arith, h.0, below-head a cs h.1)

same_numbers-members : (v : ℕ) (cs ds : List ℕ) → same_numbers cs ds ≡ true → has v cs ≡ has v ds
unfolding same_numbers
same_numbers-members v [] [] h = refl
same_numbers-members v (a ∷ cs) (b ∷ ds) h = ground (arith, same_numbers-members v cs ds)
same_numbers-members v [] (b ∷ ds) h = cc
same_numbers-members v (a ∷ cs) [] h = cc

above-head : (a v : ℕ) (cs : List ℕ) → All (λ c. a < c) cs → has v cs ≡ true → a < v
above-head a v [] h e = cc
above-head a v (c ∷ cs) h e = elim (Bool-cases (c == v)) [
  | inl y ↦ ground (arith, h.0)
  | inr y ↦ above-head a v cs h.1 (rw y at e)
]

members-same_numbers :
    (cs ds : List ℕ)
    → Ascending cs
    → Ascending ds
    → ((v : ℕ) → has v cs ≡ has v ds)
    → same_numbers cs ds ≡ true
unfolding same_numbers
members-same_numbers [] [] hc hd h = refl
members-same_numbers [] (b ∷ ds) hc hd h = absurd (ground (arith, h b, ==-refl b))
members-same_numbers (a ∷ cs) [] hc hd h = absurd (ground (arith, h a, ==-refl a))
members-same_numbers (a ∷ cs) (b ∷ ds) hc hd h =
    let heads : a ≡ b = elim (Bool-cases (a == b)) [
      | inl y ↦ (==_iff a b).0 y
      | inr y ↦
          let z : (b == a) ≡ false = ground arith in
          let above = above-head b a ds hd.0 (ground (arith, h a, ==-refl a, z)) in
          let below = above-head a b cs hc.0 (ground (arith, h b, ==-refl b, y)) in
          absurd (omega (arith, above, below))
    ] in
    let tails = λ (v : ℕ). elim (Bool-cases (a == v)) as (λ _. has v cs ≡ has v ds) [
      | inl y ↦
          let q = (==_iff a v).0 y in
          ap (λ c. has c cs) (sym q)
          ∙ below-head a cs hc.0
          ∙ sym (ap (λ c. has c ds) (sym q ∙ heads) ∙ below-head b ds hd.0)
      | inr y ↦ ground (arith, h v, heads)
    ] in
    ground (arith, heads, members-same_numbers cs ds hc.1 hd.1 tails)

-- Two lists of worlds are found equal exactly if they reach the same blocks, whatever their order and
-- their repetitions are.
pub are_relations_equal_lem :
    (p : Partition) (relations1 relations2 : List ℕ)
    → (are_relations_equal p relations1 relations2 ≡ true) ↔ (
        (block : ℕ)
        → has block (map (lookup_id p.world_to_block) relations1)
          ≡ has block (map (lookup_id p.world_to_block) relations2))
unfolding are_relations_equal
are_relations_equal_lem p relations1 relations2 =
    let cs = map (lookup_id p.world_to_block) relations1 in
    let ds = map (lookup_id p.world_to_block) relations2 in
    let back = λ (v : ℕ) (es : List ℕ). has-unique v (sort_numbers es) ∙ has-sort_numbers v es in
    (
      λ e v. sym (back v cs) ∙ same_numbers-members v _ _ e ∙ back v ds,
      λ h.
          members-same_numbers (unique (sort_numbers cs)) (unique (sort_numbers ds))
            (unique-Ascending (sort_numbers cs) (sort_numbers-Sorted cs))
            (unique-Ascending (sort_numbers ds) (sort_numbers-Sorted ds))
            (λ v. back v cs ∙ h v ∙ sym (back v ds)),
    )
