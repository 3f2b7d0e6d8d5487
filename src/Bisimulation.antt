-- ===== src/Bisimulation.antt =====
-- Pepper_Planner/Pepper_Planner/Bisimulation_Context.{hpp,cpp}: the partition of the worlds of two
-- states into blocks, by which the planner compares them. The library leaves open in which order the
-- blocks of the valuations come (`arrange`), and how many blocks the vector can hold before it moves
-- its elements (`capacity`); a move in the loop over the blocks is undefined behaviour, `none` here.
pub mod Blocks
use Prim.Native.String.{compare}
use text.Mathlib.Text.{is_le}
use text.Mathlib.Text
use mathlib.Core.Bool.{not}
use r2dtu_attention.Common.{
  ℕ, zero, suc, Bool, true, false, ◌&&◌, ◌||◌, Option, none, some, String, List, [], ◌∷◌, ◌++◌, map,
  ◌==◌, if◌then◌else◌, length, get_elem?, set, keep, any, every, fold, fold_steps, range_from, ltb,
  ◌>>=◌,
}
use r2dtu_attention.Common.Texts.{◌<>◌}
use r2dtu_attention.World.{World}
use r2dtu_attention.State.{State, WorldRelation}
use r2dtu_attention.State
use r2dtu_attention.Operations.{lookup_id}

-- A world of the merged list, with the flags that the maps hold for its id.
pub record MergedWorld : Type 0 where
  pub id : ℕ
  pub true_propositions : List String
  pub is_from_state1 : Bool
  pub is_designated : Bool

-- The worlds of one state at the end of the list, and the map from their old ids to their new ones.
unfoldable pub merge_world :
    Bool → List MergedWorld × List (ℕ × ℕ) → World → List MergedWorld × List (ℕ × ℕ)
merge_world first (worlds, mapping) world = (
  worlds
      ++ record {
        id = length worlds;
        true_propositions = world.true_propositions;
        is_from_state1 = first;
        is_designated = false;
      }
        ∷ [],
  (world.id, length worlds) ∷ mapping,
)

-- is_world_designated[old_to_new_world[w]] = true
unfoldable pub designate : List (ℕ × ℕ) → List MergedWorld → ℕ → List MergedWorld
unfolding lookup_id
designate mapping worlds w =
    map
      (λ (m : MergedWorld).
        if m.id == lookup_id mapping w then (record m { is_designated = true }) else m)
      worlds

unfoldable pub create_merged_worlds_list :
    State → State → List MergedWorld × List (ℕ × ℕ) × List (ℕ × ℕ)
unfolding merge_world designate
create_merged_worlds_list state1 state2 =
    let (worlds1, mapping1) = fold (merge_world true) ([], []) state1.worlds in
    let (worlds2, mapping2) = fold (merge_world false) (worlds1, []) state2.worlds in
    let worlds3 = fold (designate mapping1) worlds2 state1.designated_worlds in
    (fold (designate mapping2) worlds3 state2.designated_worlds, mapping1, mapping2)

-- The edges of one agent, from both states.
unfoldable pub rename : List (ℕ × ℕ) → WorldRelation → ℕ × ℕ
unfolding lookup_id
rename mapping r = (lookup_id mapping r.world_from, lookup_id mapping r.world_to)

unfoldable pub create_merged_relations_list :
    State → State → List (ℕ × ℕ) → List (ℕ × ℕ) → List ℕ → Option (List (List (ℕ × ℕ)))
unfolding rename State.get_indistinguishability_relations
create_merged_relations_list state1 state2 mapping1 mapping2 [] = some []
create_merged_relations_list state1 state2 mapping1 mapping2 (agent ∷ agents) = do
  rels1 ← State.get_indistinguishability_relations state1 agent
  rels2 ← State.get_indistinguishability_relations state2 agent
  rest ← create_merged_relations_list state1 state2 mapping1 mapping2 agents
  some ((map (rename mapping1) rels1 ++ map (rename mapping2) rels2) ∷ rest)

-- indistinguishability_relation[agent][world]
unfoldable pub successors : List (ℕ × ℕ) → ℕ → List ℕ
successors [] w = []
successors ((from, to) ∷ edges) w =
    if from == w then to ∷ successors edges w else successors edges w

-- std::sort of texts
unfoldable pub insert_text : String → List String → List String
insert_text s [] = s ∷ []
insert_text s (t ∷ ts) = if is_le (compare s t) then s ∷ t ∷ ts else t ∷ insert_text s ts

unfoldable pub sort_texts : List String → List String
unfolding insert_text
sort_texts [] = []
sort_texts (s ∷ ss) = insert_text s (sort_texts ss)

unfoldable pub convert_propositions_to_string : List String → String
unfolding sort_texts
convert_propositions_to_string propositions = fold (λ s t. s <> t) "" (sort_texts propositions)

-- valuation_partitions[valuation].push_back(id)
unfoldable pub add_to_partition : List (String × List ℕ) → String → ℕ → List (String × List ℕ)
add_to_partition [] valuation id = (valuation, id ∷ []) ∷ []
add_to_partition ((key, ids) ∷ parts) valuation id =
    if Text.◌==◌ key valuation
    then (key, ids ++ id ∷ []) ∷ parts
    else (key, ids) ∷ add_to_partition parts valuation id

-- The blocks, and the block of each world.
pub record Partition : Type 0 where
  pub blocks : List (List ℕ)
  pub world_to_block : List (ℕ × ℕ)

-- blocks.emplace_back() filled with the worlds.
unfoldable pub add_block : Partition → List ℕ → Partition
add_block p worlds = record {
  blocks = p.blocks ++ worlds ∷ [];
  world_to_block = fold (λ m w. (w, length p.blocks) ∷ m) p.world_to_block worlds;
}

unfoldable pub partition_into_valuation_blocks :
    (List (List ℕ) → List (List ℕ)) → List MergedWorld → Partition
unfolding add_to_partition convert_propositions_to_string add_block
partition_into_valuation_blocks arrange worlds =
    let parts =
      fold
        (λ parts (w : MergedWorld).
          add_to_partition parts (convert_propositions_to_string w.true_propositions) w.id)
        [] worlds in
    fold add_block (record { blocks = []; world_to_block = [] })
      (arrange (map (λ part. part.1) parts))

-- std::sort of numbers, and std::unique
unfoldable pub insert_number : ℕ → List ℕ → List ℕ
insert_number a [] = a ∷ []
insert_number a (b ∷ bs) = if ltb b a then b ∷ insert_number a bs else a ∷ b ∷ bs

unfoldable pub sort_numbers : List ℕ → List ℕ
unfolding insert_number
sort_numbers [] = []
sort_numbers (a ∷ cs) = insert_number a (sort_numbers cs)

unfoldable pub unique : List ℕ → List ℕ
unique [] = []
unique (a ∷ []) = a ∷ []
unique (a ∷ b ∷ cs) = if a == b then unique (b ∷ cs) else a ∷ unique (b ∷ cs)

unfoldable pub same_numbers : List ℕ → List ℕ → Bool
same_numbers [] [] = true
same_numbers (a ∷ cs) (b ∷ bs) = a == b && same_numbers cs bs
same_numbers _ _ = false

unfoldable pub are_relations_equal : Partition → List ℕ → List ℕ → Bool
unfolding lookup_id sort_numbers unique same_numbers
are_relations_equal p original_relations1 original_relations2 =
    same_numbers (unique (sort_numbers (map (lookup_id p.world_to_block) original_relations1)))
      (unique (sort_numbers (map (lookup_id p.world_to_block) original_relations2)))

-- Some agent tells the world from the base by the blocks of their successors.
unfoldable pub is_different : Partition → List (List (ℕ × ℕ)) → ℕ → ℕ → Bool
unfolding are_relations_equal successors
is_different p relations base_world w =
    any (λ edges. not (are_relations_equal p (successors edges base_world) (successors edges w)))
      relations

module _ (relations : List (List (ℕ × ℕ))) (capacity : ℕ) where
  -- Each call puts the worlds that are like the first into a new block; the others are fewer.
  unfoldable pub move_worlds_to_new_block : ℕ → Partition → List ℕ → Option Partition
  unfolding is_different add_block
  move_worlds_to_new_block fuel p [] = some p
  move_worlds_to_new_block zero p (base_world ∷ worlds) = none
  move_worlds_to_new_block (suc fuel) p (base_world ∷ worlds) =
      let same = base_world ∷ keep (λ w. not (is_different p relations base_world w)) worlds in
      let different = keep (is_different p relations base_world) worlds in
      let rest = move_worlds_to_new_block fuel (add_block p same) different in
      if ltb (length p.blocks) capacity then rest else none

  -- The body of the loop over the blocks, and whether one was split.
  unfoldable pub split_block : Partition × Bool → ℕ → Option (Partition × Bool)
  unfolding is_different move_worlds_to_new_block
  split_block (p, changed) k = get_elem? p.blocks k >>= elim [
    | [] ↦ some (p, changed)
    | base_world ∷ worlds ↦
        let block = base_world ∷ worlds in
        let moved = keep (is_different p relations base_world) block in
        let left = keep (λ w. not (is_different p relations base_world w)) block in
        let kept : Partition = record p { blocks = set p.blocks k left } in
        move_worlds_to_new_block (length moved) kept moved >>= λ q.
        some (q, changed || ltb 0 (length moved))
  ]

  -- A round that splits a block makes one more block, so a round for each world is enough.
  unfoldable pub partition_into_relations_blocks : ℕ → Partition → Option Partition
  unfolding split_block
  partition_into_relations_blocks zero p = none
  partition_into_relations_blocks (suc fuel) p =
      fold_steps split_block (p, false) (range_from 0 (length p.blocks)) >>= λ r. elim r.1 [
        | true ↦ partition_into_relations_blocks fuel r.0
        | false ↦ some r.0
      ]

-- Whether some world of the block passes the test.
unfoldable pub some_world : List MergedWorld → (MergedWorld → Bool) → List ℕ → Bool
some_world worlds test block =
    any (λ w. elim (get_elem? worlds w) [ some m ↦ test m | none ↦ false ]) block

-- A block has worlds of both states, and designated ones of both or of neither.
unfoldable pub is_block_shared : List MergedWorld → List ℕ → Bool
unfolding some_world
is_block_shared worlds block =
    let from1 = some_world worlds (λ m. m.is_from_state1) block in
    let from2 = some_world worlds (λ m. not m.is_from_state1) block in
    let designated1 = some_world worlds (λ m. m.is_from_state1 && m.is_designated) block in
    let designated2 = some_world worlds (λ m. not m.is_from_state1 && m.is_designated) block in
    not (
      not from1
      || not from2
      || (designated1 && not designated2)
      || (not designated1 && designated2))

unfoldable pub is_bisimilar : (List (List ℕ) → List (List ℕ)) → ℕ → State → State → Option Bool
unfolding create_merged_worlds_list create_merged_relations_list partition_into_valuation_blocks
    partition_into_relations_blocks is_block_shared
is_bisimilar arrange capacity state1 state2 =
    let (worlds, mapping1, mapping2) = create_merged_worlds_list state1 state2 in
    let partitioned =
      create_merged_relations_list state1 state2 mapping1 mapping2
        (range_from 0 state1.number_of_agents)
      >>= λ relations.
          partition_into_relations_blocks relations capacity (suc (length worlds))
            (partition_into_valuation_blocks arrange worlds) in
    if state1.number_of_agents == state2.number_of_agents
    then (partitioned >>= λ p. some (every (is_block_shared worlds) p.blocks))
    else some false

-- DEL_Operations: are_states_bisimilar
unfoldable pub are_states_bisimilar :
    (List (List ℕ) → List (List ℕ)) → ℕ → State → State → Option Bool
unfolding is_bisimilar
are_states_bisimilar arrange capacity state1 state2 = is_bisimilar arrange capacity state1 state2
