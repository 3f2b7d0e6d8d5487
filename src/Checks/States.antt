-- ===== src/Checks/States.antt =====
-- Tests of the operations on states and formulas, and their theorems at the small model.
use r2dtu_attention.Common.{
  ℕ, ◌≡◌, ◌↔◌, refl, Bool, true, some, List, [], ◌∷◌, arith, has, any, get_elem?,
}
use r2dtu_attention.Common.{map}
use r2dtu_attention.Operations.{lookup_id}
use r2dtu_attention.Bisimulation.{Partition, are_relations_equal}
use r2dtu_attention.Bisimulation.Blocks.{are_relations_equal_lem}
use r2dtu_attention.World.{World}
use r2dtu_attention.State.{
  State, get_designated_world_reachables, add_indistinguishability_relation, set_global_for_agent,
}
use r2dtu_attention.State.Edges.{Adds, single, add_indistinguishability_relation-Adds}
use r2dtu_attention.State.Search.{get_designated_world_reachables-Reach}
use r2dtu_attention.State.Visits.{Reach}
use r2dtu_attention.Common.Sets.{contains}
use r2dtu_attention.Formula.{valuate, blank, f_and, f_not, f_or, f_bot, f_prop}
use r2dtu_attention.Formula.Meaning.{Tree, nil, cons, meaning, encode}
use r2dtu_attention.Formula.Built.{valuate-encode}
use r2dtu_attention.Operations.{
  perform_product_update, perform_perspective_shift, split_into_global_states, is_action_applicable,
}
use r2dtu_attention.Operations.Product.{IsProduct, perform_product_update-IsProduct}
use r2dtu_attention.Operations.Perspective.{IsPerspective, perform_perspective_shift-IsPerspective}
use r2dtu_attention.Operations.Split.{
  IsGlobal, AreGlobal, set_global_for_agent-IsGlobal, split_into_global_states-AreGlobal,
}
use r2dtu_attention.Operations.Applicable.{is_action_applicable_lem}
use r2dtu_attention.Operations.Worlds.{survivors}
use r2dtu_attention.Checks.Models.{
  unsure, unsure-IsValid, look, look_holds, look-Evaluates, arrow, two_worlds,
}

-- p and not (q or bottom)
abbrev tree : Tree
tree = Tree.and (
    cons (Tree.prop "p") (cons (Tree.not (Tree.or (cons (Tree.prop "q") (cons Tree.bot nil)))) nil))

tree_in_p : valuate ("p" ∷ []) (encode (blank 7) tree).0 ≡ some true
unfolding valuate encode f_and f_not f_or f_bot f_prop contains
tree_in_p = refl

valuate-encode_example :
    valuate ("p" ∷ []) (encode (blank 7) tree).0 ≡ some (meaning ("p" ∷ []) tree)
valuate-encode_example = valuate-encode ("p" ∷ []) (blank 7) tree

reachables_of_unsure : get_designated_world_reachables unsure 1 ≡ some (0 ∷ 1 ∷ [])
unfolding get_designated_world_reachables
reachables_of_unsure = refl

get_designated_world_reachables-Reach_example :
    (ws : List ℕ) × (get_designated_world_reachables unsure 1 ≡ some ws)
    × ((v : ℕ)
        → (has v ws ≡ true) ↔ Reach (arrow 0 0 ∷ arrow 0 1 ∷ arrow 1 0 ∷ arrow 1 1 ∷ []) (0 ∷ []) v)
get_designated_world_reachables-Reach_example =
    get_designated_world_reachables-Reach unsure 1 _ refl

add_indistinguishability_relation-Adds_example :
    (t : State) × (add_indistinguishability_relation unsure 0 1 0 ≡ some t)
    × Adds (single 0 1 0) unsure t
add_indistinguishability_relation-Adds_example =
    add_indistinguishability_relation-Adds unsure 0 1 0 unsure-IsValid (omega arith) (omega arith)
      (omega arith)

set_global_for_agent-IsGlobal_example :
    (t : State) × (set_global_for_agent unsure 1 1 ≡ some t) × IsGlobal unsure 1 1 t
set_global_for_agent-IsGlobal_example =
    set_global_for_agent-IsGlobal unsure 1 1 unsure-IsValid (omega arith) (omega arith)

perform_product_update-IsProduct_example :
    (t : State) × (perform_product_update unsure look ≡ some t)
    × IsProduct unsure look (survivors look_holds look.events two_worlds) t
perform_product_update-IsProduct_example =
    perform_product_update-IsProduct look_holds unsure look unsure-IsValid (omega arith)
      look-Evaluates

perform_perspective_shift-IsPerspective_example :
    (t : State) × (ws : List ℕ) × (perform_perspective_shift unsure (λ vs. vs) 1 ≡ some t)
    × IsPerspective unsure (arrow 0 0 ∷ arrow 0 1 ∷ arrow 1 0 ∷ arrow 1 1 ∷ []) ws t
perform_perspective_shift-IsPerspective_example =
    perform_perspective_shift-IsPerspective unsure (λ vs. vs) 1 _ unsure-IsValid refl (λ ws v. refl)
      (λ ws d. d)

split_into_global_states-AreGlobal_example :
    (ts : List State) × (split_into_global_states unsure 1 ≡ some ts)
    × AreGlobal unsure 1 (0 ∷ []) ts
split_into_global_states-AreGlobal_example =
    split_into_global_states-AreGlobal unsure 1 unsure-IsValid (omega arith)

is_action_applicable_lem_example :
    (b : Bool) × (is_action_applicable unsure look ≡ some b)
    × ((b ≡ true) ↔ (
        (w : ℕ) (u : World)
        → Reach (arrow 0 0 ∷ arrow 0 1 ∷ arrow 1 0 ∷ arrow 1 1 ∷ []) (0 ∷ []) w
        → get_elem? two_worlds w ≡ some u
        → any (look_holds u) look.events ≡ true))
is_action_applicable_lem_example =
    is_action_applicable_lem look_holds unsure look _ unsure-IsValid refl look-Evaluates

-- Worlds 0 and 2 are in block 0, world 1 in block 1.
abbrev two_blocks : Partition
two_blocks = record {
  blocks = (0 ∷ 2 ∷ []) ∷ (1 ∷ []) ∷ [];
  world_to_block = (0, 0) ∷ (1, 1) ∷ (2, 0) ∷ [];
}

are_relations_equal_lem_example :
    (are_relations_equal two_blocks (0 ∷ 1 ∷ []) (1 ∷ 2 ∷ 0 ∷ []) ≡ true) ↔ (
      (block : ℕ)
      → has block (map (lookup_id two_blocks.world_to_block) (0 ∷ 1 ∷ []))
        ≡ has block (map (lookup_id two_blocks.world_to_block) (1 ∷ 2 ∷ 0 ∷ [])))
are_relations_equal_lem_example = are_relations_equal_lem two_blocks (0 ∷ 1 ∷ []) (1 ∷ 2 ∷ 0 ∷ [])
