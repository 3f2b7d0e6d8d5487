-- ===== src/World.antt =====
-- Pepper_Planner/Pepper_Planner/World.{hpp,cpp}: an id and the set of the propositions true there.
pub mod Laws
use r2dtu_attention.Common.{ℕ, Bool, Option, String, List, [], ◌∷◌, fold}
use r2dtu_attention.Common.Sets.{insert, erase}
use r2dtu_attention.Formula.{Formula}
use r2dtu_attention.Formula

pub record World : Type 0 where
  pub id : ℕ
  pub true_propositions : List String

-- World(id)
abbrev pub fresh : ℕ → World
fresh id = record { id = id; true_propositions = [] }

unfoldable pub create_copy : World → ℕ → World
create_copy w id = record { id = id; true_propositions = w.true_propositions }

unfoldable pub add_true_propositions : World → List String → World
unfolding insert
add_true_propositions w propositions = record w {
  true_propositions = fold insert w.true_propositions propositions;
}

unfoldable pub remove_true_propositions : World → List String → World
unfolding erase
remove_true_propositions w propositions = record w {
  true_propositions = fold erase w.true_propositions propositions;
}

unfoldable pub valuate : World → Formula → Option Bool
unfolding Formula.valuate
valuate w f = Formula.valuate w.true_propositions f
