-- ===== src/World/Laws.antt =====
-- The propositions of a world as a set: what adding and removing leave in it.
use mathlib.Core.Bool.{not}
use r2dtu_attention.Common.{◌≡◌, ◌&&◌, ◌||◌, String, List, [], ◌∷◌, fold, arith}
use r2dtu_attention.Common.Sets.{contains, insert, erase, contains-insert, contains-erase}
use r2dtu_attention.World.{World, add_true_propositions, remove_true_propositions}

contains-fold-insert :
    (s ps : List String) (p : String)
    → contains (fold insert s ps) p ≡ (contains s p || contains ps p)
unfolding contains
contains-fold-insert s [] p = ground arith
contains-fold-insert s (q ∷ ps) p =
    ground (arith, contains-fold-insert (insert s q) ps p, contains-insert s q p)

contains-fold-erase :
    (s ps : List String) (p : String)
    → contains (fold erase s ps) p ≡ (contains s p && not (contains ps p))
unfolding contains
contains-fold-erase s [] p = ground arith
contains-fold-erase s (q ∷ ps) p =
    ground (arith, contains-fold-erase (erase s q) ps p, contains-erase s q p)

pub add_true_propositions_lem :
    (w : World) (ps : List String) (p : String)
    → contains (add_true_propositions w ps).true_propositions p
      ≡ (contains w.true_propositions p || contains ps p)
unfolding add_true_propositions
add_true_propositions_lem w ps p = contains-fold-insert w.true_propositions ps p

pub remove_true_propositions_lem :
    (w : World) (ps : List String) (p : String)
    → contains (remove_true_propositions w ps).true_propositions p
      ≡ (contains w.true_propositions p && not (contains ps p))
unfolding remove_true_propositions
remove_true_propositions_lem w ps p = contains-fold-erase w.true_propositions ps p
