-- ===== src/Planner/Runs.antt =====
-- Planner::find_policy: the rounds of the main loop from the first graph on.
use mathlib.Core.Path.{subst}
use mathlib.Core.Option.{some-injective}
use r2dtu_attention.Common.{
  ℕ, zero, suc, ◌≡◌, ◌⊎◌, refl, ◌∙◌, ap, true, some, List, [], ◌∷◌, inl, inr, arith, get_elem?, All,
  none-some,
}
use r2dtu_attention.Formula.{Formula}
use r2dtu_attention.State.{State}
use r2dtu_attention.Action.{Action}
use r2dtu_attention.Graph.{Graph, Node, or_node_of}
use r2dtu_attention.Policy.{Policy}
use r2dtu_attention.Planner.{Round, continue, finished, round, search_policy, find_policy}
use r2dtu_attention.Planner.Sound.{start-Inv}
use r2dtu_attention.Planner.Tree.{IsTree, Placed}
use r2dtu_attention.Planner.Ready.{IsStateOf, Ready, IsUsable, IsOrder}
use r2dtu_attention.Planner.Progress.{Sane, After, round_total}
use r2dtu_attention.Planner.Steps.{IsDefined}

-- The main loop has gone on for this many rounds, from one graph to the other.
pub data Rounds (order : List ℕ → List ℕ) (goal : Formula) (actions : List Action)
    : ℕ → Graph → Graph → Type 0 where
  started : {g : Graph} → Rounds order goal actions 0 g g
  more :
      {fuel : ℕ} {g h k : Graph}
      → round order goal actions g ≡ some (continue h)
      → Rounds order goal actions fuel h k
      → Rounds order goal actions (suc fuel) g k

-- The graph before the first round.
abbrev pub first_graph : ℕ → State → Graph
first_graph root s = record { root = root; frontier = 0 ∷ []; nodes = or_node_of s 0 0 true ∷ [] }

module _ (n : ℕ) (order : List ℕ → List ℕ) (goal : Formula) (actions : List Action)
    (ord : IsOrder order) (usable : All (IsUsable n) actions) (def : IsDefined goal) where
  search_policy_finished :
      (fuel : ℕ) (g : Graph) (p : Policy)
      → round order goal actions g ≡ some (finished p)
      → search_policy order goal (suc fuel) actions g ≡ some p
  unfolding search_policy
  search_policy_finished fuel g p e = rw e

  search_policy_onward :
      (fuel : ℕ) (g h : Graph)
      → round order goal actions g ≡ some (continue h)
      → search_policy order goal (suc fuel) actions g ≡ search_policy order goal fuel actions h
  unfolding search_policy
  search_policy_onward fuel g h e = rw e

  -- The search after a first round, if it is settled for one round less.
  round_onward :
      (fuel : ℕ) (g : Graph) (r : Round)
      → round order goal actions g ≡ some r
      → After n order goal actions ord usable def r
      → ((h : Graph)
          → Sane n order goal actions ord usable def h
          → ((p : Policy) × (search_policy order goal fuel actions h ≡ some p))
            ⊎ ((k : Graph) × Rounds order goal actions fuel h k))
      → ((p : Policy) × (search_policy order goal (suc fuel) actions g ≡ some p))
        ⊎ ((h : Graph) × Rounds order goal actions (suc fuel) g h)
  round_onward fuel g (finished p) e after rest = inl (p, search_policy_finished fuel g p e)
  round_onward fuel g (continue h) e after rest = elim (rest h after) [
    | inl (p, q) ↦ inl (p, search_policy_onward fuel g h e ∙ q)
    | inr (k, rounds) ↦ inr (k, more e rounds)
  ]

  search_policy-Rounds :
      (fuel : ℕ) (g : Graph)
      → Sane n order goal actions ord usable def g
      → ((p : Policy) × (search_policy order goal fuel actions g ≡ some p))
        ⊎ ((h : Graph) × Rounds order goal actions fuel g h)
  search_policy-Rounds zero g sane = inr (g, started)
  search_policy-Rounds (suc fuel) g sane =
      let (r, e, after) = round_total n order goal actions ord usable def g sane in
      round_onward fuel g r e after (search_policy-Rounds fuel)

  first-IsTree : (s : State) (root : ℕ) → IsTree (first_graph root s)
  first-IsTree s root zero x e =
      subst (Placed (first_graph root s) 0) (some-injective (or_node_of s 0 0 true) x e)
        (record { near = omega arith; up = λ r. cc; down = tt; distinct = tt })
  first-IsTree s root (suc k) x e = absurd (none-some e)

  first-Ready : (s : State) (root : ℕ) → IsStateOf n s → Ready n (first_graph root s)
  first-Ready s root good zero x e =
      subst (λ (y : Node). IsStateOf n y.state) (some-injective (or_node_of s 0 0 true) x e) good
  first-Ready s root good (suc k) x e = absurd (none-some e)

-- For a valid initial state of n agents, actions for n agents whose preconditions can be evaluated in
-- every world, a goal that can be too, and whatever order sets are iterated in: however many rounds
-- are allowed, find_policy has returned a policy, or its main loop has gone on for all of these
-- rounds. It is assumed that the root of a new graph happens to be 0.
pub find_policy-Rounds :
    (n : ℕ) (order : List ℕ → List ℕ) (goal : Formula) (garbage fuel : ℕ) (actions : List Action)
    (initial : State)
    → garbage ≡ 0
    → IsOrder order
    → All (IsUsable n) actions
    → IsDefined goal
    → IsStateOf n initial
    → ((p : Policy) × (find_policy order goal garbage fuel actions initial ≡ some p))
      ⊎ ((h : Graph) × Rounds order goal actions fuel (first_graph garbage initial) h)
unfolding find_policy
find_policy-Rounds n order goal garbage fuel actions initial zero_root ord usable def good =
    search_policy-Rounds n order goal actions ord usable def fuel (first_graph garbage initial)
      (record {
        inv = start-Inv order goal actions initial garbage;
        tree = first-IsTree n order goal actions ord usable def initial garbage;
        ready = first-Ready n order goal actions ord usable def initial garbage good;
        root = (
          or_node_of initial 0 0 true,
          ap (get_elem? (or_node_of initial 0 0 true ∷ [])) zero_root,
          refl,
        );
      })
