-- ===== src/Planner/Steps.antt =====
-- The parts of a round of the main loop, once the calls in it are known to return.
use mathlib.Core.Path.{subst}
use mathlib.Core.Option.{some-injective}
use r2dtu_attention.Common.{
  ℕ, ◌<◌, ◌≡◌, refl, ◌∙◌, sym, ap, Bool, true, false, none, some, List, [], ◌∷◌, inl, inr, arith,
  get_elem?, get_elem?_total, All, length, fold_steps, Bool-cases, if◌then◌else◌,
  lt-length_of_get_elem?,
}
use r2dtu_attention.Formula.{Formula}
use r2dtu_attention.World.{World}
use r2dtu_attention.World
use r2dtu_attention.State.{State, valuate_worlds, get_world}
use r2dtu_attention.State
use r2dtu_attention.State.Valid.{IsValid}
use r2dtu_attention.Action.{Action}
use r2dtu_attention.Graph.{Graph, Node, get_node, get_root_node}
use r2dtu_attention.Policy.{Policy}
use r2dtu_attention.Policy
use r2dtu_attention.Planner.{
  successor, expand_with, try_action, visit_goal, visit_inner, continue, finished, extract_policy,
  propogate_solved_node, propogate_dead_end_node,
}
use r2dtu_attention.Planner.Winning.{Keeps}
use r2dtu_attention.Planner.Ready.{IsStateOf, Ready}

pub try_action_skip :
    (order : List ℕ → List ℕ) (k : ℕ) (g : Graph) (found : Bool) (x : Node) (a : Action)
    → get_elem? g.nodes k ≡ some x
    → successor order x.state a ≡ some none
    → try_action order k (g, found) a ≡ some (g, found)
unfolding try_action get_node
try_action_skip order k g found x a at e = rw (at, e)

pub try_action_expand :
    (order : List ℕ → List ℕ) (k : ℕ) (g h : Graph) (found : Bool) (x : Node) (a : Action)
    (t : State)
    → get_elem? g.nodes k ≡ some x
    → successor order x.state a ≡ some (some t)
    → expand_with g k a t ≡ some h
    → try_action order k (g, found) a ≡ some (h, true)
unfolding try_action get_node
try_action_expand order k g h found x a t at e q = rw (at, e, q)

pub visit_inner_found :
    (order : List ℕ → List ℕ) (actions : List Action) (g h : Graph) (k : ℕ) (b : Bool)
    → fold_steps (try_action order k) (g, false) actions ≡ some (h, b)
    → b ≡ true
    → visit_inner order actions g k ≡ some (continue h)
unfolding visit_inner
visit_inner_found order actions g h k b e y = rw (e, y)

pub visit_inner_dead :
    (order : List ℕ → List ℕ) (actions : List Action) (g h d : Graph) (k : ℕ) (m : Node) (b : Bool)
    → fold_steps (try_action order k) (g, false) actions ≡ some (h, b)
    → b ≡ false
    → propogate_dead_end_node h k ≡ some d
    → get_elem? d.nodes d.root ≡ some m
    → visit_inner order actions g k
      ≡ some (if m.dead then finished (Policy.init false) else continue d)
unfolding visit_inner get_root_node
visit_inner_dead order actions g h d k m b e y q at = rw (e, y, q, at)

pub visit_goal_step :
    (g h : Graph) (k : ℕ) (m : Node) (p : Policy)
    → propogate_solved_node g k ≡ some h
    → get_elem? h.nodes h.root ≡ some m
    → extract_policy h ≡ some p
    → visit_goal g k ≡ some (if m.solved then finished p else continue h)
unfolding visit_goal get_root_node
visit_goal_step g h k m p e at q = elim (Bool-cases m.solved) [
  | inl y ↦ rw (e, at, y, q)
  | inr y ↦ rw (e, at, y)
]

pub Ready-Keeps :
    (n : ℕ) (g h : Graph) → Keeps g h → length h.nodes ≡ length g.nodes → Ready n g → Ready n h
Ready-Keeps n g h keeps size ready k y at =
    let (x, at') =
      get_elem?_total g.nodes k (omega (arith, size, lt-length_of_get_elem? h.nodes k at)) in
    let (m, at'', same) = keeps k x at' in
    let q : m ≡ y = some-injective m y (sym at'' ∙ at) in
    subst (IsStateOf n) (sym same.state ∙ ap (λ (z : Node). z.state) q) (ready k x at')

-- A formula that can be evaluated in every world.
pub record IsDefined (f : Formula) : Type 0 where
  pub holds : World → Bool
  pub evaluates : (w : World) → World.valuate w f ≡ some (holds w)

pub valuate_total :
    (s : State) (f : Formula) → IsValid s → IsDefined f → (b : Bool) × (State.valuate s f ≡ some b)
unfolding State.valuate valuate_worlds get_world
valuate_total s f valid def = go s.designated_worlds valid.designated
  where
    go :
        (ws : List ℕ)
        → All (λ w. w < length s.worlds) ws
        → (b : Bool) × (valuate_worlds s f ws ≡ some b)
    go [] h = (true, refl)
    go (w ∷ ws) h =
        let (u, at) = get_elem?_total s.worlds w h.0 in
        let (b, e) = go ws h.1 in
        elim (Bool-cases (def.holds u)) [
          | inl y ↦ (b, rw (at, def.evaluates u, y) e)
          | inr y ↦ (false, rw (at, def.evaluates u, y))
        ]
