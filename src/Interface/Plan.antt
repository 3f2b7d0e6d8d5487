-- ===== src/Interface/Plan.antt =====
-- DEL_Interface::create_policy, and what can be won.
use mathlib.Core.Option.{some-injective}
use r2dtu_attention.Common.{
  ℕ, ◌≡◌, ◌∙◌, sym, ap, Bool, true, some, List, inl, inr, Option-cases, none-some,
}
use r2dtu_attention.Formula.{Formula}
use r2dtu_attention.State.{State}
use r2dtu_attention.Planner.{find_policy}
use r2dtu_attention.Planner.Winning.{Winning}
use r2dtu_attention.Planner.Sound.{find_policy-Winning}
use r2dtu_attention.Domain.{get_current_state}
use r2dtu_attention.Interface.{DelInterface, create_policy}

-- Where create_policy returns true, the current state of the domain can be won for the goal with the
-- actions of the library, the interface has a policy, and its goal is the one that was asked for. It
-- is assumed that the root of a new graph happens to be 0.
pub create_policy-Winning :
    (order : List ℕ → List ℕ) (garbage fuel : ℕ) (i j : DelInterface) (goal : Formula)
    (state : State)
    → garbage ≡ 0
    → get_current_state i.domain ≡ some state
    → create_policy order garbage fuel i goal ≡ some (j, true)
    → Winning order goal i.action_library.actions state × (j.has_policy ≡ true) × (j.goal ≡ goal)
unfolding create_policy get_current_state
create_policy-Winning order garbage fuel i j goal state zero_root current e =
    elim (Option-cases (find_policy order goal garbage fuel i.action_library.actions state)) [
      | inl missing ↦ absurd (none-some (rw (current, missing) at e))
      | inr (p, found) ↦
          let same = some-injective _ _ (rw (current, found) at e) in
          let solved : p.solved ≡ true = ap (λ (x : DelInterface × Bool). x.1) same in
          (
            find_policy-Winning order goal garbage fuel i.action_library.actions state p zero_root
                found solved,
            sym (ap (λ (x : DelInterface × Bool). x.0.has_policy) same) ∙ solved,
            sym (ap (λ (x : DelInterface × Bool). x.0.goal) same),
          )
    ]
