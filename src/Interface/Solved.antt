-- ===== src/Interface/Solved.antt =====
-- DEL_Interface::perform_do, and DEL_Interface::is_solved after it.
use mathlib.Core.Bool.{Bool}
use r2dtu_attention.Common.{
  ℕ, ◌≤◌, ◌<◌, ◌≡◌, refl, ap, true, ◌&&◌, some, String, List, [], ◌∷◌, ◌++◌, arith, length, All,
  get_elem?, get_elem?_total, has, ==-refl, length-replicate,
}
use r2dtu_attention.Formula.{f_top}
use r2dtu_attention.World.{World}
use r2dtu_attention.World
use r2dtu_attention.State.{State, valuate_worlds}
use r2dtu_attention.State
use r2dtu_attention.State.Valid.{IsValid}
use r2dtu_attention.Action.{Action, ActionEvent}
use r2dtu_attention.Action
use r2dtu_attention.Operations.Worlds.{Evaluates}
use r2dtu_attention.Operations.Product.{IsProduct, perform_product_update-IsProduct}
use r2dtu_attention.Domain.{Domain, do_action, last_state, get_current_state}
use r2dtu_attention.Domain
use r2dtu_attention.Interface.{DelInterface, perform_do, is_solved}

last_state-append : (ss : List State) (t : State) → last_state (ss ++ t ∷ []) ≡ some t
unfolding last_state
last_state-append [] t = refl
last_state-append (s ∷ []) t = refl
last_state-append (s ∷ r ∷ ss) t = last_state-append (r ∷ ss) t

always : World → ActionEvent → Bool
always w e = true

-- Any action with an event that is always possible, none of whose events is designated, leaves no
-- designated world.
undesignated :
    (state t : State) (action : Action) (ps : List (World × ActionEvent))
    → action.designated_events ≡ []
    → IsProduct state action ps t
    → t.designated_worlds ≡ []
undesignated state t action ps e product =
    go t.designated_worlds product.valid.designated (λ k w e' q. product.designated k w e' q)
  where
    go :
        (ds : List ℕ)
        → All (λ w. w < length t.worlds) ds
        → ((k : ℕ) (w : World) (e' : ActionEvent)
            → get_elem? ps k ≡ some (w, e')
            → has k ds ≡ (has w.id state.designated_worlds && has e'.id action.designated_events))
        → ds ≡ []
    go [] h d = refl
    go (k ∷ ds) h d =
        let ((w, e'), at) = get_elem?_total ps k (omega (arith, h.0, product.size)) in
        absurd (ground (arith, d k w e' at, ap (has e'.id) e, ==-refl k))

do_action-Evaluates :
    (d : Domain) (agent : ℕ) (add delete : List String) (ws : List World)
    → All (Evaluates always (do_action d agent add delete).events) ws
unfolding do_action Action.add_event Action.init World.valuate f_top always
do_action-Evaluates d agent add delete [] = tt
do_action-Evaluates d agent add delete (w ∷ ws) =
    ((refl, tt), do_action-Evaluates d agent add delete ws)

module _ (d : Domain) (agent : ℕ) (add delete : List String) where
  do_action_lem :
      ((do_action d agent add delete).designated_events ≡ [])
      × (length (do_action d agent add delete).indistinguishability_relation ≡ d.amount_of_agents)
  unfolding do_action Action.add_event Action.init
  do_action_lem = (refl, length-replicate d.amount_of_agents [])

-- Where the domain has a valid current state with no more agents than the domain, perform_do succeeds,
-- and afterwards the interface takes its goal for solved, whatever the goal and the lists are: no world
-- of the new state is designated.
pub perform_do-is_solved :
    (i : DelInterface) (agent : ℕ) (add delete : List String) (state : State)
    → get_current_state i.domain ≡ some state
    → IsValid state
    → state.number_of_agents ≤ i.domain.amount_of_agents
    → (j : DelInterface) × (perform_do i agent add delete ≡ some j) × (is_solved j ≡ some true)
unfolding perform_do Domain.perform_do is_solved State.valuate get_current_state
perform_do-is_solved i agent add delete state current valid enough =
    let action = do_action i.domain agent add delete in
    let (bare, size) = do_action_lem i.domain agent add delete in
    let (t, e, product) =
      perform_product_update-IsProduct always state action valid (omega (arith, size))
        (do_action-Evaluates i.domain agent add delete state.worlds) in
    let d : Domain = record i.domain { states = i.domain.states ++ t ∷ [] } in
    (
      record i { domain = d },
      rw (current, e),
      rw (last_state-append i.domain.states t, undesignated state t action _ bare product),
    )
