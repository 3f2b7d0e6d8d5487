-- ===== src/Policy/Print.antt =====
-- Policy::to_string.
use r2dtu_attention.Common.{ℕ, suc, Option, some, String, List, [], ◌∷◌, ◌>>=◌}
use r2dtu_attention.Common.Texts.{◌<>◌, to_string}
use r2dtu_attention.State.{State}
use r2dtu_attention.State.Print.{get_indentation, state_to_string}
use r2dtu_attention.Action.{Action}
use r2dtu_attention.Action.Print.{action_to_string}
use r2dtu_attention.Policy.{Policy}

-- The loop, from the entry `counter` on.
unfoldable pub entries_to_string : ℕ → List (State × Action) → Option String
unfolding action_to_string state_to_string get_indentation to_string
entries_to_string counter [] = some ""
entries_to_string counter ((state, action) ∷ entries) = do
  action_text ← action_to_string action 2
  rest ← entries_to_string (suc counter) entries
  some (
      "\n"
      <> get_indentation 3
      <> " Entry "
      <> to_string counter
      <> "\n"
      <> state_to_string state 2
      <> "\n"
      <> action_text
      <> "\n"
      <> rest)

unfoldable pub policy_to_string : Policy → Option String
unfolding entries_to_string get_indentation
policy_to_string p =
    entries_to_string 0 p.policy >>= λ s. some (get_indentation 4 <> " Policy" <> s)
