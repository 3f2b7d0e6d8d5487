-- ===== src/Action/Print.antt =====
-- Action_Event::to_string, Action::to_string and to_compact_string.
use r2dtu_attention.Common.{ℕ, Option, some, String, ◌>>=◌}
use r2dtu_attention.Common.Texts.{◌<>◌, to_string, texts, try_texts}
use r2dtu_attention.Formula.Print
use r2dtu_attention.State.Print.{get_indentation, relations_size}
use r2dtu_attention.Action.{Action, ActionEvent}

unfoldable pub event_to_string : ActionEvent → Option String
unfolding to_string texts Print.to_string
event_to_string e = do
  precondition ← Print.to_string e.precondition
  some (
      "Event "
      <> to_string e.id
      <> ": (Preconditions: "
      <> precondition
      <> ") (Add list"
      <> texts (λ add. ", " <> add) e.proposition_add
      <> ") (Delete list, "
      <> texts (λ entry. ", " <> entry) e.proposition_delete
      <> ")")

unfoldable pub action_to_string : Action → ℕ → Option String
unfolding event_to_string get_indentation relations_size to_string texts try_texts
action_to_string a indentation = do
  events ← try_texts (λ e. event_to_string e >>= λ s. some ("\n" <> s)) a.events
  some (
      get_indentation indentation
      <> " Action\n(owner, "
      <> to_string a.owner
      <> ") (Relations size, "
      <> to_string (relations_size a.indistinguishability_relation)
      <> ") (Designated events"
      <> texts (λ id. ", " <> to_string id) a.designated_events
      <> ")"
      <> events)

unfoldable pub to_compact_string : Action → Option String
unfolding try_texts Print.to_string
to_compact_string a =
    try_texts (λ e. Print.to_string e.precondition >>= λ s. some ("<" <> s <> ",X,X>")) a.events
