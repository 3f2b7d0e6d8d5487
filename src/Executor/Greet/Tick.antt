-- ===== src/Executor/Greet/Tick.antt =====
-- Greet::terminal_cmd and Greet::tick; `recorded` is what the speech recognition returns.
use Prim.Native.Char.{Char, code}
use Prim.Native.String as Text
use text.Mathlib.Text.{◌==◌ as str_eq}
use r2dtu_attention.Common.{
  ℕ, suc, ◌%◌, Bool, true, false, ◌&&◌, ◌||◌, Option, none, some, String, List, [], ◌∷◌, ◌++◌,
  if◌then◌else◌, ltb, ◌==◌,
}
use r2dtu_attention.Common.Texts.{◌<>◌}
use r2dtu_attention.Executor.Greet.{
  Person, look_at, start_recording, log_info, send_to_terminal, Greet, send, look_around,
  other_targets, greet,
}

-- The name in a recorded text, without blanks, question marks and quotes. `i == 0` holds for the first
-- character only; toupper is the C library's.
unfoldable pub name_of : (Char → Char) → Bool → Text.String → String
name_of toupper first Text.[] = ""
name_of toupper first (Text.◌∷◌ c s) =
    let rest = name_of toupper false s in
    if code c == 32 || code c == 63 || code c == 34
    then rest
    else Text.◌∷◌ (if first then toupper c else c) rest

module _ (V : Type 0) where
  -- terminal_cmd, where `recorded` is what finish_recording returns if it is called.
  unfoldable pub terminal_cmd : (Char → Char) → String → Greet V → String × String → Greet V
  unfolding name_of
  terminal_cmd toupper recorded g (cmd, param) =
      let heard = name_of toupper true recorded in
      if str_eq cmd "sr"
      then (if g.recording
          then record g {
            recording = false;
            commands =
                g.commands
                ++ log_info ("\"" <> recorded <> "\"") ∷ send_to_terminal ("learn " <> heard) ∷ [];
          }
          else send V (record g { recording = true }) start_recording)
      else if str_eq cmd "learn"
      then record g { newly_learned = param }
      else g

  unfoldable pub terminal_cmds : (Char → Char) → String → Greet V → List (String × String) → Greet V
  unfolding terminal_cmd
  terminal_cmds toupper recorded g [] = g
  terminal_cmds toupper recorded g (m ∷ ms) =
      terminal_cmds toupper recorded (terminal_cmd toupper recorded g m) ms

  -- The look at a target that is tracked, every third tick, and the end of tick.
  unfoldable pub look_at_target : Greet V → Option (V × Bool) → Greet V
  look_at_target g (some (head, true)) =
      if g.head_tracking && g.counter % 3 == 0 then send V g (look_at head) else g
  look_at_target g _ = g

  unfoldable pub follow : Greet V → Option (V × Bool) → Greet V
  unfolding look_at_target
  follow g target = let h = look_at_target g target in record h { counter = suc h.counter }

  -- tick from sub->tick() on, with the messages that have arrived.
  unfoldable pub go_on :
      (Char → Char)
      → String
      → List (String × String)
      → List (Person V)
      → Greet V
      → Option (V × Bool)
      → Greet V
  unfolding terminal_cmds greet follow
  go_on toupper recorded messages persons g target =
      let m = terminal_cmds toupper recorded g messages in
      follow (if m.greet_in_progress then greet V m target persons else m) target

  -- The switch to another target, which ends tick early.
  unfoldable pub switch_or :
      (Char → Char)
      → String
      → List (String × String)
      → List (Person V)
      → Greet V
      → Option (V × Bool)
      → List ℕ
      → Greet V
  switch_or toupper recorded messages persons g target [] =
      go_on toupper recorded messages persons
        (record g { person_switch_timer = suc g.person_switch_timer }) target
  switch_or toupper recorded messages persons g target (id ∷ ids) =
      if ltb 150 g.person_switch_timer
      then record g { current_target = id; person_switch_timer = 0 }
      else go_on toupper recorded messages persons
          (record g { person_switch_timer = suc g.person_switch_timer }) target

  -- tick after the look around.
  unfoldable pub tick_on :
      (Char → Char)
      → String
      → List (String × String)
      → List (Person V)
      → Greet V
      → Option (V × Bool)
      → Greet V
  unfolding other_targets
  tick_on toupper recorded messages persons g target =
      if g.greet_in_progress
      then go_on toupper recorded messages persons g target
      else switch_or toupper recorded messages persons g target
          (other_targets V g.current_target persons)

  -- Greet::tick, which returns false.
  unfoldable pub tick :
      (Char → Char) → String → List (String × String) → List (Person V) → Greet V → Greet V
  unfolding look_around tick_on
  tick toupper recorded messages persons g =
      let (h, target) = look_around V g none persons in
      tick_on toupper recorded messages persons h target
