-- ===== src/Executor/Greet.antt =====
-- src/executor/states/Greet.{h,cpp}: the state in which the robot greets persons that it does not know. What the robot is
-- told to do is a list of commands. A position is an argument type. The static person_switch_timer is a field. The counters
-- are taken not to reach the end of an int, and a name to fit the buffer of its sentence. Greet/Tick is tick itself.
pub mod Tick
use text.Mathlib.Text.{◌==◌ as str_eq}
use r2dtu_attention.Common.{
  ℕ, suc, ◌%◌, Bool, true, false, ◌&&◌, ◌||◌, Option, none, some, String, List, [], ◌∷◌, ◌++◌,
  if◌then◌else◌, ltb, ◌==◌, has,
}
use mathlib.Core.Bool.{not}

module _ (V : Type 0) where
  -- A person of the world: the id, whether it is tracked, the name, and where the head is.
  pub record Person : Type 0 where
    pub id : ℕ
    pub tracked : Bool
    pub name : String
    pub head : V

  -- What Greet makes the robot do; `turn_towards` is the turn by the angle of the head's direction.
  pub data Command : Type 0 where
    toggle_breathing : Bool → Command
    step_to_greet step_back level_head : Command
    turn_ahead : Command
    turn_towards : V → Command
    start_learn : ℕ → Command
    handshake_up handshake_reciprocate handshake_down : Command
    say_hello say_my_name say_your_name : Command
    say_nice_to_meet : String → Command
    look_at : V → Command
    start_recording : Command
    log_info send_to_terminal : String → Command

  pub record Greet : Type 0 where
    pub counter : ℕ
    pub confirm_counter : ℕ
    pub confirm_flag : Bool
    pub head_tracking : Bool
    pub greet_in_progress : Bool
    pub newly_learned : String
    pub current_target : ℕ
    pub already_greeted_ids : List ℕ
    pub recording : Bool
    pub person_switch_timer : ℕ
    pub commands : List Command

  abbrev pub send : Greet → Command → Greet
  send g c = record g { commands = g.commands ++ c ∷ [] }

  unfoldable pub enter : Greet → Greet
  enter g = record g {
    greet_in_progress = false;
    current_target = 0;
    counter = 0;
    confirm_counter = 0;
    confirm_flag = false;
    commands = g.commands ++ toggle_breathing false ∷ step_to_greet ∷ [];
  }

  unfoldable pub leave : Greet → Greet
  leave g = record g { commands = g.commands ++ turn_ahead ∷ step_back ∷ [] }

  unfoldable pub confirm : Greet → Greet
  confirm g = record g { confirm_flag = true }

  -- A person with whom a greeting may begin.
  unfoldable pub is_new : Greet → Person → Bool
  is_new g p =
      g.confirm_flag
      && not g.greet_in_progress
      && p.tracked
      && str_eq p.name ""
      && not (has p.id g.already_greeted_ids)

  unfoldable pub begin_greeting : Greet → Person → Greet
  begin_greeting g p = record g {
    greet_in_progress = true;
    current_target = p.id;
    counter = 0;
    confirm_counter = 0;
    confirm_flag = false;
    head_tracking = true;
    newly_learned = "";
  }

  -- The first loop of tick: the state, and the head of the target and whether it is tracked.
  unfoldable pub look_around : Greet → Option (V × Bool) → List Person → Greet × Option (V × Bool)
  unfolding is_new begin_greeting
  look_around g target [] = (g, target)
  look_around g target (p ∷ persons) =
      let h = if is_new g p then begin_greeting g p else g in
      look_around h (if p.id == h.current_target then some (p.head, p.tracked) else target) persons

  -- other_targets
  unfoldable pub other_targets : ℕ → List Person → List ℕ
  other_targets target [] = []
  other_targets target (p ∷ persons) =
      if p.tracked && not (p.id == target)
      then p.id ∷ other_targets target persons
      else other_targets target persons

  -- if (counter == 15 && target_tracked)
  unfoldable pub turn_to_target : Greet → Option (V × Bool) → Greet
  turn_to_target g (some (head, true)) = if g.counter == 15 then send g (turn_towards head) else g
  turn_to_target g _ = g

  -- The first tick of a greeting and those up to the first confirmation.
  unfoldable pub greet_first : Greet → Option (V × Bool) → Greet
  unfolding turn_to_target
  greet_first g target =
      let a = if g.counter == 0 then send (record g { head_tracking = false }) level_head else g in
      let b = turn_to_target a target in
      let c =
        if b.counter == 120
        then record b {
          commands = b.commands ++ start_learn b.current_target ∷ handshake_up ∷ say_hello ∷ [];
        }
        else b in
      let d = if c.counter == 150 then record c { head_tracking = true } else c in
      if d.confirm_flag
      then record d {
        confirm_flag = false;
        confirm_counter = suc d.confirm_counter;
        commands = d.commands ++ say_my_name ∷ handshake_reciprocate ∷ [];
      }
      else d

  unfoldable pub greet_second : Greet → Greet
  greet_second g =
      let a =
        if g.confirm_flag
        then record g {
          head_tracking = false;
          confirm_flag = false;
          confirm_counter = suc g.confirm_counter;
          counter = 0;
          commands = g.commands ++ handshake_down ∷ say_your_name ∷ [];
        }
        else g in
      if a.counter == 30 then record a { head_tracking = true } else a

  -- person_learned
  unfoldable pub is_learned : String → List Person → Bool
  is_learned name [] = false
  is_learned name (p ∷ persons) =
      (not (str_eq name "") && str_eq p.name name) || is_learned name persons

  -- The set's insert; the sentence is L10N_NICE_TO_MEET with the name.
  unfoldable pub finish_greeting : Greet → Greet
  finish_greeting g = record g {
    already_greeted_ids =
        if has g.current_target g.already_greeted_ids
        then g.already_greeted_ids
        else g.current_target ∷ g.already_greeted_ids;
    newly_learned = "";
    counter = 0;
    confirm_counter = 0;
    confirm_flag = false;
    greet_in_progress = false;
    commands = g.commands ++ say_nice_to_meet g.newly_learned ∷ [];
  }

  unfoldable pub greet_third : Greet → List Person → Greet
  unfolding is_learned finish_greeting
  greet_third g persons =
      if ltb 30 g.counter
      then (if is_learned g.newly_learned persons || g.confirm_flag then finish_greeting g else g)
      else g

  unfoldable pub greet : Greet → Option (V × Bool) → List Person → Greet
  unfolding greet_first greet_second greet_third
  greet g target persons =
      if g.confirm_counter == 0
      then greet_first g target
      else if g.confirm_counter == 1
      then greet_second g
      else if g.confirm_counter == 2
      then greet_third g persons
      else g
