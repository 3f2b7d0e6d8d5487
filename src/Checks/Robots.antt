-- ===== src/Checks/Robots.antt =====
-- Tests of the states of the robot, and their theorems at small inputs. Positions are numbers.
use r2dtu_attention.Common.{ℕ, ◌+◌, ◌≡◌, refl, true, false, some, List, [], ◌∷◌}
use r2dtu_attention.Executor.Greet.{Person, Greet, enter, confirm}
use r2dtu_attention.Executor.Greet.Tick.{tick, tick_on, go_on, name_of}
use r2dtu_attention.Executor.Greeted.{IsGreet, Event, ticks, confirms, after, greeted_once}
use r2dtu_attention.Executor.Sequences.{
  Space, show_tick, find_marker, turn_torso_to, look_at_box, point_at, rest_arm_position,
  toggle_breathing, push_tick, pause, move_to, fbt2_push,
}
use r2dtu_attention.Executor.Shown.{run_sequence, run_sequence-show_tick, run_sequence-push_tick}
use r2dtu_attention.Executor.Calibration.{Calibration}
use r2dtu_attention.Executor.Calibrated.{ticks_to_done, ticks_to_done_lem}
use r2dtu_attention.Executor.Waiting

abbrev quiet : Greet ℕ
quiet = record {
  counter = 0;
  confirm_counter = 0;
  confirm_flag = false;
  head_tracking = false;
  greet_in_progress = false;
  newly_learned = "";
  current_target = 0;
  already_greeted_ids = [];
  recording = false;
  person_switch_timer = 0;
  commands = [];
}

abbrev visitor : Person ℕ
visitor = record { id = 4; tracked = true; name = ""; head = 9 }

abbrev first_visit : List (Event ℕ)
first_visit = confirms ∷ ticks (λ c. c) "" [] (visitor ∷ []) ∷ []

-- The confirmation begins the greeting of the visitor.
visit_begins :
    ((after ℕ (enter ℕ quiet) first_visit).greet_in_progress ≡ true)
    × ((after ℕ (enter ℕ quiet) first_visit).current_target ≡ 4)
unfolding after tick go_on tick_on enter confirm
visit_begins = (refl, refl)

greeted_once_example : IsGreet ℕ (after ℕ (enter ℕ quiet) first_visit)
greeted_once_example = greeted_once ℕ quiet first_visit refl refl

-- A name that was recorded keeps its small first letter, since the text begins with a quote.
name_keeps_its_letters : name_of (λ c. c) true "\"lasse?\"" ≡ "lasse"
unfolding name_of
name_keeps_its_letters = refl

abbrev line : Space
line = record { Vec = ℕ; origin = 0; plus = λ a b. a + b }

run_sequence-show_tick_example :
    run_sequence line
      (λ k. show_tick line ((1001, 8) ∷ []) 3)
      331
      0
      (record { sentence = ""; box_id = 1001; counter = 0; start = 0 })
    ≡ some (
      331,
      toggle_breathing false
          ∷ turn_torso_to 8
          ∷ look_at_box 8
          ∷ point_at 0
          ∷ rest_arm_position
          ∷ turn_torso_to 3
          ∷ [],
    )
unfolding find_marker
run_sequence-show_tick_example =
    run_sequence-show_tick line (λ k. (1001, 8) ∷ []) (λ k. 3) "" 1001 0

run_sequence-push_tick_example :
    run_sequence line
      (λ k. push_tick line 10 ((3, 8) ∷ []) 5)
      301
      0
      (record { cube_id = 3; counter = 0; start = 0 })
    ≡ some (
      301,
      pause true
          ∷ toggle_breathing false
          ∷ move_to 18
          ∷ fbt2_push
          ∷ move_to 5
          ∷ toggle_breathing true
          ∷ pause false
          ∷ [],
    )
unfolding find_marker
run_sequence-push_tick_example = run_sequence-push_tick line (λ k. (3, 8) ∷ []) (λ k. 5) 10 3 0

abbrev uncalibrated : Calibration
uncalibrated = record { counter = 0; move_stage = 0; commands = [] }

ticks_to_done_lem_example : ticks_to_done (λ k i. false) 101 0 uncalibrated ≡ some 101
ticks_to_done_lem_example = ticks_to_done_lem (λ k i. false) (λ k i. refl) uncalibrated refl

-- The 900th tick of a waiting robot makes it move.
waiting_moves :
    (Waiting.tick "wave" (record { counter = 899; is_done = false; commands = [] })).1.commands
    ≡ Waiting.play_animation "wave" ∷ []
unfolding Waiting.tick
waiting_moves = refl
