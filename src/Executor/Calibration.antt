-- ===== src/Executor/Calibration.antt =====
-- src/executor/states/Calibration.{h,cpp}: the first state, which lets the three cameras calibrate and then places
-- the robot. What the cameras say is an argument: should_calibrate of the sources. The angle that is turned to is computed
-- from the third source, which the command leaves open. current_theta is part of the command.
use r2dtu_attention.Common.{
  ℕ, suc, Bool, true, false, ◌&&◌, ◌||◌, List, [], ◌∷◌, ◌++◌, if◌then◌else◌, ◌==◌,
}
use mathlib.Core.Bool.{not}

pub data Command : Type 0 where
  setup_tts level_head calibration_done turn_to_camera move_to_start log_done : Command
  request_calibration : ℕ → Command

pub record Calibration : Type 0 where
  pub counter : ℕ
  pub move_stage : ℕ
  pub commands : List Command

unfoldable pub enter : Calibration → Calibration
enter c = record c { counter = 0; commands = c.commands ++ setup_tts ∷ [] }

-- The requests that a tick makes before it looks at the cameras.
unfoldable pub request : Calibration → Calibration
request c =
    let a = if c.counter == 0 then record c { commands = c.commands ++ level_head ∷ [] } else c in
    if a.counter == 50
    then record a {
      commands =
          a.commands ++ request_calibration 0 ∷ request_calibration 1 ∷ request_calibration 2 ∷ [];
    }
    else a

-- The first tick at which the cameras are calibrated turns the robot and sets the counter to 100.
unfoldable pub turn_once : Bool → Calibration → Calibration
turn_once is_done c =
    if is_done && c.move_stage == 0
    then record c {
      move_stage = suc c.move_stage;
      counter = 100;
      commands = c.commands ++ calibration_done ∷ turn_to_camera ∷ [];
    }
    else c

-- Calibration::tick, where the sources are asked after the requests.
unfoldable pub tick : (ℕ → Bool) → Calibration → Bool × Calibration
unfolding request turn_once
tick should_calibrate c =
    let is_done = not (should_calibrate 0 || should_calibrate 1 || should_calibrate 2) in
    let d = turn_once is_done (request c) in
    if is_done && d.move_stage == 1 && d.counter == 200
    then (true, record d { commands = d.commands ++ move_to_start ∷ log_done ∷ [] })
    else (false, record d { counter = suc d.counter })
