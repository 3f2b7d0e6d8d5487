-- ===== src/Executor/Waiting.antt =====
-- src/executor/states/Waiting.h: the robot breathes, and moves every 900 ticks, until it is confirmed.
use r2dtu_attention.Common.{
  ℕ, suc, ◌%◌, Bool, true, false, String, List, [], ◌∷◌, ◌++◌, if◌then◌else◌, ◌==◌,
}

-- toggle_breathing, and play_animation of a random animation.
pub data Command : Type 0 where
  toggle_breathing : Bool → Command
  play_animation : String → Command

pub record Waiting : Type 0 where
  pub counter : ℕ
  pub is_done : Bool
  pub commands : List Command

unfoldable pub enter : Waiting → Waiting
enter w = record w {
  counter = 0;
  is_done = false;
  commands = w.commands ++ toggle_breathing true ∷ [];
}

unfoldable pub confirm : Waiting → Waiting
confirm w = record w { is_done = true }

-- WAITING_ANIMATE_FREQUENCY is 900; `animation` is what get_random_waiting_animation returns.
unfoldable pub tick : String → Waiting → Bool × Waiting
tick animation w =
    let n = suc w.counter in
    let v : Waiting =
      if n % 900 == 0
      then record w { counter = n; commands = w.commands ++ play_animation animation ∷ [] }
      else record w { counter = n } in
    (v.is_done, v)
