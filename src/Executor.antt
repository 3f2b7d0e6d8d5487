-- ===== src/Executor.antt =====
-- src/executor/executor.cpp and state.h: the executor of the robot, which is in one of some states. A state's methods
-- act on everything that the states and the robot hold, the machine. The drawing of the names of persons is left out.
pub mod Calls
pub mod Waiting
pub mod Calibration
pub mod Calibrated
pub mod Greet
pub mod Silent
pub mod Greeted
pub mod Sequences
pub mod Shown
use r2dtu_attention.Common.{
  ℕ, zero, suc, ◌+◌, ◌-◌, ◌%◌, Bool, true, false, Option, none, some, String, List, [], ◌∷◌,
  if◌then◌else◌, ltb,
}

-- class State; the number is the state's index in `states`, which stands for the object.
pub record StateOps (M : Type 0) : Type 0 where
  pub enter : ℕ → M → M
  pub tick : ℕ → M → Bool × M
  pub leave : ℕ → M → M
  pub confirm : ℕ → M → M

-- StateCmdMsg::Type
pub data StateCmd : Type 0 where
  confirms nexts backs : StateCmd

-- FBT1; asr_stop_timer is -1 at `none`.
pub record Executor (M : Type 0) : Type 0 where
  pub state : Option ℕ
  pub current_state : ℕ
  pub asr_stop_timer : Option ℕ
  pub machine : M

-- The end of a recording; `finish` is finish_recording with send_to_terminal.
unfoldable pub count_down : {M : Type 0} → (M → M) → Executor M → Executor M
count_down finish f = elim f.asr_stop_timer [
  | none ↦ f
  | some zero ↦ record f { machine = finish f.machine; asr_stop_timer = none }
  | some (suc n) ↦ record f { asr_stop_timer = some n }
]

module _ {M : Type 0} (ops : StateOps M) (size : ℕ) where
  -- s is a uint32_t, and `size` the number of states.
  unfoldable pub goto_state : Executor M → ℕ → Executor M
  goto_state f s =
      if ltb s size
      then record f {
        state = some s;
        current_state = s;
        machine = ops.enter s (elim f.state [ some i ↦ ops.leave i f.machine | none ↦ f.machine ]);
      }
      else f

  unfoldable pub state_cmd : Executor M → StateCmd → Executor M
  unfolding goto_state
  state_cmd f nexts = goto_state f ((f.current_state + 1) % 4294967296)
  state_cmd f backs = goto_state f ((f.current_state + 4294967295) % 4294967296)
  state_cmd f confirms = elim f.state [
    | some i ↦ record f { machine = ops.confirm i f.machine }
    | none ↦ f
  ]

  -- The commands that arrived, in order.
  unfoldable pub state_cmds : Executor M → List StateCmd → Executor M
  unfolding state_cmd
  state_cmds f [] = f
  state_cmds f (cmd ∷ cmds) = state_cmds (state_cmd f cmd) cmds

  -- The state's turn, and the next state if it says that it is done.
  unfoldable pub tick_state : Executor M → Executor M
  unfolding goto_state
  tick_state f = elim f.state [
    | none ↦ f
    | some i ↦
        let (is_done, m) = ops.tick i f.machine in
        let ticked = record f { machine = m } in
        if is_done then goto_state ticked ((f.current_state + 1) % 4294967296) else ticked
  ]

  -- FBT1::tick with the commands that the subscriptions deliver; `robot_tick` is Robot::tick.
  unfoldable pub tick : (M → M) → (M → M) → Executor M → List StateCmd → Executor M
  unfolding state_cmds tick_state count_down
  tick robot_tick finish f cmds =
      let g = state_cmds f cmds in
      count_down finish (tick_state (record g { machine = robot_tick g.machine }))

  -- The constructor: no state, then the first one.
  unfoldable pub executor : M → Executor M
  unfolding goto_state
  executor m =
      goto_state (record { state = none; current_state = 0; asr_stop_timer = none; machine = m }) 0
