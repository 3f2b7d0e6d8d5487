-- ===== src/Executor/Shown.antt =====
-- The sequences from their first tick to their last.
use mathlib.Core.List.{append-nil}
use r2dtu_attention.Common.{
  ℕ, zero, suc, ◌≡◌, refl, ap, ◌∙◌, Bool, true, false, Option, none, some, String, List, [], ◌∷◌,
  ◌++◌, if◌then◌else◌, ◌>>=◌,
}
use r2dtu_attention.Executor.Sequences.{
  Space, Command, toggle_breathing, pause, turn_torso_to, look_at_box, point_at, move_to,
  rest_arm_position, fbt2_push, find_marker, say_if_any, show_tick, push_tick,
}

module _ (space : Space) where
  open space use {Vec, origin, plus}

  -- The ticks of a sequence until it says that it is done, from tick k on: how many there were, and all commands.
  -- `none` is a sequence that is not done in `fuel` ticks.
  unfoldable pub run_sequence {ℓ} :
      {S : Type ℓ}
      → (ℕ → S → (Bool × S) × List (Command space))
      → ℕ
      → ℕ
      → S
      → Option (ℕ × List (Command space))
  run_sequence tick zero k s = none
  run_sequence tick (suc fuel) k s =
      let ((is_done, t), out) = tick k s in
      let rest = run_sequence tick fuel (suc k) t in
      if is_done then some (suc k, out) else rest >>= λ (n, more). some (n, out ++ more)

  -- The world may be another one at each tick.
  module _ (movables : ℕ → List (ℕ × Vec)) (pos : ℕ → Vec) where
    -- A new ShowBoxSequence is done at its 331st tick. It stops the breathing, says its sentence if it is not empty, turns to the
    -- box and looks at it where the box is at tick 5, points at the origin of the coordinates, rests the arm, and turns
    -- to where the robot stood at tick 5; nothing else is commanded.
    pub run_sequence-show_tick :
        (sentence : String) (box : ℕ) (start : Vec)
        → run_sequence
            (λ k. show_tick space (movables k) (pos k))
            331
            0
            (record { sentence = sentence; box_id = box; counter = 0; start = start })
          ≡ some (
            331,
            toggle_breathing false
                ∷ (say_if_any space sentence
                    ++ turn_torso_to (find_marker space box (movables 5))
                      ∷ look_at_box (find_marker space box (movables 5))
                      ∷ point_at origin
                      ∷ rest_arm_position
                      ∷ turn_torso_to (pos 5)
                      ∷ []),
          )
    unfolding run_sequence show_tick
    run_sequence-show_tick sentence box start =
        let rest : List (Command space) =
          turn_torso_to (find_marker space box (movables 5))
          ∷ look_at_box (find_marker space box (movables 5))
          ∷ point_at origin
          ∷ rest_arm_position
          ∷ turn_torso_to (pos 5)
          ∷ [] in
        let said = say_if_any space sentence in
        ap (λ words. some (331, toggle_breathing false ∷ (words ++ rest)))
          (append-nil (((said ++ []) ++ []) ++ [])
            ∙ append-nil ((said ++ []) ++ [])
            ∙ append-nil (said ++ [])
            ∙ append-nil said)

    -- A new PushCubeSequence is done at its 301st tick. It pauses the world and the breathing, moves to the place beside the cube where
    -- the cube is at tick 5, pushes, moves back to where the robot stood at tick 5, and goes on with the breathing and
    -- the world; nothing else is commanded.
    pub run_sequence-push_tick :
        (offset : Vec) (cube : ℕ) (start : Vec)
        → run_sequence
            (λ k. push_tick space offset (movables k) (pos k))
            301
            0
            (record { cube_id = cube; counter = 0; start = start })
          ≡ some (
            301,
            pause true
                ∷ toggle_breathing false
                ∷ move_to (plus (find_marker space cube (movables 5)) offset)
                ∷ fbt2_push
                ∷ move_to (pos 5)
                ∷ toggle_breathing true
                ∷ pause false
                ∷ [],
          )
    unfolding run_sequence push_tick
    run_sequence-push_tick offset cube start = refl
