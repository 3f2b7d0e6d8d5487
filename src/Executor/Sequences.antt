-- ===== src/Executor/Sequences.antt =====
-- The sequences of src/executor/states/Observing.cpp: the robot shows a box, and pushes a cube. A tick gets the movable
-- objects of the world, with their marker ids and positions, and the position of the robot. Positions are a type with
-- an origin and an addition; commands go out in a list.
use r2dtu_attention.Common.{
  ℕ, suc, Bool, true, false, String, List, [], ◌∷◌, ◌++◌, if◌then◌else◌, ◌==◌,
}
use text.Mathlib.Text.{◌==◌ as str_eq}

-- Positions: glm::vec3(0.0f), and the sum of two.
pub record Space : Type 1 where
  pub Vec : Type 0
  pub origin : Vec
  pub plus : Vec → Vec → Vec

module _ (space : Space) where
  open space use {Vec, origin, plus}

  pub data Command : Type 0 where
    toggle_breathing pause : Bool → Command
    say : String → Command
    turn_torso_to look_at_box point_at move_to : Vec → Command
    rest_arm_position fbt2_push : Command

  -- The center of the first movable with the marker id, or the origin.
  unfoldable pub find_marker : ℕ → List (ℕ × Vec) → Vec
  find_marker id [] = origin
  find_marker id ((marker, center) ∷ movables) =
      if marker == id then center else find_marker id movables

  pub record ShowBox : Type 0 where
    pub sentence : String
    pub box_id : ℕ
    pub counter : ℕ
    pub start : Vec

  abbrev pub say_if_any : String → List Command
  say_if_any sentence = if str_eq sentence "" then [] else say sentence ∷ []

  -- ShowBoxSequence::tick. marker_pos is a local variable: it is the box only at counter 5.
  unfoldable pub show_tick : List (ℕ × Vec) → Vec → ShowBox → (Bool × ShowBox) × List Command
  unfolding find_marker
  show_tick movables pos s =
      let n = s.counter in
      let box = find_marker s.box_id movables in
      let marker_pos = if n == 5 then box else origin in
      let t : ShowBox = if n == 5 then record s { start = pos } else s in
      let commands =
        (if n == 0 then toggle_breathing false ∷ say_if_any s.sentence else [])
        ++ (if n == 5 then turn_torso_to marker_pos ∷ look_at_box marker_pos ∷ [] else [])
        ++ (if n == 100 then point_at marker_pos ∷ [] else [])
        ++ (if n == 300 then rest_arm_position ∷ [] else [])
        ++ (if n == 330 then turn_torso_to t.start ∷ [] else []) in
      if n == 330 then ((true, t), commands) else ((false, record t { counter = suc n }), commands)

  pub record PushCube : Type 0 where
    pub cube_id : ℕ
    pub counter : ℕ
    pub start : Vec

  -- PushCubeSequence::tick; `offset` is the offset of the target from the cube.
  unfoldable pub push_tick :
      Vec → List (ℕ × Vec) → Vec → PushCube → (Bool × PushCube) × List Command
  unfolding find_marker
  push_tick offset movables pos s =
      let n = s.counter in
      let t : PushCube = if n == 5 then record s { start = pos } else s in
      let commands =
        (if n == 0 then pause true ∷ toggle_breathing false ∷ [] else [])
        ++ (if n == 5 then move_to (plus (find_marker s.cube_id movables) offset) ∷ [] else [])
        ++ (if n == 100 then fbt2_push ∷ [] else [])
        ++ (if n == 250 then move_to t.start ∷ [] else [])
        ++ (if n == 300 then toggle_breathing true ∷ pause false ∷ [] else []) in
      if n == 300 then ((true, t), commands) else ((false, record t { counter = suc n }), commands)
