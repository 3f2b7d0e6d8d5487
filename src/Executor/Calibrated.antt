-- ===== src/Executor/Calibrated.antt =====
-- The calibration ends when the cameras are calibrated.
use r2dtu_attention.Common.{
  ℕ, zero, suc, ◌+◌, ◌≡◌, ◌≢◌, refl, ap, ◌∙◌, sym, Bool, true, false, Option, none, some,
  if◌then◌else◌, ◌==◌, ==_iff, ne→==, arith, Bool-cases, inl, inr,
}
use r2dtu_attention.Executor.Calibration.{Calibration, request, turn_once, tick}

-- Ticks until one returns true, and how many there were; `cameras k i` is should_calibrate of source i at tick k.
unfoldable pub ticks_to_done : (ℕ → ℕ → Bool) → ℕ → ℕ → Calibration → Option ℕ
ticks_to_done cameras zero k c = none
ticks_to_done cameras (suc fuel) k c =
    let (is_done, d) = tick (cameras k) c in
    let rest = ticks_to_done cameras fuel (suc k) d in if is_done then some (suc k) else rest

request_keeps :
    (c : Calibration) → ((request c).move_stage ≡ c.move_stage) × ((request c).counter ≡ c.counter)
unfolding request
request_keeps c = elim (Bool-cases (c.counter == 0)) [
  | inl y ↦ rw y (elim (Bool-cases (c.counter == 50)) [
    | inl z ↦ rw z (refl, refl)
    | inr z ↦ rw z (refl, refl)
  ])
  | inr n ↦ rw n (elim (Bool-cases (c.counter == 50)) [
    | inl z ↦ rw z (refl, refl)
    | inr z ↦ rw z (refl, refl)
  ])
]

-- All three cameras are calibrated.
abbrev pub AreCalibrated : (ℕ → Bool) → Type 0
AreCalibrated should = (i : ℕ) → should i ≡ false

turn_tick :
    (should : ℕ → Bool) (c : Calibration)
    → AreCalibrated should
    → c.move_stage ≡ 0
    → ((tick should c).0 ≡ false)
      × ((tick should c).1.move_stage ≡ 1)
      × ((tick should c).1.counter ≡ 101)
unfolding tick turn_once
turn_tick should c w z =
    let first : ((request c).move_stage == 0) ≡ true = (==_iff _ _).1 ((request_keeps c).0 ∙ z) in
    let stage : suc (request c).move_stage ≡ 1 = ap suc ((request_keeps c).0 ∙ z) in
    rw (w 0, w 1, w 2, first, stage) (refl, refl, refl)

module _ (should : ℕ → Bool) (c : Calibration) (w : AreCalibrated should)
    (z : c.move_stage ≡ 1) where
  later : turn_once true (request c) ≡ request c
  unfolding turn_once
  later =
      let e = (request_keeps c).0 ∙ z in
      let second : ((request c).move_stage == 0) ≡ false = ne→== _ _ (omega arith) in rw second

  wait_tick :
      c.counter ≢ 200
      → ((tick should c).0 ≡ false)
        × ((tick should c).1.move_stage ≡ 1)
        × ((tick should c).1.counter ≡ suc c.counter)
  unfolding tick
  wait_tick h =
      let k = request_keeps c in
      let not_yet : ((request c).counter == 200) ≡ false = ne→== _ _ (λ e. h (sym k.1 ∙ e)) in
      let one : ((request c).move_stage == 1) ≡ true = (==_iff _ _).1 (k.0 ∙ z) in
      rw (w 0, w 1, w 2, later, one, not_yet) (refl, k.0 ∙ z, ap suc k.1)

  last_tick : c.counter ≡ 200 → (tick should c).0 ≡ true
  unfolding tick
  last_tick h =
      let k = request_keeps c in
      let now : ((request c).counter == 200) ≡ true = (==_iff _ _).1 (k.1 ∙ h) in
      let one : ((request c).move_stage == 1) ≡ true = (==_iff _ _).1 (k.0 ∙ z) in
      rw (w 0, w 1, w 2, later, one, now)

module _ (cameras : ℕ → ℕ → Bool) (w : (k : ℕ) → AreCalibrated (cameras k)) where
  waiting :
      (j k : ℕ) (c : Calibration)
      → c.move_stage ≡ 1
      → c.counter + j ≡ 200
      → ticks_to_done cameras (suc j) k c ≡ some (suc (k + j))
  unfolding ticks_to_done
  waiting zero k c z n =
      let e = last_tick (cameras k) c (w k) z (omega arith) in
      rw (e, ticks_to_done) (ap (λ m. some (suc m)) (omega arith))
  waiting (suc j) k c z n =
      let (e, s, m) = wait_tick (cameras k) c (w k) z (omega arith) in
      rw (e, ticks_to_done)
        (waiting j (suc k) (tick (cameras k) c).1 s (omega (arith, m))
          ∙ ap (λ m. some (suc m)) (omega arith))

  -- A robot that has not been placed yet, and whose cameras are all calibrated from some tick on, is done with the
  -- calibration at the 101st tick from then on, whatever the counter is.
  pub ticks_to_done_lem :
      (c : Calibration) → c.move_stage ≡ 0 → ticks_to_done cameras 101 0 c ≡ some 101
  unfolding ticks_to_done
  ticks_to_done_lem c z =
      let (e, s, m) = turn_tick (cameras 0) c (w 0) z in
      rw (e, ticks_to_done) (waiting 99 1 (tick (cameras 0) c).1 s (omega (arith, m)))
