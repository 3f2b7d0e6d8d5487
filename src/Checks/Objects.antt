-- ===== src/Checks/Objects.antt =====
-- Tests of the tracking of objects, and its theorems at a cube.
use r2dtu_attention.Common.{ℕ, ◌≡◌, ◌≤◌, refl, some, [], ◌∷◌}
use r2dtu_attention.Tracking.{
  WorldObject, tracked, lost, movable_obj, produce_sighting, tick, tick_world, new_object,
}
use r2dtu_attention.Tracking.Status.{reported, tick-reported, ticks, ticks_lem}

abbrev cube : WorldObject
cube = record (movable_obj "marker-1") {
  status = tracked;
  timeout_counter = 3;
  sightings_counter = 2;
}

two_sightings :
    (tick (produce_sighting (produce_sighting (movable_obj "marker-2")))).1 ≡ some new_object
unfolding tick produce_sighting
two_sightings = refl

tick-reported_example : (tick cube).1 ≡ reported tracked (tick cube).0.status
tick-reported_example = tick-reported cube

ticks_lem_example :
    ((j : ℕ) → j ≤ 3 → (ticks j cube).status ≡ tracked) × ((ticks 4 cube).status ≡ lost)
ticks_lem_example = ticks_lem 3 cube refl refl refl

-- A hypothesis that timed out, before an object that is about to be lost.
abbrev forgotten : WorldObject
forgotten = movable_obj "marker-3"

abbrev overdue : WorldObject
overdue = record (movable_obj "marker-1") { status = tracked }

-- The first object is deleted, and the second, which takes its place, gets no tick.
the_second_is_skipped : tick_world (forgotten ∷ overdue ∷ []) ≡ (overdue ∷ [], [])
unfolding tick_world
the_second_is_skipped = refl
