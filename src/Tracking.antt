-- ===== src/Tracking.antt =====
-- include/reasoning/WorldModel.h and src/reasoning/WorldModel.cpp: how the robot tracks the objects that
-- it perceives. The counters do not become negative; their overflow at 2 ^ 31 sightings is left out, and
-- so are positions, triggers and transformers.
pub mod Status
use r2dtu_attention.Common.{
  ℕ, zero, suc, ◌+◌, ◌-◌, Bool, true, false, ◌||◌, ◌&&◌, Option, none, some, String, List, [], ◌∷◌,
  ◌++◌, ◌==◌, if◌then◌else◌, length, get_elem?, set, ltb,
}

pub data WorldObjectStatus : Type 0 where
  hypothetical tracked lost : WorldObjectStatus

-- WorldEvent::Type
pub data EventType : Type 0 where
  new_object appear disappear : EventType

pub record WorldObject : Type 0 where
  pub status : WorldObjectStatus
  pub name : String
  pub timeout_counter : ℕ
  pub sightings_counter : ℕ
  pub needed_sightings : ℕ
  pub initial_lock_counter : ℕ
  pub initial_lose_counter : ℕ
  pub should_delete : Bool
  pub inconsistent : Bool

-- The constructor, and those of PersonObj and MovableObj.
abbrev pub world_object : String → ℕ → ℕ → ℕ → WorldObject
world_object name needed_sightings initial_lock_counter initial_lose_counter = record {
  status = hypothetical;
  name = name;
  timeout_counter = 0;
  sightings_counter = 0;
  needed_sightings = needed_sightings;
  initial_lock_counter = initial_lock_counter;
  initial_lose_counter = initial_lose_counter;
  should_delete = false;
  inconsistent = false;
}

abbrev pub person_obj : String → WorldObject
person_obj name = world_object name 2 4 4

abbrev pub movable_obj : String → WorldObject
movable_obj name = world_object name 2 10 10

unfoldable pub produce_sighting : WorldObject → WorldObject
produce_sighting o = elim o.status [
  | tracked ↦ record o { timeout_counter = o.initial_lose_counter }
  | _ ↦ record o {
    timeout_counter =
        if o.sightings_counter == 0 then o.initial_lock_counter else o.timeout_counter;
    sightings_counter = suc o.sightings_counter;
  }
]

-- What tick does before it counts down.
unfoldable pub change_status : WorldObject → WorldObject × Option EventType
change_status o = elim o.status [
  | hypothetical ↦
      if ltb o.sightings_counter o.needed_sightings
      then (if o.timeout_counter == 0 then (record o { should_delete = true }) else o, none)
      else (
        record o { status = tracked; timeout_counter = o.initial_lose_counter },
        some new_object,
      )
  | tracked ↦
      if o.timeout_counter == 0 || o.inconsistent
      then (record o { status = lost; sightings_counter = 0; inconsistent = false }, some disappear)
      else (o, none)
  | lost ↦
      if ltb o.sightings_counter o.needed_sightings
      then (if o.timeout_counter == 0 then (record o { sightings_counter = 0 }) else o, none)
      else (record o { status = tracked; timeout_counter = o.initial_lose_counter }, some appear)
]

-- WorldObject::tick
unfoldable pub tick : WorldObject → WorldObject × Option EventType
unfolding change_status
tick o =
    let (changed, event) = change_status o in
    (record changed { timeout_counter = changed.timeout_counter - 1 }, event)

-- objects.back(), and the objects without it
unfoldable pub without_last : List WorldObject → List WorldObject
without_last [] = []
without_last (o ∷ []) = []
without_last (o ∷ p ∷ os) = o ∷ without_last (p ∷ os)

unfoldable pub last_object : WorldObject → List WorldObject → WorldObject
last_object o [] = o
last_object o (p ∷ os) = last_object p os

-- std::swap(objects[i], objects.back()) and objects.pop_back()
unfoldable pub remove_object : List WorldObject → ℕ → List WorldObject
unfolding without_last last_object
remove_object [] i = []
remove_object (o ∷ os) i = without_last (set (o ∷ os) i (last_object o os))

-- latest_events.push_back(*event), if there is one
unfoldable pub note_event :
    String → Option EventType → List (String × EventType) → List (String × EventType)
note_event name none events = events
note_event name (some e) events = events ++ (name, e) ∷ []

-- The loop of World::tick over the objects from index i, with the events so far. Each round moves the
-- index on or ends, so a round for each object is enough.
unfoldable pub tick_objects :
    ℕ
    → ℕ
    → List WorldObject
    → List (String × EventType)
    → List WorldObject × List (String × EventType)
unfolding tick remove_object note_event
tick_objects zero i objects events = (objects, events)
tick_objects (suc fuel) i objects events = elim (get_elem? objects i) [
  | none ↦ (objects, events)
  | some o ↦
      let (p, event) = tick o in
      let events' = note_event p.name event events in
      let written = set objects i p in
      let rest = tick_objects fuel (suc i) (remove_object written i) events' in
      let kept = tick_objects fuel (suc i) written events' in if p.should_delete then rest else kept
]

-- The part of World::tick that concerns the objects.
unfoldable pub tick_world : List WorldObject → List WorldObject × List (String × EventType)
unfolding tick_objects
tick_world objects = tick_objects (length objects) 0 objects []
