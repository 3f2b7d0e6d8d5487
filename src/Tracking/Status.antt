-- ===== src/Tracking/Status.antt =====
-- WorldObject::tick: the status of one object.
use r2dtu_attention.Common.{
  ap, ◌∙◌, ℕ, zero, suc, ◌-◌, ◌≤◌, ◌≡◌, ◌⊎◌, refl, true, false, Option, none, some, inl, inr, arith,
  ltb, ◌==◌, ◌||◌, Bool-cases,
}
use r2dtu_attention.Tracking.{
  WorldObject, WorldObjectStatus, hypothetical, tracked, lost, EventType, new_object, appear,
  disappear, tick, change_status,
}

-- The event that a change of status is reported as.
abbrev pub reported : WorldObjectStatus → WorldObjectStatus → Option EventType
reported hypothetical tracked = some new_object
reported lost tracked = some appear
reported tracked lost = some disappear
reported _ _ = none

status-cases : (s : WorldObjectStatus) → (s ≡ hypothetical) ⊎ (s ≡ tracked) ⊎ (s ≡ lost)
status-cases hypothetical = inl refl
status-cases tracked = inr (inl refl)
status-cases lost = inr (inr refl)

-- A tick reports exactly the change of status that it makes: a new object when a hypothesis is
-- confirmed, an appearance when a lost object is seen again, a disappearance when a tracked object is
-- lost, and nothing when the status stays.
pub tick-reported : (o : WorldObject) → (tick o).1 ≡ reported o.status (tick o).0.status
unfolding tick change_status
tick-reported o = elim (status-cases o.status) [
  | inl h ↦ elim (Bool-cases (ltb o.sightings_counter o.needed_sightings)) [
    | inl y ↦ elim (Bool-cases (o.timeout_counter == 0)) [
      | inl z ↦ rw (h, y, z)
      | inr z ↦ rw (h, y, z)
    ]
    | inr y ↦ rw (h, y)
  ]
  | inr (inl h) ↦ elim (Bool-cases (o.timeout_counter == 0 || o.inconsistent)) [
    | inl y ↦ rw (h, y)
    | inr y ↦ rw (h, y)
  ]
  | inr (inr h) ↦ elim (Bool-cases (ltb o.sightings_counter o.needed_sightings)) [
    | inl y ↦ elim (Bool-cases (o.timeout_counter == 0)) [
      | inl z ↦ rw (h, y, z)
      | inr z ↦ rw (h, y, z)
    ]
    | inr y ↦ rw (h, y)
  ]
]

-- The object after some ticks in which it is not seen.
unfoldable pub ticks : ℕ → WorldObject → WorldObject
unfolding tick
ticks zero o = o
ticks (suc n) o = ticks n (tick o).0

module _ (o : WorldObject) (seen : o.status ≡ tracked) (fine : o.inconsistent ≡ false) where
  tick_later : (k : ℕ) → o.timeout_counter ≡ suc k → (tick o).0 ≡ record o { timeout_counter = k }
  unfolding tick change_status
  tick_later k e =
      let z : (o.timeout_counter == 0) ≡ false = ground arith in
      rw (seen, z, fine, e)
        (let q : suc k - 1 ≡ k = omega arith in
          ap (λ j. record o { status = tracked; timeout_counter = j; inconsistent = false }) q)

  tick_now : o.timeout_counter ≡ 0 → (tick o).0.status ≡ lost
  unfolding tick change_status
  tick_now e = let z : (o.timeout_counter == 0) ≡ true = ground arith in rw (seen, z)

-- A tracked object that is consistent and is not seen any more stays tracked for as many ticks as its
-- timeout counter says, and the next tick loses it.
pub ticks_lem :
    (k : ℕ) (o : WorldObject)
    → o.status ≡ tracked
    → o.inconsistent ≡ false
    → o.timeout_counter ≡ k
    → ((j : ℕ) → j ≤ k → (ticks j o).status ≡ tracked) × ((ticks (suc k) o).status ≡ lost)
unfolding ticks
ticks_lem zero o seen fine e = (only, tick_now o seen fine e)
  where
    only : (j : ℕ) → j ≤ zero → (ticks j o).status ≡ tracked
    only zero h = seen
    only (suc j) h = elim h [ ]
ticks_lem (suc k) o seen fine e =
    let step = tick_later o seen fine k e in
    let (stays, goes) = ticks_lem k (record o { timeout_counter = k }) seen fine refl in
    (stay step stays, rw (step, ticks) goes)
  where
    stay :
        (tick o).0 ≡ record o { timeout_counter = k }
        → ((j : ℕ) → j ≤ k → (ticks j (record o { timeout_counter = k })).status ≡ tracked)
        → (j : ℕ) → j ≤ suc k
        → (ticks j o).status ≡ tracked
    stay step rest zero h = seen
    stay step rest (suc j) h = ap (λ p. (ticks j p).status) step ∙ rest j (omega arith)
