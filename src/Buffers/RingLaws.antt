-- ===== src/Buffers/RingLaws.antt =====
-- A ring buffer against the sequence of values that it holds.
use mathlib.Core.Logic.{◌≢◌}
use mathlib.Core.List.{append_assoc, append-nil}
use native.Mathlib.Nat.{mod-eq_of_lt, mod-eq-sub-mod}
use native.Mathlib.Decide.{dec_lt}
use r2dtu_attention.Common.{
  ℕ, zero, suc, ◌+◌, ◌-◌, ◌%◌, ◌≤◌, ◌<◌, ◌≡◌, ◌⊎◌, refl, ap, ◌∙◌, sym, Bool, true, false, inl, inr,
  none, some, List, [], ◌∷◌, ◌++◌, arith, if◌then◌else◌, ltb, ltb→lt, ◌==◌, ==_iff, ne→==, length,
  length-set, set, Bool-cases,
}
use r2dtu_attention.Buffers.Round.{
  Holds, Holds-nil, Holds-put, Holds-take, Holds-first, Holds-full, tail-ne-head, head-lt,
  round-zero, round-cases,
}
use r2dtu_attention.Buffers.Ring.{RingBuffer, put_unsafe, clear, try_take, take_loop, take_all}

module _ {ℓ} {T : Type ℓ} where
  -- A ring that holds xs.
  pub record Contains (r : RingBuffer T) (xs : List T) : Type ℓ where
    pub power : r.size ≡ r.mask + 1
    pub held : Holds r.buffer r.mask r.take_ptr r.put_ptr xs

  -- A put where xs is held and the first of it stands at `take`. One cell before the end of the circle
  -- the ring refuses the value, but if it reads from index 0 it takes the value and looks empty.
  abbrev pub after_put : ℕ → ℕ → List T → T → List T
  after_put mask take xs val =
      if ltb (length xs + 1) mask then xs ++ val ∷ [] else if take == 0 then [] else xs

  -- The test for a full ring.
  is_full : RingBuffer T → Bool
  is_full r = (r.put_ptr + r.size - r.take_ptr) % r.size == r.mask

  -- It is passed exactly if the next write would be just before the next read.
  is_full_lem :
      {r : RingBuffer T} {xs : List T} → Contains r xs → is_full r ≡ (r.put_ptr + 1 == r.take_ptr)
  unfolding is_full
  is_full_lem {r} {xs} c =
      let p : r.put_ptr < r.mask = head-lt c.held in
      let t : r.take_ptr < r.mask = c.held.tail_in in
      let s = c.power in
      elim (dec_lt r.put_ptr r.take_ptr) [
        | yes below ↦
            let e = mod-eq_of_lt {n = r.put_ptr + r.size - r.take_ptr} {m = r.size} (omega arith) in
            rw e (ground arith)
        | no above ↦
            let e =
              mod-eq-sub-mod {n = r.put_ptr + r.size - r.take_ptr} {m = r.size} (omega arith) in
            let f =
              mod-eq_of_lt {n = r.put_ptr + r.size - r.take_ptr - r.size} {m = r.size}
                (omega arith) in
            rw (e, f) (ground arith)
      ]

  -- A valid ring that holds xs holds `after_put` of it after a put.
  pub put_unsafe-Contains :
      {r : RingBuffer T} {xs : List T} (val : T)
      → Contains r xs
      → Contains (put_unsafe r val) (after_put r.mask r.take_ptr xs val)
  unfolding put_unsafe is_full
  put_unsafe-Contains {r} {xs} val c =
      let p = round-cases (length xs) c.held.tail_in (omega (arith, c.held.fits)) in
      let h = c.held.head_at in
      let test = is_full_lem c in
      elim (Bool-cases (ltb (length xs + 1) r.mask)) [
        | inl room ↦
            let free : (r.put_ptr + 1 == r.take_ptr) ≡ false =
              ne→== _ _ (apart p h (ltb→lt _ _ room)) in
            rw (test ∙ free, room)
              (record { power = c.power; held = Holds-put c.held val (ltb→lt _ _ room) })
        | inr full ↦
            let n : length xs + 1 ≡ r.mask = ground (arith, c.held.fits) in
            elim (Bool-cases (r.take_ptr == 0)) [
              | inl z ↦
                  let free : (r.put_ptr + 1 == r.take_ptr) ≡ false = ground arith in
                  rw (test ∙ free, full, z) (record { power = c.power; held = emptied n })
              | inr nz ↦
                  let taken : (r.put_ptr + 1 == r.take_ptr) ≡ true =
                    (==_iff _ _).1 (meets p h n (ground arith)) in
                  rw (test ∙ taken, full, nz) c
            ]
      ]
    where
      apart :
          ((r.take_ptr + length xs) % r.mask ≡ r.take_ptr + length xs)
              × (r.take_ptr + length xs < r.mask)
            ⊎ ((r.take_ptr + length xs) % r.mask ≡ r.take_ptr + length xs - r.mask)
              × (r.mask ≤ r.take_ptr + length xs)
          → r.put_ptr ≡ (r.take_ptr + length xs) % r.mask
          → length xs + 1 < r.mask
          → r.put_ptr + 1 ≢ r.take_ptr
      apart (inl q) h l e = omega arith
      apart (inr q) h l e = omega arith

      meets :
          ((r.take_ptr + length xs) % r.mask ≡ r.take_ptr + length xs)
              × (r.take_ptr + length xs < r.mask)
            ⊎ ((r.take_ptr + length xs) % r.mask ≡ r.take_ptr + length xs - r.mask)
              × (r.mask ≤ r.take_ptr + length xs)
          → r.put_ptr ≡ (r.take_ptr + length xs) % r.mask
          → length xs + 1 ≡ r.mask
          → r.take_ptr ≢ 0
          → r.put_ptr + 1 ≡ r.take_ptr
      meets (inl q) h l nz = absurd (nz (omega arith))
      meets (inr q) h l nz = omega arith

      emptied :
          length xs + 1 ≡ r.mask
          → Holds (set r.buffer r.put_ptr val) r.mask r.take_ptr ((r.put_ptr + 1) % r.mask) []
      emptied n = rw (Holds-full c.held n) (
          Holds-nil (set r.buffer r.put_ptr val) r.mask r.take_ptr
            (rw (length-set r.buffer r.put_ptr val) c.held.room) c.held.tail_in)

  -- Taking from a ring that holds xs gives the first of xs and leaves the rest.
  try_take_nil : {r : RingBuffer T} → Contains r [] → try_take r ≡ some (none, r)
  unfolding try_take
  try_take_nil {r} c =
      let same : (r.take_ptr == r.put_ptr) ≡ true =
        (==_iff _ _).1 (sym (c.held.head_at ∙ round-zero c.held.tail_in)) in
      rw same

  abbrev taken : RingBuffer T → RingBuffer T
  taken r = record r { take_ptr = (r.take_ptr + 1) % r.mask }

  try_take_cons :
      {r : RingBuffer T} {x : T} {xs : List T}
      → Contains r (x ∷ xs)
      → (try_take r ≡ some (some x, taken r)) × Contains (taken r) xs
  unfolding try_take
  try_take_cons {r} c = (
    rw (ne→== r.take_ptr r.put_ptr (tail-ne-head c.held), Holds-first c.held),
    record { power = c.power; held = Holds-take c.held },
  )

  clear-Contains : {r : RingBuffer T} {xs : List T} → Contains r xs → Contains (clear r) []
  unfolding clear
  clear-Contains {r} c = record {
    power = c.power;
    held = Holds-nil r.buffer r.mask r.put_ptr c.held.room (head-lt c.held);
  }

  take_loop_lem :
      (xs : List T) (fuel : ℕ) (r : RingBuffer T) (values : List T)
      → length xs < fuel
      → Contains r xs
      → (r' : RingBuffer T) × (take_loop fuel r values ≡ some (values ++ xs, r'))
        × Contains r' []
        × (r'.mask ≡ r.mask)
  unfolding take_loop
  take_loop_lem xs zero r values h c = elim h [ ]
  take_loop_lem [] (suc fuel) r values h c =
      (r, rw (try_take_nil c, take_loop) (rw (append-nil values)), c, refl)
  take_loop_lem (x ∷ xs) (suc fuel) r values h c =
      let (e, c') = try_take_cons c in
      let (r', f, d, m) = take_loop_lem xs fuel (taken r) (values ++ x ∷ []) (omega arith) c' in
      (r', rw (e, take_loop) (f ∙ ap (λ vs. some (vs, r')) (append_assoc values (x ∷ []) xs)), d, m)

  -- A ring that holds xs is read out by one call of take_all: the call ends, appends xs in order and
  -- leaves an empty ring.
  pub take_all-Contains :
      (r : RingBuffer T) (xs values : List T)
      → Contains r xs
      → (r' : RingBuffer T) × (take_all r values ≡ some (values ++ xs, r')) × Contains r' []
  unfolding take_all
  take_all-Contains r xs values c =
      let (r', e, d, m) = take_loop_lem xs (suc r.mask) r values (omega (arith, c.held.fits)) c in
      (r', e, d)
