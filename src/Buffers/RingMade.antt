-- ===== src/Buffers/RingMade.antt =====
-- New ring buffers, and rings that several values are put into.
use mathlib.Core.Path.{subst}
use mathlib.Core.List.{append_assoc, append-nil}
use mathlib.Core.Option.{some-injective}
use r2dtu_attention.Common.{
  ℕ, zero, suc, ◌+◌, ◌-◌, ◌*◌, ◌≤◌, ◌<◌, ◌≡◌, refl, ◌∙◌, true, false, inl, inr, some, List, [], ◌∷◌,
  ◌++◌, arith, ltb, lt→ltb, length, length-append, length-replicate, replicate, Bool-cases,
  none-some, ◌==◌, ==_iff,
}
use r2dtu_attention.Buffers.Round.{Holds-nil}
use r2dtu_attention.Buffers.Ring.{RingBuffer, ring_buffer, power_of, put_unsafe, put_all, take_all}
use r2dtu_attention.Buffers.RingLaws.{Contains, put_unsafe-Contains, take_all-Contains}

-- The power of 2 that the constructor finds is at least the size.
power_of_le : (fuel power size : ℕ) → 0 < power → power ≤ power_of fuel power size
unfolding power_of
power_of_le zero power size h = omega arith
power_of_le (suc fuel) power size h = elim (Bool-cases (ltb power size)) [
  | inl y ↦ rw y (omega (arith, power_of_le fuel (power * 2) size (omega arith)))
  | inr n ↦ rw n (omega arith)
]

power_of_ge :
    (fuel power size : ℕ) → 0 < power → size ≤ power + fuel → size ≤ power_of fuel power size
unfolding power_of
power_of_ge zero power size p h = omega arith
power_of_ge (suc fuel) power size p h = elim (Bool-cases (ltb power size)) [
  | inl y ↦ rw y (power_of_ge fuel (power * 2) size (omega arith) (omega arith))
  | inr n ↦ rw n (ground arith)
]

module _ {ℓ} {T : Type ℓ} where
  made : T → ℕ → RingBuffer T
  made empty power = record {
    size = power;
    mask = power - 1;
    buffer = replicate power empty;
    put_ptr = 0;
    take_ptr = 0;
  }

  -- Where the constructor succeeds for a size of at least 2, the ring is empty, it has at least that many
  -- cells, and it reads from index 0.
  pub ring_buffer-Contains :
      (empty : T) (size : ℕ) {r : RingBuffer T}
      → 1 < size
      → ring_buffer empty size ≡ some r
      → Contains r [] × (size ≤ r.mask + 1) × (r.take_ptr ≡ 0)
  unfolding ring_buffer made
  ring_buffer-Contains empty size {r} h e =
      let ge = power_of_ge size 1 size (omega arith) (omega arith) in
      elim (Bool-cases (ltb 128 (power_of size 1 size))) [
        | inl big ↦ absurd (none-some (rw (big, ring_buffer) at e))
        | inr small ↦
            of_made (power_of size 1 size) ge (some-injective _ _ (rw (small, ring_buffer) at e))
      ]
    where
      of_made :
          (power : ℕ)
          → size ≤ power
          → made empty power ≡ r
          → Contains r [] × (size ≤ r.mask + 1) × (r.take_ptr ≡ 0)
      of_made power ge q =
          subst (λ s. Contains s [] × (size ≤ s.mask + 1) × (s.take_ptr ≡ 0)) q
            (
              record {
                power = omega arith;
                held =
                    Holds-nil (replicate power empty) (power - 1) 0
                      (omega (arith, length-replicate power empty)) (omega arith);
              },
              omega arith,
              refl,
            )

  put_unsafe-keeps :
      (r : RingBuffer T) (val : T)
      → ((put_unsafe r val).mask ≡ r.mask) × ((put_unsafe r val).take_ptr ≡ r.take_ptr)
  unfolding put_unsafe
  put_unsafe-keeps r val = ground arith

  -- Values that there is room for are held after those that were.
  put_all-Contains :
      (values : List T) {r : RingBuffer T} {xs : List T}
      → length xs + length values < r.mask
      → Contains r xs
      → Contains (put_all r values) (xs ++ values)
  unfolding put_all
  put_all-Contains [] {xs = xs} h c = rw (append-nil xs) c
  put_all-Contains (val ∷ values) {r} {xs} h c =
      let room : ltb (length xs + 1) r.mask ≡ true = lt→ltb _ _ (omega arith) in
      let keeps = put_unsafe-keeps r val in
      rw (← append_assoc xs (val ∷ []) values) (
        put_all-Contains values {r = put_unsafe r val} {xs = xs ++ val ∷ []}
          (omega (arith, keeps.0, length-append xs (val ∷ [])))
          (rw room at (put_unsafe-Contains val c)))

  -- What is put into a ring that has room for it comes out of take_all, in order and after what the ring
  -- held before, and the ring is empty then.
  pub take_all-put_all :
      (r : RingBuffer T) (xs values out : List T)
      → Contains r xs
      → length xs + length values < r.mask
      → (r' : RingBuffer T) × (take_all (put_all r values) out ≡ some (out ++ (xs ++ values), r'))
        × Contains r' []
  take_all-put_all r xs values out c h =
      take_all-Contains (put_all r values) (xs ++ values) out (put_all-Contains values h c)

  put_all-full :
      (val : T) (values : List T) {r : RingBuffer T} {xs : List T}
      → length xs + suc (length values) ≡ r.mask
      → r.take_ptr ≡ 0
      → Contains r xs
      → Contains (put_all r (val ∷ values)) []
  unfolding put_all
  put_all-full val [] {r} {xs} h z c =
      let full : ltb (length xs + 1) r.mask ≡ false = ground arith in
      let first : (r.take_ptr == 0) ≡ true = (==_iff _ _).1 z in
      rw (full, first) at (put_unsafe-Contains val c)
  put_all-full val (next ∷ values) {r} {xs} h z c =
      let room : ltb (length xs + 1) r.mask ≡ true = lt→ltb _ _ (omega arith) in
      let keeps = put_unsafe-keeps r val in
      put_all-full next values {r = put_unsafe r val} {xs = xs ++ val ∷ []}
        (omega (arith, keeps.0, length-append xs (val ∷ []))) (keeps.1 ∙ z)
        (rw room at (put_unsafe-Contains val c))

  -- A new ring for at least two values loses everything as soon as as many values are put into it as its mask
  -- says: take_all ends then and gives none of them.
  pub put_all-lost :
      (empty : T) (size : ℕ) (r : RingBuffer T) (values : List T)
      → 1 < size
      → ring_buffer empty size ≡ some r
      → length values ≡ r.mask
      → (r' : RingBuffer T) × (take_all (put_all r values) [] ≡ some ([], r'))
  put_all-lost empty size r [] h e n =
      let (c, k, z) = ring_buffer-Contains empty size h e in absurd (omega arith)
  put_all-lost empty size r (val ∷ values) h e n =
      let (c, k, z) = ring_buffer-Contains empty size h e in
      let (r', f, d) =
        take_all-Contains (put_all r (val ∷ values)) [] []
          (put_all-full val values {r = r} {xs = []} (omega (arith, n)) z c) in
      (r', f)
