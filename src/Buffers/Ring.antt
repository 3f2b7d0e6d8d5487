-- ===== src/Buffers/Ring.antt =====
-- include/common/RingBuffer.h: the buffer between a worker thread and its module. The pointers and the mask are
-- int8_t, and a size whose mask an int8_t does not hold (above 128) is left out: its buffer is `none`. Below that the
-- pointers are not negative, and `& mask` on the int put_ptr - take_ptr is its remainder modulo the size,
-- which is a power of 2.
use r2dtu_attention.Common.{
  ℕ, zero, suc, ◌+◌, ◌-◌, ◌*◌, ◌%◌, Option, none, some, List, [], ◌∷◌, ◌++◌, if◌then◌else◌, ltb,
  ◌==◌, get_elem?, set, replicate, ◌>>=◌,
}

pub record RingBuffer {ℓ} (T : Type ℓ) : Type ℓ where
  pub size : ℕ
  pub mask : ℕ
  pub buffer : List T
  pub put_ptr : ℕ
  pub take_ptr : ℕ

-- while (power < size) power *= 2; a round at least adds 1, so `size` rounds are enough.
unfoldable pub power_of : ℕ → ℕ → ℕ → ℕ
power_of zero power size = power
power_of (suc fuel) power size =
    let rest = power_of fuel (power * 2) size in if ltb power size then rest else power

module _ {ℓ} {T : Type ℓ} where
  -- The constructor; `empty` is what resize fills the buffer with.
  unfoldable pub ring_buffer : T → ℕ → Option (RingBuffer T)
  unfolding power_of
  ring_buffer empty size =
      let power = power_of size 1 size in
      if ltb 128 power
      then none
      else some (record {
        size = power;
        mask = power - 1;
        buffer = replicate power empty;
        put_ptr = 0;
        take_ptr = 0;
      })

  unfoldable pub put_unsafe : RingBuffer T → T → RingBuffer T
  put_unsafe r val =
      if (r.put_ptr + r.size - r.take_ptr) % r.size == r.mask
      then r
      else record r { buffer = set r.buffer r.put_ptr val; put_ptr = (r.put_ptr + 1) % r.mask }

  -- put, and put_all in its loop
  unfoldable pub put_all : RingBuffer T → List T → RingBuffer T
  unfolding put_unsafe
  put_all r [] = r
  put_all r (val ∷ values) = put_all (put_unsafe r val) values

  unfoldable pub clear : RingBuffer T → RingBuffer T
  clear r = record r { take_ptr = r.put_ptr }

  -- The inner `none` is `false`, the outer one a read outside the buffer.
  unfoldable pub try_take : RingBuffer T → Option (Option T × RingBuffer T)
  try_take r = if r.take_ptr == r.put_ptr then some (none, r) else do
    val ← get_elem? r.buffer r.take_ptr
    some (some val, record r { take_ptr = (r.take_ptr + 1) % r.mask })

  -- The loop of take_all with the values so far. The pointer goes round once at most, so `mask` rounds
  -- are enough; `none` is a loop that goes on.
  unfoldable pub take_loop : ℕ → RingBuffer T → List T → Option (List T × RingBuffer T)
  unfolding try_take
  take_loop zero r values = none
  take_loop (suc fuel) r values = elim (try_take r) [
    | none ↦ none
    | some (none, r') ↦ some (values, r')
    | some (some val, r') ↦ take_loop fuel r' (values ++ val ∷ [])
  ]

  unfoldable pub take_all : RingBuffer T → List T → Option (List T × RingBuffer T)
  unfolding take_loop
  take_all r values = take_loop (suc r.mask) r values
