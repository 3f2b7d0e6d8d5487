-- ===== src/Buffers/Queue.antt =====
-- include/core/MPSCQueue.h: the queue of the messages that a subscriber has not read. `null` is nullptr, and
-- `none` a read or a write outside internal_.
use r2dtu_attention.Common.{
  ℕ, ◌+◌, ◌%◌, Option, none, some, List, if◌then◌else◌, ltb, ◌==◌, length, get_elem?, set,
  replicate, ◌>>=◌,
}

pub record MpscQueue {ℓ} (V : Type ℓ) : Type ℓ where
  pub head : ℕ
  pub tail : ℕ
  pub internal : List V

module _ {ℓ} {V : Type ℓ} (null : V) where
  -- The constructor
  unfoldable pub mpsc_queue : ℕ → MpscQueue V
  mpsc_queue size = record { head = 0; tail = 0; internal = replicate size null }

  unfoldable pub get : MpscQueue V → Option (Option V × MpscQueue V)
  get q = if q.tail == q.head then some (none, q) else do
    elem ← get_elem? q.internal q.tail
    some (
      some elem,
      record q { internal = set q.internal q.tail null; tail = (q.tail + 1) % length q.internal },
    )

unfoldable pub put {ℓ} : {V : Type ℓ} → MpscQueue V → V → Option (MpscQueue V)
put q val =
    if ltb q.head (length q.internal)
    then some
        (record q { internal = set q.internal q.head val; head = (q.head + 1) % length q.internal })
    else none
