-- ===== src/Buffers/QueueLaws.antt =====
-- A queue of messages against its specification.
use r2dtu_attention.Common.{
  ℕ, ◌+◌, ◌%◌, ◌<◌, ◌≡◌, refl, ◌∙◌, sym, true, inl, inr, Option, none, some, List, [], ◌∷◌, ◌++◌,
  arith, if◌then◌else◌, ltb, lt→ltb, ltb→lt, ◌==◌, ==_iff, ne→==, length, length-set,
  length-replicate, set, replicate, Bool-cases, ◌>>=◌,
}
use r2dtu_attention.Buffers.Round.{
  Holds, Holds-nil, Holds-put, Holds-clear, Holds-first, Holds-full, tail-ne-head, head-lt,
  round-zero,
}
use r2dtu_attention.Buffers.Queue.{MpscQueue, mpsc_queue, get, put}

-- What the users of a queue do: a publisher puts, the subscriber gets.
pub data Op {ℓ} (V : Type ℓ) : Type ℓ where
  puts : V → Op V
  gets : Op V

module _ {ℓ} {V : Type ℓ} where
  -- A put into a queue of `size` cells. The cell that completes the circle makes the queue look empty.
  abbrev pub after_put : ℕ → List V → V → List V
  after_put size xs v = if ltb (length xs + 1) size then xs ++ v ∷ [] else []

  -- The replies to the gets, where xs is in the queue.
  unfoldable pub expected : ℕ → List V → List (Op V) → List (Option V)
  expected size xs [] = []
  expected size xs (puts v ∷ ops) = expected size (after_put size xs v) ops
  expected size [] (gets ∷ ops) = none ∷ expected size [] ops
  expected size (x ∷ xs) (gets ∷ ops) = some x ∷ expected size xs ops

  -- The replies of the code; `none` where an index would be out of range.
  unfoldable pub replies : V → MpscQueue V → List (Op V) → Option (List (Option V))
  replies null q [] = some []
  replies null q (puts v ∷ ops) = put q v >>= λ q'. replies null q' ops
  replies null q (gets ∷ ops) = do
    (reply, q') ← get null q
    rest ← replies null q' ops
    some (reply ∷ rest)

  abbrev pub Contains : ℕ → MpscQueue V → List V → Type ℓ
  Contains size q xs = (length q.internal ≡ size) × Holds q.internal size q.tail q.head xs

  pub put-Contains :
      {size : ℕ} {q : MpscQueue V} {xs : List V} (v : V)
      → Contains size q xs
      → (q' : MpscQueue V) × (put q v ≡ some q') × Contains size q' (after_put size xs v)
  unfolding put
  put-Contains {size} {q} {xs} v (n, h) =
      let q' : MpscQueue V = record q {
        internal = set q.internal q.head v;
        head = (q.head + 1) % length q.internal;
      } in
      let m : length (set q.internal q.head v) ≡ size = length-set q.internal q.head v ∙ n in
      let inside : ltb q.head (length q.internal) ≡ true = lt→ltb _ _ (rw n (head-lt h)) in
      (
        q',
        rw inside,
        (
          m,
          elim (Bool-cases (ltb (length xs + 1) size)) [
            | inl y ↦ rw (y, n) (Holds-put h v (ltb→lt _ _ y))
            | inr full ↦
                rw (full, n, Holds-full h (ground (arith, h.fits)))
                  (Holds-nil (set q.internal q.head v) size q.tail (omega (arith, m)) h.tail_in)
          ],
        ),
      )

  pub get-Contains_nil :
      {size : ℕ} {q : MpscQueue V} (null : V) → Contains size q [] → get null q ≡ some (none, q)
  unfolding get
  get-Contains_nil {q = q} null (n, h) =
      let same : (q.tail == q.head) ≡ true =
        (==_iff _ _).1 (sym (h.head_at ∙ round-zero h.tail_in)) in
      rw same

  pub get-Contains_cons :
      {size : ℕ} {q : MpscQueue V} {x : V} {xs : List V} (null : V)
      → Contains size q (x ∷ xs)
      → (q' : MpscQueue V) × (get null q ≡ some (some x, q')) × Contains size q' xs
  unfolding get
  get-Contains_cons {size} {q} {x} {xs} null (n, h) =
      let q' : MpscQueue V = record q {
        internal = set q.internal q.tail null;
        tail = (q.tail + 1) % length q.internal;
      } in
      (
        q',
        rw (ne→== q.tail q.head (tail-ne-head h), Holds-first h),
        (length-set q.internal q.tail null ∙ n, rw n (Holds-clear null h)),
      )

  replies_lem :
      (null : V) (ops : List (Op V)) {size : ℕ} {q : MpscQueue V} {xs : List V}
      → Contains size q xs
      → replies null q ops ≡ some (expected size xs ops)
  unfolding replies expected
  replies_lem null [] c = refl
  replies_lem null (puts v ∷ ops) c =
      let (q', e, c') = put-Contains v c in rw e (replies_lem null ops c')
  replies_lem null (gets ∷ ops) {xs = []} c = rw (get-Contains_nil null c, replies_lem null ops c)
  replies_lem null (gets ∷ ops) {xs = x ∷ xs} c =
      let (q', e, c') = get-Contains_cons null c in rw (e, replies_lem null ops c')

  -- A new queue of at least one cell never fails, and answers every sequence of puts and gets like a
  -- first-in-first-out queue that becomes empty when as many elements are put as it has cells.
  pub replies-mpsc_queue :
      (null : V) (size : ℕ) (ops : List (Op V))
      → 0 < size
      → replies null (mpsc_queue null size) ops ≡ some (expected size [] ops)
  unfolding mpsc_queue
  replies-mpsc_queue null size ops p =
      let n = length-replicate size null in
      replies_lem null ops (n, Holds-nil (replicate size null) size 0 (omega (arith, n)) p)
