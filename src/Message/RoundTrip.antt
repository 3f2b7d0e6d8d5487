-- ===== src/Message/RoundTrip.antt =====
-- What is written into a message is read from it.
use mathlib.Core.List.{append_assoc, append-nil}
use r2dtu_attention.Common.{
  ℕ, ◌+◌, ◌-◌, ◌/◌, ◌%◌, ◌≤◌, ◌<◌, ◌≡◌, ◌≢◌, refl, ap, ◌∙◌, sym, true, false, Option, some, List,
  [], ◌∷◌, ◌++◌, arith, ltb, lt→ltb, ◌==◌, ==-refl, ==_iff, ne→==, length, length-append, All, has,
  Distinct, ◌>>=◌,
}
use r2dtu_attention.Common.Slices.{take, drop, concat, concat-append}
use r2dtu_attention.Message.{
  Bytes, MessageBuilder, Packet, message_builder, write_string, pack, word_at, bytes_at,
  read_string, string_at, msg_word, word_half, max_blocks,
}

-- A prefix of a longer list, and what is inside it.
take-append : (xs ys : Bytes) → take (length xs) (xs ++ ys) ≡ xs
take-append [] ys = refl
take-append (x ∷ xs) ys = ap (λ l. x ∷ l) (take-append xs ys)

drop-append : (xs ys : Bytes) → drop (length xs) (xs ++ ys) ≡ ys
drop-append [] ys = refl
drop-append (x ∷ xs) ys = drop-append xs ys

-- The text at a field: before ∷ text ∷ 0 ∷ after are the blocks, and the word says where the text begins.
pub record Stored (b : MessageBuilder) (field : ℕ) (str : Bytes) : Type 0 where
  pub before : Bytes
  pub after : Bytes
  pub laid_out : concat b.blocks ≡ before ++ (str ++ (0 ∷ after))
  pub inside : field < b.msg_size
  pub small : b.msg_size + length before + length str + 1 < word_half
  pub word :
      word_at b.fields field ≡ some (msg_word (length str + 1) (b.msg_size + length before - field))

-- A builder whose offset is where the next block goes.
pub record IsBuilder (b : MessageBuilder) : Type 0 where
  pub aligned : b.offset ≡ b.msg_size + length (concat b.blocks)

word_halves :
    (size distance : ℕ)
    → size < word_half
    → distance < word_half
    → (msg_word size distance % word_half ≡ distance) × (msg_word size distance / word_half ≡ size)
word_halves size distance h k = omega arith

-- The packet of a builder.
abbrev packet_of : MessageBuilder → Packet
packet_of b = record {
  size = (8 + b.offset) % word_half;
  channel = 0;
  struct_size = b.msg_size;
  words = b.fields;
  rest = concat b.blocks;
}

Stored-read :
    (b : MessageBuilder) (field : ℕ) (str : Bytes)
    → Stored b field str
    → read_string (packet_of b) field ≡ some str
unfolding read_string
Stored-read b field str s =
    let n = length s.before in
    let d = b.msg_size + n - field in
    let (o, l) = word_halves (length str + 1) d (omega (arith, s.small)) (omega (arith, s.small)) in
    let nz : (length str + 1 == 0) ≡ false = ground arith in
    let at : field + d ≡ b.msg_size + n = omega (arith, s.inside) in
    let outside : ltb (b.msg_size + n) b.msg_size ≡ false = ground arith in
    let len : length str + 1 - 1 ≡ length str = omega arith in
    let from : b.msg_size + n - b.msg_size ≡ n = omega arith in
    let total = ap length s.laid_out ∙ length-append s.before (str ++ (0 ∷ s.after)) in
    let t2 = length-append str (0 ∷ s.after) in
    let fits : ltb (length (concat b.blocks)) (n + length str) ≡ false =
      ground (arith, total, t2) in
    rw (s.word, string_at, o, l, nz, at, bytes_at, outside, len, from, fits)
      (ap some (
        ap (λ bytes. take (length str) (drop n bytes)) s.laid_out
        ∙ ap (take (length str)) (drop-append s.before (str ++ (0 ∷ s.after)))
        ∙ take-append str (0 ∷ s.after)))

-- Writing a text.
module _ (b : MessageBuilder) (field : ℕ) (str : Bytes) (free : length b.blocks < max_blocks) where
  abbrev written : MessageBuilder
  written = record b {
    blocks = b.blocks ++ (str ++ 0 ∷ []) ∷ [];
    fields = (field, msg_word (length (str ++ 0 ∷ [])) (b.offset - field)) ∷ b.fields;
    offset = b.offset + length (str ++ 0 ∷ []);
  }

  write_string_lem : write_string b field str ≡ some written
  unfolding write_string
  write_string_lem = let q = lt→ltb _ _ free in rw q

  blocks_after : concat written.blocks ≡ concat b.blocks ++ (str ++ 0 ∷ [])
  blocks_after =
      concat-append b.blocks ((str ++ 0 ∷ []) ∷ [])
      ∙ ap (λ l. concat b.blocks ++ l) (append-nil (str ++ 0 ∷ []))

  written-IsBuilder : IsBuilder b → IsBuilder written
  written-IsBuilder v = record {
    aligned =
        omega (
          arith,
          v.aligned,
          ap length blocks_after,
          length-append (concat b.blocks) (str ++ 0 ∷ []),
        );
  }

  written-Stored :
      IsBuilder b
      → field < b.msg_size
      → b.offset + length str + 1 < word_half
      → Stored written field str
  unfolding word_at
  written-Stored v inside small =
      let n : length (str ++ 0 ∷ []) ≡ length str + 1 = length-append str (0 ∷ []) in
      record {
        before = concat b.blocks;
        after = [];
        laid_out = blocks_after;
        inside = inside;
        small = omega (arith, v.aligned);
        word = rw (==-refl field, n, v.aligned);
      }

  -- A text that is there stays there, if the new one is for another field.
  written-keeps :
      (other : ℕ) (text : Bytes) → field ≢ other → Stored b other text → Stored written other text
  unfolding word_at
  written-keeps other text ne s = record {
    before = s.before;
    after = s.after ++ (str ++ 0 ∷ []);
    laid_out =
        blocks_after
        ∙ ap (λ l. l ++ (str ++ 0 ∷ [])) s.laid_out
        ∙ append_assoc s.before (text ++ (0 ∷ s.after)) (str ++ 0 ∷ [])
        ∙ ap (λ l. s.before ++ l) (append_assoc text (0 ∷ s.after) (str ++ 0 ∷ []));
    inside = s.inside;
    small = s.small;
    word = rw (ne→== field other ne) s.word;
  }

-- Texts and the fields that they are written to, in the order of the writes.
abbrev pub Writes : Type 0
Writes = List (ℕ × Bytes)

unfoldable pub write_all : MessageBuilder → Writes → Option MessageBuilder
write_all b [] = some b
write_all b ((field, str) ∷ writes) = write_string b field str >>= λ b'. write_all b' writes

-- The bytes that the texts take up.
abbrev pub text_size : Writes → ℕ
text_size [] = 0
text_size ((field, str) ∷ writes) = length str + 1 + text_size writes

abbrev pub fields_of : Writes → List ℕ
fields_of [] = []
fields_of ((field, str) ∷ writes) = field ∷ fields_of writes

abbrev pub AllRead : Packet → Writes → Type 0
AllRead m writes = All (λ w. read_string m w.0 ≡ some w.1) writes

-- What the writes do to a builder.
record Wrote (b b' : MessageBuilder) (writes : Writes) : Type 0 where
  done : write_all b writes ≡ some b'
  longer : b'.offset ≡ b.offset + text_size writes
  keeps :
      (other : ℕ) (text : Bytes)
      → has other (fields_of writes) ≡ false
      → Stored b other text
      → Stored b' other text
  stored : All (λ w. Stored b' w.0 w.1) writes

Wrote-cons :
    (b : MessageBuilder) (field : ℕ) (str : Bytes) (writes : Writes) {b' : MessageBuilder}
    (free : length b.blocks < max_blocks)
    → IsBuilder b
    → field < b.msg_size
    → b.offset + length str + 1 < word_half
    → has field (fields_of writes) ≡ false
    → Wrote (written b field str free) b' writes
    → Wrote b b' ((field, str) ∷ writes)
unfolding write_all
Wrote-cons b field str writes free v inside small new w = record {
  done = rw (write_string_lem b field str free) w.done;
  longer = omega (arith, w.longer, length-append str (0 ∷ []));
  keeps = λ other text h s. w.keeps other text (ground (arith, h)) (
      written-keeps b field str free other text
        (λ q. cc (sym ((==_iff field other).1 q) ∙ first field other writes h)) s);
  stored = (w.keeps field str new (written-Stored b field str free v inside small), w.stored);
}
  where
    first :
        (field other : ℕ) (writes : Writes)
        → has other (field ∷ fields_of writes) ≡ false
        → (field == other) ≡ false
    first field other writes h = ground arith

write_all_lem :
    (writes : Writes) (b : MessageBuilder)
    → IsBuilder b
    → length b.blocks + length writes ≤ max_blocks
    → All (λ w. w.0 < b.msg_size) writes
    → b.offset + text_size writes < word_half
    → Distinct (fields_of writes)
    → (b' : MessageBuilder) × Wrote b b' writes
unfolding write_all
write_all_lem [] b v n i t d =
    (b, record { done = refl; longer = omega arith; keeps = λ other text h s. s; stored = tt })
write_all_lem ((field, str) ∷ writes) b v n i t d =
    let free : length b.blocks < max_blocks = omega arith in
    let next = written b field str free in
    let (b', w) =
      write_all_lem writes next (written-IsBuilder b field str free v)
        (omega (arith, length-append b.blocks ((str ++ 0 ∷ []) ∷ []))) i.1
        (omega (arith, length-append str (0 ∷ []))) d.1 in
    (b', Wrote-cons b field str writes free v i.0 (omega arith) d.0 w)

All-read :
    (b : MessageBuilder) (writes : Writes)
    → All (λ w. Stored b w.0 w.1) writes
    → AllRead (packet_of b) writes
All-read b [] h = tt
All-read b ((field, str) ∷ writes) h = (Stored-read b field str h.0, All-read b writes h.1)

-- At most 16 texts, written to different fields of a struct, can be written and packed if the struct and the texts, with a byte
-- more each, are shorter than 2 ^ 32 bytes. In the packed message every field reads as the text that was written to
-- it; its size is that of the header, the struct and the texts, in 32 bits.
pub read_string-write_all :
    (struct_size : ℕ) (writes : Writes)
    → length writes ≤ max_blocks
    → All (λ w. w.0 < struct_size) writes
    → struct_size + text_size writes < word_half
    → Distinct (fields_of writes)
    → (b : MessageBuilder) × (m : Packet) × (write_all (message_builder struct_size) writes
        ≡ some b)
      × (pack b ≡ some m)
      × (m.size ≡ (8 + (struct_size + text_size writes)) % word_half)
      × AllRead m writes
unfolding message_builder pack
read_string-write_all struct_size writes n i t d =
    let (b, w) =
      write_all_lem writes (message_builder struct_size) (record { aligned = omega arith })
        (omega arith) i t d in
    let fits : ltb b.offset word_half ≡ true = lt→ltb _ _ (omega (arith, w.longer)) in
    (
      b,
      packet_of b,
      w.done,
      rw fits refl,
      ap (λ k. (8 + k) % word_half) w.longer,
      All-read b writes w.stored,
    )
