-- ===== src/Message.antt =====
-- include/common/Message.h and src/common/Message.cpp: messages with texts and blobs. A message is the
-- header, the bytes of its struct, and a block for each text or blob in the order of their writes. A field of type
-- MsgText or MsgBlob is a word at a byte offset of the struct: the length of its block shifted by 32 bits, and the
-- distance from the field to the block. A distance of 2 ^ 32 bytes or more does not fit, but then the message is too long for
-- pack. The lifetime of the texts, which the builder keeps by pointer until pack, is left out.
pub mod RoundTrip
use r2dtu_attention.Common.{
  ℕ, ◌+◌, ◌-◌, ◌*◌, ◌/◌, ◌%◌, Option, none, some, List, [], ◌∷◌, ◌++◌, if◌then◌else◌, ltb, ◌==◌,
  length, ◌>>=◌,
}
use r2dtu_attention.Common.Slices.{substr, concat}

abbrev pub Bytes : Type 0
Bytes = List ℕ

-- MSG_LEN_SHIFT as a factor, and MSG_OFFSET_MASK + 1
abbrev pub word_half : ℕ
word_half = 4294967296

-- (size << MSG_LEN_SHIFT) | distance, a uint64_t
abbrev pub msg_word : ℕ → ℕ → ℕ
msg_word size distance = size % word_half * word_half + distance

-- MessageBuilder: its words by their offset in the struct, the latest first; next_block_ is the number of blocks.
pub record MessageBuilder : Type 0 where
  pub msg_size : ℕ
  pub fields : List (ℕ × ℕ)
  pub blocks : List Bytes
  pub offset : ℕ

unfoldable pub message_builder : ℕ → MessageBuilder
message_builder size = record { msg_size = size; fields = []; blocks = []; offset = size }

-- MAX_BLOCKS
abbrev pub max_blocks : ℕ
max_blocks = 16

-- `none` is the abort at the 17th block.
unfoldable pub write_blob : MessageBuilder → ℕ → Bytes → Option MessageBuilder
write_blob b field blob =
    if ltb (length b.blocks) max_blocks
    then some (record b {
      blocks = b.blocks ++ blob ∷ [];
      fields = (field, msg_word (length blob) (b.offset - field)) ∷ b.fields;
      offset = b.offset + length blob;
    })
    else none

-- The same with the text and the byte 0 that ends it.
unfoldable pub write_string : MessageBuilder → ℕ → Bytes → Option MessageBuilder
unfolding write_blob
write_string b field str = write_blob b field (str ++ 0 ∷ [])

-- A message in memory: the header, the words of the struct, and the bytes after the struct.
pub record Packet : Type 0 where
  pub size : ℕ
  pub channel : ℕ
  pub struct_size : ℕ
  pub words : List (ℕ × ℕ)
  pub rest : Bytes

-- alloc and the copies of pack. alloc gets the size as a uint32_t, so the copies of a longer message run out of the memory;
-- the size in the header is a uint32_t too, and wraps when the header's bytes are added.
unfoldable pub pack : MessageBuilder → Option Packet
pack b =
    if ltb b.offset word_half
    then some (record {
      size = (8 + b.offset) % word_half;
      channel = 0;
      struct_size = b.msg_size;
      words = b.fields;
      rest = concat b.blocks;
    })
    else none

unfoldable pub word_at : List (ℕ × ℕ) → ℕ → Option ℕ
word_at [] field = none
word_at ((p, w) ∷ words) field = if p == field then some w else word_at words field

-- `count` bytes from an offset of the content on, where these lie after the struct and inside the message.
unfoldable pub bytes_at : Packet → ℕ → ℕ → Option Bytes
bytes_at m from count =
    if ltb from m.struct_size
    then none
    else if ltb (length m.rest) (from - m.struct_size + count)
    then none
    else some (substr m.rest (from - m.struct_size) count)

unfoldable pub access_blob : Packet → ℕ → Option Bytes
unfolding bytes_at word_at
access_blob m field = do
  word ← word_at m.words field
  bytes_at m (field + word % word_half) (word / word_half)

-- The text that a word of the field says, its len - 1 bytes; a length of 0 would wrap, and read outside.
unfoldable pub string_at : Packet → ℕ → ℕ → Option Bytes
unfolding bytes_at
string_at m field word =
    if word / word_half == 0
    then none
    else bytes_at m (field + word % word_half) (word / word_half - 1)

unfoldable pub read_string : Packet → ℕ → Option Bytes
unfolding string_at word_at
read_string m field = word_at m.words field >>= string_at m field
