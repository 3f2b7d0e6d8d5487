-- ===== src/Checks/Scripts.antt =====
-- Tests of the script, the buffers, messages and the executor, and their theorems at small inputs.
use r2dtu_attention.Common.{
  ℕ, zero, suc, ◌≡◌, refl, Bool, true, false, none, some, List, [], ◌∷◌, arith, length,
}
use r2dtu_attention.Script.{
  Bytes, SubItem, say, play_wav, ScriptItem, ScriptRunner, say_actuation, wav, script_item,
  load_elements,
}
use r2dtu_attention.Script.Wrap.{AreLines, script_item_lines}
use r2dtu_attention.Script.Presses.{AtItem, press_run, press_run_lem}
use r2dtu_attention.Script.Loaded.{empty_runner, handle_all, loaded-AtItem}
use r2dtu_attention.Buffers.Queue.{mpsc_queue}
use r2dtu_attention.Buffers.QueueLaws.{puts, gets, replies, expected, replies-mpsc_queue}
use r2dtu_attention.Buffers.Ring.{RingBuffer, ring_buffer, put_unsafe, put_all, take_all}
use r2dtu_attention.Buffers.RingLaws.{Contains, put_unsafe-Contains}
use r2dtu_attention.Buffers.RingMade.{ring_buffer-Contains, take_all-put_all, put_all-lost}
use r2dtu_attention.Message.{MessageBuilder, Packet, message_builder, pack}
use r2dtu_attention.Message.RoundTrip.{write_all, AllRead, read_string-write_all}
use r2dtu_attention.Executor.{StateOps, executor}
use r2dtu_attention.Executor.Calls.{traced, InState, rounds, executor-InState}
use r2dtu_attention.Executor

abbrev sentence : Bytes
sentence = 104 ∷ 101 ∷ 106 ∷ 32 ∷ 104 ∷ 101 ∷ 106 ∷ []

script_item_lines_example :
    (item : ScriptItem) × (script_item [] sentence (say sentence ∷ []) ≡ some item)
    × AreLines sentence item.long_desc
    × (item.sub_items ≡ say sentence ∷ [])
script_item_lines_example = script_item_lines [] sentence (say sentence ∷ [])

abbrev item_of : List SubItem → ScriptItem
item_of subs = record {
  short_desc = [];
  sentence = sentence;
  long_desc = sentence ∷ [];
  sub_items = subs;
}

abbrev two_items : ScriptRunner
two_items = record {
  current_item = 0;
  items = item_of (say sentence ∷ play_wav 3 ∷ []) ∷ item_of (say [] ∷ []) ∷ [];
  next_request = 7;
  outputs = [];
}

press_run_lem_example :
    (press_run 2 two_items).outputs ≡ say_actuation 7 sentence ∷ wav 3 ∷ say_actuation 8 [] ∷ []
press_run_lem_example = press_run_lem 2 two_items (omega arith)

loaded-AtItem_example :
    (r : ScriptRunner) × (load_elements
        (λ name. 0)
        empty_runner
        (([], sentence, ("say", sentence) ∷ []) ∷ [])
      ≡ some r)
    × (length r.items ≡ 1)
    × AtItem (handle_all r ((7, 1) ∷ (9, 1) ∷ (8, 0) ∷ []))
loaded-AtItem_example =
    loaded-AtItem (λ name. 0) (([], sentence, ("say", sentence) ∷ []) ∷ [])
      ((7, 1) ∷ (9, 1) ∷ (8, 0) ∷ [])

-- Three cells: the third put makes the queue look empty.
replies-mpsc_queue_example :
    replies {V = ℕ} 0 (mpsc_queue 0 3) (puts 1 ∷ puts 2 ∷ gets ∷ puts 3 ∷ puts 4 ∷ gets ∷ [])
    ≡ some (some 1 ∷ none ∷ [])
unfolding expected
replies-mpsc_queue_example =
    replies-mpsc_queue {V = ℕ} 0 3 (puts 1 ∷ puts 2 ∷ gets ∷ puts 3 ∷ puts 4 ∷ gets ∷ [])
      (omega arith)

abbrev ring : RingBuffer ℕ
ring = record { size = 4; mask = 3; buffer = 0 ∷ 0 ∷ 0 ∷ 0 ∷ []; put_ptr = 0; take_ptr = 0 }

ring_made : ring_buffer 0 4 ≡ some ring
unfolding ring_buffer
ring_made = refl

ring-Contains : Contains ring []
ring-Contains = (ring_buffer-Contains 0 4 (omega arith) ring_made).0

put_unsafe-Contains_example : Contains (put_unsafe ring 5) (5 ∷ [])
put_unsafe-Contains_example = put_unsafe-Contains 5 ring-Contains

take_all-put_all_example :
    (r : RingBuffer ℕ) × (take_all (put_all ring (5 ∷ 6 ∷ [])) [] ≡ some (5 ∷ 6 ∷ [], r))
    × Contains r []
take_all-put_all_example = take_all-put_all ring [] (5 ∷ 6 ∷ []) [] ring-Contains (omega arith)

put_all-lost_example :
    (r : RingBuffer ℕ) × (take_all (put_all ring (5 ∷ 6 ∷ 7 ∷ [])) [] ≡ some ([], r))
put_all-lost_example = put_all-lost 0 4 ring (5 ∷ 6 ∷ 7 ∷ []) (omega arith) ring_made refl

-- A TerminalCmdMsg: 16 bytes, and texts in both fields.
read_string-write_all_example :
    (b : MessageBuilder) × (m : Packet) × (write_all
        (message_builder 16)
        ((0, 104 ∷ []) ∷ (8, sentence) ∷ [])
      ≡ some b)
    × (pack b ≡ some m)
    × (m.size ≡ 34)
    × AllRead m ((0, 104 ∷ []) ∷ (8, sentence) ∷ [])
read_string-write_all_example =
    read_string-write_all 16 ((0, 104 ∷ []) ∷ (8, sentence) ∷ []) (omega arith) (omega arith)
      (omega arith) (refl, (refl, tt))

-- States that count their ticks, and are done at the second.
abbrev counting : StateOps ℕ
counting = record { enter = λ i n. 0; tick = λ i n. if_two n; leave = λ i n. n; confirm = λ i n. n }
  where
    if_two : ℕ → Bool × ℕ
    if_two zero = (false, 1)
    if_two (suc n) = (true, n)

executor-InState_example : InState counting 4 (
    rounds counting 4
      (λ n. n)
      (λ n. n)
      (executor (traced counting 4) 4 (0, []))
      ([] ∷ (Executor.nexts ∷ Executor.backs ∷ []) ∷ [] ∷ []))
executor-InState_example =
    executor-InState counting 4 (λ n. n) (λ n. n) 0
      ([] ∷ (Executor.nexts ∷ Executor.backs ∷ []) ∷ [] ∷ []) (omega arith)
