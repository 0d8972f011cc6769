-- ===== src/Reader/Tests.antt =====
-- A protocol of packets with a length byte on an `AsyncReader` (src/async_reader.cpp), cut by the
-- network in two ways, and the theorems at these inputs.
use lib_native_streaming.Common.{
  ℕ, zero, suc, ◌≡◌, ◌<◌, ◌≤◌, ◌+◌, length, refl, Option, none, some, List, [], ◌∷◌, ◌++◌, arith,
}
use lib_native_streaming.Common.Errors.{success, failure}
use lib_native_streaming.Common.Effects.{◌>>◌}
use lib_native_streaming.Reader.{ReadTask, no_task, schedule_read, run_posted, on_read}
use lib_native_streaming.Reader.Framing.{Delivers, bytes_of}
use lib_native_streaming.Reader.Sequence.{pieces, reports, AsksForBytes}
use lib_native_streaming.Reader.System.{
  System, Event, begin, arrived, failed, start, step, Run, here, next,
}
use lib_native_streaming.Reader.Stream.{
  Run-reads_progress, Run-Delivers, Run-fragmentation, Run-bytes, Run-failures, Run-asks,
}
use lib_native_streaming.Reader.Overlap.{Run-overlap}

data Stage : Type 0 where
  header payload : Stage

header_task : ReadTask Stage
header_task = record { handler = some header; bytes_to_read = 1 }

payload_task : ℕ → ReadTask Stage
payload_task zero = no_task
payload_task (suc n) = record { handler = some payload; bytes_to_read = suc n }

-- The header names the payload's length, and a payload of length 0 ends the sequence.
packets : Stage → List ℕ → ReadTask Stage
unfolding header_task payload_task
packets header [] = no_task
packets header (n ∷ xs) = payload_task n
packets payload xs = header_task

payload_task_size :
    (n : ℕ) (g : Stage) → (payload_task n).handler ≡ some g → 0 < (payload_task n).bytes_to_read
unfolding payload_task
payload_task_size zero g e = cc
payload_task_size (suc n) g e = omega arith

packets-AsksForBytes : AsksForBytes packets
unfolding packets header_task
packets-AsksForBytes header [] g e = cc
packets-AsksForBytes header (n ∷ xs) g e = payload_task_size n g e
packets-AsksForBytes payload xs g e = omega arith

after : Option (System Stage) → Event Stage → Option (System Stage)
after none e = none
after (some s) e = step packets s e

or_start : Option (System Stage) → System Stage
or_start none = start
or_start (some s) = s

-- A packet of three bytes and the first byte of the next one, in one piece and in three.
at_once : System Stage
unfolding after or_start step start schedule_read run_posted on_read packets
at_once =
    or_start (after (after (some start) (begin header_task)) (arrived (3 ∷ 7 ∷ 8 ∷ 9 ∷ 2 ∷ 5 ∷ [])))

in_parts : System Stage
unfolding after or_start step start schedule_read run_posted on_read packets
in_parts = or_start (
    after (after (after (some start) (begin header_task)) (arrived (3 ∷ 7 ∷ [])))
      (arrived (8 ∷ 9 ∷ 2 ∷ 5 ∷ [])))

begun : System Stage
unfolding after or_start step start schedule_read run_posted packets
begun = or_start (after (some start) (begin header_task))

begun-Run : Run packets start begun
unfolding begun start
begun-Run = next (begin header_task) here (refl, ((header, refl), omega arith)) refl

at_once-Run : Run packets start at_once
unfolding at_once begun start
at_once-Run =
    next (arrived (3 ∷ 7 ∷ 8 ∷ 9 ∷ 2 ∷ 5 ∷ [])) begun-Run (tt, (1, refl, omega arith)) refl

half_way : System Stage
unfolding after or_start step start schedule_read run_posted on_read packets
half_way = or_start (after (some begun) (arrived (3 ∷ 7 ∷ [])))

half_way-Run : Run packets start half_way
unfolding half_way begun start
half_way-Run = next (arrived (3 ∷ 7 ∷ [])) begun-Run (tt, (1, refl, omega arith)) refl

in_parts-Run : Run packets start in_parts
unfolding in_parts half_way begun start
in_parts-Run = next (arrived (8 ∷ 9 ∷ 2 ∷ 5 ∷ [])) half_way-Run (tt, (2, refl, omega arith)) refl

same_bytes : at_once.received ≡ in_parts.received
unfolding at_once in_parts
same_bytes = refl

same_entry : at_once.entry ≡ in_parts.entry
unfolding at_once in_parts
same_entry = refl

Run-reads_progress_example :
    (u : System Stage) × (step packets half_way (arrived (8 ∷ 9 ∷ [])) ≡ some u)
unfolding half_way begun start
Run-reads_progress_example =
    Run-reads_progress packets (arrived (8 ∷ 9 ∷ [])) packets-AsksForBytes half_way-Run tt
      (2, refl, omega arith)

Run-Delivers_example :
    Delivers packets at_once.entry at_once.received
      (pieces at_once.trace)
      at_once.reader.pending_task
      at_once.reader.buffer
Run-Delivers_example = Run-Delivers packets packets-AsksForBytes at_once-Run

Run-fragmentation_example :
    (pieces at_once.trace ≡ pieces in_parts.trace)
    × (at_once.reader.pending_task ≡ in_parts.reader.pending_task)
    × (at_once.reader.buffer ≡ in_parts.reader.buffer)
Run-fragmentation_example =
    Run-fragmentation packets packets-AsksForBytes at_once-Run in_parts-Run same_entry same_bytes

Run-bytes_example : bytes_of (pieces at_once.trace) ++ at_once.reader.buffer ≡ at_once.received
Run-bytes_example = Run-bytes packets packets-AsksForBytes at_once-Run

three_pieces :
    pieces at_once.trace ≡ (header, 3 ∷ []) ∷ (payload, 7 ∷ 8 ∷ 9 ∷ []) ∷ (header, 2 ∷ []) ∷ []
unfolding at_once
three_pieces = refl

-- The connection fails when one of the two payload bytes has come.
broken : System Stage
unfolding half_way after or_start step on_read packets
broken = or_start (after (some half_way) (failed (failure 5) (8 ∷ [])))

broken-Run : Run packets start broken
unfolding broken half_way begun start
broken-Run =
    next (failed (failure 5) (8 ∷ [])) half_way-Run (tt, (refl, (2, refl, omega arith))) refl

Run-failures_example :
    (reports broken.trace ≡ broken.failures)
    × (broken.failures ≤ 1)
    × (broken.failures ≡ 1 → broken.in_flight ≡ none)
Run-failures_example = Run-failures packets packets-AsksForBytes broken-Run

one_failure : broken.failures ≡ 1
unfolding broken begun
one_failure = refl

Run-asks_example :
    (0 < 2) × (length half_way.reader.buffer + 2 ≡ half_way.reader.pending_task.bytes_to_read)
unfolding half_way begun
Run-asks_example = Run-asks packets 2 packets-AsksForBytes half_way-Run refl

-- A payload of eight bytes is scheduled while the last two bytes of one of three are being read.
large_task : ReadTask Stage
large_task = record { handler = some payload; bytes_to_read = 8 }

Run-overlap_example :
    ((schedule_read large_task >> on_read packets 9 success (8 ∷ 9 ∷ [])) half_way.reader ≡ none)
    × (step packets half_way (begin large_task) ≡ none)
unfolding half_way begun large_task
Run-overlap_example =
    Run-overlap packets 2 9 large_task (8 ∷ 9 ∷ []) packets-AsksForBytes half_way-Run refl
      ((payload, refl), omega arith) (omega arith) refl
