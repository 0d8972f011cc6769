-- ===== src/Link/Tests.antt =====
-- A batch of two tasks crosses a link whose reader takes two bytes at a time.
use lib_native_streaming.Common.{◌≡◌, ℕ, refl, true, Option, none, some, List, [], ◌∷◌, arith}
use lib_native_streaming.Reader.{ReadTask, schedule_read, run_posted, on_read}
use lib_native_streaming.Reader.Sequence.{pieces, AsksForBytes}
use lib_native_streaming.Reader.System as Receiving
use lib_native_streaming.Reader.System.{begin, arrived, failed}
use lib_native_streaming.Writer.{BatchedWriteTasks, queue_batch_write}
use lib_native_streaming.Writer.System as Sending
use lib_native_streaming.Writer.System.{queue}
use lib_native_streaming.Link.{Link, carry, Run, here, next, write, read, start}

abbrev two_bytes : ReadTask ℕ
two_bytes = record { handler = some 0; bytes_to_read = 2 }

abbrev pairs : ℕ → List ℕ → ReadTask ℕ
pairs h xs = two_bytes

pairs-AsksForBytes : AsksForBytes pairs
pairs-AsksForBytes h xs g e = omega arith

abbrev batch : BatchedWriteTasks
batch =
    record { buffer = 3 ∷ 7 ∷ []; handler = 1 } ∷ record { buffer = 8 ∷ 9 ∷ []; handler = 2 } ∷ []

abbrev of : {A : Type 0} → A → Option A → A
of d none = d
of d (some s) = s

w1 : Sending.System
unfolding Sending.step Sending.start Sending.launch queue_batch_write
w1 = of Sending.start (Sending.step Sending.start (queue batch none 0))

r0 : Receiving.System ℕ
unfolding Receiving.start
r0 = Receiving.start

r1 : Receiving.System ℕ
unfolding Receiving.step r0 schedule_read run_posted
r1 = of r0 (Receiving.step pairs r0 (begin two_bytes))

r2 : Receiving.System ℕ
unfolding Receiving.step r1 on_read
r2 = of r1 (Receiving.step pairs r1 (arrived (3 ∷ 7 ∷ 8 ∷ [])))

l1 : Link ℕ
unfolding w1
l1 = carry start w1 (3 ∷ 7 ∷ 8 ∷ 9 ∷ []) true

l2 : Link ℕ
unfolding l1 r1
l2 = record l1 { receiver = r1 }

l3 : Link ℕ
unfolding l2 r2
l3 = record l2 { receiver = r2; wire = 9 ∷ [] }

crossing-Run : Run pairs l3
unfolding l3 r0 Sending.start Receiving.start
crossing-Run =
    next {s = l2}
      (next {s = l1} (next here (write (queue batch none 0) w1 (3 ∷ 7 ∷ 8 ∷ 9 ∷ []) tt refl refl))
        (read (begin two_bytes) r1 (3 ∷ 7 ∷ 8 ∷ 9 ∷ []) (refl, ((0, refl), omega arith)) refl refl))
      (read (arrived (3 ∷ 7 ∷ 8 ∷ [])) r2 (9 ∷ []) (tt, (2, refl, omega arith)) refl refl)

crossed : (pieces l3.receiver.trace ≡ (0, 3 ∷ 7 ∷ []) ∷ []) × (l3.receiver.reader.buffer ≡ 8 ∷ [])
unfolding l3
crossed = (refl, refl)
