-- ===== src/Writer/Tests.antt =====
-- Two batches through an `AsyncWriter` (src/async_writer.cpp), and the theorems at these inputs.
use lib_native_streaming.Common.{
  ℕ, ◌≡◌, refl, ◌≢◌, none, some, List, [], ◌∷◌, ◌++◌, map, length, true, false,
}
use lib_native_streaming.Common.Errors.{success, failure}
use lib_native_streaming.Writer.{
  WriteTask, BatchedWriteTasks, BatchedWriteTasksWithDeadline, buffers_of, handlers_of,
  on_deadline_timer, queue_batch_write, write_done,
}
use lib_native_streaming.Writer.System.{
  Buffers, System, Event, queue, complete, deadline, step, start, Run, here, next, run, calls,
  writes, timeouts, launch, armed, disarmed,
}
use lib_native_streaming.Writer.Invariant.{Queue, all_tasks, handlers, unwritten}
use lib_native_streaming.Writer.Order.{Run-progress, Run-handlers, Run-writes, Run-front_held}
use lib_native_streaming.Writer.Timeout.{Run-timed_out}
use lib_native_streaming.Writer.Deadlines.{held, upto, Run-deadlines}
use lib_native_streaming.Writer.Stall.{Run-stalled}
use lib_native_streaming.Writer.Drain.{Run-drains, completions}

abbrev task : ℕ → ℕ → WriteTask
task byte handler = record { buffer = byte ∷ []; handler = handler }

abbrev header_and_body : BatchedWriteTasks
header_and_body = task 1 10 ∷ task 2 20 ∷ []

abbrev trailer : BatchedWriteTasks
trailer = task 3 30 ∷ []

after : System → List Event → System
after s es = elim (run s es) [ none ↦ s | some u ↦ u ]

-- The first batch has a deadline; it is being written when the second one comes.
two_batches : System
unfolding after run step launch start queue_batch_write
two_batches = after start (queue header_and_body (some 50) 40 ∷ queue trailer none 41 ∷ [])

two_batches-Run : Run start two_batches
unfolding two_batches
two_batches-Run =
    next (queue trailer none 41) (next (queue header_and_body (some 50) 40) here tt refl) tt refl

two_batches_writing : two_batches.in_flight ≢ none
unfolding two_batches
two_batches_writing = λ e. cc

second_batch : BatchedWriteTasksWithDeadline
second_batch = record { tasks = trailer; deadline_timer = none }

Run-progress_example : (u : System) × (step two_batches (complete success) ≡ some u)
Run-progress_example = Run-progress (complete success) two_batches-Run two_batches_writing

Run-deadlines_example :
    (armed two_batches.trace
      ≡ disarmed two_batches.trace ++ held two_batches.writer.write_tasks_queue)
    × (armed two_batches.trace ≡ upto two_batches.writer.next_timer)
Run-deadlines_example = Run-deadlines two_batches-Run

one_deadline : armed two_batches.trace ≡ 0 ∷ []
unfolding two_batches
one_deadline = refl

Run-handlers_example :
    calls two_batches.trace ++ handlers (all_tasks two_batches.writer.write_tasks_queue)
    ≡ handlers two_batches.accepted
Run-handlers_example = Run-handlers two_batches-Run

Run-writes_example :
    writes two_batches.trace
      ++ map buffers_of
          (all_tasks (unwritten two_batches.in_flight two_batches.writer.write_tasks_queue))
    ≡ map buffers_of two_batches.accepted
Run-writes_example = Run-writes two_batches-Run

Run-front_held_example :
    (b : BatchedWriteTasksWithDeadline) × (q : Queue) × (two_batches.writer.write_tasks_queue
      ≡ b ∷ q)
    × (◌≡◌ {A = Buffers} ((1 ∷ []) ∷ (2 ∷ []) ∷ []) (buffers_of b.tasks))
    × (calls two_batches.trace ++ (handlers_of b.tasks ++ handlers (all_tasks q))
        ≡ handlers two_batches.accepted)
unfolding two_batches
Run-front_held_example = Run-front_held ((1 ∷ []) ∷ (2 ∷ []) ∷ []) two_batches-Run refl

-- The timer of the first batch expires, and the write ends.
late : System
unfolding after run step launch start queue_batch_write on_deadline_timer
late = after two_batches (deadline success true ∷ [])

late-Run : Run start late
unfolding late two_batches
late-Run = next (deadline success true) two_batches-Run tt refl

later : System
unfolding after run step launch write_done
later = after late (complete success ∷ [])

later-Run : Run late later
unfolding late later two_batches
later-Run = next (complete success) here (λ e. cc) refl

late_flag : late.writer.timeout_reached ≡ true
unfolding late two_batches
late_flag = refl

Run-timed_out_example :
    (writes later.trace ≡ writes late.trace)
    × (later.accepted ≡ late.accepted)
    × (timeouts later.trace ≡ timeouts late.trace)
Run-timed_out_example = Run-timed_out late-Run late_flag later-Run

-- The first write fails.
failed : System
unfolding after run step launch write_done
failed = after two_batches (complete (failure 32) ∷ [])

stalled : System
unfolding after run step launch queue_batch_write
stalled = after failed (queue trailer none 60 ∷ [])

stalled-Run : Run failed stalled
unfolding failed stalled two_batches
stalled-Run = next (queue trailer none 60) here tt refl

first_batch : BatchedWriteTasksWithDeadline
first_batch = record { tasks = header_and_body; deadline_timer = some 0 }

two_batches_queue : two_batches.writer.write_tasks_queue ≡ first_batch ∷ second_batch ∷ []
unfolding two_batches first_batch second_batch
two_batches_queue = refl

failed_lem : step two_batches (complete (failure 32)) ≡ some failed
unfolding failed two_batches
failed_lem = refl

Run-stalled_example :
    (writes stalled.trace ≡ writes two_batches.trace)
    × (calls stalled.trace ≡ calls two_batches.trace ++ handlers_of first_batch.tasks)
    × ((k : Queue) × (stalled.writer.write_tasks_queue ≡ second_batch ∷ ([] ++ k)))
Run-stalled_example =
    Run-stalled (failure 32) first_batch second_batch [] two_batches-Run two_batches_writing
      two_batches_queue refl failed_lem stalled-Run

two_batches_in_time : two_batches.writer.timeout_reached ≡ false
unfolding two_batches
two_batches_in_time = refl

Run-drains_example :
    (u : System) × (run two_batches (completions (length two_batches.writer.write_tasks_queue))
      ≡ some u)
    × (u.writer.write_tasks_queue ≡ [])
    × (u.in_flight ≡ none)
    × (calls u.trace ≡ handlers two_batches.accepted)
    × (writes u.trace ≡ map buffers_of two_batches.accepted)
Run-drains_example = Run-drains two_batches-Run two_batches_in_time two_batches_writing
