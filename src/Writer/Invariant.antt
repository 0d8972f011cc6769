-- ===== src/Writer/Invariant.antt =====
-- The invariant of the writer's system, and that every event that can happen keeps it.
pub mod Accepted
pub mod Completed
pub mod Quiet
pub mod Dropped
pub mod Steps
use lib_native_streaming.Common.{
  ℕ, ◌+◌, ◌≡◌, refl, sym, ap, ◌∙◌, ◌≢◌, inl, inr, Bool, true, false, Option, none, some, List, [],
  ◌∷◌, ◌++◌, map, ltb, leb, arith, if◌then◌else◌, flatten, flatten-append, append-nil, append_assoc,
  map-append, Bool-cases, Option-cases,
}
use lib_native_streaming.Common.Errors.{ErrorCode, success, operation_aborted, failure, is_error}
use lib_native_streaming.Writer.{
  AsyncWriter, BatchedWriteTasks, BatchedWriteTasksWithDeadline, buffers_of, handlers_of, tail,
  queue_batch_write, new_writer, Effect,
}
use lib_native_streaming.Writer.Branches.{
  batch, accepts, timer_for, timer_effects, next_timer_after, first_write, timeout_effects,
  queue_batch_write_accepted, queue_batch_write_timed_out, queue_batch_write_late, timer_result,
  on_deadline_timer_lem, done_effects, after_effects, next_write, write_done_lem,
}
use lib_native_streaming.Writer.System.{
  Buffers, System, Event, schedule, queue, complete, deadline, set_error, set_alive, set_timed_out,
  step, Enabled, start, Run, here, next, calls, writes, timeouts, launch,
}
use lib_native_streaming.Writer.Trace.{
  calls-append, writes-append, timeouts-append, calls-handlers, writes-handlers, timeouts-handlers,
  launch-handlers,
}

abbrev pub Queue : Type 0
Queue = List BatchedWriteTasksWithDeadline

-- What the stream is writing is the batch at the front of the queue.
abbrev pub Fits : Option Buffers → Queue → Type 0
Fits none q = Unit {0}
Fits (some bs) [] = ⊥
Fits (some bs) (b ∷ q) = bs ≡ buffers_of b.tasks

-- The batches of the queue that the stream has not been given.
abbrev pub unwritten : Option Buffers → Queue → Queue
unwritten none q = q
unwritten (some bs) q = tail q

abbrev pub all_tasks : Queue → List BatchedWriteTasks
all_tasks = map λ b. b.tasks

abbrev pub handlers : List BatchedWriteTasks → List ℕ
handlers l = flatten (map handlers_of l)

pub handlers-append : (l m : List BatchedWriteTasks) → handlers (l ++ m) ≡ handlers l ++ handlers m
handlers-append l m =
    rw (map-append handlers_of l m) (flatten-append (map handlers_of l) (map handlers_of m))

abbrev pub count_of : Bool → ℕ
count_of true = 1
count_of false = 0

pub record Inv (s : System) : Type 0 where
  pub fits : Fits s.in_flight s.writer.write_tasks_queue
  pub handled :
      calls s.trace ++ handlers (all_tasks s.writer.write_tasks_queue) ≡ handlers s.accepted
  pub written :
      writes s.trace
        ++ map buffers_of (all_tasks (unwritten s.in_flight s.writer.write_tasks_queue))
      ≡ map buffers_of s.accepted
  pub reported : timeouts s.trace ≡ count_of s.writer.timeout_reached

abbrev pub Steps : System → Event → Type 0
Steps s e = (u : System) × (step s e ≡ some u) × Inv u

pub start-Inv : Inv start
unfolding start
start-Inv = record { fits = tt; handled = refl; written = refl; reported = refl }

-- Effects that call no handler, beside a batch at the end of the queue.
pub handled_push :
    (t es : List Effect) (q : Queue) (b : BatchedWriteTasksWithDeadline)
    (acc : List BatchedWriteTasks)
    → calls es ≡ []
    → calls t ++ handlers (all_tasks q) ≡ handlers acc
    → calls (t ++ es) ++ handlers (all_tasks (q ++ b ∷ [])) ≡ handlers (acc ++ b.tasks ∷ [])
handled_push t es q b acc none_called h =
    rw (calls-append t es, none_called, append-nil (calls t))
      (simp (map-append, flatten-append, ← append_assoc, h))

-- Effects that give the stream the batches by which `left` and `rest` differ.
pub written_by :
    (t es : List Effect) (left rest acc new : List Buffers)
    → writes es ++ left ≡ rest ++ new
    → writes t ++ rest ≡ acc
    → writes (t ++ es) ++ left ≡ acc ++ new
written_by t es left rest acc new moved h = rw (
  writes-append t es,
  append_assoc (writes t) (writes es) left,
  moved,
  ← append_assoc (writes t) rest new,
  h,
)
