-- ===== src/Writer/Order.antt =====
-- What `AsyncWriter` (src/async_writer.cpp) promises on every history of its events: no undefined
-- behaviour, batches written and released in the order in which they were accepted, one report.
use lib_native_streaming.Common.{◌≡◌, refl, subst, Option, none, some, [], ◌∷◌, ◌++◌, map}
use lib_native_streaming.Writer.{BatchedWriteTasksWithDeadline, buffers_of, handlers_of}
use lib_native_streaming.Writer.System.{
  Buffers, System, Event, step, Enabled, start, Run, calls, writes, timeouts,
}
use lib_native_streaming.Writer.Invariant.{
  Queue, Fits, unwritten, all_tasks, handlers, count_of, start-Inv,
}
use lib_native_streaming.Writer.Invariant.Steps.{step-Inv, Run-Inv}

-- From a new writer, whatever events came, each event that can happen next is handled: the code
-- never reads the front of an empty queue, and never starts a write while another is in flight.
pub Run-progress :
    {s : System} (e : Event) → Run start s → Enabled s e → (u : System) × (step s e ≡ some u)
Run-progress {s} e r h = let after = step-Inv s e (Run-Inv start-Inv r) h in (after.0, after.1)

-- After any history the write handlers that were called, followed by those of the batches that are
-- still queued, are those of the accepted batches: each handler is called at most once, in the order
-- of acceptance, and never before the batches ahead of it.
pub Run-handlers :
    {s : System}
    → Run start s
    → calls s.trace ++ handlers (all_tasks s.writer.write_tasks_queue) ≡ handlers s.accepted
Run-handlers r = (Run-Inv start-Inv r).handled

-- After any history the buffers given to the stream, followed by those of the batches not yet given
-- to it, are those of the accepted batches: each batch is written at most once, whole, in order.
pub Run-writes :
    {s : System}
    → Run start s
    → writes s.trace
        ++ map buffers_of (all_tasks (unwritten s.in_flight s.writer.write_tasks_queue))
      ≡ map buffers_of s.accepted
Run-writes r = (Run-Inv start-Inv r).written

front_in_flight :
    (f : Option Buffers) (q : Queue) (bs : Buffers)
    → f ≡ some bs
    → Fits f q
    → (b : BatchedWriteTasksWithDeadline) × (rest : Queue) × (q ≡ b ∷ rest)
      × (bs ≡ buffers_of b.tasks)
front_in_flight none q bs e h = cc
front_in_flight (some cs) [] bs e h = absurd h
front_in_flight (some cs) (b ∷ rest) bs e h = (b, rest, refl, cc)

-- After any history that leaves a write in flight, the buffers that it writes are those of the front
-- batch, and of this batch no handler has been called: the handlers called so far are those of the
-- batches before it.
pub Run-front_held :
    {s : System} (bs : Buffers)
    → Run start s
    → s.in_flight ≡ some bs
    → (b : BatchedWriteTasksWithDeadline) × (q : Queue) × (s.writer.write_tasks_queue ≡ b ∷ q)
      × (bs ≡ buffers_of b.tasks)
      × (calls s.trace ++ (handlers_of b.tasks ++ handlers (all_tasks q)) ≡ handlers s.accepted)
Run-front_held {s} bs r e =
    let inv = Run-Inv start-Inv r in
    let found = front_in_flight s.in_flight s.writer.write_tasks_queue bs e inv.fits in
    (
      found.0,
      found.1,
      found.2,
      found.3,
      subst (λ (l : Queue). calls s.trace ++ handlers (all_tasks l) ≡ handlers s.accepted) found.2
          inv.handled,
    )

-- After any history of a writer the timeout handler was called once if a deadline was missed, and
-- else never.
pub Run-timeouts : {s : System} → Run start s → timeouts s.trace ≡ count_of s.writer.timeout_reached
Run-timeouts r = (Run-Inv start-Inv r).reported
