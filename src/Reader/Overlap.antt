-- ===== src/Reader/Overlap.antt =====
-- `scheduleRead` of src/async_reader.cpp and the lambda that it posts. While no read is in flight only the
-- setters and a second `scheduleRead` can come between the two, and the setters make no difference there.
-- While a read is in flight nothing prevents the call, and the task of the read is gone when the stream
-- completes.
use lib_native_streaming.Common.{ℕ, ◌≡◌, ◌<◌, none, some, List, ◌++◌, length, arith, length-append}
use lib_native_streaming.Common.Errors.{success}
use lib_native_streaming.Common.Effects.{◌>>◌}
use lib_native_streaming.Reader.{
  ReadTask, AsyncReader, schedule_read, set_error_handler, set_connection_alive_handler, run_posted,
  on_read,
}
use lib_native_streaming.Reader.Sequence.{AsksForBytes}
use lib_native_streaming.Reader.System.{System, begin, start, step, Run, IsTask}
use lib_native_streaming.Reader.Stream.{Run-asks}

module _ {H : Type 0} (handle : H → List ℕ → ReadTask H) where
  -- What a setter does between the call and the lambda it does before both.
  set_error-between :
      (fuel cb : ℕ) (task : ReadTask H) (r : AsyncReader H)
      → (schedule_read task >> (set_error_handler cb >> run_posted handle fuel)) r
        ≡ (set_error_handler cb >> (schedule_read task >> run_posted handle fuel)) r
  unfolding schedule_read set_error_handler
  set_error-between fuel cb task r = ground arith

  set_alive-between :
      (fuel cb : ℕ) (task : ReadTask H) (r : AsyncReader H)
      → (schedule_read task >> (set_connection_alive_handler cb >> run_posted handle fuel)) r
        ≡ (set_connection_alive_handler cb >> (schedule_read task >> run_posted handle fuel)) r
  unfolding schedule_read set_connection_alive_handler
  set_alive-between fuel cb task r = ground arith

  -- The read completes for the task that was put in place of its own.
  replaced :
      (fuel : ℕ) (task : ReadTask H) (h : H) (r : AsyncReader H) (bytes : List ℕ)
      → task.handler ≡ some h
      → length (r.buffer ++ bytes) < task.bytes_to_read
      → (schedule_read task >> on_read handle fuel success bytes) r ≡ none
  unfolding schedule_read on_read
  replaced fuel task h r bytes e short = ground arith

  -- The lambda asks the stream for bytes a second time.
  doubled :
      (s : System H) (n : ℕ) (task : ReadTask H)
      → s.in_flight ≡ some n
      → length s.reader.buffer < task.bytes_to_read
      → step handle s (begin task) ≡ none
  unfolding step schedule_read run_posted
  doubled s n task busy short = ground (arith, busy)

  -- If every task that a handler returns has a size: after any history in which a sequence of reads is
  -- begun only while no read is in flight, and which leaves a read in flight, a call of `scheduleRead`
  -- with a task for more bytes than the pending one has no defined result, whichever comes next. If the
  -- read completes with exactly the bytes that it asked for, then, with any fuel, the new task's handler
  -- is called with more bytes than the buffer holds; if the posted lambda runs, it starts a second read.
  pub Run-overlap :
      {s : System H} (n fuel : ℕ) (task : ReadTask H) (bytes : List ℕ)
      → AsksForBytes handle
      → Run handle start s
      → s.in_flight ≡ some n
      → IsTask handle task
      → s.reader.pending_task.bytes_to_read < task.bytes_to_read
      → length bytes ≡ n
      → ((schedule_read task >> on_read handle fuel success bytes) s.reader ≡ none)
        × (step handle s (begin task) ≡ none)
  Run-overlap {s} n fuel task bytes asks r busy ((h, e), k) larger exact =
      let (_, lacks) = Run-asks handle n asks r busy in
      (
        replaced fuel task h s.reader bytes e
            (rw length-append (omega (arith, lacks, larger, exact))),
        doubled s n task busy (omega (arith, lacks, larger)),
      )
