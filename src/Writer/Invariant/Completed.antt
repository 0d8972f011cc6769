-- ===== src/Writer/Invariant/Completed.antt =====
-- `writeDone` (src/async_writer.cpp), with and without an error.
use lib_native_streaming.Common.{
  ℕ, ◌≡◌, refl, subst, Bool, true, false, Option, none, some, List, [], ◌∷◌, ◌++◌, map, arith,
  append-nil, append_assoc, map-append,
}
use lib_native_streaming.Common.Errors.{ErrorCode, success}
use lib_native_streaming.Writer.{
  AsyncWriter, BatchedWriteTasks, BatchedWriteTasksWithDeadline, buffers_of, handlers_of, Effect,
}
use lib_native_streaming.Writer.Branches.{
  cancel_effects, done_effects, after_effects, write_done_lem,
}
use lib_native_streaming.Writer.System.{
  Buffers, System, complete, step, calls, writes, timeouts, launch,
}
use lib_native_streaming.Writer.Trace.{
  calls-append, timeouts-append, calls-handlers, writes-handlers, timeouts-handlers,
  launch-handlers,
}
use lib_native_streaming.Writer.Invariant.{
  Queue, Fits, unwritten, all_tasks, handlers, Inv, written_by,
}

abbrev pub flight_next : ErrorCode → Bool → Queue → Option Buffers
flight_next success false (b ∷ q) = some (buffers_of b.tasks)
flight_next _ _ _ = none

rest_of : ErrorCode → AsyncWriter → Option ℕ → Queue → List Effect
rest_of ec w t q = cancel_effects t ++ after_effects ec w q

launch_rest :
    (ec : ErrorCode) (w : AsyncWriter) (t : Option ℕ) (q : Queue)
    → launch (rest_of ec w t q) none ≡ some (flight_next ec w.timeout_reached q)
unfolding launch rest_of
launch_rest success w none [] = ground arith
launch_rest success w none (b ∷ q) = ground arith
launch_rest success w (some t) [] = ground arith
launch_rest success w (some t) (b ∷ q) = ground arith
launch_rest _ w none q = ground arith
launch_rest _ w (some t) q = ground arith

calls_rest :
    (ec : ErrorCode) (w : AsyncWriter) (t : Option ℕ) (q : Queue) → calls (rest_of ec w t q) ≡ []
unfolding rest_of
calls_rest success w none [] = ground arith
calls_rest success w none (b ∷ q) = ground arith
calls_rest success w (some t) [] = ground arith
calls_rest success w (some t) (b ∷ q) = ground arith
calls_rest _ w none q = ground arith
calls_rest _ w (some t) q = ground arith

timeouts_rest :
    (ec : ErrorCode) (w : AsyncWriter) (t : Option ℕ) (q : Queue) → timeouts (rest_of ec w t q) ≡ 0
unfolding rest_of
timeouts_rest success w none [] = ground arith
timeouts_rest success w none (b ∷ q) = ground arith
timeouts_rest success w (some t) [] = ground arith
timeouts_rest success w (some t) (b ∷ q) = ground arith
timeouts_rest _ w none q = ground arith
timeouts_rest _ w (some t) q = ground arith

-- What is written next, and what is left, is the queue.
writes_rest :
    (ec : ErrorCode) (w : AsyncWriter) (t : Option ℕ) (q : Queue)
    → writes (rest_of ec w t q)
        ++ map buffers_of (all_tasks (unwritten (flight_next ec w.timeout_reached q) q))
      ≡ map buffers_of (all_tasks q)
unfolding rest_of
writes_rest success w none [] = ground arith
writes_rest success w none (b ∷ q) = ground arith
writes_rest success w (some t) [] = ground arith
writes_rest success w (some t) (b ∷ q) = ground arith
writes_rest _ w none q = ground arith
writes_rest _ w (some t) q = ground arith

Fits-next : (ec : ErrorCode) (r : Bool) (q : Queue) → Fits (flight_next ec r q) q
Fits-next success true [] = tt
Fits-next success true (b ∷ q) = tt
Fits-next success false [] = tt
Fits-next success false (b ∷ q) = refl
Fits-next _ _ _ = tt

abbrev pub flight_list : Option Buffers → List Buffers
flight_list none = []
flight_list (some bs) = bs ∷ []

given_rest :
    (ec : ErrorCode) (w : AsyncWriter) (t : Option ℕ) (q : Queue)
    → writes (rest_of ec w t q) ≡ flight_list (flight_next ec w.timeout_reached q)
unfolding rest_of
given_rest success w none [] = ground arith
given_rest success w none (b ∷ q) = ground arith
given_rest success w (some t) [] = ground arith
given_rest success w (some t) (b ∷ q) = ground arith
given_rest _ w none q = ground arith
given_rest _ w (some t) q = ground arith

-- A completion gives the stream the next batch, or none.
pub given_done :
    (ec : ErrorCode) (w : AsyncWriter) (b : BatchedWriteTasksWithDeadline) (q : Queue)
    → writes (done_effects ec w b q) ≡ flight_list (flight_next ec w.timeout_reached q)
unfolding rest_of
given_done ec w b q =
    rw (writes-handlers (handlers_of b.tasks) (rest_of ec w b.deadline_timer q))
      (given_rest ec w b.deadline_timer q)

unfoldable pub completed_system :
    System → ErrorCode → BatchedWriteTasksWithDeadline → Queue → System
completed_system s ec b q = record {
  writer = record s.writer { write_tasks_queue = q };
  in_flight = flight_next ec s.writer.timeout_reached q;
  accepted = s.accepted ++ [];
  trace = s.trace ++ done_effects ec s.writer b q;
}

pub step-completed :
    (s : System) (ec : ErrorCode) (b : BatchedWriteTasksWithDeadline) (q : Queue)
    → s.writer.write_tasks_queue ≡ b ∷ q
    → step s (complete ec) ≡ some (completed_system s ec b q)
unfolding step completed_system rest_of
step-completed s ec b q e = rw (
  write_done_lem ec s.writer b q e,
  launch-handlers (handlers_of b.tasks) (rest_of ec s.writer b.deadline_timer q) none,
  launch_rest ec s.writer b.deadline_timer q,
)

handled_pop :
    (t es : List Effect) (b : BatchedWriteTasksWithDeadline) (q : Queue)
    (acc : List BatchedWriteTasks)
    → calls es ≡ handlers_of b.tasks
    → calls t ++ handlers (all_tasks (b ∷ q)) ≡ handlers acc
    → calls (t ++ es) ++ handlers (all_tasks q) ≡ handlers (acc ++ [])
handled_pop t es b q acc called h =
    rw
      (
        append-nil acc,
        calls-append t es,
        called,
        append_assoc (calls t) (handlers_of b.tasks) (handlers (all_tasks q)),
      )
      h

pub calls_done :
    (ec : ErrorCode) (w : AsyncWriter) (b : BatchedWriteTasksWithDeadline) (q : Queue)
    → calls (done_effects ec w b q) ≡ handlers_of b.tasks
unfolding rest_of
calls_done ec w b q = rw (
  calls-handlers (handlers_of b.tasks) (rest_of ec w b.deadline_timer q),
  calls_rest ec w b.deadline_timer q,
  append-nil (handlers_of b.tasks),
)

writes_done :
    (ec : ErrorCode) (w : AsyncWriter) (b : BatchedWriteTasksWithDeadline) (q : Queue)
    → writes (done_effects ec w b q)
        ++ map buffers_of (all_tasks (unwritten (flight_next ec w.timeout_reached q) q))
      ≡ map buffers_of (all_tasks q) ++ []
unfolding rest_of
writes_done ec w b q = rw (
  writes-handlers (handlers_of b.tasks) (rest_of ec w b.deadline_timer q),
  writes_rest ec w b.deadline_timer q,
  append-nil (map buffers_of (all_tasks q)),
)

pub completed_system-Inv :
    (s : System) (ec : ErrorCode) (bs : Buffers) (b : BatchedWriteTasksWithDeadline) (q : Queue)
    → s.writer.write_tasks_queue ≡ b ∷ q
    → s.in_flight ≡ some bs
    → Inv s
    → Inv (completed_system s ec b q)
unfolding completed_system rest_of
completed_system-Inv s ec bs b q e f inv =
    let w = s.writer in
    let hs = handlers_of b.tasks in
    let rest = rest_of ec w b.deadline_timer q in
    let es = done_effects ec w b q in
    let left : writes s.trace ++ map buffers_of (all_tasks q) ≡ map buffers_of s.accepted =
      ground (arith, inv.written) in
    record {
      fits = Fits-next ec w.timeout_reached q;
      handled = handled_pop s.trace es b q s.accepted (calls_done ec w b q) (
          subst (λ (l : Queue). calls s.trace ++ handlers (all_tasks l) ≡ handlers s.accepted) e
            inv.handled);
      written =
          rw (map-append buffers_of s.accepted []) (
            written_by s.trace es _ (map buffers_of (all_tasks q)) _ [] (writes_done ec w b q)
              left);
      reported = omega (
        arith,
        timeouts-append s.trace es,
        timeouts-handlers hs rest,
        timeouts_rest ec w b.deadline_timer q,
        inv.reported,
      );
    }
