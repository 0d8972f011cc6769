-- ===== src/Writer/Branches.antt =====
-- What each method of `AsyncWriter` (src/async_writer.cpp) does on each of its branches, in closed
-- form: the new state and the effects. The other modules reason from these equations.
use lib_native_streaming.Common.{
  ℕ, suc, ◌<◌, ◌≡◌, refl, Bool, true, false, Option, none, some, List, [], ◌∷◌, ◌++◌, map, ltb,
  arith, if◌then◌else◌,
}
use lib_native_streaming.Common.Errors.{
  ErrorCode, success, operation_aborted, failure, is_error, err,
}
use lib_native_streaming.Writer.{
  AsyncWriter, BatchedWriteTasks, BatchedWriteTasksWithDeadline, Effect, async_write,
  call_write_handler, start_timer, cancel_timer, call_error_handler, call_timeout_handler,
  call_connection_alive, log, buffers_of, handlers_of, on_deadline_timer, queue_batch_write,
  write_done,
}

abbrev pub batch : BatchedWriteTasks → Option ℕ → BatchedWriteTasksWithDeadline
batch tasks timer = record { tasks = tasks; deadline_timer = timer }

-- Whether `queueBatchWrite` takes a batch: no deadline was missed, this one's included.
abbrev pub accepts : Bool → Option ℕ → ℕ → Bool
accepts true deadline now = false
accepts false none now = true
accepts false (some deadline) now = if ltb deadline now then false else true

-- The timer of an accepted batch, its effects, and the next free name.
abbrev pub timer_for : Option ℕ → ℕ → Option ℕ
timer_for none next = none
timer_for (some deadline) next = some next

abbrev pub timer_effects : Option ℕ → ℕ → List Effect
timer_effects none next = []
timer_effects (some deadline) next = start_timer next deadline ∷ []

abbrev pub next_timer_after : Option ℕ → ℕ → ℕ
next_timer_after none next = next
next_timer_after (some deadline) next = suc next

-- A write starts at once if no batch waits.
abbrev pub first_write : List BatchedWriteTasksWithDeadline → BatchedWriteTasks → List Effect
first_write [] tasks = async_write (buffers_of tasks) ∷ []
first_write (b ∷ q) tasks = []

abbrev pub timeout_effects : AsyncWriter → List Effect
timeout_effects w = call_timeout_handler w.write_task_timeout_handler ∷ []

pub queue_batch_write_accepted :
    (tasks : BatchedWriteTasks) (deadline : Option ℕ) (now : ℕ) (w : AsyncWriter)
    (q : List BatchedWriteTasksWithDeadline)
    → w.write_tasks_queue ≡ q
    → accepts w.timeout_reached deadline now ≡ true
    → queue_batch_write tasks deadline now w
      ≡ some (
        tt,
        record w {
          write_tasks_queue = q ++ batch tasks (timer_for deadline w.next_timer) ∷ [];
          next_timer = next_timer_after deadline w.next_timer;
        },
        timer_effects deadline w.next_timer ++ first_write q tasks,
      )
unfolding queue_batch_write
queue_batch_write_accepted tasks none now w [] e h = ground arith
queue_batch_write_accepted tasks none now w (b ∷ q) e h = ground arith
queue_batch_write_accepted tasks (some d) now w [] e h = ground arith
queue_batch_write_accepted tasks (some d) now w (b ∷ q) e h = ground arith

-- A batch that comes after a missed deadline is dropped: no state, no effect.
pub queue_batch_write_timed_out :
    (tasks : BatchedWriteTasks) (deadline : Option ℕ) (now : ℕ) (w : AsyncWriter)
    → w.timeout_reached ≡ true
    → queue_batch_write tasks deadline now w ≡ some (tt, w, [])
unfolding queue_batch_write
queue_batch_write_timed_out tasks deadline now w h = ground arith

-- A batch that comes after its own deadline is dropped too, and reported.
pub queue_batch_write_late :
    (tasks : BatchedWriteTasks) (deadline now : ℕ) (w : AsyncWriter)
    → w.timeout_reached ≡ false
    → deadline < now
    → queue_batch_write tasks (some deadline) now w
      ≡ some (tt, record w { timeout_reached = true }, timeout_effects w)
unfolding queue_batch_write
queue_batch_write_late tasks deadline now w h late = ground arith

abbrev pub timer_result :
    ErrorCode → Bool → AsyncWriter → Option (Unit {0} × AsyncWriter × List Effect)
timer_result success true w =
    if w.timeout_reached
    then some (tt, w, [])
    else some (tt, record w { timeout_reached = true }, timeout_effects w)
timer_result _ _ w = some (tt, w, [])

pub on_deadline_timer_lem :
    (ec : ErrorCode) (locked : Bool) (w : AsyncWriter)
    → on_deadline_timer ec locked w ≡ timer_result ec locked w
unfolding on_deadline_timer
on_deadline_timer_lem success true w = ground arith
on_deadline_timer_lem success false w = refl
on_deadline_timer_lem operation_aborted locked w = refl
on_deadline_timer_lem (failure n) locked w = refl

abbrev pub cancel_effects : Option ℕ → List Effect
cancel_effects none = []
cancel_effects (some timer) = cancel_timer timer ∷ []

-- The write that follows a completed one: of the next batch, unless a deadline was missed.
abbrev pub next_write : Bool → List BatchedWriteTasksWithDeadline → List Effect
next_write true q = []
next_write false [] = []
next_write false (b ∷ q) = async_write (buffers_of b.tasks) ∷ []

abbrev pub error_effects : ErrorCode → Option ℕ → List Effect
error_effects ec none = log err ∷ []
error_effects ec (some cb) = call_error_handler cb ec ∷ []

abbrev pub after_effects :
    ErrorCode → AsyncWriter → List BatchedWriteTasksWithDeadline → List Effect
after_effects ec w q =
    if is_error ec
    then error_effects ec w.error_handler
    else call_connection_alive w.connection_alive_callback ∷ next_write w.timeout_reached q

abbrev pub done_effects :
    ErrorCode
    → AsyncWriter
    → BatchedWriteTasksWithDeadline
    → List BatchedWriteTasksWithDeadline
    → List Effect
done_effects ec w b q =
    map call_write_handler (handlers_of b.tasks)
    ++ (cancel_effects b.deadline_timer ++ after_effects ec w q)

write_done_of_front :
    (ec : ErrorCode) (w : AsyncWriter) (tasks : BatchedWriteTasks) (timer : Option ℕ)
    (q : List BatchedWriteTasksWithDeadline)
    → w.write_tasks_queue ≡ batch tasks timer ∷ q
    → write_done ec w
      ≡ some (tt, record w { write_tasks_queue = q }, done_effects ec w (batch tasks timer) q)
unfolding write_done
write_done_of_front success w tasks none [] e = rw (e, write_done) (ground arith)
write_done_of_front success w tasks none (b ∷ q) e = rw (e, write_done) (ground arith)
write_done_of_front success w tasks (some t) [] e = rw (e, write_done) (ground arith)
write_done_of_front success w tasks (some t) (b ∷ q) e = rw (e, write_done) (ground arith)
write_done_of_front _ w tasks none q e = rw (e, write_done) (ground arith)
write_done_of_front _ w tasks (some t) q e = rw (e, write_done) (ground arith)

pub write_done_lem :
    (ec : ErrorCode) (w : AsyncWriter) (b : BatchedWriteTasksWithDeadline)
    (q : List BatchedWriteTasksWithDeadline)
    → w.write_tasks_queue ≡ b ∷ q
    → write_done ec w ≡ some (tt, record w { write_tasks_queue = q }, done_effects ec w b q)
write_done_lem ec w b q e = write_done_of_front ec w b.tasks b.deadline_timer q e
