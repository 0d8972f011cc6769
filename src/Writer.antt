-- ===== src/Writer.antt =====
-- include/native_streaming/async_writer.hpp and src/async_writer.cpp: the state of `AsyncWriter`
-- and its methods, each an action of `M AsyncWriter Effect`. A callback is named by a number; a call
-- of it, of a timer or of the web-socket stream is an effect.
pub mod Branches
pub mod System
pub mod Trace
pub mod Invariant
pub mod Order
pub mod Timeout
pub mod Intake
pub mod Callback
pub mod Deadlines
pub mod Stall
pub mod Drain
mod Tests
use lib_native_streaming.Common.{
  ℕ, suc, Bool, true, false, Option, none, some, List, [], ◌∷◌, ◌++◌, map, ltb, if◌then◌else◌, not,
}
use lib_native_streaming.Common.Errors.{ErrorCode, is_error, LogLevel, err}
use lib_native_streaming.Common.Effects.{
  M, ◌>>=◌, ◌>>◌, get, modify, emit, emit_all, skip, undefined,
}

-- `handler` names the callback that releases what `buffer` points to; `buffer` is the bytes there.
pub record WriteTask : Type 0 where
  pub buffer : List ℕ
  pub handler : ℕ

abbrev pub BatchedWriteTasks : Type 0
BatchedWriteTasks = List WriteTask

-- A time point of the steady clock is a number.
abbrev pub OptionalWriteDeadline : Type 0
OptionalWriteDeadline = Option ℕ

-- `std::pair<BatchedWriteTasks, OptionalDeadlineTimer>`; a timer is named by a number.
pub record BatchedWriteTasksWithDeadline : Type 0 where
  pub tasks : BatchedWriteTasks
  pub deadline_timer : Option ℕ

-- The callbacks that have a default, an empty λ, are `none` until they are set; `error_handler` is
-- `none` until it is set too, and then there is nothing to call. The head of `write_tasks_queue` is
-- its front. `next_timer` names the next timer that is allocated.
pub record AsyncWriter : Type 0 where
  pub timeout_reached : Bool
  pub write_tasks_queue : List BatchedWriteTasksWithDeadline
  pub error_handler : Option ℕ
  pub write_task_timeout_handler : Option ℕ
  pub connection_alive_callback : Option ℕ
  pub next_timer : ℕ

pub data Effect : Type 0 where
  -- `wsStream->async_write(buffers, …)`.
  async_write : List (List ℕ) → Effect
  -- `handler()` of a write task.
  call_write_handler : ℕ → Effect
  -- `expires_at` and `async_wait` of a new timer; `cancel` of a timer.
  start_timer : ℕ → ℕ → Effect
  cancel_timer : ℕ → Effect
  -- The callbacks of the user; `none` is the empty λ.
  call_error_handler : ℕ → ErrorCode → Effect
  call_timeout_handler : Option ℕ → Effect
  call_connection_alive : Option ℕ → Effect
  -- `post(strand.wrap(…))` of a lambda that calls `queueBatchWrite` with what it captured.
  post_queue_batch_write : BatchedWriteTasks → OptionalWriteDeadline → Effect
  log : LogLevel → Effect

abbrev pub Writer : Type 0 → Type 0
Writer = M AsyncWriter Effect

unfoldable pub new_writer : AsyncWriter
new_writer = record {
  timeout_reached = false;
  write_tasks_queue = [];
  error_handler = none;
  write_task_timeout_handler = none;
  connection_alive_callback = none;
  next_timer = 0;
}

unfoldable pub schedule_write : BatchedWriteTasks → OptionalWriteDeadline → Writer (Unit {0})
schedule_write tasks deadline_time = emit (post_queue_batch_write tasks deadline_time)

unfoldable pub set_error_handler : ℕ → Writer (Unit {0})
set_error_handler cb = modify λ w. record w { error_handler = some cb }

unfoldable pub set_connection_alive_handler : ℕ → Writer (Unit {0})
set_connection_alive_handler cb = modify λ w. record w { connection_alive_callback = some cb }

unfoldable pub set_write_timed_out_handler : ℕ → Writer (Unit {0})
set_write_timed_out_handler cb = modify λ w. record w { write_task_timeout_handler = some cb }

unfoldable pub on_timeout_reached : Writer (Unit {0})
on_timeout_reached = do
  w ← get
  if w.timeout_reached then skip else do
    modify λ v. record v { timeout_reached = true }
    emit (call_timeout_handler w.write_task_timeout_handler)

-- The lambda given to `deadlineTimer->async_wait`; `locked` is whether `weak_self.lock()` succeeds.
unfoldable pub on_deadline_timer : ErrorCode → Bool → Writer (Unit {0})
unfolding on_timeout_reached
on_deadline_timer ec locked =
    if is_error ec then skip else if locked then on_timeout_reached else skip

unfoldable pub setup_deadline_timer : ℕ → Writer ℕ
setup_deadline_timer deadline = do
  w ← get
  modify λ v. record v { next_timer = suc v.next_timer }
  emit (start_timer w.next_timer deadline)
  λ v. some (w.next_timer, v, [])

abbrev pub buffers_of : BatchedWriteTasks → List (List ℕ)
buffers_of = map λ t. t.buffer

abbrev pub handlers_of : BatchedWriteTasks → List ℕ
handlers_of = map λ t. t.handler

unfoldable pub do_write : BatchedWriteTasksWithDeadline → Writer (Unit {0})
do_write tasks_with_deadline = do
  w ← get
  if w.timeout_reached then skip else emit (async_write (buffers_of tasks_with_deadline.tasks))

-- `writeTasksQueue.front()`, which is undefined on the empty queue.
unfoldable pub front : Writer BatchedWriteTasksWithDeadline
front w = elim w.write_tasks_queue [ [] ↦ none | b ∷ bs ↦ some (b, w, []) ]

abbrev pub is_empty {ℓ} : {A : Type ℓ} → List A → Bool
is_empty [] = true
is_empty (x ∷ xs) = false

abbrev pub tail {ℓ} : {A : Type ℓ} → List A → List A
tail [] = []
tail (x ∷ xs) = xs

-- The end of `queueBatchWrite`: `writeTasksQueue.push(…)`, and a write if the queue was empty.
unfoldable pub push_batch : BatchedWriteTasks → Option ℕ → Writer (Unit {0})
unfolding do_write front
push_batch tasks deadline_timer = do
  w ← get
  let writing = not (is_empty w.write_tasks_queue)
  modify λ v. record v {
    write_tasks_queue =
        v.write_tasks_queue ++ record { tasks = tasks; deadline_timer = deadline_timer } ∷ [];
  }
  if writing then skip else do b ← front; do_write b

-- `now` is what `steady_clock::now()` returns.
unfoldable pub queue_batch_write : BatchedWriteTasks → OptionalWriteDeadline → ℕ → Writer (Unit {0})
unfolding push_batch on_timeout_reached setup_deadline_timer
queue_batch_write tasks deadline_time now = do
  w ← get
  if w.timeout_reached then skip else elim deadline_time [
    | none ↦ push_batch tasks none
    | some deadline_value ↦
        if ltb deadline_value now
        then on_timeout_reached
        else do timer ← setup_deadline_timer deadline_value; push_batch tasks (some timer)
  ]

abbrev pub cancel_deadline : Option ℕ → Writer (Unit {0})
cancel_deadline none = skip
cancel_deadline (some timer) = emit (cancel_timer timer)

abbrev pub report_error : ErrorCode → Option ℕ → Writer (Unit {0})
report_error ec none = emit (log err)
report_error ec (some cb) = emit (call_error_handler cb ec)

-- The branch of `writeDone` without an error, after the pop.
unfoldable pub write_next : Writer (Unit {0})
unfolding do_write front
write_next = do
  w ← get
  emit (call_connection_alive w.connection_alive_callback)
  if is_empty w.write_tasks_queue then skip else do b ← front; do_write b

unfoldable pub write_done : ErrorCode → Writer (Unit {0})
unfolding front write_next
write_done ec = do
  b ← front
  emit_all (map call_write_handler (handlers_of b.tasks))
  cancel_deadline b.deadline_timer
  modify λ v. record v { write_tasks_queue = tail v.write_tasks_queue }
  w ← get
  if is_error ec then report_error ec w.error_handler else write_next
