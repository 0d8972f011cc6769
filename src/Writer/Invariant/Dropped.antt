-- ===== src/Writer/Invariant/Dropped.antt =====
-- Events of the writer that leave its queue and the stream alone (src/async_writer.cpp): a batch
-- that is dropped, a deadline timer, a callback that is set.
use lib_native_streaming.Common.{ℕ, ◌<◌, ◌≡◌, refl, Bool, true, false, Option, some, [], ◌∷◌, arith}
use lib_native_streaming.Common.Errors.{ErrorCode, success, operation_aborted, failure}
use lib_native_streaming.Writer.{
  BatchedWriteTasks, schedule_write, set_error_handler, set_connection_alive_handler,
  set_write_timed_out_handler, post_queue_batch_write, OptionalWriteDeadline,
}
use lib_native_streaming.Writer.Branches.{
  queue_batch_write_timed_out, queue_batch_write_late, on_deadline_timer_lem,
}
use lib_native_streaming.Writer.System.{
  System, schedule, queue, deadline, set_error, set_alive, set_timed_out, step, launch,
}
use lib_native_streaming.Writer.Invariant.Quiet.{
  quiet_system, Quiet, setter, nothing, first_timeout,
}

pub timed_out-Quiet :
    (s : System) (tasks : BatchedWriteTasks) (d : Option ℕ) (now : ℕ)
    → s.writer.timeout_reached ≡ true
    → Quiet s (queue tasks d now)
unfolding step quiet_system launch
timed_out-Quiet s tasks d now h =
    nothing s (queue tasks d now) (rw (queue_batch_write_timed_out tasks d now s.writer h, h)) h
      refl

pub late-Quiet :
    (s : System) (tasks : BatchedWriteTasks) (d now : ℕ)
    → s.writer.timeout_reached ≡ false
    → d < now
    → Quiet s (queue tasks (some d) now)
unfolding step quiet_system launch
late-Quiet s tasks d now h late =
    first_timeout s (queue tasks (some d) now) h
      (rw (queue_batch_write_late tasks d now s.writer h late, h) (ground arith)) refl

expired-Quiet :
    (s : System) (r : Bool) → s.writer.timeout_reached ≡ r → Quiet s (deadline success true)
unfolding step quiet_system launch
expired-Quiet s true e =
    nothing s (deadline success true) (rw (on_deadline_timer_lem success true s.writer, e)) tt refl
expired-Quiet s false e =
    first_timeout s (deadline success true) e (rw (on_deadline_timer_lem success true s.writer, e))
      refl

pub deadline-Quiet : (s : System) (ec : ErrorCode) (locked : Bool) → Quiet s (deadline ec locked)
unfolding step quiet_system launch
deadline-Quiet s success true = expired-Quiet s s.writer.timeout_reached refl
deadline-Quiet s success false =
    nothing s (deadline success false) (rw (on_deadline_timer_lem success false s.writer)) tt refl
deadline-Quiet s operation_aborted locked =
    nothing s (deadline operation_aborted locked)
      (rw (on_deadline_timer_lem operation_aborted locked s.writer)) tt refl
deadline-Quiet s (failure n) locked =
    nothing s (deadline (failure n) locked) (rw (on_deadline_timer_lem (failure n) locked s.writer))
      tt refl

pub schedule-Quiet :
    (s : System) (tasks : BatchedWriteTasks) (d : OptionalWriteDeadline)
    → Quiet s (schedule tasks d)
unfolding step quiet_system launch schedule_write
schedule-Quiet s tasks d = record {
  writer = s.writer;
  effects = post_queue_batch_write tasks d ∷ [];
  result = refl;
  same_queue = refl;
  no_call = refl;
  no_write = refl;
  no_timer = (refl, refl);
  same_timer = refl;
  refused = tt;
  hears = refl;
  count = omega arith;
}

pub set_error-Quiet : (s : System) (cb : ℕ) → Quiet s (set_error cb)
unfolding step quiet_system launch set_error_handler
set_error-Quiet s cb =
    setter s (set_error cb) (record s.writer { error_handler = some cb }) refl refl refl refl tt
      refl

pub set_alive-Quiet : (s : System) (cb : ℕ) → Quiet s (set_alive cb)
unfolding step quiet_system launch set_connection_alive_handler
set_alive-Quiet s cb =
    setter s (set_alive cb) (record s.writer { connection_alive_callback = some cb }) refl refl refl
      refl tt refl

pub set_timed_out-Quiet : (s : System) (cb : ℕ) → Quiet s (set_timed_out cb)
unfolding step quiet_system launch set_write_timed_out_handler
set_timed_out-Quiet s cb =
    setter s (set_timed_out cb) (record s.writer { write_task_timeout_handler = some cb }) refl refl
      refl refl tt refl
