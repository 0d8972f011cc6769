-- ===== src/Session/Events.antt =====
-- A whole session (src/session.cpp) among the events that reach it. Its methods are called while it is
-- there; its halves' operations complete, also after it was destroyed, since each half holds itself in
-- its lambdas.
use lib_native_streaming.Common.{
  ℕ, suc, ◌≡◌, Bool, true, false, Option, none, some, List, [], ◌∷◌, ◌++◌, length, pick, ◌<◌,
}
use lib_native_streaming.Common.Errors.{ErrorCode}
use lib_native_streaming.Common.Effects.{◌>>◌}
use lib_native_streaming.Common.Connections.{SessionArguments}
use lib_native_streaming.Reader.{ReadTask, no_task, run_posted}
use lib_native_streaming.Reader.System as Receiving
use lib_native_streaming.Reader.System.{IsTask, arrived, failed}
use lib_native_streaming.Writer.{BatchedWriteTasks, OptionalWriteDeadline}
use lib_native_streaming.Writer.System as Sending
use lib_native_streaming.Writer.System.{Buffers, queue, complete, deadline}
use lib_native_streaming.Session.{
  Session, Effect, FrameType, with_reader, new_session, construct, destroy, close_session, on_close,
  set_error_handlers, schedule_read, schedule_write, on_heartbeat, on_pong,
  start_connection_activity_monitoring, on_control, set_write_timed_out_handler,
}
use lib_native_streaming.Session.Life.{new_life, monitored, wait_over, pong_sent, close_asked}
use lib_native_streaming.Session.Assembly.{
  Assembly, Posted, sender_of, receiver_of, called, taken_up, after_sending, after_receiving, begun,
}

-- The methods, the destructor, then what completes: an operation of a half, the close, a wait for the
-- heartbeat timer, a pong, and a control frame that arrives. The number says which of the closes in
-- flight completes.
pub data Event (H : Type 0) : Type 0 where
  schedules : BatchedWriteTasks → OptionalWriteDeadline → Event H
  begins : ReadTask H → Event H
  handlers : Option ℕ → Option ℕ → Event H
  times_out : Option ℕ → Event H
  monitor : ℕ → ℕ → Bool → Event H
  closes : Option ℕ → Event H
  destroyed : Event H
  sending : Sending.Event → Event H
  receiving : Receiving.Event H → Event H
  closed : ℕ → Bool → ErrorCode → Event H
  waited : ErrorCode → Bool → Event H
  ponged : ErrorCode → Event H
  control : FrameType → Event H

abbrev pub asked :
    {H : Type 0} → Assembly H → BatchedWriteTasks → OptionalWriteDeadline → Assembly H
asked s tasks d = record s { requested = s.requested ++ (tasks, d) ∷ [] }

abbrev pub close_over :
    {H : Type 0}
    → Assembly H
    → Bool
    → ErrorCode
    → Option (Option ℕ × List (Option ℕ))
    → Option (Assembly H)
close_over s is_open ec none = none
close_over s is_open ec (some (cb, rest)) =
    called (record s { life = record s.life { closing = rest } })
      (on_close cb s.alive is_open ec s.session)

module _ {H : Type 0} (handle : H → List ℕ → ReadTask H) where
  unfoldable pub step : Assembly H → Event H → Option (Assembly H)
  unfolding schedule_write schedule_read set_error_handlers set_write_timed_out_handler
      start_connection_activity_monitoring close_session destroy on_close on_heartbeat on_pong
      on_control
  step s (schedules tasks d) = called (asked s tasks d) (schedule_write tasks d s.session)
  step s (begins task) = begun s task (
      (schedule_read task >> with_reader (run_posted handle (suc (length s.session.reader.buffer))))
        s.session)
  step s (handlers on_write on_read) = called s (set_error_handlers on_write on_read s.session)
  step s (times_out cb) = called s (set_write_timed_out_handler cb s.session)
  step s (monitor cb period is_open) =
      called (record s { life = monitored cb is_open s.life })
        (start_connection_activity_monitoring cb period is_open s.session)
  step s (closes cb) =
      called (record s { life = close_asked cb s.life }) (close_session cb s.session)
  step s destroyed = called (record s { alive = false }) (destroy s.session)
  step s (sending e) =
      after_sending (record s { posted = taken_up e s.posted }) (Sending.step (sender_of s) e)
  step s (receiving e) = after_receiving s (Receiving.step handle (receiver_of s) e)
  step s (closed i is_open ec) = close_over s is_open ec (pick i s.life.closing)
  step s (waited ec is_open) =
      called (record s { life = wait_over ec s.alive is_open s.life })
        (on_heartbeat ec s.alive is_open s.session)
  step s (ponged ec) =
      called (record s { life = pong_sent ec s.alive s.life }) (on_pong ec s.alive s.session)
  step s (control kind) = called s (on_control s.alive kind s.session)

  abbrev pub OfStream : Assembly H → Event H → Type 0
  OfStream s (sending (queue tasks d now)) = (rest : List Posted) × (s.posted ≡ (tasks, d) ∷ rest)
  OfStream s (sending (complete ec)) = Sending.Enabled (sender_of s) (complete ec)
  OfStream s (sending (deadline ec locked)) = Unit {0}
  OfStream s (sending _) = ⊥
  OfStream s (receiving (arrived xs)) = Receiving.Possible handle (receiver_of s) (arrived xs)
  OfStream s (receiving (failed ec xs)) = Receiving.Possible handle (receiver_of s) (failed ec xs)
  OfStream s (receiving _) = ⊥
  OfStream s (closed i is_open ec) =
      (cb : Option ℕ) × (rest : List (Option ℕ)) × (pick i s.life.closing ≡ some (cb, rest))
  OfStream s (waited ec is_open) = 0 < s.life.waits
  OfStream s (ponged ec) = 0 < s.life.pongs
  OfStream s _ = Unit {0}

  -- The lambdas of `scheduleWrite` run in the order in which they were posted. The methods are called
  -- while the session is there. The histories are orderly, as those of Reader/System.antt are: a sequence
  -- of reads is begun only while no read is in flight, which `Session::scheduleRead` does not check.
  abbrev pub Enabled : Assembly H → Event H → Type 0
  Enabled s (begins task) = (s.alive ≡ true) × (s.reading ≡ none) × IsTask handle task
  Enabled s (schedules tasks d) = s.alive ≡ true
  Enabled s (handlers w r) = s.alive ≡ true
  Enabled s (times_out cb) = s.alive ≡ true
  Enabled s (monitor cb period is_open) = s.alive ≡ true
  Enabled s (closes cb) = s.alive ≡ true
  Enabled s destroyed = s.alive ≡ true
  Enabled s e = OfStream s e

  pub data Run (s : Assembly H) : Assembly H → Type 0 where
    here : Run s s
    next : {t u : Assembly H} (e : Event H) → Run s t → Enabled t e → step t e ≡ some u → Run s u

abbrev said : {H : Type 0} → Option (Unit {0} × Session H × List (Effect H)) → List (Effect H)
said none = []
said (some (tt, session, es)) = es

-- A session that the constructor has made: `setOptions` has no effect on its state.
unfoldable pub start : {H : Type 0} → SessionArguments → Assembly H
unfolding new_session construct
start a = record {
  session = new_session a;
  alive = true;
  writing = none;
  accepted = [];
  sent = [];
  requested = [];
  posted = [];
  life = new_life;
  reading = none;
  entry = no_task;
  received = [];
  sequence = [];
  failures = 0;
  trace = said (construct a);
}
