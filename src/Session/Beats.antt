-- ===== src/Session/Beats.antt =====
-- The beats, the closes and the signs of life of a whole session (src/session.cpp), over its history.
use mathlib.Core.List.Perm
use mathlib.Core.List.{Perm}
use lib_native_streaming.Common.{
  ap, false, ℕ, suc, ◌+◌, ◌≡◌, refl, subst, false, List, [], ◌∷◌, ◌++◌, length, drop, pick,
  pick-Perm,
}
use lib_native_streaming.Common.Connections.{SessionArguments}
use lib_native_streaming.Common.Effects.{◌>>◌}
use lib_native_streaming.Reader.{ReadTask, AsyncReader, run_posted}
use lib_native_streaming.Reader
use lib_native_streaming.Reader.System as Receiving
use lib_native_streaming.Writer
use lib_native_streaming.Writer.System as Sending
use lib_native_streaming.Writer.System.{queue, complete, deadline}
use lib_native_streaming.Session.{
  new_session, Session, of_writer, with_reader, schedule_read, close_session, destroy,
  set_error_handlers, schedule_write, on_heartbeat, on_pong, on_control,
  start_connection_activity_monitoring, set_write_timed_out_handler, cancel_timer, cancel_stream,
}
use lib_native_streaming.Session.Life.{monitored, wait_over, pong_sent, close_asked}
use lib_native_streaming.Session.Assembly.{Assembly, sender_of, receiver_of}
use lib_native_streaming.Session.Events.{
  Event, schedules, begins, handlers, times_out, monitor, closes, destroyed, sending, receiving,
  closed, waited, ponged, control, step, asked, Enabled, Run, here, next, start,
}
use lib_native_streaming.Session.Lifetime.{
  Callbacks, hears, Inv, callbacks, quiet-Grown, monitor-Grown, waited-Grown, ponged-Grown,
  close-Grown, control-Grown,
}
use lib_native_streaming.Writer.Callback.{step-Hears}
use lib_native_streaming.Writer.Invariant.Quiet.{Callbacks as Writes}
use lib_native_streaming.Reader.Callback.{Callbacks as Reads, run_posted-Leaves, step-callback}
use lib_native_streaming.Reader.System.{arrived, failed}
use lib_native_streaming.Writer.System.{queue, complete, deadline}
use lib_native_streaming.Session.Halves.{Run-halves}
use lib_native_streaming.Session.Lives.{
  Lives, called-Lives, sending-Lives, receiving-Lives, heard, read_heard, schedule_read-Keeps,
  begun-Lives, close_over-Lives,
}

module _ {H : Type 0} (handle : H → List ℕ → ReadTask H) where
  step-Lives :
      (s : Assembly H) (e : Event H)
      → Sending.Run Sending.start (sender_of s)
      → Enabled handle s e
      → Inv (hears s.session) s.life
      → Lives (step handle s e)
  unfolding step schedule_write Writer.schedule_write set_error_handlers Writer.set_error_handler
      Reader.set_error_handler set_write_timed_out_handler Writer.set_write_timed_out_handler
      destroy
  step-Lives s (schedules tasks d) r ok inv =
      called-Lives (asked s tasks d) (schedule_write tasks d s.session) (
        quiet-Grown s.life (tt, s.session, of_writer (Writer.post_queue_batch_write tasks d) ∷ [])
          refl refl refl refl inv)
  step-Lives s (begins task) r ok inv =
      begun-Lives s task
        ((schedule_read task
            >> with_reader (run_posted handle (suc (length s.session.reader.buffer))))
          s.session)
        (schedule_read-Keeps task (run_posted handle (suc (length s.session.reader.buffer)))
          s.session _ refl
          (run_posted-Leaves handle (suc (length s.session.reader.buffer))
            (record s.session.reader { pending_task = task })))
        inv
  step-Lives s (handlers on_write on_read) r ok inv =
      called-Lives s (set_error_handlers on_write on_read s.session)
        (quiet-Grown s.life (tt, s.session, []) refl refl refl refl inv)
  step-Lives s (times_out cb) r ok inv =
      called-Lives s (set_write_timed_out_handler cb s.session)
        (quiet-Grown s.life (tt, s.session, []) refl refl refl refl inv)
  step-Lives s (monitor cb period is_open) r ok inv =
      called-Lives (record s { life = monitored cb is_open s.life })
        (start_connection_activity_monitoring cb period is_open s.session)
        (monitor-Grown cb period is_open s.session s.life inv)
  step-Lives s (closes cb) r ok inv =
      called-Lives (record s { life = close_asked cb s.life }) (close_session cb s.session)
        (close-Grown cb s.session s.life inv)
  step-Lives s destroyed r ok inv =
      called-Lives (record s { alive = false }) (destroy s.session)
        (quiet-Grown s.life (tt, s.session, cancel_timer ∷ cancel_stream ∷ []) refl refl refl refl
          inv)
  step-Lives s (sending (queue tasks d now)) r ok inv =
      sending-Lives (record s { posted = drop 1 s.posted })
        (Sending.step (sender_of s) (queue tasks d now))
        (λ u eq. heard s u (ap (λ (c : Writes). c.2) (step-Hears (queue tasks d now) r tt eq))) inv
  step-Lives s (sending (complete ec)) r ok inv =
      sending-Lives s (Sending.step (sender_of s) (complete ec))
        (λ u eq. heard s u (ap (λ (c : Writes). c.2) (step-Hears (complete ec) r ok eq))) inv
  step-Lives s (sending (deadline ec locked)) r ok inv =
      sending-Lives s (Sending.step (sender_of s) (deadline ec locked))
        (λ u eq. heard s u (ap (λ (c : Writes). c.2) (step-Hears (deadline ec locked) r ok eq))) inv
  step-Lives s (sending _) r ok inv = absurd ok
  step-Lives s (receiving (arrived xs)) r ok inv =
      receiving-Lives s (Receiving.step handle (receiver_of s) (arrived xs))
        (λ u eq.
          read_heard s u
            (ap (λ (c : Reads). c.1) (step-callback handle (receiver_of s) u (arrived xs) eq)))
        inv
  step-Lives s (receiving (failed ec xs)) r ok inv =
      receiving-Lives s (Receiving.step handle (receiver_of s) (failed ec xs))
        (λ u eq.
          read_heard s u
            (ap (λ (c : Reads). c.1) (step-callback handle (receiver_of s) u (failed ec xs) eq)))
        inv
  step-Lives s (receiving _) r ok inv = absurd ok
  step-Lives s (closed i is_open ec) r ok inv =
      close_over-Lives s is_open ec (pick i s.life.closing) (λ p e. pick-Perm i s.life.closing e)
        inv
  step-Lives s (waited ec is_open) r ok inv =
      called-Lives (record s { life = wait_over ec s.alive is_open s.life })
        (on_heartbeat ec s.alive is_open s.session)
        (waited-Grown ec s.alive is_open s.session s.life ok inv)
  step-Lives s (ponged ec) r ok inv =
      called-Lives (record s { life = pong_sent ec s.alive s.life }) (on_pong ec s.alive s.session)
        (ponged-Grown ec s.alive s.session s.life ok inv)
  step-Lives s (control kind) r ok inv =
      called-Lives s (on_control s.alive kind s.session)
        (control-Grown s.alive kind s.session s.life inv)

  start-Inv : (a : SessionArguments) → Inv (hears (start {H = H} a).session) (start {H = H} a).life
  unfolding start new_session
  start-Inv a = record { latest = refl; beats = refl; closed_once = Perm.refl [] }

  pub Run-Inv :
      (a : SessionArguments) {s : Assembly H}
      → Run handle (start a) s
      → Inv (hears s.session) s.life
  Run-Inv a here = start-Inv a
  Run-Inv a (next {t} {u} e r ok eq) =
      subst Lives eq (step-Lives t e (Run-halves handle a r).0 ok (Run-Inv a r))

  -- In any history of a whole session in which a sequence of reads is begun only while no read is in
  -- flight, also after the session's destruction, the pongs being sent, the waits for
  -- the heartbeat timer, and the beats that ended (with an error, at a closed stream, or because the
  -- session was gone) are together as many as the calls of `startConnectionActivityMonitoring`: each
  -- call starts one beat, which is in one of these places and never doubles.
  pub Run-beats :
      (a : SessionArguments) {s : Assembly H}
      → Run handle (start a) s
      → s.life.pongs + s.life.waits + s.life.ended ≡ s.life.monitors
  Run-beats a r = (Run-Inv a r).beats

  -- In any history of a whole session in which a sequence of reads is begun only while no read is in
  -- flight, also after the session's destruction, the callbacks of `close` that were
  -- called and those of the closes in flight are together, in some order, those that `close` was given:
  -- each call of `close` has its callback called at most once, and once if no close is in flight.
  pub Run-closes :
      (a : SessionArguments) {s : Assembly H}
      → Run handle (start a) s
      → Perm (callbacks s.life.called ++ s.life.closing) s.life.closes
  Run-closes a r = (Run-Inv a r).closed_once
