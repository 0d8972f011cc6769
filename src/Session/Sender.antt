-- ===== src/Session/Sender.antt =====
-- The writer that a whole session owns (src/session.cpp): each event of the session is one of the
-- writer's own system, or leaves it alone.
use lib_native_streaming.Common.{
  ℕ, suc, ◌≡◌, refl, ap, subst, Bool, true, false, Option, none, some, List, [], ◌∷◌, map,
  append-nil, length, drop, pick,
}
use lib_native_streaming.Common.Errors.{ErrorCode}
use lib_native_streaming.Common.Effects.{M, ◌>>◌, ◌>>=◌}
use lib_native_streaming.Common.Connections.{SessionArguments}
use lib_native_streaming.Reader.{ReadTask, AsyncReader, run_posted}
use lib_native_streaming.Reader
use lib_native_streaming.Reader.Sequence.{reads}
use lib_native_streaming.Reader.System as Receiving
use lib_native_streaming.Writer
use lib_native_streaming.Writer.System as Sending
use lib_native_streaming.Writer.System.{
  queue, complete, deadline, schedule, set_error, set_timed_out,
}
use lib_native_streaming.Link.Moves.{SenderMoves}
use lib_native_streaming.Session.{
  Session, Effect, new_session, of_reader, of_writer, with_reader, schedule_read, close_session,
  wrapper, destroy, on_close, set_error_handlers, schedule_write,
  start_connection_activity_monitoring, set_write_timed_out_handler,
}
use lib_native_streaming.Session.Life.{monitored, wait_over, pong_sent, close_asked}
use lib_native_streaming.Session.Assembly.{
  Assembly, relayed, called, scheduled, put_sender, put_receiver, sequence_at, after_sending,
  after_receiving, launched, begun, reader_part, writer_part, sender_of,
}
use lib_native_streaming.Session.Events.{
  Event, schedules, begins, handlers, times_out, monitor, closes, destroyed, sending, receiving,
  closed, waited, ponged, control, step, close_over, asked, Enabled, start,
}
use lib_native_streaming.Session.Notices.{relay-lem}
use lib_native_streaming.Session.Lambdas.{
  Plain, close_session-Plain, destroy-Plain, on_close-Plain, on_heartbeat-Plain, on_pong-Plain,
  on_control-Plain,
}

module _ {H : Type 0} where
  -- What an event of the session is to its writer.
  abbrev pub for_writer : Event H → Option Sending.Event
  for_writer (schedules tasks d) = some (schedule tasks d)
  for_writer (handlers on_write on_read) = some (set_error (wrapper on_write))
  for_writer (times_out cb) = some (set_timed_out (wrapper cb))
  for_writer (sending e) = some e
  for_writer _ = none

  abbrev Sends : Assembly H → Option Sending.Event → Option (Assembly H) → Type 0
  Sends s m none = Unit {0}
  Sends s m (some u) = SenderMoves m (sender_of s) (sender_of u)

  relayed-Sends :
      (s b : Assembly H) (es : List (Effect H)) (m : Option Sending.Event)
      → SenderMoves m (sender_of s) (sender_of b)
      → Sends s m (relayed b es)
  relayed-Sends s b es m h = rw (relay-lem b.alive es b.session) h

  -- A step that the writer does not take part in.
  still-Sends :
      (s : Assembly H) (a : Bool) (session : Session H) (es : List (Effect H))
      → session.writer ≡ s.session.writer
      → writer_part es ≡ []
      → Sends s none (relayed (scheduled (record s { alive = a }) session es) es)
  still-Sends s a session es w q =
      relayed-Sends s (scheduled (record s { alive = a }) session es) es none
        (rw (w, q, append-nil) refl)

  abbrev Untouched : Session H → Option (Unit {0} × Session H × List (Effect H)) → Type 0
  Untouched s none = Unit {0}
  Untouched s (some r) = (r.1.writer ≡ s.writer) × (writer_part r.2 ≡ [])

  abbrev Keeps : Session H → Option (Unit {0} × Session H × List (Effect H)) → Type 0
  Keeps s none = Unit {0}
  Keeps s (some r) = r.1.writer ≡ s.writer

  kept-Sends :
      (s : Assembly H) (a : Bool) (m : Option (Unit {0} × Session H × List (Effect H)))
      → Untouched s.session m
      → Sends s none (called (record s { alive = a }) m)
  kept-Sends s a none k = tt
  kept-Sends s a (some (tt, session, es)) k = still-Sends s a session es k.0 k.1

  Plain-Sends :
      (s : Assembly H) (a : Bool) (m : Option (Unit {0} × Session H × List (Effect H)))
      → Plain s.session m
      → Sends s none (called (record s { alive = a }) m)
  Plain-Sends s a none p = tt
  Plain-Sends s a (some (tt, session, es)) p =
      still-Sends s a session es (ap (λ (x : Session H). x.writer) p.0) p.1

  close_over-Sends :
      (s : Assembly H) (is_open : Bool) (ec : ErrorCode) (o : Option (Option ℕ × List (Option ℕ)))
      → Sends s none (close_over s is_open ec o)
  close_over-Sends s is_open ec none = tt
  close_over-Sends s is_open ec (some (cb, rest)) =
      Plain-Sends (record s { life = record s.life { closing = rest } }) s.alive
        (on_close cb s.alive is_open ec s.session) (on_close-Plain cb s.alive is_open ec s.session)

  sending-Sends :
      (s : Assembly H) (e : Sending.Event) (o : Option Sending.System)
      → Sending.Enabled (sender_of s) e
      → Sending.step (sender_of s) e ≡ o
      → Sends s (some e) (after_sending s o)
  sending-Sends s e none ok eq = tt
  sending-Sends s e (some u) ok eq =
      relayed-Sends s (put_sender s u) (map of_writer (drop (length s.sent) u.trace)) (some e)
        (ok, eq)

  receiving-Sends :
      (s : Assembly H) (o : Option (Receiving.System H)) → Sends s none (after_receiving s o)
  receiving-Sends s none = tt
  receiving-Sends s (some u) =
      relayed-Sends s (put_receiver s u) (map of_reader (drop (length s.sequence) u.trace)) none
        refl

  schedules-Sends :
      (s : Assembly H) (tasks : Writer.BatchedWriteTasks) (d : Writer.OptionalWriteDeadline)
      → Sends s (some (schedule tasks d)) (called s (schedule_write tasks d s.session))
  unfolding schedule_write Writer.schedule_write Sending.step Sending.launch
  schedules-Sends s tasks d =
      relayed-Sends s
        (scheduled s s.session (of_writer (Writer.post_queue_batch_write tasks d) ∷ []))
        (of_writer (Writer.post_queue_batch_write tasks d) ∷ []) (some (schedule tasks d))
        (tt, simp append-nil refl)

  handlers-Sends :
      (s : Assembly H) (on_write on_read : Option ℕ)
      → Sends s
          (some (set_error (wrapper on_write)))
          (called s (set_error_handlers on_write on_read s.session))
  unfolding set_error_handlers Writer.set_error_handler Reader.set_error_handler Sending.step
      Sending.launch
  handlers-Sends s on_write on_read =
      relayed-Sends s
        (scheduled s
          (record s.session {
            writer = record s.session.writer { error_handler = some (wrapper on_write) };
            reader = record s.session.reader { error_handler = some (wrapper on_read) };
          })
          [])
        [] (some (set_error (wrapper on_write))) (tt, simp append-nil refl)

  times_out-Sends :
      (s : Assembly H) (cb : Option ℕ)
      → Sends s
          (some (set_timed_out (wrapper cb)))
          (called s (set_write_timed_out_handler cb s.session))
  unfolding set_write_timed_out_handler Writer.set_write_timed_out_handler Sending.step
      Sending.launch
  times_out-Sends s cb =
      relayed-Sends s
        (scheduled s
          (record s.session {
            writer = record s.session.writer { write_task_timeout_handler = some (wrapper cb) };
          })
          [])
        [] (some (set_timed_out (wrapper cb))) (tt, simp append-nil refl)

  monitor-Sends :
      (s : Assembly H) (cb period : ℕ) (is_open : Bool)
      → Sends s none (called s (start_connection_activity_monitoring cb period is_open s.session))
  unfolding start_connection_activity_monitoring Reader.set_connection_alive_handler
  monitor-Sends s cb period true =
      kept-Sends s s.alive (start_connection_activity_monitoring cb period true s.session)
        (refl, refl)
  monitor-Sends s cb period false =
      kept-Sends s s.alive (start_connection_activity_monitoring cb period false s.session)
        (refl, refl)

  launched-Sends :
      (s : Assembly H) (task : ReadTask H) (session : Session H) (es : List (Effect H))
      (l : Option (Option ℕ))
      → session.writer ≡ s.session.writer
      → Sends s none (launched s task session es l)
  launched-Sends s task session es none w = tt
  launched-Sends s task session es (some flight) w =
      relayed-Sends s (sequence_at s task session es flight) es none (rw w refl)

  begun-Sends :
      (s : Assembly H) (task : ReadTask H) (m : Option (Unit {0} × Session H × List (Effect H)))
      → Keeps s.session m
      → Sends s none (begun s task m)
  begun-Sends s task none k = tt
  begun-Sends s task (some (tt, session, es)) k =
      launched-Sends s task session es (Receiving.launch s.reading (reads (reader_part es))) k

  -- What `scheduleRead` and the posted lambda make of a session: its writer is the same.
  schedule_read-Keeps :
      (task : ReadTask H) (m : M (AsyncReader H) (Reader.Effect H) (Unit {0})) (s : Session H)
      (o : Option (Unit {0} × AsyncReader H × List (Reader.Effect H)))
      → m (record s.reader { pending_task = task }) ≡ o
      → Keeps s ((schedule_read task >> with_reader m) s)
  unfolding schedule_read
  schedule_read-Keeps task m s none e = rw (e, ◌>>◌, ◌>>=◌) tt
  schedule_read-Keeps task m s (some r) e = rw (e, ◌>>◌, ◌>>=◌) refl

module _ {H : Type 0} (handle : H → List ℕ → ReadTask H) where
  step-Sends :
      (s : Assembly H) (e : Event H) → Enabled handle s e → Sends s (for_writer e) (step handle s e)
  unfolding step
  step-Sends s (schedules tasks d) ok = schedules-Sends (asked s tasks d) tasks d
  step-Sends s (begins task) ok = begun-Sends s task _ (
      schedule_read-Keeps task (run_posted handle (suc (length s.session.reader.buffer))) s.session
        _ refl)
  step-Sends s (handlers w r) ok = handlers-Sends s w r
  step-Sends s (times_out cb) ok = times_out-Sends s cb
  step-Sends s (monitor cb period is_open) ok =
      monitor-Sends (record s { life = monitored cb is_open s.life }) cb period is_open
  step-Sends s (closes cb) ok =
      Plain-Sends (record s { life = close_asked cb s.life }) s.alive (close_session cb s.session)
        (close_session-Plain cb s.session)
  step-Sends s destroyed ok = Plain-Sends s false (destroy s.session) (destroy-Plain s.session)
  step-Sends s (sending (queue tasks d now)) ok =
      sending-Sends (record s { posted = drop 1 s.posted }) (queue tasks d now) _ tt refl
  step-Sends s (sending (complete ec)) ok = sending-Sends s (complete ec) _ ok refl
  step-Sends s (sending (deadline ec locked)) ok = sending-Sends s (deadline ec locked) _ ok refl
  step-Sends s (sending _) ok = absurd ok
  step-Sends s (receiving e) ok = receiving-Sends s _
  step-Sends s (closed i is_open ec) ok = close_over-Sends s is_open ec (pick i s.life.closing)
  step-Sends s (waited ec is_open) ok =
      Plain-Sends (record s { life = wait_over ec s.alive is_open s.life }) s.alive _
        (on_heartbeat-Plain ec s.alive is_open s.session)
  step-Sends s (ponged ec) ok =
      Plain-Sends (record s { life = pong_sent ec s.alive s.life }) s.alive _
        (on_pong-Plain ec s.alive s.session)
  step-Sends s (control kind) ok = Plain-Sends s s.alive _ (on_control-Plain s.alive kind s.session)

  pub step-SenderMoves :
      (s u : Assembly H) (e : Event H)
      → Enabled handle s e
      → step handle s e ≡ some u
      → SenderMoves (for_writer e) (sender_of s) (sender_of u)
  step-SenderMoves s u e ok eq = subst (Sends s (for_writer e)) eq (step-Sends s e ok)

pub start-sender : (H : Type 0) (a : SessionArguments) → sender_of (start {H = H} a) ≡ Sending.start
unfolding start new_session Writer.new_writer Sending.start
start-sender H a = refl
