-- ===== src/Session/Receiver.antt =====
-- The reader that a whole session owns (src/session.cpp): each event of the session is one of the
-- reader's own system, or leaves it alone.
use lib_native_streaming.Common.{
  ℕ, suc, ◌≡◌, refl, ap, subst, Bool, true, false, Option, none, some, List, [], ◌∷◌, map,
  append-nil, length, drop, pick,
}
use lib_native_streaming.Common.Errors.{ErrorCode}
use lib_native_streaming.Common.Effects.{◌>>◌, ◌>>=◌}
use lib_native_streaming.Common.Connections.{SessionArguments}
use lib_native_streaming.Reader.{ReadTask, AsyncReader, run_posted}
use lib_native_streaming.Reader
use lib_native_streaming.Reader.Sequence.{reads}
use lib_native_streaming.Reader.System as Receiving
use lib_native_streaming.Reader.System.{begin, arrived, failed, set_error, set_alive}
use lib_native_streaming.Writer
use lib_native_streaming.Writer.System as Sending
use lib_native_streaming.Link.Moves.{ReceiverMoves}
use lib_native_streaming.Session.{
  Session, Effect, new_session, of_reader, of_writer, with_reader, schedule_read, close_session,
  wrapper, destroy, on_close, set_error_handlers, schedule_write,
  start_connection_activity_monitoring, set_write_timed_out_handler,
}
use lib_native_streaming.Session.Life.{monitored, wait_over, pong_sent, close_asked}
use lib_native_streaming.Session.Assembly.{
  Assembly, relayed, called, scheduled, put_sender, put_receiver, sequence_at, after_sending,
  after_receiving, launched, begun, reader_part, receiver_of, taken_up,
}
use lib_native_streaming.Session.Events.{
  Event, schedules, begins, handlers, times_out, monitor, closes, destroyed, sending, receiving,
  closed, waited, ponged, control, step, close_over, asked, Enabled, start,
}
use lib_native_streaming.Session.Notices.{relay-lem}
use lib_native_streaming.Session.Lambdas.{
  Plain, close_session-Plain, destroy-Plain, on_close-Plain, on_heartbeat-Plain, on_pong-Plain,
  on_control-Plain,
}

reader_part-of_reader :
    {H : Type 0} (es : List (Reader.Effect H)) → reader_part (map of_reader es) ≡ es
reader_part-of_reader [] = refl
reader_part-of_reader (e ∷ es) = ap (◌∷◌ e) (reader_part-of_reader es)

module _ {H : Type 0} where
  -- What an event of the session is to its reader.
  abbrev pub for_reader : Event H → Option (Receiving.Event H)
  for_reader (begins task) = some (begin task)
  for_reader (handlers on_write on_read) = some (set_error (wrapper on_read))
  for_reader (monitor cb period is_open) = some (set_alive cb)
  for_reader (receiving e) = some e
  for_reader _ = none

module _ {H : Type 0} (handle : H → List ℕ → ReadTask H) where
  abbrev Receives : Assembly H → Option (Receiving.Event H) → Option (Assembly H) → Type 0
  Receives s m none = Unit {0}
  Receives s m (some u) = ReceiverMoves handle m (receiver_of s) (receiver_of u)

  relayed-Receives :
      (s b : Assembly H) (es : List (Effect H)) (m : Option (Receiving.Event H))
      → ReceiverMoves handle m (receiver_of s) (receiver_of b)
      → Receives s m (relayed b es)
  relayed-Receives s b es m h = rw (relay-lem b.alive es b.session) h

  abbrev Untouched : Session H → Option (Unit {0} × Session H × List (Effect H)) → Type 0
  Untouched s none = Unit {0}
  Untouched s (some r) = r.1.reader ≡ s.reader

  -- A step that the reader does not take part in.
  kept-Receives :
      (s : Assembly H) (a : Bool) (m : Option (Unit {0} × Session H × List (Effect H)))
      → Untouched s.session m
      → Receives s none (called (record s { alive = a }) m)
  kept-Receives s a none k = tt
  kept-Receives s a (some (tt, session, es)) k =
      relayed-Receives s (scheduled (record s { alive = a }) session es) es none (rw k refl)

  Plain-Receives :
      (s : Assembly H) (a : Bool) (m : Option (Unit {0} × Session H × List (Effect H)))
      → Plain s.session m
      → Receives s none (called (record s { alive = a }) m)
  Plain-Receives s a none p = tt
  Plain-Receives s a (some (tt, session, es)) p =
      kept-Receives s a (some (tt, session, es)) (ap (λ (x : Session H). x.reader) p.0)

  close_over-Receives :
      (s : Assembly H) (is_open : Bool) (ec : ErrorCode) (o : Option (Option ℕ × List (Option ℕ)))
      → Receives s none (close_over s is_open ec o)
  close_over-Receives s is_open ec none = tt
  close_over-Receives s is_open ec (some (cb, rest)) =
      Plain-Receives (record s { life = record s.life { closing = rest } }) s.alive
        (on_close cb s.alive is_open ec s.session) (on_close-Plain cb s.alive is_open ec s.session)

  receiving-Receives :
      (s : Assembly H) (e : Receiving.Event H) (o : Option (Receiving.System H))
      → Receiving.Enabled handle (receiver_of s) e
      → Receiving.step handle (receiver_of s) e ≡ o
      → Receives s (some e) (after_receiving s o)
  receiving-Receives s e none ok eq = tt
  receiving-Receives s e (some u) ok eq =
      relayed-Receives s (put_receiver s u) (map of_reader (drop (length s.sequence) u.trace))
        (some e) (ok, eq)

  sending-Receives :
      (s : Assembly H) (o : Option Sending.System) → Receives s none (after_sending s o)
  sending-Receives s none = tt
  sending-Receives s (some u) =
      relayed-Receives s (put_sender s u) (map of_writer (drop (length s.sent) u.trace)) none refl

  handlers-Receives :
      (s : Assembly H) (on_write on_read : Option ℕ)
      → Receives s
          (some (set_error (wrapper on_read)))
          (called s (set_error_handlers on_write on_read s.session))
  unfolding set_error_handlers Writer.set_error_handler Reader.set_error_handler Receiving.step
  handlers-Receives s on_write on_read =
      relayed-Receives s
        (scheduled s
          (record s.session {
            writer = record s.session.writer { error_handler = some (wrapper on_write) };
            reader = record s.session.reader { error_handler = some (wrapper on_read) };
          })
          [])
        [] (some (set_error (wrapper on_read))) ((tt, tt), rw append-nil refl)

  abbrev Watched : Session H → ℕ → Option (Unit {0} × Session H × List (Effect H)) → Type 0
  Watched s cb none = Unit {0}
  Watched s cb (some r) = r.1.reader ≡ record s.reader { connection_alive_callback = some cb }

  monitor-Receives :
      (s : Assembly H) (cb : ℕ) (m : Option (Unit {0} × Session H × List (Effect H)))
      → Watched s.session cb m
      → Receives s (some (set_alive cb)) (called s m)
  unfolding Reader.set_connection_alive_handler Receiving.step
  monitor-Receives s cb none k = tt
  monitor-Receives s cb (some (tt, session, es)) k =
      relayed-Receives s (scheduled s session es) es (some (set_alive cb))
        ((tt, tt), rw (k, append-nil) refl)

  abbrev sequence_effects : List (Reader.Effect H) → List (Effect H)
  sequence_effects es = map of_reader (Reader.post_do_read ∷ es)

  launched-Receives :
      (s : Assembly H) (task : ReadTask H) (r : Unit {0} × AsyncReader H × List (Reader.Effect H))
      (l : Option (Option ℕ))
      → run_posted handle
          (suc (length s.session.reader.buffer))
          (record s.session.reader { pending_task = task })
        ≡ some r
      → Receiving.launch s.reading (reads r.2) ≡ l
      → Receiving.Enabled handle (receiver_of s) (begin task)
      → Receives s
          (some (begin task))
          (launched s task (record s.session { reader = r.1 }) (sequence_effects r.2) l)
  unfolding Receiving.step Reader.schedule_read
  launched-Receives s task r none e f ok = tt
  launched-Receives s task r (some flight) e f ok =
      relayed-Receives s
        (sequence_at s task (record s.session { reader = r.1 }) (sequence_effects r.2) flight)
        (sequence_effects r.2) (some (begin task))
        (ok, rw (e, ◌>>◌, ◌>>=◌, reader_part-of_reader r.2, f) refl)

  begins-Receives :
      (s : Assembly H) (task : ReadTask H)
      (o : Option (Unit {0} × AsyncReader H × List (Reader.Effect H)))
      → run_posted handle
          (suc (length s.session.reader.buffer))
          (record s.session.reader { pending_task = task })
        ≡ o
      → Receiving.Enabled handle (receiver_of s) (begin task)
      → Receives s (some (begin task)) (
          begun s task (
            (schedule_read task
                >> with_reader (run_posted handle (suc (length s.session.reader.buffer))))
              s.session))
  unfolding schedule_read Reader.schedule_read
  begins-Receives s task none e ok = rw (e, ◌>>◌, ◌>>=◌) tt
  begins-Receives s task (some r) e ok =
      rw (e, ◌>>◌, ◌>>=◌, reader_part-of_reader r.2)
        (launched-Receives s task r (Receiving.launch s.reading (reads r.2)) e refl ok)

  step-Receives :
      (s : Assembly H) (e : Event H)
      → Enabled handle s e
      → Receives s (for_reader e) (step handle s e)
  unfolding step schedule_write Writer.schedule_write set_write_timed_out_handler
      Writer.set_write_timed_out_handler start_connection_activity_monitoring
      Reader.set_connection_alive_handler
  step-Receives s (schedules tasks d) ok =
      kept-Receives (asked s tasks d) s.alive (schedule_write tasks d s.session) refl
  step-Receives s (begins task) ok = begins-Receives s task _ refl (ok.1, ok.2)
  step-Receives s (handlers w r) ok = handlers-Receives s w r
  step-Receives s (times_out cb) ok =
      kept-Receives s s.alive (set_write_timed_out_handler cb s.session) refl
  step-Receives s (monitor cb period true) ok =
      monitor-Receives (record s { life = monitored cb true s.life }) cb
        (start_connection_activity_monitoring cb period true s.session) refl
  step-Receives s (monitor cb period false) ok =
      monitor-Receives (record s { life = monitored cb false s.life }) cb
        (start_connection_activity_monitoring cb period false s.session) refl
  step-Receives s (closes cb) ok =
      Plain-Receives (record s { life = close_asked cb s.life }) s.alive
        (close_session cb s.session) (close_session-Plain cb s.session)
  step-Receives s destroyed ok =
      Plain-Receives s false (destroy s.session) (destroy-Plain s.session)
  step-Receives s (sending e) ok = sending-Receives (record s { posted = taken_up e s.posted }) _
  step-Receives s (receiving (arrived xs)) ok = receiving-Receives s (arrived xs) _ (tt, ok) refl
  step-Receives s (receiving (failed ec xs)) ok =
      receiving-Receives s (failed ec xs) _ (tt, ok) refl
  step-Receives s (receiving _) ok = absurd ok
  step-Receives s (closed i is_open ec) ok =
      close_over-Receives s is_open ec (pick i s.life.closing)
  step-Receives s (waited ec is_open) ok =
      Plain-Receives (record s { life = wait_over ec s.alive is_open s.life }) s.alive _
        (on_heartbeat-Plain ec s.alive is_open s.session)
  step-Receives s (ponged ec) ok =
      Plain-Receives (record s { life = pong_sent ec s.alive s.life }) s.alive _
        (on_pong-Plain ec s.alive s.session)
  step-Receives s (control kind) ok =
      Plain-Receives s s.alive _ (on_control-Plain s.alive kind s.session)

  pub step-ReceiverMoves :
      (s u : Assembly H) (e : Event H)
      → Enabled handle s e
      → step handle s e ≡ some u
      → ReceiverMoves handle (for_reader e) (receiver_of s) (receiver_of u)
  step-ReceiverMoves s u e ok eq = subst (Receives s (for_reader e)) eq (step-Receives s e ok)

pub start-receiver :
    {H : Type 0} (a : SessionArguments) → receiver_of (start {H = H} a) ≡ Receiving.start
unfolding start new_session Reader.new_reader Receiving.start
start-receiver a = refl
