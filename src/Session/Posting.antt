-- ===== src/Session/Posting.antt =====
-- The lambdas of `Session::scheduleWrite` (src/session.cpp) that wait, after each event of a whole
-- session: a call posts one, and the oldest is the next to run.
use lib_native_streaming.Common.{
  ℕ, suc, ◌≡◌, refl, subst, Bool, true, false, Option, none, some, List, [], ◌∷◌, ◌++◌, map,
  append-nil, length, drop, pick,
}
use lib_native_streaming.Common.Errors.{ErrorCode}
use lib_native_streaming.Common.Effects.{◌>>◌}
use lib_native_streaming.Reader.{ReadTask, AsyncReader, run_posted}
use lib_native_streaming.Reader
use lib_native_streaming.Reader.Sequence.{reads}
use lib_native_streaming.Reader.System as Receiving
use lib_native_streaming.Writer.{BatchedWriteTasks, AsyncWriter}
use lib_native_streaming.Writer
use lib_native_streaming.Writer.System as Sending
use lib_native_streaming.Writer.System.{schedule, queue, complete, deadline}
use lib_native_streaming.Session.{
  Session, Effect, of_reader, of_writer, with_reader, schedule_read, close_session, destroy,
  set_error_handlers, schedule_write, on_close, on_heartbeat, on_pong, on_control,
  start_connection_activity_monitoring, set_write_timed_out_handler,
}
use lib_native_streaming.Session.Life.{monitored, wait_over, pong_sent, close_asked}
use lib_native_streaming.Session.Assembly.{
  Assembly, Posted, posts, relayed, called, scheduled, put_sender, put_receiver, sequence_at,
  after_sending, after_receiving, launched, begun, reader_part, writer_part, sender_of, receiver_of,
}
use lib_native_streaming.Session.Events.{
  Event, schedules, begins, handlers, times_out, monitor, closes, destroyed, sending, receiving,
  closed, waited, ponged, control, step, close_over, asked, Enabled,
}
use lib_native_streaming.Session.Lambdas.{
  Plain, close_session-Plain, destroy-Plain, on_close-Plain, on_heartbeat-Plain, on_pong-Plain,
  on_control-Plain,
}
use lib_native_streaming.Session.Notices.{relay-lem}
use lib_native_streaming.Session.Sender.{for_writer}

-- By what an event is to the writer: the lambdas that wait after it, and the calls so far.
abbrev pub posted_after : Option Sending.Event → List Posted → List Posted
posted_after (some (schedule tasks d)) l = l ++ (tasks, d) ∷ []
posted_after (some (queue tasks d now)) l = drop 1 l
posted_after _ l = l

abbrev pub requested_after : Option Sending.Event → List Posted → List Posted
requested_after (some (schedule tasks d)) l = l ++ (tasks, d) ∷ []
requested_after _ l = l

-- A lambda that runs is the oldest.
abbrev pub IsNext : Option Sending.Event → List Posted → Type 0
IsNext (some (queue tasks d now)) l = (rest : List Posted) × (l ≡ (tasks, d) ∷ rest)
IsNext _ l = Unit {0}

module _ {H : Type 0} where
  abbrev Files : List Posted → List Posted → Option (Assembly H) → Type 0
  Files p q none = Unit {0}
  Files p q (some u) = (u.posted ≡ p) × (u.requested ≡ q)

  relayed-Files :
      (b : Assembly H) (es : List (Effect H)) → Files b.posted b.requested (relayed b es)
  relayed-Files b es = rw (relay-lem b.alive es b.session) (refl, refl)

  -- A method or a lambda that posts nothing.
  abbrev Posts : List Posted → Option (Unit {0} × Session H × List (Effect H)) → Type 0
  Posts p none = Unit {0}
  Posts p (some r) = posts (writer_part r.2) ≡ p

  called-Files :
      (b : Assembly H) (p : List Posted) (m : Option (Unit {0} × Session H × List (Effect H)))
      → Posts p m
      → Files (b.posted ++ p) b.requested (called b m)
  called-Files b p none h = tt
  called-Files b p (some (tt, session, es)) h =
      subst (λ l. Files (b.posted ++ l) b.requested (relayed (scheduled b session es) es)) h
        (relayed-Files (scheduled b session es) es)

  kept-Files :
      (b : Assembly H) (m : Option (Unit {0} × Session H × List (Effect H)))
      → Posts [] m
      → Files b.posted b.requested (called b m)
  kept-Files b m h =
      subst (λ l. Files l b.requested (called b m)) (append-nil b.posted) (called-Files b [] m h)

  Plain-Posts :
      (s : Session H) (m : Option (Unit {0} × Session H × List (Effect H))) → Plain s m → Posts [] m
  Plain-Posts s none p = tt
  Plain-Posts s (some r) p = rw (p.1) refl

  Plain-Files :
      (b : Assembly H) (m : Option (Unit {0} × Session H × List (Effect H)))
      → Plain b.session m
      → Files b.posted b.requested (called b m)
  Plain-Files b m p = kept-Files b m (Plain-Posts b.session m p)

  close_over-Files :
      (s : Assembly H) (is_open : Bool) (ec : ErrorCode) (o : Option (Option ℕ × List (Option ℕ)))
      → Files s.posted s.requested (close_over s is_open ec o)
  close_over-Files s is_open ec none = tt
  close_over-Files s is_open ec (some (cb, rest)) =
      Plain-Files (record s { life = record s.life { closing = rest } })
        (on_close cb s.alive is_open ec s.session) (on_close-Plain cb s.alive is_open ec s.session)

  sending-Files :
      (b : Assembly H) (o : Option Sending.System) → Files b.posted b.requested (after_sending b o)
  sending-Files b none = tt
  sending-Files b (some u) =
      relayed-Files (put_sender b u) (map of_writer (drop (length b.sent) u.trace))

  receiving-Files :
      (s : Assembly H) (o : Option (Receiving.System H))
      → Files s.posted s.requested (after_receiving s o)
  receiving-Files s none = tt
  receiving-Files s (some u) =
      relayed-Files (put_receiver s u) (map of_reader (drop (length s.sequence) u.trace))

  launched-Files :
      (s : Assembly H) (task : ReadTask H) (session : Session H) (es : List (Effect H))
      (o : Option (Option ℕ))
      → Files s.posted s.requested (launched s task session es o)
  launched-Files s task session es none = tt
  launched-Files s task session es (some flight) =
      relayed-Files (sequence_at s task session es flight) es

  begun-Files :
      (s : Assembly H) (task : ReadTask H) (m : Option (Unit {0} × Session H × List (Effect H)))
      → Files s.posted s.requested (begun s task m)
  begun-Files s task none = tt
  begun-Files s task (some (tt, session, es)) =
      launched-Files s task session es (Receiving.launch s.reading (reads (reader_part es)))

  monitor-Posts :
      (cb period : ℕ) (is_open : Bool) (s : Session H)
      → Posts [] (start_connection_activity_monitoring cb period is_open s)
  unfolding start_connection_activity_monitoring Reader.set_connection_alive_handler
  monitor-Posts cb period true s = refl
  monitor-Posts cb period false s = refl

module _ {H : Type 0} (handle : H → List ℕ → ReadTask H) where
  step-Files :
      (s : Assembly H) (e : Event H)
      → Enabled handle s e
      → Files
          (posted_after (for_writer e) s.posted)
          (requested_after (for_writer e) s.requested)
          (step handle s e)
  unfolding step schedule_write Writer.schedule_write set_error_handlers Writer.set_error_handler
      Reader.set_error_handler set_write_timed_out_handler Writer.set_write_timed_out_handler
  step-Files s (schedules tasks d) ok =
      called-Files (asked s tasks d) ((tasks, d) ∷ []) (schedule_write tasks d s.session) refl
  step-Files s (begins task) ok = begun-Files s task (
      (schedule_read task >> with_reader (run_posted handle (suc (length s.session.reader.buffer))))
        s.session)
  step-Files s (handlers w r) ok = kept-Files s (set_error_handlers w r s.session) refl
  step-Files s (times_out cb) ok = kept-Files s (set_write_timed_out_handler cb s.session) refl
  step-Files s (monitor cb period is_open) ok =
      kept-Files (record s { life = monitored cb is_open s.life })
        (start_connection_activity_monitoring cb period is_open s.session)
        (monitor-Posts cb period is_open s.session)
  step-Files s (closes cb) ok =
      Plain-Files (record s { life = close_asked cb s.life }) (close_session cb s.session)
        (close_session-Plain cb s.session)
  step-Files s destroyed ok =
      Plain-Files (record s { alive = false }) (destroy s.session) (destroy-Plain s.session)
  step-Files s (sending (queue tasks d now)) ok =
      sending-Files (record s { posted = drop 1 s.posted })
        (Sending.step (sender_of s) (queue tasks d now))
  step-Files s (sending (complete ec)) ok =
      sending-Files s (Sending.step (sender_of s) (complete ec))
  step-Files s (sending (deadline ec locked)) ok =
      sending-Files s (Sending.step (sender_of s) (deadline ec locked))
  step-Files s (sending _) ok = absurd ok
  step-Files s (receiving e) ok = receiving-Files s (Receiving.step handle (receiver_of s) e)
  step-Files s (closed i is_open ec) ok = close_over-Files s is_open ec (pick i s.life.closing)
  step-Files s (waited ec is_open) ok =
      Plain-Files (record s { life = wait_over ec s.alive is_open s.life })
        (on_heartbeat ec s.alive is_open s.session)
        (on_heartbeat-Plain ec s.alive is_open s.session)
  step-Files s (ponged ec) ok =
      Plain-Files (record s { life = pong_sent ec s.alive s.life }) (on_pong ec s.alive s.session)
        (on_pong-Plain ec s.alive s.session)
  step-Files s (control kind) ok =
      Plain-Files s (on_control s.alive kind s.session) (on_control-Plain s.alive kind s.session)

  pub step-posted :
      (s u : Assembly H) (e : Event H)
      → Enabled handle s e
      → step handle s e ≡ some u
      → (u.posted ≡ posted_after (for_writer e) s.posted)
        × (u.requested ≡ requested_after (for_writer e) s.requested)
  step-posted s u e ok eq =
      subst
        (Files (posted_after (for_writer e) s.posted) (requested_after (for_writer e) s.requested))
        eq (step-Files s e ok)

  pub Enabled-IsNext :
      (s : Assembly H) (e : Event H) → Enabled handle s e → IsNext (for_writer e) s.posted
  Enabled-IsNext s (sending (queue tasks d now)) ok = ok
  Enabled-IsNext s (sending _) ok = tt
  Enabled-IsNext s _ ok = tt
