-- ===== src/Session/Reports.antt =====
-- What the user of a whole session (src/session.cpp) hears of its failures and missed deadlines, through
-- the lambdas of Session/Handlers.antt.
use lib_native_streaming.Common.{
  ℕ, suc, ◌≡◌, refl, ap, subst, Bool, true, false, Option, none, some, List, [], ◌∷◌, ◌++◌, map,
  length, drop, pick,
}
use lib_native_streaming.Common.Errors.{ErrorCode}
use lib_native_streaming.Common.Effects.{M, ◌>>◌, ◌>>=◌}
use lib_native_streaming.Common.Connections.{SessionArguments}
use lib_native_streaming.Reader.{ReadTask, AsyncReader, run_posted}
use lib_native_streaming.Reader
use lib_native_streaming.Reader.Sequence.{reads}
use lib_native_streaming.Reader.System as Receiving
use lib_native_streaming.Writer.{AsyncWriter}
use lib_native_streaming.Writer
use lib_native_streaming.Writer.System as Sending
use lib_native_streaming.Session.{
  Session, Effect, of_reader, of_writer, with_reader, schedule_read, close_session, destroy,
  on_close, set_error_handlers, schedule_write, start_connection_activity_monitoring,
  set_write_timed_out_handler, construct,
}
use lib_native_streaming.Session.Life.{monitored, wait_over, pong_sent, close_asked}
use lib_native_streaming.Session.Assembly.{
  Assembly, Posted, taken_up, relayed, called, scheduled, put_sender, put_receiver, sequence_at,
  after_sending, after_receiving, launched, begun, reader_part,
}
use lib_native_streaming.Session.Events.{
  Event, schedules, begins, handlers, times_out, monitor, closes, destroyed, sending, receiving,
  closed, waited, ponged, control, step, close_over, asked, Run, here, next, start,
}
use lib_native_streaming.Session.Lambdas.{
  Plain, close_session-Plain, destroy-Plain, on_close-Plain, on_heartbeat-Plain, on_pong-Plain,
  on_control-Plain,
}
use lib_native_streaming.Session.Handlers.{held, latest, Run-held}
use lib_native_streaming.Session.Notices.{
  Notice, raised, given, told, relay-lem, Grew, Inv, Grew-Inv,
}

given-of_writer : (A : Type 0) (es : List Writer.Effect) → given {H = A} (map of_writer es) ≡ []
given-of_writer A [] = refl
given-of_writer A (e ∷ es) = given-of_writer A es

module _ {H : Type 0} where
  abbrev Grows : Assembly H → Option (Assembly H) → Type 0
  Grows s none = Unit {0}
  Grows s (some u) = Grew s u

  -- A method calls no callback of a failure itself.
  abbrev Silent : Option (Unit {0} × Session H × List (Effect H)) → Type 0
  Silent none = Unit {0}
  Silent (some r) = given r.2 ≡ []

  relayed-Grows :
      (s b : Assembly H) (es : List (Effect H))
      → b.trace ≡ s.trace
      → (b.alive ≡ true → s.alive ≡ true)
      → given es ≡ []
      → Grows s (relayed b es)
  relayed-Grows s b es t a q = rw (relay-lem b.alive es b.session) (record {
    effects = es;
    quiet = q;
    grown = ap (λ tr. tr ++ told b.alive es) t;
    was_alive = a;
  })

  called-Grows :
      (s b : Assembly H) (m : Option (Unit {0} × Session H × List (Effect H)))
      → b.trace ≡ s.trace
      → (b.alive ≡ true → s.alive ≡ true)
      → Silent m
      → Grows s (called b m)
  called-Grows s b none t a q = tt
  called-Grows s b (some (tt, session, es)) t a q =
      relayed-Grows s (scheduled b session es) es t a q

  given-of_reader : (es : List (Reader.Effect H)) → given (map of_reader es) ≡ []
  given-of_reader [] = refl
  given-of_reader (e ∷ es) = given-of_reader es

  sending-Grows :
      (s : Assembly H) (l : List Posted) (o : Option Sending.System)
      → Grows s (after_sending (record s { posted = l }) o)
  sending-Grows s l none = tt
  sending-Grows s l (some u) =
      relayed-Grows s (put_sender (record s { posted = l }) u)
        (map of_writer (drop (length s.sent) u.trace)) refl (λ h. h)
        (given-of_writer H (drop (length s.sent) u.trace))

  receiving-Grows :
      (s : Assembly H) (o : Option (Receiving.System H)) → Grows s (after_receiving s o)
  receiving-Grows s none = tt
  receiving-Grows s (some u) =
      relayed-Grows s (put_receiver s u) (map of_reader (drop (length s.sequence) u.trace)) refl
        (λ h. h) (given-of_reader (drop (length s.sequence) u.trace))

  launched-Grows :
      (s : Assembly H) (task : ReadTask H) (session : Session H) (es : List (Effect H))
      (o : Option (Option ℕ))
      → given es ≡ []
      → Grows s (launched s task session es o)
  launched-Grows s task session es none q = tt
  launched-Grows s task session es (some flight) q =
      relayed-Grows s (sequence_at s task session es flight) es refl (λ h. h) q

  begun-Grows :
      (s : Assembly H) (task : ReadTask H) (m : Option (Unit {0} × Session H × List (Effect H)))
      → Silent m
      → Grows s (begun s task m)
  begun-Grows s task none q = tt
  begun-Grows s task (some (tt, session, es)) q =
      launched-Grows s task session es (Receiving.launch s.reading (reads (reader_part es))) q

  -- The methods of the session, by their cases.
  schedule_read-Silent :
      (task : ReadTask H) (m : M (AsyncReader H) (Reader.Effect H) (Unit {0})) (s : Session H)
      (o : Option (Unit {0} × AsyncReader H × List (Reader.Effect H)))
      → m (record s.reader { pending_task = task }) ≡ o
      → Silent ((schedule_read task >> with_reader m) s)
  unfolding schedule_read
  schedule_read-Silent task m s none e = rw (e, ◌>>◌, ◌>>=◌) tt
  schedule_read-Silent task m s (some r) e = rw (e, ◌>>◌, ◌>>=◌) (given-of_reader r.2)

  Plain-Silent :
      (s : Session H) (m : Option (Unit {0} × Session H × List (Effect H))) → Plain s m → Silent m
  Plain-Silent s none p = tt
  Plain-Silent s (some r) p = p.2

  -- A lambda or a method that is plain.
  Plain-Grows :
      (s b : Assembly H) (m : Option (Unit {0} × Session H × List (Effect H)))
      → b.trace ≡ s.trace
      → (b.alive ≡ true → s.alive ≡ true)
      → Plain b.session m
      → Grows s (called b m)
  Plain-Grows s b m t a p = called-Grows s b m t a (Plain-Silent b.session m p)

  close_over-Grows :
      (s : Assembly H) (is_open : Bool) (ec : ErrorCode) (o : Option (Option ℕ × List (Option ℕ)))
      → Grows s (close_over s is_open ec o)
  close_over-Grows s is_open ec none = tt
  close_over-Grows s is_open ec (some (cb, rest)) =
      Plain-Grows s (record s { life = record s.life { closing = rest } })
        (on_close cb s.alive is_open ec s.session) refl (λ h. h)
        (on_close-Plain cb s.alive is_open ec s.session)

  monitor-Silent :
      (cb period : ℕ) (is_open : Bool) (s : Session H)
      → Silent (start_connection_activity_monitoring cb period is_open s)
  unfolding start_connection_activity_monitoring Reader.set_connection_alive_handler
  monitor-Silent cb period true s = refl
  monitor-Silent cb period false s = refl

module _ {H : Type 0} (handle : H → List ℕ → ReadTask H) where
  step-Grows : (s : Assembly H) (e : Event H) → Grows s (step handle s e)
  unfolding step schedule_write Writer.schedule_write set_error_handlers Writer.set_error_handler
      Reader.set_error_handler set_write_timed_out_handler Writer.set_write_timed_out_handler
  step-Grows s (schedules tasks d) =
      called-Grows s (asked s tasks d) (schedule_write tasks d s.session) refl (λ h. h) refl
  step-Grows s (begins task) = begun-Grows s task _ (
      schedule_read-Silent task (run_posted handle (suc (length s.session.reader.buffer))) s.session
        _ refl)
  step-Grows s (handlers w r) =
      called-Grows s s (set_error_handlers w r s.session) refl (λ h. h) refl
  step-Grows s (times_out cb) =
      called-Grows s s (set_write_timed_out_handler cb s.session) refl (λ h. h) refl
  step-Grows s (monitor cb period is_open) =
      called-Grows s (record s { life = monitored cb is_open s.life }) _ refl (λ h. h)
        (monitor-Silent cb period is_open s.session)
  step-Grows s (closes cb) =
      Plain-Grows s (record s { life = close_asked cb s.life }) (close_session cb s.session) refl
        (λ h. h) (close_session-Plain cb s.session)
  step-Grows s destroyed =
      Plain-Grows s (record s { alive = false }) (destroy s.session) refl (λ h. cc)
        (destroy-Plain s.session)
  step-Grows s (sending e) = sending-Grows s (taken_up e s.posted) _
  step-Grows s (receiving e) = receiving-Grows s _
  step-Grows s (closed i is_open ec) = close_over-Grows s is_open ec (pick i s.life.closing)
  step-Grows s (waited ec is_open) =
      Plain-Grows s (record s { life = wait_over ec s.alive is_open s.life }) _ refl (λ h. h)
        (on_heartbeat-Plain ec s.alive is_open s.session)
  step-Grows s (ponged ec) =
      Plain-Grows s (record s { life = pong_sent ec s.alive s.life }) _ refl (λ h. h)
        (on_pong-Plain ec s.alive s.session)
  step-Grows s (control kind) =
      Plain-Grows s s _ refl (λ h. h) (on_control-Plain s.alive kind s.session)

  step-Inv : (s u : Assembly H) (e : Event H) → step handle s e ≡ some u → Inv s → Inv u
  step-Inv s u e eq inv = Grew-Inv s u u.alive refl (subst (Grows s) eq (step-Grows s e)) inv

  Run-Inv : {s u : Assembly H} → Inv s → Run handle s u → Inv u
  Run-Inv inv here = inv
  Run-Inv inv (next {t} {u} e r ok eq) = step-Inv t u e eq (Run-Inv inv r)

  start-Inv : (a : SessionArguments) → Inv (start {H = H} a)
  unfolding start construct
  start-Inv a = record { unheard = []; split = refl; heard = λ h. refl }

  -- In any history of a whole session in which a sequence of reads is begun only while no read is in
  -- flight: for failed writes, missed deadlines and failed reads the halves hold the lambdas around the
  -- callbacks, empty or not, of the latest calls of `setErrorHandlers` and `setWriteTimedOutHandler`, and
  -- none where there was no such call. The failures and the missed deadlines that the halves reported to
  -- their handlers are, in order, those for which the callbacks in these were called, and then some for
  -- which none was. While the session is there, there are none of the latter.
  pub Run-notices :
      (a : SessionArguments) {s : Assembly H} (r : Run handle (start a) s)
      → (held s.session ≡ latest handle r)
        × ((unheard : List Notice) × (raised s.trace ≡ given s.trace ++ unheard)
            × (s.alive ≡ true → unheard ≡ []))
  Run-notices a r =
      let inv = Run-Inv (start-Inv a) r in
      (Run-held handle a r, (inv.unheard, inv.split, inv.heard))
