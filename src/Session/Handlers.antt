-- ===== src/Session/Handlers.antt =====
-- The lambdas that the halves of a whole session (src/session.cpp) hold for what goes wrong: those around
-- the callbacks of the latest calls of `setErrorHandlers` and `setWriteTimedOutHandler`.
use lib_native_streaming.Common.{ℕ, ◌≡◌, refl, ap, sym, ◌∙◌, Option, none, some, List}
use lib_native_streaming.Common.Connections.{SessionArguments}
use lib_native_streaming.Reader.{ReadTask}
use lib_native_streaming.Reader
use lib_native_streaming.Reader.System as Receiving
use lib_native_streaming.Reader.System.{begin, arrived, failed, set_error, set_alive}
use lib_native_streaming.Reader.Callback as Reading
use lib_native_streaming.Reader.Callback.{step-callback}
use lib_native_streaming.Writer
use lib_native_streaming.Writer.System as Sending
use lib_native_streaming.Writer.System.{
  queue, complete, deadline, schedule, set_error as set_write_error, set_timed_out,
}
use lib_native_streaming.Writer.Callback.{step-Hears}
use lib_native_streaming.Writer.Invariant.Quiet as Writing
use lib_native_streaming.Link.Moves.{SenderMoves, ReceiverMoves}
use lib_native_streaming.Session.{Session, wrapper, new_session}
use lib_native_streaming.Session.Assembly.{Assembly, sender_of, receiver_of}
use lib_native_streaming.Session.Events.{
  Event, schedules, begins, handlers, times_out, monitor, closes, destroyed, sending, receiving,
  closed, waited, ponged, control, Enabled, Run, here, next, start,
}
use lib_native_streaming.Session.Sender.{for_writer, step-SenderMoves}
use lib_native_streaming.Session.Receiver.{for_reader, step-ReceiverMoves}
use lib_native_streaming.Session.Halves.{Run-sender}

-- The lambdas for a failed write, a missed deadline and a failed read; `none` is that none was set.
abbrev pub Handlers : Type 0
Handlers = Option ℕ × Option ℕ × Option ℕ

abbrev pub held : {H : Type 0} → Session H → Handlers
held s = (s.writer.error_handler, s.writer.write_task_timeout_handler, s.reader.error_handler)

module _ {H : Type 0} where
  -- Those that are held after an event.
  abbrev pub given_by : Event H → Handlers → Handlers
  given_by (handlers w r) h = (some (wrapper w), h.1, some (wrapper r))
  given_by (times_out cb) h = (h.0, some (wrapper cb), h.2)
  given_by _ h = h

-- The two of the writer.
for_both : Sending.System → Option ℕ × Option ℕ
for_both s = (s.writer.error_handler, s.writer.write_task_timeout_handler)

writers : Handlers → Option ℕ × Option ℕ
writers h = (h.0, h.1)

three :
    (p q : Option ℕ × Option ℕ) (x y : Option ℕ)
    → p ≡ q
    → x ≡ y
    → Path Handlers (p.0, p.1, x) (q.0, q.1, y)
three p q x y e f = rw (e, f) refl

both_of : Writing.Callbacks → Option ℕ × Option ℕ
both_of c = (c.0, c.1)

module _ {H : Type 0} (handle : H → List ℕ → ReadTask H) where
  error_of : Receiving.System H → Option ℕ
  error_of s = s.reader.error_handler

  -- The lambdas around the latest callbacks that a history gives.
  abbrev pub latest : {s u : Assembly H} → Run handle s u → Handlers
  latest here = (none, none, none)
  latest (next e r ok eq) = given_by e (latest r)

  writer-held :
      (s u : Assembly H) (e : Event H)
      → Sending.Run Sending.start (sender_of s)
      → Enabled handle s e
      → SenderMoves (for_writer e) (sender_of s) (sender_of u)
      → for_both (sender_of u) ≡ writers (given_by e (held s.session))
  unfolding for_both writers both_of
  writer-held s u (schedules tasks d) r ok (_, eq) =
      ap both_of (step-Hears (schedule tasks d) r tt eq)
  writer-held s u (handlers w q) r ok (_, eq) =
      ap both_of (step-Hears (set_write_error (wrapper w)) r tt eq)
  writer-held s u (times_out cb) r ok (_, eq) =
      ap both_of (step-Hears (set_timed_out (wrapper cb)) r tt eq)
  writer-held s u (sending (queue tasks d now)) r ok (_, eq) =
      ap both_of (step-Hears (queue tasks d now) r tt eq)
  writer-held s u (sending (complete ec)) r ok (_, eq) =
      ap both_of (step-Hears (complete ec) r ok eq)
  writer-held s u (sending (deadline ec locked)) r ok (_, eq) =
      ap both_of (step-Hears (deadline ec locked) r tt eq)
  writer-held s u (sending _) r ok m = absurd ok
  writer-held s u (begins task) r ok m = ap for_both (sym m)
  writer-held s u (monitor cb period is_open) r ok m = ap for_both (sym m)
  writer-held s u (closes cb) r ok m = ap for_both (sym m)
  writer-held s u destroyed r ok m = ap for_both (sym m)
  writer-held s u (receiving e) r ok m = ap for_both (sym m)
  writer-held s u (closed i is_open ec) r ok m = ap for_both (sym m)
  writer-held s u (waited ec is_open) r ok m = ap for_both (sym m)
  writer-held s u (ponged ec) r ok m = ap for_both (sym m)
  writer-held s u (control kind) r ok m = ap for_both (sym m)

  reader-held :
      (s u : Assembly H) (e : Event H)
      → Enabled handle s e
      → ReceiverMoves handle (for_reader e) (receiver_of s) (receiver_of u)
      → u.session.reader.error_handler ≡ (given_by e (held s.session)).2
  unfolding error_of
  reader-held s u (begins task) ok (_, eq) =
      ap (λ (c : Reading.Callbacks). c.0)
        (step-callback handle (receiver_of s) (receiver_of u) (begin task) eq)
  reader-held s u (handlers w q) ok (_, eq) =
      ap (λ (c : Reading.Callbacks). c.0)
        (step-callback handle (receiver_of s) (receiver_of u) (set_error (wrapper q)) eq)
  reader-held s u (monitor cb period is_open) ok (_, eq) =
      ap (λ (c : Reading.Callbacks). c.0)
        (step-callback handle (receiver_of s) (receiver_of u) (set_alive cb) eq)
  reader-held s u (receiving (arrived xs)) ok (_, eq) =
      ap (λ (c : Reading.Callbacks). c.0)
        (step-callback handle (receiver_of s) (receiver_of u) (arrived xs) eq)
  reader-held s u (receiving (failed ec xs)) ok (_, eq) =
      ap (λ (c : Reading.Callbacks). c.0)
        (step-callback handle (receiver_of s) (receiver_of u) (failed ec xs) eq)
  reader-held s u (receiving _) ok m = absurd ok
  reader-held s u (schedules tasks d) ok m = ap error_of (sym m)
  reader-held s u (times_out cb) ok m = ap error_of (sym m)
  reader-held s u (closes cb) ok m = ap error_of (sym m)
  reader-held s u destroyed ok m = ap error_of (sym m)
  reader-held s u (sending e) ok m = ap error_of (sym m)
  reader-held s u (closed i is_open ec) ok m = ap error_of (sym m)
  reader-held s u (waited ec is_open) ok m = ap error_of (sym m)
  reader-held s u (ponged ec) ok m = ap error_of (sym m)
  reader-held s u (control kind) ok m = ap error_of (sym m)

  pub Run-held :
      (a : SessionArguments) {s : Assembly H} (r : Run handle (start a) s)
      → held s.session ≡ latest r
  unfolding start new_session Writer.new_writer Reader.new_reader for_both writers
  Run-held a here = refl
  Run-held a (next {t} {u} e r ok eq) =
      let two =
        writer-held t u e (Run-sender handle a r) ok (step-SenderMoves handle t u e ok eq) in
      let one = reader-held t u e ok (step-ReceiverMoves handle t u e ok eq) in
      let before = Run-held a r in
      three (for_both (sender_of u)) (writers (given_by e (held t.session))) _ _ two one
      ∙ ap (given_by e) before
