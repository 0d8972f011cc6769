-- ===== src/Link/Halves.antt =====
-- Each half of a link has a history of its own, to which the theorems about it apply.
use lib_native_streaming.Common.{◌≡◌, ℕ, suc, ◌+◌, length, Option, none, some, List, [], ◌++◌}
use lib_native_streaming.Reader.{
  ReadTask, AsyncReader, Effect, schedule_read, run_posted, on_read, set_error_handler,
  set_connection_alive_handler,
}
use lib_native_streaming.Common.Errors.{success}
use lib_native_streaming.Common.Effects.{◌>>◌}
use lib_native_streaming.Reader.System as Receiving
use lib_native_streaming.Reader.System.{
  begin, arrived, failed, set_error, set_alive, settle, record_effects, launch,
}
use lib_native_streaming.Reader.Sequence.{reads}
use lib_native_streaming.Writer.System as Sending
use lib_native_streaming.Link.{Link, write, read, Run, here, next}

module _ {H : Type 0} where
  recorded :
      (entry : ReadTask H) (received : List ℕ) (before : List (Effect H)) (r : AsyncReader H)
      (es : List (Effect H)) (k : ℕ) (flight : Option (Option ℕ)) (u : Receiving.System H)
      → record_effects entry received before r es k flight ≡ some u
      → u.received ≡ received
  recorded entry received before r es k none u eq = cc
  recorded entry received before r es k (some flight) u eq = cc

  settled :
      (flight : Option ℕ) (entry : ReadTask H) (received : List ℕ) (before : List (Effect H))
      (k : ℕ) (m : Option (Unit {0} × AsyncReader H × List (Effect H))) (u : Receiving.System H)
      → settle flight entry received before k m ≡ some u
      → u.received ≡ received
  settled flight entry received before k none u eq = cc
  settled flight entry received before k (some r) u eq =
      recorded entry received before r.1 r.2 k (launch flight (reads r.2)) u eq

module _ {H : Type 0} (handle : H → List ℕ → ReadTask H) where
  pub Run-sender : {s : Link H} → Run handle s → Sending.Run Sending.start s.sender
  Run-sender here = Sending.here
  Run-sender (next {s} r (write e u new ok eq grown)) = Sending.next e (Run-sender r) ok eq
  Run-sender (next r (read e u rest ok eq taken)) = Run-sender r

  pub Run-receiver : {s : Link H} → Run handle s → Receiving.Run handle Receiving.start s.receiver
  Run-receiver here = Receiving.here
  Run-receiver (next {s} r (write e u new ok eq grown)) = Run-receiver r
  Run-receiver (next r (read e u rest ok eq taken)) = Receiving.next e (Run-receiver r) ok eq

  -- The bytes that a reader's latest sequence could read, after an event.
  abbrev pub received_after : Receiving.Event H → Receiving.System H → List ℕ
  received_after (begin task) s = s.reader.buffer
  received_after (arrived xs) s = s.received ++ xs
  received_after (failed ec xs) s = s.received ++ xs
  received_after _ s = s.received

  pub received-step :
      (e : Receiving.Event H) (s u : Receiving.System H)
      → Receiving.step handle s e ≡ some u
      → u.received ≡ received_after e s
  unfolding Receiving.step
  received-step (begin task) s u eq =
      settled s.in_flight task s.reader.buffer [] 0
        ((schedule_read task >> run_posted handle (suc (length s.reader.buffer))) s.reader) u eq
  received-step (arrived xs) s u eq =
      settled none s.entry (s.received ++ xs) s.trace s.failures
        (on_read handle (length (s.reader.buffer ++ xs)) success xs s.reader) u eq
  received-step (failed ec xs) s u eq =
      settled none s.entry (s.received ++ xs) s.trace (s.failures + 1)
        (on_read handle 0 ec xs s.reader) u eq
  received-step (set_error cb) s u eq =
      settled s.in_flight s.entry s.received s.trace s.failures (set_error_handler cb s.reader) u eq
  received-step (set_alive cb) s u eq =
      settled s.in_flight s.entry s.received s.trace s.failures
        (set_connection_alive_handler cb s.reader) u eq
