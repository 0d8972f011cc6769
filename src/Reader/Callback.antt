-- ===== src/Reader/Callback.antt =====
-- The callbacks of `AsyncReader` (src/async_reader.cpp): only its setter changes each.
use lib_native_streaming.Common.{
  ℕ, zero, suc, ◌+◌, ◌≡◌, refl, subst, Option, none, some, List, [], ◌++◌, length, take, drop,
  arith,
}
use lib_native_streaming.Common.Errors.{ErrorCode, success}
use lib_native_streaming.Common.Effects.{◌>>◌}
use lib_native_streaming.Reader.{
  ReadTask, AsyncReader, Effect, schedule_read, set_error_handler, set_connection_alive_handler,
  run_posted, on_read, do_read, read_done,
}
use lib_native_streaming.Reader.Sequence.{reads}
use lib_native_streaming.Reader.System.{
  System, Event, begin, arrived, failed, set_error, set_alive, step, settle, record_effects, launch,
}

abbrev pub Callbacks : Type 0
Callbacks = Option ℕ × Option ℕ

module _ {H : Type 0} where
  -- For errors, and for a connection that is alive.
  abbrev pub callbacks_of : AsyncReader H → Callbacks
  callbacks_of r = (r.error_handler, r.connection_alive_callback)

  -- A method that leaves the callbacks `c`.
  abbrev pub Leaves : Callbacks → Option (Unit {0} × AsyncReader H × List (Effect H)) → Type 0
  Leaves c none = Unit {0}
  Leaves c (some r) = callbacks_of r.1 ≡ c

module _ {H : Type 0} (handle : H → List ℕ → ReadTask H) where
  -- The reader after a handler was called.
  abbrev next_of : H → AsyncReader H → AsyncReader H
  next_of h r = record r {
    pending_task = handle h (take r.pending_task.bytes_to_read r.buffer);
    buffer = drop r.pending_task.bytes_to_read r.buffer;
  }

  read_done-Leaves :
      (f : ℕ) (ec : ErrorCode) (r : AsyncReader H) (o : Option H)
      → r.pending_task.handler ≡ o
      → ((n : ℕ) (q : AsyncReader H) → Leaves (callbacks_of q) (do_read handle f n q))
      → Leaves (callbacks_of r) (read_done handle (do_read handle f) ec r)
  unfolding read_done
  read_done-Leaves f ec r none e h = ground (arith, e)
  read_done-Leaves f ec r (some k) e h =
      ground (arith, e, h (next_of k r).pending_task.bytes_to_read (next_of k r))

  do_read-Leaves : (f n : ℕ) (r : AsyncReader H) → Leaves (callbacks_of r) (do_read handle f n r)
  unfolding do_read
  do_read-Leaves zero n r = tt
  do_read-Leaves (suc f) n r = ground (
    arith,
    read_done-Leaves f success r r.pending_task.handler refl (λ m q. do_read-Leaves f m q),
  )

  recorded :
      (c : Callbacks) (entry : ReadTask H) (received : List ℕ) (before : List (Effect H))
      (r : AsyncReader H) (es : List (Effect H)) (k : ℕ) (flight : Option (Option ℕ)) (u : System H)
      → callbacks_of r ≡ c
      → record_effects entry received before r es k flight ≡ some u
      → callbacks_of u.reader ≡ c
  recorded c entry received before r es k none u h eq = absurd cc
  recorded c entry received before r es k (some flight) u h eq =
      let same : r ≡ u.reader = cc in subst (λ (q : AsyncReader H). (callbacks_of q) ≡ c) same h

  settled :
      (c : Callbacks) (flight : Option ℕ) (entry : ReadTask H) (received : List ℕ)
      (before : List (Effect H)) (k : ℕ) (m : Option (Unit {0} × AsyncReader H × List (Effect H)))
      (u : System H)
      → Leaves c m
      → settle flight entry received before k m ≡ some u
      → callbacks_of u.reader ≡ c
  settled c flight entry received before k none u h eq = absurd cc
  settled c flight entry received before k (some r) u h eq =
      recorded c entry received before r.1 r.2 k (launch flight (reads r.2)) u h eq

  pub run_posted-Leaves :
      (f : ℕ) (r : AsyncReader H) → Leaves (callbacks_of r) (run_posted handle f r)
  unfolding run_posted
  run_posted-Leaves f r = ground (arith, do_read-Leaves f r.pending_task.bytes_to_read r)

  begin-Leaves :
      (f : ℕ) (task : ReadTask H) (r : AsyncReader H)
      → Leaves (callbacks_of r) ((schedule_read task >> run_posted handle f) r)
  unfolding schedule_read run_posted
  begin-Leaves f task r =
      ground (arith, do_read-Leaves f task.bytes_to_read (record r { pending_task = task }))

  on_read-Leaves :
      (f : ℕ) (ec : ErrorCode) (xs : List ℕ) (r : AsyncReader H)
      → Leaves (callbacks_of r) (on_read handle f ec xs r)
  unfolding on_read
  on_read-Leaves f ec xs r = ground (
    arith,
    read_done-Leaves f ec (record r { buffer = r.buffer ++ xs }) r.pending_task.handler refl
        (λ m q. do_read-Leaves f m q),
  )

  -- The callbacks that a reader has after an event.
  abbrev pub callbacks_after : Event H → Callbacks → Callbacks
  callbacks_after (set_error cb) c = (some cb, c.1)
  callbacks_after (set_alive cb) c = (c.0, some cb)
  callbacks_after _ c = c

  pub step-callback :
      (s u : System H) (e : Event H)
      → step handle s e ≡ some u
      → callbacks_of u.reader ≡ callbacks_after e (callbacks_of s.reader)
  unfolding step set_error_handler set_connection_alive_handler
  step-callback s u (begin task) eq =
      settled (callbacks_of s.reader) s.in_flight task s.reader.buffer [] 0
        ((schedule_read task >> run_posted handle (suc (length s.reader.buffer))) s.reader) u
        (begin-Leaves (suc (length s.reader.buffer)) task s.reader) eq
  step-callback s u (arrived xs) eq =
      settled (callbacks_of s.reader) none s.entry (s.received ++ xs) s.trace s.failures
        (on_read handle (length (s.reader.buffer ++ xs)) success xs s.reader) u
        (on_read-Leaves (length (s.reader.buffer ++ xs)) success xs s.reader) eq
  step-callback s u (failed ec xs) eq =
      settled (callbacks_of s.reader) none s.entry (s.received ++ xs) s.trace (s.failures + 1)
        (on_read handle 0 ec xs s.reader) u (on_read-Leaves 0 ec xs s.reader) eq
  step-callback s u (set_error cb) eq =
      settled (some cb, s.reader.connection_alive_callback) s.in_flight s.entry s.received s.trace
        s.failures (set_error_handler cb s.reader) u refl eq
  step-callback s u (set_alive cb) eq =
      settled (s.reader.error_handler, some cb) s.in_flight s.entry s.received s.trace s.failures
        (set_connection_alive_handler cb s.reader) u refl eq
