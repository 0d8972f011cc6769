-- ===== src/Reader/Invariant.antt =====
-- The invariant of the reader's system (src/async_reader.cpp), and that every event that can happen
-- keeps it.
use lib_native_streaming.Common.{
  ℕ, suc, ◌≡◌, ◌≤◌, ◌<◌, refl, sym, subst, ◌∙◌, Option, none, some, List, [], ◌∷◌, ◌++◌, length,
  length-append, append-nil, inl, inr, ◌⊎◌, ◌+◌, true, arith,
}
use lib_native_streaming.Common.Errors.{ErrorCode, is_error}
use lib_native_streaming.Common.Effects.{◌>>◌}
use lib_native_streaming.Reader.{
  ReadTask, AsyncReader, Effect, schedule_read, run_posted, do_read, set_error_handler,
  set_connection_alive_handler, post_do_read,
}
use lib_native_streaming.Reader.Framing.{
  Pieces, Delivers, finished, waiting, piece, Delivers-append,
}
use lib_native_streaming.Reader.Sequence.{
  pieces, pieces-append, reports, reports-append, AsksForBytes, do_read-Ran, on_read-Ran,
}
use lib_native_streaming.Reader.System.{
  System, Event, begin, arrived, failed, set_error, set_alive, start, step, IsTask, Enabled, Run,
  here, next,
}
use lib_native_streaming.Reader.Flight.{
  flight_of, launch-missing, failure_effects, reads-failure, pieces-failure, reports-failure,
  on_read_failed, flight_some,
}

module _ {H : Type 0} (handle : H → List ℕ → ReadTask H) where
  abbrev pub IsSized : ReadTask H → Type 0
  IsSized t = (h : H) → t.handler ≡ some h → 0 < t.bytes_to_read

  -- A read is in flight for the bytes that are missing, until one fails.
  abbrev pub Flight : ℕ → Option ℕ → AsyncReader H → Type 0
  Flight k flight r = ((k ≡ 0) × (flight ≡ flight_of r)) ⊎ ((k ≡ 1) × (flight ≡ none))

  pub record Inv (s : System H) : Type 0 where
    pub delivered :
        Delivers handle s.entry s.received (pieces s.trace) s.reader.pending_task s.reader.buffer
    pub asked : Flight s.failures s.in_flight s.reader
    pub reported : reports s.trace ≡ s.failures
    pub sized : IsSized s.reader.pending_task

  Delivers-IsSized :
      {t u : ReadTask H} {xs ys : List ℕ} {ps : Pieces H}
      → AsksForBytes handle
      → Delivers handle t xs ps u ys
      → IsSized t
      → IsSized u
  Delivers-IsSized asks (finished e p f g) z = subst IsSized (sym f) z
  Delivers-IsSized asks (waiting h e l p f g) z = subst IsSized (sym f) z
  Delivers-IsSized asks (piece {t} {xs = xs} h e l d p) z = Delivers-IsSized asks d (asks h _)

  pub start-Inv : Inv start
  unfolding start flight_of
  start-Inv = record {
    delivered = finished refl refl refl refl;
    asked = inl (refl, refl);
    reported = refl;
    sized = λ h e. cc;
  }

  -- The posted lambda of `scheduleRead` runs `doRead` on the new pending task.
  begin_lem :
      (f : ℕ) (task : ReadTask H) (r q : AsyncReader H) (es : List (Effect H))
      → do_read handle f task.bytes_to_read (record r { pending_task = task }) ≡ some (tt, q, es)
      → (schedule_read task >> run_posted handle f) r ≡ some (tt, q, post_do_read ∷ es)
  unfolding schedule_read run_posted
  begin_lem f task r q es e = ground (arith, e)

  abbrev Steps : System H → Event H → Type 0
  Steps s e = (u : System H) × (step handle s e ≡ some u) × Inv u

  begin-Steps :
      (s : System H) (task : ReadTask H)
      → AsksForBytes handle
      → s.in_flight ≡ none
      → IsTask handle task
      → Steps s (begin task)
  unfolding step
  begin-Steps s task asks free is_task =
      let r : AsyncReader H = record s.reader { pending_task = task } in
      let ran = do_read-Ran handle (suc (length s.reader.buffer)) r asks is_task (omega arith) in
      let u : System H = record {
        reader = ran.after;
        in_flight = flight_of ran.after;
        entry = task;
        received = s.reader.buffer;
        trace = post_do_read ∷ ran.effects;
        failures = 0;
      } in
      (
        u,
        rw (
          free,
          begin_lem (suc (length s.reader.buffer)) task s.reader ran.after ran.effects ran.returns,
          ran.asked,
          launch-missing ran.after,
        ),
        record {
          delivered = ran.delivered;
          asked = inl (refl, refl);
          reported = ran.quiet;
          sized = Delivers-IsSized asks ran.delivered (λ h e. is_task.1);
        },
      )

  pub alive :
      (k : ℕ) (flight : Option ℕ) (r : AsyncReader H) (n : ℕ)
      → Flight k flight r
      → flight ≡ some n
      → (k ≡ 0) × (flight_of r ≡ some n)
  alive k flight r n (inl (z, e)) busy = (z, sym e ∙ busy)
  alive k flight r n (inr (z, e)) busy = cc

  arrived-Steps :
      (s : System H) (xs : List ℕ) (n : ℕ)
      → AsksForBytes handle
      → s.in_flight ≡ some n
      → n ≤ length xs
      → Inv s
      → Steps s (arrived xs)
  unfolding step
  arrived-Steps s xs n asks busy enough inv =
      let r = s.reader in
      let live = alive s.failures s.in_flight r n inv.asked busy in
      let ((h, e), k) = flight_some handle r n live.1 in
      let ran =
        on_read-Ran handle (length (r.buffer ++ xs)) r xs asks ((h, e), inv.sized h e)
          (omega (arith, length-append r.buffer xs)) (omega arith) in
      let u : System H = record {
        reader = ran.after;
        in_flight = flight_of ran.after;
        entry = s.entry;
        received = s.received ++ xs;
        trace = s.trace ++ ran.effects;
        failures = s.failures;
      } in
      (
        u,
        rw (ran.returns, ran.asked, launch-missing ran.after),
        record {
          delivered =
              rw (pieces-append s.trace ran.effects)
                (Delivers-append handle xs inv.delivered ran.delivered);
          asked = inl (live.0, refl);
          reported = omega (arith, reports-append s.trace ran.effects, ran.quiet, inv.reported);
          sized = Delivers-IsSized asks ran.delivered inv.sized;
        },
      )

  -- The pending task waits for the bytes that did not come.
  failed-Steps :
      (s : System H) (ec : ErrorCode) (xs : List ℕ) (n : ℕ)
      → is_error ec ≡ true
      → s.in_flight ≡ some n
      → length xs < n
      → Inv s
      → Steps s (failed ec xs)
  unfolding step
  failed-Steps s ec xs n bad busy few inv =
      let r = s.reader in
      let live = alive s.failures s.in_flight r n inv.asked busy in
      let ((h, e), k) = flight_some handle r n live.1 in
      let es = failure_effects ec r.error_handler in
      let q : AsyncReader H = record r { buffer = r.buffer ++ xs } in
      let u : System H = record s {
        reader = q;
        in_flight = none;
        received = s.received ++ xs;
        trace = s.trace ++ es;
        failures = s.failures + 1;
      } in
      (
        u,
        rw (on_read_failed handle 0 ec xs r bad, reads-failure H ec r.error_handler) refl,
        record {
          delivered =
              rw (pieces-append s.trace es, pieces-failure)
                (Delivers-append handle xs inv.delivered
                  (waiting h e (omega (arith, length-append r.buffer xs)) refl refl refl));
          asked = inr (omega (arith, live.0), refl);
          reported = omega (
            arith,
            reports-append s.trace es,
            reports-failure H ec r.error_handler,
            inv.reported,
          );
          sized = inv.sized;
        },
      )

  -- A callback is set: the rest stays.
  setter-Inv :
      (s : System H) (r : AsyncReader H)
      → r.buffer ≡ s.reader.buffer
      → r.pending_task ≡ s.reader.pending_task
      → Inv s
      → Inv (record s { reader = r; trace = s.trace ++ [] })
  unfolding flight_of
  setter-Inv s r b t inv = record {
    delivered = rw (b, t, append-nil s.trace) inv.delivered;
    asked = rw (b, t) inv.asked;
    reported = rw append-nil inv.reported;
    sized = rw t inv.sized;
  }

  pub step-Inv :
      (s : System H) (e : Event H) → AsksForBytes handle → Inv s → Enabled handle s e → Steps s e
  unfolding step set_error_handler set_connection_alive_handler
  step-Inv s (begin task) asks inv (free, is_task) = begin-Steps s task asks free is_task
  step-Inv s (arrived xs) asks inv (_, (n, busy, enough)) =
      arrived-Steps s xs n asks busy enough inv
  step-Inv s (failed ec xs) asks inv (_, (bad, (n, busy, few))) =
      failed-Steps s ec xs n bad busy few inv
  step-Inv s (set_error cb) asks inv h =
      let r : AsyncReader H = record s.reader { error_handler = some cb } in
      (record s { reader = r; trace = s.trace ++ [] }, refl, setter-Inv s r refl refl inv)
  step-Inv s (set_alive cb) asks inv h =
      let r : AsyncReader H = record s.reader { connection_alive_callback = some cb } in
      (record s { reader = r; trace = s.trace ++ [] }, refl, setter-Inv s r refl refl inv)

  pub Run-Inv : {s u : System H} → AsksForBytes handle → Inv s → Run handle s u → Inv u
  Run-Inv asks inv here = inv
  Run-Inv asks inv (next {t} {u} e r h eq) =
      let after = step-Inv t e asks (Run-Inv asks inv r) h in
      let same : after.0 ≡ u = cc (after.1) in subst Inv same after.2
