-- ===== src/Reader/System.antt =====
-- An `AsyncReader` (src/async_reader.cpp) and the stream that it reads from. The stream completes a read
-- with at least the bytes that were asked for, or fails it when fewer came. A second `async_read` before
-- the first has completed gives `none`. `scheduleRead` may be called at any time, also while a read is in
-- flight; the histories of `Run` are the orderly ones, where it is called only while none is, and where
-- the lambda that it posts runs before the next call: the two are one event, `begin`.
use lib_native_streaming.Common.{
  ℕ, suc, ◌+◌, ◌≡◌, true, ◌≤◌, ◌<◌, Option, none, some, List, [], ◌∷◌, ◌++◌, length,
}
use lib_native_streaming.Common.Errors.{ErrorCode, success, is_error}
use lib_native_streaming.Common.Effects.{◌>>◌}
use lib_native_streaming.Reader.{
  ReadTask, no_task, AsyncReader, Effect, new_reader, schedule_read, set_error_handler,
  set_connection_alive_handler, run_posted, on_read,
}
use lib_native_streaming.Reader.Sequence.{reads}

-- `entry` is the first task of the latest sequence, `received` the bytes that it could read so far,
-- `trace` its effects, `failures` counts its failed reads; `in_flight` is how many bytes the stream was asked for.
pub record System (H : Type 0) : Type 0 where
  pub reader : AsyncReader H
  pub in_flight : Option ℕ
  pub entry : ReadTask H
  pub received : List ℕ
  pub trace : List (Effect H)
  pub failures : ℕ

pub data Event (H : Type 0) : Type 0 where
  begin : ReadTask H → Event H
  arrived : List ℕ → Event H
  failed : ErrorCode → List ℕ → Event H
  set_error : ℕ → Event H
  set_alive : ℕ → Event H

unfoldable pub start : {H : Type 0} → System H
unfolding new_reader
start = record {
  reader = new_reader;
  in_flight = none;
  entry = no_task;
  received = [];
  trace = [];
  failures = 0;
}

abbrev pub launch : Option ℕ → List ℕ → Option (Option ℕ)
launch flight [] = some flight
launch none (n ∷ []) = some (some n)
launch none (n ∷ m ∷ ns) = none
launch (some k) (n ∷ ns) = none

module _ {H : Type 0} where
  abbrev pub record_effects :
      ReadTask H
      → List ℕ
      → List (Effect H)
      → AsyncReader H
      → List (Effect H)
      → ℕ
      → Option (Option ℕ)
      → Option (System H)
  record_effects entry received before r es k none = none
  record_effects entry received before r es k (some flight) = some (record {
    reader = r;
    in_flight = flight;
    entry = entry;
    received = received;
    trace = before ++ es;
    failures = k;
  })

  abbrev pub settle :
      Option ℕ
      → ReadTask H
      → List ℕ
      → List (Effect H)
      → ℕ
      → Option (Unit {0} × AsyncReader H × List (Effect H))
      → Option (System H)
  settle flight entry received before k none = none
  settle flight entry received before k (some r) =
      record_effects entry received before r.1 r.2 k (launch flight (reads r.2))

module _ {H : Type 0} (handle : H → List ℕ → ReadTask H) where
  -- `scheduleRead`, and the lambda that it posts. The fuel is one more than the bytes at hand.
  unfoldable pub step : System H → Event H → Option (System H)
  step s (begin task) =
      settle s.in_flight task s.reader.buffer [] 0
        ((schedule_read task >> run_posted handle (suc (length s.reader.buffer))) s.reader)
  step s (arrived xs) =
      settle none s.entry (s.received ++ xs) s.trace s.failures
        (on_read handle (length (s.reader.buffer ++ xs)) success xs s.reader)
  step s (failed ec xs) =
      settle none s.entry (s.received ++ xs) s.trace (s.failures + 1)
        (on_read handle 0 ec xs s.reader)
  step s (set_error cb) =
      settle s.in_flight s.entry s.received s.trace s.failures (set_error_handler cb s.reader)
  step s (set_alive cb) =
      settle s.in_flight s.entry s.received s.trace s.failures
        (set_connection_alive_handler cb s.reader)

  -- A task as the constructor of `ReadTask` asserts it.
  abbrev pub IsTask : ReadTask H → Type 0
  IsTask t = ((h : H) × (t.handler ≡ some h)) × (0 < t.bytes_to_read)

  -- What the stream does, and what may be called.
  abbrev pub Possible : System H → Event H → Type 0
  Possible s (begin task) = IsTask task
  Possible s (arrived xs) = (n : ℕ) × (s.in_flight ≡ some n) × (n ≤ length xs)
  Possible s (failed ec xs) =
      (is_error ec ≡ true) × ((n : ℕ) × (s.in_flight ≡ some n) × (length xs < n))
  Possible s _ = Unit {0}

  -- What the callers of `scheduleRead` keep to, which the source neither says nor checks.
  abbrev pub IsOrderly : System H → Event H → Type 0
  IsOrderly s (begin task) = s.in_flight ≡ none
  IsOrderly s _ = Unit {0}

  abbrev pub Enabled : System H → Event H → Type 0
  Enabled s e = IsOrderly s e × Possible s e

  pub data Run (s : System H) : System H → Type 0 where
    here : Run s s
    next : {t u : System H} (e : Event H) → Run s t → Enabled t e → step t e ≡ some u → Run s u
