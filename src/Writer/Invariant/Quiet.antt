-- ===== src/Writer/Invariant/Quiet.antt =====
-- What an event of the writer (src/async_writer.cpp) keeps that leaves its queue and the stream alone.
use lib_native_streaming.Common.{
  ℕ, ◌+◌, ◌≡◌, refl, true, false, Option, some, List, [], ◌++◌, arith, append-nil,
}
use lib_native_streaming.Writer.{AsyncWriter, Effect}
use lib_native_streaming.Writer.Branches.{timeout_effects}
use lib_native_streaming.Writer.System.{
  System, Event, schedule, queue, complete, deadline, set_error, set_alive, set_timed_out, step,
  calls, writes, timeouts, armed, disarmed,
}
use lib_native_streaming.Writer.Trace.{calls-append, writes-append, timeouts-append}
use lib_native_streaming.Writer.Invariant.{count_of, Inv}

-- Effects that neither write nor call a handler, and a writer with the same queue.
unfoldable pub quiet_system : System → AsyncWriter → List Effect → System
quiet_system s w es = record {
  writer = w;
  in_flight = s.in_flight;
  accepted = s.accepted ++ [];
  trace = s.trace ++ es;
}

-- A batch is dropped only where a deadline was missed, be it its own.
abbrev pub Refused : Event → AsyncWriter → Type 0
Refused (queue tasks d now) w = w.timeout_reached ≡ true
Refused _ w = Unit {0}

timed_out-Refused : (e : Event) (w : AsyncWriter) → w.timeout_reached ≡ true → Refused e w
timed_out-Refused (queue tasks d now) w h = h
timed_out-Refused (schedule tasks d) w h = tt
timed_out-Refused (complete ec) w h = tt
timed_out-Refused (deadline ec locked) w h = tt
timed_out-Refused (set_error cb) w h = tt
timed_out-Refused (set_alive cb) w h = tt
timed_out-Refused (set_timed_out cb) w h = tt

-- The callbacks of a writer, for errors, missed deadlines and a connection that is alive: only its own
-- setter changes each.
abbrev pub Callbacks : Type 0
Callbacks = Option ℕ × Option ℕ × Option ℕ

abbrev pub callbacks_of : AsyncWriter → Callbacks
callbacks_of w = (w.error_handler, w.write_task_timeout_handler, w.connection_alive_callback)

abbrev pub callbacks_after : Event → Callbacks → Callbacks
callbacks_after (set_error cb) c = (some cb, c.1, c.2)
callbacks_after (set_timed_out cb) c = (c.0, some cb, c.2)
callbacks_after (set_alive cb) c = (c.0, c.1, some cb)
callbacks_after _ c = c

abbrev pub Hears : Event → AsyncWriter → AsyncWriter → Type 0
Hears e w v = callbacks_of v ≡ callbacks_after e (callbacks_of w)

-- Such an event, and what it leaves as it was.
pub record Quiet (s : System) (e : Event) : Type 0 where
  pub writer : AsyncWriter
  pub effects : List Effect
  pub result : step s e ≡ some (quiet_system s writer effects)
  pub same_queue : writer.write_tasks_queue ≡ s.writer.write_tasks_queue
  pub no_call : calls effects ≡ []
  pub no_write : writes effects ≡ []
  pub no_timer : (armed effects ≡ []) × (disarmed effects ≡ [])
  pub same_timer : writer.next_timer ≡ s.writer.next_timer
  pub refused : Refused e writer
  pub hears : Hears e s.writer writer
  pub count : timeouts effects + count_of s.writer.timeout_reached ≡ count_of writer.timeout_reached

pub Quiet-Inv :
    (s : System) (e : Event) (h : Quiet s e) → Inv s → Inv (quiet_system s h.writer h.effects)
unfolding quiet_system
Quiet-Inv s e h inv = record {
  fits = rw h.same_queue inv.fits;
  handled =
      rw
        (
          h.same_queue,
          append-nil s.accepted,
          calls-append s.trace h.effects,
          h.no_call,
          append-nil (calls s.trace),
        )
        inv.handled;
  written =
      rw
        (
          h.same_queue,
          append-nil s.accepted,
          writes-append s.trace h.effects,
          h.no_write,
          append-nil (writes s.trace),
        )
        inv.written;
  reported = omega (arith, timeouts-append s.trace h.effects, inv.reported, h.count);
}

abbrev timed_out : AsyncWriter → AsyncWriter
timed_out w = record w { timeout_reached = true }

-- The first missed deadline is reported, and marks the writer.
pub first_timeout :
    (s : System) (e : Event)
    → s.writer.timeout_reached ≡ false
    → step s e ≡ some (quiet_system s (timed_out s.writer) (timeout_effects s.writer))
    → Hears e s.writer (timed_out s.writer)
    → Quiet s e
first_timeout s e h result hears = record {
  writer = timed_out s.writer;
  effects = timeout_effects s.writer;
  result = result;
  same_queue = refl;
  no_call = refl;
  no_write = refl;
  no_timer = (refl, refl);
  same_timer = refl;
  refused = timed_out-Refused e (timed_out s.writer) refl;
  hears = hears;
  count = rw h (omega arith);
}

-- Neither a write nor a report.
pub setter :
    (s : System) (e : Event) (w : AsyncWriter)
    → step s e ≡ some (quiet_system s w [])
    → w.write_tasks_queue ≡ s.writer.write_tasks_queue
    → w.timeout_reached ≡ s.writer.timeout_reached
    → w.next_timer ≡ s.writer.next_timer
    → Refused e w
    → Hears e s.writer w
    → Quiet s e
setter s e w result same_queue same_flag same_timer refused hears = record {
  writer = w;
  effects = [];
  result = result;
  same_queue = same_queue;
  no_call = refl;
  no_write = refl;
  no_timer = (refl, refl);
  same_timer = same_timer;
  refused = refused;
  hears = hears;
  count = rw same_flag (omega arith);
}

pub nothing :
    (s : System) (e : Event)
    → step s e ≡ some (quiet_system s s.writer [])
    → Refused e s.writer
    → Hears e s.writer s.writer
    → Quiet s e
nothing s e result refused hears = setter s e s.writer result refl refl refl refused hears
