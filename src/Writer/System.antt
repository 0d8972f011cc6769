-- ===== src/Writer/System.antt =====
-- An `AsyncWriter` (src/async_writer.cpp) among the events that reach it: the queued lambda of
-- `scheduleWrite` runs, the stream completes a write, a deadline timer expires, a callback is set.
-- The stream takes one `async_write` at a time (Boost.Beast asks for it), so a second one before the
-- first has completed gives `none`, as does a read of the front of an empty queue.
use lib_native_streaming.Common.{
  ℕ, ◌+◌, ◌≡◌, ◌≢◌, Bool, Option, none, some, List, [], ◌∷◌, ◌++◌, if◌then◌else◌,
}
use lib_native_streaming.Common.Errors.{ErrorCode}
use lib_native_streaming.Writer.{
  AsyncWriter, BatchedWriteTasks, OptionalWriteDeadline, Effect, async_write, call_write_handler,
  call_timeout_handler, start_timer, cancel_timer, new_writer, schedule_write, set_error_handler,
  set_connection_alive_handler, set_write_timed_out_handler, on_deadline_timer, queue_batch_write,
  write_done,
}
use lib_native_streaming.Writer.Branches.{accepts}

abbrev pub Buffers : Type 0
Buffers = List (List ℕ)

-- `accepted` lists the batches that the queue took, `trace` all effects, both oldest first;
-- `in_flight` is what the stream is writing.
pub record System : Type 0 where
  pub writer : AsyncWriter
  pub in_flight : Option Buffers
  pub accepted : List BatchedWriteTasks
  pub trace : List Effect

pub data Event : Type 0 where
  schedule : BatchedWriteTasks → OptionalWriteDeadline → Event
  queue : BatchedWriteTasks → OptionalWriteDeadline → ℕ → Event
  complete : ErrorCode → Event
  deadline : ErrorCode → Bool → Event
  set_error : ℕ → Event
  set_alive : ℕ → Event
  set_timed_out : ℕ → Event

unfoldable pub launch : List Effect → Option Buffers → Option (Option Buffers)
launch [] flight = some flight
launch (async_write bs ∷ es) none = launch es (some bs)
launch (async_write bs ∷ es) (some cs) = none
launch (_ ∷ es) flight = launch es flight

abbrev pub record_effects :
    System
    → List BatchedWriteTasks
    → AsyncWriter
    → List Effect
    → Option (Option Buffers)
    → Option System
record_effects s new w es none = none
record_effects s new w es (some flight) =
    some (record {
      writer = w;
      in_flight = flight;
      accepted = s.accepted ++ new;
      trace = s.trace ++ es;
    })

abbrev pub settle :
    System
    → Option Buffers
    → List BatchedWriteTasks
    → Option (Unit {0} × AsyncWriter × List Effect)
    → Option System
settle s flight new none = none
settle s flight new (some r) = record_effects s new r.1 r.2 (launch r.2 flight)

unfoldable pub step : System → Event → Option System
step s (schedule tasks d) = settle s s.in_flight [] (schedule_write tasks d s.writer)
step s (queue tasks d now) =
    settle s s.in_flight (if accepts s.writer.timeout_reached d now then tasks ∷ [] else [])
      (queue_batch_write tasks d now s.writer)
step s (complete ec) = settle s none [] (write_done ec s.writer)
step s (deadline ec locked) = settle s s.in_flight [] (on_deadline_timer ec locked s.writer)
step s (set_error cb) = settle s s.in_flight [] (set_error_handler cb s.writer)
step s (set_alive cb) = settle s s.in_flight [] (set_connection_alive_handler cb s.writer)
step s (set_timed_out cb) = settle s s.in_flight [] (set_write_timed_out_handler cb s.writer)

-- The stream completes only a write that is in flight. Any other event may come at any time.
abbrev pub Enabled : System → Event → Type 0
Enabled s (complete ec) = s.in_flight ≢ none
Enabled s _ = Unit {0}

unfoldable pub start : System
unfolding new_writer
start = record { writer = new_writer; in_flight = none; accepted = []; trace = [] }

-- The states that a sequence of events leads to.
pub data Run (s : System) : System → Type 0 where
  here : Run s s
  next : {t u : System} (e : Event) → Run s t → Enabled t e → step t e ≡ some u → Run s u

unfoldable pub run : System → List Event → Option System
run s [] = some s
run s (e ∷ es) = elim (step s e) [ none ↦ none | some u ↦ run u es ]

-- What a trace says: the handlers called, the buffers written, the timeouts reported, in order.
abbrev pub calls : List Effect → List ℕ
calls [] = []
calls (call_write_handler h ∷ es) = h ∷ calls es
calls (_ ∷ es) = calls es

abbrev pub writes : List Effect → List Buffers
writes [] = []
writes (async_write bs ∷ es) = bs ∷ writes es
writes (_ ∷ es) = writes es

abbrev pub timeouts : List Effect → ℕ
timeouts [] = 0
timeouts (call_timeout_handler cb ∷ es) = 1 + timeouts es
timeouts (_ ∷ es) = timeouts es

-- The deadline timers started, and those cancelled.
abbrev pub armed : List Effect → List ℕ
armed [] = []
armed (start_timer t d ∷ es) = t ∷ armed es
armed (_ ∷ es) = armed es

abbrev pub disarmed : List Effect → List ℕ
disarmed [] = []
disarmed (cancel_timer t ∷ es) = t ∷ disarmed es
disarmed (_ ∷ es) = disarmed es
