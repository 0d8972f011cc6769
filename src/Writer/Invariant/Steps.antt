-- ===== src/Writer/Invariant/Steps.antt =====
-- Every event of the writer keeps the invariant, so it holds after every run.
use lib_native_streaming.Common.{
  ℕ, ◌≡◌, refl, subst, ◌≢◌, inl, inr, Bool, true, false, Option, none, some, [], ◌∷◌, ltb, arith,
  Bool-cases,
}
use lib_native_streaming.Common.Errors.{ErrorCode}
use lib_native_streaming.Writer.{BatchedWriteTasks, BatchedWriteTasksWithDeadline}
use lib_native_streaming.Writer.System.{
  Buffers, System, Event, schedule, queue, complete, deadline, set_error, set_alive, set_timed_out,
  step, Enabled, Run, here, next,
}
use lib_native_streaming.Writer.Invariant.{Queue, Fits, Inv, Steps}
use lib_native_streaming.Writer.Invariant.Accepted.{
  step-accepted, accepted_system, accepted_system-Inv,
}
use lib_native_streaming.Writer.Invariant.Completed.{
  completed_system, step-completed, completed_system-Inv,
}
use lib_native_streaming.Writer.Invariant.Dropped.{
  timed_out-Quiet, late-Quiet, deadline-Quiet, schedule-Quiet, set_error-Quiet, set_alive-Quiet,
  set_timed_out-Quiet,
}
use lib_native_streaming.Writer.Invariant.Quiet.{quiet_system, Quiet, Quiet-Inv}

-- What an event that can happen does to the system: one of three things.
pub data Outcome (s : System) : Event → Type 0 where
  quiet : {e : Event} → Quiet s e → Outcome s e
  accepted :
      (tasks : BatchedWriteTasks) (d : Option ℕ) (now : ℕ)
      → s.writer.timeout_reached ≡ false
      → step s (queue tasks d now) ≡ some (accepted_system s tasks d s.writer.write_tasks_queue)
      → Outcome s (queue tasks d now)
  completed :
      (ec : ErrorCode) (bs : Buffers) (b : BatchedWriteTasksWithDeadline) (q : Queue)
      → s.writer.write_tasks_queue ≡ b ∷ q
      → s.in_flight ≡ some bs
      → step s (complete ec) ≡ some (completed_system s ec b q)
      → Outcome s (complete ec)

complete-Outcome :
    (s : System) (ec : ErrorCode) (f : Option Buffers) (q : Queue)
    → s.in_flight ≡ f
    → s.writer.write_tasks_queue ≡ q
    → Fits f q
    → f ≢ none
    → Outcome s (complete ec)
complete-Outcome s ec none q e g h busy = absurd (busy refl)
complete-Outcome s ec (some bs) [] e g h busy = absurd h
complete-Outcome s ec (some bs) (b ∷ q) e g h busy =
    completed ec bs b q g e (step-completed s ec b q g)

queue-Outcome :
    (s : System) (tasks : BatchedWriteTasks) (d : Option ℕ) (now : ℕ) (r : Bool)
    → s.writer.timeout_reached ≡ r
    → Fits s.in_flight s.writer.write_tasks_queue
    → Outcome s (queue tasks d now)
queue-Outcome s tasks d now true e fits = quiet (timed_out-Quiet s tasks d now e)
queue-Outcome s tasks none now false e fits =
    accepted tasks none now e
      (step-accepted s tasks none now s.writer.write_tasks_queue refl (rw e) fits)
queue-Outcome s tasks (some d) now false e fits = elim (Bool-cases (ltb d now)) [
  | inl late ↦ quiet (late-Quiet s tasks d now e (ground arith))
  | inr in_time ↦
      accepted tasks (some d) now e
        (step-accepted s tasks (some d) now s.writer.write_tasks_queue refl (rw (e, in_time)) fits)
]

pub step-Outcome :
    (s : System) (e : Event)
    → Fits s.in_flight s.writer.write_tasks_queue
    → Enabled s e
    → Outcome s e
step-Outcome s (schedule tasks d) fits h = quiet (schedule-Quiet s tasks d)
step-Outcome s (queue tasks d now) fits h =
    queue-Outcome s tasks d now s.writer.timeout_reached refl fits
step-Outcome s (complete ec) fits h =
    complete-Outcome s ec s.in_flight s.writer.write_tasks_queue refl refl fits h
step-Outcome s (deadline ec locked) fits h = quiet (deadline-Quiet s ec locked)
step-Outcome s (set_error cb) fits h = quiet (set_error-Quiet s cb)
step-Outcome s (set_alive cb) fits h = quiet (set_alive-Quiet s cb)
step-Outcome s (set_timed_out cb) fits h = quiet (set_timed_out-Quiet s cb)

Outcome-Steps : (s : System) {e : Event} → Inv s → Outcome s e → Steps s e
Outcome-Steps s {e} inv (quiet h) =
    (quiet_system s h.writer h.effects, h.result, Quiet-Inv s e h inv)
Outcome-Steps s inv (accepted tasks d now e eq) =
    (accepted_system s tasks d s.writer.write_tasks_queue, eq, accepted_system-Inv s tasks d inv)
Outcome-Steps s inv (completed ec bs b q e f eq) =
    (completed_system s ec b q, eq, completed_system-Inv s ec bs b q e f inv)

-- In a state with the invariant every event that can happen has a result: the code never reads the
-- front of an empty queue and never starts a write while one is in flight. The result has the
-- invariant again.
pub step-Inv : (s : System) (e : Event) → Inv s → Enabled s e → Steps s e
step-Inv s e inv h = Outcome-Steps s inv (step-Outcome s e inv.fits h)

pub Run-Inv : {s u : System} → Inv s → Run s u → Inv u
Run-Inv inv here = inv
Run-Inv inv (next {t} {u} e r h eq) =
    let after = step-Inv t e (Run-Inv inv r) h in
    let same : after.0 ≡ u = cc (after.1) in subst Inv same after.2
