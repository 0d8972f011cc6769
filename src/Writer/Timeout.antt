-- ===== src/Writer/Timeout.antt =====
-- After a missed deadline `AsyncWriter` (src/async_writer.cpp) writes nothing more.
use lib_native_streaming.Common.{
  ℕ, ◌+◌, ◌≡◌, refl, subst, ◌∙◌, Bool, true, false, none, some, [], ◌∷◌, arith, append-nil,
}
use lib_native_streaming.Common.Errors.{ErrorCode, success, operation_aborted, failure}
use lib_native_streaming.Writer.{BatchedWriteTasksWithDeadline}
use lib_native_streaming.Writer.Branches.{done_effects}
use lib_native_streaming.Writer.System.{
  System, Event, step, start, Run, here, next, writes, timeouts,
}
use lib_native_streaming.Writer.Trace.{writes-append}
use lib_native_streaming.Writer.Invariant.{Queue, count_of, Inv, start-Inv}
use lib_native_streaming.Writer.Invariant.Completed.{completed_system, flight_next, given_done}
use lib_native_streaming.Writer.Invariant.Quiet.{quiet_system, Quiet}
use lib_native_streaming.Writer.Invariant.Steps.{
  Outcome, quiet, accepted, completed, step-Outcome, Run-Inv,
}

-- What a missed deadline leaves: the flag, the same writes, the same accepted batches.
abbrev Closed : System → System → Type 0
Closed s u =
    (u.writer.timeout_reached ≡ true)
    × (writes u.trace ≡ writes s.trace)
    × (u.accepted ≡ s.accepted)

no_flight : (ec : ErrorCode) (q : Queue) → flight_next ec true q ≡ none
no_flight success [] = refl
no_flight success (b ∷ q) = refl
no_flight operation_aborted q = refl
no_flight (failure n) q = refl

completed_system-Closed :
    (s : System) (ec : ErrorCode) (b : BatchedWriteTasksWithDeadline) (q : Queue)
    → s.writer.timeout_reached ≡ true
    → Closed s (completed_system s ec b q)
unfolding completed_system
completed_system-Closed s ec b q h = (
  h,
  rw
      (
        writes-append s.trace (done_effects ec s.writer b q),
        given_done ec s.writer b q,
        h,
        no_flight ec q,
      )
      (append-nil (writes s.trace)),
  append-nil s.accepted,
)

pub count_true : (n : ℕ) (r v : Bool) → n + count_of r ≡ count_of v → r ≡ true → v ≡ true
count_true n true true c h = refl
count_true n true false c h = absurd (omega arith)
count_true n false v c h = cc

quiet_system-Closed :
    (s : System) (e : Event) (h : Quiet s e)
    → s.writer.timeout_reached ≡ true
    → Closed s (quiet_system s h.writer h.effects)
unfolding quiet_system
quiet_system-Closed s e h t = (
  count_true (timeouts h.effects) s.writer.timeout_reached h.writer.timeout_reached h.count t,
  rw (writes-append s.trace h.effects, h.no_write) (append-nil (writes s.trace)),
  append-nil s.accepted,
)

Outcome-Closed :
    (s u : System) {e : Event}
    → Outcome s e
    → s.writer.timeout_reached ≡ true
    → step s e ≡ some u
    → Closed s u
Outcome-Closed s u {e} (quiet h) t eq =
    let same : quiet_system s h.writer h.effects ≡ u = cc (h.result) in
    subst (Closed s) same (quiet_system-Closed s e h t)
Outcome-Closed s u (accepted tasks d now f r) t eq = cc
Outcome-Closed s u (completed ec bs b q e f r) t eq =
    let same : completed_system s ec b q ≡ u = cc in
    subst (Closed s) same (completed_system-Closed s ec b q t)

Run-Closed : {s u : System} → Inv s → s.writer.timeout_reached ≡ true → Run s u → Closed s u
Run-Closed inv t here = (t, refl, refl)
Run-Closed inv t (next {t = v} {u} e r h eq) =
    let so_far = Run-Closed inv t r in
    let more = Outcome-Closed v u (step-Outcome v e (Run-Inv inv r).fits h) so_far.0 eq in
    (more.0, more.1 ∙ so_far.1, more.2 ∙ so_far.2)

-- After any history in which a deadline was missed, no later history starts a write, accepts a batch
-- or reports a timeout again, whatever is scheduled and whatever the stream completes.
pub Run-timed_out :
    {s u : System}
    → Run start s
    → s.writer.timeout_reached ≡ true
    → Run s u
    → (writes u.trace ≡ writes s.trace)
      × (u.accepted ≡ s.accepted)
      × (timeouts u.trace ≡ timeouts s.trace)
Run-timed_out {s} {u} r t later =
    let inv = Run-Inv start-Inv r in
    let closed = Run-Closed inv t later in
    let counted = (Run-Inv inv later).reported in
    (closed.1, closed.2, rw (counted, closed.0, inv.reported, t))
