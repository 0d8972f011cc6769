-- ===== src/Writer/Intake.antt =====
-- Which batches `AsyncWriter` (src/async_writer.cpp) takes: `queueBatchWrite` adds its batch to the
-- accepted ones, or drops it where a deadline was missed; no other event accepts one.
use lib_native_streaming.Common.{
  ◌≡◌, refl, subst, ◌⊎◌, inl, inr, true, some, false, [], ◌∷◌, ◌++◌, append-nil,
}
use lib_native_streaming.Writer.System.{
  System, Event, schedule, queue, complete, deadline, set_error, set_alive, set_timed_out, step,
  Enabled, start, Run, timeouts,
}
use lib_native_streaming.Writer.Invariant.{start-Inv}
use lib_native_streaming.Writer.Invariant.Accepted.{accepted_system}
use lib_native_streaming.Writer.Invariant.Completed.{completed_system}
use lib_native_streaming.Writer.Invariant.Quiet.{quiet_system, Quiet, Refused}
use lib_native_streaming.Writer.Invariant.Steps.{
  Outcome, quiet, accepted, completed, step-Outcome, Run-Inv,
}
use lib_native_streaming.Writer.Timeout.{count_true}

-- What the batch of an event came to: a missed deadline is what drops one.
abbrev pub Accepts : Event → System → System → Type 0
Accepts (queue tasks d now) s u =
    ((u.accepted ≡ s.accepted ++ tasks ∷ []) × (s.writer.timeout_reached ≡ false))
    ⊎ ((u.accepted ≡ s.accepted) × (u.writer.timeout_reached ≡ true))
Accepts _ s u = u.accepted ≡ s.accepted

-- A missed deadline is not forgotten.
abbrev pub Takes : Event → System → System → Type 0
Takes e s u = Accepts e s u × (s.writer.timeout_reached ≡ true → u.writer.timeout_reached ≡ true)

dropped-Accepts :
    (e : Event) (s u : System) → u.accepted ≡ s.accepted → Refused e u.writer → Accepts e s u
dropped-Accepts (queue tasks d now) s u same late = inr (same, late)
dropped-Accepts (schedule tasks d) s u same late = same
dropped-Accepts (complete ec) s u same late = same
dropped-Accepts (deadline ec locked) s u same late = same
dropped-Accepts (set_error cb) s u same late = same
dropped-Accepts (set_alive cb) s u same late = same
dropped-Accepts (set_timed_out cb) s u same late = same

quiet-Takes :
    (s : System) (e : Event) (h : Quiet s e) → Takes e s (quiet_system s h.writer h.effects)
unfolding quiet_system
quiet-Takes s e h = (
  dropped-Accepts e s (quiet_system s h.writer h.effects) (append-nil s.accepted) h.refused,
  count_true (timeouts h.effects) s.writer.timeout_reached h.writer.timeout_reached h.count,
)

Outcome-Takes : (s u : System) {e : Event} → Outcome s e → step s e ≡ some u → Takes e s u
unfolding accepted_system completed_system
Outcome-Takes s u {e} (quiet h) eq =
    let same : quiet_system s h.writer h.effects ≡ u = cc (h.result) in
    subst (Takes e s) same (quiet-Takes s e h)
Outcome-Takes s u {e} (accepted tasks d now f r) eq =
    let same : accepted_system s tasks d s.writer.write_tasks_queue ≡ u = cc in
    subst (Takes e s) same (inl (refl, f), λ h. h)
Outcome-Takes s u {e} (completed ec bs b q f g r) eq =
    let same : completed_system s ec b q ≡ u = cc in
    subst (Takes e s) same (append-nil s.accepted, λ h. h)

pub step-Takes :
    {s u : System} (e : Event) → Run start s → Enabled s e → step s e ≡ some u → Takes e s u
step-Takes {s} {u} e r ok eq = Outcome-Takes s u (step-Outcome s e (Run-Inv start-Inv r).fits ok) eq
