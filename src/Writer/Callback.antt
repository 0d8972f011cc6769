-- ===== src/Writer/Callback.antt =====
-- The callbacks of `AsyncWriter` (src/async_writer.cpp): only its setter changes each.
use lib_native_streaming.Common.{◌≡◌, refl, subst, some}
use lib_native_streaming.Writer.System.{System, Event, step, Enabled, start, Run}
use lib_native_streaming.Writer.Invariant.{start-Inv}
use lib_native_streaming.Writer.Invariant.Accepted.{accepted_system}
use lib_native_streaming.Writer.Invariant.Completed.{completed_system}
use lib_native_streaming.Writer.Invariant.Quiet.{quiet_system, Hears}
use lib_native_streaming.Writer.Invariant.Steps.{
  Outcome, quiet, accepted, completed, step-Outcome, Run-Inv,
}

Outcome-Hears :
    (s u : System) {e : Event} → Outcome s e → step s e ≡ some u → Hears e s.writer u.writer
unfolding accepted_system completed_system quiet_system
Outcome-Hears s u {e} (quiet h) eq =
    let same : quiet_system s h.writer h.effects ≡ u = cc (h.result) in
    subst (λ (v : System). Hears e s.writer v.writer) same h.hears
Outcome-Hears s u {e} (accepted tasks d now f r) eq =
    let same : accepted_system s tasks d s.writer.write_tasks_queue ≡ u = cc in
    subst (λ (v : System). Hears e s.writer v.writer) same refl
Outcome-Hears s u {e} (completed ec bs b q f g r) eq =
    let same : completed_system s ec b q ≡ u = cc in
    subst (λ (v : System). Hears e s.writer v.writer) same refl

pub step-Hears :
    {s u : System} (e : Event)
    → Run start s
    → Enabled s e
    → step s e ≡ some u
    → Hears e s.writer u.writer
step-Hears {s} {u} e r ok eq = Outcome-Hears s u (step-Outcome s e (Run-Inv start-Inv r).fits ok) eq
