-- ===== src/Client/Overlap.antt =====
-- The one connection timer of a `Client` (src/client.cpp) where attempts overlap.
use lib_native_streaming.Common.{suc, ◌<◌, ◌≡◌, subst, ◌∙◌, inl, inr, false, some, length, arith}
use lib_native_streaming.Client.System.{System, Event, step, outcomes, arm}
use lib_native_streaming.Client.Steps.{outcomes-append, arm-append, Change, Changes, step-Changes}

Change-ends :
    (s u : System)
    → Change s u
    → outcomes s.trace < outcomes u.trace
    → (arm false u.trace ≡ false) × (length s.pending ≡ suc (length u.pending))
Change-ends s u c h =
    let m = subst (λ tr. outcomes s.trace < outcomes tr) c.grown h in
    elim c.ending [
      | inl z ↦ absurd (omega (arith, outcomes-append s.trace c.effects, z, m))
      | inr (k, n) ↦ (rw c.grown (arm-append false s.trace c.effects ∙ k (arm false s.trace)), n)
    ]

-- The attempts of a client share one timer. Whenever an event calls a callback, one attempt ends and
-- the others stay pending; the latest that is asked of the timer is then a cancellation, so that no
-- timeout is left for the others, whichever attempt armed it.
pub callback_disarms :
    (s u : System) (e : Event)
    → step s e ≡ some u
    → outcomes s.trace < outcomes u.trace
    → (arm false u.trace ≡ false) × (length s.pending ≡ suc (length u.pending))
callback_disarms s u e eq = Change-ends s u (subst (Changes s) eq (step-Changes s e))
