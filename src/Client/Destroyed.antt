-- ===== src/Client/Destroyed.antt =====
-- The lambdas of a `Client` (src/client.cpp) that run after the client was destroyed: they hold a weak
-- pointer to it, which then locks nothing.
use lib_native_streaming.Common.{
  ℕ, zero, suc, ◌≡◌, refl, sym, subst, ◌∙◌, false, Option, none, some, List, [], ◌++◌, append-nil,
  pick,
}
use lib_native_streaming.Common.Errors.{ErrorCode}
use lib_native_streaming.Common.Connections.{Endpoint}
use lib_native_streaming.Client.System.{
  Pending, resolving, connecting, handshaking, System, Event, begin, timer, resolved, connected,
  upgraded, destroyed, step, Run, here, next, timer_step, resolved_step, connected_step,
  upgraded_step, begin_step, destroyed_step,
}

abbrev Still : System → System → Type 0
Still s u =
    (u.alive ≡ s.alive) × (u.client ≡ s.client) × (u.trace ≡ s.trace) × (u.attempts ≡ s.attempts)

abbrev Quiet : System → Option System → Type 0
Quiet s none = Unit {0}
Quiet s (some u) = Still s u

quiet : (s : System) → Still s (record s { trace = s.trace ++ [] })
quiet s = (refl, refl, append-nil s.trace, refl)

timer-Quiet : (s : System) (ec : ErrorCode) (n : ℕ) → Quiet s (timer_step s ec false n)
timer-Quiet s ec zero = tt
timer-Quiet s ec (suc n) = quiet s

resolved-Quiet :
    (s : System) (ec : ErrorCode) (o : Option (Pending × List Pending))
    → Quiet s (resolved_step s ec false o)
resolved-Quiet s ec (some (resolving, rest)) = quiet s
resolved-Quiet s ec _ = tt

connected-Quiet :
    (s : System) (ec : ErrorCode) (o : Option (Pending × List Pending))
    → Quiet s (connected_step s ec false o)
connected-Quiet s ec (some (connecting st, rest)) = quiet s
connected-Quiet s ec _ = tt

upgraded-Quiet :
    (s : System) (ec : ErrorCode) (ep : Option Endpoint) (o : Option (Pending × List Pending))
    → Quiet s (upgraded_step s ec ep false o)
upgraded-Quiet s ec ep (some (handshaking st, rest)) = quiet s
upgraded-Quiet s ec ep _ = tt

step-Quiet : (s : System) (e : Event) → s.alive ≡ false → Quiet s (step s e)
unfolding step
step-Quiet s (begin t) d = subst (λ a. Quiet s (begin_step s t a)) (sym d) tt
step-Quiet s (timer ec) d =
    subst (λ a. Quiet s (timer_step s ec a s.waits)) (sym d) (timer-Quiet s ec s.waits)
step-Quiet s (resolved i ec) d =
    subst (λ a. Quiet s (resolved_step s ec a (pick i s.pending))) (sym d)
      (resolved-Quiet s ec (pick i s.pending))
step-Quiet s (connected i ec) d =
    subst (λ a. Quiet s (connected_step s ec a (pick i s.pending))) (sym d)
      (connected-Quiet s ec (pick i s.pending))
step-Quiet s (upgraded i ec ep) d =
    subst (λ a. Quiet s (upgraded_step s ec ep a (pick i s.pending))) (sym d)
      (upgraded-Quiet s ec ep (pick i s.pending))
step-Quiet s destroyed d = subst (λ a. Quiet s (destroyed_step s a)) (sym d) tt

-- Once a client has been destroyed, whatever completes or expires later calls no callback, asks
-- nothing of the resolver, the timer or a stream, logs nothing and changes nothing in the client, and
-- no attempt begins: the effects, the client and the count of attempts stay what they were.
pub Run-destroyed :
    {s u : System}
    → s.alive ≡ false
    → Run s u
    → (u.alive ≡ false) × (u.client ≡ s.client) × (u.trace ≡ s.trace) × (u.attempts ≡ s.attempts)
Run-destroyed d here = (d, refl, refl, refl)
Run-destroyed d (next {t} {u} e r eq) =
    let (a, c, tr, n) = Run-destroyed d r in
    let (a', c', tr', n') = subst (Quiet t) eq (step-Quiet t e a) in
    (a' ∙ a, c' ∙ c, tr' ∙ tr, n' ∙ n)
