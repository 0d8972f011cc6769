-- ===== src/Client/Outcomes.antt =====
-- How the attempts of a `Client` (src/client.cpp) end, also where they overlap and where the client is
-- destroyed while they are in progress.
use lib_native_streaming.Common.{◌+◌, ◌≡◌, refl, subst, length, arith}
use lib_native_streaming.Client.{Client}
use lib_native_streaming.Client.System.{System, Run, here, next, start, outcomes, cancels}
use lib_native_streaming.Client.Steps.{
  gone, outcomes-append, cancels-append, Change, Changes, step-Changes,
}

record Inv (s : System) : Type 0 where
  ended : outcomes s.trace + s.silent + s.dropped + length s.pending ≡ s.attempts
  cancelled : cancels s.trace ≡ s.attempts + outcomes s.trace + s.silent + gone s.alive

Change-Inv : (s u : System) → Change s u → Inv s → Inv u
Change-Inv s u c inv = record {
  ended = rw c.grown (omega (arith, outcomes-append s.trace c.effects, inv.ended, c.ended));
  cancelled = rw c.grown (
      omega (
        arith,
        outcomes-append s.trace c.effects,
        cancels-append s.trace c.effects,
        inv.cancelled,
        c.cancelled,
      ));
}

start-Inv : (c : Client) → Inv (start c)
unfolding start
start-Inv c = record { ended = refl; cancelled = refl }

Run-Inv : {s u : System} → Inv s → Run s u → Inv u
Run-Inv inv here = inv
Run-Inv inv (next {t} {u} e r eq) =
    Change-Inv t u (subst (Changes t) eq (step-Changes t e)) (Run-Inv inv r)

-- In any history of a client, also where `connect` is called while attempts are in progress and where
-- the client is destroyed among them, the calls of its four callbacks (new session, failure to
-- resolve, to connect, to shake hands), the attempts that ended because the remote endpoint could not
-- be got, those that ended after the client was destroyed, and those in progress are together as
-- many as the calls of `connect`.
pub Run-outcomes :
    (c : Client) {s : System}
    → Run (start c) s
    → outcomes s.trace + s.silent + s.dropped + length s.pending ≡ s.attempts
Run-outcomes c r = (Run-Inv (start-Inv c) r).ended

-- In any history of a client, also with attempts that overlap, the cancellations of the connection
-- timer are as many as the attempts begun, the attempts that ended while the client was there, however
-- they ended, and the destruction of the client together.
pub Run-cancels :
    (c : Client) {s : System}
    → Run (start c) s
    → cancels s.trace ≡ s.attempts + outcomes s.trace + s.silent + gone s.alive
Run-cancels c r = (Run-Inv (start-Inv c) r).cancelled
