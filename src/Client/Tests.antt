-- ===== src/Client/Tests.antt =====
-- Clients that connect, and what the theorems say of them.
use lib_native_streaming.Common.{
  ◌+◌, ◌≡◌, suc, length, true, false, arith, refl, Option, none, some, List, [], ◌∷◌,
}
use lib_native_streaming.Common.Bytes.{codes}
use lib_native_streaming.Common.Errors.{success, operation_aborted, failure}
use lib_native_streaming.Common.Connections.{Endpoint}
use lib_native_streaming.Authentication.{basic_authentication}
use lib_native_streaming.Client.{Client, new_client}
use lib_native_streaming.Client.System.{
  System, Event, begin, timer, resolved, connected, upgraded, destroyed, resolving, handshaking,
  arm, step, run, start, Run, here, next, outcomes, cancels,
}
use lib_native_streaming.Client.Outcomes.{Run-outcomes, Run-cancels}
use lib_native_streaming.Client.Steps.{gone}
use lib_native_streaming.Client.Destroyed.{Run-destroyed}
use lib_native_streaming.Client.Overlap.{callback_disarms}
use lib_native_streaming.Client.Timeout.{timeout_missed}

abbrev peer : Endpoint
peer = record { address = codes "::1"; port = 7420 }

abbrev a_client : Client
unfolding new_client
a_client =
    new_client (codes "host") (codes "7420") (codes "/")
      (basic_authentication (codes "u") (codes "p"))

-- The second attempt fails to resolve.
abbrev history : List Event
history =
    begin 1000
    ∷ resolved 0 success
    ∷ connected 0 success
    ∷ upgraded 0 success (some peer)
    ∷ begin 1000
    ∷ resolved 0 (failure 1)
    ∷ []

abbrev of : Option System → System
of none = start a_client
of (some s) = s

abbrev at : List Event → System
unfolding run start
at es = of (run (start a_client) es)

abbrev e1 : List Event
e1 = begin 1000 ∷ []

abbrev e2 : List Event
e2 = begin 1000 ∷ resolved 0 success ∷ []

abbrev e3 : List Event
e3 = begin 1000 ∷ resolved 0 success ∷ connected 0 success ∷ []

abbrev e4 : List Event
e4 = begin 1000 ∷ resolved 0 success ∷ connected 0 success ∷ upgraded 0 success (some peer) ∷ []

abbrev e5 : List Event
e5 =
    begin 1000
    ∷ resolved 0 success
    ∷ connected 0 success
    ∷ upgraded 0 success (some peer)
    ∷ begin 1000
    ∷ []

history-Run : Run (start a_client) (at history)
unfolding step start at
history-Run =
    next (resolved 0 (failure 1))
      (next {t = at e4} (begin 1000)
        (next {t = at e3} (upgraded 0 success (some peer))
          (next {t = at e2} (connected 0 success)
            (next {t = at e1} (resolved 0 success)
              (next {t = start a_client} (begin 1000) here refl) refl)
            refl)
          refl)
        refl)
      refl

Run-outcomes_example :
    outcomes (at history).trace
      + (at history).silent
      + (at history).dropped
      + length (at history).pending
    ≡ (at history).attempts
Run-outcomes_example = Run-outcomes a_client history-Run

history_ends : ((at history).attempts ≡ 2) × (outcomes (at history).trace ≡ 2)
unfolding at
history_ends = (refl, refl)

Run-cancels_example :
    cancels (at history).trace
    ≡ (at history).attempts
      + outcomes (at history).trace
      + (at history).silent
      + gone (at history).alive
Run-cancels_example = Run-cancels a_client history-Run

timeout_missed_example :
    (u : System) × (run (at e1) (timer success ∷ resolved 0 success ∷ connected 0 success ∷ [])
      ≡ some u)
    × (u.pending ≡ handshaking 0 ∷ [])
    × (u.waits ≡ 0)
    × (outcomes u.trace ≡ 0)
unfolding at a_client
timeout_missed_example = timeout_missed (at e1) refl refl refl

-- The client is destroyed while it connects; the connect and the wait for the timer are then aborted.
abbrev left : System
unfolding at
left = at (begin 1000 ∷ resolved 0 success ∷ destroyed ∷ [])

abbrev left_later : System
unfolding at
left_later = at (
    begin 1000
    ∷ resolved 0 success
    ∷ destroyed
    ∷ connected 0 operation_aborted
    ∷ timer operation_aborted
    ∷ [])

left-Run : Run left left_later
unfolding step start at
left-Run =
    next {t = at (begin 1000 ∷ resolved 0 success ∷ destroyed ∷ connected 0 operation_aborted ∷ [])}
      (timer operation_aborted) (next {t = left} (connected 0 operation_aborted) here refl) refl

Run-destroyed_example :
    (left_later.alive ≡ false)
    × (left_later.client ≡ left.client)
    × (left_later.trace ≡ left.trace)
    × (left_later.attempts ≡ left.attempts)
unfolding left left_later
Run-destroyed_example = Run-destroyed refl left-Run

left_dropped : (left.dropped ≡ 0) × (left_later.dropped ≡ 1)
unfolding left left_later
left_dropped = (refl, refl)

-- Two attempts overlap, and the first fails to resolve: the second is left without a timeout.
abbrev two : System
unfolding at
two = at (begin 1000 ∷ begin 1000 ∷ [])

abbrev second : System
unfolding at
second = at (begin 1000 ∷ begin 1000 ∷ resolved 0 (failure 1) ∷ [])

callback_disarms_example :
    (arm false second.trace ≡ false) × (length two.pending ≡ suc (length second.pending))
unfolding step start at
callback_disarms_example = callback_disarms two second (resolved 0 (failure 1)) refl (omega arith)

second_pending : (second.pending ≡ resolving ∷ []) × (arm false two.trace ≡ true)
unfolding two second
second_pending = (refl, refl)
