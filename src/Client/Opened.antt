-- ===== src/Client/Opened.antt =====
-- Which sessions a `Client` (src/client.cpp) gives to its callback: one for each upgrade that succeeds
-- while the client is there and whose endpoint it gets, on the stream of that upgrade.
use lib_native_streaming.Common.{
  ℕ, zero, suc, ◌≡◌, refl, ap, subst, Bool, true, false, Option, none, some, List, [], ◌∷◌, ◌++◌,
  pick,
}
use lib_native_streaming.Common.Errors.{ErrorCode, success, operation_aborted, failure}
use lib_native_streaming.Common.Connections.{Endpoint, SessionArguments, client}
use lib_native_streaming.Client.{
  Client, Effect, call_new_session, connect, on_connection_timeout, on_resolve, on_connect,
  on_upgrade_connection, destroy,
}
use lib_native_streaming.Client.System.{
  Pending, resolving, connecting, handshaking, System, Event, begin, timer, resolved, connected,
  upgraded, destroyed, step, after, timer_step, resolved_step, connected_step, upgraded_step,
  begin_step, destroyed_step,
}

abbrev pub given : List Effect → List SessionArguments
given [] = []
given (call_new_session a ∷ es) = a ∷ given es
given (_ ∷ es) = given es

given-append : (xs ys : List Effect) → given (xs ++ ys) ≡ given xs ++ given ys
given-append [] ys = refl
given-append (call_new_session a ∷ xs) ys = ap (◌∷◌ a) (given-append xs ys)
given-append (_ ∷ xs) ys = given-append xs ys

-- What the completion of the upgrade of a stream gives.
abbrev pub given_at : Bool → Endpoint → Option (Pending × List Pending) → List SessionArguments
given_at true e (some (handshaking st, rest)) =
    record { stream = st; user_context = none; role = client; endpoint = e } ∷ []
given_at alive e _ = []

abbrev pub given_by : Event → System → List SessionArguments
given_by (upgraded i success (some e)) s = given_at s.alive e (pick i s.pending)
given_by _ s = []

abbrev Gives : System → List SessionArguments → Option System → Type 0
Gives s new none = Unit {0}
Gives s new (some u) = given u.trace ≡ given s.trace ++ new

gives :
    (s b : System) (es : List Effect) (c : Client) (new : List SessionArguments)
    → b.trace ≡ s.trace
    → given es ≡ new
    → given (after b es c).trace ≡ given s.trace ++ new
gives s b es c new t e = rw (t, given-append s.trace es, e) refl

begin-Gives : (s : System) (t : ℕ) (a : Bool) → Gives s [] (begin_step s t a)
unfolding connect
begin-Gives s t true = gives s s _ s.client [] refl refl
begin-Gives s t false = tt

destroyed-Gives : (s : System) (a : Bool) → Gives s [] (destroyed_step s a)
unfolding destroy
destroyed-Gives s true = gives s s _ s.client [] refl refl
destroyed-Gives s false = tt

timer-Gives :
    (s : System) (ec : ErrorCode) (a : Bool) (n : ℕ) (w : Option ℕ)
    → s.client.websocket_stream ≡ w
    → Gives s [] (timer_step s ec a n)
unfolding on_connection_timeout
timer-Gives s ec a zero w e = tt
timer-Gives s ec false (suc n) w e = gives s s _ s.client [] refl refl
timer-Gives s success true (suc n) none e = rw e (gives s s _ s.client [] refl refl)
timer-Gives s success true (suc n) (some st) e = rw e (gives s s _ s.client [] refl refl)
timer-Gives s _ true (suc n) w e = gives s s _ s.client [] refl refl

resolved-Gives :
    (s : System) (ec : ErrorCode) (a : Bool) (p : Option (Pending × List Pending))
    → Gives s [] (resolved_step s ec a p)
unfolding on_resolve
resolved-Gives s ec a none = tt
resolved-Gives s ec false (some (resolving, rest)) = gives s s _ s.client [] refl refl
resolved-Gives s success true (some (resolving, rest)) = gives s s _ s.client [] refl refl
resolved-Gives s operation_aborted true (some (resolving, rest)) = gives s s _ s.client [] refl refl
resolved-Gives s (failure n) true (some (resolving, rest)) = gives s s _ s.client [] refl refl
resolved-Gives s ec a (some (connecting st, rest)) = tt
resolved-Gives s ec a (some (handshaking st, rest)) = tt

connected-Gives :
    (s : System) (ec : ErrorCode) (a : Bool) (p : Option (Pending × List Pending))
    → Gives s [] (connected_step s ec a p)
unfolding on_connect
connected-Gives s ec a none = tt
connected-Gives s ec false (some (connecting st, rest)) = gives s s _ s.client [] refl refl
connected-Gives s success true (some (connecting st, rest)) = gives s s _ s.client [] refl refl
connected-Gives s operation_aborted true (some (connecting st, rest)) =
    gives s s _ s.client [] refl refl
connected-Gives s (failure n) true (some (connecting st, rest)) = gives s s _ s.client [] refl refl
connected-Gives s ec a (some (resolving, rest)) = tt
connected-Gives s ec a (some (handshaking st, rest)) = tt

opened-Gives :
    (s : System) (e : Endpoint) (a : Bool) (p : Option (Pending × List Pending))
    → Gives s (given_at a e p) (upgraded_step s success (some e) a p)
unfolding on_upgrade_connection
opened-Gives s e a none = tt
opened-Gives s e false (some (handshaking st, rest)) = gives s s _ s.client [] refl refl
opened-Gives s e true (some (handshaking st, rest)) = gives s s _ s.client _ refl refl
opened-Gives s e a (some (resolving, rest)) = tt
opened-Gives s e a (some (connecting st, rest)) = tt

-- An upgrade that fails, or whose endpoint cannot be got, gives none.
lost-Gives :
    (s : System) (a : Bool) (p : Option (Pending × List Pending))
    → Gives s [] (upgraded_step s success none a p)
unfolding on_upgrade_connection
lost-Gives s a none = tt
lost-Gives s false (some (handshaking st, rest)) = gives s s _ s.client [] refl refl
lost-Gives s true (some (handshaking st, rest)) = gives s s _ s.client [] refl refl
lost-Gives s a (some (resolving, rest)) = tt
lost-Gives s a (some (connecting st, rest)) = tt

aborted-Gives :
    (s : System) (e : Option Endpoint) (a : Bool) (p : Option (Pending × List Pending))
    → Gives s [] (upgraded_step s operation_aborted e a p)
unfolding on_upgrade_connection
aborted-Gives s e a none = tt
aborted-Gives s e false (some (handshaking st, rest)) = gives s s _ s.client [] refl refl
aborted-Gives s e true (some (handshaking st, rest)) = gives s s _ s.client [] refl refl
aborted-Gives s e a (some (resolving, rest)) = tt
aborted-Gives s e a (some (connecting st, rest)) = tt

failed-Gives :
    (s : System) (n : ℕ) (e : Option Endpoint) (a : Bool) (p : Option (Pending × List Pending))
    → Gives s [] (upgraded_step s (failure n) e a p)
unfolding on_upgrade_connection
failed-Gives s n e a none = tt
failed-Gives s n e false (some (handshaking st, rest)) = gives s s _ s.client [] refl refl
failed-Gives s n e true (some (handshaking st, rest)) = gives s s _ s.client [] refl refl
failed-Gives s n e a (some (resolving, rest)) = tt
failed-Gives s n e a (some (connecting st, rest)) = tt

step-Gives : (s : System) (e : Event) → Gives s (given_by e s) (step s e)
unfolding step
step-Gives s (begin t) = begin-Gives s t s.alive
step-Gives s (timer ec) = timer-Gives s ec s.alive s.waits s.client.websocket_stream refl
step-Gives s (resolved i ec) = resolved-Gives s ec s.alive (pick i s.pending)
step-Gives s (connected i ec) = connected-Gives s ec s.alive (pick i s.pending)
step-Gives s (upgraded i success (some e)) = opened-Gives s e s.alive (pick i s.pending)
step-Gives s (upgraded i success none) = lost-Gives s s.alive (pick i s.pending)
step-Gives s (upgraded i operation_aborted e) = aborted-Gives s e s.alive (pick i s.pending)
step-Gives s (upgraded i (failure n) e) = failed-Gives s n e s.alive (pick i s.pending)
step-Gives s destroyed = destroyed-Gives s s.alive

pub step-given :
    (s u : System) (e : Event) → step s e ≡ some u → given u.trace ≡ given s.trace ++ given_by e s
step-given s u e eq = subst (Gives s (given_by e s)) eq (step-Gives s e)
