-- ===== src/Client/System.antt =====
-- A `Client` (src/client.cpp) among the events that reach it: `connect` is called, also while an
-- attempt is in progress, the timer's wait ends, an asynchronous operation completes, the client is
-- destroyed. An operation may succeed although it was cancelled, if its completion was queued before,
-- and so may the timer; `none` is that the event cannot happen.
use lib_native_streaming.Common.{
  ℕ, zero, suc, ◌+◌, ◌≡◌, Bool, true, false, Option, none, some, List, [], ◌∷◌, ◌++◌, pick,
}
use lib_native_streaming.Common.Errors.{ErrorCode, success}
use lib_native_streaming.Common.Connections.{Endpoint}
use lib_native_streaming.Client.{
  Client, Effect, cancel_timer, start_timer, async_resolve, async_connect, async_handshake,
  call_new_session, call_resolve_fail, call_connect_fail, call_handshake_fail, connect,
  on_connection_timeout, on_resolve, on_connect, on_upgrade_connection, if_alive, destroy,
}

-- An operation that has not completed: one for each attempt in progress.
pub data Pending : Type 0 where
  resolving : Pending
  connecting handshaking : ℕ → Pending

-- `waits` counts the waits for the timer that have not ended, `attempts` the calls of `connect`,
-- `silent` the attempts that ended because the remote endpoint could not be got, `dropped` those that
-- ended after the client was destroyed.
pub record System : Type 0 where
  pub client : Client
  pub alive : Bool
  pub pending : List Pending
  pub waits : ℕ
  pub attempts : ℕ
  pub silent : ℕ
  pub dropped : ℕ
  pub trace : List Effect

-- The number says which of the pending operations completes.
pub data Event : Type 0 where
  begin : ℕ → Event
  timer : ErrorCode → Event
  resolved connected : ℕ → ErrorCode → Event
  upgraded : ℕ → ErrorCode → Option Endpoint → Event
  destroyed : Event

-- What effects start, and what they do to the timer.
abbrev pub launched : List Effect → List Pending
launched [] = []
launched (async_resolve host port ∷ es) = resolving ∷ launched es
launched (async_connect s ∷ es) = connecting s ∷ launched es
launched (async_handshake s host path ∷ es) = handshaking s ∷ launched es
launched (_ ∷ es) = launched es

abbrev pub started : List Effect → ℕ
started [] = 0
started (start_timer t ∷ es) = 1 + started es
started (_ ∷ es) = started es

abbrev pub after : System → List Effect → Client → System
after s es c = record s {
  client = c;
  pending = s.pending ++ launched es;
  waits = s.waits + started es;
  trace = s.trace ++ es;
}

abbrev settle : System → Option (Unit {0} × Client × List Effect) → Option System
settle s none = none
settle s (some (tt, c, es)) = some (after s es c)

-- The system without an operation that has completed.
abbrev pub less : System → Bool → List Pending → ℕ → System
less s true rest k = record s { pending = rest; silent = s.silent + k }
less s false rest k = record s { pending = rest; dropped = s.dropped + 1 }

-- In these steps the flag is whether the client is there.
abbrev pub timer_step : System → ErrorCode → Bool → ℕ → Option System
timer_step s ec alive zero = none
timer_step s ec alive (suc waits) =
    settle (record s { waits = waits }) (if_alive alive (on_connection_timeout ec) s.client)

abbrev pub resolved_step :
    System → ErrorCode → Bool → Option (Pending × List Pending) → Option System
resolved_step s ec alive (some (resolving, rest)) =
    settle (less s alive rest 0) (if_alive alive (on_resolve ec) s.client)
resolved_step s ec alive _ = none

abbrev pub connected_step :
    System → ErrorCode → Bool → Option (Pending × List Pending) → Option System
connected_step s ec alive (some (connecting st, rest)) =
    settle (less s alive rest 0) (if_alive alive (on_connect ec st) s.client)
connected_step s ec alive _ = none

-- Whether an upgrade succeeded and its endpoint could not be got.
abbrev pub lost : ErrorCode → Option Endpoint → ℕ
lost success none = 1
lost _ _ = 0

abbrev pub upgraded_step :
    System → ErrorCode → Option Endpoint → Bool → Option (Pending × List Pending) → Option System
upgraded_step s ec e alive (some (handshaking st, rest)) =
    settle (less s alive rest (lost ec e)) (if_alive alive (on_upgrade_connection ec st e) s.client)
upgraded_step s ec e alive _ = none

-- `connect` and the destructor are called on a client that is there.
abbrev pub begin_step : System → ℕ → Bool → Option System
begin_step s t true = settle (record s { attempts = s.attempts + 1 }) (connect t s.client)
begin_step s t false = none

abbrev pub destroyed_step : System → Bool → Option System
destroyed_step s true = settle (record s { alive = false }) (destroy s.client)
destroyed_step s false = none

unfoldable pub step : System → Event → Option System
unfolding connect on_connection_timeout on_resolve on_connect on_upgrade_connection destroy
step s (begin t) = begin_step s t s.alive
step s (timer ec) = timer_step s ec s.alive s.waits
step s (resolved i ec) = resolved_step s ec s.alive (pick i s.pending)
step s (connected i ec) = connected_step s ec s.alive (pick i s.pending)
step s (upgraded i ec e) = upgraded_step s ec e s.alive (pick i s.pending)
step s destroyed = destroyed_step s s.alive

unfoldable pub start : Client → System
start c = record {
  client = c;
  alive = true;
  pending = [];
  waits = 0;
  attempts = 0;
  silent = 0;
  dropped = 0;
  trace = [];
}

pub data Run (s : System) : System → Type 0 where
  here : Run s s
  next : {t u : System} (e : Event) → Run s t → step t e ≡ some u → Run s u

unfoldable pub run : System → List Event → Option System
unfolding step
run s [] = some s
run s (e ∷ es) = elim (step s e) [ none ↦ none | some u ↦ run u es ]

-- What a trace says: the callbacks by which an attempt ends, and the cancellations of the timer.
abbrev pub outcomes : List Effect → ℕ
outcomes [] = 0
outcomes (call_new_session a ∷ es) = 1 + outcomes es
outcomes (call_resolve_fail ec ∷ es) = 1 + outcomes es
outcomes (call_connect_fail ec ∷ es) = 1 + outcomes es
outcomes (call_handshake_fail ec ∷ es) = 1 + outcomes es
outcomes (_ ∷ es) = outcomes es

abbrev pub cancels : List Effect → ℕ
cancels [] = 0
cancels (cancel_timer ∷ es) = 1 + cancels es
cancels (_ ∷ es) = cancels es

-- Whether the latest that is asked of the timer is a wait, so that it can still expire.
abbrev pub arm : Bool → List Effect → Bool
arm b [] = b
arm b (start_timer t ∷ es) = arm true es
arm b (cancel_timer ∷ es) = arm false es
arm b (_ ∷ es) = arm b es
