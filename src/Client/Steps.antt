-- ===== src/Client/Steps.antt =====
-- What each event does to a `Client` (src/client.cpp) and its pending operations, in counts.
use lib_native_streaming.Common.{
  ℕ, zero, suc, ◌+◌, ◌≡◌, refl, ap, ◌⊎◌, inl, inr, Bool, true, false, Option, none, some, List, [],
  ◌∷◌, ◌++◌, length, length-append, arith, pick,
}
use lib_native_streaming.Common.Errors.{ErrorCode, success, operation_aborted, failure, err, info}
use lib_native_streaming.Client.{
  Client, Effect, call_new_session, call_resolve_fail, call_connect_fail, call_handshake_fail,
  cancel_timer, start_timer, async_resolve, cancel_resolver, cancel_stream, write_buffer_bytes,
  read_message_max, max_message, async_connect, set_decorator, async_handshake, log, connect,
  on_connection_timeout, on_resolve, on_connect, on_upgrade_connection, destroy,
}
use lib_native_streaming.Common.Connections.{Endpoint, client}
use lib_native_streaming.Client.System.{
  Pending, resolving, connecting, handshaking, System, Event, begin, timer, resolved, connected,
  upgraded, destroyed, step, outcomes, cancels, arm, launched, after, less, lost, timer_step,
  resolved_step, connected_step, upgraded_step, begin_step, destroyed_step,
}

pub outcomes-append : (xs ys : List Effect) → outcomes (xs ++ ys) ≡ outcomes xs + outcomes ys
outcomes-append [] ys = omega arith
outcomes-append (call_new_session a ∷ xs) ys = omega (arith, outcomes-append xs ys)
outcomes-append (call_resolve_fail a ∷ xs) ys = omega (arith, outcomes-append xs ys)
outcomes-append (call_connect_fail a ∷ xs) ys = omega (arith, outcomes-append xs ys)
outcomes-append (call_handshake_fail a ∷ xs) ys = omega (arith, outcomes-append xs ys)
outcomes-append (_ ∷ xs) ys = omega (arith, outcomes-append xs ys)

pub cancels-append : (xs ys : List Effect) → cancels (xs ++ ys) ≡ cancels xs + cancels ys
cancels-append [] ys = omega arith
cancels-append (cancel_timer ∷ xs) ys = omega (arith, cancels-append xs ys)
cancels-append (_ ∷ xs) ys = omega (arith, cancels-append xs ys)

-- Whether the client has been destroyed.
abbrev pub gone : Bool → ℕ
gone true = 0
gone false = 1

pub arm-append : (b : Bool) (xs ys : List Effect) → arm b (xs ++ ys) ≡ arm (arm b xs) ys
arm-append b [] ys = refl
arm-append b (cancel_timer ∷ xs) ys = arm-append false xs ys
arm-append b (start_timer t ∷ xs) ys = arm-append true xs ys
arm-append b (_ ∷ xs) ys = arm-append b xs ys

-- A pending operation that completes is one of them.
abbrev Leaves : List Pending → Option (Pending × List Pending) → Type 0
Leaves ps none = Unit {0}
Leaves ps (some (p, rest)) = length ps ≡ suc (length rest)

pick-Leaves : (i : ℕ) (ps : List Pending) → Leaves ps (pick i ps)
pick-Leaves i [] = tt
pick-Leaves zero (p ∷ ps) = refl
pick-Leaves (suc i) (p ∷ ps) = later (pick i ps) (pick-Leaves i ps)
  where
    later :
        (o : Option (Pending × List Pending))
        → Leaves ps o
        → Leaves (p ∷ ps) (elim o [ none ↦ none | some (q, qs) ↦ some (q, p ∷ qs) ])
    later none l = tt
    later (some (q, qs)) l = omega (arith, l)

-- Callbacks called, attempts ended and begun, and cancellations balance. An event that calls a callback
-- ends one attempt, starts nothing, and has the timer cancelled last.
pub record Change (s u : System) : Type 0 where
  pub effects : List Effect
  pub grown : u.trace ≡ s.trace ++ effects
  pub ended :
      outcomes effects + u.silent + u.dropped + length u.pending + s.attempts
      ≡ s.silent + s.dropped + length s.pending + u.attempts
  pub cancelled :
      cancels effects + s.attempts + s.silent + gone s.alive
      ≡ u.attempts + outcomes effects + u.silent + gone u.alive
  pub ending :
      (outcomes effects ≡ 0)
      ⊎ (((a : Bool) → arm a effects ≡ false) × (length s.pending ≡ suc (length u.pending)))

abbrev pub Changes : System → Option System → Type 0
Changes s none = Unit {0}
Changes s (some u) = Change s u

change :
    (s b : System) (es : List Effect) (c : Client)
    → b.trace ≡ s.trace
    → outcomes es + b.silent + b.dropped + (length b.pending + length (launched es)) + s.attempts
      ≡ s.silent + s.dropped + length s.pending + b.attempts
    → cancels es + s.attempts + s.silent + gone s.alive
      ≡ b.attempts + outcomes es + b.silent + gone b.alive
    → (outcomes es ≡ 0)
      ⊎ (((a : Bool) → arm a es ≡ false)
          × (length (launched es) ≡ 0)
          × (length s.pending ≡ suc (length b.pending)))
    → Change s (after b es c)
change s b es c t o d e = record {
  effects = es;
  grown = ap (λ tr. tr ++ es) t;
  ended = omega (arith, length-append b.pending (launched es), o);
  cancelled = d;
  ending = elim e [
    | inl z ↦ inl z
    | inr (k, n, l) ↦ inr (k, omega (arith, n, l, length-append b.pending (launched es)))
  ];
}

begin-Changes : (s : System) (t : ℕ) (a : Bool) → Changes s (begin_step s t a)
unfolding connect
begin-Changes s t true =
    change s (record s { attempts = s.attempts + 1 })
      (log info ∷ cancel_timer ∷ start_timer t ∷ async_resolve s.client.host s.client.port ∷ [])
      s.client refl (omega arith) (omega arith) (inl refl)
begin-Changes s _ false = tt

destroyed-Changes : (s : System) (a : Bool) → s.alive ≡ a → Changes s (destroyed_step s a)
unfolding destroy
destroyed-Changes s true e =
    change s (record s { alive = false }) (cancel_timer ∷ log info ∷ []) s.client refl (omega arith)
      (rw e (omega arith)) (inl refl)
destroyed-Changes s false e = tt

-- What an expired timer cancels.
abbrev pub cancelled_by_timeout : Option ℕ → List Effect
cancelled_by_timeout none = cancel_resolver ∷ []
cancelled_by_timeout (some st) = cancel_resolver ∷ cancel_stream st ∷ []

abbrev timeout_result : ErrorCode → Option ℕ → Client → Option (Unit {0} × Client × List Effect)
timeout_result success f c = some (tt, record c { websocket_stream = none }, cancelled_by_timeout f)
timeout_result _ f c = some (tt, c, [])

on_connection_timeout_lem :
    (ec : ErrorCode) (f : Option ℕ) (c : Client)
    → c.websocket_stream ≡ f
    → on_connection_timeout ec c ≡ timeout_result ec f c
unfolding on_connection_timeout
on_connection_timeout_lem success none c e = ground (arith, e)
on_connection_timeout_lem success (some st) c e = ground (arith, e)
on_connection_timeout_lem _ f c e = refl

timer-Changes :
    (s : System) (ec : ErrorCode) (a : Bool) (n : ℕ) (f : Option ℕ)
    → s.client.websocket_stream ≡ f
    → Changes s (timer_step s ec a n)
timer-Changes s ec a zero f g = tt
timer-Changes s ec false (suc n) f g =
    change s (record s { waits = n }) [] s.client refl (omega arith) (omega arith) (inl refl)
timer-Changes s success true (suc n) none g =
    rw (on_connection_timeout_lem success none s.client g) (
      change s (record s { waits = n }) (cancelled_by_timeout none) _ refl (omega arith)
        (omega arith) (inl refl))
timer-Changes s success true (suc n) (some st) g =
    rw (on_connection_timeout_lem success (some st) s.client g) (
      change s (record s { waits = n }) (cancelled_by_timeout (some st)) _ refl (omega arith)
        (omega arith) (inl refl))
timer-Changes s operation_aborted true (suc n) f g =
    rw (on_connection_timeout_lem operation_aborted f s.client g)
      (change s (record s { waits = n }) [] s.client refl (omega arith) (omega arith) (inl refl))
timer-Changes s (failure k) true (suc n) f g =
    rw (on_connection_timeout_lem (failure k) f s.client g)
      (change s (record s { waits = n }) [] s.client refl (omega arith) (omega arith) (inl refl))

resolved-Changes :
    (s : System) (ec : ErrorCode) (a : Bool) (o : Option (Pending × List Pending))
    → Leaves s.pending o
    → Changes s (resolved_step s ec a o)
unfolding on_resolve
resolved-Changes s ec false (some (resolving, rest)) l =
    change s (less s false rest 0) [] s.client refl (omega (arith, l)) (omega arith) (inl refl)
resolved-Changes s success true (some (resolving, rest)) l =
    change s (less s true rest 0)
      (write_buffer_bytes s.client.next_stream 65536
        ∷ read_message_max s.client.next_stream max_message
        ∷ async_connect s.client.next_stream
        ∷ [])
      _ refl (omega (arith, l)) (omega arith) (inl refl)
resolved-Changes s operation_aborted true (some (resolving, rest)) l =
    change s (less s true rest 0) (cancel_timer ∷ call_resolve_fail operation_aborted ∷ []) s.client
      refl (omega (arith, l)) (omega arith) (inr (λ _. refl, refl, l))
resolved-Changes s (failure n) true (some (resolving, rest)) l =
    change s (less s true rest 0) (cancel_timer ∷ log err ∷ call_resolve_fail (failure n) ∷ [])
      s.client refl (omega (arith, l)) (omega arith) (inr (λ _. refl, refl, l))
resolved-Changes s _ _ _ l = tt

connected-Changes :
    (s : System) (ec : ErrorCode) (a : Bool) (o : Option (Pending × List Pending))
    → Leaves s.pending o
    → Changes s (connected_step s ec a o)
unfolding on_connect
connected-Changes s ec false (some (connecting st, rest)) l =
    change s (less s false rest 0) [] s.client refl (omega (arith, l)) (omega arith) (inl refl)
connected-Changes s success true (some (connecting st, rest)) l =
    change s (less s true rest 0)
      (set_decorator st s.client.authentication
        ∷ async_handshake st s.client.host s.client.path
        ∷ [])
      s.client refl (omega (arith, l)) (omega arith) (inl refl)
connected-Changes s operation_aborted true (some (connecting st, rest)) l =
    change s (less s true rest 0) (cancel_timer ∷ call_connect_fail operation_aborted ∷ []) s.client
      refl (omega (arith, l)) (omega arith) (inr (λ _. refl, refl, l))
connected-Changes s (failure n) true (some (connecting st, rest)) l =
    change s (less s true rest 0) (cancel_timer ∷ log err ∷ call_connect_fail (failure n) ∷ [])
      s.client refl (omega (arith, l)) (omega arith) (inr (λ _. refl, refl, l))
connected-Changes s _ _ _ l = tt

upgraded-Changes :
    (s : System) (ec : ErrorCode) (ep : Option Endpoint) (a : Bool)
    (o : Option (Pending × List Pending))
    → Leaves s.pending o
    → Changes s (upgraded_step s ec ep a o)
unfolding on_upgrade_connection
upgraded-Changes s ec ep false (some (handshaking st, rest)) l =
    change s (less s false rest (lost ec ep)) [] s.client refl (omega (arith, l)) (omega arith)
      (inl refl)
upgraded-Changes s success none true (some (handshaking st, rest)) l =
    change s (less s true rest 1) (cancel_timer ∷ log err ∷ []) s.client refl (omega (arith, l))
      (omega arith) (inl refl)
upgraded-Changes s success (some ep) true (some (handshaking st, rest)) l =
    change s (less s true rest 0)
      (cancel_timer
        ∷ call_new_session
            (record { stream = st; user_context = none; role = client; endpoint = ep })
        ∷ [])
      _ refl (omega (arith, l)) (omega arith) (inr (λ _. refl, refl, l))
upgraded-Changes s operation_aborted ep true (some (handshaking st, rest)) l =
    change s (less s true rest 0) (cancel_timer ∷ call_connect_fail operation_aborted ∷ []) s.client
      refl (omega (arith, l)) (omega arith) (inr (λ _. refl, refl, l))
upgraded-Changes s (failure n) ep true (some (handshaking st, rest)) l =
    change s (less s true rest 0) (cancel_timer ∷ log err ∷ call_handshake_fail (failure n) ∷ [])
      s.client refl (omega (arith, l)) (omega arith) (inr (λ _. refl, refl, l))
upgraded-Changes s _ _ _ _ l = tt

pub step-Changes : (s : System) (e : Event) → Changes s (step s e)
unfolding step
step-Changes s (begin t) = begin-Changes s t s.alive
step-Changes s (timer ec) = timer-Changes s ec s.alive s.waits s.client.websocket_stream refl
step-Changes s (resolved i ec) =
    resolved-Changes s ec s.alive (pick i s.pending) (pick-Leaves i s.pending)
step-Changes s (connected i ec) =
    connected-Changes s ec s.alive (pick i s.pending) (pick-Leaves i s.pending)
step-Changes s (upgraded i ec ep) =
    upgraded-Changes s ec ep s.alive (pick i s.pending) (pick-Leaves i s.pending)
step-Changes s destroyed = destroyed-Changes s s.alive refl
