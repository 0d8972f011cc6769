-- ===== src/Writer/Trace.antt =====
-- Reading traces of effects: each reading goes over `++`, and what each kind of step adds to it.
use lib_native_streaming.Common.{
  ℕ, ◌+◌, ◌≡◌, refl, ap, Option, none, some, List, [], ◌∷◌, ◌++◌, map, arith,
}
use lib_native_streaming.Writer.{
  Effect, async_write, call_write_handler, call_timeout_handler, start_timer, cancel_timer,
}
use lib_native_streaming.Writer.System.{Buffers, launch, calls, writes, timeouts, armed, disarmed}

pub calls-append : (xs ys : List Effect) → calls (xs ++ ys) ≡ calls xs ++ calls ys
calls-append [] ys = refl
calls-append (call_write_handler h ∷ xs) ys = ap (◌∷◌ h) (calls-append xs ys)
calls-append (_ ∷ xs) ys = calls-append xs ys

pub writes-append : (xs ys : List Effect) → writes (xs ++ ys) ≡ writes xs ++ writes ys
writes-append [] ys = refl
writes-append (async_write bs ∷ xs) ys = ap (◌∷◌ bs) (writes-append xs ys)
writes-append (_ ∷ xs) ys = writes-append xs ys

pub timeouts-append : (xs ys : List Effect) → timeouts (xs ++ ys) ≡ timeouts xs + timeouts ys
timeouts-append [] ys = omega arith
timeouts-append (call_timeout_handler cb ∷ xs) ys = omega (arith, timeouts-append xs ys)
timeouts-append (_ ∷ xs) ys = omega (arith, timeouts-append xs ys)

pub armed-append : (xs ys : List Effect) → armed (xs ++ ys) ≡ armed xs ++ armed ys
armed-append [] ys = refl
armed-append (start_timer t d ∷ xs) ys = ap (◌∷◌ t) (armed-append xs ys)
armed-append (_ ∷ xs) ys = armed-append xs ys

pub disarmed-append : (xs ys : List Effect) → disarmed (xs ++ ys) ≡ disarmed xs ++ disarmed ys
disarmed-append [] ys = refl
disarmed-append (cancel_timer t ∷ xs) ys = ap (◌∷◌ t) (disarmed-append xs ys)
disarmed-append (_ ∷ xs) ys = disarmed-append xs ys

-- The calls of the write handlers, which `writeDone` makes first.
pub calls-handlers :
    (hs : List ℕ) (es : List Effect) → calls (map call_write_handler hs ++ es) ≡ hs ++ calls es
calls-handlers [] es = refl
calls-handlers (h ∷ hs) es = ap (◌∷◌ h) (calls-handlers hs es)

pub writes-handlers :
    (hs : List ℕ) (es : List Effect) → writes (map call_write_handler hs ++ es) ≡ writes es
writes-handlers [] es = refl
writes-handlers (h ∷ hs) es = writes-handlers hs es

pub timeouts-handlers :
    (hs : List ℕ) (es : List Effect) → timeouts (map call_write_handler hs ++ es) ≡ timeouts es
timeouts-handlers [] es = refl
timeouts-handlers (h ∷ hs) es = timeouts-handlers hs es

pub launch-handlers :
    (hs : List ℕ) (es : List Effect) (flight : Option Buffers)
    → launch (map call_write_handler hs ++ es) flight ≡ launch es flight
unfolding launch
launch-handlers [] es none = refl
launch-handlers [] es (some bs) = refl
launch-handlers (h ∷ hs) es none = launch-handlers hs es none
launch-handlers (h ∷ hs) es (some bs) = launch-handlers hs es (some bs)

pub armed-handlers :
    (hs : List ℕ) (es : List Effect) → armed (map call_write_handler hs ++ es) ≡ armed es
armed-handlers [] es = refl
armed-handlers (h ∷ hs) es = armed-handlers hs es

pub disarmed-handlers :
    (hs : List ℕ) (es : List Effect) → disarmed (map call_write_handler hs ++ es) ≡ disarmed es
disarmed-handlers [] es = refl
disarmed-handlers (h ∷ hs) es = disarmed-handlers hs es
