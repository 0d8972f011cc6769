-- ===== src/Client/Timeout.antt =====
-- The connection timer of `Client` (src/client.cpp) against a completion that is already queued.
use lib_native_streaming.Common.{
  ℕ, suc, ◌≡◌, refl, true, Option, none, some, List, [], ◌∷◌, ◌++◌, arith,
}
use lib_native_streaming.Common.Errors.{success}
use lib_native_streaming.Client.{
  Effect, write_buffer_bytes, read_message_max, max_message, async_connect, set_decorator,
  async_handshake,
}
use lib_native_streaming.Client.System.{
  resolving, handshaking, System, Event, timer, resolved, connected, run, outcomes,
}
use lib_native_streaming.Client.Steps.{outcomes-append, cancelled_by_timeout}

abbrev late_success : List Event
late_success = timer success ∷ resolved 0 success ∷ connected 0 success ∷ []

-- The effects of the three handlers.
abbrev traced : System → Option ℕ → List Effect
traced s f =
    ((s.trace ++ cancelled_by_timeout f)
      ++ (write_buffer_bytes s.client.next_stream 65536
          ∷ read_message_max s.client.next_stream max_message
          ∷ async_connect s.client.next_stream
          ∷ []))
    ++ (set_decorator s.client.next_stream s.client.authentication
        ∷ async_handshake s.client.next_stream s.client.host s.client.path
        ∷ [])

late_system : System → Option ℕ → System
late_system s f = record s {
  client = record s.client {
    websocket_stream = some s.client.next_stream;
    next_stream = suc s.client.next_stream;
  };
  pending = handshaking s.client.next_stream ∷ [];
  waits = 0;
  trace = traced s f;
}

outcomes-traced : (s : System) (f : Option ℕ) → outcomes (traced s f) ≡ outcomes s.trace
outcomes-traced s none = rw (outcomes-append, outcomes-append, outcomes-append) (omega arith)
outcomes-traced s (some st) = rw (outcomes-append, outcomes-append, outcomes-append) (omega arith)

run-late :
    (s : System) (f : Option ℕ)
    → s.client.websocket_stream ≡ f
    → s.pending ≡ resolving ∷ []
    → s.alive ≡ true
    → s.waits ≡ 1
    → run s late_success ≡ some (late_system s f)
unfolding run late_system
run-late s none e p a w = ground (arith, e, p, a, w)
run-late s (some st) e p a w = ground (arith, e, p, a, w)

-- The timeout does not bound an attempt. Where the client is there and resolving, with one wait for the timer,
-- and the timer expires just before the resolver and then the connect succeed, the attempt goes on:
-- it shakes hands with no wait for the timer left, and no callback has been called.
pub timeout_missed :
    (s : System)
    → s.pending ≡ resolving ∷ []
    → s.alive ≡ true
    → s.waits ≡ 1
    → (u : System) × (run s (timer success ∷ resolved 0 success ∷ connected 0 success ∷ [])
        ≡ some u)
      × (u.pending ≡ handshaking s.client.next_stream ∷ [])
      × (u.waits ≡ 0)
      × (outcomes u.trace ≡ outcomes s.trace)
unfolding late_system
timeout_missed s p a w =
    let f = s.client.websocket_stream in
    (late_system s f, run-late s f refl p a w, refl, refl, outcomes-traced s f)
