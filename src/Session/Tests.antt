-- ===== src/Session/Tests.antt =====
-- Whole sessions, and what the theorems say of them.
use mathlib.Core.List.{Perm}
use lib_native_streaming.Common.{
  ℕ, ◌+◌, ◌≡◌, refl, true, false, Option, none, some, List, [], ◌∷◌, ◌++◌, map, arith,
}
use lib_native_streaming.Common.Bytes.{codes}
use lib_native_streaming.Common.Errors.{success, operation_aborted, failure}
use lib_native_streaming.Common.Connections.{SessionArguments, client}
use lib_native_streaming.Session.Events
use lib_native_streaming.Session.Assembly.{Assembly, sender_of, receiver_of}
use lib_native_streaming.Session.Events.{
  Event, handlers, schedules, sending, begins, destroyed, receiving, monitor, ponged, waited,
  closes, closed,
}
use lib_native_streaming.Session.Notices.{Notice, failed_half, raised, given}
use lib_native_streaming.Session.Reports.{Run-notices}
use lib_native_streaming.Session.Handlers.{held, latest}
use lib_native_streaming.Session.Halves.{step-halves}
use lib_native_streaming.Session.Requests.{batch_of, Run-requests}
use lib_native_streaming.Reader.{ReadTask, no_task}
use lib_native_streaming.Reader
use lib_native_streaming.Reader.System as Receiving
use lib_native_streaming.Reader.System.{failed}
use lib_native_streaming.Writer.{BatchedWriteTasks}
use lib_native_streaming.Writer
use lib_native_streaming.Writer.System as Sending
use lib_native_streaming.Writer.System.{calls}
use lib_native_streaming.Writer.Invariant.{handlers as writer_handlers}
use lib_native_streaming.Writer.System.{queue, complete}
use lib_native_streaming.Session
use lib_native_streaming.Session.{
  Session, Effect, get_user_context, get_endpoint_address, get_endpoint_port_number, new_session,
  close_session, on_close, ping, on_pong, on_heartbeat,
}
use lib_native_streaming.Link.Moves.{SenderMoves, ReceiverMoves}
use lib_native_streaming.Session.Lifetime.{callbacks}
use lib_native_streaming.Session.Beats.{Run-beats, Run-closes}

abbrev arguments : SessionArguments
arguments = record {
  stream = 0;
  user_context = none;
  role = client;
  endpoint = record { address = codes "::1"; port = 7420 };
}

abbrev of : {A : Type 0} → A → Option A → A
of d none = d
of d (some s) = s

abbrev a_session : Session ℕ
unfolding new_session
a_session = new_session arguments

getters :
    (get_user_context a_session ≡ none)
    × (get_endpoint_address a_session ≡ codes "::1")
    × (get_endpoint_port_number a_session ≡ 7420)
unfolding a_session
getters = (refl, refl, refl)

-- A session writes a batch, whose write fails, and begins to read; it is destroyed before the read
-- fails. The user hears of the write only.
abbrev no_more : ℕ → List ℕ → ReadTask ℕ
no_more h xs = no_task

abbrev hello : BatchedWriteTasks
hello = record { buffer = codes "hello"; handler = 30 } ∷ []

abbrev two_bytes : ReadTask ℕ
two_bytes = record { handler = some 8; bytes_to_read = 2 }

abbrev at : Assembly ℕ → Event ℕ → Assembly ℕ
unfolding Events.step
at s e = of s (Events.step no_more s e)

w0 : Assembly ℕ
unfolding Events.start
w0 = Events.start arguments

w1 : Assembly ℕ
unfolding w0 at
w1 = at w0 (handlers (some 1) (some 2))

w2 : Assembly ℕ
unfolding w1 at
w2 = at w1 (schedules hello none)

w3 : Assembly ℕ
unfolding w2 at
w3 = at w2 (sending (queue hello none 0))

w4 : Assembly ℕ
unfolding w3 at
w4 = at w3 (sending (complete (failure 5)))

w5 : Assembly ℕ
unfolding w4 at
w5 = at w4 (begins two_bytes)

w6 : Assembly ℕ
unfolding w5 at
w6 = at w5 (destroyed)

w7 : Assembly ℕ
unfolding w6 at
w7 = at w6 (receiving (failed operation_aborted (7 ∷ [])))

failing-Run : Events.Run no_more (Events.start arguments) w7
unfolding w7 Receiving.step Reader.on_read Reader.run_posted Sending.step Sending.launch
    Writer.write_done Writer.queue_batch_write Session.on_half_error
failing-Run =
    Events.next {t = w6} (receiving (failed operation_aborted (7 ∷ [])))
      (Events.next {t = w5} (destroyed)
        (Events.next {t = w4} (begins two_bytes)
          (Events.next {t = w3} (sending (complete (failure 5)))
            (Events.next {t = w2} (sending (queue hello none 0))
              (Events.next {t = w1} (schedules hello none)
                (Events.next {t = w0} (handlers (some 1) (some 2)) (Events.here) refl refl) refl
                refl)
              ([], refl) refl)
            (λ e. cc) refl)
          (refl, refl, ((8, refl), omega arith)) refl)
        refl refl)
      (refl, (2, refl, omega arith)) refl

failures_heard :
    (raised w7.trace
      ≡ failed_half (some 1) (failure 5) ∷ failed_half (some 2) operation_aborted ∷ [])
    × (given w7.trace ≡ failed_half (some 1) (failure 5) ∷ [])
    × (w7.alive ≡ false)
unfolding w7 Receiving.step Reader.on_read Reader.run_posted Sending.step Sending.launch
    Writer.write_done Writer.queue_batch_write Session.on_half_error
failures_heard = (refl, refl, refl)

Run-notices_example :
    (held w7.session ≡ latest no_more failing-Run)
    × ((unheard : List Notice) × (raised w7.trace ≡ given w7.trace ++ unheard)
        × (w7.alive ≡ true → unheard ≡ []))
Run-notices_example = Run-notices no_more arguments failing-Run

Run-requests_example :
    (refused : List BatchedWriteTasks) × (map batch_of w7.requested
      ≡ w7.accepted ++ (refused ++ map batch_of w7.posted))
    × (w7.session.writer.timeout_reached ≡ false → refused ≡ [])
    × ((uncalled : List ℕ) × (calls w7.sent ++ uncalled
          ≡ writer_handlers (map batch_of w7.requested)))
Run-requests_example = Run-requests no_more arguments failing-Run

last_handlers : held w7.session ≡ (some 2, none, some 3)
unfolding w7 Receiving.step Reader.on_read Reader.run_posted Sending.step Writer.write_done
    Writer.queue_batch_write Sending.launch Session.on_half_error
last_handlers = refl

step-halves_example :
    SenderMoves (some (Sending.set_error 2)) (sender_of w0) (sender_of w1)
    × ReceiverMoves no_more (some (Receiving.set_error 3)) (receiver_of w0) (receiver_of w1)
unfolding w1
step-halves_example = step-halves no_more w0 w1 (handlers (some 1) (some 2)) refl refl

-- A session whose heartbeat is on its second beat closes twice; the second close completes.
b1 : Assembly ℕ
unfolding w0 at
b1 = at w0 (monitor 5 1500 true)

b2 : Assembly ℕ
unfolding b1 at
b2 = at b1 (ponged success)

b3 : Assembly ℕ
unfolding b2 at
b3 = at b2 (waited success true)

b4 : Assembly ℕ
unfolding b3 at
b4 = at b3 (closes (some 3))

b5 : Assembly ℕ
unfolding b4 at
b5 = at b4 (closes none)

b6 : Assembly ℕ
unfolding b5 at
b6 = at b5 (closed 1 true (failure 5))

beating-Run : Events.Run no_more (Events.start arguments) b6
unfolding b6
beating-Run =
    Events.next {t = b5} (closed 1 true (failure 5))
      (Events.next {t = b4} (closes none)
        (Events.next {t = b3} (closes (some 3))
          (Events.next {t = b2} (waited success true)
            (Events.next {t = b1} (ponged success)
              (Events.next {t = w0} (monitor 5 1500 true) (Events.here) refl refl) (omega arith)
              refl)
            (omega arith) refl)
          refl refl)
        refl refl)
      (none, some 3 ∷ [], refl) refl

beating :
    (b6.life.pongs ≡ 1)
    × (b6.life.waits ≡ 0)
    × (b6.life.latest ≡ some 5)
    × (b6.life.closing ≡ some 3 ∷ [])
    × (b6.life.called ≡ (none, failure 5) ∷ [])
unfolding b6
beating = (refl, refl, refl, refl, refl)

Run-beats_example : b6.life.pongs + b6.life.waits + b6.life.ended ≡ b6.life.monitors
Run-beats_example = Run-beats no_more arguments beating-Run

Run-closes_example : Perm (callbacks b6.life.called ++ b6.life.closing) b6.life.closes
Run-closes_example = Run-closes no_more arguments beating-Run
