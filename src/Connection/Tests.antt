-- ===== src/Connection/Tests.antt =====
-- The near session of a connection asks for one batch and then for another one; the first crosses to
-- the far session, whose reader takes two bytes at a time. The near session is destroyed in between.
use lib_native_streaming.Common.{◌≡◌, ℕ, refl, Option, none, some, List, [], ◌∷◌, arith}
use lib_native_streaming.Common.Bytes.{codes}
use lib_native_streaming.Common.Connections.{SessionArguments, client, server}
use lib_native_streaming.Reader.{ReadTask, run_posted, on_read}
use lib_native_streaming.Reader.Sequence.{pieces, AsksForBytes}
use lib_native_streaming.Reader.System as Receiving
use lib_native_streaming.Reader.System.{arrived}
use lib_native_streaming.Writer.{BatchedWriteTasks, queue_batch_write}
use lib_native_streaming.Writer.System as Sending
use lib_native_streaming.Writer.System.{queue}
use lib_native_streaming.Session.Assembly.{Assembly, receiver_of}
use lib_native_streaming.Session.Events
use lib_native_streaming.Session.Events.{Event, schedules, begins, destroyed, sending, receiving}
use lib_native_streaming.Session.Sender.{for_writer}
use lib_native_streaming.Session.Receiver.{for_reader}
use lib_native_streaming.Connection.{
  Connection, quiet, sends, takes, at_near, at_far, Run, here, next,
}
use lib_native_streaming.Connection.EndToEnd.{Delivered, Accounted, Run-Delivered, Run-Accounted}

abbrev near_end : SessionArguments
near_end = record {
  stream = 0;
  user_context = none;
  role = client;
  endpoint = record { address = codes "::1"; port = 7420 };
}

abbrev far_end : SessionArguments
far_end = record {
  stream = 1;
  user_context = some 4;
  role = server;
  endpoint = record { address = codes "::1"; port = 50000 };
}

abbrev two_bytes : ReadTask ℕ
two_bytes = record { handler = some 0; bytes_to_read = 2 }

abbrev pairs : ℕ → List ℕ → ReadTask ℕ
pairs h xs = two_bytes

pairs-AsksForBytes : AsksForBytes pairs
pairs-AsksForBytes h xs g e = omega arith

abbrev first : BatchedWriteTasks
first =
    record { buffer = 3 ∷ 7 ∷ []; handler = 1 } ∷ record { buffer = 8 ∷ 9 ∷ []; handler = 2 } ∷ []

abbrev second : BatchedWriteTasks
second = record { buffer = 5 ∷ []; handler = 3 } ∷ []

abbrev of : {A : Type 0} → A → Option A → A
of d none = d
of d (some s) = s

abbrev at : Assembly ℕ → Event ℕ → Assembly ℕ
unfolding Events.step
at s e = of s (Events.step pairs s e)

-- The states of the two ends.
n0 : Assembly ℕ
unfolding Events.start
n0 = Events.start near_end

n1 : Assembly ℕ
unfolding n0 at
n1 = at n0 (schedules first none)

n2 : Assembly ℕ
unfolding n1 at
n2 = at n1 (schedules second none)

n3 : Assembly ℕ
unfolding n2 at
n3 = at n2 (sending (queue first none 0))

n4 : Assembly ℕ
unfolding n3 at
n4 = at n3 (destroyed)

f0 : Assembly ℕ
unfolding Events.start
f0 = Events.start far_end

f1 : Assembly ℕ
unfolding f0 at
f1 = at f0 (begins two_bytes)

f2 : Assembly ℕ
unfolding f1 at
f2 = at f1 (receiving (arrived (3 ∷ 7 ∷ 8 ∷ [])))

-- Those of the connection.
abbrev near_step : Connection ℕ ℕ → Assembly ℕ → Event ℕ → List ℕ → List ℕ → Connection ℕ ℕ
near_step s u e new rest = record s {
  near = u;
  out = sends s.out (for_writer e) new;
  back = takes s.back (for_reader e) (receiver_of s.near) rest;
}

abbrev far_step : Connection ℕ ℕ → Assembly ℕ → Event ℕ → List ℕ → List ℕ → Connection ℕ ℕ
far_step s u e new rest = record s {
  far = u;
  back = sends s.back (for_writer e) new;
  out = takes s.out (for_reader e) (receiver_of s.far) rest;
}

abbrev four : List ℕ
four = 3 ∷ 7 ∷ 8 ∷ 9 ∷ []

c0 : Connection ℕ ℕ
unfolding n0 f0
c0 = record { near = n0; far = f0; out = quiet; back = quiet }

c1 : Connection ℕ ℕ
unfolding c0 n1
c1 = near_step c0 n1 (schedules first none) [] []

c2 : Connection ℕ ℕ
unfolding c1 n2
c2 = near_step c1 n2 (schedules second none) [] []

c3 : Connection ℕ ℕ
unfolding c2 n3
c3 = near_step c2 n3 (sending (queue first none 0)) four []

c4 : Connection ℕ ℕ
unfolding c3 f1
c4 = far_step c3 f1 (begins two_bytes) [] four

c5 : Connection ℕ ℕ
unfolding c4 n4
c5 = near_step c4 n4 (destroyed) [] []

c6 : Connection ℕ ℕ
unfolding c5 f2
c6 = far_step c5 f2 (receiving (arrived (3 ∷ 7 ∷ 8 ∷ []))) [] (9 ∷ [])

crossing-Run : Run pairs pairs near_end far_end c6
unfolding c6 Receiving.step on_read run_posted Sending.step Sending.launch queue_batch_write
crossing-Run =
    next {s = c5}
      (next {s = c4}
        (next {s = c3}
          (next {s = c2}
            (next {s = c1}
              (next {s = c0} here (at_near (schedules first none) n1 [] [] refl refl refl refl))
              (at_near (schedules second none) n2 [] [] refl refl refl refl))
            (at_near (sending (queue first none 0)) n3 four [] (_, refl) refl refl refl))
          (at_far (begins two_bytes) f1 [] four (refl, refl, ((0, refl), omega arith)) refl refl
            refl))
        (at_near destroyed n4 [] [] refl refl refl refl))
      (at_far (receiving (arrived (3 ∷ 7 ∷ 8 ∷ []))) f2 [] (9 ∷ []) (2, refl, omega arith) refl refl
        refl)

crossed :
    (pieces c6.far.sequence ≡ (0, 3 ∷ 7 ∷ []) ∷ [])
    × (c6.far.session.reader.buffer ≡ 8 ∷ [])
    × (c6.out.wire ≡ 9 ∷ [])
    × (c6.near.posted ≡ (second, none) ∷ [])
unfolding c6 Receiving.step on_read run_posted Sending.step Sending.launch queue_batch_write
crossed = (refl, refl, refl, refl)

Run-Delivered_example :
    Delivered pairs c6.near c6.far c6.out × Delivered pairs c6.far c6.near c6.back
Run-Delivered_example =
    Run-Delivered pairs pairs pairs-AsksForBytes pairs-AsksForBytes near_end far_end crossing-Run

Run-Accounted_example :
    Accounted pairs c6.near c6.far c6.out × Accounted pairs c6.far c6.near c6.back
Run-Accounted_example =
    Run-Accounted pairs pairs pairs-AsksForBytes pairs-AsksForBytes near_end far_end crossing-Run
