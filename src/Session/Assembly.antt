-- ===== src/Session/Assembly.antt =====
-- A whole session (src/session.cpp): the `Session` with the reader and the writer that it owns and the
-- systems that these run in. What a half reports goes to the lambda that the session gave it.
use lib_native_streaming.Common.{
  ℕ, Bool, Option, none, some, List, [], ◌∷◌, ◌++◌, map, length, drop,
}
use lib_native_streaming.Common.Effects.{◌>>◌, emit, skip}
use lib_native_streaming.Reader.{ReadTask, AsyncReader, no_task, run_posted}
use lib_native_streaming.Reader
use lib_native_streaming.Reader.Sequence.{reads}
use lib_native_streaming.Reader.System as Receiving
use lib_native_streaming.Reader.System.{IsTask, arrived, failed}
use lib_native_streaming.Writer.{AsyncWriter, BatchedWriteTasks, OptionalWriteDeadline}
use lib_native_streaming.Writer
use lib_native_streaming.Writer.System as Sending
use lib_native_streaming.Writer.System.{Buffers, queue, complete, deadline}
use lib_native_streaming.Session.Life.{Life, grow}
use lib_native_streaming.Session.{
  Session, Effect, Action, wrapped, of_reader, of_writer, on_half_error, on_write_timed_out,
}

-- A lambda of `scheduleWrite` that was posted.
abbrev pub Posted : Type 0
Posted = BatchedWriteTasks × OptionalWriteDeadline

abbrev pub posts : List Writer.Effect → List Posted
posts [] = []
posts (Writer.post_queue_batch_write tasks d ∷ es) = (tasks, d) ∷ posts es
posts (_ ∷ es) = posts es

-- The posted lambda that runs is the oldest.
abbrev pub taken_up : Sending.Event → List Posted → List Posted
taken_up (queue tasks d now) l = drop 1 l
taken_up _ l = l

-- The system of each half is kept but for the half itself, which is the session's. `posted` is the
-- lambdas of `scheduleWrite` that wait to run, `requested` its calls, `trace` the effects of all, each
-- oldest first.
pub record Assembly (H : Type 0) : Type 0 where
  pub session : Session H
  pub alive : Bool
  pub writing : Option Buffers
  pub accepted : List BatchedWriteTasks
  pub sent : List Writer.Effect
  pub requested : List Posted
  pub posted : List Posted
  pub life : Life
  pub reading : Option ℕ
  pub entry : ReadTask H
  pub received : List ℕ
  pub sequence : List (Reader.Effect H)
  pub failures : ℕ
  pub trace : List (Effect H)

module _ {H : Type 0} where
  abbrev pub sender_of : Assembly H → Sending.System
  sender_of s = record {
    writer = s.session.writer;
    in_flight = s.writing;
    accepted = s.accepted;
    trace = s.sent;
  }

  abbrev pub receiver_of : Assembly H → Receiving.System H
  receiver_of s = record {
    reader = s.session.reader;
    in_flight = s.reading;
    entry = s.entry;
    received = s.received;
    trace = s.sequence;
    failures = s.failures;
  }

  -- What an effect of a half calls: the lambda of the session that the half was given. The names of the
  -- user's callbacks stand for them there.
  abbrev pub answer : Bool → Effect H → Action H (Unit {0})
  answer alive (of_writer (Writer.call_error_handler cb ec)) = on_half_error (wrapped cb) alive ec
  answer alive (of_reader (Reader.call_error_handler cb ec)) = on_half_error (wrapped cb) alive ec
  answer alive (of_writer (Writer.call_timeout_handler (some cb))) =
      on_write_timed_out (wrapped cb) alive
  answer alive _ = skip

  abbrev pub relay : Bool → List (Effect H) → Action H (Unit {0})
  relay alive [] = skip
  relay alive (e ∷ es) = do emit e; answer alive e; relay alive es

  abbrev finish : Assembly H → Option (Unit {0} × Session H × List (Effect H)) → Option (Assembly H)
  finish s none = none
  finish s (some (tt, session, es)) = some (record s { session = session; trace = s.trace ++ es })

  -- The halves are where they are, and their effects reach the session.
  abbrev pub relayed : Assembly H → List (Effect H) → Option (Assembly H)
  relayed s es = finish s (relay s.alive es s.session)

  abbrev pub writer_part : List (Effect H) → List Writer.Effect
  writer_part [] = []
  writer_part (of_writer e ∷ es) = e ∷ writer_part es
  writer_part (_ ∷ es) = writer_part es

  abbrev pub reader_part : List (Effect H) → List (Reader.Effect H)
  reader_part [] = []
  reader_part (of_reader e ∷ es) = e ∷ reader_part es
  reader_part (_ ∷ es) = reader_part es

  abbrev pub scheduled : Assembly H → Session H → List (Effect H) → Assembly H
  scheduled s session es = record s {
    session = session;
    sent = s.sent ++ writer_part es;
    posted = s.posted ++ posts (writer_part es);
    life = grow s.life es;
  }

  -- A method, or a lambda of the session: none of them starts an operation of a half.
  abbrev pub called :
      Assembly H → Option (Unit {0} × Session H × List (Effect H)) → Option (Assembly H)
  called s none = none
  called s (some (tt, session, es)) = relayed (scheduled s session es) es

  -- An operation of a half completes, and leaves its system at `u`.
  abbrev pub put_sender : Assembly H → Sending.System → Assembly H
  put_sender s u = record s {
    session = record s.session { writer = u.writer };
    writing = u.in_flight;
    accepted = u.accepted;
    sent = u.trace;
  }

  abbrev pub after_sending : Assembly H → Option Sending.System → Option (Assembly H)
  after_sending s none = none
  after_sending s (some u) = relayed (put_sender s u) (map of_writer (drop (length s.sent) u.trace))

  abbrev pub put_receiver : Assembly H → Receiving.System H → Assembly H
  put_receiver s u = record s {
    session = record s.session { reader = u.reader };
    reading = u.in_flight;
    entry = u.entry;
    received = u.received;
    sequence = u.trace;
    failures = u.failures;
  }

  abbrev pub after_receiving : Assembly H → Option (Receiving.System H) → Option (Assembly H)
  after_receiving s none = none
  after_receiving s (some u) =
      relayed (put_receiver s u) (map of_reader (drop (length s.sequence) u.trace))

  -- `scheduleRead`, and the lambda that the reader posts, as one event.
  abbrev pub sequence_at :
      Assembly H → ReadTask H → Session H → List (Effect H) → Option ℕ → Assembly H
  sequence_at s task session es flight = record s {
    session = session;
    reading = flight;
    entry = task;
    received = s.session.reader.buffer;
    sequence = reader_part es;
    failures = 0;
  }

  abbrev pub launched :
      Assembly H
      → ReadTask H
      → Session H
      → List (Effect H)
      → Option (Option ℕ)
      → Option (Assembly H)
  launched s task session es none = none
  launched s task session es (some flight) = relayed (sequence_at s task session es flight) es

  abbrev pub begun :
      Assembly H
      → ReadTask H
      → Option (Unit {0} × Session H × List (Effect H))
      → Option (Assembly H)
  begun s task none = none
  begun s task (some (tt, session, es)) =
      launched s task session es (Receiving.launch s.reading (reads (reader_part es)))
