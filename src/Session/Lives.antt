-- ===== src/Session/Lives.antt =====
-- What each kind of step of a whole session (src/session.cpp) leaves of the invariant of
-- Session/Lifetime.antt: a method or a lambda of the session, an operation of a half, a sequence of reads.
use mathlib.Core.List.{Perm}
use lib_native_streaming.Common.{
  ap, ℕ, ◌≡◌, refl, Bool, Option, none, some, List, ◌∷◌, map, length, drop,
}
use lib_native_streaming.Common.Errors.{ErrorCode}
use lib_native_streaming.Common.Effects.{M, ◌>>◌, ◌>>=◌}
use lib_native_streaming.Reader.{ReadTask, AsyncReader, run_posted}
use lib_native_streaming.Reader
use lib_native_streaming.Reader.Sequence.{reads}
use lib_native_streaming.Reader.System as Receiving
use lib_native_streaming.Writer.System as Sending
use lib_native_streaming.Writer.System.{queue, complete, deadline}
use lib_native_streaming.Session.{
  Session, Effect, of_reader, of_writer, with_reader, schedule_read, on_close,
}
use lib_native_streaming.Session.Assembly.{
  Assembly, relayed, called, scheduled, put_sender, put_receiver, sequence_at, after_sending,
  after_receiving, launched, begun, reader_part,
}
use lib_native_streaming.Session.Events.{close_over}
use lib_native_streaming.Session.Notices.{relay-lem}
use lib_native_streaming.Session.Lifetime.{hears, Inv, Grown, on_close-Grown}
use lib_native_streaming.Reader.Callback.{Callbacks, callbacks_of, Leaves}
use lib_native_streaming.Reader.System.{arrived, failed}
use lib_native_streaming.Writer.System.{queue, complete, deadline}

module _ {H : Type 0} where
  abbrev pub Lives : Option (Assembly H) → Type 0
  Lives none = Unit {0}
  Lives (some u) = Inv (hears u.session) u.life

  relayed-Lives :
      (b : Assembly H) (es : List (Effect H)) → Inv (hears b.session) b.life → Lives (relayed b es)
  relayed-Lives b es inv = rw (relay-lem b.alive es b.session) inv

  pub called-Lives :
      (b : Assembly H) (m : Option (Unit {0} × Session H × List (Effect H)))
      → Grown b.life m
      → Lives (called b m)
  called-Lives b none g = tt
  called-Lives b (some (tt, session, es)) g = relayed-Lives (scheduled b session es) es g

  pub sending-Lives :
      (b : Assembly H) (o : Option Sending.System)
      → ((u : Sending.System) → o ≡ some u → hears (put_sender b u).session ≡ hears b.session)
      → Inv (hears b.session) b.life
      → Lives (after_sending b o)
  sending-Lives b none h inv = tt
  sending-Lives b (some u) h inv =
      relayed-Lives (put_sender b u) (map of_writer (drop (length b.sent) u.trace))
        (rw (h u refl) inv)

  pub receiving-Lives :
      (s : Assembly H) (o : Option (Receiving.System H))
      → ((u : Receiving.System H) → o ≡ some u → hears (put_receiver s u).session ≡ hears s.session)
      → Inv (hears s.session) s.life
      → Lives (after_receiving s o)
  receiving-Lives s none h inv = tt
  receiving-Lives s (some u) h inv =
      relayed-Lives (put_receiver s u) (map of_reader (drop (length s.sequence) u.trace))
        (rw (h u refl) inv)

  pub heard :
      (s : Assembly H) (u : Sending.System)
      → u.writer.connection_alive_callback ≡ s.session.writer.connection_alive_callback
      → hears (put_sender s u).session ≡ hears s.session
  heard s u h =
      ap (λ c. (s.session.connection_alive_callback, s.session.reader.connection_alive_callback, c))
        h

  pub read_heard :
      (s : Assembly H) (u : Receiving.System H)
      → u.reader.connection_alive_callback ≡ s.session.reader.connection_alive_callback
      → hears (put_receiver s u).session ≡ hears s.session
  read_heard s u h =
      ap (λ c. (s.session.connection_alive_callback, c, s.session.writer.connection_alive_callback))
        h

  launched-Lives :
      (s : Assembly H) (task : ReadTask H) (session : Session H) (es : List (Effect H))
      (o : Option (Option ℕ))
      → hears session ≡ hears s.session
      → Inv (hears s.session) s.life
      → Lives (launched s task session es o)
  launched-Lives s task session es none c inv = tt
  launched-Lives s task session es (some flight) c inv =
      relayed-Lives (sequence_at s task session es flight) es (rw c inv)

  abbrev pub Keeps : Session H → Option (Unit {0} × Session H × List (Effect H)) → Type 0
  Keeps s none = Unit {0}
  Keeps s (some r) = hears r.1 ≡ hears s

  -- What `scheduleRead` and the posted lambda make of a session: it has the same callbacks.
  pub schedule_read-Keeps :
      (task : ReadTask H) (m : M (AsyncReader H) (Reader.Effect H) (Unit {0})) (s : Session H)
      (o : Option (Unit {0} × AsyncReader H × List (Reader.Effect H)))
      → m (record s.reader { pending_task = task }) ≡ o
      → Leaves (callbacks_of s.reader) o
      → Keeps s ((schedule_read task >> with_reader m) s)
  unfolding schedule_read
  schedule_read-Keeps task m s none e h = rw (e, ◌>>◌, ◌>>=◌) tt
  schedule_read-Keeps task m s (some r) e h =
      rw (e, ◌>>◌, ◌>>=◌)
        (ap
          (λ (c : Callbacks).
            (s.connection_alive_callback, c.1, s.writer.connection_alive_callback))
          h)

  pub begun-Lives :
      (s : Assembly H) (task : ReadTask H) (m : Option (Unit {0} × Session H × List (Effect H)))
      → Keeps s.session m
      → Inv (hears s.session) s.life
      → Lives (begun s task m)
  begun-Lives s task none k inv = tt
  begun-Lives s task (some (tt, session, es)) k inv =
      launched-Lives s task session es (Receiving.launch s.reading (reads (reader_part es))) k inv

  pub close_over-Lives :
      (s : Assembly H) (is_open : Bool) (ec : ErrorCode) (o : Option (Option ℕ × List (Option ℕ)))
      → ((p : Option ℕ × List (Option ℕ)) → o ≡ some p → Perm (p.0 ∷ p.1) s.life.closing)
      → Inv (hears s.session) s.life
      → Lives (close_over s is_open ec o)
  close_over-Lives s is_open ec none h inv = tt
  close_over-Lives s is_open ec (some (cb, rest)) h inv =
      called-Lives (record s { life = record s.life { closing = rest } })
        (on_close cb s.alive is_open ec s.session)
        (on_close-Grown cb s.alive is_open ec s.session s.life rest (h (cb, rest) refl) inv)
