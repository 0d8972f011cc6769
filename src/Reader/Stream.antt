-- ===== src/Reader/Stream.antt =====
-- `AsyncReader` (src/async_reader.cpp) on every orderly history, one in which a sequence of reads is
-- begun only while no read is in flight, however the network cuts the bytes and whichever read fails.
-- Reader/Overlap.antt is about a sequence that is begun during a read.
use lib_native_streaming.Common.{
  ℕ, ◌≡◌, ◌≤◌, ◌<◌, ◌+◌, none, some, List, ◌++◌, length, inl, inr, arith,
}
use lib_native_streaming.Reader.{ReadTask, AsyncReader}
use lib_native_streaming.Reader.Framing.{
  Delivers, Delivers-unique, Delivers-bytes, Delivers-left, bytes_of,
}
use lib_native_streaming.Reader.Sequence.{pieces, reports, AsksForBytes}
use lib_native_streaming.Reader.System.{System, Event, start, step, Possible, IsOrderly, Run}
use lib_native_streaming.Reader.Flight.{flight_some}
use lib_native_streaming.Reader.Invariant.{alive, start-Inv, step-Inv, Run-Inv}

no_handler :
    {H : Type 0} (r : AsyncReader H) (h : H)
    → r.pending_task.handler ≡ none
    → r.pending_task.handler ≡ some h
    → ⊥
no_handler r h z e = cc

module _ {H : Type 0} (handle : H → List ℕ → ReadTask H) where
  -- If every task that a handler returns has a size, then after any history in which a sequence of
  -- reads is begun only while no read is in flight, each next event that keeps to this as well, whatever
  -- the stream does or the caller calls otherwise, is handled: the recursion of `doRead` and `readDone`
  -- ends, no handler is given more bytes than the buffer holds, no null handler is called, and no second
  -- read is started while one is in flight.
  pub Run-reads_progress :
      {s : System H} (e : Event H)
      → AsksForBytes handle
      → Run handle start s
      → IsOrderly handle s e
      → Possible handle s e
      → (u : System H) × (step handle s e ≡ some u)
  Run-reads_progress {s} e asks r idle h =
      let after = step-Inv handle s e asks (Run-Inv handle asks (start-Inv handle) r) (idle, h) in
      (after.0, after.1)

  -- If every task that a handler returns has a size, then after any history in which a sequence of
  -- reads is begun only while no read is in flight, the handlers of the latest sequence have been given exactly the pieces into which its tasks cut the
  -- bytes received; the buffer holds the rest, and the pending task is next.
  pub Run-Delivers :
      {s : System H}
      → AsksForBytes handle
      → Run handle start s
      → Delivers handle s.entry s.received (pieces s.trace) s.reader.pending_task s.reader.buffer
  Run-Delivers asks r = (Run-Inv handle asks (start-Inv handle) r).delivered

  -- If every task that a handler returns has a size, then how the network cut the bytes makes no
  -- difference: two histories in which sequences of reads are begun only while no read is in flight,
  -- and whose latest sequences began with the same task and received the same bytes gave the handlers the same pieces, hold the same rest, and wait for
  -- the same task.
  pub Run-fragmentation :
      {s u : System H}
      → AsksForBytes handle
      → Run handle start s
      → Run handle start u
      → s.entry ≡ u.entry
      → s.received ≡ u.received
      → (pieces s.trace ≡ pieces u.trace)
        × (s.reader.pending_task ≡ u.reader.pending_task)
        × (s.reader.buffer ≡ u.reader.buffer)
  Run-fragmentation {s} {u} asks r q task bytes =
      Delivers-unique handle (Run-Delivers asks r) (rw (task, bytes) (Run-Delivers asks q))

  -- If every task that a handler returns has a size, then after any history in which a sequence of
  -- reads is begun only while no read is in flight, no byte is lost, repeated or reordered: what the handlers of the latest sequence were given,
  -- followed by the buffer, is what the sequence received.
  pub Run-bytes :
      {s : System H}
      → AsksForBytes handle
      → Run handle start s
      → bytes_of (pieces s.trace) ++ s.reader.buffer ≡ s.received
  Run-bytes asks r = Delivers-bytes handle (Run-Delivers asks r)

  -- If every task that a handler returns has a size, then after any history in which a sequence of
  -- reads is begun only while no read is in flight, each failed read of the latest sequence was reported once, to the error handler or in the log; the first one ends the
  -- sequence: no read is in flight after it, so there is no second.
  pub Run-failures :
      {s : System H}
      → AsksForBytes handle
      → Run handle start s
      → (reports s.trace ≡ s.failures) × (s.failures ≤ 1) × (s.failures ≡ 1 → s.in_flight ≡ none)
  Run-failures {s} asks r =
      let inv = Run-Inv handle asks (start-Inv handle) r in
      elim inv.asked [
        | inl (z, e) ↦ (inv.reported, omega (arith, z), λ k. absurd (omega (arith, z, k)))
        | inr (z, e) ↦ (inv.reported, omega (arith, z), λ k. e)
      ]

  -- If every task that a handler returns has a size, then after any history in which a sequence of
  -- reads is begun only while no read is in flight, and which leaves a read in flight, the stream was
  -- asked for at least one byte, and for exactly as many as the pending task lacks: the subtraction of `read` does not wrap around, and the buffer never holds a whole task.
  pub Run-asks :
      {s : System H} (n : ℕ)
      → AsksForBytes handle
      → Run handle start s
      → s.in_flight ≡ some n
      → (0 < n) × (length s.reader.buffer + n ≡ s.reader.pending_task.bytes_to_read)
  Run-asks {s} n asks r busy =
      let inv = Run-Inv handle asks (start-Inv handle) r in
      let live = alive handle s.failures s.in_flight s.reader n inv.asked busy in
      let ((h, e), k) = flight_some handle s.reader n live.1 in
      elim (Delivers-left handle inv.delivered) [
        | inl z ↦ absurd (no_handler s.reader h z e)
        | inr short ↦ omega (arith, k, short)
      ]
