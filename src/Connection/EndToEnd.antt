-- ===== src/Connection/EndToEnd.antt =====
-- From the calls of `Session::scheduleWrite` (src/session.cpp) at one end of a connection to the read
-- handlers at the other end.
use lib_native_streaming.Common.{
  ◌≡◌, ℕ, refl, true, false, List, [], ◌++◌, map, map-append, append_assoc, flatten-append,
}
use lib_native_streaming.Common.Connections.{SessionArguments}
use lib_native_streaming.Reader.{ReadTask}
use lib_native_streaming.Reader.Framing.{Delivers, bytes_of}
use lib_native_streaming.Reader.Sequence.{pieces, AsksForBytes}
use lib_native_streaming.Writer.{BatchedWriteTasks, buffers_of}
use lib_native_streaming.Writer.Invariant.{all_tasks, unwritten}
use lib_native_streaming.Link as Joined
use lib_native_streaming.Link.EndToEnd.{batch_bytes, Run-conserves, Run-end_to_end}
use lib_native_streaming.Session.Assembly.{Assembly, Posted}
use lib_native_streaming.Session.Requests.{batch_of, Run-requests}
use lib_native_streaming.Connection.{Channel, Connection, Run}
use lib_native_streaming.Connection.Links.{link_of, Run-near, Run-far, Run-out, Run-back}

-- The bytes of the batches that lambdas of `scheduleWrite` hold, in order.
abbrev pub bytes_asked : List Posted → List ℕ
bytes_asked l = batch_bytes (map batch_of l)

batch_bytes-append :
    (l m : List BatchedWriteTasks) → batch_bytes (l ++ m) ≡ batch_bytes l ++ batch_bytes m
batch_bytes-append l m = rw (map-append buffers_of l m, flatten-append, flatten-append) refl

module _ {H K : Type 0} (handle : K → List ℕ → ReadTask K) where
  -- The handlers of the latest sequence at the receiving end were given the pieces into which its tasks
  -- cut a stretch of what the sending end was asked to write, the one behind what was given earlier.
  abbrev pub Delivered : Assembly H → Assembly K → Channel → Type 0
  Delivered s r c =
      (stretch rest : List ℕ) × (c.past ++ stretch ++ rest ≡ bytes_asked s.requested)
      × Delivers handle r.entry stretch (pieces r.sequence) r.session.reader.pending_task
          r.session.reader.buffer

  -- Where the bytes are that the sending end was asked to write: with the handlers, in the reader, on
  -- the wire, cut off by a failed write, in the writer, refused, or with lambdas that wait.
  abbrev pub Accounted : Assembly H → Assembly K → Channel → Type 0
  Accounted s r c =
      (refused : List BatchedWriteTasks) × (((c.past ++ bytes_of (pieces r.sequence))
            ++ r.session.reader.buffer)
          ++ (c.wire ++ c.lost)
          ++ batch_bytes (all_tasks (unwritten s.writing s.session.writer.write_tasks_queue))
          ++ (batch_bytes refused ++ bytes_asked s.posted)
        ≡ bytes_asked s.requested)
      × (c.intact ≡ true → c.lost ≡ [])
      × (s.session.writer.timeout_reached ≡ false → refused ≡ [])

  module _ (asks : AsksForBytes handle) where
    link-Delivered :
        (s : Assembly H) (r : Assembly K) (c : Channel) (refused : List BatchedWriteTasks)
        → Joined.Run handle (link_of s r c)
        → map batch_of s.requested ≡ s.accepted ++ (refused ++ map batch_of s.posted)
        → Delivered s r c
    link-Delivered s r c refused run kept =
        let (stretch, rest, cut, delivers) = Run-end_to_end handle asks run in
        (
          stretch,
          rest ++ batch_bytes (refused ++ map batch_of s.posted),
          rw (kept, batch_bytes-append s.accepted (refused ++ map batch_of s.posted), ← cut)
              (simp append_assoc),
          delivers,
        )

    link-Accounted :
        (s : Assembly H) (r : Assembly K) (c : Channel) (refused : List BatchedWriteTasks)
        → Joined.Run handle (link_of s r c)
        → map batch_of s.requested ≡ s.accepted ++ (refused ++ map batch_of s.posted)
        → (s.session.writer.timeout_reached ≡ false → refused ≡ [])
        → Accounted s r c
    link-Accounted s r c refused run kept calm =
        let (conserved, unbroken) = Run-conserves handle asks run in
        (
          refused,
          rw (kept, batch_bytes-append, batch_bytes-append, ← conserved) (simp append_assoc),
          unbroken,
          calm,
        )

module _ {H K : Type 0} (near_handle : H → List ℕ → ReadTask H)
    (far_handle : K → List ℕ → ReadTask K) (near_asks : AsksForBytes near_handle)
    (far_asks : AsksForBytes far_handle) (a b : SessionArguments) where
  -- If every task that a handler returns has a size, then after any history of two whole sessions that
  -- are joined by a stream, in which a sequence of reads is begun at an end only while no read is in
  -- flight there, and also after one of the sessions was destroyed: at each end the handlers of the latest sequence were given the pieces into which its
  -- tasks cut a stretch of the bytes that `scheduleWrite` was called with at the other end, the one that
  -- starts behind what the earlier sequences were given.
  pub Run-Delivered :
      {s : Connection H K}
      → Run near_handle far_handle a b s
      → Delivered far_handle s.near s.far s.out × Delivered near_handle s.far s.near s.back
  Run-Delivered {s} r =
      let (refused, kept, _, _) =
        Run-requests near_handle a (Run-near near_handle far_handle a b r) in
      let (dropped, same, _, _) =
        Run-requests far_handle b (Run-far near_handle far_handle a b r) in
      (
        link-Delivered far_handle far_asks s.near s.far s.out refused
            (Run-out near_handle far_handle a b r) kept,
        link-Delivered near_handle near_asks s.far s.near s.back dropped
            (Run-back near_handle far_handle a b r) same,
      )

  -- If every task that a handler returns has a size, then after any history of two whole sessions that
  -- are joined by a stream, in which a sequence of reads is begun at an end only while no read is in
  -- flight there, each way: the bytes that the handlers were given, then those in the
  -- reader's buffer, those on the wire, those that a failed write cut off, those of the batches not yet
  -- written, those of the batches that the writer refused, and those whose lambda has not run, are
  -- together the bytes that `scheduleWrite` was called with. None is cut off while no write has failed,
  -- and none refused while no deadline was missed.
  pub Run-Accounted :
      {s : Connection H K}
      → Run near_handle far_handle a b s
      → Accounted far_handle s.near s.far s.out × Accounted near_handle s.far s.near s.back
  Run-Accounted {s} r =
      let (refused, kept, calm, _) =
        Run-requests near_handle a (Run-near near_handle far_handle a b r) in
      let (dropped, same, still, _) =
        Run-requests far_handle b (Run-far near_handle far_handle a b r) in
      (
        link-Accounted far_handle far_asks s.near s.far s.out refused
            (Run-out near_handle far_handle a b r) kept calm,
        link-Accounted near_handle near_asks s.far s.near s.back dropped
            (Run-back near_handle far_handle a b r) same still,
      )
