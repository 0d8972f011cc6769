-- ===== src/Link/EndToEnd.antt =====
-- What the handlers on one side are given of what the other side wrote.
use lib_native_streaming.Common.{
  ◌≡◌, ℕ, refl, Bool, true, false, not, ◌&&◌, some, List, [], ◌++◌, map, append-nil, append_assoc,
  flatten-append,
}
use lib_native_streaming.Reader.{ReadTask}
use lib_native_streaming.Reader.Framing.{Delivers, bytes_of}
use lib_native_streaming.Reader.Sequence.{pieces, AsksForBytes}
use lib_native_streaming.Reader.Stream.{Run-Delivers, Run-bytes}
use lib_native_streaming.Reader.System as Receiving
use lib_native_streaming.Reader.System.{begin, arrived, failed, set_error, set_alive}
use lib_native_streaming.Writer.{BatchedWriteTasks, buffers_of}
use lib_native_streaming.Writer.System as Sending
use lib_native_streaming.Writer.System.{writes}
use lib_native_streaming.Writer.Invariant.{all_tasks, unwritten}
use lib_native_streaming.Writer.Order.{Run-writes}
use lib_native_streaming.Link.{
  Link, all_bytes, sent, breaks, carry, arriving, past_after, write, read, Run, here, next,
}
use lib_native_streaming.Link.Halves.{Run-sender, Run-receiver, received-step}

-- The bytes of batches, in order.
abbrev pub batch_bytes : List BatchedWriteTasks → List ℕ
batch_bytes l = all_bytes (map buffers_of l)

-- What a writer has given to the stream and what it has not are the accepted batches.
sent-accepted :
    {s : Sending.System}
    → Sending.Run Sending.start s
    → sent s ++ batch_bytes (all_tasks (unwritten s.in_flight s.writer.write_tasks_queue))
      ≡ batch_bytes s.accepted
sent-accepted r = rw (← Run-writes r) (rw (flatten-append, flatten-append))

module _ {H : Type 0} (handle : H → List ℕ → ReadTask H) (asks : AsksForBytes handle) where
  -- Once a write has failed nothing more goes on the wire.
  record Inv (s : Link H) : Type 0 where
    carried : (s.past ++ s.receiver.received) ++ (s.wire ++ s.lost) ≡ sent s.sender
    unbroken : s.intact ≡ true → s.lost ≡ []

  -- What a reader's event takes from the wire is what its sequence received more.
  taken :
      (e : Receiving.Event H) (s : Link H) (u : Receiving.System H)
      → Run handle s
      → Receiving.step handle s.receiver e ≡ some u
      → past_after e s ++ u.received ≡ (s.past ++ s.receiver.received) ++ arriving e
  taken (begin task) s u r eq = rw (
    received-step handle (begin task) s.receiver u eq,
    append-nil,
    ← Run-bytes handle asks (Run-receiver handle r),
    append_assoc,
  )
  taken (arrived xs) s u r eq = rw (received-step handle (arrived xs) s.receiver u eq, append_assoc)
  taken (failed ec xs) s u r eq =
      rw (received-step handle (failed ec xs) s.receiver u eq, append_assoc)
  taken (set_error cb) s u r eq =
      rw (received-step handle (set_error cb) s.receiver u eq, append-nil)
  taken (set_alive cb) s u r eq =
      rw (received-step handle (set_alive cb) s.receiver u eq, append-nil)

  write-Inv :
      (s : Link H) (u : Sending.System) (new : List ℕ) (b : Bool)
      → (b ≡ true → s.intact ≡ true)
      → sent u ≡ sent s.sender ++ new
      → Inv s
      → Inv (carry s u new b)
  write-Inv s u new true h grown inv = record {
    carried = rw (grown, ← inv.carried, inv.unbroken (h refl)) (simp (append-nil, append_assoc));
    unbroken = λ k. rw (inv.unbroken (h refl)) refl;
  }
  write-Inv s u new false h grown inv = record {
    carried = rw (grown, ← inv.carried) (simp (append-nil, append_assoc));
    unbroken = λ k. cc;
  }

  read-Inv :
      (e : Receiving.Event H) (s : Link H) (u : Receiving.System H) (rest : List ℕ)
      → Run handle s
      → Receiving.step handle s.receiver e ≡ some u
      → s.wire ≡ arriving e ++ rest
      → Inv s
      → Inv (record s { receiver = u; past = past_after e s; wire = rest })
  read-Inv e s u rest r eq w inv = record {
    carried = rw (taken e s u r eq, ← inv.carried, w) (simp (append_assoc));
    unbroken = inv.unbroken;
  }

  was_intact : (a b : Bool) → (a && b) ≡ true → a ≡ true
  was_intact true b h = refl
  was_intact false b h = h

  Run-Inv : {s : Link H} → Run handle s → Inv s
  unfolding Sending.start Receiving.start
  Run-Inv here = record { carried = refl; unbroken = λ k. refl }
  Run-Inv (next {s} r (write e u new ok eq grown)) =
      write-Inv s u new (s.intact && not (breaks e)) (was_intact s.intact (not (breaks e))) grown
        (Run-Inv r)
  Run-Inv (next {s} r (read e u rest ok eq w)) = read-Inv e s u rest r eq w (Run-Inv r)

  -- If every task that a handler returns has a size, then after any history of a link the bytes that
  -- the handlers were given, over all their sequences, then those in the reader's buffer, those on the
  -- wire, those that a failed write cut off, and those of the batches not yet written, are together the
  -- bytes of the accepted batches: no byte is lost on the way, doubled, or out of order. While no write
  -- has failed, none is cut off.
  pub Run-conserves :
      {s : Link H}
      → Run handle s
      → ((s.past ++ bytes_of (pieces s.receiver.trace)) ++ s.receiver.reader.buffer)
            ++ (s.wire ++ s.lost)
            ++ batch_bytes
                (all_tasks (unwritten s.sender.in_flight s.sender.writer.write_tasks_queue))
          ≡ batch_bytes s.sender.accepted
        × (s.intact ≡ true → s.lost ≡ [])
  Run-conserves {s} r =
      let inv = Run-Inv r in
      (
        rw
            (
              ← sent-accepted (Run-sender handle r),
              ← inv.carried,
              ← Run-bytes handle asks (Run-receiver handle r),
            )
            (simp append_assoc),
        inv.unbroken,
      )

  -- If every task that a handler returns has a size, then after any history of a link the handlers of
  -- the latest sequence were given the pieces into which its tasks cut a stretch of the bytes of the
  -- accepted batches, the one that starts behind what the earlier sequences were given.
  pub Run-end_to_end :
      {s : Link H}
      → Run handle s
      → (stretch rest : List ℕ) × (s.past ++ stretch ++ rest ≡ batch_bytes s.sender.accepted)
        × Delivers handle s.receiver.entry stretch
            (pieces s.receiver.trace)
            s.receiver.reader.pending_task
            s.receiver.reader.buffer
  Run-end_to_end {s} r =
      let left =
        batch_bytes (all_tasks (unwritten s.sender.in_flight s.sender.writer.write_tasks_queue)) in
      (
        s.receiver.received,
        (s.wire ++ s.lost) ++ left,
        rw (← sent-accepted (Run-sender handle r), ← (Run-Inv r).carried) (simp append_assoc),
        Run-Delivers handle asks (Run-receiver handle r),
      )
