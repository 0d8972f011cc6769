-- ===== src/Connection/Links.antt =====
-- Each way of a connection is a link of a writer and a reader, and each end has a history of its own.
use lib_native_streaming.Common.{ℕ, List, subst, refl, sym, ◌≡◌}
use lib_native_streaming.Common.Connections.{SessionArguments}
use lib_native_streaming.Reader.{ReadTask}
use lib_native_streaming.Link.{Link}
use lib_native_streaming.Link
use lib_native_streaming.Link.Moves.{Run-written, Run-taken}
use lib_native_streaming.Session.Assembly.{Assembly, sender_of, receiver_of}
use lib_native_streaming.Session.Events
use lib_native_streaming.Session.Sender.{for_writer, step-SenderMoves, start-sender}
use lib_native_streaming.Session.Receiver.{for_reader, step-ReceiverMoves, start-receiver}
use lib_native_streaming.Connection.{Channel, Connection, quiet, at_near, at_far, Run, here, next}

abbrev pub link_of : {H K : Type 0} → Assembly H → Assembly K → Channel → Link K
link_of s r c = record {
  sender = sender_of s;
  receiver = receiver_of r;
  past = c.past;
  wire = c.wire;
  lost = c.lost;
  intact = c.intact;
}

start-link :
    (H K : Type 0) (a b : SessionArguments)
    → link_of (Events.start {H = H} a) (Events.start {H = K} b) quiet ≡ Link.start
start-link H K a b = rw (start-sender H a, start-receiver {H = K} b) refl

module _ {H K : Type 0} (near_handle : H → List ℕ → ReadTask H)
    (far_handle : K → List ℕ → ReadTask K) (a b : SessionArguments) where
  pub Run-near :
      {s : Connection H K}
      → Run near_handle far_handle a b s
      → Events.Run near_handle (Events.start a) s.near
  Run-near here = Events.here
  Run-near (next r (at_near e u new rest ok eq grown w)) = Events.next e (Run-near r) ok eq
  Run-near (next r (at_far e u new rest ok eq grown w)) = Run-near r

  pub Run-far :
      {s : Connection H K}
      → Run near_handle far_handle a b s
      → Events.Run far_handle (Events.start b) s.far
  Run-far here = Events.here
  Run-far (next r (at_near e u new rest ok eq grown w)) = Run-far r
  Run-far (next r (at_far e u new rest ok eq grown w)) = Events.next e (Run-far r) ok eq

  pub Run-out :
      {s : Connection H K}
      → Run near_handle far_handle a b s
      → Link.Run far_handle (link_of s.near s.far s.out)
  Run-out here = subst (Link.Run far_handle) (sym (start-link H K a b)) Link.here
  Run-out (next {s} r (at_near e u new rest ok eq grown w)) =
      Run-written far_handle (for_writer e) (link_of s.near s.far s.out) (sender_of u) new
        (Run-out r) (step-SenderMoves near_handle s.near u e ok eq) grown
  Run-out (next {s} r (at_far e u new rest ok eq grown w)) =
      Run-taken far_handle (for_reader e) (link_of s.near s.far s.out) (receiver_of u) rest
        (Run-out r) (step-ReceiverMoves far_handle s.far u e ok eq) w

  pub Run-back :
      {s : Connection H K}
      → Run near_handle far_handle a b s
      → Link.Run near_handle (link_of s.far s.near s.back)
  Run-back here = subst (Link.Run near_handle) (sym (start-link K H b a)) Link.here
  Run-back (next {s} r (at_near e u new rest ok eq grown w)) =
      Run-taken near_handle (for_reader e) (link_of s.far s.near s.back) (receiver_of u) rest
        (Run-back r) (step-ReceiverMoves near_handle s.near u e ok eq) w
  Run-back (next {s} r (at_far e u new rest ok eq grown w)) =
      Run-written near_handle (for_writer e) (link_of s.far s.near s.back) (sender_of u) new
        (Run-back r) (step-SenderMoves far_handle s.far u e ok eq) grown
