-- ===== src/Session/Halves.antt =====
-- The reader and the writer that a whole session owns (src/session.cpp): what their own systems say of
-- every history holds of them there.
use lib_native_streaming.Common.{◌≡◌, some, ℕ, List, sym, subst}
use lib_native_streaming.Common.Connections.{SessionArguments}
use lib_native_streaming.Reader.{ReadTask}
use lib_native_streaming.Reader.System as Receiving
use lib_native_streaming.Writer.System as Sending
use lib_native_streaming.Link.Moves.{SenderMoves, ReceiverMoves, SenderMoves-Run, ReceiverMoves-Run}
use lib_native_streaming.Session.Assembly.{Assembly, sender_of, receiver_of}
use lib_native_streaming.Session.Events.{Event, Enabled, step, Run, here, next, start}
use lib_native_streaming.Session.Sender.{for_writer, step-SenderMoves, start-sender}
use lib_native_streaming.Session.Receiver.{for_reader, step-ReceiverMoves, start-receiver}

module _ {H : Type 0} (handle : H → List ℕ → ReadTask H) (a : SessionArguments) where
  pub Run-sender :
      {s : Assembly H} → Run handle (start a) s → Sending.Run Sending.start (sender_of s)
  Run-sender here = subst (Sending.Run Sending.start) (sym (start-sender H a)) Sending.here
  Run-sender (next {t} {u} e r ok eq) =
      SenderMoves-Run (for_writer e) (step-SenderMoves handle t u e ok eq) (Run-sender r)

  Run-receiver :
      {s : Assembly H}
      → Run handle (start a) s
      → Receiving.Run handle Receiving.start (receiver_of s)
  Run-receiver here =
      subst (Receiving.Run handle Receiving.start) (sym (start-receiver a)) Receiving.here
  Run-receiver (next {t} {u} e r ok eq) =
      ReceiverMoves-Run handle (for_reader e) (step-ReceiverMoves handle t u e ok eq)
        (Run-receiver r)

-- In any history, also after the session's destruction, its writer and its reader each go through a
-- history of their own system.
pub Run-halves :
    {H : Type 0} (handle : H → List ℕ → ReadTask H) (a : SessionArguments) {s : Assembly H}
    → Run handle (start a) s
    → Sending.Run Sending.start (sender_of s) × Receiving.Run handle Receiving.start (receiver_of s)
Run-halves handle a r = (Run-sender handle a r, Run-receiver handle a r)

-- Each event of a session, in any state of it, is for its writer the one event that `for_writer` names, and
-- for its reader the one that `for_reader` names, and leaves the half as it was where none is named: the
-- first callback of `setErrorHandlers` goes to the writer and the second to the reader, in their lambdas,
-- `setWriteTimedOutHandler` and `scheduleWrite` concern the writer only, `scheduleRead` and
-- `startConnectionActivityMonitoring` the reader only, and closes, control frames, the heartbeat and
-- the destruction neither. A sequence of reads is begun only while no read is in flight.
pub step-halves :
    {H : Type 0} (handle : H → List ℕ → ReadTask H) (s u : Assembly H) (e : Event H)
    → Enabled handle s e
    → step handle s e ≡ some u
    → SenderMoves (for_writer e) (sender_of s) (sender_of u)
      × ReceiverMoves handle (for_reader e) (receiver_of s) (receiver_of u)
step-halves handle s u e ok eq =
    (step-SenderMoves handle s u e ok eq, step-ReceiverMoves handle s u e ok eq)
