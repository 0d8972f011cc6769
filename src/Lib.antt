-- ===== src/Lib.antt =====
-- libNativeStreaming: web-socket sessions between a client and a server, with asynchronous reading and
-- writing on each session. The library is callbacks on shared objects that Boost.Asio and Boost.Beast
-- drive; what they leave open, the order of completions above all, is what the theorems quantify over.
--
-- The parts, and the files that model them:
-- * include/native_streaming/async_writer.hpp, src/async_writer.cpp (`AsyncWriter`): Writer.antt has
--   its state and one function per method and per lambda, by the source's names in snake case
--   (`queueBatchWrite` is `queue_batch_write`, whose end is `push_batch`; `writeDone` is `write_done`,
--   whose branch without an error is `write_next`). Writer/System.antt has the events that reach it,
--   Writer/Branches.antt, Writer/Trace.antt and Writer/Invariant.antt the lemmas.
-- * include/native_streaming/async_reader.hpp, src/async_reader.cpp (`AsyncReader`): Reader.antt.
--   Reader/Framing.antt is the abstract view, how a sequence of tasks cuts the bytes that arrive.
--   A failed read is an event like the others.
-- * Link.antt joins a writer and a reader by the stream between them, one way.
-- * include/native_streaming/utils/base64.hpp, src/utils/base64.cpp (`Base64`): Base64.antt.
-- * include/native_streaming/authentication.hpp, src/authentication.cpp (`Authentication`):
--   Authentication.antt.
-- * include/native_streaming/client.hpp, src/client.cpp (`Client`): Client.antt. Attempts may
--   overlap, and the client may be destroyed among them.
-- * include/native_streaming/server.hpp, src/server.cpp (`Server`): Server.antt. `start` and `stop` may
--   be called again, and the server may be destroyed. Server/Credentials.antt joins the client's
--   decorator to the server's handler.
-- * Meeting.antt is a client and a server with the network between them.
-- * include/native_streaming/session.hpp, src/session.cpp (`Session`): Session.antt, on the reader's and
--   the writer's methods. Session/Assembly.antt and Session/Events.antt are a whole session: its state,
--   the systems of its two halves, and the lambdas through which they report to it. Session/Life.antt is
--   what it has in flight itself: closes, pongs and waits for its timer. Session/Handlers.antt says
--   which lambdas the halves hold for what goes wrong, Session/Sender.antt and Session/Receiver.antt
--   which event of a half each event of the session is.
-- * Connection.antt is two whole sessions, one at each end of a stream.
--
-- A client and a server each make sessions on the streams that they have upgraded
-- (Common/Connections.antt: `SessionArguments`); a session owns a reader and a writer of its stream.
--
-- How the code is read. A method is a function of the object's state in a small monad
-- (Common/Effects.antt): it gives the new state and the list of its effects, in order, and `none` where
-- the code has no defined result. Effects are the calls of Boost (started operations, timers), of the
-- user's callbacks, and the log lines of a release build; asserts and the two lower log levels are
-- empty there. Callbacks, streams and timers go by numbers, buffers by their bytes; a callback that has
-- a default is an `Option`. Each component's System has the operations in flight and a step for each
-- event; `Run` is its histories. A handler runs to its end before the next one, as the strands and a
-- single thread of the io_context have it, and the lambdas that a session posts run in the order in which
-- they were posted; the writer's deadline timer is not wrapped in the strand, and is read as if it were.
-- The histories with a reader in them are orderly: a sequence of reads is begun only while no read is in
-- flight, and the lambda that `scheduleRead` posts runs before the next call of it, so that the two are
-- one event. The source neither asks for this nor checks it: Reader/Overlap.antt is about a call that does
-- not keep to it, and about setters that come between the call and the lambda. An empty callback of
-- `setErrorHandlers` is `none`; its call, which throws, is an effect. The callback that authenticates a
-- client may answer differently from call to call: it is a function of the stream and the credentials, and
-- is called once at most for each stream.
--
-- Third-party code is a parameter: Boost's base64 codec (`Codec`, `CodecLaws`), `boost::split`
-- (`StringAlgorithm`, `StringLaws`), the parser of HTTP (`HttpRead`, and `Parser` of
-- Server/Leftover.antt), the user's callbacks. The laws are
-- those of Boost's documentation; Base64/Rfc4648.antt and Authentication/Tests.antt show that they can
-- hold.
--
-- Fuel: only `doRead` and `readDone` call one another without a bound that the text shows. Reader.antt
-- runs them on fuel; the bytes in the buffer, with one more at the start of a sequence, are enough,
-- because every round takes at least one byte when the handlers ask for bytes.
--
-- Not modelled: the body of src/logging.cpp, which passes its arguments on, and the two functions of
-- src/utils/boost_compatibility_utils.cpp that nothing here calls; the tests; the lifetime of objects,
-- beyond whether a weak pointer still locks; sizes beyond `size_t`, since each size is that of a buffer
-- in memory. In `Server::start` an acceptor counts as open once its whole half has succeeded: nothing
-- runs between its `open` and the `close` that undoes it.
pub mod Common
pub mod Writer
pub mod Reader
pub mod Link
pub mod Base64
pub mod Authentication
pub mod Client
pub mod Server
pub mod Session
pub mod Connection
pub mod Meeting
