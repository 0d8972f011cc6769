-- ===== src/Session.antt =====
-- include/native_streaming/session.hpp and src/session.cpp: the state of `Session` and its methods. A
-- session owns an `AsyncReader` and an `AsyncWriter`, whose models it uses, and a heartbeat timer. The
-- stream is Boost's; `alive` is whether `weak_self.lock()` gives the session in a handler, and `is_open`
-- what `wsStream->is_open()` returns there.
pub mod Closing
pub mod Life
pub mod Assembly
pub mod Events
pub mod Notices
pub mod Lambdas
pub mod Sender
pub mod Receiver
pub mod Halves
pub mod Handlers
pub mod Posting
pub mod Requests
pub mod Lifetime
pub mod Lives
pub mod Beats
pub mod Reports
mod Tests
use lib_native_streaming.Common.{
  ℕ, zero, suc, Bool, true, false, Option, none, some, List, [], ◌∷◌, ◌++◌, map, if◌then◌else◌,
}
use lib_native_streaming.Common.Bytes.{codes}
use lib_native_streaming.Common.Errors.{ErrorCode, success, is_error, LogLevel, err}
use lib_native_streaming.Common.Effects.{M, ◌>>=◌, ◌>>◌, get, modify, emit, skip}
use lib_native_streaming.Common.Connections.{RoleType, client, server, Endpoint, SessionArguments}
use lib_native_streaming.Reader.{AsyncReader, ReadTask, new_reader}
use lib_native_streaming.Reader
use lib_native_streaming.Writer.{AsyncWriter, BatchedWriteTasks, OptionalWriteDeadline, new_writer}
use lib_native_streaming.Writer

-- `stream` names the web-socket stream, and `heartbeat_period` counts milliseconds.
pub record Session (H : Type 0) : Type 0 where
  pub role : RoleType
  pub reader : AsyncReader H
  pub writer : AsyncWriter
  pub stream : ℕ
  pub user_context : Option ℕ
  pub connection_alive_callback : Option ℕ
  pub heartbeat_period : ℕ
  pub endpoint : Endpoint

-- `boost::beast::websocket::frame_type` of control frames.
pub data FrameType : Type 0 where
  close ping pong : FrameType

pub data Effect (H : Type 0) : Type 0 where
  -- What the two halves do.
  of_reader : Reader.Effect H → Effect H
  of_writer : Writer.Effect → Effect H
  -- The stream: `expires_never`, `binary(true)`, the suggested timeouts of a role with a handshake
  -- timeout in milliseconds, `async_close`, `async_pong`, `control_callback`, `next_layer().cancel()`.
  expires_never : Effect H
  binary : Effect H
  set_timeout : RoleType → ℕ → Effect H
  async_close : Option ℕ → Effect H
  async_pong : List ℕ → Effect H
  set_control_callback : Effect H
  cancel_stream : Effect H
  -- The heartbeat timer: `expires_after`, `async_wait`, `cancel`.
  expires_after : ℕ → Effect H
  async_wait : Effect H
  cancel_timer : Effect H
  -- The callbacks: closed, an error (whose message it is given), a write that timed out, alive.
  call_closed : Option ℕ → ErrorCode → Effect H
  -- `none` is an empty `std::function`, whose call throws `bad_function_call` out of the completion
  -- handler; nothing follows it there.
  call_session_error : Option ℕ → ErrorCode → Effect H
  call_timed_out : Option ℕ → Effect H
  call_connection_alive : Option ℕ → Effect H
  log : LogLevel → Effect H

abbrev pub Action : Type 0 → Type 0 → Type 0
Action H = M (Session H) (Effect H)

-- `defaultHeartbeatPeriod`.
abbrev pub default_heartbeat_period : ℕ
default_heartbeat_period = 1000

abbrev pub role_name : RoleType → List ℕ
role_name server = codes "server"
role_name client = codes "client"

-- The number of the lambda around a callback, the first one for the lambda around an empty one, and the
-- callback that a lambda is around.
abbrev pub wrapper : Option ℕ → ℕ
wrapper none = 0
wrapper (some cb) = suc cb

abbrev pub wrapped : ℕ → Option ℕ
wrapped zero = none
wrapped (suc cb) = some cb

abbrev pub is_pong : FrameType → Bool
is_pong close = false
is_pong ping = false
is_pong pong = true

module _ {H : Type 0} where
  -- A call of a method of the writer or the reader.
  abbrev pub with_writer : M AsyncWriter Writer.Effect (Unit {0}) → Action H (Unit {0})
  with_writer m s = elim (m s.writer) [
    | none ↦ none
    | some r ↦ some (tt, record s { writer = r.1 }, map of_writer r.2)
  ]

  abbrev pub with_reader : M (AsyncReader H) (Reader.Effect H) (Unit {0}) → Action H (Unit {0})
  with_reader m s = elim (m s.reader) [
    | none ↦ none
    | some r ↦ some (tt, record s { reader = r.1 }, map of_reader r.2)
  ]

  unfoldable pub set_options : Action H (Unit {0})
  set_options = do s ← get; emit expires_never; emit binary; emit (set_timeout s.role 3000)

  -- The constructor: the session before `setOptions()` in its body.
  unfoldable pub new_session : SessionArguments → Session H
  unfolding new_reader new_writer
  new_session a = record {
    role = a.role;
    reader = new_reader;
    writer = new_writer;
    stream = a.stream;
    user_context = a.user_context;
    connection_alive_callback = none;
    heartbeat_period = default_heartbeat_period;
    endpoint = a.endpoint;
  }

  unfoldable pub construct : SessionArguments → Option (Unit {0} × Session H × List (Effect H))
  unfolding set_options new_session
  construct a = set_options (new_session a)

  -- The getters.
  abbrev pub get_user_context : Session H → Option ℕ
  get_user_context s = s.user_context

  abbrev pub get_endpoint_address : Session H → List ℕ
  get_endpoint_address s = s.endpoint.address

  abbrev pub get_endpoint_port_number : Session H → ℕ
  get_endpoint_port_number s = s.endpoint.port

  -- The destructor.
  unfoldable pub destroy : Action H (Unit {0})
  destroy = do emit cancel_timer; emit cancel_stream

  -- `none` is the default callback, which does nothing.
  unfoldable pub close_session : Option ℕ → Action H (Unit {0})
  close_session on_closed = emit (async_close on_closed)

  -- The handler of `async_close`.
  unfoldable pub on_close : Option ℕ → Bool → Bool → ErrorCode → Action H (Unit {0})
  on_close on_closed alive is_open ec =
      if alive
      then (if is_open
          then (do emit (log err); emit (call_closed on_closed ec))
          else emit (call_closed on_closed success))
      else emit (call_closed on_closed success)

  -- The lambdas that the halves are given wrap callbacks of the user, which may be empty.
  unfoldable pub set_error_handlers : Option ℕ → Option ℕ → Action H (Unit {0})
  unfolding Writer.set_error_handler Reader.set_error_handler
  set_error_handlers on_write_error on_read_error = do
    with_writer (Writer.set_error_handler (wrapper on_write_error))
    with_reader (Reader.set_error_handler (wrapper on_read_error))

  unfoldable pub on_half_error : Option ℕ → Bool → ErrorCode → Action H (Unit {0})
  on_half_error callback alive ec = if alive then emit (call_session_error callback ec) else skip

  unfoldable pub schedule_read : ReadTask H → Action H (Unit {0})
  unfolding Reader.schedule_read
  schedule_read entry_task = with_reader (Reader.schedule_read entry_task)

  unfoldable pub schedule_write : BatchedWriteTasks → OptionalWriteDeadline → Action H (Unit {0})
  unfolding Writer.schedule_write
  schedule_write tasks deadline = with_writer (Writer.schedule_write tasks deadline)

  unfoldable pub restart_heartbeat_timer : Action H (Unit {0})
  restart_heartbeat_timer = do s ← get; emit (expires_after s.heartbeat_period); emit async_wait

  unfoldable pub schedule_pong : Bool → Action H (Unit {0})
  schedule_pong is_open = do
    s ← get
    if is_open then emit (async_pong (codes "ping from " ++ role_name s.role)) else skip

  -- The handler of the heartbeat timer.
  unfoldable pub on_heartbeat : ErrorCode → Bool → Bool → Action H (Unit {0})
  unfolding schedule_pong
  on_heartbeat ec alive is_open =
      if is_error ec then skip else if alive then schedule_pong is_open else skip

  -- The handler of `async_pong`.
  unfoldable pub on_pong : ErrorCode → Bool → Action H (Unit {0})
  unfolding restart_heartbeat_timer
  on_pong ec alive = if is_error ec then skip else if alive then restart_heartbeat_timer else skip

  unfoldable pub start_connection_activity_monitoring : ℕ → ℕ → Bool → Action H (Unit {0})
  unfolding Reader.set_connection_alive_handler schedule_pong
  start_connection_activity_monitoring callback period is_open = do
    modify λ s. record s { connection_alive_callback = some callback; heartbeat_period = period }
    with_reader (Reader.set_connection_alive_handler callback)
    emit set_control_callback
    schedule_pong is_open

  -- The control callback of the stream.
  unfoldable pub on_control : Bool → FrameType → Action H (Unit {0})
  on_control alive kind = do
    s ← get
    if alive
        then (if is_pong kind
            then emit (call_connection_alive s.connection_alive_callback)
            else skip)
        else skip

  unfoldable pub set_write_timed_out_handler : Option ℕ → Action H (Unit {0})
  unfolding Writer.set_write_timed_out_handler
  set_write_timed_out_handler callback =
      with_writer (Writer.set_write_timed_out_handler (wrapper callback))

  unfoldable pub on_write_timed_out : Option ℕ → Bool → Action H (Unit {0})
  on_write_timed_out callback alive = if alive then emit (call_timed_out callback) else skip
