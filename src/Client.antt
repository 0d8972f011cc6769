-- ===== src/Client.antt =====
-- include/native_streaming/client.hpp and src/client.cpp: the state of `Client` and its handlers. The
-- resolver, the timer and the streams are Boost's: what the client asks of them is an effect, and what
-- they answer is an argument of the handler.
pub mod System
pub mod Steps
pub mod Outcomes
pub mod Opened
pub mod Timeout
pub mod Destroyed
pub mod Overlap
mod Tests
use lib_native_streaming.Common.{
  ℕ, suc, Bool, true, false, Option, none, some, List, [], ◌∷◌, ◌++◌, if◌then◌else◌,
}
use lib_native_streaming.Common.Bytes.{codes}
use lib_native_streaming.Common.Errors.{ErrorCode, is_error, is_aborted, LogLevel, err, info}
use lib_native_streaming.Common.Effects.{M, ◌>>=◌, ◌>>◌, get, modify, emit, skip}
use lib_native_streaming.Common.Results.{Result, returned}
use lib_native_streaming.Common.Results
use lib_native_streaming.Common.Connections.{
  RoleType, client, Endpoint, SessionArguments, HttpFields,
}
use lib_native_streaming.Base64.{Codec}
use lib_native_streaming.Authentication.{
  AuthenticationType, anonymous, basic, Authentication, get_type, get_encoded_header,
}

-- `websocket_stream` names the stream of the attempt, if there is one; `next_stream` names the next
-- stream that is made. The four callbacks are fixed by the constructor.
pub record Client : Type 0 where
  pub host : List ℕ
  pub port : List ℕ
  pub path : List ℕ
  pub authentication : Authentication
  pub websocket_stream : Option ℕ
  pub next_stream : ℕ

pub data Effect : Type 0 where
  -- `connectionTimeoutTimer`: `cancel`, and `expires_after` with `async_wait`.
  cancel_timer : Effect
  start_timer : ℕ → Effect
  -- `resolver`.
  async_resolve : List ℕ → List ℕ → Effect
  cancel_resolver : Effect
  -- A stream: `write_buffer_bytes`, `read_message_max`, `async_connect`, `set_option` with the
  -- decorator of requests, `async_handshake`, and `next_layer().cancel()`.
  write_buffer_bytes : ℕ → ℕ → Effect
  read_message_max : ℕ → ℕ → Effect
  async_connect : ℕ → Effect
  set_decorator : ℕ → Authentication → Effect
  async_handshake : ℕ → List ℕ → List ℕ → Effect
  cancel_stream : ℕ → Effect
  -- The callbacks.
  call_new_session : SessionArguments → Effect
  call_resolve_fail : ErrorCode → Effect
  call_connect_fail : ErrorCode → Effect
  call_handshake_fail : ErrorCode → Effect
  log : LogLevel → Effect

abbrev pub Action : Type 0 → Type 0
Action = M Client Effect

-- The constructor.
unfoldable pub new_client : List ℕ → List ℕ → List ℕ → Authentication → Client
new_client host port path authentication = record {
  host = host;
  port = port;
  path = path;
  authentication = authentication;
  websocket_stream = none;
  next_stream = 0;
}

unfoldable pub connect : ℕ → Action (Unit {0})
connect timeout = do
  c ← get
  emit (log info)
  emit cancel_timer
  emit (start_timer timeout)
  emit (async_resolve c.host c.port)

abbrev pub cancel_stream_of : Option ℕ → Action (Unit {0})
cancel_stream_of none = skip
cancel_stream_of (some stream) = emit (cancel_stream stream)

unfoldable pub on_connection_timeout : ErrorCode → Action (Unit {0})
on_connection_timeout ec = if is_error ec then skip else do
  c ← get
  emit cancel_resolver
  cancel_stream_of c.websocket_stream
  modify λ d. record d { websocket_stream = none }

-- The log at level `trace` of a cancelled operation is empty under NDEBUG.
abbrev pub log_failure : ErrorCode → Action (Unit {0})
log_failure ec = if is_aborted ec then skip else emit (log err)

-- 256 MB.
abbrev pub max_message : ℕ
max_message = 0x10000000

unfoldable pub on_resolve : ErrorCode → Action (Unit {0})
on_resolve ec =
    if is_error ec then (do emit cancel_timer; log_failure ec; emit (call_resolve_fail ec)) else do
      c ← get
      modify
          λ d. record d { websocket_stream = some d.next_stream; next_stream = suc d.next_stream }
      emit (write_buffer_bytes c.next_stream 65536)
      emit (read_message_max c.next_stream max_message)
      emit (async_connect c.next_stream)

-- `boost_compatibility_utils::async_handshake`, which passes its arguments on to the stream.
abbrev pub boost_async_handshake : ℕ → List ℕ → List ℕ → Action (Unit {0})
boost_async_handshake stream host target = emit (async_handshake stream host target)

unfoldable pub on_connect : ErrorCode → ℕ → Action (Unit {0})
on_connect ec stream =
    if is_error ec then (do emit cancel_timer; log_failure ec; emit (call_connect_fail ec)) else do
      c ← get
      emit (set_decorator stream c.authentication)
      boost_async_handshake stream c.host c.path

unfoldable pub create_session : ℕ → Endpoint → Action SessionArguments
create_session stream endpoint = do
  modify λ d. record d { websocket_stream = none }
  λ d.
      some
        (record { stream = stream; user_context = none; role = client; endpoint = endpoint }, d, [])

-- `none` for the endpoint is that `remote_endpoint` throws.
abbrev pub open_session : ℕ → Option Endpoint → Action (Unit {0})
open_session stream none = emit (log err)
open_session stream (some endpoint) = do
  session ← create_session stream endpoint
  emit (call_new_session session)

unfoldable pub on_upgrade_connection : ErrorCode → ℕ → Option Endpoint → Action (Unit {0})
unfolding create_session
on_upgrade_connection ec stream endpoint = do
  emit cancel_timer
  if is_error ec
      then (if is_aborted ec
          then emit (call_connect_fail ec)
          else (do emit (log err); emit (call_handshake_fail ec)))
      else open_session stream endpoint

-- `authentication.getType() != AuthenticationType::Anonymous`.
abbrev pub is_anonymous : AuthenticationType → Bool
is_anonymous anonymous = true
is_anonymous basic = false

-- The decorator that `onConnect` sets; `version` is BOOST_BEAST_VERSION_STRING.
unfoldable pub decorate_request : Codec → List ℕ → Authentication → HttpFields → Result HttpFields
decorate_request codec version authentication req =
    let req' : HttpFields = record req {
      agent = some (version ++ codes " openDAQ-streaming-client");
    } in
    if is_anonymous (get_type authentication)
    then returned req'
    else Results.◌>>=◌ (get_encoded_header codec authentication)
        λ header. returned (record req' { authorization = some header })

-- The lambdas that are given to the timer, the resolver and the streams: `weak_self.lock()` gives the
-- client only while it is there.
abbrev pub if_alive : Bool → Action (Unit {0}) → Action (Unit {0})
if_alive true handler = handler
if_alive false handler = skip

-- The destructor.
unfoldable pub destroy : Action (Unit {0})
destroy = do emit cancel_timer; emit (log info)
