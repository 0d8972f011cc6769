-- ===== src/Server.antt =====
-- include/native_streaming/server.hpp and src/server.cpp: the state of `Server` and its handlers. The
-- two acceptors, the streams and the HTTP parser are Boost's: what the server asks of them is an
-- effect, and what they answer is an argument. The callback that authenticates is the user's, a
-- parameter.
pub mod Start
pub mod System
pub mod Handlers
pub mod Endings
pub mod Counting
pub mod Chains
pub mod Accepting
pub mod Sessions
pub mod Leftover
pub mod Credentials
pub mod Samples
mod Tests
use lib_native_streaming.Common.{
  ℕ, Bool, true, false, Option, none, some, List, [], ◌∷◌, ◌++◌, if◌then◌else◌,
}
use lib_native_streaming.Common.Bytes.{codes}
use lib_native_streaming.Common.Errors.{
  ErrorCode, success, is_error, is_aborted, LogLevel, err, warn, info,
}
use lib_native_streaming.Common.Effects.{M, ◌>>=◌, ◌>>◌, get, modify, emit, skip, undefined}
use lib_native_streaming.Common.Results.{Result, returned, thrown, undefined as no_result}
use lib_native_streaming.Common.Connections.{server, Endpoint, SessionArguments, HttpFields}
use lib_native_streaming.Base64.{Codec}
use lib_native_streaming.Authentication.{
  Authentication, no_authentication, StringAlgorithm, from_header,
}

-- `tcpAcceptorV4` and `tcpAcceptorV6`.
pub data Acceptor : Type 0 where
  v4 v6 : Acceptor

-- Whether each acceptor is open, and the buffer and the request that all connections share.
pub record Server : Type 0 where
  pub v4_open : Bool
  pub v6_open : Bool
  pub accept_buffer : List ℕ
  pub accept_request : HttpFields

pub data Effect : Type 0 where
  -- `async_accept` and `close` of an acceptor.
  async_accept : Acceptor → Effect
  close : Acceptor → Effect
  -- A stream: `write_buffer_bytes`, `read_message_max`, `http::async_read` for an acceptor's
  -- connection, `set_option` with the decorator of responses, and `async_accept` of the upgrade, with
  -- the request and the user context that its handler captures.
  write_buffer_bytes : ℕ → ℕ → Effect
  read_message_max : ℕ → ℕ → Effect
  async_read_request : Acceptor → ℕ → Effect
  set_decorator : ℕ → Effect
  async_upgrade : ℕ → HttpFields → Option ℕ → Effect
  -- The callbacks.
  call_authenticate : Authentication → Effect
  call_new_session : SessionArguments → Effect
  log : LogLevel → Effect

abbrev pub Action : Type 0 → Type 0
Action = M Server Effect

abbrev pub no_fields : HttpFields
no_fields = record { agent = none; authorization = none }

unfoldable pub new_server : Server
new_server = record {
  v4_open = false;
  v6_open = false;
  accept_buffer = [];
  accept_request = no_fields;
}

abbrev pub is_open : Acceptor → Server → Bool
is_open v4 s = s.v4_open
is_open v6 s = s.v6_open

abbrev pub set_open : Acceptor → Bool → Server → Server
set_open v4 b s = record s { v4_open = b }
set_open v6 b s = record s { v6_open = b }

unfoldable pub start_tcp_accept : Acceptor → Action (Unit {0})
start_tcp_accept a = do s ← get; if is_open a s then emit (async_accept a) else skip

unfoldable pub stop_tcp_accept : Acceptor → Action (Unit {0})
stop_tcp_accept a = do
  s ← get
  if is_open a s then (do modify (set_open a false); emit (close a)) else skip

unfoldable pub stop : Action (Unit {0})
unfolding stop_tcp_accept
stop = do stop_tcp_accept v4; stop_tcp_accept v6

-- The destructor.
unfoldable pub destroy : Action (Unit {0})
unfolding stop
destroy = stop

-- What the system answers to the calls that set an acceptor up: `open`, and those in the `try`, each
-- of which throws its error: `set_option` (for V6 twice), `bind`, `listen`.
pub record Setup : Type 0 where
  pub open_result : ErrorCode
  pub v6_only_result : ErrorCode
  pub reuse_address_result : ErrorCode
  pub bind_result : ErrorCode
  pub listen_result : ErrorCode

-- The error of the first call of the `try` that throws.
abbrev pub first_error : List ErrorCode → ErrorCode
first_error [] = success
first_error (e ∷ es) = if is_error e then e else first_error es

abbrev pub try_results : Acceptor → Setup → List ErrorCode
try_results v4 o = o.reuse_address_result ∷ o.bind_result ∷ o.listen_result ∷ []
try_results v6 o = o.v6_only_result ∷ o.reuse_address_result ∷ o.bind_result ∷ o.listen_result ∷ []

-- One half of `start`: the error code that it leaves, which is unset if the acceptor listens.
unfoldable pub start_acceptor : Acceptor → Setup → Action ErrorCode
unfolding start_tcp_accept
start_acceptor a o =
    if is_error o.open_result
    then (do emit (log warn); λ s. some (o.open_result, s, []))
    else if is_error (first_error (try_results a o))
    then (do emit (log warn); emit (close a); λ s. some (first_error (try_results a o), s, []))
    else do modify (set_open a true); start_tcp_accept a; λ s. some (success, s, [])

-- `hasTcpAcceptor`, and `ec` after the second half: that of V6, whose `open` overwrites V4's.
abbrev pub start_result : ErrorCode → ErrorCode → Action ErrorCode
start_result e4 e6 =
    if is_error e4
    then (if is_error e6 then (do emit (log err); λ s. some (e6, s, [])) else λ s.
        some (success, s, []))
    else λ s. some (success, s, [])

unfoldable pub start : Setup → Setup → Action ErrorCode
unfolding start_acceptor
start o4 o6 = do e4 ← start_acceptor v4 o4; e6 ← start_acceptor v6 o6; start_result e4 e6

-- 256 MB.
abbrev pub max_message : ℕ
max_message = 0x10000000

-- `stream` names the web-socket stream made of the accepted socket.
unfoldable pub on_accept_tcp_connection : Acceptor → ErrorCode → ℕ → Action (Unit {0})
unfolding start_tcp_accept
on_accept_tcp_connection a ec stream =
    if is_error ec
    then (if is_aborted ec then skip else do emit (log err); start_tcp_accept a)
    else do
      emit (write_buffer_bytes stream 65536)
      emit (read_message_max stream max_message)
      emit (async_read_request a stream)

-- What `http::async_read` makes of the bytes in the buffer and of those that the connection sends: an
-- error code, the fields of the request, and the bytes behind the request, which stay in the buffer.
pub record HttpRead : Type 0 where
  pub result : ErrorCode
  pub request : HttpFields
  pub rest : List ℕ

-- `catch (...)` keeps the default, which is anonymous.
abbrev pub or_anonymous : Result Authentication → Action Authentication
or_anonymous (returned auth) s = some (auth, s, [])
or_anonymous (thrown e) s = some (no_authentication, s, log warn ∷ [])
or_anonymous no_result s = none

module _ (sa : StringAlgorithm) (codec : Codec) where
  -- `request.count(authorization)`, and `fromHeader`.
  abbrev pub authentication_of : Option (List ℕ) → Action Authentication
  authentication_of none s = some (no_authentication, s, [])
  authentication_of (some header) s = or_anonymous (from_header sa codec header) s

-- The user's `OnAuthenticateCallback`: whether it accepts, and the user context that it gives. It may
-- answer differently from call to call: it is called once at most for each stream, which the number names.
abbrev pub Authenticate : Type 0
Authenticate = ℕ → Authentication → Bool × Option ℕ

-- The decorator of responses, on the field that it sets; `version` is BOOST_BEAST_VERSION_STRING.
pub record ResponseFields : Type 0 where
  pub server_agent : Option (List ℕ)

unfoldable pub decorate_response : List ℕ → ResponseFields → ResponseFields
decorate_response version res = record res {
  server_agent = some (version ++ codes " openDAQ-streaming-server");
}

-- `boost_compatibility_utils::async_accept` of a request, which passes its arguments on to the stream;
-- the handler that it is given captures the user context.
abbrev pub boost_async_accept : ℕ → HttpFields → Option ℕ → Action (Unit {0})
boost_async_accept stream request user_context = emit (async_upgrade stream request user_context)

module _ (sa : StringAlgorithm) (codec : Codec) (authenticate : Authenticate) where
  unfoldable pub on_read_accept_request : ErrorCode → ℕ → HttpFields → Action (Unit {0})
  on_read_accept_request ec stream request = if is_error ec then emit (log err) else do
    auth ← authentication_of sa codec request.authorization
    emit (call_authenticate auth)
    if (authenticate stream auth).0
        then (do
          emit (set_decorator stream)
          boost_async_accept stream request (authenticate stream auth).1)
        else emit (log info)

  -- The handler of `http::async_read`: the read has put `r.rest` and `r.request` into the members.
  unfoldable pub on_request_read : Acceptor → ℕ → HttpRead → Action (Unit {0})
  unfolding on_read_accept_request start_tcp_accept
  on_request_read a stream r = do
    modify λ s. record s { accept_buffer = r.rest; accept_request = r.request }
    s ← get
    on_read_accept_request r.result stream s.accept_request
    start_tcp_accept a

-- `open` is whether the stream and its socket are open; the endpoint is `none` if its getter throws.
unfoldable pub on_upgrade_connection :
    ErrorCode → ℕ → Option ℕ → Bool → Option Endpoint → Action (Unit {0})
on_upgrade_connection ec stream user_context is_live none =
    if is_error ec then emit (log err) else emit (log warn)
on_upgrade_connection ec stream user_context is_live (some endpoint) =
    if is_error ec
    then emit (log err)
    else if is_live
    then (do
      emit (log info)
      emit (
          call_new_session (record {
            stream = stream;
            user_context = user_context;
            role = server;
            endpoint = endpoint;
          })))
    else emit (log warn)
