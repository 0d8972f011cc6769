-- ===== src/Server/Samples.antt =====
-- A server that listens on one acceptor and reads the request of one client: sample states of
-- `Server` (src/server.cpp).
use lib_native_streaming.Common.{true, Option, none, some, List, [], ◌∷◌}
use lib_native_streaming.Common.Bytes.{codes}
use lib_native_streaming.Common.Errors.{ErrorCode, success, failure}
use lib_native_streaming.Common.Connections.{Endpoint, HttpFields}
use lib_native_streaming.Base64.Rfc4648.{codec}
use lib_native_streaming.Base64
use lib_native_streaming.Authentication.{from_header}
use lib_native_streaming.Authentication.Tests.{classic}
use lib_native_streaming.Server.{
  v4, Server, Effect, Setup, new_server, start, Authenticate, HttpRead, on_accept_tcp_connection,
  on_request_read,
}
use lib_native_streaming.Server.System.{System, accepts, after, aborted_only, idle}

abbrev pub good : Setup
good = record {
  open_result = success;
  v6_only_result = success;
  reuse_address_result = success;
  bind_result = success;
  listen_result = success;
}

abbrev pub taken : Setup
taken = record good { bind_result = failure 98 }

-- The callback knows everyone, and names the user 7.
abbrev pub known : Authenticate
known stream auth = (true, some 7)

abbrev pub request : HttpFields
request = record { agent = none; authorization = some (codes "Basic anVyZTpqdXJlMTIz") }

abbrev pub arrival : HttpRead
arrival = record { result = success; request = request; rest = [] }

abbrev pub peer : Endpoint
peer = record { address = codes "10.0.0.1"; port = 50000 }

abbrev pub of :
    {A : Type 0}
    → A × Server × List Effect
    → Option (A × Server × List Effect)
    → A × Server × List Effect
of d none = d
of d (some r) = r

unfoldable pub begun : ErrorCode × Server × List Effect
unfolding start new_server
begun = of (success, new_server, []) (start good taken new_server)

unfoldable pub s0 : System
unfolding begun
s0 = after (record idle { starts = accepts begun.2 }) begun

abbrev pub nothing : Server → Unit {0} × Server × List Effect
nothing s = (tt, s, [])

unfoldable pub r1 : Unit {0} × Server × List Effect
unfolding on_accept_tcp_connection s0
r1 = of (nothing s0.server) (on_accept_tcp_connection v4 success s0.next_stream s0.server)

unfoldable pub s1 : System
unfolding r1
s1 = after (record s0 { accepting = []; next_stream = 1; ended = aborted_only success v4 }) r1

unfoldable pub r2 : Unit {0} × Server × List Effect
unfolding on_request_read s1 from_header codec classic Base64.decode
r2 = of (nothing s1.server) (on_request_read classic codec known v4 0 arrival s1.server)

unfoldable pub s2 : System
unfolding r2
s2 = after (record s1 { reading = []; requests = (0, request) ∷ [] }) r2
