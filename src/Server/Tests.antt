-- ===== src/Server/Tests.antt =====
-- A server that listens on one acceptor and lets one client in, and what the theorems say of it.
use lib_native_streaming.Common.{
  zero, suc, ◌+◌, ◌≤◌, ◌≡◌, refl, true, false, not, ◌&&◌, none, some, List, [], ◌∷◌, ◌++◌, arith,
}
use lib_native_streaming.Common.Bytes.{codes, All}
use lib_native_streaming.Common.Errors.{ErrorCode, success, failure, is_error}
use lib_native_streaming.Base64.Rfc4648.{codec, codec-CodecLaws}
use lib_native_streaming.Base64
use lib_native_streaming.Authentication.{from_header}
use lib_native_streaming.Authentication.Tests.{classic, classic-StringLaws, jure}
use lib_native_streaming.Server.{
  v4, v6, decorate_response, Server, Effect, no_fields, new_server, is_open, start, stop, destroy,
  HttpRead, on_accept_tcp_connection, on_request_read, on_upgrade_connection,
}
use lib_native_streaming.Server.Samples.{
  good, taken, known, request, arrival, peer, of, nothing, begun, s1, s2, r1, r2,
}
use lib_native_streaming.Server.Start.{usable, to_nat, start-listens}
use lib_native_streaming.Server.System.{
  System, accepts, reads, upgrades, opened, after, count, accepted, request_read, upgraded, started,
  stopped, handled, destroyed, Run, made, next,
}
use lib_native_streaming.Server.Counting.{in_flight}
use lib_native_streaming.Server.Accepting.{Run-accepts}
use lib_native_streaming.Server.Sessions.{Granted, Run-granted}
use lib_native_streaming.Server.Leftover.{Parser, read_request, upgrades_of, leftover_request}
use lib_native_streaming.Server.Credentials.{Asks, credentials_arrive}

start-listens_example :
    (r : ErrorCode × Server × List Effect) × (start good taken new_server ≡ some r)
    × (is_error r.0 ≡ (not (usable v4 good) && not (usable v6 taken)))
    × ((r.1.v4_open ≡ usable v4 good) × (r.1.v6_open ≡ usable v6 taken))
    × ((count v4 (accepts r.2) ≡ to_nat (usable v4 good))
        × (count v6 (accepts r.2) ≡ to_nat (usable v6 taken)))
    × ((reads r.2 ≡ []) × (upgrades r.2 ≡ []) × (opened r.2 ≡ []))
start-listens_example = start-listens good taken

taken_fails : (usable v4 good ≡ true) × (usable v6 taken ≡ false)
taken_fails = (refl, refl)

r3 : Unit {0} × Server × List Effect
unfolding on_upgrade_connection s2
r3 = of (nothing s2.server) (on_upgrade_connection success 0 (some 7) true (some peer) s2.server)

s3 : System
unfolding r3
s3 = after (record s2 { upgrading = [] }) r3

one_client-Run : Run classic codec known s3
unfolding s3 begun new_server
one_client-Run =
    next
      (next
        (next
          (next made
            (handled refl (started good taken begun (λ h. absurd cc) (λ h. absurd cc) refl)))
          (handled refl (accepted v4 success [] [] r1 refl refl)))
        (handled refl (request_read v4 0 arrival [] [] r2 refl refl)))
      (handled refl (upgraded success 0 (some 7) true (some peer) [] [] r3 refl refl))

-- The server is stopped and started again while the client's request is read: the acceptor then has two
-- operations in flight, and accepts two connections at once when the request has come.
r4 : Unit {0} × Server × List Effect
unfolding stop s1
r4 = of (nothing s1.server) (stop s1.server)

s4 : System
unfolding r4
s4 = after s1 r4

r5 : ErrorCode × Server × List Effect
unfolding start s4
r5 = of (success, s4.server, []) (start good taken s4.server)

s5 : System
unfolding r5
s5 = after (record s4 { starts = s4.starts ++ accepts r5.2 }) r5

r6 : Unit {0} × Server × List Effect
unfolding on_request_read s5 from_header codec classic Base64.decode
r6 = of (nothing s5.server) (on_request_read classic codec known v4 0 arrival s5.server)

s6 : System
unfolding r6
s6 = after (record s5 { reading = []; requests = (0, request) ∷ [] }) r6

restarted-Run : Run classic codec known s6
unfolding s6 begun new_server
restarted-Run =
    next
      (next
        (next
          (next
            (next made
              (handled refl (started good taken begun (λ h. absurd cc) (λ h. absurd cc) refl)))
            (handled refl (accepted v4 success [] [] r1 refl refl)))
          (handled refl (stopped r4 refl)))
        (handled refl (started good taken r5 (λ h. absurd cc) (λ h. absurd cc) refl)))
      (handled refl (request_read v4 0 arrival [] [] r6 refl refl))

restarted_twice : (s6.accepting ≡ v4 ∷ v4 ∷ []) × (count v4 s6.starts ≡ 2)
unfolding s6
restarted_twice = (refl, refl)

-- The server is destroyed while the client's request is read: the read goes on, into members that are
-- gone.
r7 : Unit {0} × Server × List Effect
unfolding destroy s1
r7 = of (nothing s1.server) (destroy s1.server)

s7 : System
unfolding r7
s7 = after (record s1 { alive = false }) r7

destroyed-Run : Run classic codec known s7
unfolding s7 begun new_server
destroyed-Run =
    next
      (next
        (next made (handled refl (started good taken begun (λ h. absurd cc) (λ h. absurd cc) refl)))
        (handled refl (accepted v4 success [] [] r1 refl refl)))
      (destroyed r7 refl refl)

still_reading : (s7.alive ≡ false) × (s7.reading ≡ (v4, 0) ∷ [])
unfolding s7
still_reading = (refl, refl)

response_named :
    decorate_response (codes "Beast") (record { server_agent = none })
    ≡ record { server_agent = some (codes "Beast openDAQ-streaming-server") }
unfolding decorate_response
response_named = refl

Run-accepts_example :
    (in_flight v4 s6 + count v4 s6.ended ≤ count v4 s6.starts)
    × (is_open v4 s6.server ≡ true → 1 ≤ in_flight v4 s6 + count v4 s6.ended)
Run-accepts_example = Run-accepts classic codec known v4 restarted-Run

Run-granted_example :
    All (λ x. Granted classic codec known s3.requests x.stream x.user_context) s3.sessions
Run-granted_example = Run-granted classic codec known one_client-Run

credentials_arrive_example : Asks classic codec known (codes "Beast") 0 no_fields new_server jure
credentials_arrive_example =
    credentials_arrive classic codec known classic-StringLaws codec-CodecLaws (codes "Beast") 0
      no_fields new_server (codes "jure") (codes "jure123") (omega arith) (omega arith) refl refl

-- A parser of one-byte requests: a null byte is a request with the header of `request`.
abbrev parse : Parser
parse [] = none
parse (zero ∷ ys) = some (request, ys)
parse (suc n ∷ ys) = some (no_fields, ys)

abbrev first : HttpRead
first = record { result = success; request = no_fields; rest = 0 ∷ 4 ∷ [] }

l1 : Unit {0} × Server × List Effect
unfolding on_request_read new_server
l1 = of (nothing new_server) (on_request_read classic codec known v4 0 first new_server)

l2 : Unit {0} × Server × List Effect
unfolding on_accept_tcp_connection l1
l2 = of (nothing l1.1) (on_accept_tcp_connection v6 success 1 l1.1)

-- The second client sends a request without credentials.
l3 : Unit {0} × Server × List Effect
unfolding on_request_read l2 from_header codec classic Base64.decode
l3 = of (nothing l2.1) (
    on_request_read classic codec known v6 1
      (read_request parse (3 ∷ []) (failure 1) l2.1.accept_buffer) l2.1)

leftover_request_example :
    (upgrades l3.2 ≡ upgrades_of 1 (known 1 jure)) × (l3.1.accept_buffer ≡ 4 ∷ [])
unfolding l3 from_header codec classic Base64.decode
leftover_request_example =
    leftover_request classic codec known parse v4 v6 0 1 first request (4 ∷ [])
      (codes "Basic anVyZTpqdXJlMTIz") (3 ∷ []) (failure 1) jure new_server l1 l2 l3 refl refl refl
      refl refl refl
