-- ===== src/Meeting/Tests.antt =====
-- A client meets a server whose callback knows everyone, and gets a session.
use mathlib.Core.List.{Memᴰ}
use lib_native_streaming.Common.{◌≡◌, [], ◌∷◌, refl, Option, none, some}
use lib_native_streaming.Common.Bytes.{codes, All}
use lib_native_streaming.Common.Errors.{success}
use lib_native_streaming.Common.Connections.{client}
use lib_native_streaming.Base64.Rfc4648.{codec}
use lib_native_streaming.Authentication.{basic_authentication}
use lib_native_streaming.Authentication.Tests.{classic}
use lib_native_streaming.Client.{Client, new_client}
use lib_native_streaming.Client.System as Calling
use lib_native_streaming.Client.System.{begin, resolved, connected, upgraded}
use lib_native_streaming.Client.Opened.{given}
use lib_native_streaming.Server.{v4, new_server}
use lib_native_streaming.Server.System.{idle, handled, started, accepted, request_read}
use lib_native_streaming.Server.Samples.{
  good, taken, known, arrival, peer, begun, s0, s1, s2, r1, r2,
}
use lib_native_streaming.Meeting.{Meeting, Run, here, next, joins, at_server, at_client}
use lib_native_streaming.Meeting.Admitted.{Admitted, Run-Admitted}

abbrev a_client : Client
unfolding new_client
a_client =
    new_client (codes "host") (codes "7420") (codes "/")
      (basic_authentication (codes "jure") (codes "jure123"))

abbrev of : Option Calling.System → Calling.System
of none = Calling.start a_client
of (some s) = s

c0 : Calling.System
unfolding Calling.start
c0 = Calling.start a_client

c1 : Calling.System
unfolding c0 Calling.step
c1 = of (Calling.step c0 (begin 1000))

c2 : Calling.System
unfolding c1 Calling.step
c2 = of (Calling.step c1 (resolved 0 success))

c3 : Calling.System
unfolding c2 Calling.step
c3 = of (Calling.step c2 (connected 0 success))

c4 : Calling.System
unfolding c3 Calling.step
c4 = of (Calling.step c3 (upgraded 0 success (some peer)))

m0 : Meeting
unfolding c3
m0 = record { client = c3; server = idle; joined = (0, 0) ∷ []; upgrades = [] }

m1 : Meeting
unfolding m0 s2
m1 = record m0 { server = s2; upgrades = (0, some 7) ∷ [] }

m2 : Meeting
unfolding m1 c4
m2 = record m1 { client = c4 }

calling-Run : Run classic codec known a_client m0
unfolding m0
calling-Run =
    next {s = record { client = c3; server = idle; joined = []; upgrades = [] }}
      (next {s = record { client = c2; server = idle; joined = []; upgrades = [] }}
        (next {s = record { client = c1; server = idle; joined = []; upgrades = [] }}
          (next {s = record { client = c0; server = idle; joined = []; upgrades = [] }} here
            (at_client (begin 1000) c1 tt refl))
          (at_client (resolved 0 success) c2 tt refl))
        (at_client (connected 0 success) c3 tt refl))
      (joins 0 0)

serving-Run : Run classic codec known a_client m1
unfolding m1 begun new_server
serving-Run =
    next {s = record m0 { server = s1 }}
      (next {s = record m0 { server = s0 }}
        (next {s = m0} calling-Run (
          at_server s0
            (handled refl (started good taken begun (λ h. absurd cc) (λ h. absurd cc) refl))))
        (at_server s1 (handled refl (accepted v4 success [] [] r1 refl refl))))
      (at_server s2 (handled refl (request_read v4 0 arrival [] [] r2 refl refl)))

meeting-Run : Run classic codec known a_client m2
unfolding m2 a_client
meeting-Run = next {s = m1} serving-Run (
    at_client (upgraded 0 success (some peer)) c4
      (0, [], refl, (0, some 7, Memᴰ.head refl, Memᴰ.head refl)) refl)

Run-Admitted_example : All (λ a. Admitted classic codec known m2 a.stream) (given m2.client.trace)
Run-Admitted_example = Run-Admitted classic codec known a_client meeting-Run

got_one :
    given m2.client.trace
    ≡ record { stream = 0; user_context = none; role = client; endpoint = peer } ∷ []
unfolding m2 a_client
got_one = refl
