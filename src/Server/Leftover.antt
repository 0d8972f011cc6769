-- ===== src/Server/Leftover.antt =====
-- `acceptBuffer` of `Server` (src/server.cpp), which every connection reads its request through and which
-- nothing empties. The parser of HTTP is Boost.Beast's, a parameter: of the bytes in the buffer it takes
-- the first whole request and leaves those behind it, or it says that there is no whole request yet.
use lib_native_streaming.Common.{
  ℕ, ◌≡◌, refl, ap, sym, ◌∙◌, subst, Bool, true, false, if◌then◌else◌, Option, none, some, List, [],
  ◌∷◌, ◌++◌, append-nil,
}
use lib_native_streaming.Common.Errors.{ErrorCode, success}
use lib_native_streaming.Common.Effects.{◌>>◌, ◌>>=◌}
use lib_native_streaming.Common.Connections.{HttpFields}
use lib_native_streaming.Base64.{Codec}
use lib_native_streaming.Authentication.{Authentication, StringAlgorithm, from_header}
use lib_native_streaming.Common.Results.{returned}
use lib_native_streaming.Server.{
  Acceptor, Server, Effect, HttpRead, Authenticate, no_fields, call_authenticate, on_request_read,
  on_accept_tcp_connection,
}
use lib_native_streaming.Server.System.{upgrades}
use lib_native_streaming.Server.Handlers.{
  Completed, restart, on_request_read_lem, on_accept_tcp_connection_lem, start_tcp_accept_lem,
  upgrades-append, upgrades-restart,
}
use lib_native_streaming.Server.Credentials.{verdict, asked}

abbrev pub Parser : Type 0
Parser = List ℕ → Option (HttpFields × List ℕ)

abbrev taken_from : Parser → ErrorCode → List ℕ → Option (HttpFields × List ℕ) → HttpRead
taken_from parse ec bytes none = record { result = ec; request = no_fields; rest = bytes }
taken_from parse ec bytes (some (request, rest)) = record {
  result = success;
  request = request;
  rest = rest;
}

-- `http::async_read`: a whole request in the buffer is taken from there, and the socket is not read.
-- Else `received` is what is read from it, and `ec` why this ended if there is no whole request then.
abbrev with_buffer : Parser → List ℕ → ErrorCode → List ℕ → Option (HttpFields × List ℕ) → HttpRead
with_buffer parse received ec buffer none =
    taken_from parse ec (buffer ++ received) (parse (buffer ++ received))
with_buffer parse received ec buffer (some r) = taken_from parse ec buffer (some r)

abbrev pub read_request : Parser → List ℕ → ErrorCode → List ℕ → HttpRead
read_request parse received ec buffer = with_buffer parse received ec buffer (parse buffer)

abbrev pub upgrades_of : ℕ → Bool × Option ℕ → List (ℕ × Option ℕ)
upgrades_of stream answer = if answer.0 then (stream, answer.1) ∷ [] else []

upgrades-verdict :
    (stream : ℕ) (req : HttpFields) (b : Bool) (u : Option ℕ)
    → upgrades (verdict stream req (b, u)) ≡ upgrades_of stream (b, u)
upgrades-verdict stream req true u = refl
upgrades-verdict stream req false u = refl

module _ (sa : StringAlgorithm) (codec : Codec) (authenticate : Authenticate) where
  abbrev found : HttpFields → List ℕ → HttpRead
  found req left = record { result = success; request = req; rest = left }

  -- A read of a request with credentials: the callback's answer to these decides.
  found-answer :
      (b : Acceptor) (stream : ℕ) (req : HttpFields) (left header : List ℕ) (auth : Authentication)
      (s : Server) (r : Unit {0} × Server × List Effect)
      → req.authorization ≡ some header
      → from_header sa codec header ≡ returned auth
      → on_request_read sa codec authenticate b stream (found req left) s ≡ some r
      → upgrades r.2 ≡ upgrades_of stream (authenticate stream auth)
  unfolding on_request_read
  found-answer b stream req left header auth s r e f eq =
      let stored : Server = record s { accept_buffer = left; accept_request = req } in
      let answer = authenticate stream auth in
      let ran : on_request_read sa codec authenticate b stream (found req left) s
          ≡ some (
            tt,
            stored,
            (call_authenticate auth ∷ verdict stream req answer) ++ restart b stored,
          ) =
        rw
          (
            ◌>>◌,
            ◌>>=◌,
            asked sa codec authenticate stream req stored auth answer.0 (rw (e, f) refl) refl,
            ◌>>=◌,
            start_tcp_accept_lem b stored,
          )
          refl in
      let same : (
        tt,
        stored,
        (call_authenticate auth ∷ verdict stream req answer) ++ restart b stored,
      )
          ≡ r =
        cc (ran, eq) in
      rw (← same) (
        rw
          (
            upgrades-append (verdict stream req answer) (restart b stored),
            upgrades-restart,
            append-nil,
          )
          (upgrades-verdict stream req answer.0 answer.1))

  -- Say that a client sends more behind its request, and that this holds a whole request, with
  -- credentials that `fromHeader` accepts. The read of the next connection, at either acceptor, then takes
  -- that request, whatever the next client sends and however its own read would have ended: its stream
  -- is upgraded, with the user context of those credentials, if and only if the callback accepts them.
  -- What is behind that request stays in the buffer, for the connection after it.
  pub leftover_request :
      (parse : Parser) (a b : Acceptor) (st1 st2 : ℕ) (h : HttpRead) (forged : HttpFields)
      (left header received : List ℕ) (ec : ErrorCode) (auth : Authentication) (s : Server)
      (r1 r2 r3 : Unit {0} × Server × List Effect)
      → parse h.rest ≡ some (forged, left)
      → forged.authorization ≡ some header
      → from_header sa codec header ≡ returned auth
      → on_request_read sa codec authenticate a st1 h s ≡ some r1
      → on_accept_tcp_connection b success st2 r1.1 ≡ some r2
      → on_request_read sa codec authenticate b st2
          (read_request parse received ec r2.1.accept_buffer)
          r2.1
        ≡ some r3
      → (upgrades r3.2 ≡ upgrades_of st2 (authenticate st2 auth)) × (r3.1.accept_buffer ≡ left)
  leftover_request parse a b st1 st2 h forged left header received ec auth s r1 r2 r3 p e f e1 e2
        e3 =
      let c1 =
        subst (Completed sa codec authenticate a st1 h s) e1
          (on_request_read_lem sa codec authenticate a st1 h s) in
      let same : r1.1 ≡ r2.1 = cc (on_accept_tcp_connection_lem b success st2 r1.1, e2) in
      let kept : h.rest ≡ r2.1.accept_buffer =
        sym (ap (λ (v : Server). v.accept_buffer) c1.0)
        ∙ ap (λ (v : Server). v.accept_buffer) same in
      let parsed : parse r2.1.accept_buffer ≡ some (forged, left) = rw (← kept) p in
      let e4 : on_request_read sa codec authenticate b st2 (found forged left) r2.1 ≡ some r3 =
        subst
          (λ (o : Option (HttpFields × List ℕ)).
            on_request_read sa codec authenticate b st2
              (with_buffer parse received ec r2.1.accept_buffer o) r2.1
            ≡ some r3)
          parsed e3 in
      let c3 =
        subst (Completed sa codec authenticate b st2 (found forged left) r2.1) e4
          (on_request_read_lem sa codec authenticate b st2 (found forged left) r2.1) in
      (
        found-answer b st2 forged left header auth r2.1 r3 e f e4,
        ap (λ (v : Server). v.accept_buffer) c3.0,
      )
