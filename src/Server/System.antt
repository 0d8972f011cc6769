-- ===== src/Server/System.antt =====
-- A `Server` (src/server.cpp) and the operations that it has in flight: which one completes next, and
-- with what, is open. `start` and `stop` may be called at any time, also again,
-- until the server is destroyed. `Run` is the reachable
-- systems, from a new server.
use lib_native_streaming.Common.{
  ℕ, suc, ◌+◌, ◌≡◌, Bool, true, false, Option, some, List, [], ◌∷◌, ◌++◌,
}
use lib_native_streaming.Common.Errors.{ErrorCode, operation_aborted, is_error}
use lib_native_streaming.Common.Connections.{Endpoint, SessionArguments, HttpFields}
use lib_native_streaming.Base64.{Codec}
use lib_native_streaming.Authentication.{StringAlgorithm}
use lib_native_streaming.Server.{
  Acceptor, v4, v6, Server, Effect, async_accept, async_read_request, async_upgrade,
  call_new_session, Setup, new_server, is_open, start, stop, destroy, on_accept_tcp_connection,
  HttpRead, Authenticate, on_request_read, on_upgrade_connection,
}

-- The operations to accept, to read a request and to upgrade that have not completed. `ended` has the
-- acceptors whose operation completed with `operation_aborted`, `starts` those that `start` has set up,
-- each as often as it has, `requests` each stream's request.
pub record System : Type 0 where
  pub server : Server
  pub alive : Bool
  pub accepting : List Acceptor
  pub reading : List (Acceptor × ℕ)
  pub upgrading : List (ℕ × Option ℕ)
  pub next_stream : ℕ
  pub ended : List Acceptor
  pub starts : List Acceptor
  pub requests : List (ℕ × HttpFields)
  pub sessions : List SessionArguments

-- What the effects of a handler start.
abbrev pub accepts : List Effect → List Acceptor
accepts [] = []
accepts (async_accept a ∷ es) = a ∷ accepts es
accepts (_ ∷ es) = accepts es

abbrev pub reads : List Effect → List (Acceptor × ℕ)
reads [] = []
reads (async_read_request a stream ∷ es) = (a, stream) ∷ reads es
reads (_ ∷ es) = reads es

abbrev pub upgrades : List Effect → List (ℕ × Option ℕ)
upgrades [] = []
upgrades (async_upgrade stream request user_context ∷ es) = (stream, user_context) ∷ upgrades es
upgrades (_ ∷ es) = upgrades es

abbrev pub opened : List Effect → List SessionArguments
opened [] = []
opened (call_new_session a ∷ es) = a ∷ opened es
opened (_ ∷ es) = opened es

abbrev pub after : {A : Type 0} → System → A × Server × List Effect → System
after s r = record s {
  server = r.1;
  accepting = s.accepting ++ accepts r.2;
  reading = s.reading ++ reads r.2;
  upgrading = s.upgrading ++ upgrades r.2;
  sessions = s.sessions ++ opened r.2;
}

abbrev pub same : Acceptor → Acceptor → ℕ
same v4 v4 = 1
same v6 v6 = 1
same _ _ = 0

abbrev pub count : Acceptor → List Acceptor → ℕ
count a [] = 0
count a (b ∷ bs) = same a b + count a bs

abbrev pub aborted_only : ErrorCode → Acceptor → List Acceptor
aborted_only operation_aborted a = a ∷ []
aborted_only _ a = []

abbrev pub idle : System
idle = record {
  server = new_server;
  alive = true;
  accepting = [];
  reading = [];
  upgrading = [];
  next_stream = 0;
  ended = [];
  starts = [];
  requests = [];
  sessions = [];
}

-- `open` fails on an acceptor that is open.
abbrev pub OpensOnce : Acceptor → Setup → Server → Type 0
OpensOnce a o s = is_open a s ≡ true → is_error o.open_result ≡ true

module _ (sa : StringAlgorithm) (codec : Codec) (authenticate : Authenticate) where
  -- What is called on a server that is there, and what its handlers do.
  pub data Handled (s : System) : System → Type 0 where
    accepted :
        (a : Acceptor) (ec : ErrorCode) (xs ys : List Acceptor)
        (r : Unit {0} × Server × List Effect)
        → s.accepting ≡ xs ++ a ∷ ys
        → on_accept_tcp_connection a ec s.next_stream s.server ≡ some r
        → Handled s (
            after
              (record s {
                accepting = xs ++ ys;
                next_stream = suc s.next_stream;
                ended = aborted_only ec a ++ s.ended;
              })
              r)
    request_read :
        (a : Acceptor) (stream : ℕ) (h : HttpRead) (xs ys : List (Acceptor × ℕ))
        (r : Unit {0} × Server × List Effect)
        → s.reading ≡ xs ++ (a, stream) ∷ ys
        → on_request_read sa codec authenticate a stream h s.server ≡ some r
        → Handled s
            (after (record s { reading = xs ++ ys; requests = (stream, h.request) ∷ s.requests }) r)
    upgraded :
        (ec : ErrorCode) (stream : ℕ) (user_context : Option ℕ) (is_live : Bool)
        (endpoint : Option Endpoint) (xs ys : List (ℕ × Option ℕ))
        (r : Unit {0} × Server × List Effect)
        → s.upgrading ≡ xs ++ (stream, user_context) ∷ ys
        → on_upgrade_connection ec stream user_context is_live endpoint s.server ≡ some r
        → Handled s (after (record s { upgrading = xs ++ ys }) r)
    started :
        (o4 o6 : Setup) (r : ErrorCode × Server × List Effect)
        → OpensOnce v4 o4 s.server
        → OpensOnce v6 o6 s.server
        → start o4 o6 s.server ≡ some r
        → Handled s (after (record s { starts = s.starts ++ accepts r.2 }) r)
    stopped : (r : Unit {0} × Server × List Effect) → stop s.server ≡ some r → Handled s (after s r)

  -- After the destruction the lambdas find no server: an operation to accept or an upgrade that
  -- completes does nothing. A request that is still being read goes on writing to the members of the
  -- server that is gone, which has no defined result: no step is given for it.
  pub data Step (s : System) : System → Type 0 where
    handled : {u : System} → s.alive ≡ true → Handled s u → Step s u
    destroyed :
        (r : Unit {0} × Server × List Effect)
        → s.alive ≡ true
        → destroy s.server ≡ some r
        → Step s (after (record s { alive = false }) r)
    orphan_accepted :
        (a : Acceptor) (xs ys : List Acceptor)
        → s.alive ≡ false
        → s.accepting ≡ xs ++ a ∷ ys
        → Step s (record s { accepting = xs ++ ys })
    orphan_upgraded :
        (stream : ℕ) (user_context : Option ℕ) (xs ys : List (ℕ × Option ℕ))
        → s.alive ≡ false
        → s.upgrading ≡ xs ++ (stream, user_context) ∷ ys
        → Step s (record s { upgrading = xs ++ ys })

  pub data Run : System → Type 0 where
    made : Run idle
    next : {s u : System} → Run s → Step s u → Run u
