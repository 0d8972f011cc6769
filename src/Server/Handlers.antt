-- ===== src/Server/Handlers.antt =====
-- What the handlers of `Server` (src/server.cpp) do to its state and to its pending operations.
use lib_native_streaming.Common.{
  ℕ, ◌≡◌, refl, ap, append-nil, ◌⊎◌, inl, inr, Bool, true, false, if◌then◌else◌, Option, none, some,
  List, [], ◌∷◌, ◌++◌, arith,
}
use lib_native_streaming.Common.Bytes.{All}
use lib_native_streaming.Common.Effects.{◌>>=◌, ◌>>◌}
use lib_native_streaming.Common.Errors.{ErrorCode, success, operation_aborted, failure, err, warn}
use lib_native_streaming.Common.Results.{Result, Exception, returned, thrown, undefined}
use lib_native_streaming.Common.Connections.{HttpFields}
use lib_native_streaming.Base64.{Codec}
use lib_native_streaming.Authentication.{
  Authentication, no_authentication, StringAlgorithm, from_header,
}
use lib_native_streaming.Server.{
  Acceptor, Server, v4, v6, is_open, Effect, async_accept, async_read_request, write_buffer_bytes,
  read_message_max, max_message, log, call_new_session, async_upgrade, start_tcp_accept,
  on_accept_tcp_connection, HttpRead, Authenticate, authentication_of, on_read_accept_request,
  on_request_read,
}
use lib_native_streaming.Server.System.{accepts, reads, upgrades, opened}

-- The only operation that a restart starts.
abbrev pub restart : Acceptor → Server → List Effect
restart a s = if is_open a s then async_accept a ∷ [] else []

abbrev pub accept_effects : ErrorCode → Acceptor → ℕ → Server → List Effect
accept_effects success a stream s =
    write_buffer_bytes stream 65536
    ∷ read_message_max stream max_message
    ∷ async_read_request a stream
    ∷ []
accept_effects operation_aborted a stream s = []
accept_effects (failure n) a stream s = log err ∷ restart a s

pub start_tcp_accept_lem :
    (a : Acceptor) (s : Server) → start_tcp_accept a s ≡ some (tt, s, restart a s)
unfolding start_tcp_accept
start_tcp_accept_lem v4 s = ground arith
start_tcp_accept_lem v6 s = ground arith

pub on_accept_tcp_connection_lem :
    (a : Acceptor) (ec : ErrorCode) (stream : ℕ) (s : Server)
    → on_accept_tcp_connection a ec stream s ≡ some (tt, s, accept_effects ec a stream s)
unfolding on_accept_tcp_connection
on_accept_tcp_connection_lem a success stream s = refl
on_accept_tcp_connection_lem a operation_aborted stream s = refl
on_accept_tcp_connection_lem a (failure n) stream s = rw (◌>>◌, start_tcp_accept_lem a s) refl

accepts-append : (xs ys : List Effect) → accepts (xs ++ ys) ≡ accepts xs ++ accepts ys
accepts-append [] ys = refl
accepts-append (async_accept a ∷ xs) ys = ap (◌∷◌ a) (accepts-append xs ys)
accepts-append (_ ∷ xs) ys = accepts-append xs ys

pub reads-append : (xs ys : List Effect) → reads (xs ++ ys) ≡ reads xs ++ reads ys
reads-append [] ys = refl
reads-append (async_read_request a st ∷ xs) ys = ap (◌∷◌ (a, st)) (reads-append xs ys)
reads-append (_ ∷ xs) ys = reads-append xs ys

pub upgrades-append : (xs ys : List Effect) → upgrades (xs ++ ys) ≡ upgrades xs ++ upgrades ys
upgrades-append [] ys = refl
upgrades-append (async_upgrade st req u ∷ xs) ys = ap (◌∷◌ (st, u)) (upgrades-append xs ys)
upgrades-append (_ ∷ xs) ys = upgrades-append xs ys

pub opened-append : (xs ys : List Effect) → opened (xs ++ ys) ≡ opened xs ++ opened ys
opened-append [] ys = refl
opened-append (call_new_session a ∷ xs) ys = ap (◌∷◌ a) (opened-append xs ys)
opened-append (_ ∷ xs) ys = opened-append xs ys

pub reads-restart : (a : Acceptor) (s : Server) → reads (restart a s) ≡ []
reads-restart v4 s = ground arith
reads-restart v6 s = ground arith

pub upgrades-restart : (a : Acceptor) (s : Server) → upgrades (restart a s) ≡ []
upgrades-restart v4 s = ground arith
upgrades-restart v6 s = ground arith

pub opened-restart : (a : Acceptor) (s : Server) → opened (restart a s) ≡ []
opened-restart v4 s = ground arith
opened-restart v6 s = ground arith

restart-stored :
    (a : Acceptor) (h : HttpRead) (s : Server)
    → restart a (record s { accept_buffer = h.rest; accept_request = h.request }) ≡ restart a s
restart-stored v4 h s = refl
restart-stored v6 h s = refl

module _ (sa : StringAlgorithm) (codec : Codec) where
  -- The credentials that a request is taken to offer: those of its header, and none if it has no
  -- header or one that is refused.
  abbrev pub Offers : Option (List ℕ) → Authentication → Type 0
  Offers none auth = auth ≡ no_authentication
  Offers (some header) auth =
      (from_header sa codec header ≡ returned auth)
      ⊎ ((e : Exception) × (from_header sa codec header ≡ thrown e) × (auth ≡ no_authentication))

module _ (sa : StringAlgorithm) (codec : Codec) (authenticate : Authenticate) where
  -- The callback accepted what the request offers, and gave this user context.
  abbrev pub Grants : ℕ → HttpFields → Option ℕ → Type 0
  Grants stream req user_context =
      (auth : Authentication) × Offers sa codec req.authorization auth
      × ((authenticate stream auth).0 ≡ true)
      × (user_context ≡ (authenticate stream auth).1)

  -- What a handler of a request leaves and starts: upgrades of its own stream that are granted.
  pub record Facts (stream : ℕ) (req : HttpFields) (r : Unit {0} × Server × List Effect)
      : Type 0 where
    pub starts_reads : reads r.2 ≡ []
    pub opens : opened r.2 ≡ []
    pub granted : All (λ u. (u.0 ≡ stream) × Grants stream req u.1) (upgrades r.2)

  abbrev Kept : ℕ → HttpFields → Server → Option (Unit {0} × Server × List Effect) → Type 0
  Kept stream req s none = Unit {0}
  Kept stream req s (some r) = (r.1 ≡ s) × (accepts r.2 ≡ []) × Facts stream req r

  offered :
      (stream : ℕ) (req : HttpFields) (s : Server) (auth : Authentication) (b : Bool)
      (es : List Effect)
      → authentication_of sa codec req.authorization s ≡ some (auth, s, es)
      → (es ≡ []) ⊎ (es ≡ log warn ∷ [])
      → Offers sa codec req.authorization auth
      → (authenticate stream auth).0 ≡ b
      → Kept stream req s (on_read_accept_request sa codec authenticate success stream req s)
  unfolding on_read_accept_request
  offered stream req s auth true es e (inl f) o g =
      rw (◌>>=◌, e, ◌>>◌, ◌>>=◌, g, f)
        (
          refl,
          refl,
          record { starts_reads = refl; opens = refl; granted = ((refl, (auth, o, g, refl)), tt) },
        )
  offered stream req s auth true es e (inr f) o g =
      rw (◌>>=◌, e, ◌>>◌, ◌>>=◌, g, f)
        (
          refl,
          refl,
          record { starts_reads = refl; opens = refl; granted = ((refl, (auth, o, g, refl)), tt) },
        )
  offered stream req s auth false es e (inl f) o g =
      rw (◌>>=◌, e, ◌>>◌, ◌>>=◌, g, f)
        (refl, refl, record { starts_reads = refl; opens = refl; granted = tt })
  offered stream req s auth false es e (inr f) o g =
      rw (◌>>=◌, e, ◌>>◌, ◌>>=◌, g, f)
        (refl, refl, record { starts_reads = refl; opens = refl; granted = tt })

  by_header :
      (stream : ℕ) (req : HttpFields) (s : Server) (header : List ℕ) (q : Result Authentication)
      → req.authorization ≡ some header
      → from_header sa codec header ≡ q
      → Kept stream req s (on_read_accept_request sa codec authenticate success stream req s)
  unfolding on_read_accept_request
  by_header stream req s header (returned auth) e f =
      offered stream req s auth (authenticate stream auth).0 [] (rw (e, f) refl) (inl refl)
        (rw e (inl f)) refl
  by_header stream req s header (thrown x) e f =
      offered stream req s no_authentication (authenticate stream no_authentication).0
        (log warn ∷ []) (rw (e, f) refl) (inr refl) (rw e (inr (x, f, refl))) refl
  by_header stream req s header undefined e f = rw (◌>>=◌, e, f) tt

  by_authorization :
      (stream : ℕ) (req : HttpFields) (s : Server) (h : Option (List ℕ))
      → req.authorization ≡ h
      → Kept stream req s (on_read_accept_request sa codec authenticate success stream req s)
  by_authorization stream req s none e =
      offered stream req s no_authentication (authenticate stream no_authentication).0 []
        (rw e refl) (inl refl) (rw e refl) refl
  by_authorization stream req s (some header) e =
      by_header stream req s header (from_header sa codec header) e refl

  on_read_accept_request_lem :
      (ec : ErrorCode) (stream : ℕ) (req : HttpFields) (s : Server)
      → Kept stream req s (on_read_accept_request sa codec authenticate ec stream req s)
  unfolding on_read_accept_request
  on_read_accept_request_lem success stream req s =
      by_authorization stream req s req.authorization refl
  on_read_accept_request_lem _ stream req s =
      (refl, refl, record { starts_reads = refl; opens = refl; granted = tt })

  abbrev stored : HttpRead → Server → Server
  stored h s = record s { accept_buffer = h.rest; accept_request = h.request }

  -- A completed read keeps the acceptors, restarts its own, and upgrades as the callback grants.
  abbrev pub Completed :
      Acceptor → ℕ → HttpRead → Server → Option (Unit {0} × Server × List Effect) → Type 0
  Completed a stream h s none = Unit {0}
  Completed a stream h s (some r) =
      (r.1 ≡ stored h s) × (accepts r.2 ≡ accepts (restart a s)) × Facts stream h.request r

  read-Completed :
      (a : Acceptor) (stream : ℕ) (h : HttpRead) (s : Server)
      (q : Option (Unit {0} × Server × List Effect))
      → on_read_accept_request sa codec authenticate h.result stream h.request (stored h s) ≡ q
      → Kept stream h.request (stored h s) q
      → Completed a stream h s (on_request_read sa codec authenticate a stream h s)
  unfolding on_request_read
  read-Completed a stream h s none e k = rw (◌>>◌, ◌>>=◌, e) tt
  read-Completed a stream h s (some r) e k =
      rw (◌>>◌, ◌>>=◌, e, ◌>>=◌, k.0, start_tcp_accept_lem a (stored h s))
        (
          refl,
          rw (accepts-append r.2 (restart a (stored h s)), k.1, restart-stored) refl,
          record {
            starts_reads =
                rw (reads-append r.2 (restart a (stored h s)), k.2.starts_reads, reads-restart)
                  refl;
            opens = rw (opened-append r.2 (restart a (stored h s)), k.2.opens, opened-restart) refl;
            granted =
                rw (upgrades-append r.2 (restart a (stored h s)), upgrades-restart, append-nil)
                  k.2.granted;
          },
        )

  pub on_request_read_lem :
      (a : Acceptor) (stream : ℕ) (h : HttpRead) (s : Server)
      → Completed a stream h s (on_request_read sa codec authenticate a stream h s)
  on_request_read_lem a stream h s =
      read-Completed a stream h s
        (on_read_accept_request sa codec authenticate h.result stream h.request (stored h s)) refl
        (on_read_accept_request_lem h.result stream h.request (stored h s))
