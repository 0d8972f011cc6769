-- ===== src/Server/Sessions.antt =====
-- Which clients of a running `Server` (src/server.cpp) get a session, and with which user context.
use lib_native_streaming.Common.{
  ℕ, suc, ◌≡◌, refl, sym, ◌∙◌, ap, subst, false, Option, List, [], ◌∷◌, ◌++◌,
}
use lib_native_streaming.Common.Bytes.{All, All-append}
use lib_native_streaming.Common.Errors.{ErrorCode, success, operation_aborted, failure}
use lib_native_streaming.Common.Connections.{SessionArguments, HttpFields}
use lib_native_streaming.Base64.{Codec}
use lib_native_streaming.Authentication.{StringAlgorithm}
use lib_native_streaming.Server.{Acceptor, Server, Effect, destroy, Authenticate}
use lib_native_streaming.Server.System.{
  System, accepts, upgrades, opened, after, aborted_only, Handled, accepted, request_read, upgraded,
  started, stopped, Step, handled, destroyed, orphan_accepted, orphan_upgraded, Run, made, next,
}
use lib_native_streaming.Server.Handlers.{
  Grants, Completed, accept_effects, upgrades-restart, opened-restart, on_accept_tcp_connection_lem,
  on_request_read_lem,
}
use lib_native_streaming.Server.Endings.{Opened, Stopped, on_upgrade_connection_lem, stop_lem}
use lib_native_streaming.Server.Chains.{some_injective, start_unique}
use lib_native_streaming.Server.Start.{start_lem}
use mathlib.Core.List.{Memᴰ}

pub All-mono :
    {A : Type 0} {P Q : A → Type 0} (f : (a : A) → P a → Q a) (xs : List A) → All P xs → All Q xs
All-mono f [] h = tt
All-mono f (x ∷ xs) h = (f x h.0, All-mono f xs h.1)

All-middle :
    {A : Type 0} (P : A → Type 0) (a : A) (xs ys : List A)
    → All P (xs ++ a ∷ ys)
    → P a × All P (xs ++ ys)
All-middle P a [] ys h = h
All-middle P a (x ∷ xs) ys h = let m = All-middle P a xs ys h.1 in (m.0, (h.0, m.1))

upgrades-accept :
    (ec : ErrorCode) (a : Acceptor) (st : ℕ) (s : Server) → upgrades (accept_effects ec a st s) ≡ []
upgrades-accept success a st s = refl
upgrades-accept operation_aborted a st s = refl
upgrades-accept (failure n) a st s = upgrades-restart a s

opened-accept :
    (ec : ErrorCode) (a : Acceptor) (st : ℕ) (s : Server) → opened (accept_effects ec a st s) ≡ []
opened-accept success a st s = refl
opened-accept operation_aborted a st s = refl
opened-accept (failure n) a st s = opened-restart a s

module _ (sa : StringAlgorithm) (codec : Codec) (authenticate : Authenticate) where
  -- A request read from this stream was granted this user context.
  abbrev pub Granted : List (ℕ × HttpFields) → ℕ → Option ℕ → Type 0
  Granted requests stream user_context =
      (req : HttpFields) × Memᴰ (stream, req) requests
      × Grants sa codec authenticate stream req user_context

  abbrev IsUpgrade : List (ℕ × HttpFields) → ℕ × Option ℕ → Type 0
  IsUpgrade requests u = Granted requests u.0 u.1

  abbrev IsSession : List (ℕ × HttpFields) → SessionArguments → Type 0
  IsSession requests x = Granted requests x.stream x.user_context

  record Inv (s : System) : Type 0 where
    are_upgrades : All (IsUpgrade s.requests) s.upgrading
    are_sessions : All (IsSession s.requests) s.sessions

  -- The effects of a handler add upgrades and sessions that are granted.
  after-Inv :
      {A : Type 0} (s : System) (r : A × Server × List Effect)
      → Inv s
      → All (IsUpgrade s.requests) (upgrades r.2)
      → All (IsSession s.requests) (opened r.2)
      → Inv (after s r)
  after-Inv s r inv u o = record {
    are_upgrades = All-append _ s.upgrading (upgrades r.2) inv.are_upgrades u;
    are_sessions = All-append _ s.sessions (opened r.2) inv.are_sessions o;
  }

  later :
      (p : ℕ × HttpFields) (requests : List (ℕ × HttpFields)) (stream : ℕ) (user_context : Option ℕ)
      → Granted requests stream user_context
      → Granted (p ∷ requests) stream user_context
  later p requests stream user_context g = (g.0, Memᴰ.tail g.1, g.2)

  more-Inv :
      (p : ℕ × HttpFields) (s : System) (xs : List (Acceptor × ℕ))
      → Inv s
      → Inv (record s { reading = xs; requests = p ∷ s.requests })
  more-Inv p s xs inv = record {
    are_upgrades = All-mono (λ u. later p s.requests u.0 u.1) s.upgrading inv.are_upgrades;
    are_sessions =
        All-mono (λ x. later p s.requests x.stream x.user_context) s.sessions inv.are_sessions;
  }

  Handled-Inv : {s u : System} → Inv s → Handled sa codec authenticate s u → Inv u
  Handled-Inv {s} inv (accepted a ec xs ys r e f) =
      let g : (tt, s.server, accept_effects ec a s.next_stream s.server) ≡ r =
        some_injective (sym (on_accept_tcp_connection_lem a ec s.next_stream s.server) ∙ f) in
      after-Inv
        (record s {
          accepting = xs ++ ys;
          next_stream = suc s.next_stream;
          ended = aborted_only ec a ++ s.ended;
        })
        r (record { are_upgrades = inv.are_upgrades; are_sessions = inv.are_sessions })
        (rw (← g, upgrades-accept ec a s.next_stream s.server) tt)
        (rw (← g, opened-accept ec a s.next_stream s.server) tt)
  Handled-Inv {s} inv (request_read a st h xs ys r e f) =
      let c =
        subst (Completed sa codec authenticate a st h s.server) f
          (on_request_read_lem sa codec authenticate a st h s.server) in
      after-Inv _ r (more-Inv (st, h.request) s (xs ++ ys) inv)
        (All-mono
          (λ u g. (
            h.request,
            Memᴰ.head (ap (λ n. (n, h.request)) g.0),
            subst (λ (n : ℕ). Grants sa codec authenticate n h.request u.1) (sym g.0) g.1,
          ))
          (upgrades r.2) c.2.granted)
        (rw c.2.opens tt)
  Handled-Inv {s} inv (upgraded ec st ctx live ep xs ys r e f) =
      let c =
        subst (Opened st ctx s.server) f (on_upgrade_connection_lem ec st ctx live ep s.server) in
      let m = All-middle (IsUpgrade s.requests) (st, ctx) xs ys (rw (← e) inv.are_upgrades) in
      after-Inv (record s { upgrading = xs ++ ys }) r
        (record { are_upgrades = m.1; are_sessions = inv.are_sessions }) (rw c.starts_upgrades tt)
        (All-mono (λ x g. rw (g.0, g.1) m.0) (opened r.2) c.given)
  Handled-Inv {s} inv (started o4 o6 r n4 n6 e) =
      let l = start_lem o4 o6 s.server in
      subst
        (λ (q : ErrorCode × Server × List Effect).
          Inv (after (record s { starts = s.starts ++ accepts q.2 }) q))
        (start_unique o4 o6 s.server r e)
        (after-Inv (record s { starts = s.starts ++ accepts l.0.2 }) l.0
          (record { are_upgrades = inv.are_upgrades; are_sessions = inv.are_sessions })
          (rw l.5.1 tt) (rw l.5.2 tt))
  Handled-Inv {s} inv (stopped r f) =
      let c = subst Stopped f (stop_lem s.server) in
      after-Inv s r inv (rw c.starts_upgrades tt) (rw c.opens tt)

  Step-Inv : {s u : System} → Inv s → Step sa codec authenticate s u → Inv u
  unfolding destroy
  Step-Inv inv (handled v p) = Handled-Inv inv p
  Step-Inv {s} inv (destroyed r v f) =
      let c = subst Stopped f (stop_lem s.server) in
      after-Inv (record s { alive = false }) r
        (record { are_upgrades = inv.are_upgrades; are_sessions = inv.are_sessions })
        (rw c.starts_upgrades tt) (rw c.opens tt)
  Step-Inv inv (orphan_accepted a xs ys d e) = record {
    are_upgrades = inv.are_upgrades;
    are_sessions = inv.are_sessions;
  }
  Step-Inv {s} inv (orphan_upgraded st ctx xs ys d e) = record {
    are_upgrades =
        (All-middle (IsUpgrade s.requests) (st, ctx) xs ys (rw (← e) inv.are_upgrades)).1;
    are_sessions = inv.are_sessions;
  }

  Run-Inv : {s : System} → Run sa codec authenticate s → Inv s
  Run-Inv made = record { are_upgrades = tt; are_sessions = tt }
  Run-Inv (next p q) = Step-Inv (Run-Inv p) q

  -- Each upgrade in flight is one that a request read from its stream was granted.
  pub Run-upgrades :
      {s : System} → Run sa codec authenticate s → All (λ u. Granted s.requests u.0 u.1) s.upgrading
  Run-upgrades r = (Run-Inv r).are_upgrades

  -- The requests that were read are not forgotten.
  pub Step-requests :
      {s u : System} (stream : ℕ) (user_context : Option ℕ)
      → Step sa codec authenticate s u
      → Granted s.requests stream user_context
      → Granted u.requests stream user_context
  Step-requests stream ctx (handled v (accepted a ec xs ys r e f)) g = g
  Step-requests {s} stream ctx (handled v (request_read a st h xs ys r e f)) g =
      later (st, h.request) s.requests stream ctx g
  Step-requests stream ctx (handled v (upgraded ec st c live ep xs ys r e f)) g = g
  Step-requests stream ctx (handled v (started o4 o6 r n4 n6 e)) g = g
  Step-requests stream ctx (handled v (stopped r f)) g = g
  Step-requests stream ctx (destroyed r v f) g = g
  Step-requests stream ctx (orphan_accepted a xs ys d e) g = g
  Step-requests stream ctx (orphan_upgraded st c xs ys d e) g = g

  -- In any history of a server, in which `start` and `stop` may be called again: each session that the callback for new
  -- sessions was given runs on a stream from which a request was read, and the callback that
  -- authenticates had accepted the credentials which that request offers and given this session's user
  -- context. A request offers what its Authorization header parses to; it offers anonymous credentials
  -- where it has no such header or the parser threw.
  pub Run-granted :
      {s : System}
      → Run sa codec authenticate s
      → All (λ x. Granted s.requests x.stream x.user_context) s.sessions
  Run-granted r = (Run-Inv r).are_sessions
