-- ===== src/Meeting/Admitted.antt =====
-- Which sessions a client (src/client.cpp) gets from a server (src/server.cpp).
use mathlib.Core.List.{Memᴰ}
use lib_native_streaming.Common.{
  ℕ, ◌≡◌, sym, subst, Bool, true, false, Option, none, some, List, [], ◌∷◌, pick,
}
use lib_native_streaming.Common.Bytes.{All, All-append}
use lib_native_streaming.Common.Errors.{success, operation_aborted, failure}
use lib_native_streaming.Common.Connections.{Endpoint}
use lib_native_streaming.Base64.{Codec}
use lib_native_streaming.Authentication.{StringAlgorithm}
use lib_native_streaming.Client.{Client}
use lib_native_streaming.Client.System as Calling
use lib_native_streaming.Client.System.{
  Pending, resolving, connecting, handshaking, begin, timer, resolved, connected, upgraded,
  destroyed,
}
use lib_native_streaming.Client.Opened.{given, given_at, given_by, step-given}
use lib_native_streaming.Server.{Authenticate}
use lib_native_streaming.Server.System as Serving
use lib_native_streaming.Server.Sessions.{Granted, All-mono, Run-upgrades, Step-requests}
use lib_native_streaming.Meeting.{
  Meeting, Upgrading, Replied, Step, joins, at_server, at_client, Run, here, next,
}

All-Memᴰ : {A : Type 0} (P : A → Type 0) (a : A) (xs : List A) → All P xs → Memᴰ a xs → P a
All-Memᴰ P a [] h m = elim m [ ]
All-Memᴰ P a (x ∷ xs) h (Memᴰ.head e) = subst P (sym e) h.0
All-Memᴰ P a (x ∷ xs) h (Memᴰ.tail m) = All-Memᴰ P a xs h.1 m

module _ (sa : StringAlgorithm) (codec : Codec) (authenticate : Authenticate) where
  -- At the other end of the stream a request was read that was granted.
  abbrev pub Admitted : Meeting → ℕ → Type 0
  Admitted s stream =
      (other : ℕ) × (user_context : Option ℕ) × Memᴰ (stream, other) s.joined
      × Granted sa codec authenticate s.server.requests other user_context

  record Inv (s : Meeting) : Type 0 where
    served : Serving.Run sa codec authenticate s.server
    begun : All (λ u. Granted sa codec authenticate s.server.requests u.0 u.1) s.upgrades
    got : All (λ a. Admitted s a.stream) (given s.client.trace)

  Upgrading-Admitted : (s : Meeting) (stream : ℕ) → Inv s → Upgrading s stream → Admitted s stream
  Upgrading-Admitted s stream inv (other, ctx, j, m) = (
    other,
    ctx,
    j,
    All-Memᴰ (λ u. Granted sa codec authenticate s.server.requests u.0 u.1) (other, ctx) s.upgrades
        inv.begun m,
  )

  -- What a completion gives, if it is of a stream that is admitted.
  given_at-Admitted :
      (s : Meeting) (alive : Bool) (e : Endpoint) (stream : ℕ) (rest : List Pending)
      (p : Option (Pending × List Pending))
      → p ≡ some (handshaking stream, rest)
      → Admitted s stream
      → All (λ a. Admitted s a.stream) (given_at alive e p)
  given_at-Admitted s true e stream rest p f a = rw f (a, tt)
  given_at-Admitted s false e stream rest p f a = tt

  given_by-Admitted :
      (s : Meeting) (e : Calling.Event)
      → Inv s
      → Replied s e
      → All (λ a. Admitted s a.stream) (given_by e s.client)
  given_by-Admitted s (upgraded i success (some e)) inv (stream, rest, f, u) =
      given_at-Admitted s s.client.alive e stream rest (pick i s.client.pending) f
        (Upgrading-Admitted s stream inv u)
  given_by-Admitted s (upgraded i success none) inv h = tt
  given_by-Admitted s (upgraded i operation_aborted e) inv h = tt
  given_by-Admitted s (upgraded i (failure n) e) inv h = tt
  given_by-Admitted s (begin t) inv h = tt
  given_by-Admitted s (timer ec) inv h = tt
  given_by-Admitted s (resolved i ec) inv h = tt
  given_by-Admitted s (connected i ec) inv h = tt
  given_by-Admitted s destroyed inv h = tt

  Step-Inv : {s u : Meeting} → Inv s → Step sa codec authenticate s u → Inv u
  Step-Inv {s} inv (joins stream other) = record {
    served = inv.served;
    begun = inv.begun;
    got = All-mono (λ a (o, ctx, j, g). (o, ctx, Memᴰ.tail j, g)) (given s.client.trace) inv.got;
  }
  Step-Inv {s} inv (at_server u step) =
      let served = Serving.next inv.served step in
      record {
        served = served;
        begun =
            All-append _ s.upgrades u.upgrading
              (All-mono (λ p. Step-requests sa codec authenticate p.0 p.1 step) s.upgrades
                inv.begun)
              (Run-upgrades sa codec authenticate served);
        got =
            All-mono
              (λ a (o, ctx, j, g). (o, ctx, j, Step-requests sa codec authenticate o ctx step g))
              (given s.client.trace) inv.got;
      }
  Step-Inv {s} inv (at_client e u replied eq) = record {
    served = inv.served;
    begun = inv.begun;
    got = rw (step-given s.client u e eq) (
        All-append _ (given s.client.trace) (given_by e s.client) inv.got
          (given_by-Admitted s e inv replied));
  }

  start-Inv :
      (c : Client)
      → Inv (record { client = Calling.start c; server = Serving.idle; joined = []; upgrades = [] })
  unfolding Calling.start
  start-Inv c = record { served = Serving.made; begun = tt; got = tt }

  Run-Inv : (c : Client) {s : Meeting} → Run sa codec authenticate c s → Inv s
  Run-Inv c here = start-Inv c
  Run-Inv c (next r step) = Step-Inv (Run-Inv c r) step

  -- In any history of a client and a server, with attempts that overlap, other clients, restarts of the
  -- server and the destruction of either: each session that the client's callback for new sessions was
  -- given is on a stream at whose other end the server read a request, whose credentials the callback
  -- that authenticates had accepted.
  pub Run-Admitted :
      (c : Client) {s : Meeting}
      → Run sa codec authenticate c s
      → All (λ a. Admitted s a.stream) (given s.client.trace)
  Run-Admitted c r = (Run-Inv c r).got
