-- ===== src/Meeting.antt =====
-- A `Client` and a `Server` (src/client.cpp, src/server.cpp) with the network between them, over which
-- other clients may reach the server too. The web-socket handshake is Boost.Beast's: it succeeds at the
-- client only once the server has begun to accept the upgrade of the connection's other end.
pub mod Admitted
mod Tests
use mathlib.Core.List.{Memᴰ}
use lib_native_streaming.Common.{ℕ, ◌≡◌, Option, some, List, [], ◌∷◌, ◌++◌, pick}
use lib_native_streaming.Common.Errors.{success}
use lib_native_streaming.Base64.{Codec}
use lib_native_streaming.Authentication.{StringAlgorithm}
use lib_native_streaming.Client.{Client}
use lib_native_streaming.Client.System as Calling
use lib_native_streaming.Client.System.{Pending, handshaking, upgraded}
use lib_native_streaming.Server.{Authenticate}
use lib_native_streaming.Server.System as Serving
use lib_native_streaming.Server.System.{idle}

-- `joined` has the streams of the client with those of the server at their other ends, `upgrades` the
-- upgrades that the server has begun, each with its user context.
pub record Meeting : Type 0 where
  pub client : Calling.System
  pub server : Serving.System
  pub joined : List (ℕ × ℕ)
  pub upgrades : List (ℕ × Option ℕ)

-- The other end of a client's stream has begun to accept the upgrade.
abbrev pub Upgrading : Meeting → ℕ → Type 0
Upgrading s stream =
    (other : ℕ) × (user_context : Option ℕ) × Memᴰ (stream, other) s.joined
    × Memᴰ (other, user_context) s.upgrades

abbrev pub Replied : Meeting → Calling.Event → Type 0
Replied s (upgraded i success e) =
    (stream : ℕ) × (rest : List Pending) × (pick i s.client.pending
      ≡ some (handshaking stream, rest))
    × Upgrading s stream
Replied s _ = Unit {0}

module _ (sa : StringAlgorithm) (codec : Codec) (authenticate : Authenticate) where
  pub data Step (s : Meeting) : Meeting → Type 0 where
    joins : (stream other : ℕ) → Step s (record s { joined = (stream, other) ∷ s.joined })
    at_server :
        (u : Serving.System)
        → Serving.Step sa codec authenticate s.server u
        → Step s (record s { server = u; upgrades = s.upgrades ++ u.upgrading })
    at_client :
        (e : Calling.Event) (u : Calling.System)
        → Replied s e
        → Calling.step s.client e ≡ some u
        → Step s (record s { client = u })

  pub data Run (c : Client) : Meeting → Type 0 where
    here : Run c (record { client = Calling.start c; server = idle; joined = []; upgrades = [] })
    next : {s u : Meeting} → Run c s → Step s u → Run c u
