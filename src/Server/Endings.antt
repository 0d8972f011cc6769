-- ===== src/Server/Endings.antt =====
-- What the end of an upgrade and `Server::stop` (src/server.cpp) do to the server and to its pending
-- operations.
use lib_native_streaming.Common.{ℕ, ◌≡◌, refl, Bool, true, false, Option, none, some, List, []}
use lib_native_streaming.Common.Bytes.{All}
use lib_native_streaming.Common.Errors.{ErrorCode, success}
use lib_native_streaming.Common.Connections.{Endpoint, SessionArguments}
use lib_native_streaming.Server.{
  Acceptor, Server, v4, v6, is_open, Effect, stop_tcp_accept, stop, on_upgrade_connection,
}
use lib_native_streaming.Server.System.{accepts, reads, upgrades, opened}

-- A completed upgrade starts nothing, and gives its own stream and user context to at most one session.
pub record Opens (stream : ℕ) (user_context : Option ℕ) (s : Server)
    (r : Unit {0} × Server × List Effect) : Type 0 where
  pub keeps : r.1 ≡ s
  pub starts_accepts : accepts r.2 ≡ []
  pub starts_reads : reads r.2 ≡ []
  pub starts_upgrades : upgrades r.2 ≡ []
  pub given :
      All
        (λ (x : SessionArguments). (x.stream ≡ stream) × (x.user_context ≡ user_context))
        (opened r.2)

abbrev pub Opened : ℕ → Option ℕ → Server → Option (Unit {0} × Server × List Effect) → Type 0
Opened stream user_context s none = Unit {0}
Opened stream user_context s (some r) = Opens stream user_context s r

pub on_upgrade_connection_lem :
    (ec : ErrorCode) (stream : ℕ) (user_context : Option ℕ) (is_live : Bool)
    (endpoint : Option Endpoint) (s : Server)
    → Opened stream user_context s (on_upgrade_connection ec stream user_context is_live endpoint s)
unfolding on_upgrade_connection
on_upgrade_connection_lem success stream ctx true (some e) s = record {
  keeps = refl;
  starts_accepts = refl;
  starts_reads = refl;
  starts_upgrades = refl;
  given = ((refl, refl), tt);
}
on_upgrade_connection_lem success stream ctx false (some e) s = record {
  keeps = refl;
  starts_accepts = refl;
  starts_reads = refl;
  starts_upgrades = refl;
  given = tt;
}
on_upgrade_connection_lem success stream ctx b none s = record {
  keeps = refl;
  starts_accepts = refl;
  starts_reads = refl;
  starts_upgrades = refl;
  given = tt;
}
on_upgrade_connection_lem _ stream ctx b none s = record {
  keeps = refl;
  starts_accepts = refl;
  starts_reads = refl;
  starts_upgrades = refl;
  given = tt;
}
on_upgrade_connection_lem _ stream ctx b (some e) s = record {
  keeps = refl;
  starts_accepts = refl;
  starts_reads = refl;
  starts_upgrades = refl;
  given = tt;
}

-- `stop` leaves both acceptors closed, and starts nothing.
pub record Stops (r : Unit {0} × Server × List Effect) : Type 0 where
  pub closed : (a : Acceptor) → is_open a r.1 ≡ false
  pub starts_accepts : accepts r.2 ≡ []
  pub starts_reads : reads r.2 ≡ []
  pub starts_upgrades : upgrades r.2 ≡ []
  pub opens : opened r.2 ≡ []

abbrev pub Stopped : Option (Unit {0} × Server × List Effect) → Type 0
Stopped none = ⊥
Stopped (some r) = Stops r

both : (s : Server) → s.v4_open ≡ false → s.v6_open ≡ false → (a : Acceptor) → is_open a s ≡ false
both s e4 e6 v4 = e4
both s e4 e6 v6 = e6

stops : (s : Server) (b4 b6 : Bool) → s.v4_open ≡ b4 → s.v6_open ≡ b6 → Stopped (stop s)
unfolding stop
stops s true true e4 e6 =
    rw (stop, stop_tcp_accept, e4, e6)
      (record {
        closed = both _ refl refl;
        starts_accepts = refl;
        starts_reads = refl;
        starts_upgrades = refl;
        opens = refl;
      })
stops s true false e4 e6 =
    rw (stop, stop_tcp_accept, e4, e6)
      (record {
        closed = both _ refl refl;
        starts_accepts = refl;
        starts_reads = refl;
        starts_upgrades = refl;
        opens = refl;
      })
stops s false true e4 e6 =
    rw (stop, stop_tcp_accept, e4, e6)
      (record {
        closed = both _ refl refl;
        starts_accepts = refl;
        starts_reads = refl;
        starts_upgrades = refl;
        opens = refl;
      })
stops s false false e4 e6 =
    rw (stop, stop_tcp_accept, e4, e6)
      (record {
        closed = both _ refl refl;
        starts_accepts = refl;
        starts_reads = refl;
        starts_upgrades = refl;
        opens = refl;
      })

pub stop_lem : (s : Server) → Stopped (stop s)
stop_lem s = stops s s.v4_open s.v6_open refl refl
