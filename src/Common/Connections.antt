-- ===== src/Common/Connections.antt =====
-- What the client, the server and their sessions share: streams, remote endpoints, and the arguments
-- with which a `Session` is made (include/native_streaming/session.hpp).
use Prim.Native.Nat.{ℕ}
use mathlib.Core.Option.{Option}
use mathlib.Core.List.{List}

-- `boost::beast::role_type`.
pub data RoleType : Type 0 where
  client server : RoleType

-- What `socket().remote_endpoint()` returns, where it does not throw.
pub record Endpoint : Type 0 where
  pub address : List ℕ
  pub port : ℕ

-- `std::make_shared<Session>(…)`: the web-socket stream and the user context are named by numbers.
pub record SessionArguments : Type 0 where
  pub stream : ℕ
  pub user_context : Option ℕ
  pub role : RoleType
  pub endpoint : Endpoint

-- The fields of an HTTP message that the library reads or sets.
pub record HttpFields : Type 0 where
  pub agent : Option (List ℕ)
  pub authorization : Option (List ℕ)
