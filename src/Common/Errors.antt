-- ===== src/Common/Errors.antt =====
-- `boost::system::error_code` as the sources use it: whether it is set, and whether its value is
-- `boost::asio::error::operation_aborted`. Any other value is a number.
use Prim.Native.Nat.{ℕ}
use mathlib.Core.Bool.{Bool, true, false}

pub data ErrorCode : Type 0 where
  success operation_aborted : ErrorCode
  failure : ℕ → ErrorCode

-- `if (ec)`.
abbrev pub is_error : ErrorCode → Bool
is_error success = false
is_error operation_aborted = true
is_error (failure n) = true

-- `ec.value() == boost::asio::error::operation_aborted`.
abbrev pub is_aborted : ErrorCode → Bool
is_aborted success = false
is_aborted operation_aborted = true
is_aborted (failure n) = false

-- The levels of the macros that log in every build; `trace` and `debug` are empty under NDEBUG.
pub data LogLevel : Type 0 where
  err warn info : LogLevel
