-- ===== src/Common/Results.antt =====
-- A call that may throw. `undefined` is a write past the end of a buffer.
pub data Exception : Type 0 where
  invalid_authorization_header invalid_basic_header : Exception

pub data Result (A : Type 0) : Type 0 where
  returned : A → Result A
  thrown : Exception → Result A
  undefined : Result A

module _ {A B : Type 0} where
  infixl 5 ◌>>=◌
  abbrev pub ◌>>=◌ : Result A → (A → Result B) → Result B
  returned a >>= f = f a
  thrown e >>= f = thrown e
  undefined >>= f = undefined
