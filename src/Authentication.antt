-- ===== src/Authentication.antt =====
-- include/native_streaming/authentication.hpp and src/authentication.cpp: the credentials of a
-- client, their Authorization header, and the parser of that header. `boost::split` and its
-- predicates are not part of the repository: they are a parameter, `StringAlgorithm`.
pub mod Splitting
pub mod RoundTrip
pub mod Parsed
pub mod Tests
use lib_native_streaming.Common.{
  ℕ, ◌≡◌, ◌≤◌, Bool, true, false, List, [], ◌∷◌, ◌++◌, ◌==◌, ◌||◌, if◌then◌else◌,
}
use lib_native_streaming.Common.Bytes.{codes, bytes_eq, free_of, drop_while}
use lib_native_streaming.Common.Results.{
  Result, returned, thrown, invalid_authorization_header, invalid_basic_header, ◌>>=◌,
}
use lib_native_streaming.Base64.{Codec}
use lib_native_streaming.Base64

pub data AuthenticationType : Type 0 where
  anonymous basic : AuthenticationType

pub record Authentication : Type 0 where
  pub type : AuthenticationType
  pub username : List ℕ
  pub password : List ℕ

-- `Authentication()`.
abbrev pub no_authentication : Authentication
no_authentication = record { type = anonymous; username = []; password = [] }

-- `Authentication(username, password)`.
abbrev pub basic_authentication : List ℕ → List ℕ → Authentication
basic_authentication username password = record {
  type = basic;
  username = username;
  password = password;
}

-- The getters.
abbrev pub get_type : Authentication → AuthenticationType
get_type auth = auth.type

abbrev pub get_username : Authentication → List ℕ
get_username auth = auth.username

abbrev pub get_password : Authentication → List ℕ
get_password auth = auth.password

-- Boost.StringAlgorithm: `split` with `token_compress_on`, `is_space()`, `is_any_of(set)`.
pub record StringAlgorithm : Type 0 where
  pub is_space : ℕ → Bool
  pub is_any_of : List ℕ → ℕ → Bool
  pub split : (ℕ → Bool) → List ℕ → List (List ℕ)

abbrev pub contains : List ℕ → ℕ → Bool
contains [] x = false
contains (y ∷ ys) x = x == y || contains ys x

-- What Boost documents: a blank is a space, and no printable character is; a set is searched; a text
-- without separators is one token; otherwise the token ends at the first separator, adjacent
-- separators count as one, and the rest is split.
pub record StringLaws (a : StringAlgorithm) : Type 0 where
  pub space_is_space : a.is_space 32 ≡ true
  pub graphic_is_no_space : (c : ℕ) → (33 ≤ c) × (c ≤ 126) → a.is_space c ≡ false
  pub is_any_of_lem : (set : List ℕ) (c : ℕ) → a.is_any_of set c ≡ contains set c
  pub split_one : (p : ℕ → Bool) (xs : List ℕ) → free_of p xs ≡ true → a.split p xs ≡ xs ∷ []
  pub split_more :
      (p : ℕ → Bool) (xs : List ℕ) (c : ℕ) (rest : List ℕ)
      → free_of p xs ≡ true
      → p c ≡ true
      → a.split p (xs ++ c ∷ rest) ≡ xs ∷ a.split p (drop_while p rest)

abbrev pub basic_name : List ℕ
basic_name = codes "Basic"

abbrev pub colon : List ℕ
colon = codes ":"

module _ (a : StringAlgorithm) (c : Codec) where
  -- The check `authParts.size() < 2`, and the credentials.
  abbrev pub from_auth_parts : List (List ℕ) → Result Authentication
  from_auth_parts [] = thrown invalid_basic_header
  from_auth_parts (username ∷ []) = thrown invalid_basic_header
  from_auth_parts (username ∷ password ∷ more) = returned (basic_authentication username password)

  -- The body of `if (headerParts.size() >= 2)`, and the throw behind it.
  abbrev pub from_header_parts : List (List ℕ) → Result Authentication
  from_header_parts [] = thrown invalid_authorization_header
  from_header_parts (auth_type ∷ []) = thrown invalid_authorization_header
  from_header_parts (auth_type ∷ encoded ∷ more) = do
    value ← Base64.decode c encoded
    if bytes_eq auth_type basic_name
        then from_auth_parts (a.split (a.is_any_of colon) value)
        else thrown invalid_authorization_header

  unfoldable pub from_header : List ℕ → Result Authentication
  from_header header = from_header_parts (a.split a.is_space header)

abbrev pub encoded_credentials : Codec → Authentication → AuthenticationType → Result (List ℕ)
encoded_credentials c auth basic = do
  encoded ← Base64.encode c (auth.username ++ (colon ++ auth.password))
  returned (codes "Basic " ++ encoded)
encoded_credentials c auth anonymous = returned []

unfoldable pub get_encoded_header : Codec → Authentication → Result (List ℕ)
get_encoded_header c auth = encoded_credentials c auth auth.type
