-- ===== src/Authentication/Tests.antt =====
-- A string algorithm that meets Boost's documentation, and the theorems about src/authentication.cpp
-- at the credentials of the repository's tests.
use lib_native_streaming.Common.{
  ℕ, ◌≡◌, ◌↔◌, refl, Bool, true, false, List, [], ◌∷◌, ◌++◌, ◌==◌, ◌||◌, ◌&&◌, leb, if◌then◌else◌,
  arith,
}
use lib_native_streaming.Common.Bytes.{codes, free_of, drop_while, take_until}
use lib_native_streaming.Common.Results.{returned, undefined, ◌>>=◌}
use lib_native_streaming.Base64
use lib_native_streaming.Base64.Rfc4648.{codec, codec-CodecLaws}
use lib_native_streaming.Authentication.{
  StringAlgorithm, StringLaws, contains, Authentication, basic_authentication, from_header,
  get_encoded_header,
}
use lib_native_streaming.Authentication.RoundTrip.{from_header-encoded, from_header-encoded_iff}
use lib_native_streaming.Authentication.Splitting.{is_colon}
use lib_native_streaming.Authentication.Parsed.{Says, from_header_returned, from_header_overflow}

abbrev prepend : ℕ → List (List ℕ) → List (List ℕ)
prepend x [] = (x ∷ []) ∷ []
prepend x (t ∷ ts) = (x ∷ t) ∷ ts

-- The flag tells that the last byte was a separator.
tokens : (ℕ → Bool) → Bool → List ℕ → List (List ℕ)
tokens p after [] = [] ∷ []
tokens p true (x ∷ xs) =
    let skip = tokens p true xs in
    let go_on = tokens p false xs in if p x then skip else prepend x go_on
tokens p false (x ∷ xs) =
    let skip = tokens p true xs in
    let go_on = tokens p false xs in if p x then [] ∷ skip else prepend x go_on

tokens_one : (p : ℕ → Bool) (xs : List ℕ) → free_of p xs ≡ true → tokens p false xs ≡ xs ∷ []
unfolding tokens
tokens_one p [] h = refl
tokens_one p (x ∷ xs) h = ground (arith, tokens_one p xs)

tokens_skip : (p : ℕ → Bool) (xs : List ℕ) → tokens p true xs ≡ tokens p false (drop_while p xs)
unfolding tokens
tokens_skip p [] = refl
tokens_skip p (x ∷ xs) = ground (arith, tokens_skip p xs)

tokens_more :
    (p : ℕ → Bool) (xs : List ℕ) (c : ℕ) (rest : List ℕ)
    → free_of p xs ≡ true
    → p c ≡ true
    → tokens p false (xs ++ c ∷ rest) ≡ xs ∷ tokens p false (drop_while p rest)
unfolding tokens
tokens_more p [] c rest h hit = rw (hit, tokens_skip p rest)
tokens_more p (x ∷ xs) c rest h hit = ground (arith, tokens_more p xs c rest)

unfoldable pub classic : StringAlgorithm
unfolding tokens
classic = record {
  is_space = λ c. c == 32 || (leb 9 c && leb c 13);
  is_any_of = contains;
  split = λ p xs. tokens p false xs;
}

pub classic-StringLaws : StringLaws classic
unfolding classic
classic-StringLaws = record {
  space_is_space = refl;
  graphic_is_no_space = λ c h. ground arith;
  is_any_of_lem = λ set c. refl;
  split_one = tokens_one;
  split_more = tokens_more;
}

abbrev pub jure : Authentication
jure = basic_authentication (codes "jure") (codes "jure123")

from_header-encoded_example :
    (get_encoded_header codec (basic_authentication (codes "jure") (codes "a:b"))
      >>= from_header classic codec)
    ≡ returned (
        basic_authentication
          (codes "jure")
          (take_until is_colon (drop_while is_colon (codes "a:b"))))
from_header-encoded_example =
    from_header-encoded classic classic-StringLaws codec codec-CodecLaws (codes "jure")
      (codes "a:b") (omega arith) (omega arith) refl

from_header-encoded_iff_example :
    ((get_encoded_header codec jure >>= from_header classic codec) ≡ returned jure)
    ↔ (free_of is_colon (codes "jure123") ≡ true)
from_header-encoded_iff_example =
    from_header-encoded_iff classic classic-StringLaws codec codec-CodecLaws (codes "jure")
      (codes "jure123") (omega arith) (omega arith) refl

header_of_jure : from_header classic codec (codes "Basic anVyZTpqdXJlMTIz") ≡ returned jure
unfolding from_header classic codec Base64.decode
header_of_jure = refl

from_header_returned_example : Says classic codec (codes "Basic anVyZTpqdXJlMTIz") jure
from_header_returned_example =
    from_header_returned classic classic-StringLaws codec (codes "Basic anVyZTpqdXJlMTIz") jure
      header_of_jure

from_header_overflow_example : from_header classic codec (codes "Basic YQ") ≡ undefined
unfolding codec
from_header_overflow_example =
    from_header_overflow classic classic-StringLaws codec (codes "YQ") (omega arith) (omega arith)
