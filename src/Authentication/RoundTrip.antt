-- ===== src/Authentication/RoundTrip.antt =====
-- The header that a client sends and what `Authentication::fromHeader` reads from it
-- (src/authentication.cpp).
use lib_native_streaming.Common.{ℕ, ◌≡◌, ◌<◌, ◌↔◌, refl, ap, ◌∙◌, true, List, ◌∷◌, ◌++◌, arith}
use lib_native_streaming.Common.Bytes.{
  free_of, drop_while, drop_while_free, take_until, take_until_free, free_of-take_until, All,
  All-append,
}
use lib_native_streaming.Common.Results.{returned, ◌>>=◌}
use lib_native_streaming.Base64.{Codec, CodecLaws}
use lib_native_streaming.Base64.Laws.{encode_lem, decode_lem}
use lib_native_streaming.Authentication.{
  StringAlgorithm, StringLaws, basic_authentication, colon, from_header, get_encoded_header,
}
use lib_native_streaming.Authentication.Splitting.{
  is_colon, is_any_of_colon, split_first, split-header,
}

-- A `std::string` holds bytes.
abbrev pub IsBytes : List ℕ → Type 0
IsBytes = All (λ x. x < 256)

module _ (a : StringAlgorithm) (sl : StringLaws a) (c : Codec) (cl : CodecLaws c) where
  -- What is split off behind the first colon.
  split-credentials :
      (u p : List ℕ)
      → free_of is_colon u ≡ true
      → (more : List (List ℕ)) × (a.split (a.is_any_of colon) (u ++ (colon ++ p))
          ≡ u ∷ take_until is_colon (drop_while is_colon p) ∷ more)
  split-credentials u p h =
      let (more, e) = split_first a sl is_colon (drop_while is_colon p) in
      (more, rw (is_any_of_colon a sl) (sl.split_more is_colon u 58 p h refl ∙ ap (◌∷◌ u) e))

  -- With a codec and a string algorithm that keep their documentation, the header of credentials of
  -- bytes whose user name has no colon is read as the same user name, and as the
  -- password from its first byte that is no colon up to the next colon. Nothing is thrown.
  pub from_header-encoded :
      (u p : List ℕ)
      → IsBytes u
      → IsBytes p
      → free_of is_colon u ≡ true
      → (get_encoded_header c (basic_authentication u p) >>= from_header a c)
        ≡ returned (basic_authentication u (take_until is_colon (drop_while is_colon p)))
  unfolding get_encoded_header from_header
  from_header-encoded u p bu bp h =
      let text = u ++ (colon ++ p) in
      let bytes = All-append (λ x. x < 256) u (colon ++ p) bu (omega arith, bp) in
      let (more, e) = split-credentials u p h in
      rw (
        encode_lem c cl text,
        split-header a sl (c.encode text) (cl.encode_graphic text),
        decode_lem c cl (c.encode text) (cl.encode_groups text),
        cl.decode-encode text bytes,
        e,
      )

  -- With a codec and a string algorithm that keep their documentation, credentials of bytes whose user
  -- name has no colon survive the header exactly when the password has no colon.
  pub from_header-encoded_iff :
      (u p : List ℕ)
      → IsBytes u
      → IsBytes p
      → free_of is_colon u ≡ true
      → ((get_encoded_header c (basic_authentication u p) >>= from_header a c)
          ≡ returned (basic_authentication u p))
        ↔ (free_of is_colon p ≡ true)
  from_header-encoded_iff u p bu bp h =
      let e = from_header-encoded u p bu bp h in
      (
        λ same. free_of-take_until is_colon p (ground (arith, e)),
        λ free.
            e
            ∙ ap (λ (q : List ℕ). returned (basic_authentication u q))
                (ap (take_until is_colon) (drop_while_free is_colon p free)
                  ∙ take_until_free is_colon p free),
      )
