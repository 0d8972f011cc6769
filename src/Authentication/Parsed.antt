-- ===== src/Authentication/Parsed.antt =====
-- What `Authentication::fromHeader` (src/authentication.cpp) returns on any header, and where its
-- call of `Base64::decode` writes past the end of a buffer.
use lib_native_streaming.Common.{
  ℕ, ◌≡◌, ◌≤◌, ◌<◌, ◌⊎◌, inl, inr, ap, sym, refl, subst, ◌∙◌, Bool, true, List, [], ◌∷◌, ◌++◌,
  if◌then◌else◌, arith, length, Bool-cases,
}
use lib_native_streaming.Common.Bytes.{
  codes, bytes_eq, free_of, drop_while, take_until, take_until-free_of, first_of_class, All,
}
use lib_native_streaming.Common.Results.{
  Result, returned, thrown, undefined, invalid_authorization_header, ◌>>=◌,
}
use lib_native_streaming.Base64.{Codec}
use lib_native_streaming.Base64
use lib_native_streaming.Base64.Laws.{decode_overflow}
use lib_native_streaming.Authentication.{
  StringAlgorithm, StringLaws, Authentication, basic_authentication, basic, basic_name, colon,
  from_header_parts, from_auth_parts, from_header,
}
use lib_native_streaming.Authentication.Splitting.{
  is_colon, is_any_of_colon, split_first, split-header,
}

module _ (a : StringAlgorithm) (c : Codec) where
  -- `auth` is what a Basic header says: behind the word Basic comes a token, which decodes to the user
  -- name, a colon and a rest whose first part between colons is the password.
  pub record Says (header : List ℕ) (auth : Authentication) : Type 0 where
    pub encoded : List ℕ
    pub more : List (List ℕ)
    pub value : List ℕ
    pub rest : List ℕ
    pub tokens : a.split a.is_space header ≡ codes "Basic" ∷ encoded ∷ more
    pub decoded : Base64.decode c encoded ≡ returned value
    pub cut : value ≡ auth.username ++ b':' ∷ rest
    pub first : free_of is_colon auth.username ≡ true
    pub second : auth.password ≡ take_until is_colon (drop_while is_colon rest)
    pub is_basic : auth.type ≡ basic

module _ (a : StringAlgorithm) (sl : StringLaws a) (c : Codec) where
  colon_of : (k : ℕ) → is_colon k ≡ true → k ≡ b':'
  colon_of k h = ground arith

  bytes_eq_sound : (xs ys : List ℕ) → bytes_eq xs ys ≡ true → xs ≡ ys
  bytes_eq_sound [] [] h = refl
  bytes_eq_sound (x ∷ xs) (y ∷ ys) h = ground (arith, bytes_eq_sound xs ys)
  bytes_eq_sound [] (y ∷ ys) h = cc
  bytes_eq_sound (x ∷ xs) [] h = cc

  -- The tokens of a text with no colon, and of one with a colon.
  split_colon :
      (v : List ℕ)
      → (a.split is_colon v ≡ v ∷ [])
        ⊎ ((rest : List ℕ) × (more : List (List ℕ)) × (v ≡ take_until is_colon v ++ b':' ∷ rest)
            × (a.split is_colon v
                ≡ take_until is_colon v ∷ take_until is_colon (drop_while is_colon rest) ∷ more))
  split_colon v = elim (first_of_class is_colon v) [
    | inl f ↦ inl (sl.split_one is_colon v f)
    | inr (k, rest, hit, e) ↦
        let (more, tokens) = split_first a sl is_colon (drop_while is_colon rest) in
        inr (
          rest,
          more,
          e ∙ ap (λ x. take_until is_colon v ++ x ∷ rest) (colon_of k hit),
          ap (a.split is_colon) e
              ∙ sl.split_more is_colon (take_until is_colon v) k rest
                  (take_until-free_of is_colon v) hit
              ∙ ap (◌∷◌ (take_until is_colon v)) tokens,
        )
  ]

  from_value :
      (header t encoded : List ℕ) (more : List (List ℕ)) (v : List ℕ) (auth : Authentication)
      → a.split a.is_space header ≡ t ∷ encoded ∷ more
      → t ≡ basic_name
      → Base64.decode c encoded ≡ returned v
      → from_auth_parts a c (a.split (a.is_any_of colon) v) ≡ returned auth
      → Says a c header auth
  from_value header t encoded more v auth tokens name decoded h =
      let same : from_auth_parts a c (a.split is_colon v) ≡ returned auth =
        ap (λ (p : ℕ → Bool). from_auth_parts a c (a.split p v)) (sym (is_any_of_colon a sl)) ∙ h in
      elim (split_colon v) [
        | inl e ↦ ground (arith, same, e)
        | inr (rest, others, whole, e) ↦
            let made : basic_authentication (take_until is_colon v)
                  (take_until is_colon (drop_while is_colon rest))
                ≡ auth =
              ground (arith, same, e) in
            subst (Says a c header) made (record {
              encoded = encoded;
              more = more;
              value = v;
              rest = rest;
              tokens = rw (tokens, name) refl;
              decoded = decoded;
              cut = whole;
              first = take_until-free_of is_colon v;
              second = refl;
              is_basic = refl;
            })
      ]

  from_decoded :
      (header t encoded : List ℕ) (more : List (List ℕ)) (r : Result (List ℕ))
      (auth : Authentication)
      → a.split a.is_space header ≡ t ∷ encoded ∷ more
      → Base64.decode c encoded ≡ r
      → (r >>= λ v.
          if bytes_eq t basic_name
          then from_auth_parts a c (a.split (a.is_any_of colon) v)
          else thrown invalid_authorization_header)
        ≡ returned auth
      → Says a c header auth
  from_decoded header t encoded more (returned v) auth tokens decoded h =
      elim (Bool-cases (bytes_eq t basic_name)) [
        | inl e ↦
            from_value header t encoded more v auth tokens (bytes_eq_sound t basic_name e) decoded
              (ground (arith, e, h))
        | inr e ↦ ground (arith, e, h)
      ]
  from_decoded header t encoded more (thrown e) auth tokens decoded h = cc
  from_decoded header t encoded more undefined auth tokens decoded h = cc

  from_parts :
      (header : List ℕ) (l : List (List ℕ)) (auth : Authentication)
      → a.split a.is_space header ≡ l
      → from_header_parts a c l ≡ returned auth
      → Says a c header auth
  from_parts header [] auth tokens h = cc
  from_parts header (t ∷ []) auth tokens h = cc
  from_parts header (t ∷ e ∷ more) auth tokens h =
      from_decoded header t e more (Base64.decode c e) auth tokens refl h

  -- With a string algorithm that keeps its documentation, credentials that are returned are those that
  -- the header says: its first token is the word Basic, its second one decodes to the user name, which
  -- has no colon, then a colon and a rest, and the password is the part of that rest up to the next
  -- colon, without the colons in front of it.
  pub from_header_returned :
      (header : List ℕ) (auth : Authentication)
      → from_header a c header ≡ returned auth
      → Says a c header auth
  unfolding from_header
  from_header_returned header auth h = from_parts header (a.split a.is_space header) auth refl h

  -- With a string algorithm that keeps its documentation, a Basic header of a printable text that
  -- the codec decodes to more bytes than `decoded_size` allots writes past the end of the buffer,
  -- before any check of what it holds.
  pub from_header_overflow :
      (encoded : List ℕ)
      → All (λ x. (33 ≤ x) × (x ≤ 126)) encoded
      → c.decoded_size (length encoded) < length (c.decode encoded).0
      → from_header a c (codes "Basic " ++ encoded) ≡ undefined
  unfolding from_header
  from_header_overflow encoded g h = rw (split-header a sl encoded g, decode_overflow c encoded h)
