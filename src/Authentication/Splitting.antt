-- ===== src/Authentication/Splitting.antt =====
-- `boost::split` on the texts that src/authentication.cpp splits.
use mathlib.Core.Path.{fun_ext}
use lib_native_streaming.Common.{
  ℕ, ◌≡◌, ◌≤◌, ap, ◌∙◌, Bool, true, List, [], ◌∷◌, ◌++◌, ◌==◌, inl, inr, arith,
}
use lib_native_streaming.Common.Bytes.{
  codes, free_of, drop_while, drop_while_free, take_until, take_until_free, take_until-free_of,
  first_of_class, All, free_of-All,
}
use lib_native_streaming.Authentication.{StringAlgorithm, StringLaws, basic_name, colon}

abbrev pub is_colon : ℕ → Bool
is_colon c = c == b':'

basic_name_graphic : All (λ c. (33 ≤ c) × (c ≤ 126)) basic_name
basic_name_graphic = omega arith

module _ (a : StringAlgorithm) (laws : StringLaws a) where
  pub is_any_of_colon : a.is_any_of colon ≡ is_colon
  is_any_of_colon = fun_ext λ x. laws.is_any_of_lem colon x ∙ ground arith

  -- The first token ends at the first separator.
  pub split_first :
      (p : ℕ → Bool) (xs : List ℕ)
      → (more : List (List ℕ)) × (a.split p xs ≡ take_until p xs ∷ more)
  split_first p xs = elim (first_of_class p xs) [
    | inl f ↦ ([], rw (take_until_free p xs f) (laws.split_one p xs f))
    | inr (c, rest, hit, e) ↦ (
      a.split p (drop_while p rest),
      ap (a.split p) e ∙ laws.split_more p (take_until p xs) c rest (take_until-free_of p xs) hit,
    )
  ]

  pub graphic_free :
      (xs : List ℕ) → All (λ c. (33 ≤ c) × (c ≤ 126)) xs → free_of a.is_space xs ≡ true
  graphic_free = free_of-All a.is_space (λ c. (33 ≤ c) × (c ≤ 126)) laws.graphic_is_no_space

  -- A header of a type name and a graphic text has these two parts.
  pub split-header :
      (encoded : List ℕ)
      → All (λ c. (33 ≤ c) × (c ≤ 126)) encoded
      → a.split a.is_space (codes "Basic " ++ encoded) ≡ basic_name ∷ encoded ∷ []
  split-header encoded h =
      let free = graphic_free encoded h in
      let name = graphic_free basic_name basic_name_graphic in
      laws.split_more a.is_space basic_name 32 encoded name laws.space_is_space
      ∙ ap (◌∷◌ basic_name) (
          ap (a.split a.is_space) (drop_while_free a.is_space encoded free)
          ∙ laws.split_one a.is_space encoded free)
