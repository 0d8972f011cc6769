-- ===== src/Common/Bytes.antt =====
-- `std::string` as the list of its bytes: literals, comparison, `resize`, and searches by a class of
-- bytes.
use Prim.Native.Char.{code}
use Prim.Native.String.{String}
use Prim.Native.Nat.{ℕ, zero, suc}
use mathlib.Core.Path.{◌≡◌, refl, ap}
use mathlib.Core.Logic.{◌⊎◌, inl, inr}
use mathlib.Core.Bool.{Bool, true, false, ◌&&◌}
use mathlib.Core.List.{List, [], ◌∷◌, ◌++◌}
use native.Mathlib.Omega.{arith}
use lib_native_streaming.Common.Tests.{◌==◌, if◌then◌else◌, Bool-cases}
use lib_native_streaming.Common.Lists.{length}

abbrev pub codes : String → List ℕ
codes String.[] = []
codes (String.◌∷◌ c s) = code c ∷ codes s

-- `operator==` of strings.
abbrev pub bytes_eq : List ℕ → List ℕ → Bool
bytes_eq [] [] = true
bytes_eq [] (y ∷ ys) = false
bytes_eq (x ∷ xs) [] = false
bytes_eq (x ∷ xs) (y ∷ ys) = x == y && bytes_eq xs ys

-- `resize` cuts the end off, or fills up with null bytes.
abbrev pub resize : ℕ → List ℕ → List ℕ
resize zero xs = []
resize (suc n) [] = 0 ∷ resize n []
resize (suc n) (x ∷ xs) = x ∷ resize n xs

pub resize-append : (xs ys : List ℕ) → resize (length xs) (xs ++ ys) ≡ xs
resize-append [] ys = refl
resize-append (x ∷ xs) ys = ap (◌∷◌ x) (resize-append xs ys)

pub length-resize : (n : ℕ) (xs : List ℕ) → length (resize n xs) ≡ n
length-resize zero xs = refl
length-resize (suc n) [] = ap suc (length-resize n [])
length-resize (suc n) (x ∷ xs) = ap suc (length-resize n xs)

-- No byte is of the class.
abbrev pub free_of : (ℕ → Bool) → List ℕ → Bool
free_of p [] = true
free_of p (x ∷ xs) = if p x then false else free_of p xs

abbrev pub drop_while : (ℕ → Bool) → List ℕ → List ℕ
drop_while p [] = []
drop_while p (x ∷ xs) = let rest = drop_while p xs in if p x then rest else x ∷ xs

-- Up to the first byte of the class, this byte left out.
abbrev pub take_until : (ℕ → Bool) → List ℕ → List ℕ
take_until p [] = []
take_until p (x ∷ xs) = if p x then [] else x ∷ take_until p xs

abbrev pub All {ℓ κ} : {A : Type ℓ} → (A → Type κ) → List A → Type κ
All P [] = Unit
All P (x ∷ xs) = P x × All P xs

pub All-append {ℓ κ} :
    {A : Type ℓ} (P : A → Type κ) (xs ys : List A) → All P xs → All P ys → All P (xs ++ ys)
All-append P [] ys hx hy = hy
All-append P (x ∷ xs) ys hx hy = (hx.0, All-append P xs ys hx.1 hy)

module _ (p : ℕ → Bool) where
  pub drop_while_free : (xs : List ℕ) → free_of p xs ≡ true → drop_while p xs ≡ xs
  drop_while_free [] h = refl
  drop_while_free (x ∷ xs) h = ground arith

  pub take_until_free : (xs : List ℕ) → free_of p xs ≡ true → take_until p xs ≡ xs
  take_until_free [] h = refl
  take_until_free (x ∷ xs) h = ground (arith, take_until_free xs)

  pub take_until-free_of : (xs : List ℕ) → free_of p (take_until p xs) ≡ true
  take_until-free_of [] = refl
  take_until-free_of (x ∷ xs) = ground (arith, take_until-free_of xs)

  -- A text has no byte of the class, or splits at the first one.
  pub first_of_class :
      (xs : List ℕ)
      → (free_of p xs ≡ true)
        ⊎ ((c : ℕ) × (rest : List ℕ) × (p c ≡ true) × (xs ≡ take_until p xs ++ c ∷ rest))
  first_of_class [] = inl refl
  first_of_class (x ∷ xs) = elim (Bool-cases (p x)) [
    | inl hit ↦ inr (x, xs, hit, ground arith)
    | inr miss ↦ elim (first_of_class xs) [
      | inl f ↦ inl (ground arith)
      | inr (c, rest, hit, e) ↦ inr (c, rest, hit, ground arith)
    ]
  ]

  pub free_of-All :
      (P : ℕ → Type 0)
      → ((c : ℕ) → P c → p c ≡ false)
      → (xs : List ℕ) → All P xs
      → free_of p xs ≡ true
  free_of-All P h [] a = refl
  free_of-All P h (x ∷ xs) (a, as_) = rw (h x a) (free_of-All P h xs as_)

  -- The text is equal to its part before the first byte of the class only if it has no such byte.
  pub free_of-take_until : (xs : List ℕ) → take_until p (drop_while p xs) ≡ xs → free_of p xs ≡ true
  free_of-take_until xs e = rw (← e) (take_until-free_of (drop_while p xs))
