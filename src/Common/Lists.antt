-- ===== src/Common/Lists.antt =====
-- Lists measured by native numbers, under the library's names.
use Prim.Native.Nat.{ℕ, zero, suc, ◌+◌, ◌-◌, ◌≤◌}
use mathlib.Core.Path.{◌≡◌, refl, sym, ap, subst}
use mathlib.Core.Option.{Option, none, some}
use mathlib.Core.List.Perm
use mathlib.Core.List.{Perm, List, [], ◌∷◌, ◌++◌, append_assoc}
use native.Mathlib.Omega.{arith}

module _ {ℓ} {A : Type ℓ} where
  abbrev pub length : List A → ℕ
  length [] = 0
  length (x ∷ xs) = suc (length xs)

  abbrev pub take : ℕ → List A → List A
  take zero xs = []
  take (suc n) [] = []
  take (suc n) (x ∷ xs) = x ∷ take n xs

  abbrev pub drop : ℕ → List A → List A
  drop zero xs = xs
  drop (suc n) [] = []
  drop (suc n) (x ∷ xs) = drop n xs

  abbrev pub replicate : ℕ → A → List A
  replicate zero a = []
  replicate (suc n) a = a ∷ replicate n a

  abbrev pub behind : A → Option (A × List A) → Option (A × List A)
  behind x none = none
  behind x (some (y, ys)) = some (y, x ∷ ys)

  -- The element at a place of a list, and the others.
  abbrev pub pick : ℕ → List A → Option (A × List A)
  pick n [] = none
  pick zero (x ∷ xs) = some (x, xs)
  pick (suc n) (x ∷ xs) = behind x (pick n xs)

  same_cut :
      (l : List A) {p q : A × List A} → some p ≡ some q → Perm (p.0 ∷ p.1) l → Perm (q.0 ∷ q.1) l
  same_cut l {p} {q} e h =
      let same : p ≡ q = cc in subst (λ (r : A × List A). Perm (r.0 ∷ r.1) l) same h

  picked :
      (x : A) {xs : List A} (o : Option (A × List A)) {q : A × List A}
      → ((p : A × List A) → o ≡ some p → Perm (p.0 ∷ p.1) xs)
      → behind x o ≡ some q
      → Perm (q.0 ∷ q.1) (x ∷ xs)
  picked x none h e = absurd cc
  picked x {xs} (some p) h e =
      same_cut (x ∷ xs) e (Perm.trans (Perm.swap x p.0 p.1) (Perm.cons x (h p refl)))

  pub pick-Perm : (n : ℕ) (xs : List A) {q : A × List A} → pick n xs ≡ some q → Perm (q.0 ∷ q.1) xs
  pick-Perm n [] e = absurd cc
  pick-Perm zero (x ∷ xs) e = same_cut (x ∷ xs) e (Perm.refl (x ∷ xs))
  pick-Perm (suc n) (x ∷ xs) e = picked x (pick n xs) (λ p f. pick-Perm n xs f) e

  pub length-append : (xs ys : List A) → length (xs ++ ys) ≡ length xs + length ys
  length-append [] ys = omega arith
  length-append (x ∷ xs) ys = omega (arith, length-append xs ys)

  pub length-drop : (n : ℕ) (xs : List A) → length (drop n xs) ≡ length xs - n
  length-drop zero xs = omega arith
  length-drop (suc n) [] = omega arith
  length-drop (suc n) (x ∷ xs) = omega (arith, length-drop n xs)

  pub length-take : (n : ℕ) (xs : List A) → n ≤ length xs → length (take n xs) ≡ n
  length-take zero xs h = refl
  length-take (suc n) [] h = absurd (omega arith)
  length-take (suc n) (x ∷ xs) h = ap suc (length-take n xs (omega arith))

  pub take-append : (n : ℕ) (xs ys : List A) → n ≤ length xs → take n (xs ++ ys) ≡ take n xs
  take-append zero xs ys h = refl
  take-append (suc n) [] ys h = absurd (omega arith)
  take-append (suc n) (x ∷ xs) ys h = ap (◌∷◌ x) (take-append n xs ys (omega arith))

  pub drop-append : (n : ℕ) (xs ys : List A) → n ≤ length xs → drop n (xs ++ ys) ≡ drop n xs ++ ys
  drop-append zero xs ys h = refl
  drop-append (suc n) [] ys h = absurd (omega arith)
  drop-append (suc n) (x ∷ xs) ys h = drop-append n xs ys (omega arith)

  pub take-append-drop : (n : ℕ) (xs : List A) → take n xs ++ drop n xs ≡ xs
  take-append-drop zero xs = refl
  take-append-drop (suc n) [] = refl
  take-append-drop (suc n) (x ∷ xs) = ap (◌∷◌ x) (take-append-drop n xs)

  pub append_self : (xs ys : List A) → xs ≡ xs ++ ys → ys ≡ []
  append_self [] ys e = sym e
  append_self (x ∷ xs) ys e = append_self xs ys cc

  pub take-length : (xs : List A) → take (length xs) xs ≡ xs
  take-length [] = refl
  take-length (x ∷ xs) = ap (◌∷◌ x) (take-length xs)

  -- The library's `flatten`, as an `abbrev` that computes in statements.
  abbrev pub flatten : List (List A) → List A
  flatten [] = []
  flatten (xs ∷ xss) = xs ++ flatten xss

module _ {ℓ} {A : Type ℓ} where
  pub flatten-append : (xss yss : List (List A)) → flatten (xss ++ yss) ≡ flatten xss ++ flatten yss
  flatten-append [] yss = refl
  flatten-append (xs ∷ xss) yss =
      rw (flatten-append xss yss) (rw (append_assoc xs (flatten xss) (flatten yss)))
