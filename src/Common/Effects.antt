-- ===== src/Common/Effects.antt =====
-- Methods of a mutable object. A method takes the object's state and returns its value, the new
-- state and the effects on the world outside, in the order in which the code has them. `none` means
-- that the code has no defined result there: a read outside of a container, or fuel that ran out.
use mathlib.Core.Option.{Option, none, some}
use mathlib.Core.List.{List, [], ◌∷◌, ◌++◌}

abbrev pub M : Type 0 → Type 0 → Type 0 → Type 0
M S E A = S → Option (A × S × List E)

module _ {S E A B : Type 0} where
  infixl 5 ◌>>=◌
  abbrev pub ◌>>=◌ : M S E A → (A → M S E B) → M S E B
  ◌>>=◌ m f s = elim (m s) [
    | none ↦ none
    | some r ↦ elim (f r.0 r.1) [ none ↦ none | some q ↦ some (q.0, q.1, r.2 ++ q.2) ]
  ]

module _ {S E B : Type 0} where
  infixl 5 ◌>>◌
  abbrev pub ◌>>◌ : M S E (Unit {0}) → M S E B → M S E B
  m >> k = m >>= λ _. k

module _ {S E : Type 0} where
  abbrev pub get : M S E S
  get s = some (s, s, [])

  abbrev pub put : S → M S E (Unit {0})
  put s' s = some (tt, s', [])

  abbrev pub modify : (S → S) → M S E (Unit {0})
  modify f s = some (tt, f s, [])

  abbrev pub emit : E → M S E (Unit {0})
  emit e s = some (tt, s, e ∷ [])

  abbrev pub emit_all : List E → M S E (Unit {0})
  emit_all es s = some (tt, s, es)

  -- `return;`
  abbrev pub skip : M S E (Unit {0})
  skip s = some (tt, s, [])

  abbrev pub undefined : {A : Type 0} → M S E A
  undefined s = none
