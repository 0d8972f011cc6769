-- ===== src/Reader/Framing.antt =====
-- What a sequence of read tasks is to deliver, as a relation that knows nothing of buffers and of the
-- network: the bytes are cut into the pieces that the tasks ask for, in order, each handler gets its
-- piece and names the next task, until a task has no handler or the bytes that are left are too few.
-- src/async_reader.cpp is proved against it.
use lib_native_streaming.Common.{
  ℕ, ◌≡◌, ◌≤◌, ◌<◌, sym, subst, ◌∙◌, ◌⊎◌, inl, inr, none, some, List, [], ◌∷◌, ◌++◌, length, take,
  drop, take-append, drop-append, length-append, take-append-drop, append_assoc, arith,
}
use lib_native_streaming.Reader.{ReadTask}

abbrev pub Pieces : Type 0 → Type 0
Pieces H = List (H × List ℕ)

abbrev pub bytes_of : {H : Type 0} → Pieces H → List ℕ
bytes_of [] = []
bytes_of ((h, xs) ∷ ps) = xs ++ bytes_of ps

module _ {H : Type 0} (handle : H → List ℕ → ReadTask H) where
  -- `Delivers t xs ps u ys`: from the task `t` and the bytes `xs` the handlers get the pieces `ps`,
  -- and the task `u` and the bytes `ys` are left.
  pub data Delivers : ReadTask H → List ℕ → Pieces H → ReadTask H → List ℕ → Type 0 where
    finished :
        {t u : ReadTask H} {xs ys : List ℕ} {ps : Pieces H}
        → t.handler ≡ none
        → ps ≡ []
        → u ≡ t
        → ys ≡ xs
        → Delivers t xs ps u ys
    waiting :
        {t u : ReadTask H} {xs ys : List ℕ} {ps : Pieces H} (h : H)
        → t.handler ≡ some h
        → length xs < t.bytes_to_read
        → ps ≡ []
        → u ≡ t
        → ys ≡ xs
        → Delivers t xs ps u ys
    piece :
        {t u : ReadTask H} {xs ys : List ℕ} {ps qs : Pieces H} (h : H)
        → t.handler ≡ some h
        → t.bytes_to_read ≤ length xs
        → Delivers (handle h (take t.bytes_to_read xs)) (drop t.bytes_to_read xs) qs u ys
        → ps ≡ (h, take t.bytes_to_read xs) ∷ qs
        → Delivers t xs ps u ys

  -- Bytes that come later are delivered as if they had been there from the start.
  pub Delivers-append :
      {t u v : ReadTask H} {xs ys ws : List ℕ} {ps qs : Pieces H} (zs : List ℕ)
      → Delivers t xs ps u ys
      → Delivers u (ys ++ zs) qs v ws
      → Delivers t (xs ++ zs) (ps ++ qs) v ws
  Delivers-append {v = v} {ws = ws} {qs = qs} zs (finished {t} {u} {xs} {ys} {ps} e p f g) more =
      rw (p) (
        subst (λ (b : List ℕ). Delivers t (b ++ zs) qs v ws) g
          (subst (λ (a : ReadTask H). Delivers a (ys ++ zs) qs v ws) f more))
  Delivers-append {v = v} {ws = ws} {qs = qs} zs (waiting {t} {u} {xs} {ys} {ps} h e l p f g) more =
      rw (p) (
        subst (λ (b : List ℕ). Delivers t (b ++ zs) qs v ws) g
          (subst (λ (a : ReadTask H). Delivers a (ys ++ zs) qs v ws) f more))
  Delivers-append {v = v} {ws = ws} {qs = qs} zs (piece {t} {u} {xs} {ys} {ps} {qs = rs} h e l d p)
        more =
      let n = t.bytes_to_read in
      piece {qs = rs ++ qs} h e (omega (arith, length-append xs zs))
        (rw (take-append n xs zs l, drop-append n xs zs l) (Delivers-append zs d more))
        (rw (p, take-append n xs zs l))

  -- The task that is left has no handler or too few bytes.
  pub Delivers-left :
      {t u : ReadTask H} {xs ys : List ℕ} {ps : Pieces H}
      → Delivers t xs ps u ys
      → (u.handler ≡ none) ⊎ (length ys < u.bytes_to_read)
  Delivers-left (finished e p f g) = inl (rw f e)
  Delivers-left (waiting h e l p f g) = inr (rw (f, g) l)
  Delivers-left (piece h e l d p) = Delivers-left d

  -- No byte is lost, given twice or given out of order: the pieces and the rest are the bytes.
  pub Delivers-bytes :
      {t u : ReadTask H} {xs ys : List ℕ} {ps : Pieces H}
      → Delivers t xs ps u ys
      → bytes_of ps ++ ys ≡ xs
  Delivers-bytes (finished e p f g) = rw p g
  Delivers-bytes (waiting h e l p f g) = rw p g
  Delivers-bytes {ys = zs} (piece {t} {u} {xs} {ys} {qs = qs} h e l d p) =
      let n = t.bytes_to_read in
      rw (p, append_assoc (take n xs) (bytes_of qs) ys, Delivers-bytes d) (take-append-drop n xs)

  -- The bytes and the first task determine what is delivered.
  pub Delivers-unique :
      {t u v : ReadTask H} {xs ys zs : List ℕ} {ps qs : Pieces H}
      → Delivers t xs ps u ys
      → Delivers t xs qs v zs
      → (ps ≡ qs) × (u ≡ v) × (ys ≡ zs)
  Delivers-unique (finished e p f g) (finished e' p' f' g') = (p ∙ sym p', f ∙ sym f', g ∙ sym g')
  Delivers-unique (finished e p f g) (waiting h e' l p' f' g') = cc
  Delivers-unique (finished e p f g) (piece h e' l d p') = cc
  Delivers-unique (waiting h e l p f g) (finished e' p' f' g') = cc
  Delivers-unique (waiting h e l p f g) (waiting h' e' l' p' f' g') =
      (p ∙ sym p', f ∙ sym f', g ∙ sym g')
  Delivers-unique (waiting h e l p f g) (piece h' e' l' d p') = absurd (omega arith)
  Delivers-unique (piece h e l d p) (finished e' p' f' g') = cc
  Delivers-unique (piece h e l d p) (waiting h' e' l' p' f' g') = absurd (omega arith)
  Delivers-unique (piece {t} {xs = xs} h e l d p)
        (piece {u = w} {ys = zs} {qs = rs'} h' e' l' d' p') =
      let n = t.bytes_to_read in
      let same : h' ≡ h = cc in
      let moved = subst (λ (k : H). Delivers (handle k (take n xs)) (drop n xs) rs' w zs) same d' in
      let (more, task, left) = Delivers-unique d moved in (cc, task, left)
