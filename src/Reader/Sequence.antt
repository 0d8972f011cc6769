-- ===== src/Reader/Sequence.antt =====
-- `doRead` and `readDone` of src/async_reader.cpp: enough fuel gives a result, and the result delivers
-- the buffer as `Delivers` says and asks the stream for the bytes that are missing.
use lib_native_streaming.Common.{
  ℕ, zero, suc, ◌≡◌, ◌≤◌, ◌<◌, ◌+◌, ◌-◌, inl, inr, refl, ap, Option, none, some, List, [], ◌∷◌,
  ◌++◌, length, take, drop, length-drop, leb, leb→le, leb→lt, Bool-cases, Option-cases, arith,
  if◌then◌else◌,
}
use lib_native_streaming.Common.Errors.{success}
use lib_native_streaming.Reader.{
  ReadTask, AsyncReader, Effect, async_read, call_read_handler, call_connection_alive,
  call_error_handler, log, is_null, read_done, do_read, Reader, on_read,
}
use lib_native_streaming.Reader.Framing.{Pieces, Delivers, finished, waiting, piece}

module _ {H : Type 0} where
  -- What a list of effects delivers, and what it asks the stream for.
  abbrev pub pieces : List (Effect H) → Pieces H
  pieces [] = []
  pieces (call_read_handler h xs ∷ es) = (h, xs) ∷ pieces es
  pieces (_ ∷ es) = pieces es

  abbrev pub reads : List (Effect H) → List ℕ
  reads [] = []
  reads (async_read n ∷ es) = n ∷ reads es
  reads (_ ∷ es) = reads es

  -- How often a failure is reported.
  abbrev pub reports : List (Effect H) → ℕ
  reports [] = 0
  reports (call_error_handler cb ec ∷ es) = 1 + reports es
  reports (log level ∷ es) = 1 + reports es
  reports (_ ∷ es) = reports es

  pub reports-append : (xs ys : List (Effect H)) → reports (xs ++ ys) ≡ reports xs + reports ys
  reports-append [] ys = omega arith
  reports-append (call_error_handler cb ec ∷ xs) ys = omega (arith, reports-append xs ys)
  reports-append (log level ∷ xs) ys = omega (arith, reports-append xs ys)
  reports-append (_ ∷ xs) ys = omega (arith, reports-append xs ys)

  pub pieces-append : (xs ys : List (Effect H)) → pieces (xs ++ ys) ≡ pieces xs ++ pieces ys
  pieces-append [] ys = refl
  pieces-append (call_read_handler h bs ∷ xs) ys = ap (◌∷◌ (h, bs)) (pieces-append xs ys)
  pieces-append (_ ∷ xs) ys = pieces-append xs ys

  -- The bytes that the pending task still lacks, if there is one.
  abbrev pub missing : AsyncReader H → List ℕ
  missing r =
      if is_null r.pending_task.handler
      then []
      else (r.pending_task.bytes_to_read - length r.buffer) ∷ []

module _ {H : Type 0} (handle : H → List ℕ → ReadTask H) where
  -- A result of `doRead` that starts from the reader `r`.
  pub record Ran (result : Option (Unit {0} × AsyncReader H × List (Effect H))) (r : AsyncReader H)
      : Type 0 where
    pub after : AsyncReader H
    pub effects : List (Effect H)
    pub returns : result ≡ some (tt, after, effects)
    pub delivered :
        Delivers handle r.pending_task r.buffer (pieces effects) after.pending_task after.buffer
    pub asked : reads effects ≡ missing after
    pub quiet : reports effects ≡ 0

  abbrev next_task : H → AsyncReader H → ReadTask H
  next_task h r = handle h (take r.pending_task.bytes_to_read r.buffer)

  abbrev next_reader : H → AsyncReader H → AsyncReader H
  next_reader h r = record r {
    buffer = drop r.pending_task.bytes_to_read r.buffer;
    pending_task = next_task h r;
  }

  abbrev one_call : H → AsyncReader H → List (Effect H)
  one_call h r =
      call_connection_alive r.connection_alive_callback
      ∷ call_read_handler h (take r.pending_task.bytes_to_read r.buffer)
      ∷ []

  read_done_last :
      (k : ℕ → Reader H (Unit {0})) (r : AsyncReader H) (h : H)
      → r.pending_task.handler ≡ some h
      → r.pending_task.bytes_to_read ≤ length r.buffer
      → (next_task h r).handler ≡ none
      → read_done handle k success r ≡ some (tt, next_reader h r, one_call h r)
  unfolding read_done
  read_done_last k r h e l last = ground arith

  read_done_more :
      (k : ℕ → Reader H (Unit {0})) (r : AsyncReader H) (h g : H) (q : AsyncReader H)
      (es : List (Effect H))
      → r.pending_task.handler ≡ some h
      → r.pending_task.bytes_to_read ≤ length r.buffer
      → (next_task h r).handler ≡ some g
      → k (next_task h r).bytes_to_read (next_reader h r) ≡ some (tt, q, es)
      → read_done handle k success r ≡ some (tt, q, one_call h r ++ es)
  unfolding read_done
  read_done_more k r h g q es e l more done = ground arith

  do_read_waits :
      (f n : ℕ) (r : AsyncReader H)
      → length r.buffer < n
      → do_read handle (suc f) n r ≡ some (tt, r, async_read (n - length r.buffer) ∷ [])
  unfolding do_read
  do_read_waits f n r l = ground arith

  do_read_at_once :
      (f n : ℕ) (r q : AsyncReader H) (es : List (Effect H))
      → n ≤ length r.buffer
      → read_done handle (do_read handle f) success r ≡ some (tt, q, es)
      → do_read handle (suc f) n r ≡ some (tt, q, es)
  unfolding do_read
  do_read_at_once f n r q es l done = ground arith

  on_read_lem :
      (f : ℕ) (r q : AsyncReader H) (es : List (Effect H)) (bytes : List ℕ)
      → read_done handle (do_read handle f) success (record r { buffer = r.buffer ++ bytes })
        ≡ some (tt, q, es)
      → on_read handle f success bytes r ≡ some (tt, q, es)
  unfolding on_read
  on_read_lem f r q es bytes done = ground arith

  -- Tasks that a handler returns have a size, as the constructor of `ReadTask` asserts.
  abbrev pub AsksForBytes : Type 0
  AsksForBytes =
      (h : H) (xs : List ℕ) (g : H)
      → (handle h xs).handler ≡ some g
      → 0 < (handle h xs).bytes_to_read

  -- A reader whose pending task has a handler and a size.
  abbrev pub IsPending : AsyncReader H → Type 0
  IsPending r = ((h : H) × (r.pending_task.handler ≡ some h)) × (0 < r.pending_task.bytes_to_read)

  read_done-Ran :
      (f : ℕ) (r : AsyncReader H) (h : H)
      → AsksForBytes
      → ((q : AsyncReader H)
          → IsPending q
          → length q.buffer < f
          → Ran (do_read handle f q.pending_task.bytes_to_read q) q)
      → r.pending_task.handler ≡ some h
      → 0 < r.pending_task.bytes_to_read
      → r.pending_task.bytes_to_read ≤ length r.buffer
      → length r.buffer < suc f
      → Ran (read_done handle (do_read handle f) success r) r
  read_done-Ran f r h asks rec e pos l fuel = elim (Option-cases (next_task h r).handler) [
    | inl last ↦ record {
      after = next_reader h r;
      effects = one_call h r;
      returns = read_done_last (do_read handle f) r h e l last;
      delivered = piece {qs = []} h e l (finished last refl refl refl) refl;
      asked = rw last;
      quiet = refl;
    }
    | inr (g, more) ↦
        let q = next_reader h r in
        let ran =
          rec q ((g, more), asks h (take r.pending_task.bytes_to_read r.buffer) g more)
            (omega (arith, length-drop r.pending_task.bytes_to_read r.buffer)) in
        record {
          after = ran.after;
          effects = one_call h r ++ ran.effects;
          returns =
              read_done_more (do_read handle f) r h g ran.after ran.effects e l more ran.returns;
          delivered = piece {qs = pieces ran.effects} h e l ran.delivered refl;
          asked = ran.asked;
          quiet = ran.quiet;
        }
  ]

  -- With more fuel than the buffer has bytes, `doRead` on the pending task ends: each task takes a
  -- byte at least.
  pub do_read-Ran :
      (f : ℕ) (r : AsyncReader H)
      → AsksForBytes
      → IsPending r
      → length r.buffer < f
      → Ran (do_read handle f r.pending_task.bytes_to_read r) r
  do_read-Ran zero r asks p l = absurd (omega arith)
  do_read-Ran (suc f) r asks ((h, e), pos) l =
      let n = r.pending_task.bytes_to_read in
      elim (Bool-cases (leb n (length r.buffer))) [
        | inl enough ↦
            let fits = leb→le n (length r.buffer) enough in
            let ran = read_done-Ran f r h asks (λ q p k. do_read-Ran f q asks p k) e pos fits l in
            record {
              after = ran.after;
              effects = ran.effects;
              returns = do_read_at_once f n r ran.after ran.effects fits ran.returns;
              delivered = ran.delivered;
              asked = ran.asked;
              quiet = ran.quiet;
            }
        | inr few ↦
            let short = leb→lt n (length r.buffer) few in
            record {
              after = r;
              effects = async_read (n - length r.buffer) ∷ [];
              returns = do_read_waits f n r short;
              delivered = waiting h e short refl refl refl;
              asked = rw e;
              quiet = refl;
            }
      ]

  -- A completed read of at least the missing bytes goes on in the same way.
  pub on_read-Ran :
      (f : ℕ) (r : AsyncReader H) (bytes : List ℕ)
      → AsksForBytes
      → IsPending r
      → r.pending_task.bytes_to_read ≤ length (r.buffer ++ bytes)
      → length (r.buffer ++ bytes) ≤ f
      → Ran (on_read handle f success bytes r) (record r { buffer = r.buffer ++ bytes })
  on_read-Ran f r bytes asks ((h, e), pos) l fuel =
      let q : AsyncReader H = record r { buffer = r.buffer ++ bytes } in
      let ran =
        read_done-Ran f q h asks (λ s p k. do_read-Ran f s asks p k) e pos l (omega arith) in
      record {
        after = ran.after;
        effects = ran.effects;
        returns = on_read_lem f r ran.after ran.effects bytes ran.returns;
        delivered = ran.delivered;
        asked = ran.asked;
        quiet = ran.quiet;
      }
