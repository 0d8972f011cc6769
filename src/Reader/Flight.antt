-- ===== src/Reader/Flight.antt =====
-- The read in flight of an `AsyncReader` (src/async_reader.cpp), and what a failed read does.
use lib_native_streaming.Common.{
  ℕ, ◌≡◌, ◌-◌, refl, Option, none, some, List, [], ◌∷◌, ◌++◌, length, inl, inr, true, arith,
  if◌then◌else◌, Option-cases,
}
use lib_native_streaming.Common.Errors.{ErrorCode, is_error, err}
use lib_native_streaming.Reader.{
  ReadTask, AsyncReader, Effect, is_null, log, call_error_handler, on_read,
}
use lib_native_streaming.Reader.Sequence.{reads, pieces, reports, missing}
use lib_native_streaming.Reader.System.{launch}

unfoldable pub flight_of : {H : Type 0} → AsyncReader H → Option ℕ
flight_of r =
    if is_null r.pending_task.handler
    then none
    else some (r.pending_task.bytes_to_read - length r.buffer)

pub launch-missing : {H : Type 0} (r : AsyncReader H) → launch none (missing r) ≡ some (flight_of r)
unfolding flight_of
launch-missing r = ground arith

-- What a failed read reports.
abbrev pub failure_effects : {H : Type 0} → ErrorCode → Option ℕ → List (Effect H)
failure_effects ec none = log err ∷ []
failure_effects ec (some cb) = call_error_handler cb ec ∷ []

pub reads-failure :
    (H : Type 0) (ec : ErrorCode) (cb : Option ℕ) → reads {H = H} (failure_effects ec cb) ≡ []
reads-failure H ec none = refl
reads-failure H ec (some cb) = refl

pub pieces-failure :
    {H : Type 0} (ec : ErrorCode) (cb : Option ℕ) → pieces {H = H} (failure_effects ec cb) ≡ []
pieces-failure ec none = refl
pieces-failure ec (some cb) = refl

pub reports-failure :
    (H : Type 0) (ec : ErrorCode) (cb : Option ℕ) → reports {H = H} (failure_effects ec cb) ≡ 1
reports-failure H ec none = refl
reports-failure H ec (some cb) = refl

module _ {H : Type 0} (handle : H → List ℕ → ReadTask H) where
  failed_by :
      (f : ℕ) (ec : ErrorCode) (xs : List ℕ) (cb : Option ℕ) (r : AsyncReader H)
      → r.error_handler ≡ cb
      → is_error ec ≡ true
      → on_read handle f ec xs r
        ≡ some (tt, record r { buffer = r.buffer ++ xs }, failure_effects ec cb)
  unfolding on_read
  failed_by f ec xs none r e bad = ground (arith, e, bad)
  failed_by f ec xs (some cb) r e bad = ground (arith, e, bad)

  -- A failed read leaves its bytes in the buffer, and is reported.
  pub on_read_failed :
      (f : ℕ) (ec : ErrorCode) (xs : List ℕ) (r : AsyncReader H)
      → is_error ec ≡ true
      → on_read handle f ec xs r
        ≡ some (tt, record r { buffer = r.buffer ++ xs }, failure_effects ec r.error_handler)
  on_read_failed f ec xs r bad = failed_by f ec xs r.error_handler r refl bad

  flight_null : (r : AsyncReader H) → r.pending_task.handler ≡ none → flight_of r ≡ none
  unfolding flight_of
  flight_null r z = rw z

  pub flight_some :
      (r : AsyncReader H) (n : ℕ)
      → flight_of r ≡ some n
      → ((h : H) × (r.pending_task.handler ≡ some h))
        × (n ≡ r.pending_task.bytes_to_read - length r.buffer)
  unfolding flight_of
  flight_some r n e = elim (Option-cases r.pending_task.handler) [
    | inl z ↦ cc (e, flight_null r z)
    | inr (h, f) ↦ ((h, f), ground (arith, f, e))
  ]
