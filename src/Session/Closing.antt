-- ===== src/Session/Closing.antt =====
-- The callback of `Session::close` (src/session.cpp).
use lib_native_streaming.Common.{
  ◌≡◌, refl, ℕ, Bool, true, false, ◌&&◌, if◌then◌else◌, Option, some, List, [], ◌∷◌,
}
use lib_native_streaming.Common.Errors.{ErrorCode, success}
use lib_native_streaming.Session.Life.{closings, closed_calls}
use lib_native_streaming.Session.{Session, Effect, close_session, on_close}

-- `close` begins one close of the stream and calls nothing; when that completes, whether or not the
-- session is still there and the stream still open, the given callback is called exactly once. It is
-- given the error of the operation if the session is there and the stream is still open, else none.
pub close-called_once :
    {H : Type 0} (cb : Option ℕ) (alive is_open : Bool) (ec : ErrorCode) (s t : Session H)
    → (q : Unit {0} × Session H × List (Effect H)) × (r : Unit {0} × Session H × List (Effect H))
      × (close_session cb s ≡ some q)
      × (closings q.2 ≡ cb ∷ [])
      × (closed_calls q.2 ≡ [])
      × (on_close cb alive is_open ec t ≡ some r)
      × (closings r.2 ≡ [])
      × (closed_calls r.2 ≡ (cb, (if alive && is_open then ec else success)) ∷ [])
unfolding close_session on_close
close-called_once cb true true ec s t = (_, _, refl, refl, refl, refl, refl, refl)
close-called_once cb true false ec s t = (_, _, refl, refl, refl, refl, refl, refl)
close-called_once cb false is_open ec s t = (_, _, refl, refl, refl, refl, refl, refl)
