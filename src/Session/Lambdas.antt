-- ===== src/Session/Lambdas.antt =====
-- The lambdas of `Session` (src/session.cpp) for its heartbeat, its close and control frames, with
-- `close` and the destructor: they leave the session and its halves alone, and report nothing.
use lib_native_streaming.Common.{ℕ, ◌≡◌, refl, Bool, true, false, Option, none, some, List, []}
use lib_native_streaming.Common.Errors.{ErrorCode, success}
use lib_native_streaming.Session.{
  Session, Effect, FrameType, close, ping, pong, close_session, destroy, on_close, on_heartbeat,
  on_pong, on_control,
}
use lib_native_streaming.Session.Assembly.{writer_part}
use lib_native_streaming.Session.Notices.{given}

module _ {H : Type 0} where
  abbrev pub Plain : Session H → Option (Unit {0} × Session H × List (Effect H)) → Type 0
  Plain s none = Unit {0}
  Plain s (some r) = (r.1 ≡ s) × (writer_part r.2 ≡ []) × (given r.2 ≡ [])

  pub close_session-Plain : (cb : Option ℕ) (s : Session H) → Plain s (close_session cb s)
  unfolding close_session
  close_session-Plain cb s = (refl, refl, refl)

  pub destroy-Plain : (s : Session H) → Plain s (destroy s)
  unfolding destroy
  destroy-Plain s = (refl, refl, refl)

  pub on_close-Plain :
      (cb : Option ℕ) (alive is_open : Bool) (ec : ErrorCode) (s : Session H)
      → Plain s (on_close cb alive is_open ec s)
  unfolding on_close
  on_close-Plain cb true true ec s = (refl, refl, refl)
  on_close-Plain cb true false ec s = (refl, refl, refl)
  on_close-Plain cb false is_open ec s = (refl, refl, refl)

  pub on_heartbeat-Plain :
      (ec : ErrorCode) (alive is_open : Bool) (s : Session H)
      → Plain s (on_heartbeat ec alive is_open s)
  unfolding on_heartbeat
  on_heartbeat-Plain success true true s = (refl, refl, refl)
  on_heartbeat-Plain success true false s = (refl, refl, refl)
  on_heartbeat-Plain success false is_open s = (refl, refl, refl)
  on_heartbeat-Plain _ alive is_open s = (refl, refl, refl)

  pub on_pong-Plain : (ec : ErrorCode) (alive : Bool) (s : Session H) → Plain s (on_pong ec alive s)
  unfolding on_pong
  on_pong-Plain success true s = (refl, refl, refl)
  on_pong-Plain success false s = (refl, refl, refl)
  on_pong-Plain _ alive s = (refl, refl, refl)

  pub on_control-Plain :
      (alive : Bool) (kind : FrameType) (s : Session H) → Plain s (on_control alive kind s)
  unfolding on_control
  on_control-Plain true pong s = (refl, refl, refl)
  on_control-Plain true close s = (refl, refl, refl)
  on_control-Plain true ping s = (refl, refl, refl)
  on_control-Plain false kind s = (refl, refl, refl)
