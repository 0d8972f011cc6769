-- ===== src/Session/Lifetime.antt =====
-- What the methods and the lambdas of a `Session` (src/session.cpp) do to what it has in flight itself:
-- the beats of its heartbeat, and the closes of its stream.
use mathlib.Core.List.Perm
use mathlib.Core.List.{Perm}
use lib_native_streaming.Common.{
  ap, sym, ◌∙◌, ℕ, ◌+◌, ◌<◌, ◌≡◌, refl, Bool, true, false, Option, none, some, List, [], ◌∷◌, ◌++◌,
  map, append-nil, append_assoc, map-append, arith,
}
use lib_native_streaming.Common.Errors.{ErrorCode, success}
use lib_native_streaming.Reader.{ReadTask, run_posted}
use lib_native_streaming.Reader
use lib_native_streaming.Session.{
  Session, Effect, close_session, on_close, on_heartbeat, on_pong, on_control,
  start_connection_activity_monitoring, FrameType, close, ping, pong, call_connection_alive,
}
use lib_native_streaming.Session.Life.{
  Life, pongs_of, waits_of, closings, closed_calls, grow, monitored, wait_over, pong_sent,
  close_asked,
}

-- The callbacks that were called.
abbrev pub callbacks : List (Option ℕ × ErrorCode) → List (Option ℕ)
callbacks = map λ p. p.0

-- The callbacks that tell that the connection is alive: the session's, its reader's, its writer's.
abbrev pub Callbacks : Type 0
Callbacks = Option ℕ × Option ℕ × Option ℕ

abbrev pub hears : {H : Type 0} → Session H → Callbacks
hears s = (
  s.connection_alive_callback, s.reader.connection_alive_callback,
  s.writer.connection_alive_callback,
)

abbrev pub only_reading : Option ℕ → Callbacks
only_reading cb = (cb, cb, none)

pub record Inv (c : Callbacks) (l : Life) : Type 0 where
  pub latest : c ≡ only_reading l.latest
  pub beats : l.pongs + l.waits + l.ended ≡ l.monitors
  pub closed_once : Perm (callbacks l.called ++ l.closing) l.closes

same-Inv :
    {c : Callbacks} (l u : Life)
    → u.latest ≡ l.latest
    → u.pongs + u.waits + u.ended ≡ u.monitors
    → u.called ≡ l.called ++ []
    → u.closing ≡ l.closing ++ []
    → u.closes ≡ l.closes
    → Inv c l
    → Inv c u
same-Inv l u t b d g e inv = record {
  latest = inv.latest ∙ ap only_reading (sym t);
  beats = b;
  closed_once = rw (d, g, e, append-nil, append-nil) inv.closed_once;
}

-- A close completes: its callback is called.
completed-Inv :
    {c : Callbacks} (cb : Option ℕ) (ec : ErrorCode) (rest : List (Option ℕ)) (l u : Life)
    → u.latest ≡ l.latest
    → Perm (cb ∷ rest) l.closing
    → u.pongs + u.waits + u.ended ≡ l.pongs + l.waits + l.ended
    → u.monitors ≡ l.monitors
    → u.called ≡ l.called ++ (cb, ec) ∷ []
    → u.closing ≡ rest ++ []
    → u.closes ≡ l.closes
    → Inv c l
    → Inv c u
completed-Inv cb ec rest l u t p b m d g e inv = record {
  latest = inv.latest ∙ ap only_reading (sym t);
  beats = omega (arith, b, m, inv.beats);
  closed_once =
      rw (d, g, e, append-nil rest, map-append, append_assoc)
        (Perm.trans (Perm.append_left (callbacks l.called) p) inv.closed_once);
}

module _ {H : Type 0} where
  -- What a method or a lambda of the session starts and calls.
  abbrev pub Grown : Life → Option (Unit {0} × Session H × List (Effect H)) → Type 0
  Grown l none = Unit {0}
  Grown l (some r) = Inv (hears r.1) (grow l r.2)

  -- The session's own methods and lambdas.
  pub quiet-Grown :
      (l : Life) (r : Unit {0} × Session H × List (Effect H))
      → pongs_of r.2 ≡ 0
      → waits_of r.2 ≡ 0
      → closings r.2 ≡ []
      → closed_calls r.2 ≡ []
      → Inv (hears r.1) l
      → Inv (hears r.1) (grow l r.2)
  quiet-Grown l r p w c d inv =
      same-Inv l (grow l r.2) refl (omega (arith, p, w, inv.beats)) (rw d refl) (rw c refl) refl inv

  pub monitor-Grown :
      (cb period : ℕ) (is_open : Bool) (s : Session H) (l : Life)
      → Inv (hears s) l
      → Grown (monitored cb is_open l) (start_connection_activity_monitoring cb period is_open s)
  unfolding start_connection_activity_monitoring Reader.set_connection_alive_handler
  monitor-Grown cb period true s l inv = record {
    latest = ap (λ (c : Callbacks). (some cb, some cb, c.2)) inv.latest;
    beats = omega (arith, inv.beats);
    closed_once = rw (append-nil l.called, append-nil l.closing) inv.closed_once;
  }
  monitor-Grown cb period false s l inv = record {
    latest = ap (λ (c : Callbacks). (some cb, some cb, c.2)) inv.latest;
    beats = omega (arith, inv.beats);
    closed_once = rw (append-nil l.called, append-nil l.closing) inv.closed_once;
  }

  pub waited-Grown :
      (ec : ErrorCode) (alive is_open : Bool) (s : Session H) (l : Life)
      → 0 < l.waits
      → Inv (hears s) l
      → Grown (wait_over ec alive is_open l) (on_heartbeat ec alive is_open s)
  unfolding on_heartbeat
  waited-Grown success true true s l h inv =
      same-Inv l _ refl (omega (arith, inv.beats, h)) refl refl refl inv
  waited-Grown success true false s l h inv =
      same-Inv l _ refl (omega (arith, inv.beats, h)) refl refl refl inv
  waited-Grown success false is_open s l h inv =
      same-Inv l _ refl (omega (arith, inv.beats, h)) refl refl refl inv
  waited-Grown _ alive is_open s l h inv =
      same-Inv l _ refl (omega (arith, inv.beats, h)) refl refl refl inv

  pub ponged-Grown :
      (ec : ErrorCode) (alive : Bool) (s : Session H) (l : Life)
      → 0 < l.pongs
      → Inv (hears s) l
      → Grown (pong_sent ec alive l) (on_pong ec alive s)
  unfolding on_pong
  ponged-Grown success true s l h inv =
      same-Inv l _ refl (omega (arith, inv.beats, h)) refl refl refl inv
  ponged-Grown success false s l h inv =
      same-Inv l _ refl (omega (arith, inv.beats, h)) refl refl refl inv
  ponged-Grown _ alive s l h inv =
      same-Inv l _ refl (omega (arith, inv.beats, h)) refl refl refl inv

  pub close-Grown :
      (cb : Option ℕ) (s : Session H) (l : Life)
      → Inv (hears s) l
      → Grown (close_asked cb l) (close_session cb s)
  unfolding close_session
  close-Grown cb s l inv = record {
    latest = inv.latest;
    beats = omega (arith, inv.beats);
    closed_once =
        rw (append-nil l.called, ← append_assoc (callbacks l.called) l.closing (cb ∷ []))
          (Perm.append_right (cb ∷ []) inv.closed_once);
  }

  pub on_close-Grown :
      (cb : Option ℕ) (alive is_open : Bool) (ec : ErrorCode) (s : Session H) (l : Life)
      (rest : List (Option ℕ))
      → Perm (cb ∷ rest) l.closing
      → Inv (hears s) l
      → Grown (record l { closing = rest }) (on_close cb alive is_open ec s)
  unfolding on_close
  on_close-Grown cb true true ec s l rest p inv =
      completed-Inv cb ec rest l _ refl p (omega arith) refl refl refl refl inv
  on_close-Grown cb true false ec s l rest p inv =
      completed-Inv cb success rest l _ refl p (omega arith) refl refl refl refl inv
  on_close-Grown cb false is_open ec s l rest p inv =
      completed-Inv cb success rest l _ refl p (omega arith) refl refl refl refl inv

  pub control-Grown :
      (alive : Bool) (kind : FrameType) (s : Session H) (l : Life)
      → Inv (hears s) l
      → Grown l (on_control alive kind s)
  unfolding on_control
  control-Grown true pong s l inv =
      quiet-Grown l (tt, s, call_connection_alive s.connection_alive_callback ∷ []) refl refl refl
        refl inv
  control-Grown true close s l inv = quiet-Grown l (tt, s, []) refl refl refl refl inv
  control-Grown true ping s l inv = quiet-Grown l (tt, s, []) refl refl refl refl inv
  control-Grown false kind s l inv = quiet-Grown l (tt, s, []) refl refl refl refl inv
