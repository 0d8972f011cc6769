-- ===== src/Session/Life.antt =====
-- What a `Session` (src/session.cpp) has in flight itself, beside its halves: pongs being sent, waits for
-- the heartbeat timer, and closes of the stream.
use lib_native_streaming.Common.{ℕ, ◌+◌, ◌-◌, Bool, true, Option, none, some, List, [], ◌∷◌, ◌++◌}
use lib_native_streaming.Common.Errors.{ErrorCode, success}
use lib_native_streaming.Session.{Effect, async_pong, async_wait, async_close, call_closed}

-- `monitors` counts the calls of `startConnectionActivityMonitoring`, `ended` the beats that ended with
-- an error, a closed stream or a session gone, and `latest` is the callback of the last such call.
-- `closing` has the callbacks of the closes in flight, `closes` those that `close` was given, `called`
-- those that were called since, with what they were told.
pub record Life : Type 0 where
  pub pongs : ℕ
  pub waits : ℕ
  pub monitors : ℕ
  pub ended : ℕ
  pub latest : Option ℕ
  pub closing : List (Option ℕ)
  pub closes : List (Option ℕ)
  pub called : List (Option ℕ × ErrorCode)

abbrev pub new_life : Life
new_life = record {
  pongs = 0;
  waits = 0;
  monitors = 0;
  ended = 0;
  latest = none;
  closing = [];
  closes = [];
  called = [];
}

module _ {H : Type 0} where
  abbrev pub pongs_of : List (Effect H) → ℕ
  pongs_of [] = 0
  pongs_of (async_pong payload ∷ es) = 1 + pongs_of es
  pongs_of (_ ∷ es) = pongs_of es

  abbrev pub waits_of : List (Effect H) → ℕ
  waits_of [] = 0
  waits_of (async_wait ∷ es) = 1 + waits_of es
  waits_of (_ ∷ es) = waits_of es

  abbrev pub closings : List (Effect H) → List (Option ℕ)
  closings [] = []
  closings (async_close cb ∷ es) = cb ∷ closings es
  closings (_ ∷ es) = closings es

  abbrev pub closed_calls : List (Effect H) → List (Option ℕ × ErrorCode)
  closed_calls [] = []
  closed_calls (call_closed cb ec ∷ es) = (cb, ec) ∷ closed_calls es
  closed_calls (_ ∷ es) = closed_calls es

  -- What the effects of a method or a lambda start, and the callbacks that they call.
  abbrev pub grow : Life → List (Effect H) → Life
  grow l es = record l {
    pongs = l.pongs + pongs_of es;
    waits = l.waits + waits_of es;
    closing = l.closing ++ closings es;
    called = l.called ++ closed_calls es;
  }

-- 1 if the beat ends here.
abbrev pub ends : ErrorCode → Bool → Bool → ℕ
ends success true true = 0
ends _ _ _ = 1

-- A call of a method, or an operation that completes, before its effects.
abbrev pub monitored : ℕ → Bool → Life → Life
monitored cb is_open l = record l {
  monitors = l.monitors + 1;
  ended = l.ended + ends success true is_open;
  latest = some cb;
}

abbrev pub wait_over : ErrorCode → Bool → Bool → Life → Life
wait_over ec alive is_open l = record l {
  waits = l.waits - 1;
  ended = l.ended + ends ec alive is_open;
}

abbrev pub pong_sent : ErrorCode → Bool → Life → Life
pong_sent ec alive l = record l { pongs = l.pongs - 1; ended = l.ended + ends ec alive true }

abbrev pub close_asked : Option ℕ → Life → Life
close_asked cb l = record l { closes = l.closes ++ cb ∷ [] }
