-- ===== src/Server/Start.antt =====
-- `Server::start` and `Server::stop` (src/server.cpp).
use lib_native_streaming.Common.{
  ℕ, ◌+◌, ◌≡◌, refl, Bool, true, false, if◌then◌else◌, not, ◌&&◌, ◌||◌, ◌∙◌, some, List, [], ◌∷◌,
  ◌++◌, arith,
}
use lib_native_streaming.Common.Errors.{ErrorCode, success, is_error, warn, err}
use lib_native_streaming.Common.Effects.{◌>>=◌}
use lib_native_streaming.Server.Handlers.{reads-append, upgrades-append, opened-append}
use lib_native_streaming.Server.System.{reads, upgrades, opened, accepts, count}
use lib_native_streaming.Server.{
  Action, Server, Effect, Setup, Acceptor, v4, v6, async_accept, close, first_error, try_results,
  start_acceptor, start_result, start_tcp_accept, set_open, log, start, new_server,
}

-- No call that sets the acceptor up fails.
abbrev pub usable : Acceptor → Setup → Bool
usable a o = not (is_error (first_error (o.open_result ∷ try_results a o)))

pub count-append :
    (a : Acceptor) (xs ys : List Acceptor) → count a (xs ++ ys) ≡ count a xs + count a ys
count-append a [] ys = omega arith
count-append a (b ∷ xs) ys = omega (arith, count-append a xs ys)

abbrev pub to_nat : Bool → ℕ
to_nat true = 1
to_nat false = 0

or_false : (u : Bool) → (u || false) ≡ u
or_false true = refl
or_false false = refl

abbrev other : Acceptor → Acceptor
other v4 = v6
other v6 = v4

-- No read of a request, no upgrade and no session.
abbrev Quiet : List Effect → Type 0
Quiet es = (reads es ≡ []) × (upgrades es ≡ []) × (opened es ≡ [])

Quiet-append : (xs ys : List Effect) → Quiet xs → Quiet ys → Quiet (xs ++ ys)
Quiet-append xs ys h q = (
  rw (reads-append, h.0, q.0) refl,
  rw (upgrades-append, h.1, q.1) refl,
  rw (opened-append, h.2, q.2) refl,
)

-- What one half of `start` leaves, where `u` tells whether the acceptor can be set up.
record Half (a : Acceptor) (o : Setup) (s : Server) (u : Bool) : Type 0 where
  result : ErrorCode
  effects : List Effect
  runs : start_acceptor a o s ≡ some (result, (if u then set_open a true s else s), effects)
  fails : is_error result ≡ not u
  accepts_own : count a (accepts effects) ≡ to_nat u
  accepts_other : count (other a) (accepts effects) ≡ 0
  quiet : Quiet effects

half_lem :
    (a : Acceptor) (o : Setup) (s : Server) (b c : Bool)
    → is_error o.open_result ≡ b
    → is_error (first_error (try_results a o)) ≡ c
    → Half a o s (usable a o)
unfolding start_acceptor start_tcp_accept
half_lem a o s true c e f = rw e (record {
  result = o.open_result;
  effects = log warn ∷ [];
  runs = rw e refl;
  fails = rw e refl;
  accepts_own = rw e refl;
  accepts_other = refl;
  quiet = (refl, refl, refl);
})
half_lem a o s false true e f =
    rw (e, f)
      (record {
        result = first_error (try_results a o);
        effects = log warn ∷ close a ∷ [];
        runs = rw (e, f) refl;
        fails = rw f refl;
        accepts_own = refl;
        accepts_other = refl;
        quiet = (refl, refl, refl);
      })
half_lem v4 o s false false e f =
    rw (e, f)
      (record {
        result = success;
        effects = async_accept v4 ∷ [];
        runs = rw (e, f) refl;
        fails = refl;
        accepts_own = refl;
        accepts_other = refl;
        quiet = (refl, refl, refl);
      })
half_lem v6 o s false false e f =
    rw (e, f)
      (record {
        result = success;
        effects = async_accept v6 ∷ [];
        runs = rw (e, f) refl;
        fails = refl;
        accepts_own = refl;
        accepts_other = refl;
        quiet = (refl, refl, refl);
      })

start_acceptor_lem : (a : Acceptor) (o : Setup) (s : Server) → Half a o s (usable a o)
start_acceptor_lem a o s =
    half_lem a o s (is_error o.open_result) (is_error (first_error (try_results a o))) refl refl

accepts-append :
    (a : Acceptor) (xs ys : List Effect)
    → count a (accepts (xs ++ ys)) ≡ count a (accepts xs) + count a (accepts ys)
accepts-append a [] ys = omega arith
accepts-append a (async_accept b ∷ xs) ys = omega (arith, accepts-append a xs ys)
accepts-append a (_ ∷ xs) ys = omega (arith, accepts-append a xs ys)

bind_lem :
    {A B : Type 0} (m : Action A) (f : A → Action B) {s s' s'' : Server} {a : A} {b : B}
    {xs ys : List Effect}
    → m s ≡ some (a, s', xs)
    → f a s' ≡ some (b, s'', ys)
    → (m >>= f) s ≡ some (b, s'', xs ++ ys)
bind_lem m f e g = rw (◌>>=◌, e, g) refl

-- What the two halves leave, where `u4` and `u6` tell which acceptors can be set up.
abbrev pub Listens : Setup → Setup → Server → Bool → Bool → Type 0
Listens o4 o6 s u4 u6 =
    (r : ErrorCode × Server × List Effect) × (start o4 o6 s ≡ some r)
    × (is_error r.0 ≡ (not u4 && not u6))
    × ((r.1.v4_open ≡ (u4 || s.v4_open)) × (r.1.v6_open ≡ (u6 || s.v6_open)))
    × ((count v4 (accepts r.2) ≡ to_nat u4) × (count v6 (accepts r.2) ≡ to_nat u6))
    × ((reads r.2 ≡ []) × (upgrades r.2 ≡ []) × (opened r.2 ≡ []))

listens :
    (o4 o6 : Setup) (s : Server) (u4 u6 : Bool)
    → Half v4 o4 s u4
    → ((t : Server) → Half v6 o6 t u6)
    → Listens o4 o6 s u4 u6
unfolding start
listens o4 o6 s true true h k =
    let s1 : Server = set_open v4 true s in
    let q = k s1 in
    (
      (success, set_open v6 true s1, h.effects ++ (q.effects ++ [])),
      bind_lem (start_acceptor v4 o4) (λ e4. start_acceptor v6 o6 >>= start_result e4) h.runs
          (bind_lem (start_acceptor v6 o6) (start_result h.result) q.runs (rw h.fails refl)),
      refl,
      (refl, refl),
      (
        rw (accepts-append, accepts-append, h.accepts_own, q.accepts_other) refl,
        rw (accepts-append, accepts-append, h.accepts_other, q.accepts_own) refl,
      ),
      Quiet-append h.effects (q.effects ++ []) h.quiet
          (Quiet-append q.effects [] q.quiet (refl, refl, refl)),
    )
listens o4 o6 s true false h k =
    let s1 : Server = set_open v4 true s in
    let q = k s1 in
    (
      (success, s1, h.effects ++ (q.effects ++ [])),
      bind_lem (start_acceptor v4 o4) (λ e4. start_acceptor v6 o6 >>= start_result e4) h.runs
          (bind_lem (start_acceptor v6 o6) (start_result h.result) q.runs (rw h.fails refl)),
      refl,
      (refl, refl),
      (
        rw (accepts-append, accepts-append, h.accepts_own, q.accepts_other) refl,
        rw (accepts-append, accepts-append, h.accepts_other, q.accepts_own) refl,
      ),
      Quiet-append h.effects (q.effects ++ []) h.quiet
          (Quiet-append q.effects [] q.quiet (refl, refl, refl)),
    )
listens o4 o6 s false true h k =
    let s1 : Server = s in
    let q = k s1 in
    (
      (success, set_open v6 true s1, h.effects ++ (q.effects ++ [])),
      bind_lem (start_acceptor v4 o4) (λ e4. start_acceptor v6 o6 >>= start_result e4) h.runs
          (bind_lem (start_acceptor v6 o6) (start_result h.result) q.runs
            (rw (h.fails, q.fails) refl)),
      refl,
      (refl, refl),
      (
        rw (accepts-append, accepts-append, h.accepts_own, q.accepts_other) refl,
        rw (accepts-append, accepts-append, h.accepts_other, q.accepts_own) refl,
      ),
      Quiet-append h.effects (q.effects ++ []) h.quiet
          (Quiet-append q.effects [] q.quiet (refl, refl, refl)),
    )
listens o4 o6 s false false h k =
    let s1 : Server = s in
    let q = k s1 in
    (
      (q.result, s1, h.effects ++ (q.effects ++ (log err ∷ []))),
      bind_lem (start_acceptor v4 o4) (λ e4. start_acceptor v6 o6 >>= start_result e4) h.runs
          (bind_lem (start_acceptor v6 o6) (start_result h.result) q.runs
            (rw (h.fails, q.fails) refl)),
      q.fails,
      (refl, refl),
      (
        rw (accepts-append, accepts-append, h.accepts_own, q.accepts_other) refl,
        rw (accepts-append, accepts-append, h.accepts_other, q.accepts_own) refl,
      ),
      Quiet-append h.effects (q.effects ++ (log err ∷ [])) h.quiet
          (Quiet-append q.effects (log err ∷ []) q.quiet (refl, refl, refl)),
    )

-- `start` on a server in any state.
pub start_lem : (o4 o6 : Setup) (s : Server) → Listens o4 o6 s (usable v4 o4) (usable v6 o6)
start_lem o4 o6 s =
    listens o4 o6 s (usable v4 o4) (usable v6 o6) (start_acceptor_lem v4 o4 s)
      (start_acceptor_lem v6 o6)

-- `start` on a new server succeeds exactly if some acceptor can be set up. Each acceptor that can be
-- is then open and has one operation to accept in flight; the other is not open and accepts
-- nothing. No read of a request, no upgrade and no session is begun. Where one of the two cannot be set
-- up, this is not what the documentation of `start` says, an error unless all steps succeeded.
pub start-listens :
    (o4 o6 : Setup)
    → (r : ErrorCode × Server × List Effect) × (start o4 o6 new_server ≡ some r)
      × (is_error r.0 ≡ (not (usable v4 o4) && not (usable v6 o6)))
      × ((r.1.v4_open ≡ usable v4 o4) × (r.1.v6_open ≡ usable v6 o6))
      × ((count v4 (accepts r.2) ≡ to_nat (usable v4 o4))
          × (count v6 (accepts r.2) ≡ to_nat (usable v6 o6)))
      × ((reads r.2 ≡ []) × (upgrades r.2 ≡ []) × (opened r.2 ≡ []))
unfolding new_server
start-listens o4 o6 =
    let l = start_lem o4 o6 new_server in
    (l.0, l.1, l.2, (l.3.0 ∙ or_false (usable v4 o4), l.3.1 ∙ or_false (usable v6 o6)), l.4, l.5)
