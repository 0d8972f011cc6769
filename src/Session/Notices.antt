-- ===== src/Session/Notices.antt =====
-- The lambdas that `Session` (src/session.cpp) gives to its halves, between what a half reports and the
-- callbacks of the user: `setErrorHandlers` and `setWriteTimedOutHandler`.
use lib_native_streaming.Common.{
  ℕ, ◌≡◌, refl, ap, Bool, true, false, Option, some, List, [], ◌∷◌, ◌++◌, append-nil, append_assoc,
}
use lib_native_streaming.Common.Errors.{ErrorCode}
use lib_native_streaming.Reader.{ReadTask, run_posted}
use lib_native_streaming.Reader
use lib_native_streaming.Writer
use lib_native_streaming.Session.{
  Session, Effect, wrapped, of_reader, of_writer, call_session_error, call_timed_out, on_half_error,
  on_write_timed_out, Action,
}
use lib_native_streaming.Common.Effects.{◌>>◌, ◌>>=◌, emit}
use lib_native_streaming.Session.Assembly.{Assembly, answer, relay}

-- That a half failed, or missed a deadline, and the callback that is to hear of it, which may be empty.
pub data Notice : Type 0 where
  failed_half : Option ℕ → ErrorCode → Notice
  missed_deadline : Option ℕ → Notice

module _ {H : Type 0} where
  -- What the halves report, and what the user is told.
  abbrev pub raised : List (Effect H) → List Notice
  raised [] = []
  raised (of_writer (Writer.call_error_handler cb ec) ∷ es) =
      failed_half (wrapped cb) ec ∷ raised es
  raised (of_reader (Reader.call_error_handler cb ec) ∷ es) =
      failed_half (wrapped cb) ec ∷ raised es
  raised (of_writer (Writer.call_timeout_handler (some cb)) ∷ es) =
      missed_deadline (wrapped cb) ∷ raised es
  raised (_ ∷ es) = raised es

  abbrev pub given : List (Effect H) → List Notice
  given [] = []
  given (call_session_error cb ec ∷ es) = failed_half cb ec ∷ given es
  given (call_timed_out cb ∷ es) = missed_deadline cb ∷ given es
  given (_ ∷ es) = given es

  pub raised-append : (xs ys : List (Effect H)) → raised (xs ++ ys) ≡ raised xs ++ raised ys
  raised-append [] ys = refl
  raised-append (of_writer (Writer.call_error_handler cb ec) ∷ xs) ys =
      ap (◌∷◌ (failed_half (wrapped cb) ec)) (raised-append xs ys)
  raised-append (of_reader (Reader.call_error_handler cb ec) ∷ xs) ys =
      ap (◌∷◌ (failed_half (wrapped cb) ec)) (raised-append xs ys)
  raised-append (of_writer (Writer.call_timeout_handler (some cb)) ∷ xs) ys =
      ap (◌∷◌ (missed_deadline (wrapped cb))) (raised-append xs ys)
  raised-append (_ ∷ xs) ys = raised-append xs ys

  pub given-append : (xs ys : List (Effect H)) → given (xs ++ ys) ≡ given xs ++ given ys
  given-append [] ys = refl
  given-append (call_session_error cb ec ∷ xs) ys =
      ap (◌∷◌ (failed_half cb ec)) (given-append xs ys)
  given-append (call_timed_out cb ∷ xs) ys = ap (◌∷◌ (missed_deadline cb)) (given-append xs ys)
  given-append (_ ∷ xs) ys = given-append xs ys

  -- The effects of `relay`.
  abbrev reply : Bool → Effect H → List (Effect H)
  reply true (of_writer (Writer.call_error_handler cb ec)) = call_session_error (wrapped cb) ec ∷ []
  reply true (of_reader (Reader.call_error_handler cb ec)) = call_session_error (wrapped cb) ec ∷ []
  reply true (of_writer (Writer.call_timeout_handler (some cb))) = call_timed_out (wrapped cb) ∷ []
  reply _ _ = []

  abbrev pub told : Bool → List (Effect H) → List (Effect H)
  told alive [] = []
  told alive (e ∷ es) = e ∷ reply alive e ++ told alive es

  answer-lem :
      (alive : Bool) (e : Effect H) (s : Session H) → answer alive e s ≡ some (tt, s, reply alive e)
  unfolding on_half_error on_write_timed_out
  answer-lem true (of_writer (Writer.call_error_handler cb ec)) s = refl
  answer-lem true (of_reader (Reader.call_error_handler cb ec)) s = refl
  answer-lem true (of_writer (Writer.call_timeout_handler (some cb))) s = refl
  answer-lem false (of_writer (Writer.call_error_handler cb ec)) s = refl
  answer-lem false (of_reader (Reader.call_error_handler cb ec)) s = refl
  answer-lem false (of_writer (Writer.call_timeout_handler (some cb))) s = refl
  answer-lem true _ s = refl
  answer-lem false _ s = refl

  both :
      (m k : Action H (Unit {0})) (s : Session H) (xs ys : List (Effect H))
      → m s ≡ some (tt, s, xs)
      → k s ≡ some (tt, s, ys)
      → (m >> k) s ≡ some (tt, s, xs ++ ys)
  both m k s xs ys e f = rw (e, ◌>>◌, ◌>>=◌, f) refl

  pub relay-lem :
      (alive : Bool) (es : List (Effect H)) (s : Session H)
      → relay alive es s ≡ some (tt, s, told alive es)
  relay-lem alive [] s = refl
  relay-lem alive (e ∷ es) s = both (emit e) (answer alive e >> relay alive es) s (e ∷ []) _ refl (
      both (answer alive e) (relay alive es) s (reply alive e) _ (answer-lem alive e s)
        (relay-lem alive es s))

  raised-told : (alive : Bool) (es : List (Effect H)) → raised (told alive es) ≡ raised es
  raised-told alive [] = refl
  raised-told true (of_writer (Writer.call_error_handler cb ec) ∷ es) =
      ap (◌∷◌ (failed_half (wrapped cb) ec)) (raised-told true es)
  raised-told true (of_reader (Reader.call_error_handler cb ec) ∷ es) =
      ap (◌∷◌ (failed_half (wrapped cb) ec)) (raised-told true es)
  raised-told true (of_writer (Writer.call_timeout_handler (some cb)) ∷ es) =
      ap (◌∷◌ (missed_deadline (wrapped cb))) (raised-told true es)
  raised-told true (_ ∷ es) = raised-told true es
  raised-told false (of_writer (Writer.call_error_handler cb ec) ∷ es) =
      ap (◌∷◌ (failed_half (wrapped cb) ec)) (raised-told false es)
  raised-told false (of_reader (Reader.call_error_handler cb ec) ∷ es) =
      ap (◌∷◌ (failed_half (wrapped cb) ec)) (raised-told false es)
  raised-told false (of_writer (Writer.call_timeout_handler (some cb)) ∷ es) =
      ap (◌∷◌ (missed_deadline (wrapped cb))) (raised-told false es)
  raised-told false (_ ∷ es) = raised-told false es

  given-told : (es : List (Effect H)) → given es ≡ [] → given (told true es) ≡ raised es
  given-told [] q = refl
  given-told (of_writer (Writer.call_error_handler cb ec) ∷ es) q =
      ap (◌∷◌ (failed_half (wrapped cb) ec)) (given-told es q)
  given-told (of_reader (Reader.call_error_handler cb ec) ∷ es) q =
      ap (◌∷◌ (failed_half (wrapped cb) ec)) (given-told es q)
  given-told (of_writer (Writer.call_timeout_handler (some cb)) ∷ es) q =
      ap (◌∷◌ (missed_deadline (wrapped cb))) (given-told es q)
  given-told (call_session_error cb ec ∷ es) q = absurd cc
  given-told (call_timed_out cb ∷ es) q = absurd cc
  given-told (_ ∷ es) q = given-told es q

  given-untold : (es : List (Effect H)) → given es ≡ [] → given (told false es) ≡ []
  given-untold [] q = refl
  given-untold (call_session_error cb ec ∷ es) q = absurd cc
  given-untold (call_timed_out cb ∷ es) q = absurd cc
  given-untold (_ ∷ es) q = given-untold es q

  -- What one event adds, if the effects that it relays call none of the callbacks themselves.
  pub record Grew (s u : Assembly H) : Type 0 where
    pub effects : List (Effect H)
    pub quiet : given effects ≡ []
    pub grown : u.trace ≡ s.trace ++ told u.alive effects
    pub was_alive : u.alive ≡ true → s.alive ≡ true

  -- The user was told of all that the halves reported, but for what came after the destruction.
  pub record Inv (s : Assembly H) : Type 0 where
    pub unheard : List Notice
    pub split : raised s.trace ≡ given s.trace ++ unheard
    pub heard : s.alive ≡ true → unheard ≡ []

  pub Grew-Inv : (s u : Assembly H) (a : Bool) → u.alive ≡ a → Grew s u → Inv s → Inv u
  Grew-Inv s u true e g inv =
      let none_yet = inv.heard (g.was_alive e) in
      let grown : u.trace ≡ s.trace ++ told true g.effects = rw (← e) g.grown in
      record {
        unheard = [];
        split =
            rw
              (
                grown,
                raised-append,
                given-append,
                raised-told true g.effects,
                given-told g.effects g.quiet,
                inv.split,
                none_yet,
              )
              (simp append-nil);
        heard = λ h. refl;
      }
  Grew-Inv s u false e g inv =
      let grown : u.trace ≡ s.trace ++ told false g.effects = rw (← e) g.grown in
      record {
        unheard = inv.unheard ++ raised g.effects;
        split =
            rw
              (
                grown,
                raised-append,
                given-append,
                raised-told false g.effects,
                given-untold g.effects g.quiet,
                inv.split,
              )
              (simp (append-nil, append_assoc));
        heard = λ h. absurd cc;
      }
