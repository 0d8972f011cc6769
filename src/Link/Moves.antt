-- ===== src/Link/Moves.antt =====
-- What a larger system may do with a half that it owns: leave it alone, or pass on to it one event of
-- its own. The larger systems are two whole sessions (src/session.cpp) on one stream.
use lib_native_streaming.Common.{
  ◌≡◌, ℕ, refl, sym, ap, subst, ◌∙◌, Bool, true, false, not, ◌&&◌, Option, none, some, List, [],
  ◌++◌, append-nil, append_self,
}
use lib_native_streaming.Reader.{ReadTask}
use lib_native_streaming.Reader.Framing.{bytes_of}
use lib_native_streaming.Reader.Sequence.{pieces}
use lib_native_streaming.Reader.System as Receiving
use lib_native_streaming.Reader.System.{begin, arrived, failed, set_error, set_alive}
use lib_native_streaming.Writer.System as Sending
use lib_native_streaming.Link.{
  Link, sent, breaks, carry, arriving, past_after, write, read, Run, next,
}

abbrev pub SenderMoves : Option Sending.Event → Sending.System → Sending.System → Type 0
SenderMoves none s u = s ≡ u
SenderMoves (some e) s u = Sending.Enabled s e × (Sending.step s e ≡ some u)

module _ {H : Type 0} (handle : H → List ℕ → ReadTask H) where
  abbrev pub ReceiverMoves :
      Option (Receiving.Event H) → Receiving.System H → Receiving.System H → Type 0
  ReceiverMoves none s u = s ≡ u
  ReceiverMoves (some e) s u = Receiving.Enabled handle s e × (Receiving.step handle s e ≡ some u)

-- Whether the writer's event breaks the stream, which bytes the reader's takes from it, and what the
-- handlers of earlier read sequences were given, after it.
abbrev pub broken_by : Option Sending.Event → Bool
broken_by none = false
broken_by (some e) = breaks e

abbrev pub taken_by : {H : Type 0} → Option (Receiving.Event H) → List ℕ
taken_by none = []
taken_by (some e) = arriving e

abbrev pub past_behind :
    {H : Type 0} → Option (Receiving.Event H) → List ℕ → Receiving.System H → List ℕ
past_behind (some (begin task)) past s = past ++ bytes_of (pieces s.trace)
past_behind _ past s = past

module _ {H : Type 0} where
  past_after-lem :
      (e : Receiving.Event H) (s : Link H) → past_after e s ≡ past_behind (some e) s.past s.receiver
  past_after-lem (begin task) s = refl
  past_after-lem (arrived xs) s = refl
  past_after-lem (failed ec xs) s = refl
  past_after-lem (set_error cb) s = refl
  past_after-lem (set_alive cb) s = refl

  carry-still : (s : Link H) (b : Bool) → s.intact ≡ b → carry s s.sender [] (b && true) ≡ s
  carry-still s true e = rw (append-nil, append-nil, ← e) refl
  carry-still s false e = rw (append-nil, append-nil, ← e) refl

module _ {H : Type 0} (handle : H → List ℕ → ReadTask H) where
  pub Run-written :
      (m : Option Sending.Event) (s : Link H) (u : Sending.System) (new : List ℕ)
      → Run handle s
      → SenderMoves m s.sender u
      → sent u ≡ sent s.sender ++ new
      → Run handle (carry s u new (s.intact && not (broken_by m)))
  Run-written none s u new r same grown =
      rw (← same, append_self (sent s.sender) new (ap sent same ∙ grown))
        (subst (Run handle) (sym (carry-still s s.intact refl)) r)
  Run-written (some e) s u new r (ok, eq) grown = next r (write e u new ok eq grown)

  pub Run-taken :
      (m : Option (Receiving.Event H)) (s : Link H) (u : Receiving.System H) (rest : List ℕ)
      → Run handle s
      → ReceiverMoves handle m s.receiver u
      → s.wire ≡ taken_by m ++ rest
      → Run handle (record s { receiver = u; past = past_behind m s.past s.receiver; wire = rest })
  Run-taken none s u rest r same w =
      rw (← same) (subst (λ v. Run handle (record s { wire = v })) w r)
  Run-taken (some e) s u rest r (ok, eq) w =
      rw (← past_after-lem e s) (next r (read e u rest ok eq w))

  pub ReceiverMoves-Run :
      (m : Option (Receiving.Event H)) {s u : Receiving.System H}
      → ReceiverMoves handle m s u
      → Receiving.Run handle Receiving.start s
      → Receiving.Run handle Receiving.start u
  ReceiverMoves-Run none same r = subst (Receiving.Run handle Receiving.start) same r
  ReceiverMoves-Run (some e) (ok, eq) r = Receiving.next e r ok eq

pub SenderMoves-Run :
    (m : Option Sending.Event) {s u : Sending.System}
    → SenderMoves m s u
    → Sending.Run Sending.start s
    → Sending.Run Sending.start u
SenderMoves-Run none same r = subst (Sending.Run Sending.start) same r
SenderMoves-Run (some e) (ok, eq) r = Sending.next e r ok eq
