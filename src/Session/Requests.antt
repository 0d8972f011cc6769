-- ===== src/Session/Requests.antt =====
-- From the calls of `Session::scheduleWrite` (src/session.cpp) to the batches that the session's writer
-- takes.
use lib_native_streaming.Common.{
  ℕ, ℕ, ◌≡◌, refl, sym, subst, ◌⊎◌, inl, inr, true, false, Option, none, some, List, [], ◌∷◌, ◌++◌,
  map, append-nil, append_assoc, map-append,
}
use lib_native_streaming.Common.Connections.{SessionArguments}
use lib_native_streaming.Reader.{ReadTask}
use lib_native_streaming.Writer.{BatchedWriteTasks, new_writer}
use lib_native_streaming.Writer.System as Sending
use lib_native_streaming.Writer.System.{
  schedule, queue, complete, deadline, set_error, set_alive, set_timed_out,
}
use lib_native_streaming.Writer.System.{calls}
use lib_native_streaming.Writer.Invariant.{all_tasks, handlers, handlers-append}
use lib_native_streaming.Writer.Order.{Run-handlers}
use lib_native_streaming.Writer.Intake.{Takes, step-Takes}
use lib_native_streaming.Link.Moves.{SenderMoves}
use lib_native_streaming.Session.{new_session}
use lib_native_streaming.Session.Assembly.{Assembly, Posted, sender_of}
use lib_native_streaming.Session.Events.{Run, here, next, start}
use lib_native_streaming.Session.Sender.{for_writer, step-SenderMoves}
use lib_native_streaming.Session.Halves.{Run-halves}
use lib_native_streaming.Session.Posting.{
  posted_after, requested_after, IsNext, step-posted, Enabled-IsNext,
}

abbrev pub batch_of : Posted → BatchedWriteTasks
batch_of p = p.0

-- What became of the calls: the lambdas that ran were of batches that the writer took, and then of
-- batches that it refused, which it does after a missed deadline only.
record Inv (w : Sending.System) (requested posted : List Posted) : Type 0 where
  ran : List Posted
  refused : List BatchedWriteTasks
  in_order : requested ≡ ran ++ posted
  split : map batch_of ran ≡ w.accepted ++ refused
  missed : (refused ≡ []) ⊎ (w.writer.timeout_reached ≡ true)

kept-Inv :
    {w v : Sending.System} {requested posted : List Posted}
    → v.accepted ≡ w.accepted
    → (w.writer.timeout_reached ≡ true → v.writer.timeout_reached ≡ true)
    → Inv w requested posted
    → Inv v requested posted
kept-Inv {w} {v} same flag inv = record {
  ran = inv.ran;
  refused = inv.refused;
  in_order = inv.in_order;
  split = rw same inv.split;
  missed = elim inv.missed [ inl e ↦ inl e | inr e ↦ inr (flag e) ];
}

scheduled-Inv :
    {w : Sending.System} {requested posted : List Posted} (p : Posted)
    → Inv w requested posted
    → Inv w (requested ++ p ∷ []) (posted ++ p ∷ [])
scheduled-Inv {w} {requested} {posted} p inv = record {
  ran = inv.ran;
  refused = inv.refused;
  in_order = rw inv.in_order (append_assoc inv.ran posted (p ∷ []));
  split = inv.split;
  missed = inv.missed;
}

accepted-Inv :
    {w v : Sending.System} {requested posted rest : List Posted} (p : Posted)
    → posted ≡ p ∷ rest
    → v.accepted ≡ w.accepted ++ batch_of p ∷ []
    → w.writer.timeout_reached ≡ false
    → Inv w requested posted
    → Inv v requested rest
accepted-Inv {w} {v} {requested} {posted} {rest} p e grown calm inv =
    let none_yet : inv.refused ≡ [] = elim inv.missed [ inl h ↦ h | inr h ↦ absurd cc ] in
    record {
      ran = inv.ran ++ p ∷ [];
      refused = [];
      in_order = rw (inv.in_order, e) (sym (append_assoc inv.ran (p ∷ []) rest));
      split = rw (map-append, inv.split, none_yet, grown) (simp append-nil);
      missed = inl refl;
    }

refused-Inv :
    {w v : Sending.System} {requested posted rest : List Posted} (p : Posted)
    → posted ≡ p ∷ rest
    → v.accepted ≡ w.accepted
    → v.writer.timeout_reached ≡ true
    → Inv w requested posted
    → Inv v requested rest
refused-Inv {w} {v} {requested} {posted} {rest} p e same late inv = record {
  ran = inv.ran ++ p ∷ [];
  refused = inv.refused ++ batch_of p ∷ [];
  in_order = rw (inv.in_order, e) (sym (append_assoc inv.ran (p ∷ []) rest));
  split = rw (map-append, inv.split, same) (append_assoc w.accepted inv.refused (batch_of p ∷ []));
  missed = inr late;
}

-- An event of the writer's own that has a result.
event-Inv :
    (e : Sending.Event) {w v : Sending.System} {requested posted : List Posted}
    → Takes e w v
    → IsNext (some e) posted
    → Inv w requested posted
    → Inv v (requested_after (some e) requested) (posted_after (some e) posted)
event-Inv (schedule tasks d) (same, flag) n inv = scheduled-Inv (tasks, d) (kept-Inv same flag inv)
event-Inv (queue tasks d now) (inl (grown, calm), flag) (rest, e) inv =
    rw e (accepted-Inv (tasks, d) e grown calm inv)
event-Inv (queue tasks d now) (inr (same, late), flag) (rest, e) inv =
    rw e (refused-Inv (tasks, d) e same late inv)
event-Inv (complete ec) (same, flag) n inv = kept-Inv same flag inv
event-Inv (deadline ec locked) (same, flag) n inv = kept-Inv same flag inv
event-Inv (set_error cb) (same, flag) n inv = kept-Inv same flag inv
event-Inv (set_alive cb) (same, flag) n inv = kept-Inv same flag inv
event-Inv (set_timed_out cb) (same, flag) n inv = kept-Inv same flag inv

moved-Inv :
    (m : Option Sending.Event) {w v : Sending.System} {requested posted : List Posted}
    → Sending.Run Sending.start w
    → SenderMoves m w v
    → IsNext m posted
    → Inv w requested posted
    → Inv v (requested_after m requested) (posted_after m posted)
moved-Inv none {w} {v} {requested} {posted} r same n inv =
    subst (λ x. Inv x requested posted) same inv
moved-Inv (some e) r (ok, eq) n inv = event-Inv e (step-Takes e r ok eq) n inv

module _ {H : Type 0} (handle : H → List ℕ → ReadTask H) (a : SessionArguments) where
  start-Inv : Inv (sender_of (start {H = H} a)) (start {H = H} a).requested (start {H = H} a).posted
  unfolding start new_session new_writer
  start-Inv = record { ran = []; refused = []; in_order = refl; split = refl; missed = inl refl }

  Run-Inv : {s : Assembly H} → Run handle (start a) s → Inv (sender_of s) s.requested s.posted
  Run-Inv here = start-Inv
  Run-Inv (next {t} {u} e r ok eq) =
      let filed = step-posted handle t u e ok eq in
      rw (filed.0, filed.1)
        (moved-Inv (for_writer e) (Run-halves handle a r).0 (step-SenderMoves handle t u e ok eq)
          (Enabled-IsNext handle t e ok) (Run-Inv r))

  -- In any history of a whole session in which a sequence of reads is begun only while no read is in
  -- flight, the batches that `scheduleWrite` was called with are, in the
  -- order of the calls, those that the writer took, then those that it refused, then those whose
  -- lambda has not run yet. The writer refused one only where a deadline was missed. The write handlers
  -- that were called are, in order, the first of those that these batches hold.
  pub Run-requests :
      {s : Assembly H}
      → Run handle (start a) s
      → (refused : List BatchedWriteTasks) × (map batch_of s.requested
          ≡ s.accepted ++ (refused ++ map batch_of s.posted))
        × (s.session.writer.timeout_reached ≡ false → refused ≡ [])
        × ((uncalled : List ℕ) × (calls s.sent ++ uncalled ≡ handlers (map batch_of s.requested)))
  Run-requests {s} r =
      let inv = Run-Inv r in
      let kept : map batch_of s.requested ≡ s.accepted ++ (inv.refused ++ map batch_of s.posted) =
        rw (inv.in_order, map-append, inv.split)
          (append_assoc s.accepted inv.refused (map batch_of s.posted)) in
      let left = handlers (inv.refused ++ map batch_of s.posted) in
      (
        inv.refused,
        kept,
        λ calm. elim inv.missed [ inl h ↦ h | inr h ↦ absurd cc ],
        (
          handlers (all_tasks s.session.writer.write_tasks_queue) ++ left,
          rw
              (
                kept,
                handlers-append s.accepted (inv.refused ++ map batch_of s.posted),
                ← Run-handlers (Run-halves handle a r).0,
              )
              (simp append_assoc),
        ),
      )
