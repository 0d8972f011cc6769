-- ===== src/Writer/Stall.antt =====
-- A failed write with batches still queued stops `AsyncWriter` (src/async_writer.cpp) for good: no
-- write is in flight, so none completes, and a new batch starts one only on the empty queue.
use lib_native_streaming.Common.{
  ℕ, ◌≡◌, refl, subst, sym, ap, ◌∙◌, ◌≢◌, Bool, true, Option, none, some, [], ◌∷◌, ◌++◌, append-nil,
  append_assoc,
}
use lib_native_streaming.Common.Errors.{ErrorCode, success, operation_aborted, failure, is_error}
use lib_native_streaming.Writer.{BatchedWriteTasks, BatchedWriteTasksWithDeadline, handlers_of}
use lib_native_streaming.Writer.Branches.{batch, timer_for, timer_effects, done_effects}
use lib_native_streaming.Writer.System.{
  System, Event, complete, step, start, Run, here, next, calls, writes,
}
use lib_native_streaming.Writer.Trace.{calls-append, writes-append}
use lib_native_streaming.Writer.Invariant.{Queue, Inv, start-Inv}
use lib_native_streaming.Writer.Invariant.Accepted.{accepted_system, calls_first, writes_first}
use lib_native_streaming.Writer.Invariant.Completed.{
  completed_system, step-completed, flight_next, given_done, calls_done,
}
use lib_native_streaming.Writer.Invariant.Quiet.{quiet_system, Quiet}
use lib_native_streaming.Writer.Invariant.Steps.{
  Outcome, quiet, accepted, completed, step-Outcome, Run-Inv,
}

module _ (s : System) (c : BatchedWriteTasksWithDeadline) (q : Queue) where
  -- No write in flight, the batches of `s` still in front, and nothing written or released since `s`.
  abbrev Stuck : System → Type 0
  Stuck u =
      (u.in_flight ≡ none)
      × (k : Queue) × (u.writer.write_tasks_queue ≡ c ∷ (q ++ k))
      × (writes u.trace ≡ writes s.trace)
      × (calls u.trace ≡ calls s.trace)

  quiet_system-Stuck :
      (u : System) (e : Event) (h : Quiet u e) → Stuck u → Stuck (quiet_system u h.writer h.effects)
  unfolding quiet_system
  quiet_system-Stuck u e h (free, k, kept, w, f) = (
    free,
    k,
    h.same_queue ∙ kept,
    rw (writes-append u.trace h.effects, h.no_write, append-nil (writes u.trace)) w,
    rw (calls-append u.trace h.effects, h.no_call, append-nil (calls u.trace)) f,
  )

  accepted_system-Stuck :
      (u : System) (tasks : BatchedWriteTasks) (d : Option ℕ) (l : Queue)
      → u.writer.write_tasks_queue ≡ l
      → Stuck u
      → Stuck (accepted_system u tasks d l)
  unfolding accepted_system
  accepted_system-Stuck u tasks d [] e (free, k, kept, w, f) = cc
  accepted_system-Stuck u tasks d (b ∷ l) e (free, k, kept, w, f) =
      let n = u.writer.next_timer in
      let es = timer_effects d n ++ [] in
      let new = batch tasks (timer_for d n) ∷ [] in
      (
        free,
        k ++ new,
        ap (λ (m : Queue). m ++ new) (sym e ∙ kept) ∙ ap (◌∷◌ c) (append_assoc q k new),
        rw (writes-append u.trace es, writes_first d n (b ∷ l) tasks, append-nil (writes u.trace))
            w,
        rw (calls-append u.trace es, calls_first d n (b ∷ l) tasks, append-nil (calls u.trace)) f,
      )

  Outcome-Stuck : (t u : System) {e : Event} → Outcome t e → Stuck t → step t e ≡ some u → Stuck u
  Outcome-Stuck t u {e} (quiet h) stuck eq =
      let same : quiet_system t h.writer h.effects ≡ u = cc (h.result) in
      subst Stuck same (quiet_system-Stuck t e h stuck)
  Outcome-Stuck t u (accepted tasks d now f r) stuck eq =
      let same : accepted_system t tasks d t.writer.write_tasks_queue ≡ u = cc in
      subst Stuck same (accepted_system-Stuck t tasks d t.writer.write_tasks_queue refl stuck)
  Outcome-Stuck t u (completed ec bs b p e f r) stuck eq = let free = stuck.0 in cc

  Run-Stuck : {t u : System} → Inv t → Stuck t → Run t u → Stuck u
  Run-Stuck inv stuck here = stuck
  Run-Stuck inv stuck (next {t} {u} e r h eq) =
      Outcome-Stuck t u (step-Outcome t e (Run-Inv inv r).fits h) (Run-Stuck inv stuck r) eq

no_flight : (ec : ErrorCode) (r : Bool) (q : Queue) → is_error ec ≡ true → flight_next ec r q ≡ none
no_flight success r q h = cc
no_flight operation_aborted r q h = refl
no_flight (failure n) r q h = refl

failed-Stuck :
    (s : System) (ec : ErrorCode) (b c : BatchedWriteTasksWithDeadline) (q : Queue)
    → is_error ec ≡ true
    → Stuck (completed_system s ec b (c ∷ q)) c q (completed_system s ec b (c ∷ q))
unfolding completed_system
failed-Stuck s ec b c q h = (
  no_flight ec s.writer.timeout_reached (c ∷ q) h,
  [],
  ap (◌∷◌ c) (sym (append-nil q)),
  refl,
  refl,
)

failed_writes :
    (s : System) (ec : ErrorCode) (b : BatchedWriteTasksWithDeadline) (q : Queue)
    → is_error ec ≡ true
    → (writes (completed_system s ec b q).trace ≡ writes s.trace)
      × (calls (completed_system s ec b q).trace ≡ calls s.trace ++ handlers_of b.tasks)
unfolding completed_system
failed_writes s ec b q h = (
  rw
      (
        writes-append s.trace (done_effects ec s.writer b q),
        given_done ec s.writer b q,
        no_flight ec s.writer.timeout_reached q h,
      )
      (append-nil (writes s.trace)),
  rw (calls-append s.trace (done_effects ec s.writer b q), calls_done ec s.writer b q),
)

-- After any history, a write that fails while further batches are queued is the last one: in every
-- later history nothing is written again, no handler but those of the failed batch is called, and
-- the queued batches stay at the front of the queue, though later batches are still accepted behind
-- them.
pub Run-stalled :
    {s t u : System} (ec : ErrorCode) (b c : BatchedWriteTasksWithDeadline) (q : Queue)
    → Run start s
    → s.in_flight ≢ none
    → s.writer.write_tasks_queue ≡ b ∷ c ∷ q
    → is_error ec ≡ true
    → step s (complete ec) ≡ some t
    → Run t u
    → (writes u.trace ≡ writes s.trace)
      × (calls u.trace ≡ calls s.trace ++ handlers_of b.tasks)
      × ((k : Queue) × (u.writer.write_tasks_queue ≡ c ∷ (q ++ k)))
Run-stalled {s} {t} {u} ec b c q r busy e failed eq later =
    let start_inv = Run-Inv start-Inv r in
    let mid = completed_system s ec b (c ∷ q) in
    let same : mid ≡ t = cc (step-completed s ec b (c ∷ q) e) in
    let inv = Run-Inv start_inv (next (complete ec) here busy eq) in
    let stuck =
      Run-Stuck mid c q inv (subst (Stuck mid c q) same (failed-Stuck s ec b c q failed)) later in
    let at_failure = failed_writes s ec b (c ∷ q) failed in
    (stuck.3 ∙ at_failure.0, stuck.4 ∙ at_failure.1, (stuck.1, stuck.2))
