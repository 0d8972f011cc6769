-- ===== src/Writer/Deadlines.antt =====
-- The deadline timers of `AsyncWriter` (src/async_writer.cpp): `setupDeadlineTimer` starts one for a
-- batch with a deadline, and `writeDone` cancels it.
use lib_native_streaming.Common.{
  ℕ, zero, suc, ◌≡◌, refl, subst, sym, ap, ◌∙◌, Option, none, some, List, [], ◌∷◌, ◌++◌, append-nil,
  append_assoc, arith,
}
use lib_native_streaming.Common.Errors.{ErrorCode, success}
use lib_native_streaming.Writer.{
  AsyncWriter, BatchedWriteTasks, BatchedWriteTasksWithDeadline, handlers_of,
}
use lib_native_streaming.Writer.Branches.{
  batch, timer_for, timer_effects, next_timer_after, first_write, cancel_effects, after_effects,
  done_effects,
}
use lib_native_streaming.Writer.System.{
  System, Event, step, start, Run, here, next, armed, disarmed,
}
use lib_native_streaming.Writer.Trace.{
  armed-append, disarmed-append, armed-handlers, disarmed-handlers,
}
use lib_native_streaming.Writer.Invariant.{Queue, start-Inv}
use lib_native_streaming.Writer.Invariant.Accepted.{accepted_system}
use lib_native_streaming.Writer.Invariant.Completed.{completed_system}
use lib_native_streaming.Writer.Invariant.Quiet.{quiet_system, Quiet}
use lib_native_streaming.Writer.Invariant.Steps.{
  Outcome, quiet, accepted, completed, step-Outcome, Run-Inv,
}

abbrev timer_list : Option ℕ → List ℕ
timer_list none = []
timer_list (some t) = t ∷ []

-- The timers of the batches that wait, in order.
abbrev pub held : Queue → List ℕ
held [] = []
held (b ∷ q) = timer_list b.deadline_timer ++ held q

-- 0, 1, …, n - 1.
abbrev pub upto : ℕ → List ℕ
upto zero = []
upto (suc n) = upto n ++ n ∷ []

held-append :
    (q : Queue) (b : BatchedWriteTasksWithDeadline)
    → held (q ++ b ∷ []) ≡ held q ++ timer_list b.deadline_timer
held-append [] b = append-nil (timer_list b.deadline_timer)
held-append (c ∷ q) b =
    rw (held-append q b) (sym (append_assoc (timer_list c.deadline_timer) (held q) _))

record Inv (s : System) : Type 0 where
  cancelled : armed s.trace ≡ disarmed s.trace ++ held s.writer.write_tasks_queue
  named : armed s.trace ≡ upto s.writer.next_timer

armed_first :
    (d : Option ℕ) (n : ℕ) (q : Queue) (tasks : BatchedWriteTasks)
    → armed (timer_effects d n ++ first_write q tasks) ≡ timer_list (timer_for d n)
armed_first none n [] tasks = refl
armed_first none n (b ∷ q) tasks = refl
armed_first (some d) n [] tasks = refl
armed_first (some d) n (b ∷ q) tasks = refl

disarmed_first :
    (d : Option ℕ) (n : ℕ) (q : Queue) (tasks : BatchedWriteTasks)
    → disarmed (timer_effects d n ++ first_write q tasks) ≡ []
disarmed_first none n [] tasks = refl
disarmed_first none n (b ∷ q) tasks = refl
disarmed_first (some d) n [] tasks = refl
disarmed_first (some d) n (b ∷ q) tasks = refl

upto_next :
    (d : Option ℕ) (n : ℕ) → upto n ++ timer_list (timer_for d n) ≡ upto (next_timer_after d n)
upto_next none n = append-nil (upto n)
upto_next (some d) n = refl

accepted-Inv :
    (s : System) (tasks : BatchedWriteTasks) (d : Option ℕ)
    → Inv s
    → Inv (accepted_system s tasks d s.writer.write_tasks_queue)
unfolding accepted_system
accepted-Inv s tasks d inv =
    let q = s.writer.write_tasks_queue in
    let n = s.writer.next_timer in
    record {
      cancelled =
          rw
            (
              armed-append,
              disarmed-append,
              armed_first d n q tasks,
              disarmed_first d n q tasks,
              held-append q (batch tasks (timer_for d n)),
              inv.cancelled,
            )
            (simp (append-nil, append_assoc));
      named = rw (armed-append, armed_first d n q tasks, inv.named) (upto_next d n);
    }

armed_rest :
    (ec : ErrorCode) (w : AsyncWriter) (t : Option ℕ) (q : Queue)
    → armed (cancel_effects t ++ after_effects ec w q) ≡ []
armed_rest success w none [] = ground arith
armed_rest success w none (b ∷ q) = ground arith
armed_rest success w (some t) [] = ground arith
armed_rest success w (some t) (b ∷ q) = ground arith
armed_rest _ w none q = ground arith
armed_rest _ w (some t) q = ground arith

disarmed_rest :
    (ec : ErrorCode) (w : AsyncWriter) (t : Option ℕ) (q : Queue)
    → disarmed (cancel_effects t ++ after_effects ec w q) ≡ timer_list t
disarmed_rest success w none [] = ground arith
disarmed_rest success w none (b ∷ q) = ground arith
disarmed_rest success w (some t) [] = ground arith
disarmed_rest success w (some t) (b ∷ q) = ground arith
disarmed_rest _ w none q = ground arith
disarmed_rest _ w (some t) q = ground arith

completed-Inv :
    (s : System) (ec : ErrorCode) (b : BatchedWriteTasksWithDeadline) (q : Queue)
    → s.writer.write_tasks_queue ≡ b ∷ q
    → Inv s
    → Inv (completed_system s ec b q)
unfolding completed_system
completed-Inv s ec b q e inv =
    let w = s.writer in
    let t = b.deadline_timer in
    let before : armed s.trace ≡ disarmed s.trace ++ (timer_list t ++ held q) =
      inv.cancelled ∙ ap (λ (l : Queue). disarmed s.trace ++ held l) e in
    let none_armed : armed (done_effects ec w b q) ≡ [] =
      armed-handlers (handlers_of b.tasks) (cancel_effects t ++ after_effects ec w q)
      ∙ armed_rest ec w t q in
    let one : disarmed (done_effects ec w b q) ≡ timer_list t =
      disarmed-handlers (handlers_of b.tasks) (cancel_effects t ++ after_effects ec w q)
      ∙ disarmed_rest ec w t q in
    record {
      cancelled =
          rw (armed-append, disarmed-append, none_armed, one, before)
            (simp (append-nil, append_assoc));
      named = rw (armed-append, none_armed, append-nil) inv.named;
    }

quiet-Inv :
    (s : System) (e : Event) (h : Quiet s e) → Inv s → Inv (quiet_system s h.writer h.effects)
unfolding quiet_system
quiet-Inv s e h inv = record {
  cancelled =
      rw
        (
          armed-append, disarmed-append, h.no_timer.0, h.no_timer.1, h.same_queue, append-nil,
          append-nil,
        )
        inv.cancelled;
  named = rw (armed-append, h.no_timer.0, h.same_timer, append-nil) inv.named;
}

Outcome-Inv : (s u : System) {e : Event} → Outcome s e → Inv s → step s e ≡ some u → Inv u
Outcome-Inv s u {e} (quiet h) inv eq =
    let same : quiet_system s h.writer h.effects ≡ u = cc (h.result) in
    subst Inv same (quiet-Inv s e h inv)
Outcome-Inv s u (accepted tasks d now f r) inv eq =
    let same : accepted_system s tasks d s.writer.write_tasks_queue ≡ u = cc in
    subst Inv same (accepted-Inv s tasks d inv)
Outcome-Inv s u (completed ec bs b q e f r) inv eq =
    let same : completed_system s ec b q ≡ u = cc in subst Inv same (completed-Inv s ec b q e inv)

Run-kept : {s : System} → Run start s → Inv s
unfolding start
Run-kept here = record { cancelled = refl; named = refl }
Run-kept (next {t} {u} e r h eq) =
    Outcome-Inv t u (step-Outcome t e (Run-Inv start-Inv r).fits h) (Run-kept r) eq

-- After any history of a writer the deadline timers that it has started are all different; those
-- cancelled come first among them, in the order in which they were started, each cancelled once, and the
-- others are those of the batches that are still queued, in the order of the queue: no timer outlives
-- its batch.
pub Run-deadlines :
    {s : System}
    → Run start s
    → (armed s.trace ≡ disarmed s.trace ++ held s.writer.write_tasks_queue)
      × (armed s.trace ≡ upto s.writer.next_timer)
Run-deadlines r = let inv = Run-kept r in (inv.cancelled, inv.named)
