-- ===== src/Writer/Drain.antt =====
-- `AsyncWriter` (src/async_writer.cpp) works its queue off when the stream keeps completing.
use lib_native_streaming.Common.{
  ℕ, ◌≡◌, refl, subst, sym, ◌∙◌, ◌≢◌, inl, inr, false, Option, none, some, List, [], ◌∷◌, ◌++◌, map,
  replicate, length, append-nil, Option-cases,
}
use lib_native_streaming.Common.Errors.{success}
use lib_native_streaming.Writer.{BatchedWriteTasks, BatchedWriteTasksWithDeadline, buffers_of}
use lib_native_streaming.Writer.System.{
  Buffers, System, Event, complete, start, Run, calls, writes, run,
}
use lib_native_streaming.Writer.Invariant.{
  Queue, Fits, unwritten, all_tasks, handlers, Inv, start-Inv,
}
use lib_native_streaming.Writer.Invariant.Completed.{
  completed_system, completed_system-Inv, step-completed, flight_next,
}
use lib_native_streaming.Writer.Invariant.Steps.{Run-Inv}

abbrev pub completions : ℕ → List Event
completions n = replicate n (complete success)

-- A write is in flight, unless nothing is queued.
abbrev Busy : Option Buffers → Queue → Type 0
Busy f [] = Unit {0}
Busy f (b ∷ q) = f ≢ none

abbrev Drained : System → System → Type 0
Drained s u =
    (u.writer.write_tasks_queue ≡ [])
    × (u.in_flight ≡ none)
    × (calls u.trace ≡ handlers s.accepted)
    × (writes u.trace ≡ map buffers_of s.accepted)

Busy-next : (q : Queue) → Busy (flight_next success false q) q
Busy-next [] = tt
Busy-next (b ∷ q) = λ e. cc

empty-Drained :
    (s : System) (f : Option Buffers)
    → s.writer.write_tasks_queue ≡ []
    → s.in_flight ≡ f
    → Fits f []
    → calls s.trace ++ handlers (all_tasks []) ≡ handlers s.accepted
    → writes s.trace ++ map buffers_of (all_tasks (unwritten f [])) ≡ map buffers_of s.accepted
    → Drained s s
empty-Drained s none e g h c w =
    (e, g, sym (append-nil (calls s.trace)) ∙ c, sym (append-nil (writes s.trace)) ∙ w)
empty-Drained s (some bs) e g h c w = absurd h

module _ (s : System) (b : BatchedWriteTasksWithDeadline) (q : Queue) where
  completed_system-flight :
      s.writer.timeout_reached ≡ false
      → Busy (completed_system s success b q).in_flight q
        × ((completed_system s success b q).writer.timeout_reached ≡ false)
        × ((completed_system s success b q).accepted ≡ s.accepted)
  unfolding completed_system
  completed_system-flight h = (rw h (Busy-next q), h, append-nil s.accepted)

  completed_system-queue : (completed_system s success b q).writer.write_tasks_queue ≡ q
  unfolding completed_system
  completed_system-queue = refl

drain :
    (q : Queue) (s : System)
    → s.writer.write_tasks_queue ≡ q
    → Inv s
    → s.writer.timeout_reached ≡ false
    → Busy s.in_flight q
    → (u : System) × (run s (completions (length q)) ≡ some u) × Drained s u
unfolding run
drain [] s e inv t busy = (
  s,
  refl,
  empty-Drained s s.in_flight e refl (subst (Fits s.in_flight) e inv.fits)
      (subst (λ (l : Queue). calls s.trace ++ handlers (all_tasks l) ≡ handlers s.accepted) e
        inv.handled)
      (subst
        (λ (l : Queue).
          writes s.trace ++ map buffers_of (all_tasks (unwritten s.in_flight l))
          ≡ map buffers_of s.accepted)
        e inv.written),
)
drain (b ∷ q) s e inv t busy = elim (Option-cases s.in_flight) [
  | inl f ↦ absurd (busy f)
  | inr (bs, f) ↦
      let mid = completed_system s success b q in
      let facts = completed_system-flight s b q t in
      let (u, runs, drained) =
        drain q mid (completed_system-queue s b q) (completed_system-Inv s success bs b q e f inv)
          facts.1 facts.0 in
      (
        u,
        rw (run, step-completed s success b q e) runs,
        subst
            (λ (l : List BatchedWriteTasks).
              (u.writer.write_tasks_queue ≡ [])
              × (u.in_flight ≡ none)
              × (calls u.trace ≡ handlers l)
              × (writes u.trace ≡ map buffers_of l))
            facts.2 drained,
      )
]

Busy-queue : (f : Option Buffers) (q : Queue) → f ≢ none → Busy f q
Busy-queue f [] h = tt
Busy-queue f (b ∷ q) h = h

-- After any history with no missed deadline that leaves a write in flight, as many successful
-- completions as there are queued batches leave the queue empty and the stream idle, and by then
-- each accepted batch was written and each of its handlers called, in order.
pub Run-drains :
    {s : System}
    → Run start s
    → s.writer.timeout_reached ≡ false
    → s.in_flight ≢ none
    → (u : System) × (run s (completions (length s.writer.write_tasks_queue)) ≡ some u)
      × (u.writer.write_tasks_queue ≡ [])
      × (u.in_flight ≡ none)
      × (calls u.trace ≡ handlers s.accepted)
      × (writes u.trace ≡ map buffers_of s.accepted)
Run-drains {s} r t busy =
    let (u, runs, drained) =
      drain s.writer.write_tasks_queue s refl (Run-Inv start-Inv r) t
        (Busy-queue s.in_flight s.writer.write_tasks_queue busy) in
    (u, runs, drained.0, drained.1, drained.2, drained.3)
