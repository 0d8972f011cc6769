-- ===== src/Writer/Invariant/Accepted.antt =====
-- `queueBatchWrite` (src/async_writer.cpp) on a batch that it accepts.
use lib_native_streaming.Common.{
  ℕ, ◌≡◌, refl, true, Option, none, some, List, [], ◌∷◌, ◌++◌, map, arith, map-append,
}
use lib_native_streaming.Writer.{BatchedWriteTasks, buffers_of}
use lib_native_streaming.Writer.Branches.{
  batch, accepts, timer_for, timer_effects, next_timer_after, first_write,
  queue_batch_write_accepted,
}
use lib_native_streaming.Writer.System.{
  Buffers, System, queue, step, calls, writes, timeouts, launch,
}
use lib_native_streaming.Writer.Trace.{timeouts-append}
use lib_native_streaming.Writer.Invariant.{
  Queue, Fits, unwritten, all_tasks, Inv, handled_push, written_by,
}

-- The system after a batch is accepted.
abbrev pub flight_after : Queue → BatchedWriteTasks → Option Buffers → Option Buffers
flight_after [] tasks f = some (buffers_of tasks)
flight_after (b ∷ q) tasks f = f

launch_first :
    (d : Option ℕ) (n : ℕ) (q : Queue) (tasks : BatchedWriteTasks) (f : Option Buffers)
    → Fits f q
    → launch (timer_effects d n ++ first_write q tasks) f ≡ some (flight_after q tasks f)
unfolding launch
launch_first none n [] tasks none h = refl
launch_first none n [] tasks (some bs) h = absurd h
launch_first none n (b ∷ q) tasks none h = refl
launch_first none n (b ∷ q) tasks (some bs) h = refl
launch_first (some d) n [] tasks none h = refl
launch_first (some d) n [] tasks (some bs) h = absurd h
launch_first (some d) n (b ∷ q) tasks none h = refl
launch_first (some d) n (b ∷ q) tasks (some bs) h = refl

unfoldable pub accepted_system : System → BatchedWriteTasks → Option ℕ → Queue → System
accepted_system s tasks d q = record {
  writer = record s.writer {
    write_tasks_queue = q ++ batch tasks (timer_for d s.writer.next_timer) ∷ [];
    next_timer = next_timer_after d s.writer.next_timer;
  };
  in_flight = flight_after q tasks s.in_flight;
  accepted = s.accepted ++ tasks ∷ [];
  trace = s.trace ++ (timer_effects d s.writer.next_timer ++ first_write q tasks);
}

pub step-accepted :
    (s : System) (tasks : BatchedWriteTasks) (d : Option ℕ) (now : ℕ) (q : Queue)
    → s.writer.write_tasks_queue ≡ q
    → accepts s.writer.timeout_reached d now ≡ true
    → Fits s.in_flight q
    → step s (queue tasks d now) ≡ some (accepted_system s tasks d q)
unfolding step accepted_system
step-accepted s tasks d now q e h f = rw (
  h,
  queue_batch_write_accepted tasks d now s.writer q e h,
  launch_first d s.writer.next_timer q tasks s.in_flight f,
)

pub calls_first :
    (d : Option ℕ) (n : ℕ) (q : Queue) (tasks : BatchedWriteTasks)
    → calls (timer_effects d n ++ first_write q tasks) ≡ []
calls_first none n [] tasks = refl
calls_first none n (b ∷ q) tasks = refl
calls_first (some d) n [] tasks = refl
calls_first (some d) n (b ∷ q) tasks = refl

timeouts_first :
    (d : Option ℕ) (n : ℕ) (q : Queue) (tasks : BatchedWriteTasks)
    → timeouts (timer_effects d n ++ first_write q tasks) ≡ 0
timeouts_first none n [] tasks = refl
timeouts_first none n (b ∷ q) tasks = refl
timeouts_first (some d) n [] tasks = refl
timeouts_first (some d) n (b ∷ q) tasks = refl

abbrev pub started : Queue → BatchedWriteTasks → List Buffers
started [] tasks = buffers_of tasks ∷ []
started (b ∷ q) tasks = []

pub writes_first :
    (d : Option ℕ) (n : ℕ) (q : Queue) (tasks : BatchedWriteTasks)
    → writes (timer_effects d n ++ first_write q tasks) ≡ started q tasks
writes_first none n [] tasks = refl
writes_first none n (b ∷ q) tasks = refl
writes_first (some d) n [] tasks = refl
writes_first (some d) n (b ∷ q) tasks = refl

Fits-first :
    (f : Option Buffers) (q : Queue) (tasks : BatchedWriteTasks) (t : Option ℕ)
    → Fits f q
    → Fits (flight_after q tasks f) (q ++ batch tasks t ∷ [])
Fits-first f [] tasks t h = refl
Fits-first none (b ∷ q) tasks t h = tt
Fits-first (some bs) (b ∷ q) tasks t h = h

-- The new batch is written at once, or stands last among those that are not.
unwritten_first :
    (f : Option Buffers) (q : Queue) (tasks : BatchedWriteTasks) (t : Option ℕ)
    → Fits f q
    → started q tasks
        ++ map buffers_of (all_tasks (unwritten (flight_after q tasks f) (q ++ batch tasks t ∷ [])))
      ≡ map buffers_of (all_tasks (unwritten f q)) ++ buffers_of tasks ∷ []
unwritten_first none [] tasks t h = refl
unwritten_first (some bs) [] tasks t h = absurd h
unwritten_first none (b ∷ q) tasks t h = simp map-append
unwritten_first (some bs) (b ∷ q) tasks t h = simp map-append

module _ (s : System) (tasks : BatchedWriteTasks) (d : Option ℕ) (inv : Inv s) where
  pub accepted_system-Inv : Inv (accepted_system s tasks d s.writer.write_tasks_queue)
  unfolding accepted_system
  accepted_system-Inv =
      let q = s.writer.write_tasks_queue in
      let n = s.writer.next_timer in
      let es = timer_effects d n ++ first_write q tasks in
      let b = batch tasks (timer_for d n) in
      record {
        fits = Fits-first s.in_flight q tasks (timer_for d n) inv.fits;
        handled = handled_push s.trace es q b s.accepted (calls_first d n q tasks) inv.handled;
        written = rw (map-append buffers_of s.accepted (tasks ∷ [])) (
            written_by s.trace es _ _ _ (buffers_of tasks ∷ [])
              (rw (writes_first d n q tasks)
                (unwritten_first s.in_flight q tasks (timer_for d n) inv.fits))
              inv.written);
        reported =
            omega (arith, timeouts-append s.trace es, timeouts_first d n q tasks, inv.reported);
      }
