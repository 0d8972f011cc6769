-- ===== src/Reader.antt =====
-- include/native_streaming/async_reader.hpp and src/async_reader.cpp: the state of `AsyncReader` and
-- its methods. The handlers of read tasks are the user's code: `H` is their type, and `handle h xs`
-- is the task that the handler `h` returns for the bytes `xs`. A handler with state of its own
-- returns itself with the new state.
pub mod Framing
pub mod Sequence
pub mod System
pub mod Flight
pub mod Invariant
pub mod Callback
pub mod Stream
pub mod Overlap
mod Tests
use lib_native_streaming.Common.{
  ℕ, zero, suc, ◌-◌, Bool, true, false, Option, none, some, List, [], ◌∷◌, ◌++◌, length, take, drop,
  leb, if◌then◌else◌,
}
use lib_native_streaming.Common.Errors.{ErrorCode, success, is_error, LogLevel, err}
use lib_native_streaming.Common.Effects.{M, ◌>>=◌, ◌>>◌, get, modify, emit, skip, undefined}

-- `handler` is `none` for `nullptr`, which ends a sequence.
pub record ReadTask (H : Type 0) : Type 0 where
  pub handler : Option H
  pub bytes_to_read : ℕ

-- `ReadTask()`.
abbrev pub no_task : {H : Type 0} → ReadTask H
no_task = record { handler = none; bytes_to_read = 0 }

pub record AsyncReader (H : Type 0) : Type 0 where
  pub buffer : List ℕ
  pub pending_task : ReadTask H
  pub error_handler : Option ℕ
  pub connection_alive_callback : Option ℕ

pub data Effect (H : Type 0) : Type 0 where
  -- `async_read(*wsStream, buffer, transfer_at_least(n), …)`.
  async_read : ℕ → Effect H
  -- The call of a read handler with the bytes that it is given.
  call_read_handler : H → List ℕ → Effect H
  call_error_handler : ℕ → ErrorCode → Effect H
  -- `none` is the empty λ.
  call_connection_alive : Option ℕ → Effect H
  -- `post(strand.wrap(…))` of the lambda that calls `doRead` with the pending task's size.
  post_do_read : Effect H
  log : LogLevel → Effect H

unfoldable pub new_reader : {H : Type 0} → AsyncReader H
new_reader = record {
  buffer = [];
  pending_task = no_task;
  error_handler = none;
  connection_alive_callback = none;
}

abbrev pub Reader : Type 0 → Type 0 → Type 0
Reader H = M (AsyncReader H) (Effect H)

module _ {H : Type 0} where
  abbrev pub is_null : Option H → Bool
  is_null none = true
  is_null (some h) = false

  unfoldable pub schedule_read : ReadTask H → Reader H (Unit {0})
  schedule_read entry_task = do
    modify λ r. record r { pending_task = entry_task }
    emit post_do_read

  unfoldable pub set_error_handler : ℕ → Reader H (Unit {0})
  set_error_handler cb = modify λ r. record r { error_handler = some cb }

  unfoldable pub set_connection_alive_handler : ℕ → Reader H (Unit {0})
  set_connection_alive_handler cb = modify λ r. record r { connection_alive_callback = some cb }

  unfoldable pub consume : ℕ → Reader H (Unit {0})
  consume size = modify λ r. record r { buffer = drop size r.buffer }

  -- `bufferSize`.
  abbrev pub buffer_size : AsyncReader H → ℕ
  buffer_size r = length r.buffer

  -- `read`: its callback is called at once if the buffer holds enough, else when the stream completes.
  unfoldable pub read : ℕ → (ErrorCode → Reader H (Unit {0})) → Reader H (Unit {0})
  read bytes_to_read on_read_callback = do
    r ← get
    let bytes_ready = buffer_size r
    if leb bytes_to_read bytes_ready
        then on_read_callback success
        else emit (async_read (bytes_to_read - bytes_ready))

  abbrev pub report_error : ErrorCode → Option ℕ → Reader H (Unit {0})
  report_error ec none = emit (log err)
  report_error ec (some cb) = emit (call_error_handler cb ec)

module _ {H : Type 0} (handle : H → List ℕ → ReadTask H) where
  -- `pendingTask = readHandler(data(), readSize)`: a call of a null handler is undefined, and so is
  -- a read of more bytes than the buffer holds.
  unfoldable pub call_handler : Option H → ℕ → Reader H (Unit {0})
  call_handler none read_size = undefined
  call_handler (some h) read_size = do
    r ← get
    if leb read_size (buffer_size r)
        then (do
          emit (call_read_handler h (take read_size r.buffer))
          modify λ q. record q { pending_task = handle h (take read_size r.buffer) })
        else undefined

  -- `readDone`; `do_read` is passed in as `next_read`.
  unfoldable pub read_done : (ℕ → Reader H (Unit {0})) → ErrorCode → Reader H (Unit {0})
  unfolding call_handler consume
  read_done next_read ec = do
    r ← get
    if is_error ec then report_error ec r.error_handler else do
      emit (call_connection_alive r.connection_alive_callback)
      call_handler r.pending_task.handler r.pending_task.bytes_to_read
      consume r.pending_task.bytes_to_read
      q ← get
      if is_null q.pending_task.handler then skip else next_read q.pending_task.bytes_to_read

  -- `doRead` and `readDone` call one another while the buffer holds whole tasks; the fuel bounds the
  -- depth, and `none` is that it ran out.
  unfoldable pub do_read : ℕ → ℕ → Reader H (Unit {0})
  unfolding read read_done
  do_read zero bytes_to_read = undefined
  do_read (suc fuel) bytes_to_read = read bytes_to_read (read_done (do_read fuel))

  -- The lambda that `scheduleRead` posts.
  unfoldable pub run_posted : ℕ → Reader H (Unit {0})
  unfolding do_read
  run_posted fuel = do r ← get; do_read fuel r.pending_task.bytes_to_read

  -- The stream completes a read: it has put `bytes` into the buffer, and calls `readDone`.
  unfoldable pub on_read : ℕ → ErrorCode → List ℕ → Reader H (Unit {0})
  unfolding do_read
  on_read fuel ec bytes = do
    modify λ r. record r { buffer = r.buffer ++ bytes }
    read_done (do_read fuel) ec
