-- ===== src/Link.antt =====
-- The writer of one session and the reader of the other (src/async_writer.cpp, src/async_reader.cpp),
-- joined by their web-socket stream. The stream is Boost.Beast's: it carries the bytes of the writes in
-- order, and once a write has failed it carries nothing of later ones. How many bytes it lets through
-- at a time, and when, is open.
pub mod Halves
pub mod Moves
pub mod EndToEnd
mod Tests
use lib_native_streaming.Common.{
  ◌≡◌, ℕ, Bool, true, false, not, ◌&&◌, Option, some, List, [], ◌∷◌, ◌++◌, flatten, if◌then◌else◌,
}
use lib_native_streaming.Common.Errors.{is_error}
use lib_native_streaming.Reader.{ReadTask}
use lib_native_streaming.Reader.Framing.{bytes_of}
use lib_native_streaming.Reader.Sequence.{pieces}
use lib_native_streaming.Reader.System as Receiving
use lib_native_streaming.Reader.System.{begin, arrived, failed}
use lib_native_streaming.Writer.System as Sending
use lib_native_streaming.Writer.System.{Buffers, complete, writes}

-- `wire` is the bytes under way, `lost` those written after a failure, and `past` those that the
-- handlers of earlier read sequences were given.
pub record Link (H : Type 0) : Type 0 where
  pub sender : Sending.System
  pub receiver : Receiving.System H
  pub past : List ℕ
  pub wire : List ℕ
  pub lost : List ℕ
  pub intact : Bool

abbrev pub all_bytes : List Buffers → List ℕ
all_bytes l = flatten (flatten l)

-- What the stream was given.
abbrev pub sent : Sending.System → List ℕ
sent s = all_bytes (writes s.trace)

abbrev pub breaks : Sending.Event → Bool
breaks (complete ec) = is_error ec
breaks _ = false

abbrev pub carry : {H : Type 0} → Link H → Sending.System → List ℕ → Bool → Link H
carry s u new b = record s {
  sender = u;
  wire = s.wire ++ (if b then new else []);
  lost = s.lost ++ (if b then [] else new);
  intact = b;
}

abbrev pub arriving : {H : Type 0} → Receiving.Event H → List ℕ
arriving (arrived xs) = xs
arriving (failed ec xs) = xs
arriving _ = []

abbrev pub past_after : {H : Type 0} → Receiving.Event H → Link H → List ℕ
past_after (begin task) s = s.past ++ bytes_of (pieces s.receiver.trace)
past_after _ s = s.past

abbrev pub start : {H : Type 0} → Link H
start = record {
  sender = Sending.start;
  receiver = Receiving.start;
  past = [];
  wire = [];
  lost = [];
  intact = true;
}

module _ {H : Type 0} (handle : H → List ℕ → ReadTask H) where
  pub data Step (s : Link H) : Link H → Type 0 where
    write :
        (e : Sending.Event) (u : Sending.System) (new : List ℕ)
        → Sending.Enabled s.sender e
        → Sending.step s.sender e ≡ some u
        → sent u ≡ sent s.sender ++ new
        → Step s (carry s u new (s.intact && not (breaks e)))
    read :
        (e : Receiving.Event H) (u : Receiving.System H) (rest : List ℕ)
        → Receiving.Enabled handle s.receiver e
        → Receiving.step handle s.receiver e ≡ some u
        → s.wire ≡ arriving e ++ rest
        → Step s (record s { receiver = u; past = past_after e s; wire = rest })

  pub data Run : Link H → Type 0 where
    here : Run start
    next : {s u : Link H} → Run s → Step s u → Run u
