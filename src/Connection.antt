-- ===== src/Connection.antt =====
-- Two whole sessions (src/session.cpp), one at each end of a web-socket stream: the writer of each sends
-- to the reader of the other. The stream is Boost.Beast's: each way it carries the bytes of the writes
-- in order, and once a write has failed it carries nothing of later ones.
pub mod Links
pub mod EndToEnd
mod Tests
use lib_native_streaming.Common.{
  ◌≡◌, ℕ, Bool, true, not, ◌&&◌, Option, some, List, [], ◌++◌, if◌then◌else◌,
}
use lib_native_streaming.Common.Connections.{SessionArguments}
use lib_native_streaming.Reader.{ReadTask}
use lib_native_streaming.Reader.System as Receiving
use lib_native_streaming.Writer.System as Sending
use lib_native_streaming.Link.{sent}
use lib_native_streaming.Link.Moves.{broken_by, taken_by, past_behind}
use lib_native_streaming.Session.Assembly.{Assembly, sender_of, receiver_of}
use lib_native_streaming.Session.Events.{Event, Enabled, step}
use lib_native_streaming.Session.Events
use lib_native_streaming.Session.Sender.{for_writer}
use lib_native_streaming.Session.Receiver.{for_reader}

-- One way of the stream: `wire` is the bytes under way, `lost` those written after a failure, and `past`
-- those that the handlers of earlier read sequences were given.
pub record Channel : Type 0 where
  pub past : List ℕ
  pub wire : List ℕ
  pub lost : List ℕ
  pub intact : Bool

abbrev pub quiet : Channel
quiet = record { past = []; wire = []; lost = []; intact = true }

-- `out` leads from the near session to the far one.
pub record Connection (H K : Type 0) : Type 0 where
  pub near : Assembly H
  pub far : Assembly K
  pub out : Channel
  pub back : Channel

-- The channel after an event of the session that sends, which gives the stream `new` bytes.
abbrev pub sends : Channel → Option Sending.Event → List ℕ → Channel
sends c m new =
    let b = c.intact && not (broken_by m) in
    record c {
      wire = c.wire ++ (if b then new else []);
      lost = c.lost ++ (if b then [] else new);
      intact = b;
    }

-- The channel after an event of the session that receives, which leaves `rest` of the wire.
abbrev pub takes :
    {H : Type 0} → Channel → Option (Receiving.Event H) → Receiving.System H → List ℕ → Channel
takes c m receiver rest = record c { past = past_behind m c.past receiver; wire = rest }

module _ {H K : Type 0} (near_handle : H → List ℕ → ReadTask H)
    (far_handle : K → List ℕ → ReadTask K) where
  pub data Step (s : Connection H K) : Connection H K → Type 0 where
    at_near :
        (e : Event H) (u : Assembly H) (new rest : List ℕ)
        → Enabled near_handle s.near e
        → step near_handle s.near e ≡ some u
        → sent (sender_of u) ≡ sent (sender_of s.near) ++ new
        → s.back.wire ≡ taken_by (for_reader e) ++ rest
        → Step s (record s {
          near = u;
          out = sends s.out (for_writer e) new;
          back = takes s.back (for_reader e) (receiver_of s.near) rest;
        })
    at_far :
        (e : Event K) (u : Assembly K) (new rest : List ℕ)
        → Enabled far_handle s.far e
        → step far_handle s.far e ≡ some u
        → sent (sender_of u) ≡ sent (sender_of s.far) ++ new
        → s.out.wire ≡ taken_by (for_reader e) ++ rest
        → Step s (record s {
          far = u;
          back = sends s.back (for_writer e) new;
          out = takes s.out (for_reader e) (receiver_of s.far) rest;
        })

  pub data Run (a b : SessionArguments) : Connection H K → Type 0 where
    here :
        Run a b (record { near = Events.start a; far = Events.start b; out = quiet; back = quiet })
    next : {s u : Connection H K} → Run a b s → Step s u → Run a b u
