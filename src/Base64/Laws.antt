-- ===== src/Base64/Laws.antt =====
-- The buffers of src/utils/base64.cpp hold what the codec writes, and the result is exactly that.
use lib_native_streaming.Common.{ℕ, ◌≡◌, ◌<◌, ◌≤◌, List, [], length, drop, le→leb, lt→leb, ◌%◌}
use lib_native_streaming.Common.Bytes.{resize, resize-append, length-resize, All}
use lib_native_streaming.Common.Results.{returned, undefined, ◌>>=◌}
use lib_native_streaming.Base64.{Codec, CodecLaws, write_into, encode, decode}

write_into_fits :
    (n : ℕ) (out : List ℕ)
    → length out ≤ n
    → (write_into (resize n []) out >>= λ b. returned (resize (length out) b)) ≡ returned out
unfolding write_into
write_into_fits n out h = rw (
  length-resize n [],
  le→leb (length out) n h,
  resize-append out (drop (length out) (resize n [])),
)

module _ (c : Codec) (laws : CodecLaws c) where
  -- No write passes the end of the buffer, and the text returned is the codec's whole output.
  pub encode_lem : (xs : List ℕ) → encode c xs ≡ returned (c.encode xs)
  unfolding encode
  encode_lem xs = write_into_fits (c.encoded_size (length xs)) (c.encode xs) (laws.encode_fits xs)

  pub decode_lem : (xs : List ℕ) → length xs % 4 ≡ 0 → decode c xs ≡ returned (c.decode xs).0
  unfolding decode
  decode_lem xs h =
      write_into_fits (c.decoded_size (length xs)) (c.decode xs).0 (laws.decode_fits xs h)

  -- With a codec that keeps its documentation, decoding what was encoded from bytes gives them back:
  -- no write leaves a buffer, and the two calls of `resize` neither cut nor pad.
  pub decode-encode :
      (xs : List ℕ) → All (λ x. x < 256) xs → (encode c xs >>= decode c) ≡ returned xs
  decode-encode xs h =
      rw (encode_lem xs, decode_lem (c.encode xs) (laws.encode_groups xs), laws.decode-encode xs h)

-- `decode` trusts `decoded_size`: where the codec writes more than that, the write leaves the buffer.
pub decode_overflow :
    (c : Codec) (xs : List ℕ)
    → c.decoded_size (length xs) < length (c.decode xs).0
    → decode c xs ≡ undefined
unfolding decode write_into
decode_overflow c xs h = rw (
  length-resize (c.decoded_size (length xs)) [],
  lt→leb (length (c.decode xs).0) (c.decoded_size (length xs)) h,
)
