-- ===== src/Base64.antt =====
-- src/utils/base64.cpp: `Base64::encode` and `Base64::decode`, which call Boost.Beast's codec on a
-- buffer that they size themselves. The codec is not part of the repository, so it is a parameter,
-- `Codec`, with the behaviour that its documentation gives in `CodecLaws`.
pub mod Laws
pub mod Rfc4648
mod Tests
use lib_native_streaming.Common.{
  ℕ, ◌%◌, ◌≡◌, ◌≤◌, ◌<◌, List, [], ◌∷◌, ◌++◌, length, drop, leb, if◌then◌else◌,
}
use lib_native_streaming.Common.Bytes.{resize, All}
use lib_native_streaming.Common.Results.{Result, returned, undefined, ◌>>=◌}

-- `boost::beast::detail::base64`. `encode` and `decode` give the bytes that the call writes to its
-- destination; the second part of `decode` is the count of bytes that it read.
pub record Codec : Type 0 where
  pub encoded_size : ℕ → ℕ
  pub decoded_size : ℕ → ℕ
  pub encode : List ℕ → List ℕ
  pub decode : List ℕ → List ℕ × ℕ

-- What Boost documents: the sizes are upper bounds, `decoded_size` for texts of whole groups of
-- four; the alphabet is printable and has no space, the output is padded to whole groups, and
-- decoding undoes encoding on bytes.
pub record CodecLaws (c : Codec) : Type 0 where
  pub encode_fits : (xs : List ℕ) → length (c.encode xs) ≤ c.encoded_size (length xs)
  pub decode_fits :
      (xs : List ℕ) → length xs % 4 ≡ 0 → length (c.decode xs).0 ≤ c.decoded_size (length xs)
  pub encode_graphic : (xs : List ℕ) → All (λ x. (33 ≤ x) × (x ≤ 126)) (c.encode xs)
  pub encode_groups : (xs : List ℕ) → length (c.encode xs) % 4 ≡ 0
  pub decode-encode : (xs : List ℕ) → All (λ x. x < 256) xs → (c.decode (c.encode xs)).0 ≡ xs

-- A write of `out` to the front of a buffer, which must hold it.
unfoldable pub write_into : List ℕ → List ℕ → Result (List ℕ)
write_into buffer out =
    if leb (length out) (length buffer)
    then returned (out ++ drop (length out) buffer)
    else undefined

module _ (c : Codec) where
  unfoldable pub encode : List ℕ → Result (List ℕ)
  unfolding write_into
  encode input = do
    let max_size = c.encoded_size (length input)
    let size = length (c.encode input)
    buffer ← write_into (resize max_size []) (c.encode input)
    returned (resize size buffer)

  unfoldable pub decode : List ℕ → Result (List ℕ)
  unfolding write_into
  decode input = do
    let max_size = c.decoded_size (length input)
    let size = length (c.decode input).0
    buffer ← write_into (resize max_size []) (c.decode input).0
    returned (resize size buffer)
