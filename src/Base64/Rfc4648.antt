-- ===== src/Base64/Rfc4648.antt =====
-- A codec of base64 as RFC 4648 has it: it shows that the laws asked of Boost.Beast's codec can hold,
-- and the tests run on it. `decoded_size` counts whole groups.
use lib_native_streaming.Common.{
  ℕ, ◌+◌, ◌-◌, ◌*◌, ◌/◌, ◌%◌, ◌≡◌, ◌≤◌, ◌<◌, refl, ap, false, List, [], ◌∷◌, length, leb, ltb, ◌==◌,
  arith, if◌then◌else◌,
}
use lib_native_streaming.Common.Bytes.{All}
use lib_native_streaming.Base64.{Codec, CodecLaws}

digit : ℕ → ℕ
digit d =
    if ltb d 26
    then d + 65
    else if ltb d 52
    then d + 71
    else if ltb d 62
    then d - 4
    else if d == 62
    then 43
    else 47

value : ℕ → ℕ
value c =
    if leb 97 c
    then c - 71
    else if leb 65 c
    then c - 65
    else if leb 48 c
    then c + 4
    else if c == 43
    then 62
    else 63

value-digit : (d : ℕ) → d < 64 → value (digit d) ≡ d
unfolding value digit
value-digit d h = ground arith

digit_graphic : (d : ℕ) → d < 64 → (33 ≤ digit d) × (digit d ≤ 126)
unfolding digit
digit_graphic d h = ground arith

digit_ne_pad : (d : ℕ) → (digit d == b'=') ≡ false
unfolding digit
digit_ne_pad d = ground arith

encode : List ℕ → List ℕ
encode [] = []
encode (x ∷ []) = digit (x / 4 % 64) ∷ digit (x % 4 * 16) ∷ b'=' ∷ b'=' ∷ []
encode (x ∷ y ∷ []) =
    digit (x / 4 % 64) ∷ digit (x % 4 * 16 + y / 16 % 16) ∷ digit (y % 16 * 4) ∷ b'=' ∷ []
encode (x ∷ y ∷ z ∷ r) =
    digit (x / 4 % 64)
    ∷ digit (x % 4 * 16 + y / 16 % 16)
    ∷ digit (y % 16 * 4 + z / 64 % 4)
    ∷ digit (z % 64)
    ∷ encode r

byte1 : ℕ → ℕ → ℕ
byte1 a b = value a * 4 + value b / 16

byte2 : ℕ → ℕ → ℕ
byte2 b c = value b % 16 * 16 + value c / 4

byte3 : ℕ → ℕ → ℕ
byte3 c d = value c % 4 * 64 + value d

decode : List ℕ → List ℕ
decode [] = []
decode (a ∷ []) = []
decode (a ∷ b ∷ []) = if b == b'=' then [] else byte1 a b ∷ []
decode (a ∷ b ∷ c ∷ []) = if c == b'=' then byte1 a b ∷ [] else byte1 a b ∷ byte2 b c ∷ []
decode (a ∷ b ∷ c ∷ d ∷ r) =
    let rest = decode r in
    if c == b'='
    then byte1 a b ∷ []
    else if d == b'='
    then byte1 a b ∷ byte2 b c ∷ []
    else byte1 a b ∷ byte2 b c ∷ byte3 c d ∷ rest

unfoldable pub codec : Codec
unfolding encode decode digit value byte1 byte2 byte3
codec = record {
  encoded_size = λ n. 4 * ((n + 2) / 3);
  decoded_size = λ n. n / 4 * 3;
  encode = encode;
  decode = λ xs. (decode xs, length xs);
}

byte1_lem :
    (x y d : ℕ) → x < 256 → y < 16 → d ≡ x % 4 * 16 + y → byte1 (digit (x / 4 % 64)) (digit d) ≡ x
unfolding byte1
byte1_lem x y d h k e =
    omega (arith, value-digit (x / 4 % 64) (omega arith), value-digit d (omega arith))

byte2_lem :
    (b y z d : ℕ)
    → b < 4
    → y < 256
    → z < 4
    → d ≡ y % 16 * 4 + z
    → byte2 (digit (b * 16 + y / 16 % 16)) (digit d) ≡ y
unfolding byte2
byte2_lem b y z d h k l e =
    omega (arith, value-digit (b * 16 + y / 16 % 16) (omega arith), value-digit d (omega arith))

byte3_lem : (c z : ℕ) → c < 16 → z < 256 → byte3 (digit (c * 4 + z / 64 % 4)) (digit (z % 64)) ≡ z
unfolding byte3
byte3_lem c z h k =
    omega
      (arith, value-digit (c * 4 + z / 64 % 4) (omega arith), value-digit (z % 64) (omega arith))

decode-encode_lem : (xs : List ℕ) → All (λ x. x < 256) xs → decode (encode xs) ≡ xs
unfolding encode decode
decode-encode_lem [] h = refl
decode-encode_lem (x ∷ []) (hx, _) =
    ap (λ (b : ℕ). b ∷ []) (byte1_lem x 0 (x % 4 * 16) hx (omega arith) (omega arith))
decode-encode_lem (x ∷ y ∷ []) (hx, (hy, _)) = ground (
  arith,
  digit_ne_pad (y % 16 * 4),
  byte1_lem x (y / 16 % 16) (x % 4 * 16 + y / 16 % 16) hx (omega arith) refl,
  byte2_lem (x % 4) y 0 (y % 16 * 4) (omega arith) hy (omega arith) (omega arith),
)
decode-encode_lem (x ∷ y ∷ z ∷ r) (hx, (hy, (hz, hr))) = ground (
  arith,
  digit_ne_pad (y % 16 * 4 + z / 64 % 4),
  digit_ne_pad (z % 64),
  byte1_lem x (y / 16 % 16) (x % 4 * 16 + y / 16 % 16) hx (omega arith) refl,
  byte2_lem (x % 4) y (z / 64 % 4) (y % 16 * 4 + z / 64 % 4) (omega arith) hy (omega arith) refl,
  byte3_lem (y % 16) z (omega arith) hz,
  decode-encode_lem r hr,
)

encode_fits : (xs : List ℕ) → length (encode xs) ≤ 4 * ((length xs + 2) / 3)
unfolding encode
encode_fits [] = omega arith
encode_fits (x ∷ []) = omega arith
encode_fits (x ∷ y ∷ []) = omega arith
encode_fits (x ∷ y ∷ z ∷ r) = omega (arith, encode_fits r)

encode_groups : (xs : List ℕ) → length (encode xs) % 4 ≡ 0
unfolding encode
encode_groups [] = refl
encode_groups (x ∷ []) = refl
encode_groups (x ∷ y ∷ []) = refl
encode_groups (x ∷ y ∷ z ∷ r) = omega (arith, encode_groups r)

decode_fits : (xs : List ℕ) → length xs % 4 ≡ 0 → length (decode xs) ≤ length xs / 4 * 3
unfolding decode
decode_fits [] h = omega arith
decode_fits (a ∷ []) h = omega arith
decode_fits (a ∷ b ∷ []) h = omega arith
decode_fits (a ∷ b ∷ c ∷ []) h = omega arith
decode_fits (a ∷ b ∷ c ∷ d ∷ r) h = ground (arith, decode_fits r)

encode_graphic : (xs : List ℕ) → All (λ x. (33 ≤ x) × (x ≤ 126)) (encode xs)
unfolding encode
encode_graphic [] = tt
encode_graphic (x ∷ []) = (
  digit_graphic (x / 4 % 64) (omega arith),
  (digit_graphic (x % 4 * 16) (omega arith), (omega arith, (omega arith, tt))),
)
encode_graphic (x ∷ y ∷ []) = (
  digit_graphic (x / 4 % 64) (omega arith),
  (
    digit_graphic (x % 4 * 16 + y / 16 % 16) (omega arith),
    (digit_graphic (y % 16 * 4) (omega arith), (omega arith, tt)),
  ),
)
encode_graphic (x ∷ y ∷ z ∷ r) = (
  digit_graphic (x / 4 % 64) (omega arith),
  (
    digit_graphic (x % 4 * 16 + y / 16 % 16) (omega arith),
    (
      digit_graphic (y % 16 * 4 + z / 64 % 4) (omega arith),
      (digit_graphic (z % 64) (omega arith), encode_graphic r),
    ),
  ),
)

pub codec-CodecLaws : CodecLaws codec
unfolding codec
codec-CodecLaws = record {
  encode_fits = encode_fits;
  decode_fits = decode_fits;
  encode_graphic = encode_graphic;
  encode_groups = encode_groups;
  decode-encode = decode-encode_lem;
}
