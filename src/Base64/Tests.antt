-- ===== src/Base64/Tests.antt =====
-- The codec of Base64/Rfc4648.antt on the buffers of src/utils/base64.cpp.
use lib_native_streaming.Common.{◌≡◌, refl, arith}
use lib_native_streaming.Common.Bytes.{codes}
use lib_native_streaming.Common.Results.{returned, ◌>>=◌}
use lib_native_streaming.Base64.{encode, decode}
use lib_native_streaming.Base64.Laws.{decode-encode}
use lib_native_streaming.Base64.Rfc4648.{codec, codec-CodecLaws}

encode_digits : encode codec (codes "user:pass") ≡ returned (codes "dXNlcjpwYXNz")
unfolding encode codec
encode_digits = refl

encode_padded : encode codec (codes "a") ≡ returned (codes "YQ==")
unfolding encode codec
encode_padded = refl

decode-encode_example : (encode codec (codes "ab") >>= decode codec) ≡ returned (codes "ab")
decode-encode_example =
    decode-encode codec codec-CodecLaws (codes "ab") (omega arith, (omega arith, tt))
