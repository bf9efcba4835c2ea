-- ===== src/Stt/Base64/Tests.antt =====
-- Runs of the base64 functions.
use lclva.Prelude.{◌≡◌, refl, some, arith, length}
use lclva.Dialogue.SentenceSplitter.{bytes}
use lclva.Stt.Base64.{base64_encode, base64_decode, group}
use lclva.Stt.Base64.RoundTrip.{decode-encode}

hello_encoded : base64_encode (bytes "Hello") ≡ bytes "SGVsbG8="
unfolding base64_encode
hello_encoded = refl

-- What stands behind a padded group is dropped without a word.
behind_padding : base64_decode (bytes "QQ==QUJD") ≡ some (bytes "A")
unfolding base64_decode group
behind_padding = refl

decode-encode_example :
    (base64_decode (base64_encode (bytes "Hello")) ≡ some (bytes "Hello"))
    × (length (base64_encode (bytes "Hello")) ≡ 8)
decode-encode_example =
    decode-encode (bytes "Hello")
      (omega arith, (omega arith, (omega arith, (omega arith, (omega arith, tt)))))
