-- ===== src/B64url/Tests.antt =====
-- Four bytes as text and back.
use benchpod_firmware.Base.{◌<◌, ◌≡◌, refl, some, [], ◌∷◌, arith, length, Bytes, codes}
use benchpod_firmware.B64url.{enc, enc_groups, encode64, decode64}
use benchpod_firmware.B64url.RoundTrip.{decode64-encode64}

abbrev four_bytes : Bytes
four_bytes = 0xFB ∷ 0xEF ∷ 0xFF ∷ 0x01 ∷ []

four_bytes-text : encode64 8 four_bytes ≡ some (codes "--__AQ")
unfolding encode64 enc_groups enc
four_bytes-text = refl

decode64-encode64_example :
    (length (codes "--__AQ") < 8) × (decode64 4 (codes "--__AQ") ≡ some four_bytes)
decode64-encode64_example =
    decode64-encode64 four_bytes (codes "--__AQ") 8 4
      (omega arith, (omega arith, (omega arith, (omega arith, tt)))) four_bytes-text (omega arith)
