-- ===== src/B64url.antt =====
-- stm32h563/src/b64url.c: base64url. A shift and a mask of the 24 bits of a group are a division and
-- a remainder; bytes are put together by `+` where the code's `|` joins bits that do not meet.
mod Tests
pub mod RoundTrip
use benchpod_firmware.Base.{
  ℕ, zero, suc, ◌+◌, ◌-◌, ◌*◌, ◌/◌, ◌%◌, ◌^◌, ◌≤◌, ◌<◌, min, max, bit_and, bit_or, bit_xor, ◌≡◌,
  refl, sym, ap, ◌∙◌, ◌≢◌, ◌↔◌, ◌⊎◌, inl, inr, Bool, true, false, not, ◌&&◌, ◌||◌, Option, none,
  some, List, [], ◌∷◌, ◌++◌, arith, ltb, leb, ◌==◌, if◌then◌else◌, Bool-cases, Option-cases, length,
  take, drop, set, get_or, replicate, All, length-append, length-set, length-take, length-drop,
  length-replicate, add32, sub32, mul32, add16, sub16, Bytes, codes, str_eq, str_eq_iff,
}

-- `ENC`.
abbrev pub symbols : Bytes
symbols = codes "ABCDEFGHIJKLMNOPQRSTUVWXYZabcdefghijklmnopqrstuvwxyz0123456789-_"

pub enc : ℕ → ℕ
enc i = get_or symbols i 0

-- The place of a symbol, from `i` on.
pub place : ℕ → Bytes → ℕ → ℕ
place i [] c = 0xFF
place i (s ∷ ss) c = let rest = place (i + 1) ss c in if s == c then i else rest

-- `DEC[c]`.
pub dec : ℕ → ℕ
unfolding place
dec c = place 0 symbols c

-- B64URL_ENCODED_LEN.
abbrev pub encoded_len : ℕ → ℕ
encoded_len n = (n * 4 + 2) / 3

-- The groups of `b64url_encode`.
pub enc_groups : Bytes → Bytes
unfolding enc
enc_groups [] = []
enc_groups (a ∷ []) = let v = 2 ^ 16 * a in enc (v / 2 ^ 18 % 64) ∷ enc (v / 2 ^ 12 % 64) ∷ []
enc_groups (a ∷ b ∷ []) =
    let v = 2 ^ 16 * a + 256 * b in
    enc (v / 2 ^ 18 % 64) ∷ enc (v / 2 ^ 12 % 64) ∷ enc (v / 64 % 64) ∷ []
enc_groups (a ∷ b ∷ c ∷ rest) =
    let v = 2 ^ 16 * a + 256 * b + c in
    enc (v / 2 ^ 18 % 64)
    ∷ enc (v / 2 ^ 12 % 64)
    ∷ enc (v / 64 % 64)
    ∷ enc (v % 64)
    ∷ enc_groups rest

-- `b64url_encode` into a buffer of `cap` bytes; `none` is 0 of a buffer that is too small.
pub encode64 : ℕ → Bytes → Option Bytes
unfolding enc_groups
encode64 room bytes =
    if ltb room (encoded_len (length bytes) + 1) then none else some (enc_groups bytes)

-- The text without the `=` behind it.
pub strip_pad : Bytes → Bytes
strip_pad [] = []
strip_pad (c ∷ cs) = let rest = strip_pad cs in if length rest == 0 && c == 61 then [] else c ∷ rest

abbrev first_byte : ℕ → ℕ → ℕ
first_byte a b = (a * 4 + b / 16) % 256

abbrev second_byte : ℕ → ℕ → ℕ
second_byte b c = (b * 16 + c / 4) % 256

abbrev third_byte : ℕ → ℕ → ℕ
third_byte c d = (c * 64 + d) % 256

-- The groups of `b64url_decode`.
pub dec_groups : Bytes → Option Bytes
unfolding dec
dec_groups (w ∷ x ∷ y ∷ z ∷ rest) =
    let more = dec_groups rest in
    if bit_or (bit_or (bit_or (dec w) (dec x)) (dec y)) (dec z) == 0xFF then none else elim more [
      | some bytes ↦ some (
          first_byte (dec w) (dec x)
          ∷ second_byte (dec x) (dec y)
          ∷ third_byte (dec y) (dec z)
          ∷ bytes)
      | none ↦ none
    ]
dec_groups (w ∷ x ∷ y ∷ []) =
    if bit_or (bit_or (dec w) (dec x)) (dec y) == 0xFF
    then none
    else some (first_byte (dec w) (dec x) ∷ second_byte (dec x) (dec y) ∷ [])
dec_groups (w ∷ x ∷ []) =
    if bit_or (dec w) (dec x) == 0xFF then none else some (first_byte (dec w) (dec x) ∷ [])
dec_groups _ = some []

-- `b64url_decode` into a buffer of `cap` bytes.
pub decode64 : ℕ → Bytes → Option Bytes
unfolding dec_groups strip_pad
decode64 room text =
    let s = strip_pad text in
    let n = length s in
    let decoded = n / 4 * 3 + (if n % 4 == 0 then 0 else n % 4 - 1) in
    if n % 4 == 1 || ltb room decoded then none else dec_groups s
