-- ===== src/Json/Emit.antt =====
-- bp_json.c: the emitter `bp_emit_t` and its string form. `len` is the length of what is written;
-- the buffer ends in a NUL that is not part of it.
use benchpod_firmware.Base.{
  length-append, arith, ℕ, ◌+◌, ◌-◌, ◌/◌, ◌%◌, ◌≤◌, Bool, false, not, [], ◌∷◌, ◌++◌, ltb, ◌==◌,
  if◌then◌else◌, Bytes, length,
}

pub record Emit : Type 0 where
  pub buf : Bytes
  pub cap : ℕ
  pub fits : Bool

pub emit_init : ℕ → Emit
emit_init cap = record { buf = []; cap = cap; fits = ltb 0 cap }

unfoldable pub emit_bytes : Emit → Bytes → Emit
emit_bytes e s =
    if not e.fits
    then e
    else if ltb (e.cap - length e.buf) (length s + 1)
    then record e { fits = false }
    else record e { buf = e.buf ++ s }

abbrev hex_digit : ℕ → ℕ
hex_digit d = if ltb d 10 then b'0' + d else b'a' + (d - 10)

-- What `bp_emit_jstr` writes for one character.
unfoldable pub escape_byte : ℕ → Bytes
escape_byte c =
    if c == b'"'
    then b'\\' ∷ b'"' ∷ []
    else if c == b'\\'
    then b'\\' ∷ b'\\' ∷ []
    else if c == 10
    then b'\\' ∷ b'n' ∷ []
    else if c == 13
    then b'\\' ∷ b'r' ∷ []
    else if c == 9
    then b'\\' ∷ b't' ∷ []
    else if ltb c 0x20
    then b'\\' ∷ b'u' ∷ b'0' ∷ b'0' ∷ hex_digit (c / 16) ∷ hex_digit (c % 16) ∷ []
    else c ∷ []

-- The loop stops where the emitter has failed.
unfoldable pub emit_chars : Emit → Bytes → Emit
emit_chars e [] = e
emit_chars e (c ∷ s) =
    let rest = emit_chars (emit_bytes e (escape_byte c)) s in if e.fits then rest else e

unfoldable pub emit_jstr : Emit → Bytes → Emit
emit_jstr e s = emit_bytes (emit_chars (emit_bytes e (b'"' ∷ [])) s) (b'"' ∷ [])

-- The text that stands for a string.
unfoldable pub escaped : Bytes → Bytes
escaped [] = []
escaped (c ∷ s) = escape_byte c ++ escaped s

abbrev pub quoted : Bytes → Bytes
quoted s = b'"' ∷ (escaped s ++ b'"' ∷ [])

-- The text and its NUL fit the buffer.
abbrev pub InBounds : Emit → Type 0
InBounds e = length e.buf + 1 ≤ e.cap

emit_bytes-InBounds : (e : Emit) (s : Bytes) → InBounds e → InBounds (emit_bytes e s)
unfolding emit_bytes
emit_bytes-InBounds e s h = ground (arith, length-append e.buf s)

emit_chars-InBounds : (s : Bytes) (e : Emit) → InBounds e → InBounds (emit_chars e s)
unfolding emit_chars
emit_chars-InBounds [] e h = h
emit_chars-InBounds (c ∷ s) e h = ground (
  arith,
  emit_chars-InBounds s (emit_bytes e (escape_byte c)) (emit_bytes-InBounds e (escape_byte c) h),
)

-- `bp_emit_jstr` never writes past the buffer, whatever the string.
pub emit_jstr-InBounds : (e : Emit) (s : Bytes) → InBounds e → InBounds (emit_jstr e s)
unfolding emit_jstr
emit_jstr-InBounds e s h =
    let first = emit_bytes e (b'"' ∷ []) in
    emit_bytes-InBounds (emit_chars first s) (b'"' ∷ [])
      (emit_chars-InBounds s first (emit_bytes-InBounds e (b'"' ∷ []) h))
