-- ===== src/Json.antt =====
-- stm32h563/src/bp_json.c: the flat JSON reader of the command lines and the string emitter. A
-- `const char *` is what is left of the text from there. An output buffer of `out_len` bytes is
-- its length and the bytes written, without the NUL.
pub mod Top
pub mod Emit
pub mod RoundTrip
pub mod Tree
pub mod Members
pub mod Fuel
pub mod Ends
mod Tests
use benchpod_firmware.Base.{
  ℕ, zero, suc, ◌+◌, ◌-◌, Bool, true, false, not, ◌&&◌, ◌||◌, Option, none, some, List, [], ◌∷◌,
  ◌++◌, ltb, leb, ◌==◌, if◌then◌else◌, Bytes, codes, starts_with, str_eq, head_or_nul, tail_or_nil,
  length, drop, take,
}
use benchpod_firmware.Base.Int.{ℤ, pos, negsuc}

abbrev is_ws : ℕ → Bool
is_ws c = c == b' ' || c == b'\t' || c == b'\n' || c == b'\r'

unfoldable pub skip_ws : Bytes → Bytes
skip_ws [] = []
skip_ws (c ∷ p) = if is_ws c then skip_ws p else c ∷ p

-- The needle: the key in quotes. 64 is the size of its buffer.
abbrev pub needle : Bytes → Bytes
needle key = b'"' ∷ (key ++ b'"' ∷ [])

-- The scan of `find_key`: each place where `strstr` finds the needle is tried in turn.
unfoldable pub find_from : Bytes → Bytes → Option Bytes
unfolding skip_ws starts_with
find_from n [] = none
find_from n (c ∷ p) =
    let rest = find_from n p in
    if starts_with (c ∷ p) n
    then (let q = skip_ws (drop (length n) (c ∷ p)) in
        if head_or_nul q == b':' then some (skip_ws (tail_or_nil q)) else rest)
    else rest

unfoldable pub find_key : Bytes → Bytes → Option Bytes
unfolding find_from
find_key json key = if leb 64 (length (needle key)) then none else find_from (needle key) json

-- `isxdigit` in the C locale.
abbrev is_hex : ℕ → Bool
is_hex c = (leb b'0' c && leb c b'9') || (leb b'a' c && leb c b'f') || (leb b'A' c && leb c b'F')

-- At most `k` hex digits are skipped.
skip_hex : ℕ → Bytes → Bytes
skip_hex zero p = p
skip_hex (suc k) [] = []
skip_hex (suc k) (c ∷ p) = if is_hex c then skip_hex k p else c ∷ p

-- The escape whose letter is `c`, with `p` behind it.
unescape : ℕ → Bytes → ℕ × Bytes
unescape c p =
    if c == b'n'
    then (10, p)
    else if c == b'r'
    then (13, p)
    else if c == b't'
    then (9, p)
    else if c == b'b'
    then (8, p)
    else if c == b'f'
    then (12, p)
    else if c == b'u'
    then (b'?', skip_hex 4 p)
    else (c, p)

-- One character of a string: `c`, or the escape behind a backslash.
decode : ℕ → Bytes → ℕ × Bytes
decode c [] = (c, [])
decode c (d ∷ p) = if c == b'\\' then unescape d p else (c, d ∷ p)

-- The loop over a string value, with room for `k` more bytes: what it writes, and where it stops.
unfoldable pub read_string : ℕ → Bytes → Bytes × Bytes
unfolding decode unescape skip_hex
read_string zero p = ([], p)
read_string (suc k) [] = ([], [])
read_string (suc k) (c ∷ p) =
    let (d, p') = decode c p in
    let rest = read_string k p' in if c == b'"' then ([], c ∷ p) else (d ∷ rest.0, rest.1)

abbrev ends_scalar : ℕ → Bool
ends_scalar c = c == 0 || c == b',' || c == b'}' || is_ws c

unfoldable pub read_scalar : ℕ → Bytes → Bytes × Bytes
read_scalar zero p = ([], p)
read_scalar (suc k) [] = ([], [])
read_scalar (suc k) (c ∷ p) =
    let rest = read_scalar k p in if ends_scalar c then ([], c ∷ p) else (c ∷ rest.0, rest.1)

-- What a reader returns: whether it found the key, what is in the buffer, whether it was cut.
pub record Got : Type 0 where
  pub found : Bool
  pub value : Bytes
  pub truncated : Bool

abbrev absent : Got
absent = record { found = false; value = []; truncated = false }

unfoldable pub read_value : ℕ → Bytes → Got
unfolding read_string read_scalar
read_value out_len p =
    if head_or_nul p == b'"'
    then (let (v, rest) = read_string (out_len - 1) (tail_or_nil p) in
        record {
          found = true;
          value = v;
          truncated = not (head_or_nul rest == 0) && not (head_or_nul rest == b'"');
        })
    else (let (v, rest) = read_scalar (out_len - 1) p in
        record {
          found = ltb 0 (length v);
          value = v;
          truncated = not (ends_scalar (head_or_nul rest));
        })

-- `json_get_at2` on what the key search found; `out_len` 0 is no buffer.
unfoldable pub get_at : ℕ → Option Bytes → Got
get_at out_len at =
    if out_len == 0 then absent else elim at [ none ↦ absent | some p ↦ read_value out_len p ]

unfoldable pub json_get : Bytes → Bytes → ℕ → Got
json_get json key out_len = get_at out_len (find_key json key)

-- `bp_json_get_fit`: 1, 0 or -1.
pub json_get_fit : Bytes → Bytes → ℕ → ℤ × Bytes
json_get_fit json key out_len =
    let g = json_get json key out_len in
    ((if not g.found then pos 0 else if g.truncated then negsuc 0 else pos 1), g.value)

pub json_flag : Bytes → Bytes → Bool
json_flag json key =
    let g = json_get json key 8 in
    let c = head_or_nul g.value in
    g.found && (c == b'1' || c == b't' || c == b'T' || c == b'y' || c == b'Y')
