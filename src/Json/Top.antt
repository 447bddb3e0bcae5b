-- ===== src/Json/Top.antt =====
-- bp_json.c: the readers that match only a key of the outermost object (`find_key_top`), for the
-- envelope fields of a cloud frame.
use benchpod_firmware.Base.{
  ℕ, zero, suc, ◌+◌, ◌-◌, Bool, true, false, not, ◌||◌, Option, none, some, [], ◌∷◌, ◌==◌,
  if◌then◌else◌, Bytes, str_eq, head_or_nul, tail_or_nil, length,
}
use benchpod_firmware.Json.{Got, skip_ws, get_at}

-- Past the closing quote of a string, `p` being behind the opening one.
unfoldable pub skip_string : Bytes → Option Bytes
skip_string [] = none
skip_string (c ∷ []) = if c == b'"' then some [] else none
skip_string (c ∷ d ∷ p) =
    let escaped = skip_string p in
    let next = skip_string (d ∷ p) in
    if c == b'"' then some (d ∷ p) else if c == b'\\' then escaped else next

abbrev pub opens : ℕ → Bool
opens c = c == b'{' || c == b'['

abbrev pub closes : ℕ → Bool
closes c = c == b'}' || c == b']'

-- The scan of an object or array: the depth, in a string, behind a backslash.
unfoldable pub skip_nested : ℕ → Bool → Bool → Bytes → Option Bytes
skip_nested depth in_str esc [] = none
skip_nested depth in_str esc (c ∷ p) =
    let plain = skip_nested depth in_str false p in
    let escape = skip_nested depth in_str true p in
    let leave = skip_nested depth false false p in
    let enter = skip_nested depth true false p in
    let deeper = skip_nested (depth + 1) false false p in
    let up = skip_nested (depth - 1) false false p in
    if esc
    then plain
    else if in_str
    then (if c == b'\\' then escape else if c == b'"' then leave else plain)
    else if c == b'"'
    then enter
    else if opens c
    then deeper
    else if closes c
    then (if depth == 1 then some p else up)
    else plain

unfoldable pub skip_scalar : Bytes → Bytes
skip_scalar [] = []
skip_scalar (c ∷ p) = if c == b',' || closes c then c ∷ p else skip_scalar p

unfoldable pub skip_value : Bytes → Option Bytes
unfolding skip_string skip_nested skip_scalar
skip_value p =
    if head_or_nul p == b'"'
    then skip_string (tail_or_nil p)
    else if opens (head_or_nul p)
    then skip_nested 0 false false p
    else some (skip_scalar p)

-- A key between quotes, `p` being behind the opening one: its text and what is left from the
-- closing quote on.
unfoldable pub read_key : Bytes → Bytes × Bytes
read_key [] = ([], [])
read_key (c ∷ []) = if c == b'"' then ([], c ∷ []) else (c ∷ [], [])
read_key (c ∷ d ∷ p) =
    let after = read_key p in
    let next = read_key (d ∷ p) in
    if c == b'"'
    then ([], c ∷ d ∷ p)
    else if c == b'\\'
    then (c ∷ d ∷ after.0, after.1)
    else (c ∷ next.0, next.1)

-- The value behind a key, `p` being at its closing quote.
unfoldable pub value_of : Bytes → Option Bytes
value_of p =
    let q = skip_ws (tail_or_nil p) in
    if not (head_or_nul p == b'"')
    then none
    else if head_or_nul q == b':'
    then some (skip_ws (tail_or_nil q))
    else none

-- What follows the value `v`, looked through by `next`.
unfoldable pub behind : (Bytes → Option Bytes) → Option Bytes → Option Bytes
behind next none = none
behind next (some v) = elim (skip_value v) [ none ↦ none | some r ↦ next r ]

-- The members of the object, on fuel: each round moves forward in the text.
unfoldable pub find_member : ℕ → Bytes → Bytes → Option Bytes
unfolding skip_value read_key value_of behind
find_member zero p key = none
find_member (suc f) p key =
    let q = skip_ws p in
    let (name, at_quote) = read_key (tail_or_nil q) in
    let past_comma = find_member f (tail_or_nil q) key in
    let later = behind (λ (r : Bytes). find_member f r key) (value_of at_quote) in
    if head_or_nul q == b','
    then past_comma
    else if not (head_or_nul q == b'"')
    then none
    else if str_eq name key
    then value_of at_quote
    else later

unfoldable pub find_key_top : Bytes → Bytes → Option Bytes
find_key_top json key =
    let p = skip_ws json in
    if head_or_nul p == b'{' then find_member (length json) (tail_or_nil p) key else none

unfoldable pub json_get_top : Bytes → Bytes → ℕ → Got
json_get_top json key out_len = get_at out_len (find_key_top json key)
