-- ===== src/Bridge/Wire.antt =====
-- wifi-bridge/components/bridge_core/bwp.c: the frames of the control protocol. A frame is a list of
-- bytes, a pointer into it what is left from there. The writer's buffer is what is written so far;
-- reading beyond a list gives nothing. HMAC-SHA256 (hmac_sha256.c) is the parameter `hmac`.
mod Tests
pub mod Tlv
pub mod Frame
mod Scan
pub mod Auth
use benchpod_firmware.Base.{
  ℕ, zero, suc, ◌+◌, ◌-◌, ◌*◌, ◌/◌, ◌%◌, ◌^◌, ◌≤◌, ◌<◌, min, max, bit_and, bit_or, bit_xor, ◌≡◌,
  refl, sym, ap, ◌∙◌, ◌≢◌, ◌↔◌, ◌⊎◌, inl, inr, Bool, true, false, not, ◌&&◌, ◌||◌, Option, none,
  some, List, [], ◌∷◌, ◌++◌, arith, ltb, leb, ◌==◌, if◌then◌else◌, Bool-cases, Option-cases, length,
  take, drop, set, get_or, replicate, All, length-append, length-set, length-take, length-drop,
  length-replicate, add32, sub32, mul32, add16, sub16, Bytes, codes, str_eq, str_eq_iff,
}

-- The Ethernet header, the message header, and the bounds of a frame.
abbrev pub eth_hdr_len : ℕ
eth_hdr_len = 14

abbrev pub hdr_len : ℕ
hdr_len = 8

abbrev pub min_frame : ℕ
min_frame = 60

abbrev pub max_frame : ℕ
max_frame = 1514

abbrev pub auth_len : ℕ
auth_len = 16

abbrev pub tag_counter : ℕ
tag_counter = 0x19

abbrev pub tag_auth : ℕ
tag_auth = 0x1A

abbrev pub be16 : ℕ → Bytes
be16 v = (v / 256) ∷ (v % 256) ∷ []

abbrev pub be32 : ℕ → Bytes
be32 v = (v / 2 ^ 24) ∷ (v / 2 ^ 16 % 256) ∷ (v / 256 % 256) ∷ (v % 256) ∷ []

-- `bwp_writer_t`.
pub record Writer : Type 0 where
  pub out : Bytes
  pub cap : ℕ
  pub nest_at : ℕ
  pub overflow : Bool

-- `reserve`, and the bytes put in the room that it gave.
pub append : Bytes → Writer → Writer
append bs w =
    if w.overflow || ltb w.cap (length w.out + length bs)
    then record w { overflow = true }
    else record w { out = w.out ++ bs }

-- The body length, patched by `finish`, is 0 at first.
pub begin : ℕ → Bytes → Bytes → ℕ → ℕ → Writer
unfolding append
begin cap dst src type seq =
    append (dst ++ (src ++ (0x88 ∷ 0xB5 ∷ 0x42 ∷ 0x57 ∷ 1 ∷ type ∷ (be16 seq ++ be16 0)))) (record {
      out = [];
      cap = if ltb max_frame cap then max_frame else cap;
      nest_at = 0;
      overflow = false;
    })

pub put : ℕ → Bytes → Writer → Writer
unfolding append
put tag val w =
    if ltb 0xFFFF (length val)
    then record w { overflow = true }
    else append (tag ∷ (be16 (length val) ++ val)) w

pub put_u8 : ℕ → ℕ → Writer → Writer
unfolding put
put_u8 tag v w = put tag (v ∷ []) w

pub put_u32 : ℕ → ℕ → Writer → Writer
unfolding put
put_u32 tag v w = put tag (be32 v) w

-- Two bytes written at an offset.
abbrev patch16 : ℕ → ℕ → Bytes → Bytes
patch16 at v bs = set (set bs at (v / 256)) (at + 1) (v % 256)

-- The uninitialised bytes of the length field count as 0 until `nest_end` writes them.
pub nest_begin : ℕ → Writer → Writer
unfolding append
nest_begin tag w =
    let w' = append (tag ∷ 0 ∷ 0 ∷ []) w in
    if w'.overflow then w' else record w' { nest_at = length w'.out - 2 }

pub nest_end : Writer → Writer
nest_end w =
    if not w.overflow && not (w.nest_at == 0)
    then record w {
      out = patch16 w.nest_at ((length w.out - w.nest_at - 2) % 2 ^ 16) w.out;
      nest_at = 0;
    }
    else record w { nest_at = 0 }

-- `bwp_finish`; `none` is 0.
pub finish : Writer → Option Bytes
finish w =
    let out = patch16 20 (length w.out - eth_hdr_len - hdr_len) w.out in
    if w.overflow
    then none
    else if ltb (length out) min_frame
    then (if ltb w.cap min_frame then none else some (out ++ replicate (min_frame - length out) 0))
    else some out

-- `bwp_iter_next`: the tag, the value and what is left.
unfoldable pub iter_next : Bytes → Option (ℕ × Bytes × Bytes)
iter_next (t ∷ h ∷ l ∷ rest) =
    if ltb (length rest) (256 * h + l)
    then none
    else some (t, take (256 * h + l) rest, drop (256 * h + l) rest)
iter_next _ = none

-- Each round of the loops takes three bytes at least, so the length of the body is fuel enough.
valid_loop : ℕ → Bytes → Bool
valid_loop k [] = true
valid_loop zero (b ∷ bs) = false
valid_loop (suc k) (b ∷ bs) = elim (iter_next (b ∷ bs)) [
  | none ↦ false
  | some (t, v, rest) ↦ valid_loop k rest
]

pub tlv_valid : Bytes → Bool
unfolding valid_loop
tlv_valid body = valid_loop (length body) body

unfoldable pub find_loop : ℕ → ℕ → Bytes → Option Bytes
find_loop zero tag body = none
find_loop (suc k) tag body = elim (iter_next body) [
  | none ↦ none
  | some (t, v, rest) ↦ let more = find_loop k tag rest in if t == tag then some v else more
]

unfoldable pub find : Bytes → ℕ → Option Bytes
unfolding find_loop
find body tag = find_loop (length body) tag body

find_left_loop : ℕ → ℕ → Bytes → Option Bytes → Option Bytes
find_left_loop zero tag body left = left
find_left_loop (suc k) tag body left = elim (iter_next body) [
  | none ↦ left
  | some (t, v, rest) ↦
      let more = find_left_loop k tag rest (some v) in if t == tag then some v else more
]

-- Where `*val`, NULL at first, points after `bwp_find`: at the value found, else at the last value.
pub find_left : Bytes → ℕ → Option Bytes
unfolding find_left_loop
find_left body tag = find_left_loop (length body) tag body none

unfoldable pub get_be32 : Bytes → Option ℕ
get_be32 (a ∷ b ∷ c ∷ d ∷ []) = some (2 ^ 24 * a + 2 ^ 16 * b + 256 * c + d)
get_be32 _ = none

pub get_u8 : Bytes → ℕ → Option ℕ
get_u8 body tag = elim (find body tag) [ some (v ∷ []) ↦ some v | _ ↦ none ]

unfoldable pub get_u32 : Bytes → ℕ → Option ℕ
unfolding get_be32
get_u32 body tag = elim (find body tag) [ some v ↦ get_be32 v | none ↦ none ]

-- `bwp_get_str` into a buffer of `cap` bytes.
pub get_str : Bytes → ℕ → ℕ → Option Bytes
get_str body tag cap = elim (find body tag) [
  | some v ↦ if ltb (length v) cap then some v else none
  | none ↦ none
]

pub record Msg : Type 0 where
  pub dst : Bytes
  pub src : Bytes
  pub version : ℕ
  pub type : ℕ
  pub seq : ℕ
  pub body : Bytes

pub data Parsed : Type 0 where
  not_bwp bad_version malformed : Parsed
  ok : Msg → Parsed

abbrev at : ℕ → Bytes → ℕ
at i f = get_or f i 0

abbrev at16 : ℕ → Bytes → ℕ
at16 i f = 256 * get_or f i 0 + get_or f (i + 1) 0

pub parse : Bytes → Parsed
parse f =
    let n = at16 20 f in
    let body = take n (drop 22 f) in
    if ltb (length f) 16 || not (at16 12 f == 0x88B5)
    then not_bwp
    else if not (at 14 f == 0x42) || not (at 15 f == 0x57)
    then not_bwp
    else if ltb (length f) 22
    then malformed
    else if not (at 16 f == 1)
    then bad_version
    else if ltb (length f - 22) n
    then malformed
    else if not (tlv_valid body)
    then malformed
    else ok (record {
      dst = take 6 f;
      src = take 6 (drop 6 f);
      version = at 16 f;
      type = at 17 f;
      seq = at16 18 f;
      body = body;
    })

pub data Verdict : Type 0 where
  verified : ℕ → Verdict
  missing bad_auth : Verdict

abbrev is_some {ℓ} : {A : Type ℓ} → Option A → Bool
is_some none = false
is_some (some _) = true

-- The loop of `bwp_verify`: where the last AUTH starts in the body, its value, and whether the
-- frame is bad.
unfoldable pub auth_loop : ℕ → ℕ → Bytes → Option (ℕ × Bytes) → Bool → Option (ℕ × Bytes) × Bool
auth_loop zero off body auth bad = (auth, bad)
auth_loop (suc k) off body auth bad = elim (iter_next body) [
  | none ↦ (auth, bad)
  | some (t, v, rest) ↦
      auth_loop k (off + 3 + length v) rest (if t == tag_auth then some (off, v) else auth)
        (bad || is_some auth || (t == tag_auth && not (length v == auth_len)))
]

module _ (hmac : Bytes → Bytes → Bytes) where
  -- `auth_mac`.
  unfoldable pub auth_mac : Bytes → Bytes → Bytes → Bytes
  auth_mac key nonce from = take auth_len (hmac key (nonce ++ from))

  pub sign : Bytes → Bytes → ℕ → Writer → Writer
  sign key nonce counter w =
      let w' = put_u32 tag_counter counter w in
      let covered = length w'.out + 3 + auth_len in
      let out = patch16 20 (covered - eth_hdr_len - hdr_len) w'.out in
      if w'.overflow || ltb w'.cap covered
      then record w' { overflow = true }
      else put tag_auth (auth_mac key nonce (drop eth_hdr_len out)) (record w' { out = out })

  -- `bwp_sign_frame`, of a finished frame in a buffer of `cap` bytes.
  pub sign_frame : Bytes → Bytes → ℕ → Bytes → ℕ → Option Bytes
  sign_frame key nonce counter f cap =
      let room = if ltb max_frame cap then max_frame else cap in
      let len = eth_hdr_len + hdr_len + at16 20 f in
      if ltb room len
      then none
      else finish (
          sign key nonce counter
            (record { out = take len f; cap = room; nest_at = 0; overflow = false }))

  unfoldable pub verify : Bytes → Msg → Bytes → Bytes → Verdict
  unfolding auth_loop
  verify frame m key nonce =
      let (auth, bad) = auth_loop (length m.body) 0 m.body none false in
      elim auth [
        | none ↦ missing
        | some (off, v) ↦ elim (get_u32 m.body tag_counter) [
          | none ↦ missing
          | some c ↦
              if bad
                || not
                    (str_eq (auth_mac key nonce (take (hdr_len + off) (drop eth_hdr_len frame))) v)
              then bad_auth
              else verified c
        ]
      ]
