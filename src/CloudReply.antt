-- ===== src/CloudReply.antt =====
-- stm32h563/src/cloud_reply_cap.c: a command's reply is kept for the cloud, and is passed on whole or
-- replaced by an error. The buffer is the bytes kept in it; snprintf's `%u` is the parameter
-- `digits`.
mod Tests
pub mod Whole
use benchpod_firmware.Base.{
  ℕ, zero, suc, ◌+◌, ◌-◌, ◌*◌, ◌/◌, ◌%◌, ◌^◌, ◌≤◌, ◌<◌, min, max, bit_and, bit_or, bit_xor, ◌≡◌,
  refl, sym, ap, ◌∙◌, ◌≢◌, ◌↔◌, ◌⊎◌, inl, inr, Bool, true, false, not, ◌&&◌, ◌||◌, Option, none,
  some, List, [], ◌∷◌, ◌++◌, arith, ltb, leb, ◌==◌, if◌then◌else◌, Bool-cases, Option-cases, length,
  take, drop, set, get_or, replicate, All, length-append, length-set, length-take, length-drop,
  length-replicate, add32, sub32, mul32, add16, sub16, Bytes, codes, str_eq, str_eq_iff,
}

-- CLOUD_REPLY_CAP_MAX, BP_CLOUD_REPLY_MAX of bp_limits.h.
abbrev pub cap_max : ℕ
cap_max = 1792

pub record Capture : Type 0 where
  pub buf : Bytes
  pub want : ℕ
  pub nl : ℕ
  pub active : Bool

abbrev pub is_eol : ℕ → Bool
is_eol b = b == 10 || b == 13

pub cap_begin : Capture
cap_begin = record { buf = []; want = 0; nl = 0; active = true }

-- `s_nl` over the bytes of a write.
unfoldable pub count_eol : ℕ → Bytes → ℕ
count_eol n [] = n
count_eol n (b ∷ bs) = count_eol (if is_eol b then n + 1 else 0) bs

pub cap_append : Bytes → Capture → Capture
cap_append bs c = if not c.active then c else record c {
  want = c.want + length bs;
  nl = count_eol c.nl bs;
  buf = c.buf ++ take (cap_max - 1 - length c.buf) bs;
}

-- The reply proper, without the line ending.
pub trim : ℕ → Bytes → Bytes
trim want buf = if ltb want (length buf) then take want buf else buf

module _ (digits : ℕ → Bytes) where
  -- `err_reply`; `none` is 0.
  unfoldable pub err_reply : ℕ → Bytes → Option Bytes
  err_reply out_cap msg =
      let text = codes "{\"status\":\"error\",\"message\":\"" ++ (msg ++ codes "\"}") in
      if ltb (length text) out_cap then some text else none

  unfoldable pub too_large : ℕ → ℕ → Bytes
  too_large want limit = take 95 (
      codes "reply too large for the cloud channel ("
      ++ (digits want ++ (codes " bytes, limit " ++ (digits limit ++ codes ")"))))

  -- The end of `cloud_reply_cap_end`, for a buffer of at least 1 byte.
  pub reply_of : ℕ → ℕ → Bytes → Option Bytes
  reply_of out_cap want buf =
      let limit = min out_cap cap_max - 1 in
      if ltb (length buf) want || ltb limit (length buf)
      then err_reply out_cap (too_large want limit)
      else if length buf == 0
      then err_reply out_cap (codes "no reply")
      else some buf

  pub cap_end : ℕ → Capture → Option Bytes × Capture
  unfolding reply_of trim
  cap_end out_cap c =
      let buf = trim (c.want - c.nl) c.buf in
      if out_cap == 0
      then (none, record c { active = false })
      else (reply_of out_cap (c.want - c.nl) buf, record c { buf = buf; active = false })
