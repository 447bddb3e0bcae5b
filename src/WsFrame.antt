-- ===== src/WsFrame.antt =====
-- stm32h563/src/ws_frame.c: the WebSocket frames of the cloud connection, RFC 6455 without
-- fragmentation. Bytes are numbers below 256, and `a | b` of disjoint bits is `a + b`.
-- `ws_make_sec_key`, which is random, is left out.
pub mod Client
pub mod Server
mod Tests
use benchpod_firmware.Base.{
  ℕ, zero, suc, ◌+◌, ◌-◌, ◌*◌, ◌/◌, ◌%◌, ◌^◌, ◌≤◌, ◌<◌, min, max, bit_and, bit_or, bit_xor, ◌≡◌,
  refl, sym, ap, ◌∙◌, ◌≢◌, ◌↔◌, ◌⊎◌, inl, inr, Bool, true, false, not, ◌&&◌, ◌||◌, Option, none,
  some, List, [], ◌∷◌, ◌++◌, arith, ltb, leb, ◌==◌, if◌then◌else◌, Bool-cases, Option-cases, length,
  take, drop, set, get_or, replicate, All, length-append, length-set, length-take, length-drop,
  length-replicate, add32, sub32, mul32, add16, sub16, Bytes, codes, str_eq, str_eq_iff,
}

pub data Parsed : Type 0 where
  incomplete refused fragmented : Parsed
  -- The opcode, the payload and the bytes consumed.
  frame : ℕ → Bytes → ℕ → Parsed

-- The loop that masks the payload, from its byte `i` on.
pub mask_from : ℕ → Bytes → Bytes → Bytes
mask_from i key [] = []
mask_from i key (c ∷ cs) = bit_xor c (get_or key (i % 4) 0) ∷ mask_from (i + 1) key cs

-- The second byte with its MASK bit, and the extended length.
build_length : ℕ → Bytes
build_length n = if ltb n 126 then (128 + n) ∷ [] else 254 ∷ (n / 256) ∷ (n % 256) ∷ []

-- `ws_build_frame`; `none` is 0.
pub build_frame : ℕ → Bytes → Bytes → ℕ → Option Bytes
unfolding build_length mask_from
build_frame opcode payload key out_cap =
    let n = length payload in
    let hdr = if ltb n 126 then 6 else 8 in
    if ltb 0xFFFF n
    then none
    else if ltb out_cap (hdr + n)
    then none
    else some ((128 + opcode % 16) ∷ (build_length n ++ (key ++ mask_from 0 key payload)))

-- The frame, once its length is read; `body` is what lies behind the header of `offset` bytes.
finish : ℕ → ℕ → ℕ → Bytes → Parsed
finish b0 offset n body =
    if ltb (length body) n then incomplete else frame (b0 % 16) (take n body) (offset + n)

extended16 : ℕ → Bytes → Parsed
unfolding finish
extended16 b0 (h ∷ l ∷ body) = finish b0 4 (256 * h + l) body
extended16 b0 _ = incomplete

-- The loop over the eight bytes, which does not reach the end of its `uint64_t`.
big_endian : ℕ → Bytes → ℕ
big_endian n [] = n
big_endian n (b ∷ bs) = big_endian (256 * n + b) bs

extended64 : ℕ → Bytes → Parsed
unfolding finish
extended64 b0 rest =
    let n = big_endian 0 (take 8 rest) in
    if ltb (length rest) 8
    then incomplete
    else if ltb 0xFFFF n
    then refused
    else finish b0 10 n (drop 8 rest)

pub parse_frame : Bytes → Parsed
unfolding finish extended16 extended64
parse_frame (b0 ∷ b1 ∷ rest) =
    let n = b1 % 128 in
    if leb 128 b1
    then refused
    else if not ((b0 / 16) % 8 == 0)
    then refused
    else if not (leb 128 b0) || (b0 % 16 == 0)
    then fragmented
    else if n == 126
    then extended16 b0 rest
    else if n == 127
    then extended64 b0 rest
    else finish b0 2 n rest
parse_frame _ = incomplete
