-- ===== src/Bridge/Wire/Frame.antt =====
-- A message written with bwp_begin, bwp_put and bwp_finish is read back by bwp_parse.
use mathlib.Core.List.{append-nil, append_assoc}
use benchpod_firmware.Base.{
  take-append, ℕ, ◌+◌, ◌-◌, ◌*◌, ◌/◌, ◌%◌, ◌^◌, ◌≤◌, ◌<◌, min, ◌≡◌, refl, ap, ◌∙◌, inl, inr, false,
  some, List, [], ◌∷◌, ◌++◌, arith, ltb, Bool-cases, length, replicate, All, length-append, Bytes,
}
use benchpod_firmware.Bridge.Wire.{
  be16, Writer, Msg, begin, put, append, finish, parse, ok, max_frame, min_frame,
}
use benchpod_firmware.Bridge.Wire.Tlv.{Tlv, IsTlv, encode, tlv_encode-valid}

-- The calls of bwp_put for each TLV.
unfoldable pub puts : List Tlv → Writer → Writer
puts [] w = w
puts ((t, v) ∷ ts) w = puts ts (put t v w)

pub put_lem :
    (t : ℕ) (v : Bytes) (w : Writer)
    → IsTlv (t, v)
    → w.overflow ≡ false
    → length w.out + (3 + length v) ≤ w.cap
    → put t v w ≡ record w { out = w.out ++ (t ∷ (length v / 256) ∷ (length v % 256) ∷ v) }
unfolding put append
put_lem t v w a o l = ground arith

pub puts_lem :
    (ts : List Tlv) (w : Writer)
    → All IsTlv ts
    → w.overflow ≡ false
    → length w.out + length (encode ts) ≤ w.cap
    → puts ts w ≡ record w { out = w.out ++ encode ts }
unfolding puts encode
puts_lem [] w a o l = rw (append-nil w.out) refl
puts_lem ((t, v) ∷ ts) w (a, as') o l =
    let e = put_lem t v w a o (omega (arith, length-append {0} v (encode ts))) in
    let n = length-append {0} w.out (t ∷ (length v / 256) ∷ (length v % 256) ∷ v) in
    let w' : Writer = record w { out = w.out ++ (t ∷ (length v / 256) ∷ (length v % 256) ∷ v) } in
    rw e (
      puts_lem ts w' as' o (omega (arith, n, length-append {0} v (encode ts)))
      ∙ ap (λ o. record w { out = o })
          (append_assoc w.out (t ∷ (length v / 256) ∷ (length v % 256) ∷ v) (encode ts)))

-- A MAC address.
pub record Mac : Type 0 where
  pub m0 : ℕ
  pub m1 : ℕ
  pub m2 : ℕ
  pub m3 : ℕ
  pub m4 : ℕ
  pub m5 : ℕ

abbrev pub bytes : Mac → Bytes
bytes m = m.m0 ∷ m.m1 ∷ m.m2 ∷ m.m3 ∷ m.m4 ∷ m.m5 ∷ []

-- Where a frame goes and comes from.
pub record Ends : Type 0 where
  pub dst : Mac
  pub src : Mac

abbrev pub header : Ends → ℕ → ℕ → ℕ → Bytes
header e type seq n =
    bytes e.dst ++ (bytes e.src ++ (0x88 ∷ 0xB5 ∷ 0x42 ∷ 0x57 ∷ 1 ∷ type ∷ (be16 seq ++ be16 n)))

-- A writer that wrote a header, with this length field, and a body.
abbrev pub writer : Ends → ℕ → ℕ → ℕ → ℕ → Bytes → Writer
writer e type seq n room body = record {
  out = header e type seq n ++ body;
  cap = room;
  nest_at = 0;
  overflow = false;
}

-- The message of a frame.
abbrev pub message : Ends → ℕ → ℕ → List Tlv → Msg
message e type seq ts = record {
  dst = bytes e.dst;
  src = bytes e.src;
  version = 1;
  type = type;
  seq = seq;
  body = encode ts;
}

pub begin_lem :
    (e : Ends) (cap type seq : ℕ)
    → 22 ≤ cap
    → begin cap (bytes e.dst) (bytes e.src) type seq ≡ writer e type seq 0 (min max_frame cap) []
unfolding begin append
begin_lem e cap type seq h = ground arith

pub parse-header :
    (e : Ends) (type seq : ℕ) (ts : List Tlv) (pad : Bytes)
    → seq < 2 ^ 16
    → length (encode ts) < 2 ^ 16
    → parse (header e type seq (length (encode ts)) ++ (encode ts ++ pad))
      ≡ ok (message e type seq ts)
unfolding parse
parse-header e type seq ts pad hs hn =
    let n = length (encode ts) in
    let en : 256 * (n / 256) + n % 256 ≡ n = omega arith in
    let es : 256 * (seq / 256) + seq % 256 ≡ seq = omega arith in
    let b = take-append (encode ts) pad in
    let v = tlv_encode-valid ts in
    let l = length-append {0} (encode ts) pad in rw (en, es, b, v) (ground arith)

-- The padding that bwp_finish adds is after the body.
pub finish_lem :
    (e : Ends) (cap type seq n : ℕ) (body : Bytes)
    → min_frame ≤ cap
    → (pad : Bytes) × (finish (writer e type seq n cap (body))
        ≡ some (header e type seq (length body) ++ (body ++ pad)))
unfolding finish
finish_lem e room type seq n0 body h =
    let n = length body in
    elim (Bool-cases (ltb (22 + n) min_frame)) [
      | inl short ↦ (replicate (38 - n) 0, ground arith)
      | inr long ↦ ([], rw (append-nil body) (ground arith))
    ]

-- A message whose TLVs of up to 65535 bytes fit the buffer and an Ethernet frame is written, and
-- bwp_parse gives back its addresses, type, sequence number and body, the padding taken off.
pub parse-finish :
    (e : Ends) (cap type seq : ℕ) (ts : List Tlv)
    → min_frame ≤ cap
    → seq < 2 ^ 16
    → All IsTlv ts
    → 22 + length (encode ts) ≤ min max_frame cap
    → (f : Bytes) × (finish (puts ts (begin cap (bytes e.dst) (bytes e.src) type seq)) ≡ some f)
      × (parse f ≡ ok (message e type seq ts))
parse-finish e cap type seq ts h hs a l =
    let w : Writer = writer e type seq 0 (min max_frame cap) [] in
    let (pad, f) = finish_lem e (min max_frame cap) type seq 0 (encode ts) (omega arith) in
    (
      header e type seq (length (encode ts)) ++ (encode ts ++ pad),
      ap (λ w. finish (puts ts w)) (begin_lem e cap type seq (omega arith))
          ∙ (ap finish (puts_lem ts w a refl l) ∙ f),
      parse-header e type seq ts pad hs (omega arith),
    )
