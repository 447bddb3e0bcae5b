-- ===== src/B64url/RoundTrip.antt =====
-- What b64url_encode writes, b64url_decode reads back.
use benchpod_firmware.Base.{
  holds_below, holds_below-at, ℕ, ◌+◌, ◌-◌, ◌*◌, ◌/◌, ◌%◌, ◌^◌, ◌≤◌, ◌<◌, bit_or, ◌≡◌, refl, sym,
  ap, ◌∙◌, inl, inr, true, false, not, some, [], ◌∷◌, arith, ltb, ◌==◌, if◌then◌else◌, Bool-cases,
  length, All, Bytes,
}
use mathlib.Core.Path.{subst}
use benchpod_firmware.B64url.{
  encoded_len, enc, place, dec, enc_groups, encode64, strip_pad, dec_groups, decode64,
}

abbrev pub IsByte : ℕ → Type 0
IsByte b = b < 256

dec-enc : (i : ℕ) → i < 64 → dec (enc i) ≡ i
unfolding dec enc place holds_below
dec-enc i h =
    let t : (dec (enc i) == i) ≡ true = holds_below-at (λ i. dec (enc i) == i) i 64 h refl in
    ground arith

enc-plain : (i : ℕ) → i < 64 → (enc i == 61) ≡ false
unfolding enc holds_below
enc-plain i h =
    let t : not (enc i == 61) ≡ true = holds_below-at (λ i. not (enc i == 61)) i 64 h refl in
    ground arith

lt-255 : (x : ℕ) → x < 64 → (x == 0xFF) ≡ false
lt-255 x h = ground arith

ltb-true : (x y : ℕ) → ltb x y ≡ true → x < y
ltb-true x y h = ground arith

or_lt : (x y : ℕ) → x < 64 → y < 64 → bit_or x y < 64
unfolding holds_below
or_lt x y hx hy =
    let t : holds_below (λ y. ltb (bit_or x y) 64) 64 ≡ true =
      holds_below-at (λ x. holds_below (λ y. ltb (bit_or x y) 64) 64) x 64 hx refl in
    ltb-true (bit_or x y) 64 (holds_below-at (λ y. ltb (bit_or x y) 64) y 64 hy t)

strip_pad-plain : (s : Bytes) → All (λ c. (c == 61) ≡ false) s → strip_pad s ≡ s
unfolding strip_pad
strip_pad-plain [] h = refl
strip_pad-plain (c ∷ cs) (h, hs) = let ih = strip_pad-plain cs hs in ground arith

enc_mod-plain : (v : ℕ) → (enc (v % 64) == 61) ≡ false
enc_mod-plain v = enc-plain (v % 64) (omega arith)

enc_groups-plain : (bs : Bytes) → All (λ c. (c == 61) ≡ false) (enc_groups bs)
unfolding enc_groups
enc_groups-plain [] = tt
enc_groups-plain (a ∷ []) =
    let v = 2 ^ 16 * a in (enc_mod-plain (v / 2 ^ 18), (enc_mod-plain (v / 2 ^ 12), tt))
enc_groups-plain (a ∷ b ∷ []) =
    let v = 2 ^ 16 * a + 256 * b in
    (enc_mod-plain (v / 2 ^ 18), (enc_mod-plain (v / 2 ^ 12), (enc_mod-plain (v / 64), tt)))
enc_groups-plain (a ∷ b ∷ c ∷ rest) =
    let v = 2 ^ 16 * a + 256 * b + c in
    (
      enc_mod-plain (v / 2 ^ 18),
      (
        enc_mod-plain (v / 2 ^ 12),
        (enc_mod-plain (v / 64), (enc_mod-plain v, enc_groups-plain rest)),
      ),
    )

-- The length of the text, by the groups of three bytes and what is left of them.
length-enc_groups :
    (bs : Bytes)
    → (q r : ℕ) × (r < 3)
      × (length bs ≡ 3 * q + r)
      × (length (enc_groups bs) ≡ 4 * q + (if r == 0 then 0 else r + 1))
unfolding enc_groups
length-enc_groups [] = (0, 0, omega arith, refl, refl)
length-enc_groups (a ∷ []) = (0, 1, omega arith, refl, refl)
length-enc_groups (a ∷ b ∷ []) = (0, 2, omega arith, refl, refl)
length-enc_groups (a ∷ b ∷ c ∷ rest) =
    let (q, r, h, l, m) = length-enc_groups rest in (q + 1, r, h, omega arith, ground arith)

dec_groups-step :
    (w x y z : ℕ) (rest out : Bytes)
    → (bit_or (bit_or (bit_or (dec w) (dec x)) (dec y)) (dec z) == 0xFF) ≡ false
    → dec_groups rest ≡ some out
    → dec_groups (w ∷ x ∷ y ∷ z ∷ rest)
      ≡ some (
          (dec w * 4 + dec x / 16) % 256
          ∷ (dec x * 16 + dec y / 4) % 256
          ∷ (dec y * 64 + dec z) % 256
          ∷ out)
unfolding dec_groups
dec_groups-step w x y z rest out t h = ground arith

dec_groups-four :
    (i j k l : ℕ) (rest out : Bytes)
    → dec_groups rest ≡ some out
    → dec_groups (enc (i % 64) ∷ enc (j % 64) ∷ enc (k % 64) ∷ enc (l % 64) ∷ rest)
      ≡ some (
          (i % 64 * 4 + j % 64 / 16) % 256
          ∷ (j % 64 * 16 + k % 64 / 4) % 256
          ∷ (k % 64 * 64 + l % 64) % 256
          ∷ out)
dec_groups-four i j k l rest out h =
    let hi : i % 64 < 64 = omega arith in
    let hj : j % 64 < 64 = omega arith in
    let hk : k % 64 < 64 = omega arith in
    let hl : l % 64 < 64 = omega arith in
    let o =
      or_lt (bit_or (bit_or (i % 64) (j % 64)) (k % 64)) (l % 64)
        (or_lt (bit_or (i % 64) (j % 64)) (k % 64) (or_lt (i % 64) (j % 64) hi hj) hk) hl in
    let ei = dec-enc (i % 64) hi in
    let ej = dec-enc (j % 64) hj in
    let ek = dec-enc (k % 64) hk in
    let el = dec-enc (l % 64) hl in
    let t : (bit_or (bit_or (bit_or (dec (enc (i % 64))) (dec (enc (j % 64)))) (dec (enc (k % 64))))
            (dec (enc (l % 64)))
          == 0xFF)
        ≡ false =
      rw (ei, ej, ek, el)
        (lt-255 (bit_or (bit_or (bit_or (i % 64) (j % 64)) (k % 64)) (l % 64)) o) in
    dec_groups-step (enc (i % 64)) (enc (j % 64)) (enc (k % 64)) (enc (l % 64)) rest out t h
    ∙ rw (ei, ej, ek, el) refl

dec_groups-three :
    (i j k : ℕ)
    → dec_groups (enc (i % 64) ∷ enc (j % 64) ∷ enc (k % 64) ∷ [])
      ≡ some ((i % 64 * 4 + j % 64 / 16) % 256 ∷ (j % 64 * 16 + k % 64 / 4) % 256 ∷ [])
unfolding dec_groups
dec_groups-three i j k =
    let hi : i % 64 < 64 = omega arith in
    let hj : j % 64 < 64 = omega arith in
    let hk : k % 64 < 64 = omega arith in
    let o = or_lt (bit_or (i % 64) (j % 64)) (k % 64) (or_lt (i % 64) (j % 64) hi hj) hk in
    rw
      (
        dec_groups,
        dec-enc (i % 64) hi,
        dec-enc (j % 64) hj,
        dec-enc (k % 64) hk,
        lt-255 (bit_or (bit_or (i % 64) (j % 64)) (k % 64)) o,
      )
      refl

dec_groups-two :
    (i j : ℕ)
    → dec_groups (enc (i % 64) ∷ enc (j % 64) ∷ []) ≡ some ((i % 64 * 4 + j % 64 / 16) % 256 ∷ [])
unfolding dec_groups
dec_groups-two i j =
    let hi : i % 64 < 64 = omega arith in
    let hj : j % 64 < 64 = omega arith in
    rw
      (
        dec_groups,
        dec-enc (i % 64) hi,
        dec-enc (j % 64) hj,
        lt-255 (bit_or (i % 64) (j % 64)) (or_lt (i % 64) (j % 64) hi hj),
      )
      refl

dec_groups-nil : dec_groups [] ≡ some []
unfolding dec_groups
dec_groups-nil = refl

-- The length that b64url_decode expects.
decoded_len :
    (q r n len : ℕ)
    → r < 3
    → len ≡ 3 * q + r
    → n ≡ 4 * q + (if r == 0 then 0 else r + 1)
    → ((n % 4 == 1) ≡ false) × (n / 4 * 3 + (if n % 4 == 0 then 0 else n % 4 - 1) ≡ len)
decoded_len q r n len h l e = elim (Bool-cases (r == 0)) [
  | inl z ↦
      let en : n ≡ 4 * q = ground arith in
      let m : n % 4 ≡ 0 = omega arith in
      let d : n / 4 ≡ q = omega arith in rw (m, d) (refl, ground arith)
  | inr z ↦
      let en : n ≡ 4 * q + (r + 1) = ground arith in
      let m : n % 4 ≡ r + 1 = ground arith in
      let d : n / 4 ≡ q = ground arith in rw (m, d) (ground arith, ground arith)
]

-- The groups are read back.
dec-enc_groups : (bs : Bytes) → All IsByte bs → dec_groups (enc_groups bs) ≡ some bs
unfolding enc_groups
dec-enc_groups [] h = dec_groups-nil
dec-enc_groups (a ∷ []) (ha, t) =
    let v = 2 ^ 16 * a in
    let e : (v / 2 ^ 18 % 64 * 4 + v / 2 ^ 12 % 64 / 16) % 256 ≡ a = omega arith in
    dec_groups-two (v / 2 ^ 18) (v / 2 ^ 12) ∙ ap (λ x. some (x ∷ [])) e
dec-enc_groups (a ∷ b ∷ []) (ha, (hb, t)) =
    let v = 2 ^ 16 * a + 256 * b in
    let e : (v / 2 ^ 18 % 64 * 4 + v / 2 ^ 12 % 64 / 16) % 256 ≡ a = omega arith in
    let f : (v / 2 ^ 12 % 64 * 16 + v / 64 % 64 / 4) % 256 ≡ b = omega arith in
    dec_groups-three (v / 2 ^ 18) (v / 2 ^ 12) (v / 64) ∙ rw (e, f) refl
dec-enc_groups (a ∷ b ∷ c ∷ rest) (ha, (hb, (hc, t))) =
    let v = 2 ^ 16 * a + 256 * b + c in
    let e : (v / 2 ^ 18 % 64 * 4 + v / 2 ^ 12 % 64 / 16) % 256 ≡ a = omega arith in
    let f : (v / 2 ^ 12 % 64 * 16 + v / 64 % 64 / 4) % 256 ≡ b = omega arith in
    let g : (v / 64 % 64 * 64 + v % 64) % 256 ≡ c = omega arith in
    dec_groups-four (v / 2 ^ 18) (v / 2 ^ 12) (v / 64) v (enc_groups rest) rest
      (dec-enc_groups rest t)
    ∙ rw (e, f, g) refl

-- B64URL_ENCODED_LEN is the length of the text.
encoded_len_lem :
    (q r n : ℕ) → r < 3 → n ≡ 3 * q + r → encoded_len n ≡ 4 * q + (if r == 0 then 0 else r + 1)
encoded_len_lem q r n h l = elim (Bool-cases (r == 0)) [
  | inl z ↦ let e : encoded_len n ≡ 4 * q = ground arith in ground arith
  | inr z ↦ let e : encoded_len n ≡ 4 * q + (r + 1) = ground arith in ground arith
]

encode64-inv :
    (bs text : Bytes) (room : ℕ)
    → encode64 room bs ≡ some text
    → (enc_groups bs ≡ text) × (encoded_len (length bs) < room)
unfolding encode64
encode64-inv bs text room e = elim (Bool-cases (ltb room (encoded_len (length bs) + 1))) [
  | inl small ↦ absurd (ground arith)
  | inr fits ↦ (ground arith, ground arith)
]

-- What b64url_encode writes fits its buffer with the NUL, and b64url_decode reads it back into a
-- buffer that holds the bytes.
pub decode64-encode64 :
    (bs text : Bytes) (room out_cap : ℕ)
    → All IsByte bs
    → encode64 room bs ≡ some text
    → length bs ≤ out_cap
    → (length text < room) × (decode64 out_cap text ≡ some bs)
unfolding decode64
decode64-encode64 bs text room out_cap b e h =
    let (eq, free) = encode64-inv bs text room e in
    let p = strip_pad-plain (enc_groups bs) (enc_groups-plain bs) in
    let (q, r, hr, hl, hn) = length-enc_groups bs in
    let (plain, size) = decoded_len q r (length (enc_groups bs)) (length bs) hr hl hn in
    let fits : ltb out_cap (length bs) ≡ false = ground arith in
    let d = dec-enc_groups bs b in
    let read : decode64 out_cap (enc_groups bs) ≡ some bs = rw (decode64, p, plain, size, fits) d in
    let n = encoded_len_lem q r (length bs) hr hl in
    let small : length (enc_groups bs) < room = rw (hn, ← n) free in
    (subst (λ t. length t < room) eq small, ap (decode64 out_cap) (sym eq) ∙ read)
