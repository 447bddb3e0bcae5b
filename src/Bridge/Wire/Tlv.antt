-- ===== src/Bridge/Wire/Tlv.antt =====
-- The bodies that `bwp_tlv_valid` takes, and what the readers find in them.
use benchpod_firmware.Base.{
  take-append, drop-append, take-append-drop, drop-append, take-append, ℕ, zero, suc, ◌+◌, ◌*◌, ◌/◌,
  ◌%◌, ◌≤◌, ◌<◌, ◌≡◌, refl, sym, ap, ◌∙◌, ◌↔◌, inl, inr, true, Option, none, some, List, [], ◌∷◌,
  ◌++◌, arith, ◌==◌, if◌then◌else◌, Option-cases, length, take, drop, All, length-append,
  length-take, Bytes,
}
use benchpod_firmware.Bridge.Wire.{iter_next, valid_loop, tlv_valid, find_loop, find}

abbrev pub Tlv : Type 0
Tlv = ℕ × Bytes

abbrev pub IsTlv : Tlv → Type 0
IsTlv t = length t.1 ≤ 0xFFFF

abbrev pub IsByte : ℕ → Type 0
IsByte b = b < 256

-- A body as the protocol describes it: tag, length and value of each TLV in turn.
unfoldable pub encode : List Tlv → Bytes
encode [] = []
encode ((t, v) ∷ ts) = t ∷ (length v / 256) ∷ (length v % 256) ∷ (v ++ encode ts)

-- The first value with a tag.
unfoldable pub assoc : ℕ → List Tlv → Option Bytes
assoc tag [] = none
assoc tag ((t, v) ∷ ts) = let more = assoc tag ts in if t == tag then some v else more

pub iter_next-encode :
    (t : ℕ) (v rest : Bytes)
    → iter_next (t ∷ (length v / 256) ∷ (length v % 256) ∷ (v ++ rest)) ≡ some (t, v, rest)
unfolding iter_next
iter_next-encode t v rest =
    let e : 256 * (length v / 256) + length v % 256 ≡ length v = omega arith in
    rw (e, take-append v rest, drop-append v rest) (ground (arith, length-append {0} v rest))

pub iter_next-nil : iter_next [] ≡ none
unfolding iter_next
iter_next-nil = refl

pub length-encode : (ts : List Tlv) → length ts ≤ length (encode ts)
unfolding encode
length-encode [] = omega arith
length-encode ((t, v) ∷ ts) = omega (arith, length-encode ts, length-append {0} v (encode ts))

valid_loop-encode : (ts : List Tlv) (k : ℕ) → length ts ≤ k → valid_loop k (encode ts) ≡ true
unfolding encode valid_loop
valid_loop-encode [] k h = refl
valid_loop-encode ((t, v) ∷ ts) zero h = absurd (omega arith)
valid_loop-encode ((t, v) ∷ ts) (suc k) h =
    let e = iter_next-encode t v (encode ts) in
    let ih = valid_loop-encode ts k (omega arith) in ground arith

find_loop-encode :
    (ts : List Tlv) (k tag : ℕ) → length ts ≤ k → find_loop k tag (encode ts) ≡ assoc tag ts
unfolding encode find_loop assoc
find_loop-encode [] zero tag h = refl
find_loop-encode [] (suc k) tag h = let e = iter_next-nil in ground arith
find_loop-encode ((t, v) ∷ ts) zero tag h = absurd (omega arith)
find_loop-encode ((t, v) ∷ ts) (suc k) tag h =
    let e = iter_next-encode t v (encode ts) in
    let ih = find_loop-encode ts k tag (omega arith) in ground arith

-- bwp_find in a body of TLVs gives the first value with the tag, or nothing where there is none.
pub find-encode : (ts : List Tlv) (tag : ℕ) → find (encode ts) tag ≡ assoc tag ts
unfolding find
find-encode ts tag = find_loop-encode ts (length (encode ts)) tag (length-encode ts)

Bytes-drop : (n : ℕ) (bs : Bytes) → All IsByte bs → All IsByte (drop n bs)
Bytes-drop zero bs h = h
Bytes-drop (suc n) [] h = tt
Bytes-drop (suc n) (b ∷ bs) (h, hs) = Bytes-drop n bs hs

-- A TLV that the iteration gives is written at the front.
iter_next-inv :
    (body : Bytes) (t : ℕ) (v rest : Bytes)
    → All IsByte body
    → iter_next body ≡ some (t, v, rest)
    → IsTlv (t, v)
      × All IsByte rest
      × (body ≡ t ∷ (length v / 256) ∷ (length v % 256) ∷ (v ++ rest))
unfolding iter_next
iter_next-inv (a ∷ h ∷ l ∷ more) t v rest (ba, (bh, (bl, bm))) e =
    let n = 256 * h + l in
    let fits : n ≤ length more = ground arith in
    let ea : a ≡ t = ground arith in
    let ev : take n more ≡ v = ground arith in
    let er : drop n more ≡ rest = ground arith in
    let len : length v ≡ n = ap length (sym ev) ∙ (length-take {0} n more ∙ omega arith) in
    let eh : length v / 256 ≡ h = omega arith in
    let el : length v % 256 ≡ l = omega arith in
    (
      omega arith,
      rw (← er) (Bytes-drop n more bm),
      rw (eh, el, ea, ← ev, ← er, take-append-drop n more) refl,
    )
iter_next-inv [] t v rest b e = absurd (cc)
iter_next-inv (a ∷ []) t v rest b e = absurd (cc)
iter_next-inv (a ∷ h ∷ []) t v rest b e = absurd (cc)

valid_loop-inv :
    (k : ℕ) (body : Bytes)
    → All IsByte body
    → valid_loop k body ≡ true
    → (ts : List Tlv) × All IsTlv ts × (body ≡ encode ts)
unfolding valid_loop encode
valid_loop-inv k [] b h = ([], tt, refl)
valid_loop-inv zero (c ∷ cs) b h = absurd (cc)
valid_loop-inv (suc k) (c ∷ cs) b h = elim (Option-cases (iter_next (c ∷ cs))) [
  | inl e ↦ absurd (ground arith)
  | inr ((t, v, rest), e) ↦
      let (small, br, split) = iter_next-inv (c ∷ cs) t v rest b e in
      let (ts, all, er) = valid_loop-inv k rest br (ground arith) in
      ((t, v) ∷ ts, (small, all), split ∙ rw er refl)
]

pub tlv_encode-valid : (ts : List Tlv) → tlv_valid (encode ts) ≡ true
unfolding tlv_valid
tlv_encode-valid ts = valid_loop-encode ts (length (encode ts)) (length-encode ts)

-- bwp_tlv_valid takes a body of bytes exactly when it is the encoding of some TLVs of up to 65535
-- bytes each.
pub tlv_valid_iff :
    (body : Bytes)
    → All IsByte body
    → (tlv_valid body ≡ true) ↔ ((ts : List Tlv) × All IsTlv ts × (body ≡ encode ts))
unfolding tlv_valid
tlv_valid_iff body b =
    (valid_loop-inv (length body) body b, λ (ts, all, e). rw e (tlv_encode-valid ts))
