-- ===== src/Store/Commit.antt =====
-- A loss of power while a record is written, at any point before its header is programmed.
use benchpod_firmware.Base.{
  ℕ, zero, suc, ◌+◌, ◌-◌, ◌*◌, ◌≤◌, ◌<◌, min, ◌≡◌, refl, ap, ◌∙◌, ◌⊎◌, inl, inr, Bool, none, some,
  List, ◌∷◌, arith, ltb, Bool-cases, Option-cases, length, drop, All, length-take, length-drop,
  Bytes,
}
use benchpod_firmware.Store.{
  le32, chunks, hdr_of, hdr_len, crc32, slot_payload, slot_read, slot_off, pages, read_loop,
  store_max, perform, read_checked, Op, erase_at, program_at, Flash, Chip, Store,
}

-- The bytes that an operation may touch.
abbrev pub op_lo : Op → ℕ
op_lo (erase_at off) = off
op_lo (program_at off bs) = off

abbrev pub op_hi : Op → ℕ
op_hi (erase_at off) = off + 8192
op_hi (program_at off bs) = off + length bs

abbrev pub Outside : ℕ → ℕ → ℕ → Type 0
Outside lo hi i = (i < lo) ⊎ (hi ≤ i)

-- What the store relies on: an operation leaves the rest of the flash alone, and an erase leaves
-- its sector blank.
pub record IsChip (c : Chip) : Type 0 where
  pub local : (o : Op) (f : Flash) (i : ℕ) → Outside (op_lo o) (op_hi o) i → perform c o f i ≡ f i
  pub blanks : (off : ℕ) (f : Flash) (i : ℕ) → off ≤ i → i < off + 8192 → c.erase off f i ≡ some 255

-- The first quad-word of a sector, when the power went off in its erase: as it was, blank, or
-- failing its ECC. Nothing is said of the others.
abbrev pub Quad : Flash → Flash → ℕ → Type 0
Quad g f off =
    ((k : ℕ) → k < 16 → g (off + k) ≡ f (off + k))
    ⊎ (((k : ℕ) → k < 16 → g (off + k) ≡ some 255) ⊎ (g off ≡ none))

-- The power goes off within an operation.
pub record Torn (o : Op) (f g : Flash) : Type 0 where
  pub elsewhere : (i : ℕ) → Outside (op_lo o) (op_hi o) i → g i ≡ f i
  pub first_quad : Quad g f (op_lo o)

-- The power goes off before, within or between the operations.
pub data Cut (c : Chip) (g : Flash) : List Op → Flash → Type 0 where
  off_now : (os : List Op) (f : Flash) → g ≡ f → Cut c g os f
  off_within : (o : Op) (os : List Op) (f : Flash) → Torn o f g → Cut c g (o ∷ os) f
  off_later : (o : Op) (os : List Op) (f : Flash) → Cut c g os (perform c o f) → Cut c g (o ∷ os) f

abbrev pub Within : ℕ → ℕ → Op → Type 0
Within lo hi o = (lo ≤ op_lo o) × (op_hi o ≤ hi)

pub Cut-elsewhere :
    (c : Chip) (g : Flash) (os : List Op) (f : Flash) (lo hi : ℕ)
    → IsChip c
    → Cut c g os f
    → All (Within lo hi) os
    → (i : ℕ) → Outside lo hi i
    → g i ≡ f i
Cut-elsewhere c g os f lo hi v (off_now _ _ e) w i out = ap (λ (h : Flash). h i) e
Cut-elsewhere c g _ f lo hi v (off_within o os _ t) (w, ws) i out =
    t.elsewhere i (omega (arith, w.0, w.1, out))
Cut-elsewhere c g _ f lo hi v (off_later o os _ k) (w, ws) i out =
    Cut-elsewhere c g os (perform c o f) lo hi v k ws i out
    ∙ v.local o f i (omega (arith, w.0, w.1, out))

pub pages-Within :
    (k lo off hi : ℕ) (body : Bytes)
    → lo ≤ off
    → 256 * k < length body + 256
    → off + length body ≤ hi
    → All (Within lo hi) (pages k off body)
unfolding pages
pages-Within zero lo off hi body a l h = tt
pages-Within (suc zero) lo off hi body a l h = (omega (arith, length-take {0} 256 body), tt)
pages-Within (suc (suc k)) lo off hi body a l h = (
  omega (arith, length-take {0} 256 body),
  pages-Within (suc k) lo (off + 256) hi (drop 256 body) (omega arith)
      (omega (arith, length-drop {0} 256 body)) (omega (arith, length-drop {0} 256 body)),
)

pub read-agree :
    (n off : ℕ) (f g : Flash)
    → ((i : ℕ) → off ≤ i → i < off + n → g i ≡ f i)
    → read_checked off n g ≡ read_checked off n f
unfolding read_checked
read-agree zero off f g h = refl
read-agree (suc n) off f g h =
    rw
      (
        h off (omega arith) (omega arith),
        read-agree n (off + 1) f g (λ i a b. h i (omega arith) (omega arith)),
      )
      refl

read_loop-agree :
    (k off left crc : ℕ) (f g : Flash)
    → 32 * k < left + 32
    → ((i : ℕ) → off ≤ i → i < off + left → g i ≡ f i)
    → read_loop k off left crc g ≡ read_loop k off left crc f
unfolding read_loop
read_loop-agree zero off left crc f g l h = refl
read_loop-agree (suc k) off left crc f g l h =
    let e = read-agree (min 32 left) off f g (λ i a b. h i a (omega arith)) in
    elim (Option-cases (read_checked off (min 32 left) f)) [
      | inl n ↦ ground arith
      | inr (buf, n) ↦
          let ih =
            read_loop-agree k (off + 32) (left - 32) (crc32 crc buf) f g (omega arith)
              (λ i a b. h i (omega arith) (omega arith)) in
          ground arith
    ]

pub slot_read-agree :
    (s : Store) (i : Bool) (f g : Flash)
    → store_max s + 16 ≤ 8192
    → ((j : ℕ) → slot_off s i ≤ j → j < slot_off s i + 8192 → g j ≡ f j)
    → slot_read s i g ≡ slot_read s i f
unfolding slot_read slot_payload
slot_read-agree s i f g m h =
    let off = slot_off s i in
    let e = read-agree 16 off f g (λ j a b. h j a (omega arith)) in
    elim (Option-cases (read_checked off 16 f)) [
      | inl n ↦ ground arith
      | inr (p, n) ↦ elim (Bool-cases (ltb (store_max s) (hdr_len (hdr_of p)))) [
        | inl big ↦ ground arith
        | inr fits ↦
            let body =
              read_loop-agree (chunks (hdr_len (hdr_of p))) (off + 16) (hdr_len (hdr_of p))
                (crc32 (crc32 0 (le32 (hdr_of p).seq)) (le32 (hdr_of p).ver_len)) f g (omega arith)
                (λ j a b. h j (omega arith) (ground arith)) in
            ground arith
      ]
    ]
