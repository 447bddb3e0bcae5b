-- ===== src/Ota/End/Reads.antt =====
-- stm32h563/src/ota.c: the loop that reads a staged image back.
use mathlib.Core.Path.{subst}
use benchpod_firmware.Ota.{chunk_size}
use benchpod_firmware.Ota.End.{read_image}
use benchpod_firmware.Base.{
  ℕ, zero, suc, ◌+◌, ◌-◌, ◌≤◌, min, ◌≡◌, refl, sym, ap, ◌∙◌, inl, inr, Option, some, [], ◌∷◌, ◌++◌,
  arith, ltb, Bool-cases, length, take, drop, Bytes,
}

take-nil : (n : ℕ) → take {A = ℕ} n [] ≡ []
take-nil zero = refl
take-nil (suc n) = refl

drop-nil : (n : ℕ) → drop {A = ℕ} n [] ≡ []
drop-nil zero = refl
drop-nil (suc n) = refl

take-plus : (a b : ℕ) (m : Bytes) → take (a + b) m ≡ take a m ++ take b (drop a m)
take-plus zero b m = let z : 0 + b ≡ b = omega arith in ap (λ k. take k m) z
take-plus (suc a) b [] = take-nil (suc a + b) ∙ sym (take-nil b)
take-plus (suc a) b (x ∷ m) =
    let z : suc a + b ≡ suc (a + b) = omega arith in
    ap (λ k. take k (x ∷ m)) z ∙ ap (λ k. x ∷ k) (take-plus a b m)

drop-plus : (a b : ℕ) (m : Bytes) → drop a (drop b m) ≡ drop (b + a) m
drop-plus a zero m = let z : a ≡ 0 + a = omega arith in ap (λ k. drop k m) z
drop-plus a (suc b) [] = drop-nil a ∙ sym (drop-nil (suc b + a))
drop-plus a (suc b) (x ∷ m) =
    let z : suc (b + a) ≡ suc b + a = omega arith in drop-plus a b m ∙ ap (λ k. drop k (x ∷ m)) z

take-next :
    (a b off : ℕ) (m : Bytes)
    → take a (drop off m) ++ take b (drop (off + a) m) ≡ take (a + b) (drop off m)
take-next a b off m =
    ap (λ k. take a (drop off m) ++ take b k) (sym (drop-plus a off m))
    ∙ sym (take-plus a b (drop off m))

reads_from :
    (read : ℕ → ℕ → Option Bytes) (mem : Bytes) (size fuel off : ℕ)
    → ((off n : ℕ) → off + n ≤ length mem → read off n ≡ some (take n (drop off mem)))
    → size ≤ length mem
    → off ≤ size
    → size - off ≤ fuel
    → read_image read size fuel off ≡ some (take (size - off) (drop off mem))
unfolding read_image
reads_from read mem size zero off h le o f =
    let z : size - off ≡ 0 = omega arith in rw z (ground arith)
reads_from read mem size (suc fuel) off h le o f =
    let n = min (size - off) chunk_size in
    elim (Bool-cases (ltb off size)) [
      | inl e ↦
          let now = h off n (omega arith) in
          let later = reads_from read mem size fuel (off + n) h le (omega arith) (grind arith) in
          let split : n + (size - (off + n)) ≡ size - off = omega arith in
          rw (e, read_image, now, later)
            (ap some
              (take-next n (size - (off + n)) off mem ∙ ap (λ k. take k (drop off mem)) split))
      | inr e ↦ let z : size - off ≡ 0 = ground arith in rw (e, z) refl
    ]

-- The loop reads the staged image and no more: where psram_read gives what the memory holds (`mem`,
-- that the image lies in), it ends within a round for each byte and has read the first `size` bytes.
pub read_image-whole :
    (read : ℕ → ℕ → Option Bytes) (mem : Bytes) (size : ℕ)
    → ((off n : ℕ) → off + n ≤ length mem → read off n ≡ some (take n (drop off mem)))
    → size ≤ length mem
    → read_image read size size 0 ≡ some (take size mem)
read_image-whole read mem size h le =
    let all : size - 0 ≡ size = omega arith in
    subst (λ k. read_image read size size 0 ≡ some (take k mem)) all
      (reads_from read mem size size 0 h le (omega arith) (omega arith))
