-- ===== src/WsFrame/Client.antt =====
-- What the server reads of a frame that the pod built.
use mathlib.Core.List.{append_assoc}
use benchpod_firmware.Base.{
  Bool, take-append, drop-append, holds_below, holds_below-at, ==_iff, ℕ, zero, suc, ◌+◌, ◌*◌, ◌/◌,
  ◌%◌, ◌≤◌, ◌<◌, bit_xor, ◌≡◌, refl, ap, ◌∙◌, inl, inr, true, not, ◌||◌, Option, none, some, [],
  ◌∷◌, ◌++◌, arith, ltb, ◌==◌, if◌then◌else◌, Bool-cases, length, take, drop, get_or, All,
  length-append, Bytes,
}
use benchpod_firmware.WsFrame.{mask_from, build_frame, build_length}

abbrev pub IsByte : ℕ → Type 0
IsByte b = b < 256

-- The reader of a masked frame, after RFC 6455, section 5.2: the payload's bytes are those received
-- exclusive-or the key's, taken in turn.
unfoldable pub unmask : ℕ → ℕ → ℕ → ℕ → Bytes → Bytes
unmask k0 k1 k2 k3 [] = []
unmask k0 k1 k2 k3 (c ∷ cs) = bit_xor c k0 ∷ unmask k1 k2 k3 k0 cs

unfoldable pub keyed : ℕ → ℕ → Bytes → Option (ℕ × Bytes × Bytes)
keyed opcode n (k0 ∷ k1 ∷ k2 ∷ k3 ∷ body) =
    if ltb (length body) n
    then none
    else some (opcode, unmask k0 k1 k2 k3 (take n body), drop n body)
keyed opcode n _ = none

unfoldable pub lengthy : ℕ → Bytes → Option (ℕ × Bytes × Bytes)
lengthy opcode (h ∷ l ∷ rest) = keyed opcode (256 * h + l) rest
lengthy opcode _ = none

-- The opcode, the payload and what follows the frame.
unfoldable pub server_read : Bytes → Option (ℕ × Bytes × Bytes)
server_read (b0 ∷ b1 ∷ rest) =
    if ltb b0 128 || not (ltb b0 144) || ltb b1 128
    then none
    else if b1 == 254
    then lengthy (b0 % 128) rest
    else keyed (b0 % 128) (b1 % 128) rest
server_read _ = none

-- Masking a byte twice with one byte of the key, checked over all pairs.
unmasks : ℕ → ℕ → Bool
unmasks k c = bit_xor (bit_xor c k) k == c

unmasks_all : holds_below (λ k. holds_below (unmasks k) 256) 256 ≡ true
unfolding holds_below unmasks
unmasks_all = refl

xor_twice : (c k : ℕ) → IsByte c → IsByte k → bit_xor (bit_xor c k) k ≡ c
unfolding unmasks
xor_twice c k hc hk =
    let row = holds_below-at (λ k'. holds_below (unmasks k') 256) k 256 hk unmasks_all in
    (==_iff (bit_xor (bit_xor c k) k) c).0 (holds_below-at (unmasks k) c 256 hc row)

module _ (k0 k1 k2 k3 : ℕ) (b0 : IsByte k0) (b1 : IsByte k1) (b2 : IsByte k2) (b3 : IsByte k3) where
  abbrev key : Bytes
  key = k0 ∷ k1 ∷ k2 ∷ k3 ∷ []

  abbrev at : ℕ → ℕ
  at i = get_or key (i % 4) 0

  at-IsByte : (i : ℕ) → i < 4 → IsByte (get_or key i 0)
  at-IsByte zero h = b0
  at-IsByte (suc zero) h = b1
  at-IsByte (suc (suc zero)) h = b2
  at-IsByte (suc (suc (suc zero))) h = b3
  at-IsByte (suc (suc (suc (suc i)))) h = absurd (omega arith)

  unmask-mask_from :
      (i : ℕ) (cs : Bytes)
      → All IsByte cs
      → unmask (at i) (at (i + 1)) (at (i + 2)) (at (i + 3)) (mask_from i key cs) ≡ cs
  unfolding unmask mask_from
  unmask-mask_from i [] h = refl
  unmask-mask_from i (c ∷ cs) (h, hs) =
      let ih = unmask-mask_from (i + 1) cs hs in
      let e1 : (i + 1 + 1) % 4 ≡ (i + 2) % 4 = omega arith in
      let e2 : (i + 1 + 2) % 4 ≡ (i + 3) % 4 = omega arith in
      let e3 : (i + 1 + 3) % 4 ≡ i % 4 = omega arith in
      rw (xor_twice c (at i) h (at-IsByte (i % 4) (omega arith)))
        (ap (λ (l : Bytes). c ∷ l) (rw (e1, e2, e3) at ih))

  length-mask_from : (i : ℕ) (cs : Bytes) → length (mask_from i key cs) ≡ length cs
  unfolding mask_from
  length-mask_from i [] = refl
  length-mask_from i (c ∷ cs) = ap suc (length-mask_from (i + 1) cs)

  keyed-mask_from :
      (opcode : ℕ) (payload rest : Bytes)
      → All IsByte payload
      → keyed opcode (length payload) (key ++ (mask_from 0 key payload ++ rest))
        ≡ some (opcode, payload, rest)
  unfolding keyed
  keyed-mask_from opcode payload rest hs =
      let m = mask_from 0 key payload in
      let n = length-mask_from 0 payload in
      let t : take (length payload) (m ++ rest) ≡ m = rw (← n) (take-append m rest) in
      let d : drop (length payload) (m ++ rest) ≡ rest = rw (← n) (drop-append m rest) in
      let u : unmask k0 k1 k2 k3 m ≡ payload = unmask-mask_from 0 payload hs in
      rw (t, d) (ground (arith, length-append {0} m rest))

  -- The header of a built frame, in front of the key and the masked payload.
  server_read-header :
      (opcode n : ℕ) (body : Bytes)
      → n ≤ 0xFFFF
      → server_read ((128 + opcode % 16) ∷ (build_length n ++ body)) ≡ keyed (opcode % 16) n body
  unfolding server_read build_length lengthy
  server_read-header opcode n body l = elim (Bool-cases (ltb n 126)) [
    | inl s ↦
        let e : (128 + n) % 128 ≡ n = ground arith in
        let o : (128 + opcode % 16) % 128 ≡ opcode % 16 = omega arith in rw s (ground arith)
    | inr s ↦
        let e : 256 * (n / 256) + n % 256 ≡ n = omega arith in
        let o : (128 + opcode % 16) % 128 ≡ opcode % 16 = omega arith in rw s (ground arith)
  ]

  read-written :
      (opcode : ℕ) (payload rest : Bytes)
      → All IsByte payload
      → length payload ≤ 0xFFFF
      → server_read (
          (128 + opcode % 16) ∷ (build_length (length payload) ++ (key ++ mask_from 0 key payload))
          ++ rest)
        ≡ some (opcode % 16, payload, rest)
  read-written opcode payload rest hs l =
      rw (append_assoc (build_length (length payload)) (key ++ mask_from 0 key payload) rest) (
        server_read-header opcode (length payload) _ l
        ∙ keyed-mask_from (opcode % 16) payload rest hs)

  -- A payload of up to 65535 bytes that fits the buffer is built into a frame that the server reads
  -- as it was meant, whatever follows it: the opcode's four bits, the payload, the rest of the
  -- stream.
  pub server_read-build_frame :
      (opcode : ℕ) (payload rest : Bytes) (out_cap : ℕ)
      → All IsByte payload
      → length payload ≤ 0xFFFF
      → (if ltb (length payload) 126 then 6 else 8) + length payload ≤ out_cap
      → (f : Bytes) × (build_frame opcode payload key out_cap ≡ some f)
        × (server_read (f ++ rest) ≡ some (opcode % 16, payload, rest))
  unfolding build_frame
  server_read-build_frame opcode payload rest out_cap hs l c =
      let n = length payload in
      let m = mask_from 0 key payload in
      (
        (128 + opcode % 16) ∷ (build_length n ++ (key ++ m)),
        ground arith,
        read-written opcode payload rest hs l,
      )
