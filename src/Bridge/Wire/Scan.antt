-- ===== src/Bridge/Wire/Scan.antt =====
-- The loop of bwp_verify over a body of TLVs, and the parts of a signed body.
use benchpod_firmware.Base.{
  take-append, ℕ, zero, suc, ◌+◌, ◌/◌, ◌%◌, ◌^◌, ◌≤◌, ◌<◌, ◌≡◌, refl, sym, ap, ◌∙◌, inl, inr, Bool,
  true, false, not, ◌&&◌, ◌||◌, Option, none, some, List, [], ◌∷◌, ◌++◌, arith, ◌==◌, if◌then◌else◌,
  Bool-cases, length, take, drop, length-append, Bytes,
}
use mathlib.Core.List.{append-nil, append_assoc}
use benchpod_firmware.Bridge.Wire.{
  be32, auth_loop, auth_len, tag_auth, tag_counter, get_u32, get_be32, is_some,
}
use benchpod_firmware.Bridge.Wire.Tlv.{
  Tlv, encode, assoc, iter_next-encode, iter_next-nil, length-encode, find-encode,
}
use benchpod_firmware.Bridge.Wire.Frame.{Ends, header}

-- What the loop of bwp_verify finds in a body of TLVs.
pub auth_scan : ℕ → List Tlv → Option (ℕ × Bytes) → Bool → Option (ℕ × Bytes) × Bool
auth_scan off [] auth bad = (auth, bad)
auth_scan off ((t, v) ∷ ts) auth bad =
    auth_scan (off + 3 + length v) ts (if t == tag_auth then some (off, v) else auth)
      (bad || is_some auth || (t == tag_auth && not (length v == auth_len)))

auth_loop-encode :
    (ts : List Tlv) (k off : ℕ) (auth : Option (ℕ × Bytes)) (bad : Bool)
    → length ts ≤ k
    → auth_loop k off (encode ts) auth bad ≡ auth_scan off ts auth bad
unfolding encode auth_loop auth_scan
auth_loop-encode [] zero off auth bad h = refl
auth_loop-encode [] (suc k) off auth bad h = let e = iter_next-nil in ground arith
auth_loop-encode ((t, v) ∷ ts) zero off auth bad h = absurd (omega arith)
auth_loop-encode ((t, v) ∷ ts) (suc k) off auth bad h =
    rw (auth_loop, iter_next-encode t v (encode ts))
      (auth_loop-encode ts k (off + 3 + length v) (if t == tag_auth then some (off, v) else auth)
        (bad || is_some auth || (t == tag_auth && not (length v == auth_len))) (omega arith))

scan-bad :
    (ts : List Tlv) (off : ℕ) (auth : Option (ℕ × Bytes)) → (auth_scan off ts auth true).1 ≡ true
unfolding auth_scan
scan-bad [] off auth = refl
scan-bad ((t, v) ∷ ts) off auth =
    scan-bad ts (off + 3 + length v) (if t == tag_auth then some (off, v) else auth)

-- Once an AUTH is seen, only the end of the body may follow.
scan-seen :
    (ts : List Tlv) (off : ℕ) (a b : ℕ × Bytes)
    → auth_scan off ts (some a) false ≡ (some b, false)
    → (ts ≡ []) × (a ≡ b)
unfolding auth_scan
scan-seen [] off a b h = (refl, ground arith)
scan-seen ((t, v) ∷ ts) off a b h =
    let bad = scan-bad ts (off + 3 + length v) (if t == tag_auth then some (off, v) else some a) in
    let c : false ≡ true = sym (ap (λ r. r.1) h) ∙ bad in absurd (cc)

pub scan-inv :
    (ts : List Tlv) (off : ℕ) (o : ℕ) (v : Bytes)
    → auth_scan off ts none false ≡ (some (o, v), false)
    → (init : List Tlv) × (ts ≡ init ++ ((tag_auth, v) ∷ []))
      × (assoc tag_auth init ≡ none)
      × (length v ≡ auth_len)
      × (o ≡ off + length (encode init))
unfolding auth_scan assoc encode
scan-inv [] off o v h = absurd (cc)
scan-inv ((t, u) ∷ ts) off o v h = elim (Bool-cases (t == tag_auth)) [
  | inl e ↦ elim (Bool-cases (length u == auth_len)) [
    | inl l ↦
        let s : auth_scan (off + 3 + length u) ts (some (off, u)) false ≡ (some (o, v), false) =
          rw (← h, e, l) refl in
        let (z, p) = scan-seen ts (off + 3 + length u) (off, u) (o, v) s in
        let pv : u ≡ v = ap (λ r. r.1) p in
        let po : off ≡ o = ap (λ r. r.0) p in
        let et : t ≡ tag_auth = ground arith in
        ([], rw (z, et, pv) refl, refl, rw (← pv) (ground arith), omega arith)
    | inr l ↦
        let s : auth_scan (off + 3 + length u) ts (some (off, u)) true ≡ (some (o, v), false) =
          rw (← h, e, l) refl in
        let b = scan-bad ts (off + 3 + length u) (some (off, u)) in absurd (cc)
  ]
  | inr e ↦
      let s : auth_scan (off + 3 + length u) ts none false ≡ (some (o, v), false) =
        rw (← h, e) refl in
      let (init, es, a, l, eo) = scan-inv ts (off + 3 + length u) o v s in
      ((t, u) ∷ init, rw es refl, rw e a, l, omega (arith, length-append {0} u (encode init)))
]

pub scan-snoc :
    (ts : List Tlv) (off : ℕ) (v : Bytes)
    → assoc tag_auth ts ≡ none
    → length v ≡ auth_len
    → auth_scan off (ts ++ ((tag_auth, v) ∷ [])) none false
      ≡ (some (off + length (encode ts), v), false)
unfolding auth_scan assoc encode
scan-snoc [] off v a l = rw l (ground arith)
scan-snoc ((t, u) ∷ ts) off v a l = elim (Bool-cases (t == tag_auth)) [
  | inl e ↦ absurd (ground arith)
  | inr e ↦
      let ih = scan-snoc ts (off + 3 + length u) v (ground arith) l in
      let n = length-append {0} u (encode ts) in
      let o : off + 3 + length u + length (encode ts) ≡ off + length (encode ((t, u) ∷ ts)) =
        omega arith in
      rw (auth_scan, e) (ih ∙ ap (λ x. (some (x, v), false)) o)
]

pub loop-scan :
    (ts : List Tlv)
    → auth_loop (length (encode ts)) 0 (encode ts) none false ≡ auth_scan 0 ts none false
loop-scan ts = auth_loop-encode ts (length (encode ts)) 0 none false (length-encode ts)

pub encode-append : (ts us : List Tlv) → encode (ts ++ us) ≡ encode ts ++ encode us
unfolding encode
encode-append [] us = refl
encode-append ((t, v) ∷ ts) us = rw (encode-append ts us) (
    ap (λ b. t ∷ (length v / 256) ∷ (length v % 256) ∷ b)
      (sym (append_assoc v (encode ts) (encode us))))

-- A tag that the first TLVs do not have is looked for in the others.
pub assoc-append :
    (tag : ℕ) (ts us : List Tlv) → assoc tag ts ≡ none → assoc tag (ts ++ us) ≡ assoc tag us
unfolding assoc
assoc-append tag [] us h = refl
assoc-append tag ((t, v) ∷ ts) us h =
    let ih = assoc-append tag ts us in
    elim (Bool-cases (t == tag)) [
      | inl e ↦ absurd (ground arith)
      | inr e ↦ rw (assoc, e) (ih (ground arith))
    ]

get_be32-be32 : (n : ℕ) → n < 2 ^ 32 → get_be32 (be32 n) ≡ some n
unfolding get_be32
get_be32-be32 n h = ap some (omega arith)

-- The counter that a signed body holds.
pub get-counter :
    (ts us : List Tlv) (counter : ℕ)
    → counter < 2 ^ 32
    → assoc tag_counter ts ≡ none
    → get_u32 (encode (ts ++ ((tag_counter, be32 counter) ∷ us))) tag_counter ≡ some counter
unfolding get_u32 assoc
get-counter ts us counter h a =
    let f = find-encode (ts ++ ((tag_counter, be32 counter) ∷ us)) tag_counter in
    let g = assoc-append tag_counter ts ((tag_counter, be32 counter) ∷ us) a in
    let r = get_be32-be32 counter h in ground arith

-- What bwp_verify takes from the frame: the header and the TLVs before the last ones.
pub covered_lem :
    (e : Ends) (type seq n : ℕ) (init last : List Tlv) (pad : Bytes)
    → take
        (8 + length (encode init))
        (drop 14 (header e type seq n ++ (encode (init ++ last) ++ pad)))
      ≡ drop 14 (header e type seq n ++ encode init)
covered_lem e type seq n init last pad =
    let from = drop 14 (header e type seq n ++ encode init) in
    let k : 8 + length (encode init) ≡ length from = omega arith in
    rw (encode-append init last, append_assoc (encode init) (encode last) pad, k)
      (take-append from (encode last ++ pad))

pub length-tail :
    (counter : ℕ) (mac : Bytes)
    → length mac ≡ 16
    → length (encode ((tag_counter, be32 counter) ∷ (tag_auth, mac) ∷ [])) ≡ 26
unfolding encode
length-tail counter mac l = rw (append-nil mac, l) refl
