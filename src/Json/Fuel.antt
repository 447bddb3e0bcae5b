-- ===== src/Json/Fuel.antt =====
-- bp_json.c: more fuel than the length of the text changes nothing in the outermost-member scan.
use benchpod_firmware.Json.{skip_ws}
use benchpod_firmware.Json.Top.{
  skip_string, skip_nested, skip_scalar, skip_value, read_key, value_of, behind, find_member,
  find_key_top,
}
use benchpod_firmware.Base.{
  head_or_nul, tail_or_nil, ℕ, zero, suc, ◌+◌, ◌-◌, ◌≤◌, ◌<◌, ◌≡◌, refl, sym, ap, ◌∙◌, ◌≢◌, inl,
  inr, Bool, true, false, Option, none, some, [], ◌∷◌, arith, ◌==◌, if◌then◌else◌, Bool-cases,
  Option-cases, length, Bytes, str_eq,
}

pub length-skip_ws : (p : Bytes) → length (skip_ws p) ≤ length p
unfolding skip_ws
length-skip_ws [] = omega arith
length-skip_ws (c ∷ p) = ground (arith, length-skip_ws p)

length-tail_or_nil : (p : Bytes) → length (tail_or_nil p) ≤ length p
length-tail_or_nil [] = omega arith
length-tail_or_nil (c ∷ p) = omega arith

-- Behind a byte that is not the NUL there is less.
pub tail_or_nil-lt :
    (c : ℕ) (p : Bytes) → (head_or_nul p == c) ≡ true → c ≢ 0 → length (tail_or_nil p) < length p
tail_or_nil-lt c [] h n = ground arith
tail_or_nil-lt c (d ∷ p) h n = omega arith

pub length-read_key : (p : Bytes) → length (read_key p).1 ≤ length p
unfolding read_key
length-read_key [] = omega arith
length-read_key (c ∷ []) = ground arith
length-read_key (c ∷ d ∷ p) = ground (arith, length-read_key p, length-read_key (d ∷ p))

-- What is left of a text is no longer than it.
abbrev pub Shorter : Option Bytes → Bytes → Type 0
Shorter o p = (r : Bytes) → o ≡ some r → length r ≤ length p

skip_string-Shorter : (p : Bytes) → Shorter (skip_string p) p
unfolding skip_string
skip_string-Shorter [] r h = cc
skip_string-Shorter (c ∷ []) r h = ground arith
skip_string-Shorter (c ∷ d ∷ p) r h =
    ground (arith, skip_string-Shorter p r, skip_string-Shorter (d ∷ p) r)

skip_nested-Shorter :
    (n : ℕ) (in_str esc : Bool) (p : Bytes) → Shorter (skip_nested n in_str esc p) p
unfolding skip_nested
skip_nested-Shorter n in_str esc [] r h = cc
skip_nested-Shorter n in_str esc (c ∷ p) r h = ground (
  arith,
  skip_nested-Shorter n in_str false p r,
  skip_nested-Shorter n in_str true p r,
  skip_nested-Shorter n false false p r,
  skip_nested-Shorter n true false p r,
  skip_nested-Shorter (n + 1) false false p r,
  skip_nested-Shorter (n - 1) false false p r,
)

length-skip_scalar : (p : Bytes) → length (skip_scalar p) ≤ length p
unfolding skip_scalar
length-skip_scalar [] = omega arith
length-skip_scalar (c ∷ p) = ground (arith, length-skip_scalar p)

pub skip_value-Shorter : (p : Bytes) → Shorter (skip_value p) p
unfolding skip_value
skip_value-Shorter p r h = ground (
  arith,
  skip_string-Shorter (tail_or_nil p) r,
  skip_nested-Shorter 0 false false p r,
  length-skip_scalar p,
  length-tail_or_nil p,
)

pub value_of-Shorter : (p : Bytes) → Shorter (value_of p) p
unfolding value_of
value_of-Shorter p r h =
    let q = skip_ws (tail_or_nil p) in
    ground (
      arith,
      length-tail_or_nil p,
      length-skip_ws (tail_or_nil p),
      length-tail_or_nil q,
      length-skip_ws (tail_or_nil q),
    )

pub behind-some :
    (next : Bytes → Option Bytes) (v r : Bytes)
    → skip_value v ≡ some r
    → behind next (some v) ≡ next r
unfolding behind
behind-some next v r e = ground (arith, e)

pub behind-none :
    (next : Bytes → Option Bytes) (v : Bytes) → skip_value v ≡ none → behind next (some v) ≡ none
unfolding behind
behind-none next v e = ground (arith, e)

behind-agree :
    (next next' : Bytes → Option Bytes) (at : Option Bytes) (n : ℕ)
    → ((v : Bytes) → at ≡ some v → length v ≤ n)
    → ((r : Bytes) → length r ≤ n → next r ≡ next' r)
    → behind next at ≡ behind next' at
unfolding behind
behind-agree next next' none n short same = refl
behind-agree next next' (some v) n short same = elim (Option-cases (skip_value v)) [
  | inl e ↦ behind-none next v e ∙ sym (behind-none next' v e)
  | inr (r, e) ↦
      behind-some next v r e
      ∙ (same r (omega (arith, skip_value-Shorter v r e, short v refl))
          ∙ sym (behind-some next' v r e))
]

-- Once the fuel exceeds the text's length, more of it changes nothing: the scan ended by itself.
pub find_member-enough :
    (f g : ℕ) (p key : Bytes)
    → length p < f
    → length p < g
    → find_member f p key ≡ find_member g p key
unfolding find_member
find_member-enough zero g p key h k = elim h [ ]
find_member-enough (suc f) zero p key h k = elim k [ ]
find_member-enough (suc f) (suc g) p key h k =
    let q = skip_ws p in
    let at = value_of (read_key (tail_or_nil q)).1 in
    let short = length-skip_ws p in
    let next = λ (r : Bytes). find_member f r key in
    let next' = λ (r : Bytes). find_member g r key in
    elim (Bool-cases (head_or_nul q == b',')) [
      | inl c ↦
          let less = tail_or_nil-lt b',' q c (omega arith) in
          rw c (find_member-enough f g (tail_or_nil q) key (omega arith) (omega arith))
      | inr c ↦ elim (Bool-cases (head_or_nul q == b'"')) [
        | inr d ↦ rw (c, d) refl
        | inl d ↦
            let less = tail_or_nil-lt b'"' q d (omega arith) in
            rw (c, d)
              (ap
                (λ (later : Option Bytes).
                  if str_eq (read_key (tail_or_nil q)).0 key then at else later)
                (behind-agree next next' at (length (tail_or_nil q))
                  (λ v e. omega (
                    arith,
                    value_of-Shorter (read_key (tail_or_nil q)).1 v e,
                    length-read_key (tail_or_nil q),
                  ))
                  (λ r le. find_member-enough f g r key (omega arith) (omega arith))))
      ]
    ]

-- The fuel of find_key_top, the length of the text, is enough.
pub find_key_top-enough :
    (json key : Bytes) (f : ℕ)
    → length json ≤ f
    → find_key_top json key ≡ (
        if head_or_nul (skip_ws json) == b'{'
        then find_member f (tail_or_nil (skip_ws json)) key
        else none)
unfolding find_key_top
find_key_top-enough json key f h =
    let p = skip_ws json in
    let short = length-skip_ws json in
    elim (Bool-cases (head_or_nul p == b'{')) [
      | inr c ↦ rw c refl
      | inl c ↦
          let less = tail_or_nil-lt b'{' p c (omega arith) in
          rw c (find_member-enough (length json) f (tail_or_nil p) key (omega arith) (omega arith))
    ]
