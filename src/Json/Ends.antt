-- ===== src/Json/Ends.antt =====
-- bp_json.c: the runs of the loop of find_key_top, with no bound on their rounds.
use benchpod_firmware.Json.{skip_ws}
use benchpod_firmware.Json.Top.{skip_value, read_key, value_of, behind, find_member, find_key_top}
use benchpod_firmware.Json.Fuel.{
  behind-some, behind-none, length-skip_ws, length-read_key, tail_or_nil-lt, value_of-Shorter,
  skip_value-Shorter,
}
use benchpod_firmware.Base.{
  head_or_nul, tail_or_nil, ℕ, zero, suc, ◌<◌, ◌≡◌, refl, ◌≢◌, ◌⊎◌, inl, inr, Option, none, some,
  arith, ◌==◌, Bool-cases, Option-cases, length, Bytes, str_eq, str_eq_iff,
}

-- The closing quote of a key, `q` being at its opening one, and the key's text.
abbrev key_end : Bytes → Bytes
key_end q = (read_key (tail_or_nil q)).1

abbrev key_text : Bytes → Bytes
key_text q = (read_key (tail_or_nil q)).0

-- A run of the loop from `p` on that returns: each constructor is a round, the last one's returns.
pub data Ends (key : Bytes) : Bytes → Option Bytes → Type 0 where
  comma :
      (p : Bytes) (o : Option Bytes)
      → head_or_nul (skip_ws p) ≡ b','
      → Ends key (tail_or_nil (skip_ws p)) o
      → Ends key p o
  no_key :
      (p : Bytes)
      → head_or_nul (skip_ws p) ≢ b','
      → head_or_nul (skip_ws p) ≢ b'"'
      → Ends key p none
  no_value :
      (p : Bytes)
      → head_or_nul (skip_ws p) ≡ b'"'
      → value_of (key_end (skip_ws p)) ≡ none
      → Ends key p none
  found :
      (p v : Bytes)
      → head_or_nul (skip_ws p) ≡ b'"'
      → value_of (key_end (skip_ws p)) ≡ some v
      → key_text (skip_ws p) ≡ key
      → Ends key p (some v)
  cut_off :
      (p v : Bytes)
      → head_or_nul (skip_ws p) ≡ b'"'
      → value_of (key_end (skip_ws p)) ≡ some v
      → key_text (skip_ws p) ≢ key
      → skip_value v ≡ none
      → Ends key p none
  other :
      (p v r : Bytes) (o : Option Bytes)
      → head_or_nul (skip_ws p) ≡ b'"'
      → value_of (key_end (skip_ws p)) ≡ some v
      → key_text (skip_ws p) ≢ key
      → skip_value v ≡ some r
      → Ends key r o
      → Ends key p o

find_member-Ends : (f : ℕ) (p key : Bytes) → length p < f → Ends key p (find_member f p key)
unfolding find_member behind
find_member-Ends zero p key h = elim h [ ]
find_member-Ends (suc f) p key h =
    let q = skip_ws p in
    let short = length-skip_ws p in
    let at = value_of (key_end q) in
    let next = λ (r : Bytes). find_member f r key in
    elim (Bool-cases (head_or_nul q == b',')) [
      | inl c ↦
          let less = tail_or_nil-lt b',' q c (omega arith) in
          rw c (comma p _ (ground arith) (find_member-Ends f (tail_or_nil q) key (omega arith)))
      | inr c ↦ elim (Bool-cases (head_or_nul q == b'"')) [
        | inr d ↦ rw (c, d) (no_key p (ground arith) (ground arith))
        | inl d ↦
            let quote : head_or_nul q ≡ b'"' = ground arith in
            let less = tail_or_nil-lt b'"' q d (omega arith) in
            elim (Option-cases at) [
              | inl v ↦ elim (Bool-cases (str_eq (key_text q) key)) [
                | inl same ↦ rw (c, d, same, v) (no_value p quote v)
                | inr differs ↦ rw (c, d, differs, v, behind) (no_value p quote v)
              ]
              | inr (v, e) ↦ elim (Bool-cases (str_eq (key_text q) key)) [
                | inl same ↦
                    rw (c, d, same, e) (found p v quote e ((str_eq_iff (key_text q) key).0 same))
                | inr differs ↦
                    let differ : key_text q ≢ key =
                      λ k. cc (differs, (str_eq_iff (key_text q) key).1 k) in
                    elim (Option-cases (skip_value v)) [
                      | inl s ↦
                          rw (c, d, differs, e, behind-none next v s) (cut_off p v quote e differ s)
                      | inr (r, s) ↦
                          let le1 = value_of-Shorter (key_end q) v e in
                          let le2 = length-read_key (tail_or_nil q) in
                          let le3 = skip_value-Shorter v r s in
                          rw (c, d, differs, e, behind-some next v r s)
                            (other p v r _ quote e differ s
                              (find_member-Ends f r key (omega arith)))
                    ]
              ]
            ]
      ]
    ]

-- The scan of find_key_top returns on any text: a text that does not open an object has no member,
-- and in an object its loop has a run that returns what find_key_top does, each round as the code
-- goes on.
pub find_key_top-Ends :
    (json key : Bytes)
    → ((head_or_nul (skip_ws json) ≢ b'{') × (find_key_top json key ≡ none))
      ⊎ ((head_or_nul (skip_ws json) ≡ b'{')
          × Ends key (tail_or_nil (skip_ws json)) (find_key_top json key))
unfolding find_key_top
find_key_top-Ends json key =
    let p = skip_ws json in
    let short = length-skip_ws json in
    elim (Bool-cases (head_or_nul p == b'{')) [
      | inr c ↦ inl (ground arith, rw c refl)
      | inl c ↦
          let less = tail_or_nil-lt b'{' p c (omega arith) in
          inr
            (ground arith, rw c (find_member-Ends (length json) (tail_or_nil p) key (omega arith)))
    ]
