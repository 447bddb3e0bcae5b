-- ===== src/Json/Tree/Skip.antt =====
-- bp_json.c: what the skipping of strings and values makes of the text of a tree.
use benchpod_firmware.Base.{
  ℕ, ◌+◌, ◌<◌, ◌≡◌, refl, ap, ◌∙◌, ◌≢◌, true, false, some, List, [], ◌∷◌, ◌++◌, arith, All, Bytes,
}
use benchpod_firmware.Json.Top.{skip_string, skip_nested, skip_scalar, skip_value, read_key}
use benchpod_firmware.Json.Tree.{
  Chr, plain, pair, Val, Fields, Items, str, scalar, obj, arr, end, field, nil, cons, put_chars,
  put, put_fields, put_more, put_items, put_rest, Unquoted, Bare, Valid, ValidFields, ValidItems,
  Ends, raw,
}

nested-chars :
    (n : ℕ) (s : List Chr) (r : Bytes)
    → All Unquoted s
    → skip_nested n true false (put_chars s (b'"' ∷ r)) ≡ skip_nested n false false r
unfolding skip_nested put_chars
nested-chars n [] r h = refl
nested-chars n (plain c ∷ s) r (h, hs) = ground (arith, nested-chars n s r hs)
nested-chars n (pair c ∷ s) r (h, hs) = nested-chars n s r hs

nested-Bare :
    (n : ℕ) (b r : Bytes)
    → All Bare b
    → skip_nested n false false (b ++ r) ≡ skip_nested n false false r
unfolding skip_nested
nested-Bare n [] r h = refl
nested-Bare n (c ∷ b) r (h, hs) = ground (arith, nested-Bare n b r hs)

nested-close :
    (n : ℕ) (r : Bytes)
    → 0 < n
    → skip_nested (n + 1) false false (b'}' ∷ r) ≡ skip_nested n false false r
unfolding skip_nested
nested-close n r h = ground arith

nested-close_items :
    (n : ℕ) (r : Bytes)
    → 0 < n
    → skip_nested (n + 1) false false (b']' ∷ r) ≡ skip_nested n false false r
unfolding skip_nested
nested-close_items n r h = ground arith

-- Inside of an object or array a value leaves the scan as it was.
mutual
  unfolding put Valid skip_nested

  nested-put :
      (n : ℕ) (v : Val) (r : Bytes)
      → 0 < n
      → Valid v
      → skip_nested n false false (put v r) ≡ skip_nested n false false r
  nested-put n (str s) r h ok = nested-chars n s r ok
  nested-put n (scalar b) r h ok = nested-Bare n b r ok
  nested-put n (obj fs) r h ok =
      nested-put_fields (n + 1) fs (b'}' ∷ r) (omega arith) ok ∙ nested-close n r h
  nested-put n (arr xs) r h ok =
      nested-put_items (n + 1) xs (b']' ∷ r) (omega arith) ok ∙ nested-close_items n r h

  nested-put_fields :
      (n : ℕ) (fs : Fields) (r : Bytes)
      → 0 < n
      → ValidFields fs
      → skip_nested n false false (put_fields fs r) ≡ skip_nested n false false r
  nested-put_fields n end r h ok = refl
  nested-put_fields n (field k v fs) r h (ks, ok, oks) =
      nested-chars n k (b':' ∷ put v (put_more fs r)) ks
      ∙ (nested-put n v (put_more fs r) h ok ∙ nested-put_more n fs r h oks)

  nested-put_more :
      (n : ℕ) (fs : Fields) (r : Bytes)
      → 0 < n
      → ValidFields fs
      → skip_nested n false false (put_more fs r) ≡ skip_nested n false false r
  nested-put_more n end r h ok = refl
  nested-put_more n (field k v fs) r h (ks, ok, oks) =
      nested-chars n k (b':' ∷ put v (put_more fs r)) ks
      ∙ (nested-put n v (put_more fs r) h ok ∙ nested-put_more n fs r h oks)

  nested-put_items :
      (n : ℕ) (xs : Items) (r : Bytes)
      → 0 < n
      → ValidItems xs
      → skip_nested n false false (put_items xs r) ≡ skip_nested n false false r
  nested-put_items n nil r h ok = refl
  nested-put_items n (cons v xs) r h (ok, oks) =
      nested-put n v (put_rest xs r) h ok ∙ nested-put_rest n xs r h oks

  nested-put_rest :
      (n : ℕ) (xs : Items) (r : Bytes)
      → 0 < n
      → ValidItems xs
      → skip_nested n false false (put_rest xs r) ≡ skip_nested n false false r
  nested-put_rest n nil r h ok = refl
  nested-put_rest n (cons v xs) r h (ok, oks) =
      nested-put n v (put_rest xs r) h ok ∙ nested-put_rest n xs r h oks

string-plain :
    (c : ℕ) (q : Bytes) → Unquoted (plain c) → q ≢ [] → skip_string (c ∷ q) ≡ skip_string q
unfolding skip_string
string-plain c [] h ne = absurd (ne refl)
string-plain c (d ∷ q) h ne = ground arith

key-plain :
    (c : ℕ) (q : Bytes)
    → Unquoted (plain c)
    → q ≢ []
    → read_key (c ∷ q) ≡ (c ∷ (read_key q).0, (read_key q).1)
unfolding read_key
key-plain c [] h ne = absurd (ne refl)
key-plain c (d ∷ q) h ne = ground arith

put_chars-ne-nil : (s : List Chr) (c : ℕ) (r : Bytes) → put_chars s (c ∷ r) ≢ []
unfolding put_chars
put_chars-ne-nil [] c r h = cc
put_chars-ne-nil (plain d ∷ s) c r h = cc
put_chars-ne-nil (pair d ∷ s) c r h = cc

string-chars :
    (s : List Chr) (r : Bytes) → All Unquoted s → skip_string (put_chars s (b'"' ∷ r)) ≡ some r
unfolding put_chars skip_string
string-chars [] [] h = refl
string-chars [] (d ∷ r) h = refl
string-chars (plain c ∷ s) r (h, hs) =
    string-plain c (put_chars s (b'"' ∷ r)) h (put_chars-ne-nil s b'"' r) ∙ string-chars s r hs
string-chars (pair c ∷ s) r (h, hs) = string-chars s r hs

pub key-chars :
    (s : List Chr) (r : Bytes)
    → All Unquoted s
    → read_key (put_chars s (b'"' ∷ r)) ≡ (raw s, b'"' ∷ r)
unfolding put_chars raw read_key
key-chars [] [] h = refl
key-chars [] (d ∷ r) h = refl
key-chars (plain c ∷ s) r (h, hs) =
    key-plain c (put_chars s (b'"' ∷ r)) h (put_chars-ne-nil s b'"' r)
    ∙ ap (λ (k : Bytes × Bytes). (c ∷ k.0, k.1)) (key-chars s r hs)
key-chars (pair c ∷ s) r (h, hs) =
    ap (λ (k : Bytes × Bytes). (b'\\' ∷ c ∷ k.0, k.1)) (key-chars s r hs)

scalar-Bare : (b r : Bytes) → All Bare b → Ends r → skip_scalar (b ++ r) ≡ r
unfolding skip_scalar
scalar-Bare [] [] h e = absurd e
scalar-Bare [] (c ∷ r) h e = ground arith
scalar-Bare (c ∷ b) r (h, hs) e = ground (arith, scalar-Bare b r hs e)

skip_value-Bare :
    (b r : Bytes) → All Bare b → Ends r → skip_value (b ++ r) ≡ some (skip_scalar (b ++ r))
unfolding skip_value
skip_value-Bare [] [] h e = absurd e
skip_value-Bare [] (c ∷ r) h e = ground arith
skip_value-Bare (c ∷ b) r (h, hs) e = ground arith

-- A value is skipped as a whole.
pub skip_value-put : (v : Val) (r : Bytes) → Valid v → Ends r → skip_value (put v r) ≡ some r
unfolding put Valid
skip_value-put (str s) r ok e = unfold skip_value in string-chars s r ok
skip_value-put (scalar b) r ok e = skip_value-Bare b r ok e ∙ ap some (scalar-Bare b r ok e)
skip_value-put (obj fs) r ok e =
    unfold skip_value in unfold skip_nested in nested-put_fields 1 fs (b'}' ∷ r) (omega arith) ok
skip_value-put (arr xs) r ok e =
    unfold skip_value in unfold skip_nested in nested-put_items 1 xs (b']' ∷ r) (omega arith) ok
