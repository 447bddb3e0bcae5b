-- ===== src/Json/Members.antt =====
-- bp_json.c: the outermost-member scan over the text of an object.
use benchpod_firmware.Base.{
  ℕ, zero, suc, ◌≤◌, ◌<◌, ◌≡◌, refl, ap, ◌∙◌, inl, inr, Option, none, some, List, [], ◌∷◌, arith,
  if◌then◌else◌, length, All, length-append, Bytes, str_eq,
}
use benchpod_firmware.Json.{skip_ws}
use benchpod_firmware.Json.Top.{value_of, find_member, find_key_top}
use benchpod_firmware.Json.Tree.{
  Chr, plain, pair, Val, Fields, Items, str, scalar, obj, arr, end, field, nil, cons, put_chars,
  put, put_fields, put_more, put_items, put_rest, Unquoted, Valid, ValidFields, Ends, raw,
}
use benchpod_firmware.Json.Tree.Skip.{key-chars, skip_value-put}
use benchpod_firmware.Json.Fuel.{behind-some}

-- Its first byte is no white space.
skip_ws-put : (v : Val) (r : Bytes) → Valid v → Ends r → skip_ws (put v r) ≡ put v r
unfolding put Valid skip_ws
skip_ws-put (str s) r ok e = refl
skip_ws-put (obj fs) r ok e = refl
skip_ws-put (arr xs) r ok e = refl
skip_ws-put (scalar []) [] ok e = absurd e
skip_ws-put (scalar []) (c ∷ r) ok e = ground arith
skip_ws-put (scalar (c ∷ b)) r (h, hs) e = ground arith

-- One member: its value where the key is the one that is looked for, else what follows.
member_lem :
    (f : ℕ) (k : List Chr) (v : Val) (r key : Bytes)
    → All Unquoted k
    → Valid v
    → Ends r
    → find_member (suc f) (b'"' ∷ put_chars k (b'"' ∷ b':' ∷ put v r)) key
      ≡ (if str_eq (raw k) key then some (put v r) else find_member f r key)
unfolding find_member value_of skip_ws
member_lem f k v r key ks ok e =
    let next : Bytes → Option Bytes = λ q. find_member f q key in
    rw (key-chars k (b':' ∷ put v r) ks, skip_ws-put v r ok e)
      (ap (λ (later : Option Bytes). if str_eq (raw k) key then some (put v r) else later)
        (behind-some next (put v r) r (skip_value-put v r ok e)))

Ends-put_more : (fs : Fields) (t : Bytes) → Ends (put_more fs (b'}' ∷ t))
unfolding put_more
Ends-put_more end t = inr refl
Ends-put_more (field k v fs) t = inl refl

length-put_chars : (s : List Chr) (r : Bytes) → length r ≤ length (put_chars s r)
unfolding put_chars
length-put_chars [] r = omega arith
length-put_chars (plain c ∷ s) r = omega (arith, length-put_chars s r)
length-put_chars (pair c ∷ s) r = omega (arith, length-put_chars s r)

mutual
  unfolding put

  length-put : (v : Val) (r : Bytes) → length r ≤ length (put v r)
  length-put (str s) r = omega (arith, length-put_chars s (b'"' ∷ r))
  length-put (scalar b) r = omega (arith, length-append b r)
  length-put (obj fs) r = omega (arith, length-put_fields fs (b'}' ∷ r))
  length-put (arr xs) r = omega (arith, length-put_items xs (b']' ∷ r))

  length-put_fields : (fs : Fields) (r : Bytes) → length r ≤ length (put_fields fs r)
  length-put_fields end r = omega arith
  length-put_fields (field k v fs) r = omega (
    arith,
    length-put_chars k (b'"' ∷ b':' ∷ put v (put_more fs r)),
    length-put v (put_more fs r),
    length-put_more fs r,
  )

  length-put_more : (fs : Fields) (r : Bytes) → length r ≤ length (put_more fs r)
  length-put_more end r = omega arith
  length-put_more (field k v fs) r = omega (
    arith,
    length-put_chars k (b'"' ∷ b':' ∷ put v (put_more fs r)),
    length-put v (put_more fs r),
    length-put_more fs r,
  )

  length-put_items : (xs : Items) (r : Bytes) → length r ≤ length (put_items xs r)
  length-put_items nil r = omega arith
  length-put_items (cons v xs) r = omega (arith, length-put v (put_rest xs r), length-put_rest xs r)

  length-put_rest : (xs : Items) (r : Bytes) → length r ≤ length (put_rest xs r)
  length-put_rest nil r = omega arith
  length-put_rest (cons v xs) r = omega (arith, length-put v (put_rest xs r), length-put_rest xs r)

-- The first member of the object with the key: its value with all that follows, `t` being behind
-- the object.
unfoldable pub outermost : Bytes → Fields → Bytes → Option Bytes
outermost key end t = none
outermost key (field k v fs) t =
    if str_eq (raw k) key then some (put v (put_more fs (b'}' ∷ t))) else outermost key fs t

find_member-comma :
    (f : ℕ) (p key : Bytes) → find_member (suc f) (b',' ∷ p) key ≡ find_member f p key
unfolding find_member skip_ws
find_member-comma f p key = refl

find_member-put_more :
    (f : ℕ) (fs : Fields) (t key : Bytes)
    → ValidFields fs
    → length (put_more fs (b'}' ∷ t)) < f
    → find_member f (put_more fs (b'}' ∷ t)) key ≡ outermost key fs t
unfolding put_more ValidFields outermost
find_member-put_more zero fs t key ok h = elim h [ ]
find_member-put_more (suc f) end t key ok h = unfold find_member in unfold skip_ws in refl
find_member-put_more (suc zero) (field k v fs) t key ok h = absurd (omega arith)
find_member-put_more (suc (suc f)) (field k v fs) t key (ks, ok, oks) h =
    let rest = put_more fs (b'}' ∷ t) in
    let ih =
      find_member-put_more f fs t key oks
        (omega (arith, length-put v rest, length-put_chars k (b'"' ∷ b':' ∷ put v rest))) in
    find_member-comma (suc f) (b'"' ∷ put_chars k (b'"' ∷ b':' ∷ put v rest)) key
    ∙ (member_lem f k v rest key ks ok (Ends-put_more fs t)
        ∙ ap (λ (later : Option Bytes). if str_eq (raw k) key then some (put v rest) else later) ih)

-- Of a compact JSON object, whatever follows it, find_key_top finds the value of the first member of
-- the object itself with the key, and nothing where it has none: no key inside of a value counts.
pub find_key_top-put :
    (fs : Fields) (t key : Bytes)
    → ValidFields fs
    → find_key_top (put (obj fs) t) key ≡ outermost key fs t
unfolding put ValidFields outermost find_key_top skip_ws
find_key_top-put end t key ok = unfold find_member in refl
find_key_top-put (field k v fs) t key (ks, ok, oks) =
    let rest = put_more fs (b'}' ∷ t) in
    let f = length (put_chars k (b'"' ∷ b':' ∷ put v rest)) in
    let ih =
      find_member-put_more (suc f) fs t key oks
        (omega (arith, length-put v rest, length-put_chars k (b'"' ∷ b':' ∷ put v rest))) in
    member_lem (suc f) k v rest key ks ok (Ends-put_more fs t)
    ∙ ap (λ (later : Option Bytes). if str_eq (raw k) key then some (put v rest) else later) ih
