-- ===== src/Json/Tree.antt =====
-- bp_json.c: JSON values as trees, with their compact text.
pub mod Skip
use benchpod_firmware.Base.{ℕ, ◌≡◌, ◌≢◌, ◌⊎◌, false, List, [], ◌∷◌, ◌++◌, arith, All, Bytes}
use benchpod_firmware.Json.{is_ws}
use benchpod_firmware.Json.Top.{opens, closes}

-- A character of a string as it is written: itself, or a backslash and the next one.
pub data Chr : Type 0 where
  plain : ℕ → Chr
  pair : ℕ → Chr

mutual
  pub data Val : Type 0 where
    str : List Chr → Val
    scalar : Bytes → Val
    obj : Fields → Val
    arr : Items → Val

  pub data Fields : Type 0 where
    end : Fields
    field : List Chr → Val → Fields → Fields

  pub data Items : Type 0 where
    nil : Items
    cons : Val → Items → Items

abbrev pub put_chr : Chr → Bytes → Bytes
put_chr (plain c) r = c ∷ r
put_chr (pair c) r = b'\\' ∷ c ∷ r

unfoldable pub put_chars : List Chr → Bytes → Bytes
put_chars [] r = r
put_chars (c ∷ s) r = put_chr c (put_chars s r)

-- The text of a value, with `r` behind it.
unfoldable mutual
  unfolding put_chars

  pub put : Val → Bytes → Bytes
  put (str s) r = b'"' ∷ put_chars s (b'"' ∷ r)
  put (scalar b) r = b ++ r
  put (obj fs) r = b'{' ∷ put_fields fs (b'}' ∷ r)
  put (arr xs) r = b'[' ∷ put_items xs (b']' ∷ r)

  pub put_fields : Fields → Bytes → Bytes
  put_fields end r = r
  put_fields (field k v fs) r = b'"' ∷ put_chars k (b'"' ∷ b':' ∷ put v (put_more fs r))

  -- The members after the first.
  pub put_more : Fields → Bytes → Bytes
  put_more end r = r
  put_more (field k v fs) r = b',' ∷ b'"' ∷ put_chars k (b'"' ∷ b':' ∷ put v (put_more fs r))

  pub put_items : Items → Bytes → Bytes
  put_items nil r = r
  put_items (cons v xs) r = put v (put_rest xs r)

  pub put_rest : Items → Bytes → Bytes
  put_rest nil r = r
  put_rest (cons v xs) r = b',' ∷ put v (put_rest xs r)

-- A character that needs no backslash, and one of a number or a literal.
abbrev pub Unquoted : Chr → Type 0
Unquoted (plain c) = (c ≢ b'"') × (c ≢ b'\\')
Unquoted (pair c) = Unit {0}

abbrev pub Bare : ℕ → Type 0
Bare c = (c ≢ b'"') × (c ≢ b',') × (opens c ≡ false) × (closes c ≡ false) × (is_ws c ≡ false)

unfoldable mutual
  pub Valid : Val → Type 0
  Valid (str s) = All Unquoted s
  Valid (scalar b) = All Bare b
  Valid (obj fs) = ValidFields fs
  Valid (arr xs) = ValidItems xs

  pub ValidFields : Fields → Type 0
  ValidFields end = Unit {0}
  ValidFields (field k v fs) = All Unquoted k × Valid v × ValidFields fs

  pub ValidItems : Items → Type 0
  ValidItems nil = Unit {0}
  ValidItems (cons v xs) = Valid v × ValidItems xs

-- What may stand behind a value in an object.
abbrev pub Ends : Bytes → Type 0
Ends [] = ⊥
Ends (c ∷ r) = (c ≡ b',') ⊎ (c ≡ b'}')

-- The bytes between the quotes.
unfoldable pub raw : List Chr → Bytes
raw [] = []
raw (plain c ∷ s) = c ∷ raw s
raw (pair c ∷ s) = b'\\' ∷ c ∷ raw s
