-- ===== src/Json/RoundTrip.antt =====
-- What `bp_emit_jstr` writes, `bp_json_get` reads back.
use benchpod_firmware.Base.{
  ℕ, zero, suc, ◌-◌, ◌≤◌, ◌<◌, ◌≡◌, ◌⊎◌, refl, sym, ap, ◌∙◌, true, false, [], ◌∷◌, ◌++◌, leb, ◌==◌,
  Bytes, length, length-append, arith, All, starts_with, drop, some,
}
use mathlib.Core.List.{append_assoc, append-nil}
use benchpod_firmware.Json.{
  skip_ws, needle, find_from, find_key, read_string, read_value, get_at, json_get,
}
use benchpod_firmware.Json.Emit.{
  Emit, emit_bytes, escape_byte, emit_chars, emit_jstr, escaped, quoted,
}

-- A character that the emitter does not write as `\\u00xx`: the reader turns those into a `?`.
abbrev pub Plain : ℕ → Type 0
Plain c = (32 ≤ c) ⊎ ((c ≡ 10) ⊎ ((c ≡ 13) ⊎ (c ≡ 9)))

read-escape_byte :
    (k c : ℕ) (p : Bytes)
    → Plain c
    → read_string (suc k) (escape_byte c ++ p) ≡ (c ∷ (read_string k p).0, (read_string k p).1)
unfolding read_string escape_byte
read-escape_byte k c [] h = ground arith
read-escape_byte k c (d ∷ p) h = ground arith

read-escaped :
    (s : Bytes) (k : ℕ) (p : Bytes)
    → All Plain s
    → length s ≤ k
    → read_string k (escaped s ++ b'"' ∷ p) ≡ (s, b'"' ∷ p)
unfolding escaped
read-escaped [] zero p h l = unfold read_string in refl
read-escaped [] (suc k) p h l = unfold read_string in refl
read-escaped (c ∷ s) zero p h l = absurd (omega arith)
read-escaped (c ∷ s) (suc k) p (h, hs) l =
    rw (append_assoc (escape_byte c) (escaped s) (b'"' ∷ p)) (
      read-escape_byte k c (escaped s ++ b'"' ∷ p) h
      ∙ ap (λ (r : Bytes × Bytes). (c ∷ r.0, r.1)) (read-escaped s k p hs (omega arith)))

starts_with-append : (n p : Bytes) → starts_with (n ++ p) n ≡ true
unfolding starts_with
starts_with-append [] [] = refl
starts_with-append [] (c ∷ p) = refl
starts_with-append (c ∷ n) p = ground (arith, starts_with-append n p)

drop-append : (n p : Bytes) → drop (length n) (n ++ p) ≡ p
drop-append [] p = refl
drop-append (c ∷ n) p = drop-append n p

-- The needle is found where it stands, if a colon follows.
find_from-here :
    (n : ℕ) (ns v : Bytes) → find_from (n ∷ ns) (n ∷ (ns ++ b':' ∷ v)) ≡ some (skip_ws v)
unfolding find_from
find_from-here n ns v = ground (arith, starts_with-append ns (b':' ∷ v), drop-append ns (b':' ∷ v))

find_from-behind :
    (c n : ℕ) (ns v : Bytes)
    → (c == n) ≡ false
    → find_from (n ∷ ns) (c ∷ n ∷ (ns ++ b':' ∷ v)) ≡ some (skip_ws v)
unfolding find_from
find_from-behind c n ns v h = ground (arith, find_from-here n ns v)

find_key-first :
    (key v : Bytes)
    → length key < 62
    → find_key (b'{' ∷ (needle key ++ b':' ∷ v)) key ≡ some (skip_ws v)
unfolding find_key
find_key-first key v h =
    let short : leb 64 (length (needle key)) ≡ false =
      ground (arith, length-append key (b'"' ∷ [])) in
    rw short (find_from-behind b'{' b'"' (key ++ b'"' ∷ []) v refl)

read_value-quoted :
    (s p : Bytes) (n : ℕ)
    → All Plain s
    → length s < n
    → read_value n (quoted s ++ p) ≡ record { found = true; value = s; truncated = false }
unfolding read_value
read_value-quoted s p n h l =
    rw (append_assoc (escaped s) (b'"' ∷ []) p, read-escaped s (n - 1) p h (omega arith))

get_at-quoted :
    (s p : Bytes) (n : ℕ)
    → All Plain s
    → length s < n
    → get_at n (some (quoted s ++ p)) ≡ record { found = true; value = s; truncated = false }
unfolding get_at
get_at-quoted s p n h l = ground (arith, read_value-quoted s p n h l)

-- A member that stands first in the line, its value written by `bp_emit_jstr`, is read back whole
-- into a buffer with room for it and the NUL.
pub get-quoted :
    (key s rest : Bytes) (out_len : ℕ)
    → length key < 62
    → All Plain s
    → length s < out_len
    → json_get (b'{' ∷ (needle key ++ b':' ∷ (quoted s ++ rest))) key out_len
      ≡ record { found = true; value = s; truncated = false }
unfolding json_get skip_ws
get-quoted key s rest out_len hk hs hl =
    rw (find_key-first key (quoted s ++ rest) hk) (get_at-quoted s rest out_len hs hl)

-- What an emitter that still fits has written.
emit_bytes-fits :
    (e : Emit) (s : Bytes)
    → (emit_bytes e s).fits ≡ true
    → (e.fits ≡ true) × ((emit_bytes e s).buf ≡ e.buf ++ s)
unfolding emit_bytes
emit_bytes-fits e s h = ground arith

emit_chars-fits :
    (s : Bytes) (e : Emit)
    → (emit_chars e s).fits ≡ true
    → (e.fits ≡ true) × ((emit_chars e s).buf ≡ e.buf ++ escaped s)
unfolding emit_chars escaped
emit_chars-fits [] e h = (h, sym (append-nil e.buf))
emit_chars-fits (c ∷ s) e h = ground (
  arith,
  emit_chars-fits s (emit_bytes e (escape_byte c)),
  emit_bytes-fits e (escape_byte c),
  append_assoc e.buf (escape_byte c) (escaped s),
)

emit_jstr-fits :
    (s : Bytes) (e : Emit) → (emit_jstr e s).fits ≡ true → (emit_jstr e s).buf ≡ e.buf ++ quoted s
unfolding emit_jstr
emit_jstr-fits s e h =
    let first = emit_bytes e (b'"' ∷ []) in
    let (f2, e3) = emit_bytes-fits (emit_chars first s) (b'"' ∷ []) h in
    let (f1, e2) = emit_chars-fits s first f2 in
    let (f0, e1) = emit_bytes-fits e (b'"' ∷ []) f1 in
    rw (e3, e2, e1)
      (append_assoc (e.buf ++ b'"' ∷ []) (escaped s) (b'"' ∷ [])
        ∙ append_assoc e.buf (b'"' ∷ []) (escaped s ++ b'"' ∷ []))

same_text :
    (key v rest : Bytes)
    → ((b'{' ∷ (needle key ++ b':' ∷ [])) ++ v) ++ rest ≡ b'{' ∷ (needle key ++ b':' ∷ (v ++ rest))
same_text key v rest = simp append_assoc

-- A string of plain characters (no control character but LF, CR and TAB), shorter than the buffer,
-- that the emitter wrote whole as the first member, behind a key of fewer than 62 bytes, is what
-- the reader gets, whatever follows it.
pub get-emit_jstr :
    (key s rest : Bytes) (cap out_len : ℕ)
    → length key < 62
    → All Plain s
    → length s < out_len
    → (emit_jstr (record { buf = b'{' ∷ (needle key ++ b':' ∷ []); cap = cap; fits = true }) s).fits
      ≡ true
    → json_get
        ((emit_jstr
            (record { buf = b'{' ∷ (needle key ++ b':' ∷ []); cap = cap; fits = true })
            s).buf
          ++ rest)
        key
        out_len
      ≡ record { found = true; value = s; truncated = false }
get-emit_jstr key s rest cap out_len hk hs hl h =
    rw (emit_jstr-fits s _ h)
      (rw (same_text key (quoted s) rest) (get-quoted key s rest out_len hk hs hl))
