-- ===== src/CloudReply/Whole.antt =====
-- The reply that goes out is the whole text without its line ending, or an error.
use benchpod_firmware.Base.{
  false, ℕ, zero, suc, ◌+◌, ◌-◌, ◌≤◌, ◌<◌, min, ◌≡◌, refl, sym, ap, ◌∙◌, inl, inr, true, ◌&&◌,
  Option, none, some, List, [], ◌∷◌, ◌++◌, arith, ltb, leb, ◌==◌, if◌then◌else◌, Bool-cases, length,
  take, length-append, length-take, Bytes, codes,
}
use mathlib.Core.Path.{subst}
use mathlib.Core.List.{append_assoc, append-nil}
use benchpod_firmware.CloudReply.{
  trim, reply_of, cap_max, Capture, is_eol, cap_begin, count_eol, cap_append, err_reply, too_large,
  cap_end,
}

-- A text without the line ends behind it.
unfoldable pub strip : Bytes → Bytes
strip [] = []
strip (b ∷ bs) = let rest = strip bs in if length rest == 0 && is_eol b then [] else b ∷ rest

unfoldable pub concat : List Bytes → Bytes
concat [] = []
concat (b ∷ bs) = b ++ concat bs

unfoldable pub appends : List Bytes → Capture → Capture
appends [] c = c
appends (b ∷ bs) c = appends bs (cap_append b c)

-- The error with this message, where there is room for it and its NUL.
unfoldable pub error_in : ℕ → Bytes → Option Bytes
error_in room msg =
    let text = codes "{\"status\":\"error\",\"message\":\"" ++ (msg ++ codes "\"}") in
    if leb (length text + 1) room then some text else none

-- What goes out for a text.
unfoldable pub reply_to : (ℕ → Bytes) → ℕ → Bytes → Option Bytes
reply_to digits out_cap text =
    let room = min out_cap cap_max in
    let n = length (strip text) in
    if n == 0
    then error_in out_cap (codes "no reply")
    else if ltb n room
    then some (strip text)
    else error_in out_cap (
        take 95 (
          codes "reply too large for the cloud channel ("
          ++ (digits n ++ (codes " bytes, limit " ++ (digits (room - 1) ++ codes ")")))))

strip_le : (bs : Bytes) → length (strip bs) ≤ length bs
unfolding strip
strip_le [] = omega arith
strip_le (b ∷ bs) = let ih = strip_le bs in ground arith

take-strip : (bs : Bytes) → take (length (strip bs)) bs ≡ strip bs
unfolding strip
take-strip [] = refl
take-strip (b ∷ bs) =
    let ih = take-strip bs in
    elim (Bool-cases (length (strip bs) == 0 && is_eol b)) [
      | inl e ↦
          let q : strip (b ∷ bs) ≡ [] = ground arith in
          subst (λ x. take (length x) (b ∷ bs) ≡ x) (sym q) refl
      | inr e ↦
          let q : strip (b ∷ bs) ≡ b ∷ strip bs = ground arith in
          subst (λ x. take (length x) (b ∷ bs) ≡ x) (sym q) (ap (λ x. b ∷ x) ih)
    ]

count_eol-strip :
    (bs : Bytes) (n : ℕ)
    → count_eol n bs
      ≡ (if length (strip bs) == 0 then n + length bs else length bs - length (strip bs))
unfolding count_eol strip
count_eol-strip [] n = ground arith
count_eol-strip (b ∷ bs) n =
    let ih = count_eol-strip bs (if is_eol b then n + 1 else 0) in
    let le = strip_le bs in
    elim (Bool-cases (length (strip bs) == 0 && is_eol b)) [
      | inl e ↦
          let q : strip (b ∷ bs) ≡ [] = ground arith in
          subst
            (λ x.
              count_eol n (b ∷ bs)
              ≡ (if length x == 0 then n + suc (length bs) else suc (length bs) - length x))
            (sym q) (ground arith)
      | inr e ↦
          let q : strip (b ∷ bs) ≡ b ∷ strip bs = ground arith in
          subst
            (λ x.
              count_eol n (b ∷ bs)
              ≡ (if length x == 0 then n + suc (length bs) else suc (length bs) - length x))
            (sym q) (ground arith)
    ]

-- What the capture counts, less the line ends, is the text to send.
count_eol-length : (bs : Bytes) → length bs - count_eol 0 bs ≡ length (strip bs)
count_eol-length bs = ground (arith, count_eol-strip bs 0, strip_le bs)

count_eol-append : (n : ℕ) (a b : Bytes) → count_eol n (a ++ b) ≡ count_eol (count_eol n a) b
unfolding count_eol
count_eol-append n [] b = refl
count_eol-append n (x ∷ a) b = count_eol-append (if is_eol x then n + 1 else 0) a b

take-append-split :
    (k : ℕ) (a b : Bytes) → take k a ++ take (k - length (take k a)) b ≡ take k (a ++ b)
take-append-split zero a b = refl
take-append-split (suc k) [] b = let e : suc k - 0 ≡ suc k = omega arith in rw e refl
take-append-split (suc k) (x ∷ a) b =
    let e : suc k - suc (length (take k a)) ≡ k - length (take k a) = omega arith in
    rw e (ap (λ y. x ∷ y) (take-append-split k a b))

take-take_le : (n k : ℕ) (a : Bytes) → n ≤ k → take n (take k a) ≡ take n a
take-take_le zero k a h = refl
take-take_le (suc n) zero a h = absurd (omega arith)
take-take_le (suc n) (suc k) [] h = refl
take-take_le (suc n) (suc k) (x ∷ a) h = ap (λ y. x ∷ y) (take-take_le n k a (omega arith))

take-all : (n : ℕ) (a : Bytes) → length a ≤ n → take n a ≡ a
take-all zero [] h = refl
take-all zero (x ∷ a) h = absurd (omega arith)
take-all (suc n) [] h = refl
take-all (suc n) (x ∷ a) h = ap (λ y. x ∷ y) (take-all n a (omega arith))

-- The capture after a text was written.
Holds : Bytes → Capture → Type 0
Holds text c =
    (c.want ≡ length text)
    × (c.nl ≡ count_eol 0 text)
    × (c.buf ≡ take (cap_max - 1) text)
    × (c.active ≡ true)

cap_append-Holds :
    (text b : Bytes) (c : Capture) → Holds text c → Holds (text ++ b) (cap_append b c)
unfolding cap_append Holds
cap_append-Holds text b c (w, n, k, a) =
    let s = take-append-split (cap_max - 1) text b in
    let e = count_eol-append 0 text b in
    let l = length-append {0} text b in
    let q : cap_append b c ≡ record c {
      want = c.want + length b;
      nl = count_eol c.nl b;
      buf = c.buf ++ take (cap_max - 1 - length c.buf) b;
    } =
      ground arith in
    subst (Holds (text ++ b)) (sym q) (
      omega arith,
      ap (λ x. count_eol x b) n ∙ sym e,
      ap (λ x. x ++ take (cap_max - 1 - length x) b) k ∙ s,
      a,
    )

appends-Holds :
    (bs : List Bytes) (text : Bytes) (c : Capture)
    → Holds text c
    → Holds (text ++ concat bs) (appends bs c)
unfolding concat appends
appends-Holds [] text c h = rw (append-nil text) h
appends-Holds (b ∷ bs) text c h =
    rw (← append_assoc text b (concat bs))
      (appends-Holds bs (text ++ b) (cap_append b c) (cap_append-Holds text b c h))

begin-Holds : Holds [] cap_begin
unfolding Holds cap_begin count_eol
begin-Holds = (refl, refl, refl, refl)

trim-strip :
    (text : Bytes)
    → length (strip text) ≤ cap_max - 1
    → trim (length (strip text)) (take (cap_max - 1) text) ≡ strip text
unfolding trim
trim-strip text h =
    let m = length (strip text) in
    let k = cap_max - 1 in
    let t : take m (take k text) ≡ strip text = take-take_le m k text h ∙ take-strip text in
    elim (Bool-cases (ltb m (length (take k text)))) [
      | inl e ↦ rw (trim, e) t
      | inr e ↦ rw (trim, e) (sym (take-all m (take k text) (ground arith)) ∙ t)
    ]

trim_ge : (m : ℕ) (buf : Bytes) → length buf ≤ m → trim m buf ≡ buf
unfolding trim
trim_ge m buf h = ground arith

trim-big : (k m : ℕ) (text : Bytes) → k < m → length (trim m (take k text)) < m
trim-big k m text h =
    let l = length-take {0} k text in
    let q : trim m (take k text) ≡ take k text = trim_ge m (take k text) (omega arith) in
    rw q (omega arith)

cap_end-reply_of :
    (digits : ℕ → Bytes) (out_cap : ℕ) (text : Bytes) (c : Capture)
    → Holds text c
    → (cap_end digits out_cap c).0 ≡ (
        if out_cap == 0
        then none
        else reply_of digits out_cap
            (length (strip text))
            (trim (length (strip text)) (take (cap_max - 1) text)))
unfolding Holds cap_end
cap_end-reply_of digits out_cap text c (w, n, k, a) =
    let want : c.want - c.nl ≡ length (strip text) = rw (w, n) (count_eol-length text) in
    rw (cap_end, want, k) (ground arith)

err_reply-error_in :
    (digits : ℕ → Bytes) (out_cap : ℕ) (msg : Bytes)
    → err_reply digits out_cap msg ≡ error_in out_cap msg
unfolding err_reply error_in
err_reply-error_in digits out_cap msg = ground arith

error_in-zero : (msg : Bytes) → error_in 0 msg ≡ none
unfolding error_in
error_in-zero msg = ground arith

-- The same, in the code's order of tests.
sent_for : (ℕ → Bytes) → ℕ → Bytes → Option Bytes
sent_for digits out_cap text =
    let limit = min out_cap cap_max - 1 in
    let n = length (strip text) in
    if out_cap == 0
    then none
    else if ltb limit n
    then err_reply digits out_cap (too_large digits n limit)
    else if n == 0
    then err_reply digits out_cap (codes "no reply")
    else some (strip text)

cap_end-sent :
    (digits : ℕ → Bytes) (out_cap : ℕ) (text : Bytes) (c : Capture)
    → Holds text c
    → (cap_end digits out_cap c).0 ≡ sent_for digits out_cap text
unfolding sent_for reply_of
cap_end-sent digits out_cap text c h =
    let m = length (strip text) in
    let r = cap_end-reply_of digits out_cap text c h in
    elim (Bool-cases (ltb (cap_max - 1) m)) [
      | inl big ↦ let t = trim-big (cap_max - 1) m text (ground arith) in r ∙ ground arith
      | inr fits ↦ let t = trim-strip text (ground arith) in r ∙ rw t (ground arith)
    ]

sent_for-zero :
    (digits : ℕ → Bytes) (out_cap : ℕ) (text : Bytes)
    → out_cap ≡ 0
    → sent_for digits out_cap text ≡ reply_to digits out_cap text
unfolding sent_for reply_to
sent_for-zero digits out_cap text z =
    let n = length (strip text) in
    let none_out : ltb n (min 0 cap_max) ≡ false = ground arith in
    elim (Bool-cases (n == 0)) [
      | inl e ↦ rw (z, e) (sym (error_in-zero (codes "no reply")))
      | inr e ↦ rw (z, e, none_out) (sym (error_in-zero _))
    ]

sent_for-reply_to :
    (digits : ℕ → Bytes) (out_cap : ℕ) (text : Bytes)
    → sent_for digits out_cap text ≡ reply_to digits out_cap text
unfolding sent_for reply_to too_large
sent_for-reply_to digits out_cap text =
    let n = length (strip text) in
    let limit = min out_cap cap_max - 1 in
    let large = err_reply-error_in digits out_cap (too_large digits n limit) in
    let empty = err_reply-error_in digits out_cap (codes "no reply") in
    elim (Bool-cases (out_cap == 0)) [
      | inl z ↦ sent_for-zero digits out_cap text (ground arith)
      | inr z ↦ elim (Bool-cases (ltb limit n)) [
        | inl big ↦
            let some_text : (n == 0) ≡ false = ground arith in
            let over : ltb n (min out_cap cap_max) ≡ false = ground arith in
            rw (z, big, some_text, over) large
        | inr fits ↦ elim (Bool-cases (n == 0)) [
          | inl e ↦ rw (z, fits, e) empty
          | inr e ↦
              let room : ltb n (min out_cap cap_max) ≡ true = ground arith in
              rw (z, fits, e, room) refl
        ]
      ]
    ]

cap_end-reply :
    (digits : ℕ → Bytes) (out_cap : ℕ) (text : Bytes) (c : Capture)
    → Holds text c
    → (cap_end digits out_cap c).0 ≡ reply_to digits out_cap text
cap_end-reply digits out_cap text c h =
    cap_end-sent digits out_cap text c h ∙ sent_for-reply_to digits out_cap text

-- Whatever pieces a reply is written in: it goes out whole, without the line ends behind it, where it
-- is not empty and fits the capture and the room for it with a NUL; else an error that says so goes
-- out where there is room for it with its NUL, and nothing where there is not.
pub reply_whole :
    (digits : ℕ → Bytes) (out_cap : ℕ) (bs : List Bytes)
    → (cap_end digits out_cap (appends bs cap_begin)).0 ≡ reply_to digits out_cap (concat bs)
reply_whole digits out_cap bs =
    cap_end-reply digits out_cap (concat bs) (appends bs cap_begin)
      (appends-Holds bs [] cap_begin begin-Holds)
