-- ===== src/Bridge/Update/Delivered.antt =====
-- wifi-bridge/main/ota.c: an update that is sent in order, with chunks sent again, is booted.
use mathlib.Core.Path.{subst}
use mathlib.Core.List.{append_assoc, append-nil}
use benchpod_firmware.Access.FwSign.{Crypto}
use benchpod_firmware.Bridge.Ota.{
  write, duplicate, seq_begin, seq_check, seq_advance, seq_complete, img_desc_end,
}
use benchpod_firmware.Bridge.Update.Valid.{sig_ok-cases}
use benchpod_firmware.Bridge.FwSig.{target_bridge, fwsig_check}
use benchpod_firmware.Bridge.Update.{
  Update, OtaResult, done, not_verified, end_ok, chunk_max, names_project, end_complete, data_chunk,
  ota_begin, ota_data, ota_end, begin_checked, abort,
}
use benchpod_firmware.Base.{
  ℕ, zero, suc, ◌+◌, ◌^◌, ◌≤◌, ◌<◌, ◌≡◌, refl, sym, ap, ◌∙◌, inl, inr, Bool, true, false, not, ◌&&◌,
  ◌||◌, Option, none, some, List, [], ◌∷◌, ◌++◌, arith, ltb, ◌==◌, Bool-cases, length, All,
  length-append, Bytes, str_eq, str_eq_iff,
}

-- A transfer of `size` bytes of which `image` has been written.
pub record At (size : ℕ) (sha image : Bytes) (u : Update) : Type 0 where
  pub running : u.seq.active ≡ true
  pub sized : u.seq.size ≡ size
  pub reached : u.seq.next ≡ length image
  pub last_sent : u.seq.last_off + u.seq.last_len ≡ length image
  pub stored : u.image ≡ image
  pub fed : u.hashed ≡ image
  pub expected : u.sig.sha256 ≡ sha

-- A chunk as ota_data takes it.
abbrev pub Fits : Bytes → Type 0
Fits b = (1 ≤ length b) × (length b ≤ chunk_max)

-- The bytes of the chunks.
abbrev pub concat : List (ℕ × Bytes) → Bytes
concat [] = []
concat ((n, b) ∷ bs) = b ++ concat bs

check-write :
    (size : ℕ) (sha image b : Bytes) (u : Update)
    → At size sha image u
    → Fits b
    → size < 2 ^ 32
    → length image + length b ≤ size
    → seq_check u.seq (length image) (length b) ≡ write
unfolding seq_check
check-write size sha image b u at fits small room = ground arith

check-again :
    (size : ℕ) (sha image b : Bytes) (u : Update)
    → At size sha (image ++ b) u
    → Fits b
    → u.seq.last_off ≡ length image
    → u.seq.last_len ≡ length b
    → seq_check u.seq (length image) (length b) ≡ duplicate
unfolding seq_check
check-again size sha image b u at fits off len = ground arith

module _ (c : Crypto) (keys : List Bytes) (sha256 : Bytes → Bytes) (project_name : Bytes) where
  -- A chunk sent `n` times.
  unfoldable pub again : ℕ → ℕ → ℕ → Bytes → Update → Update
  again zero now offset b u = u
  again (suc n) now offset b u =
      again n now offset b (ota_data c keys sha256 project_name offset b true now u).1

  -- A chunk that is sent once and `n` times more, each written.
  unfoldable pub send : ℕ → ℕ → ℕ → Bytes → Update → Update
  unfolding again
  send n now offset b u =
      again n now offset b (ota_data c keys sha256 project_name offset b true now u).1

  -- Chunks one behind the other, each with how often it is sent again.
  unfoldable pub deliver : ℕ → ℕ → List (ℕ × Bytes) → Update → Update
  deliver now offset [] u = u
  deliver now offset ((n, b) ∷ bs) u = deliver now (offset + length b) bs (send n now offset b u)

  data-write :
      (size : ℕ) (sha image b : Bytes) (now : ℕ) (u : Update)
      → At size sha image u
      → Fits b
      → size < 2 ^ 32
      → length image + length b ≤ size
      → (length image ≡ 0 → names_project project_name b ≡ true)
      → (ota_data c keys sha256 project_name (length image) b true now u ≡ (
        done,
        record u {
          seq = seq_advance u.seq (length image) (length b);
          hashed = u.hashed ++ b;
          image = u.image ++ b;
          last_us = now;
        },
      ))
  unfolding ota_data data_chunk seq_advance
  data-write size sha image b now u at fits small room named =
      let whole : (length b == 0 || ltb chunk_max (length b)) ≡ false = ground arith in
      let starts : (length image == 0 && not (names_project project_name b)) ≡ false =
        ground arith in
      rw (check-write size sha image b u at fits small room, whole, starts, at.running) refl

  data-again :
      (size : ℕ) (sha image b : Bytes) (now : ℕ) (u : Update)
      → At size sha (image ++ b) u
      → Fits b
      → u.seq.last_off ≡ length image
      → u.seq.last_len ≡ length b
      → ota_data c keys sha256 project_name (length image) b true now u
        ≡ (done, record u { last_us = now })
  unfolding ota_data data_chunk
  data-again size sha image b now u at fits off len =
      let whole : (length b == 0 || ltb chunk_max (length b)) ≡ false = ground arith in
      rw (check-again size sha image b u at fits off len, whole, at.running) refl

  -- The state after a chunk, which may be sent again.
  abbrev Sent : ℕ → Bytes → Bytes → Bytes → Update → Type 0
  Sent size sha image b u =
      At size sha (image ++ b) u × (u.seq.last_off ≡ length image) × (u.seq.last_len ≡ length b)

  write-Sent :
      (size : ℕ) (sha image b : Bytes) (now : ℕ) (u : Update)
      → At size sha image u
      → Fits b
      → size < 2 ^ 32
      → length image + length b ≤ size
      → (length image ≡ 0 → names_project project_name b ≡ true)
      → Sent size sha image b (ota_data c keys sha256 project_name (length image) b true now u).1
  unfolding seq_advance
  write-Sent size sha image b now u at fits small room named =
      rw (data-write size sha image b now u at fits small room named) (
        record {
          running = at.running;
          sized = at.sized;
          reached = omega (arith, length-append image b);
          last_sent = omega (arith, length-append image b);
          stored = ap (λ i. i ++ b) at.stored;
          fed = ap (λ i. i ++ b) at.fed;
          expected = at.expected;
        },
        refl,
        refl,
      )

  data-Sent :
      (size : ℕ) (sha image b : Bytes) (now : ℕ) (u : Update)
      → Sent size sha image b u
      → Fits b
      → Sent size sha image b (ota_data c keys sha256 project_name (length image) b true now u).1
  data-Sent size sha image b now u (at, off, len) fits =
      rw (data-again size sha image b now u at fits off len) (
        record {
          running = at.running;
          sized = at.sized;
          reached = at.reached;
          last_sent = at.last_sent;
          stored = at.stored;
          fed = at.fed;
          expected = at.expected;
        },
        off,
        len,
      )

  again-Sent :
      (n size : ℕ) (sha image b : Bytes) (now : ℕ) (u : Update)
      → Sent size sha image b u
      → Fits b
      → Sent size sha image b (again n now (length image) b u)
  unfolding again
  again-Sent zero size sha image b now u s fits = s
  again-Sent (suc n) size sha image b now u s fits =
      again-Sent n size sha image b now
        (ota_data c keys sha256 project_name (length image) b true now u).1
        (data-Sent size sha image b now u s fits) fits

  deliver-At :
      (bs : List (ℕ × Bytes)) (size : ℕ) (sha image : Bytes) (now : ℕ) (u : Update)
      → At size sha image u
      → All (λ p. Fits p.1) bs
      → size < 2 ^ 32
      → length image + length (concat bs) ≤ size
      → 0 < length image
      → At size sha (image ++ concat bs) (deliver now (length image) bs u)
  unfolding deliver send
  deliver-At [] size sha image now u at fits small room begun = rw (append-nil image) at
  deliver-At ((n, b) ∷ bs) size sha image now u at (fit, fits) small room begun =
      let split = length-append b (concat bs) in
      let sized = length-append image b in
      let (at', off, len) =
        again-Sent n size sha image b now
          (ota_data c keys sha256 project_name (length image) b true now u).1
          (write-Sent size sha image b now u at fit small (omega arith) (λ z. absurd (omega arith)))
          fit in
      rw (sym sized, sym (append_assoc image b (concat bs)))
        (deliver-At bs size sha (image ++ b) now (send n now (length image) b u) at' fits small
          (omega arith) (omega arith))

  begin_checked-At :
      (size : ℕ) (part : Option ℕ) (erased : Bool) (now : ℕ) (u u0 : Update)
      → begin_checked size part erased now u ≡ (done, u0)
      → At size u0.sig.sha256 [] u0
  unfolding begin_checked seq_begin
  begin_checked-At size none erased now u u0 h = absurd (cc)
  begin_checked-At size (some room) erased now u u0 h =
      elim (Bool-cases (ltb size img_desc_end || ltb room size)) [
        | inl e ↦ absurd (let h' = rw e at h in cc)
        | inr e ↦ elim (Bool-cases (not erased)) [
          | inl g ↦ absurd (let h' = rw (e, g) at h in cc)
          | inr g ↦
              let started : Update = record u {
                seq = seq_begin size;
                hashed = [];
                image = [];
                last_us = now;
              } in
              let same : started ≡ u0 = ap (λ (r : OtaResult × Update). r.1) (rw (e, g) at h) in
              subst (λ (x : Update). At size x.sig.sha256 [] x) same
                (record {
                  running = refl;
                  sized = refl;
                  reached = refl;
                  last_sent = omega arith;
                  stored = refl;
                  fed = refl;
                  expected = refl;
                })
        ]
      ]

  begun-At :
      (size : ℕ) (manifest : Option Bytes) (part : Option ℕ) (erased : Bool) (now : ℕ)
      (u u0 : Update)
      → ota_begin c keys sha256 project_name size manifest part erased now u ≡ (done, u0)
      → At size u0.sig.sha256 [] u0
  unfolding ota_begin
  begun-At size manifest part erased now u u0 h =
      let r = fwsig_check c manifest keys target_bridge size u.sig in
      let w : Update = record (abort u) { part_size = part; sig = r.1 } in
      elim (sig_ok-cases r.0) [
        | inl e ↦
            let q : ota_begin c keys sha256 project_name size manifest part erased now u
                ≡ begin_checked size part erased now w =
              ground arith in
            begin_checked-At size part erased now w u0 (sym q ∙ h)
        | inr e ↦
            let q : (ota_begin c keys sha256 project_name size manifest part erased now u).0
                ≡ not_verified =
              ground arith in
            absurd (cc)
      ]

  ended :
      (size : ℕ) (sha image : Bytes) (u : Update)
      → At size sha image u
      → length image ≡ size
      → sha256 image ≡ sha
      → ((ota_end c keys sha256 project_name end_ok true u).0 ≡ done)
        × ((ota_end c keys sha256 project_name end_ok true u).1.boots ≡ some image)
  unfolding ota_end end_complete seq_complete
  ended size sha image u at whole hash =
      let complete : (u.seq.next == u.seq.size) ≡ true = ground arith in
      let matches : str_eq (sha256 u.hashed) u.sig.sha256 ≡ true =
        (str_eq_iff (sha256 u.hashed) u.sig.sha256).1
          (ap sha256 at.fed ∙ (hash ∙ sym at.expected)) in
      (
        rw (at.running, complete, matches) refl,
        rw (at.running, complete, matches) (ap some at.stored),
      )

  -- Once ota_begin took an update, an image of its size and hash that is sent in chunks of 1 to 1024
  -- bytes, one behind the other and each any number of times, is set to be booted when ota_end comes:
  -- where the first chunk names the project, and the flash takes all.
  pub delivered :
      (size : ℕ) (manifest : Option Bytes) (part : Option ℕ) (erased : Bool) (now : ℕ)
      (u u0 : Update) (n : ℕ) (b : Bytes) (bs : List (ℕ × Bytes))
      → ota_begin c keys sha256 project_name size manifest part erased now u ≡ (done, u0)
      → size < 2 ^ 32
      → Fits b
      → All (λ p. Fits p.1) bs
      → names_project project_name b ≡ true
      → length (concat ((n, b) ∷ bs)) ≡ size
      → sha256 (concat ((n, b) ∷ bs)) ≡ u0.sig.sha256
      → ((ota_end c keys sha256 project_name end_ok true (deliver now 0 ((n, b) ∷ bs) u0)).0 ≡ done)
        × ((ota_end c keys sha256 project_name end_ok true (deliver now 0 ((n, b) ∷ bs) u0)).1.boots
            ≡ some (concat ((n, b) ∷ bs)))
  unfolding deliver send
  delivered size manifest part erased now u u0 n b bs h small fit fits named whole hash =
      let sha = u0.sig.sha256 in
      let split = length-append b (concat bs) in
      let begun = begun-At size manifest part erased now u u0 h in
      let (at, off, len) =
        again-Sent n size sha [] b now (ota_data c keys sha256 project_name 0 b true now u0).1
          (write-Sent size sha [] b now u0 begun fit small (omega arith) (λ z. named)) fit in
      let sum : 0 + length b ≡ length b = omega arith in
      rw sum (
        ended size sha (b ++ concat bs) (deliver now (length b) bs (send n now 0 b u0))
          (deliver-At bs size sha b now (send n now 0 b u0) at fits small (omega arith)
            (omega arith))
          whole hash)
