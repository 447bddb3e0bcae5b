-- ===== src/Bridge/Update/Valid.antt =====
-- What each operation of an update preserves.
use mathlib.Core.Path.{subst}
use benchpod_firmware.Base.{
  ℕ, ◌-◌, ◌^◌, ◌≤◌, ◌<◌, ◌≡◌, refl, sym, ap, ◌∙◌, ◌≢◌, ◌⊎◌, inl, inr, Bool, true, false, not, ◌&&◌,
  ◌||◌, Option, none, some, List, [], ◌++◌, arith, ltb, ◌==◌, if◌then◌else◌, Bool-cases, length,
  length-append, sub32, Bytes, str_eq, str_eq_iff,
}
use benchpod_firmware.Access.FwSign.{Crypto}
use benchpod_firmware.Bridge.Ota.{
  Seq, no_seq, Chunk, write, duplicate, bad_offset, too_large, inactive, seq_begin, seq_check,
  seq_advance, seq_complete, img_desc_end,
}
use benchpod_firmware.Bridge.FwSig.{
  FwSig, SigResult, sig_ok, sig_format, unknown_key, bad_signature, wrong_target, wrong_image,
  target_bridge, fwsig_check, Accepted, fwsig_check-Accepted,
}
use benchpod_firmware.Bridge.Update.{
  names_project, idle_us, chunk_max, Update, EndOutcome, end_ok, validate_failed, end_failed, abort,
  poll, begin_checked, ota_begin, data_chunk, ota_data, end_complete, ota_end,
}

pub sig_ok-cases : (v : SigResult) → (v ≡ sig_ok) ⊎ (v ≢ sig_ok)
sig_ok-cases sig_ok = inl refl
sig_ok-cases sig_format = inr (λ e. absurd (cc))
sig_ok-cases unknown_key = inr (λ e. absurd (cc))
sig_ok-cases bad_signature = inr (λ e. absurd (cc))
sig_ok-cases wrong_target = inr (λ e. absurd (cc))
sig_ok-cases wrong_image = inr (λ e. absurd (cc))

module _ (c : Crypto) (keys : List Bytes) (sha256 : Bytes → Bytes) (project_name : Bytes) where
  -- An image that a manifest under a listed key was signed for: its size and its hash.
  pub IsTrusted : Bytes → Type 0
  IsTrusted image = (m : FwSig) × Accepted c keys m (length image) × (sha256 image ≡ m.sha256)

  -- A transfer: what was written is what was hashed, and it is the announced image's beginning.
  pub InOrder : Update → Type 0
  InOrder u =
      u.seq.active ≡ true
      → Accepted c keys u.sig u.seq.size
        × (u.hashed ≡ u.image)
        × (length u.image ≡ u.seq.next)
        × (u.seq.next ≤ u.seq.size)
        × (u.seq.size < 2 ^ 32)

  unfoldable pub IsValid : Update → Type 0
  IsValid u = InOrder u × ((image : Bytes) → u.boots ≡ some image → IsTrusted image)

  -- Without a transfer only the boot image counts.
  pub idle-IsValid :
      (u : Update)
      → u.seq.active ≡ false
      → ((image : Bytes) → u.boots ≡ some image → IsTrusted image)
      → IsValid u
  unfolding IsValid InOrder
  idle-IsValid u e b = (λ h. absurd (cc), b)

  abort-idle : (u : Update) → ((abort u).seq.active ≡ false) × ((abort u).boots ≡ u.boots)
  unfolding abort
  abort-idle u = ground arith

  pub abort-IsValid : (u : Update) → IsValid u → IsValid (abort u)
  unfolding IsValid
  abort-IsValid u (o, b) =
      let (e, k) = abort-idle u in idle-IsValid (abort u) e (λ image h. b image (sym k ∙ h))

  pub poll-IsValid : (now : ℕ) (u : Update) → IsValid u → IsValid (poll now u)
  unfolding poll
  poll-IsValid now u v =
      let a = abort-IsValid u v in
      elim (Bool-cases (u.seq.active && ltb idle_us (now - u.last_us))) [
        | inl e ↦ rw e a
        | inr e ↦ rw e v
      ]

  pub seq_check-write :
      (s : Seq) (offset len : ℕ)
      → seq_check s offset len ≡ write
      → (s.active ≡ true) × (offset ≡ s.next) × (len ≤ sub32 s.size s.next)
  unfolding seq_check
  seq_check-write s offset len h = ground arith

  -- The state once a chunk is written.
  unfoldable pub took : ℕ → Bytes → Update → Update
  took offset bytes u = record u {
    seq = seq_advance u.seq offset (length bytes);
    hashed = u.hashed ++ bytes;
    image = u.image ++ bytes;
  }

  took-IsValid :
      (offset : ℕ) (bytes : Bytes) (u : Update)
      → seq_check u.seq offset (length bytes) ≡ write
      → IsValid u
      → IsValid (took offset bytes u)
  unfolding took IsValid InOrder seq_advance
  took-IsValid offset bytes u e (o, b) =
      let (active, next, fits) = seq_check-write u.seq offset (length bytes) e in
      let (acc, same, len, le, small) = o active in
      let n = length-append {0} u.image bytes in
      (λ h. (acc, ap (λ x. x ++ bytes) same, omega arith, omega arith, small), b)

  data_chunk-took :
      (offset : ℕ) (bytes : Bytes) (wrote : Bool) (u : Update)
      → ((data_chunk c keys sha256 project_name write offset bytes wrote u).1 ≡ u)
        ⊎ ((data_chunk c keys sha256 project_name write offset bytes wrote u).1
            ≡ took offset bytes u)
  unfolding data_chunk took
  data_chunk-took offset bytes wrote u =
      elim (Bool-cases (offset == 0 && not (names_project project_name bytes) || not wrote)) [
        | inl r ↦ inl (ground arith)
        | inr r ↦ inr (ground arith)
      ]

  data_chunk-IsValid :
      (k : Chunk) (offset : ℕ) (bytes : Bytes) (wrote : Bool) (u : Update)
      → seq_check u.seq offset (length bytes) ≡ k
      → IsValid u
      → IsValid (data_chunk c keys sha256 project_name k offset bytes wrote u).1
  unfolding data_chunk
  data_chunk-IsValid inactive offset bytes wrote u e v = v
  data_chunk-IsValid duplicate offset bytes wrote u e v = v
  data_chunk-IsValid bad_offset offset bytes wrote u e v = v
  data_chunk-IsValid too_large offset bytes wrote u e v = v
  data_chunk-IsValid write offset bytes wrote u e v = elim (data_chunk-took offset bytes wrote u) [
    | inl s ↦ subst IsValid (sym s) v
    | inr s ↦ subst IsValid (sym s) (took-IsValid offset bytes u e v)
  ]

  -- `s_last_us`, of a transfer that goes on.
  pub touch : ℕ → Update → Update
  touch now u = if u.seq.active then record u { last_us = now } else u

  touch-IsValid : (now : ℕ) (u : Update) → IsValid u → IsValid (touch now u)
  unfolding touch IsValid InOrder
  touch-IsValid now u v = elim (Bool-cases u.seq.active) [
    | inl e ↦
        let q : touch now u ≡ record u { last_us = now } = ground arith in
        let v' : IsValid (record u { last_us = now }) = v in subst IsValid (sym q) v'
    | inr e ↦ let q : touch now u ≡ u = ground arith in subst IsValid (sym q) v
  ]

  pub ota_data-IsValid :
      (offset : ℕ) (bytes : Bytes) (wrote : Bool) (now : ℕ) (u : Update)
      → IsValid u
      → IsValid (ota_data c keys sha256 project_name offset bytes wrote now u).1
  unfolding ota_data touch
  ota_data-IsValid offset bytes wrote now u v =
      let k = seq_check u.seq offset (length bytes) in
      let u' = (data_chunk c keys sha256 project_name k offset bytes wrote u).1 in
      let v' = touch-IsValid now u' (data_chunk-IsValid k offset bytes wrote u refl v) in
      elim (Bool-cases (length bytes == 0 || ltb chunk_max (length bytes))) [
        | inl e ↦
            let q : (ota_data c keys sha256 project_name offset bytes wrote now u).1 ≡ u =
              ground arith in
            subst IsValid (sym q) v
        | inr e ↦
            let q : (ota_data c keys sha256 project_name offset bytes wrote now u).1
                ≡ touch now u' =
              ground arith in
            subst IsValid (sym q) v'
      ]

  -- The state once a transfer is begun.
  pub started : ℕ → ℕ → Update → Update
  started size now u = record u { seq = seq_begin size; hashed = []; image = []; last_us = now }

  started-IsValid :
      (size now : ℕ) (u : Update)
      → size < 2 ^ 32
      → Accepted c keys u.sig size
      → ((image : Bytes) → u.boots ≡ some image → IsTrusted image)
      → IsValid (started size now u)
  unfolding started IsValid InOrder seq_begin
  started-IsValid size now u h a b = (λ x. (a, refl, refl, omega arith, h), b)

  begin_checked-IsValid :
      (size : ℕ) (part : Option ℕ) (erased : Bool) (now : ℕ) (u : Update)
      → size < 2 ^ 32
      → u.seq.active ≡ false
      → Accepted c keys u.sig size
      → ((image : Bytes) → u.boots ≡ some image → IsTrusted image)
      → IsValid (begin_checked size part erased now u).1
  unfolding begin_checked started
  begin_checked-IsValid size none erased now u h i a b = idle-IsValid u i b
  begin_checked-IsValid size (some room) erased now u h i a b =
      elim (Bool-cases ((ltb size img_desc_end || ltb room size) || not erased)) [
        | inl e ↦
            let q : (begin_checked size (some room) erased now u).1 ≡ u = ground arith in
            subst IsValid (sym q) (idle-IsValid u i b)
        | inr e ↦
            let q : (begin_checked size (some room) erased now u).1 ≡ started size now u =
              ground arith in
            subst IsValid (sym q) (started-IsValid size now u h a b)
      ]

  pub ota_begin-IsValid :
      (size : ℕ) (manifest : Option Bytes) (part : Option ℕ) (erased : Bool) (now : ℕ) (u : Update)
      → size < 2 ^ 32
      → IsValid u
      → IsValid (ota_begin c keys sha256 project_name size manifest part erased now u).1
  unfolding ota_begin IsValid
  ota_begin-IsValid size manifest part erased now u h (o, b) =
      let (idle, kept) = abort-idle u in
      let r = fwsig_check c manifest keys target_bridge size u.sig in
      let b' : (image : Bytes) → (abort u).boots ≡ some image → IsTrusted image =
        λ image x. b image (sym kept ∙ x) in
      let w : Update = record (abort u) { part_size = part; sig = r.1 } in
      let no = idle-IsValid w idle b' in
      elim (sig_ok-cases r.0) [
        | inl e ↦
            let q : (ota_begin c keys sha256 project_name size manifest part erased now u).1
                ≡ (begin_checked size part erased now w).1 =
              ground arith in
            subst IsValid (sym q) (
              begin_checked-IsValid size part erased now w h idle
                (fwsig_check-Accepted c manifest keys size u.sig e) b')
        | inr e ↦
            let q : (ota_begin c keys sha256 project_name size manifest part erased now u).1 ≡ w =
              ground arith in
            subst IsValid (sym q) no
      ]

  end_complete-IsValid :
      (outcome : EndOutcome) (booted : Bool) (u : Update)
      → u.seq.active ≡ false
      → IsTrusted u.image
      → ((image : Bytes) → u.boots ≡ some image → IsTrusted image)
      → IsValid (end_complete outcome booted u).1
  unfolding end_complete
  end_complete-IsValid validate_failed booted u i t b = idle-IsValid u i b
  end_complete-IsValid end_failed booted u i t b = idle-IsValid u i b
  end_complete-IsValid end_ok true u i t b =
      idle-IsValid (record u { boots = some u.image }) i
        (λ image e. let eq : u.image ≡ image = ground arith in subst IsTrusted eq t)
  end_complete-IsValid end_ok false u i t b = idle-IsValid u i b

  pub ota_end-IsValid :
      (outcome : EndOutcome) (booted : Bool) (u : Update)
      → IsValid u
      → IsValid (ota_end c keys sha256 project_name outcome booted u).1
  unfolding ota_end IsValid IsTrusted InOrder seq_complete
  ota_end-IsValid outcome booted u (o, b) =
      let e = ota_end c keys sha256 project_name outcome booted u in
      let u' : Update = record u { seq = no_seq } in
      elim (Bool-cases (seq_complete u.seq)) [
        | inl all ↦ elim (Bool-cases (str_eq (sha256 u.hashed) u.sig.sha256)) [
          | inl same ↦
              let (acc, eq, len, le, small) = o (ground arith) in
              let full : length u.image ≡ u.seq.size = ground arith in
              let hash : sha256 u.image ≡ u.sig.sha256 =
                ap sha256 (sym eq) ∙ (str_eq_iff (sha256 u.hashed) u.sig.sha256).0 same in
              let t : IsTrusted u.image = (u.sig, rw full acc, hash) in
              let q : e.1 ≡ (end_complete outcome booted u').1 = ground arith in
              subst IsValid (sym q) (end_complete-IsValid outcome booted u' refl t b)
          | inr differ ↦
              let q : e.1 ≡ u' = ground arith in subst IsValid (sym q) (idle-IsValid u' refl b)
        ]
        | inr part ↦ let q : e.1 ≡ u = ground arith in subst IsValid (sym q) (o, b)
      ]
