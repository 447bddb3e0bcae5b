-- ===== src/Bridge/Update.antt =====
-- wifi-bridge/main/ota.c: the transfer of an update of the bridge. ESP-IDF's calls are given by their
-- outcomes, SHA-256 (hmac_sha256.c) by `sha256`; `image` is what esp_ota_write took of the transfer.
mod Tests
pub mod Valid
pub mod Trusted
pub mod Delivered
use benchpod_firmware.Base.{
  ℕ, zero, suc, ◌+◌, ◌-◌, ◌*◌, ◌/◌, ◌%◌, ◌^◌, ◌≤◌, ◌<◌, min, max, bit_and, bit_or, bit_xor, ◌≡◌,
  refl, sym, ap, ◌∙◌, ◌≢◌, ◌↔◌, ◌⊎◌, inl, inr, Bool, true, false, not, ◌&&◌, ◌||◌, Option, none,
  some, List, [], ◌∷◌, ◌++◌, arith, ltb, leb, ◌==◌, if◌then◌else◌, Bool-cases, Option-cases, length,
  take, drop, get_or, replicate, All, length-append, length-set, length-take, length-drop,
  length-replicate, add32, sub32, mul32, add16, sub16, Bytes, codes, str_eq, str_eq_iff,
}
use benchpod_firmware.Access.FwSign.{Crypto}
use benchpod_firmware.Bridge.Ota.{
  Seq, no_seq, Chunk, write, duplicate, bad_offset, too_large, inactive, seq_begin, seq_check,
  seq_advance, seq_complete, image_ident, img_desc_end,
}
use benchpod_firmware.Bridge.FwSig.{FwSig, no_sig, SigResult, sig_ok, target_bridge, fwsig_check}

-- The statics of ota.c. `hashed` is what `s_hash` was fed, `part_size` the partition of the transfer,
-- `boots` the image that esp_ota_set_boot_partition was last given.
pub record Update : Type 0 where
  pub seq : Seq
  pub sig : FwSig
  pub part_size : Option ℕ
  pub hashed : Bytes
  pub image : Bytes
  pub last_us : ℕ
  pub boots : Option Bytes

-- The answers of `bwp_result_t` that ota.c gives.
pub data OtaResult : Type 0 where
  done bad_request storage not_started wrong_offset not_verified size_range internal wrong_image :
      OtaResult

-- What esp_ota_end says of an image.
pub data EndOutcome : Type 0 where
  end_ok validate_failed end_failed : EndOutcome

abbrev pub chunk_max : ℕ
chunk_max = 1024

abbrev pub idle_us : ℕ
idle_us = 60 * 1000000

abbrev pub update_init : Update
update_init = record {
  seq = no_seq;
  sig = no_sig;
  part_size = none;
  hashed = [];
  image = [];
  last_us = 0;
  boots = none;
}

-- `abort_locked`, also `ota_abort`.
pub abort : Update → Update
abort u = if u.seq.active then record u { seq = no_seq } else u

pub poll : ℕ → Update → Update
unfolding abort
poll now u = if u.seq.active && ltb idle_us (now - u.last_us) then abort u else u

-- `ota_begin` with an accepted manifest: `part` is the size of the partition that was found, and
-- `erased` what esp_ota_begin said.
pub begin_checked : ℕ → Option ℕ → Bool → ℕ → Update → OtaResult × Update
begin_checked size none erased now u = (internal, u)
begin_checked size (some room) erased now u =
    if ltb size img_desc_end || ltb room size
    then (size_range, u)
    else if not erased
    then (storage, u)
    else (done, record u { seq = seq_begin size; hashed = []; image = []; last_us = now })

-- Whether the chunk starts an image of this project.
abbrev pub names_project : Bytes → Bytes → Bool
names_project project_name bytes = elim (image_ident bytes) [
  | some (project, version) ↦ str_eq project project_name
  | none ↦ false
]

-- `ota_end` once the image is complete; `booted` is what esp_ota_set_boot_partition said.
pub end_complete : EndOutcome → Bool → Update → OtaResult × Update
end_complete validate_failed booted u = (not_verified, u)
end_complete end_failed booted u = (internal, u)
end_complete end_ok booted u =
    if booted then (done, record u { boots = some u.image }) else (storage, u)

module _ (c : Crypto) (keys : List Bytes) (sha256 : Bytes → Bytes) (project_name : Bytes) where
  pub ota_begin : ℕ → Option Bytes → Option ℕ → Bool → ℕ → Update → OtaResult × Update
  unfolding abort begin_checked
  ota_begin size manifest part erased now u0 =
      let (v, sig) = fwsig_check c manifest keys target_bridge size u0.sig in
      let u = record (abort u0) { part_size = part; sig = sig } in
      let go = begin_checked size part erased now u in
      elim v [ sig_ok ↦ go | _ ↦ (not_verified, u) ]

  -- The cases of `ota_data`; `wrote` is what esp_ota_write said.
  pub data_chunk : Chunk → ℕ → Bytes → Bool → Update → OtaResult × Update
  data_chunk inactive offset bytes wrote u = (not_started, u)
  data_chunk duplicate offset bytes wrote u = (done, u)
  data_chunk bad_offset offset bytes wrote u = (wrong_offset, u)
  data_chunk too_large offset bytes wrote u = (size_range, u)
  data_chunk write offset bytes wrote u =
      if offset == 0 && not (names_project project_name bytes)
      then (wrong_image, u)
      else if not wrote
      then (storage, u)
      else (
        done,
        record u {
          seq = seq_advance u.seq offset (length bytes);
          hashed = u.hashed ++ bytes;
          image = u.image ++ bytes;
        },
      )

  -- The offset that the answer carries is `seq.next` of the state.
  pub ota_data : ℕ → Bytes → Bool → ℕ → Update → OtaResult × Update
  unfolding data_chunk
  ota_data offset bytes wrote now u =
      let (r, u') = data_chunk (seq_check u.seq offset (length bytes)) offset bytes wrote u in
      if length bytes == 0 || ltb chunk_max (length bytes)
      then (bad_request, u)
      else (r, if u'.seq.active then record u' { last_us = now } else u')

  pub ota_end : EndOutcome → Bool → Update → OtaResult × Update
  unfolding end_complete
  ota_end outcome booted u =
      let u' : Update = record u { seq = no_seq } in
      let ended = end_complete outcome booted u' in
      if not u.seq.active
      then (not_started, u)
      else if not (seq_complete u.seq)
      then (wrong_offset, u)
      else if not (str_eq (sha256 u.hashed) u.sig.sha256)
      then (not_verified, u')
      else ended
