-- ===== src/Bridge/Update/Tests.antt =====
-- An update of 112 bytes, from its manifest to the image that is booted.
use benchpod_firmware.Base.{
  ℕ, ◌≡◌, refl, true, some, List, [], ◌∷◌, ◌++◌, arith, replicate, All, Bytes, codes, str_eq,
}
use benchpod_firmware.Access.FwSign.{Crypto, byte_at, rd32, find_key, key_id_of}
use benchpod_firmware.Bridge.Ota.{
  until_nul, image_ident, seq_begin, seq_check, seq_advance, seq_complete,
}
use benchpod_firmware.Bridge.FwSig.{fwsig_check, sig_signed, sig_formatted, sig_of}
use benchpod_firmware.Bridge.Update.{
  Update, done, OtaResult, Update, OtaResult, done, names_project, end_ok, update_init, abort,
  begin_checked, ota_begin, data_chunk, ota_data, end_complete, ota_end,
}
use benchpod_firmware.Bridge.Update.Valid.{IsTrusted}
use benchpod_firmware.Bridge.Update.Delivered.{deliver, concat, delivered}
use benchpod_firmware.Bridge.Update.Trusted.{
  UpdateOp, begins, chunk, ends, IsOp, update_step, update_steps, boots-IsTrusted,
}

abbrev any_crypto : Crypto
any_crypto = record { sha512 = λ m. replicate 64 0; ed25519_check = λ signature key message. true }

abbrev the_keys : List Bytes
the_keys = (1 ∷ []) ∷ []

abbrev zero_hash : Bytes → Bytes
zero_hash m = replicate 32 0

abbrev an_image : Bytes
an_image =
    0xE9
    ∷ (replicate 31 0 ++ (0x32 ∷ 0x54 ∷ 0xCD ∷ 0xAB ∷ (replicate 44 0 ++ (98 ∷ replicate 31 0))))

abbrev a_manifest : Bytes
a_manifest = codes "BPSG" ++ (1 ∷ 0 ∷ 6 ∷ 0 ∷ 112 ∷ replicate 119 0)

abbrev an_update : List UpdateOp
an_update =
    begins 112 (some a_manifest) (some 200) true 0 ∷ chunk 0 an_image true 1 ∷ ends end_ok true ∷ []

an_update_boots :
    (update_steps any_crypto the_keys zero_hash (98 ∷ []) an_update update_init).boots
    ≡ some an_image
unfolding update_steps update_step ota_begin ota_data ota_end begin_checked data_chunk end_complete
    abort fwsig_check sig_signed sig_formatted sig_of find_key key_id_of rd32 byte_at image_ident
    until_nul seq_begin seq_check seq_advance seq_complete str_eq
an_update_boots = refl

an_update-All : All IsOp an_update
unfolding IsOp
an_update-All = (omega arith, (tt, (tt, tt)))

boots-IsTrusted_example : IsTrusted any_crypto the_keys zero_hash (98 ∷ []) an_image
boots-IsTrusted_example =
    boots-IsTrusted any_crypto the_keys zero_hash (98 ∷ []) an_update an_image an_update-All
      an_update_boots

-- The same image and a byte more, in two chunks that are sent again.
abbrev two_chunks : List (ℕ × Bytes)
two_chunks = (1, an_image) ∷ (2, 7 ∷ []) ∷ []

abbrev longer_manifest : Bytes
longer_manifest = codes "BPSG" ++ (1 ∷ 0 ∷ 6 ∷ 0 ∷ 113 ∷ replicate 119 0)

abbrev taken : OtaResult × Update
taken =
    ota_begin any_crypto the_keys zero_hash (98 ∷ []) 113 (some longer_manifest) (some 200) true 0
      update_init

-- What the theorem asks of ota_begin and of the image.
taken-done :
    (taken ≡ (done, taken.1))
    × (zero_hash (an_image ++ (7 ∷ [])) ≡ taken.1.sig.sha256)
    × (names_project (98 ∷ []) an_image ≡ true)
unfolding ota_begin begin_checked abort fwsig_check sig_signed sig_formatted sig_of find_key
    key_id_of rd32 byte_at seq_begin str_eq image_ident until_nul
taken-done = (refl, refl, refl)

delivered_example :
    ((ota_end any_crypto the_keys zero_hash
        (98 ∷ [])
        end_ok
        true
        (deliver any_crypto the_keys zero_hash (98 ∷ []) 0 0 two_chunks taken.1)).0
      ≡ done)
    × ((ota_end any_crypto the_keys zero_hash
          (98 ∷ [])
          end_ok
          true
          (deliver any_crypto the_keys zero_hash (98 ∷ []) 0 0 two_chunks taken.1)).1.boots
        ≡ some (concat two_chunks))
delivered_example =
    delivered any_crypto the_keys zero_hash (98 ∷ []) 113 (some longer_manifest) (some 200) true 0
      update_init taken.1 1 an_image ((2, 7 ∷ []) ∷ []) (taken-done.0) (omega arith) (omega arith)
      (omega arith) taken-done.2 refl taken-done.1
