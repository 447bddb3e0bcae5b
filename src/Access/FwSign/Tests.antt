-- ===== src/Access/FwSign/Tests.antt =====
-- A manifest under stand-ins for SHA-512 and Ed25519.
use benchpod_firmware.Base.{◌≡◌, str_eq, [], ◌++◌, codes, ◌∷◌, List, replicate, Bytes, refl}
use benchpod_firmware.Access.FwSign.{
  true, rd32, rd16, manifest_of, format_ok, key_id_of, find_key, drop, check_signed, str_eq, Crypto,
  accept, check_keys, wrong_target, required,
}
use benchpod_firmware.Access.FwSign.Accept.{Signed, required_only-Signed}

-- The id of a key is its first bytes; a signature is the first 64 bytes signed, byte for byte.
abbrev toy : Crypto
toy = record { sha512 = λ k. k ++ replicate 64 0; ed25519_check = λ s k m. str_eq s (drop 20 m) }

abbrev body : Bytes
body =
    codes "BPSG"
    ++ (1 ∷ 0 ∷ 1 ∷ 0 ∷ 16 ∷ 39 ∷ 0 ∷ 0 ∷ [])
    ++ replicate 32 5
    ++ replicate 12 0
    ++ replicate 8 9

abbrev manifest : Bytes
manifest = body ++ body

abbrev table : List Bytes
table = replicate 32 8 ∷ replicate 32 9 ∷ []

accepted : accept (check_keys toy manifest 1 10000 (replicate 32 5) table) required ≡ true
unfolding accept check_keys check_signed find_key key_id_of format_ok manifest_of rd16 rd32 str_eq
accepted = refl

other_target : check_keys toy manifest 0 10000 (replicate 32 5) table ≡ wrong_target
unfolding check_keys check_signed find_key key_id_of format_ok manifest_of rd16 rd32 str_eq
other_target = refl

required_only-Signed_example : Signed toy manifest 1 10000 (replicate 32 5) table
required_only-Signed_example =
    required_only-Signed toy manifest 1 10000 (replicate 32 5) table accepted
