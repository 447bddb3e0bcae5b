-- ===== src/Bridge/Wire/Tests.antt =====
-- Concrete frames.
use benchpod_firmware.Base.{
  ◌+◌, ◌≤◌, ◌≡◌, refl, ◌↔◌, ◌⊎◌, true, Option, none, some, List, [], ◌∷◌, ◌++◌, arith, length, take,
  drop, replicate, All, Bytes, str_eq,
}
use benchpod_firmware.Bridge.Wire.{
  verify, verified, auth_mac, auth_loop, iter_next, tlv_valid, get_u32, find, find_loop, get_be32,
  tag_auth, tag_counter, be32,
}
use benchpod_firmware.Bridge.Wire.Tlv.{Tlv, IsTlv, encode, assoc, tlv_valid_iff}
use benchpod_firmware.Bridge.Wire.Frame.{Mac, Ends, message}
use benchpod_firmware.Bridge.SetWifi.{
  WifiCreds, tag_ssid, tag_passphrase, tag_enc_passphrase, ssid_valid, passphrase_valid,
  parse_set_wifi, parse_set_wifi_lem,
}
use benchpod_firmware.Bridge.Wire.Auth.{verify_lem}

abbrev a_mac : Mac
a_mac = record { m0 = 2; m1 = 0; m2 = 0; m3 = 0; m4 = 0; m5 = 1 }

abbrev b_mac : Mac
b_mac = record { m0 = 2; m1 = 0; m2 = 0; m3 = 0; m4 = 0; m5 = 2 }

abbrev two_ends : Ends
two_ends = record { dst = a_mac; src = b_mac }

abbrev some_tlvs : List Tlv
some_tlvs = (8, 65 ∷ 66 ∷ []) ∷ (15, be32 4096) ∷ []

abbrev an_hmac : Bytes → Bytes → Bytes
an_hmac key m = replicate 32 (length m)

tlv_valid_iff_example :
    (tlv_valid (8 ∷ 0 ∷ 1 ∷ 65 ∷ []) ≡ true)
    ↔ ((ts : List Tlv) × All IsTlv ts × ((8 ∷ 0 ∷ 1 ∷ 65 ∷ []) ≡ encode ts))
tlv_valid_iff_example =
    tlv_valid_iff (8 ∷ 0 ∷ 1 ∷ 65 ∷ [])
      (omega arith, (omega arith, (omega arith, (omega arith, tt))))

abbrev signed_tlvs : List Tlv
signed_tlvs = (tag_counter, be32 5) ∷ (tag_auth, replicate 16 16) ∷ []

abbrev signed_frame : Bytes
signed_frame = replicate 22 0 ++ encode signed_tlvs

signed_frame-verified :
    verify an_hmac signed_frame (message two_ends 2 7 signed_tlvs) (1 ∷ []) (2 ∷ []) ≡ verified 5
unfolding verify auth_mac auth_loop iter_next get_u32 find find_loop get_be32 encode str_eq
signed_frame-verified = refl

verify_lem_example :
    (init : List Tlv) × (mac : Bytes) × (signed_tlvs ≡ init ++ ((tag_auth, mac) ∷ []))
    × (assoc tag_auth init ≡ none)
    × (length mac ≡ 16)
    × (auth_mac an_hmac (1 ∷ []) (2 ∷ []) (take (8 + length (encode init)) (drop 14 signed_frame))
        ≡ mac)
    × (get_u32 (encode signed_tlvs) tag_counter ≡ some 5)
verify_lem_example =
    verify_lem an_hmac signed_tlvs signed_frame (message two_ends 2 7 signed_tlvs) (1 ∷ []) (2 ∷ [])
      5 refl signed_frame-verified

abbrev no_pass : Bytes → Bytes → Option Bytes
no_pass key sealed = none

-- An open network named "AB".
abbrev a_network : WifiCreds
a_network = record { ssid = 65 ∷ 66 ∷ []; passphrase = [] }

a_network-parsed : parse_set_wifi no_pass (message two_ends 4 7 some_tlvs) none ≡ some a_network
unfolding parse_set_wifi ssid_valid find find_loop iter_next encode
a_network-parsed = refl

parse_set_wifi_lem_example :
    (find (encode some_tlvs) tag_ssid ≡ some (65 ∷ 66 ∷ []))
    × (1 ≤ 2)
    × (2 ≤ 32)
    × (find (encode some_tlvs) tag_passphrase ≡ none)
    × ((find (encode some_tlvs) tag_enc_passphrase ≡ none) × (a_network.passphrase ≡ [])
        ⊎ ((k : Bytes) × (sealed : Bytes) × (none ≡ some k)
            × (find (encode some_tlvs) tag_enc_passphrase ≡ some sealed)
            × (no_pass k sealed ≡ some [])
            × (passphrase_valid [] ≡ true)))
parse_set_wifi_lem_example =
    parse_set_wifi_lem no_pass (message two_ends 4 7 some_tlvs) none a_network a_network-parsed
