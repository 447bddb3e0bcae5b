-- ===== src/Bridge/SetWifi.antt =====
-- wifi-bridge/components/bridge_core/bwp.c: the Wi-Fi credentials of a SET_WIFI request. Opening a
-- sealed passphrase (bwp_crypto.c) is the parameter `open_pass` of the key and the sealed bytes.
use benchpod_firmware.Base.{
  ℕ, ◌≤◌, ◌≡◌, refl, ◌⊎◌, inl, inr, Bool, true, false, not, ◌&&◌, ◌||◌, Option, none, some, [], ◌∷◌,
  arith, ltb, leb, ◌==◌, if◌then◌else◌, Option-cases, length, Bytes,
}
use benchpod_firmware.Bridge.Wire.{Msg, find}

abbrev pub tag_ssid : ℕ
tag_ssid = 0x08

abbrev pub tag_passphrase : ℕ
tag_passphrase = 0x09

abbrev pub tag_enc_passphrase : ℕ
tag_enc_passphrase = 0x1B

unfoldable pub ssid_valid : Bytes → Bool
ssid_valid ssid = leb 1 (length ssid) && leb (length ssid) 32

pub is_hex : ℕ → Bool
is_hex c = (leb 48 c && leb c 57) || (leb 97 c && leb c 102) || (leb 65 c && leb c 70)

all_of : (ℕ → Bool) → Bytes → Bool
all_of test [] = true
all_of test (b ∷ bs) = test b && all_of test bs

-- Whether `char` is signed or not, a byte of 0x80 and above is no printable character.
abbrev printable : ℕ → Bool
printable c = leb 0x20 c && leb c 0x7E

pub passphrase_valid : Bytes → Bool
unfolding all_of is_hex
passphrase_valid pass =
    if length pass == 0
    then true
    else if length pass == 64
    then all_of is_hex pass
    else if ltb (length pass) 8 || ltb 63 (length pass)
    then false
    else all_of printable pass

-- `bwp_set_wifi_t`.
pub record WifiCreds : Type 0 where
  pub ssid : Bytes
  pub passphrase : Bytes

module _ (open_pass : Bytes → Bytes → Option Bytes) where
  -- The passphrase of a sealed TLV, or nothing where it is refused.
  pub unseal : Option Bytes → Bytes → Option Bytes
  unfolding passphrase_valid
  unseal none sealed = none
  unseal (some key) sealed = elim (open_pass key sealed) [
    | some pass ↦ if passphrase_valid pass then some pass else none
    | none ↦ none
  ]

  -- `bwp_parse_set_wifi`; `none` is BWP_E_BAD_REQUEST.
  unfoldable pub parse_set_wifi : Msg → Option Bytes → Option WifiCreds
  unfolding unseal ssid_valid
  parse_set_wifi m key = elim (find m.body tag_ssid) [
    | some ssid ↦ if not (ssid_valid ssid) then none else elim (find m.body tag_passphrase) [
      | some clear ↦ none
      | none ↦ elim (find m.body tag_enc_passphrase) [
        | some sealed ↦ elim (unseal key sealed) [
          | some pass ↦ some (record { ssid = ssid; passphrase = pass })
          | none ↦ none
        ]
        | none ↦ some (record { ssid = ssid; passphrase = [] })
      ]
    ]
    | none ↦ none
  ]

  unseal_lem :
      (key : Option Bytes) (sealed pass : Bytes)
      → unseal key sealed ≡ some pass
      → (k : Bytes) × (key ≡ some k)
        × (open_pass k sealed ≡ some pass)
        × (passphrase_valid pass ≡ true)
  unfolding unseal
  unseal_lem none sealed pass h = absurd (cc)
  unseal_lem (some key) sealed pass h = elim (Option-cases (open_pass key sealed)) [
    | inl e ↦ absurd (ground arith)
    | inr (p, e) ↦ let same : p ≡ pass = ground arith in (key, refl, ground arith, ground arith)
  ]

  -- What is stored has an SSID of 1 to 32 bytes, and no passphrase or one that was sealed under the
  -- pairing's key and is well formed; a request with a passphrase in the clear is never taken.
  pub parse_set_wifi_lem :
      (m : Msg) (key : Option Bytes) (c : WifiCreds)
      → parse_set_wifi m key ≡ some c
      → (find m.body tag_ssid ≡ some c.ssid)
        × (1 ≤ length c.ssid)
        × (length c.ssid ≤ 32)
        × (find m.body tag_passphrase ≡ none)
        × ((find m.body tag_enc_passphrase ≡ none) × (c.passphrase ≡ [])
            ⊎ ((k : Bytes) × (sealed : Bytes) × (key ≡ some k)
                × (find m.body tag_enc_passphrase ≡ some sealed)
                × (open_pass k sealed ≡ some c.passphrase)
                × (passphrase_valid c.passphrase ≡ true)))
  unfolding parse_set_wifi ssid_valid
  parse_set_wifi_lem m key c h = elim (Option-cases (find m.body tag_ssid)) [
    | inl e ↦ absurd (ground arith)
    | inr (ssid, e) ↦ elim (Option-cases (find m.body tag_passphrase)) [
      | inr (clear, f) ↦ absurd (ground arith)
      | inl f ↦ elim (Option-cases (find m.body tag_enc_passphrase)) [
        | inl g ↦
            let v : ssid_valid ssid ≡ true = ground arith in
            let q : c ≡ record { ssid = ssid; passphrase = [] } = ground arith in
            rw q (e, ground arith, ground arith, f, inl (g, refl))
        | inr (sealed, g) ↦ elim (Option-cases (unseal key sealed)) [
          | inl u ↦ absurd (ground arith)
          | inr (pass, u) ↦
              let v : ssid_valid ssid ≡ true = ground arith in
              let q : c ≡ record { ssid = ssid; passphrase = pass } = ground arith in
              let (k, ek, eo, ev) = unseal_lem key sealed pass u in
              rw q (e, ground arith, ground arith, f, inr (k, sealed, ek, g, eo, ev))
        ]
      ]
    ]
  ]
