-- ===== src/Bridge/Pairing.antt =====
-- wifi-bridge/components/bridge_core/pairing.c: which control requests the bridge takes, and from
-- whom. The key and the nonce are lists of bytes; HMAC-SHA256 is the parameter `hmac`.
mod Tests
pub mod Replay
use benchpod_firmware.Base.{
  ℕ, zero, suc, ◌+◌, ◌-◌, ◌*◌, ◌/◌, ◌%◌, ◌^◌, ◌≤◌, ◌<◌, min, max, bit_and, bit_or, bit_xor, ◌≡◌,
  refl, sym, ap, ◌∙◌, ◌≢◌, ◌↔◌, ◌⊎◌, inl, inr, Bool, true, false, not, ◌&&◌, ◌||◌, Option, none,
  some, List, [], ◌∷◌, ◌++◌, arith, ltb, leb, ◌==◌, if◌then◌else◌, Bool-cases, Option-cases, length,
  take, drop, set, get_or, replicate, All, length-append, length-set, length-take, length-drop,
  length-replicate, add32, sub32, mul32, add16, sub16, Bytes, codes, str_eq, str_eq_iff,
}
use benchpod_firmware.Bridge.Wire.{Msg, find, Verdict, verified, missing, bad_auth, verify}

abbrev pub bwp_status : ℕ
bwp_status = 0x02

abbrev pub bwp_scan : ℕ
bwp_scan = 0x03

abbrev pub bwp_pair : ℕ
bwp_pair = 0x0C

abbrev pub tag_pubkey : ℕ
tag_pubkey = 0x18

pub record Pairing : Type 0 where
  pub paired : Bool
  pub key : Bytes
  pub nonce : Bytes
  pub last_counter : ℕ

-- `pair_verdict_t`.
pub data PairVerdict : Type 0 where
  accept store_key not_paired already_paired auth_missing auth_bad replay bad_key : PairVerdict

-- What `pairing_check` gives: its verdict and the three results behind pointers.
pub record Outcome : Type 0 where
  pub verdict : PairVerdict
  pub authed : Bool
  pub counter : ℕ
  pub new_key : Option Bytes

abbrev pub set_key : Bytes → Pairing → Pairing
set_key key p = record p { key = key; paired = true; last_counter = 0 }

pub pairing_init : Bytes → Option Bytes → Pairing
pairing_init nonce none = record {
  paired = false;
  key = replicate 32 0;
  nonce = nonce;
  last_counter = 0;
}
pairing_init nonce (some key) =
    set_key key (record { paired = false; key = replicate 32 0; nonce = nonce; last_counter = 0 })

abbrev pub forget : Pairing → Pairing
forget p = record p { key = replicate 32 0; paired = false }

pub refuse : PairVerdict → ℕ → Outcome
refuse v c = record { verdict = v; authed = false; counter = c; new_key = none }

-- The end of `pairing_check`, for a request that is let in.
pub admit : Msg → Bool → ℕ → Outcome
admit m authed c =
    if m.type == bwp_pair
    then elim (find m.body tag_pubkey) [
      | some k ↦
          if length k == 32
          then record { verdict = store_key; authed = authed; counter = c; new_key = some k }
          else record { verdict = bad_key; authed = authed; counter = c; new_key = none }
      | none ↦ record { verdict = bad_key; authed = authed; counter = c; new_key = none }
    ]
    else record { verdict = accept; authed = authed; counter = c; new_key = none }

-- A paired bridge, by what `bwp_verify` said; the counter of a frame with a bad MAC is not read by
-- the callers, and is 0 here.
pub check_paired : Verdict → Msg → Pairing → Outcome × Pairing
unfolding refuse admit
check_paired missing m p =
    (refuse (if m.type == bwp_pair then already_paired else auth_missing) 0, p)
check_paired bad_auth m p = (refuse (if m.type == bwp_pair then already_paired else auth_bad) 0, p)
check_paired (verified c) m p =
    if leb c p.last_counter
    then (refuse replay c, p)
    else (admit m true c, record p { last_counter = c })

module _ (hmac : Bytes → Bytes → Bytes) where
  pub check : Bytes → Msg → Pairing → Outcome × Pairing
  unfolding check_paired refuse admit
  check frame m p =
      if p.paired
      then check_paired (verify hmac frame m p.key p.nonce) m p
      else if not (m.type == bwp_status) && not (m.type == bwp_scan) && not (m.type == bwp_pair)
      then (refuse not_paired 0, p)
      else (admit m false 0, p)

-- `bwp_result_t`, by its codes.
pub result : PairVerdict → ℕ
result accept = 0
result store_key = 0
result not_paired = 11
result already_paired = 13
result bad_key = 1
result _ = 12
