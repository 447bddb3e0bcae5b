-- ===== src/Bridge/Requests.antt =====
-- wifi-bridge/main/control.c: its state, its answers, and what each request makes the bridge do. The
-- calls that leave the program (NVS, Wi-Fi, the reboot) are outputs, their results are the record
-- `World`; an answer is recorded with the key and the counter that it is signed with.
use benchpod_firmware.Base.{
  ℕ, Bool, true, false, Option, none, some, List, [], ◌∷◌, if◌then◌else◌, replicate, Bytes,
}
use benchpod_firmware.Access.FwSign.{Crypto}
use benchpod_firmware.Bridge.Wire.{find_left, Msg, find, get_u32}
use benchpod_firmware.Bridge.Pairing.{Pairing, PairVerdict, set_key, forget}
use benchpod_firmware.Bridge.SetWifi.{WifiCreds, parse_set_wifi}
use benchpod_firmware.Bridge.Forward.{Forwarder, link_down}
use benchpod_firmware.Bridge.Update.{
  Update, OtaResult, done, bad_request, storage, not_started, wrong_offset, not_verified,
  size_range, internal, wrong_image, EndOutcome, ota_begin, ota_data, ota_end,
}

-- The statics of control.c, with the update and the forwarder that it calls.
pub record Control : Type 0 where
  pub pair : Pairing
  pub pub_key : Bytes
  pub paired : Bool
  pub sign : Bool
  pub counter : ℕ
  pub update : Update
  pub forwarder : Forwarder

-- What the calls of a request return. `derived` is the key of bwp_pair_key for a fresh key pair with
-- this public key, from the pod's.
pub record World : Type 0 where
  pub public : Bytes
  pub derived : Bytes → Option Bytes
  pub key_stored : Bool
  pub scan_result : ℕ
  pub wifi_stored : Bool
  pub wifi_cleared : Bool
  pub creds_cleared : Bool
  pub key_cleared : Bool
  pub part : Option ℕ
  pub erased : Bool
  pub wrote : Bool
  pub ended : EndOutcome
  pub booted : Bool
  pub now : ℕ

-- The answers, by the codes that they carry.
pub data Answer : Type 0 where
  refusal : PairVerdict → Option ℕ → Answer
  pair_answer : ℕ → Option Bytes → Answer
  status_answer : Answer
  scan_answer : ℕ → Answer
  result_answer : ℕ → Answer
  chunk_answer : ℕ → ℕ → Answer

pub data Output : Type 0 where
  sends : Option (Bytes × ℕ) → Answer → Output
  confirms : Output
  stores_key : Bytes → Bytes → Output
  sets_wifi : WifiCreds → Output
  clears_wifi : Output
  clears_creds : Output
  clears_key : Output
  reboots : Output

abbrev pub tag_signature : ℕ
tag_signature = 0x1C

abbrev pub tag_image_size : ℕ
tag_image_size = 0x0F

abbrev pub tag_offset : ℕ
tag_offset = 0x10

abbrev pub tag_data : ℕ
tag_data = 0x11

-- The codes of `bwp_result_t`.
pub ota_code : OtaResult → ℕ
ota_code done = 0
ota_code bad_request = 1
ota_code storage = 4
ota_code not_started = 5
ota_code wrong_offset = 6
ota_code not_verified = 7
ota_code size_range = 8
ota_code internal = 9
ota_code wrong_image = 10

-- `send`: the answer, signed where `s_sign` says so.
unfoldable pub answer : Control → Answer → Output
answer s a = sends (if s.sign then some (s.pair.key, s.counter) else none) a

-- `forget_pairing`.
pub forget_pairing : Control → List Output × Control
forget_pairing s = (
  clears_key ∷ [],
  record s {
    pair = forget s.pair;
    pub_key = replicate 32 0;
    paired = false;
    forwarder = link_down s.forwarder;
  },
)

-- BWP_PAIR: the answer goes out before the key is switched.
unfoldable pub pair_request : World → Option Bytes → Control → List Output × Control
unfolding answer
pair_request w none s = (answer s (pair_answer 1 none) ∷ [], s)
pair_request w (some new_key) s = elim (w.derived new_key) [
  | none ↦ (answer s (pair_answer 1 none) ∷ [], s)
  | some key ↦
      if w.key_stored
      then (
        stores_key key w.public ∷ answer s (pair_answer 0 (some w.public)) ∷ [],
        record s { pair = set_key key s.pair; pub_key = w.public; paired = true },
      )
      else (stores_key key w.public ∷ answer s (pair_answer 4 none) ∷ [], s)
]

-- BWP_FACTORY_RESET: the key is cleared only once the credentials are.
pub reset_request : World → Control → List Output × Control
unfolding answer
reset_request w s =
    if w.creds_cleared
    then (
      clears_creds
          ∷ clears_key
          ∷ answer s (result_answer (if w.key_cleared then 0 else 4))
          ∷ reboots
          ∷ [],
      s,
    )
    else (clears_creds ∷ answer s (result_answer 4) ∷ reboots ∷ [], s)

module _ (open_pass : Bytes → Bytes → Option Bytes) where
  -- BWP_SET_WIFI.
  pub wifi_request : World → Msg → Control → List Output × Control
  unfolding answer
  wifi_request w m s =
      elim (parse_set_wifi open_pass m (if s.pair.paired then some s.pair.key else none)) [
        | none ↦ (answer s (result_answer 1) ∷ [], s)
        | some c ↦
            if s.update.seq.active
            then (answer s (result_answer 3) ∷ [], s)
            else (sets_wifi c ∷ answer s (result_answer (if w.wifi_stored then 0 else 4)) ∷ [], s)
      ]

module _ (c : Crypto) (keys : List Bytes) (sha256 : Bytes → Bytes) (project_name : Bytes) where
  -- BWP_OTA_BEGIN; without a SIGNATURE the pointer is left at the last value of the body.
  pub begin_request : World → Msg → Control → List Output × Control
  unfolding answer ota_code
  begin_request w m s = elim (get_u32 m.body tag_image_size) [
    | some size ↦
        let (r, u) =
          ota_begin c keys sha256 project_name size (find_left m.body tag_signature) w.part w.erased
            w.now s.update in
        (answer s (result_answer (ota_code r)) ∷ [], record s { update = u })
    | none ↦ (answer s (result_answer 1) ∷ [], s)
  ]

  -- BWP_OTA_DATA.
  pub data_request : World → Msg → Control → List Output × Control
  unfolding answer ota_code
  data_request w m s = elim (get_u32 m.body tag_offset) [
    | some offset ↦ elim (find m.body tag_data) [
      | some bytes ↦
          let (r, u) = ota_data c keys sha256 project_name offset bytes w.wrote w.now s.update in
          (answer s (chunk_answer (ota_code r) u.seq.next) ∷ [], record s { update = u })
      | none ↦ (answer s (chunk_answer 1 0) ∷ [], s)
    ]
    | none ↦ (answer s (chunk_answer 1 0) ∷ [], s)
  ]

  -- BWP_OTA_END.
  pub end_request : World → Control → List Output × Control
  unfolding answer ota_code
  end_request w s =
      let (r, u) = ota_end c keys sha256 project_name w.ended w.booted s.update in
      (answer s (result_answer (ota_code r)) ∷ [], record s { update = u })
