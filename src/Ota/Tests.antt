-- ===== src/Ota/Tests.antt =====
-- stm32h563/src/ota.c: runs on concrete inputs, and witnesses.
use benchpod_firmware.Ota.{
  Target, Session, idle, receiving, verified, ca, gw0, World, parse_hex, check_signature,
  begin_signed, started, data_in, session_init,
}
use benchpod_firmware.Ota.End.{
  validated, read_image, staged_hash_check, staged_fits, keeps_enforcement, staged_ok, end,
  watchdog,
}
use benchpod_firmware.Ota.Owner.{
  Request, begin, data_chunk, finish, give_up, complain, gone, adopt, busy_for, busy_replace_for,
  clear_refusal, refuse, begin_owned, begin_owned_b64, sig_decode, data_by, end_by, serve,
  serve_all, Event, call, tick, happen, happen_all,
}
use benchpod_firmware.Ota.Owner.Isolated.{update_of, IsHeld, serve_all-others}
use benchpod_firmware.Ota.Stall.{watchdog-drops}
use benchpod_firmware.Access.FwSign.{audit}
use benchpod_firmware.Base.{
  ℕ, ◌≡◌, refl, true, false, Option, none, some, List, [], ◌∷◌, arith, length, take, drop,
  replicate, Bytes, codes, str_eq,
}

-- A pod whose hash of an image is its length, 32 times.
abbrev pod_world : World
pod_world = record {
  crypto = record { sha512 = λ b. b; ed25519_check = λ sig key b. true };
  keys = [];
  sha256 = λ image. replicate 32 (length image);
  texts = record {
    busy = λ t who. codes "busy";
    signature = λ r. codes "signature";
    flash = λ need have. codes "flash";
  };
  pod = record { has_bridge = false; max_size = λ t. 1000; flash_kb = 2048 };
}

abbrev two_hash : Bytes
two_hash = codes "0202020202020202020202020202020202020202020202020202020202020202"

abbrev memory : Bytes
memory = 7 ∷ 8 ∷ 9 ∷ []

abbrev read_memory : ℕ → ℕ → Option Bytes
read_memory off n = some (take n (drop off memory))

-- The cloud stages two bytes, and a LAN connection calls between.
abbrev staging : Target → List Event
staging target =
    call 1 (begin audit 2 two_hash target 0 [])
    ∷ call 16 (begin audit 3 two_hash gw0 0 [])
    ∷ call 1 (data_chunk 0 2 true)
    ∷ call 17 (data_chunk 0 1 true)
    ∷ tick 5
    ∷ call 1 (finish audit read_memory none)
    ∷ []

staging_verifies : (happen_all pod_world (staging ca) session_init).phase ≡ verified
unfolding happen_all happen serve begin_owned_b64 sig_decode begin_owned busy_replace_for
    clear_refusal refuse begin_signed parse_hex check_signature started data_by busy_for adopt
    data_in watchdog end_by end staged_hash_check read_image staged_ok staged_fits keeps_enforcement
    validated str_eq
staging_verifies = refl

-- A gateware update of the cloud, 3 of 10 bytes received.
abbrev half_way : Session
half_way = record session_init {
  phase = receiving;
  size = 10;
  received = 3;
  target = gw0;
  owner = 1;
  clock_ms = 4000;
  activity_ms = 2000;
}

abbrev meddling : List (ℕ × Request)
meddling =
    (16, begin audit 3 two_hash gw0 0 [])
    ∷ (2, data_chunk 3 4 true)
    ∷ (17, finish audit read_memory none)
    ∷ (16, give_up)
    ∷ (2, complain (codes "heavy"))
    ∷ (16, gone)
    ∷ []

half_way-IsHeld : IsHeld half_way
unfolding IsHeld
half_way-IsHeld = (refl, refl, refl, refl)

serve_all-others_example : update_of (serve_all pod_world meddling half_way) ≡ update_of half_way
serve_all-others_example =
    serve_all-others pod_world meddling half_way half_way-IsHeld
      (omega arith, (omega arith, (omega arith, (omega arith, (omega arith, (omega arith, tt))))))

watchdog-drops_example : (watchdog 130000 (watchdog 4000 half_way)).phase ≡ idle
watchdog-drops_example =
    watchdog-drops 4000 130000 half_way refl (omega arith) (omega arith) (omega arith) (omega arith)
      (omega arith) (omega arith)
