-- ===== src/Bridge/Control/Tests.antt =====
-- A scan that an unpaired bridge is asked for.
use benchpod_firmware.Base.{
  ◌≡◌, ◌⊎◌, true, false, Option, none, [], ◌∷◌, ◌++◌, length, replicate, Bytes,
}
use benchpod_firmware.Access.FwSign.{Crypto}
use benchpod_firmware.Bridge.Pairing.{pairing_init}
use benchpod_firmware.Bridge.Forward.{forward_init}
use benchpod_firmware.Bridge.Update.{update_init, end_ok}
use benchpod_firmware.Bridge.Requests.{Control, World}
use benchpod_firmware.Bridge.Control.{receive}
use benchpod_firmware.Bridge.Control.Guard.{Answers, Opens, Signed, receive-guarded}

abbrev any_crypto : Crypto
any_crypto = record { sha512 = λ m. replicate 64 0; ed25519_check = λ signature key message. true }

abbrev a_hash : Bytes → Bytes
a_hash m = replicate 32 (length m)

abbrev no_pass : Bytes → Bytes → Option Bytes
no_pass key sealed = none

abbrev a_scan : Bytes
a_scan = replicate 12 2 ++ (0x88 ∷ 0xB5 ∷ 0x42 ∷ 0x57 ∷ 1 ∷ 3 ∷ 0 ∷ 9 ∷ 0 ∷ 0 ∷ replicate 38 0)

abbrev a_world : World
a_world = record {
  public = [];
  derived = λ key. none;
  key_stored = true;
  scan_result = 0;
  wifi_stored = true;
  wifi_cleared = true;
  creds_cleared = true;
  key_cleared = true;
  part = none;
  erased = true;
  wrote = true;
  ended = end_ok;
  booted = true;
  now = 0;
}

abbrev unpaired_bridge : Control
unpaired_bridge = record {
  pair = pairing_init (replicate 8 1) none;
  pub_key = [];
  paired = false;
  sign = false;
  counter = 0;
  update = update_init;
  forwarder = forward_init (replicate 6 2);
}

receive-guarded_example :
    Answers unpaired_bridge
      (receive (λ key. a_hash) no_pass any_crypto [] a_hash [] a_world a_scan unpaired_bridge)
    ⊎ (((pairing_init (replicate 8 1) none).paired ≡ false)
          × Opens unpaired_bridge (
              receive
                (λ key. a_hash)
                no_pass
                any_crypto
                []
                a_hash
                []
                a_world
                a_scan
                unpaired_bridge)
        ⊎ Signed (λ key. a_hash) no_pass any_crypto [] a_hash [] a_scan unpaired_bridge)
receive-guarded_example =
    receive-guarded (λ key. a_hash) no_pass any_crypto [] a_hash [] a_world a_scan unpaired_bridge
