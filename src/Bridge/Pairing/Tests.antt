-- ===== src/Bridge/Pairing/Tests.antt =====
-- A request that a paired bridge takes once.
use benchpod_firmware.Base.{◌≡◌, refl, true, false, [], ◌∷◌, ◌++◌, length, replicate, Bytes, str_eq}
use benchpod_firmware.Bridge.Wire.{
  Msg, verify, auth_mac, auth_loop, iter_next, get_u32, find, find_loop, get_be32, be32, tag_auth,
  tag_counter,
}
use benchpod_firmware.Bridge.Wire.Tlv.{encode}
use benchpod_firmware.Bridge.Pairing.{Pairing, check, check_paired, admit, refuse}
use benchpod_firmware.Bridge.Pairing.Replay.{request, forgotten, steps, replay_lem}

abbrev an_hmac : Bytes → Bytes → Bytes
an_hmac key m = replicate 32 (length m)

abbrev a_request : Msg
a_request = record {
  dst = [];
  src = [];
  version = 1;
  type = 2;
  seq = 7;
  body = encode ((tag_counter, be32 5) ∷ (tag_auth, replicate 16 16) ∷ []);
}

abbrev its_frame : Bytes
its_frame = replicate 22 0 ++ encode ((tag_counter, be32 5) ∷ (tag_auth, replicate 16 16) ∷ [])

abbrev paired_bridge : Pairing
paired_bridge = record { paired = true; key = 1 ∷ []; nonce = 2 ∷ []; last_counter = 4 }

a_request-authed : (check an_hmac its_frame a_request paired_bridge).0.authed ≡ true
unfolding check check_paired admit refuse verify auth_mac auth_loop iter_next get_u32 find find_loop
    get_be32 encode str_eq
a_request-authed = refl

replay_lem_example :
    (check an_hmac its_frame a_request (
      steps an_hmac
        (request its_frame a_request ∷ forgotten ∷ [])
        (check an_hmac its_frame a_request paired_bridge).1)).0.authed
    ≡ false
replay_lem_example =
    replay_lem an_hmac its_frame a_request paired_bridge
      (request its_frame a_request ∷ forgotten ∷ []) a_request-authed
