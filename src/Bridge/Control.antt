-- ===== src/Bridge/Control.antt =====
-- wifi-bridge/main/control.c: which requests reach what they ask for (`handle`).
mod Tests
pub mod Guard
use benchpod_firmware.Base.{
  ℕ, zero, suc, ◌+◌, ◌-◌, ◌*◌, ◌/◌, ◌%◌, ◌^◌, ◌≤◌, ◌<◌, min, max, bit_and, bit_or, bit_xor, ◌≡◌,
  refl, sym, ap, ◌∙◌, ◌≢◌, ◌↔◌, ◌⊎◌, inl, inr, Bool, true, false, not, ◌&&◌, ◌||◌, Option, none,
  some, List, [], ◌∷◌, ◌++◌, arith, ltb, leb, ◌==◌, if◌then◌else◌, Bool-cases, Option-cases, length,
  take, drop, set, get_or, replicate, All, length-append, length-set, length-take, length-drop,
  length-replicate, add32, sub32, mul32, add16, sub16, Bytes, codes, str_eq, str_eq_iff,
}
use benchpod_firmware.Access.FwSign.{Crypto}
use benchpod_firmware.Bridge.Wire.{
  find_left, Msg, Parsed, not_bwp, bad_version, malformed, ok, parse, find, get_u32,
}
use benchpod_firmware.Bridge.Pairing.{
  Pairing, PairVerdict, accept, store_key, replay, Outcome, check, set_key, forget, result,
  bwp_status, bwp_scan, bwp_pair,
}
use benchpod_firmware.Bridge.SetWifi.{WifiCreds, parse_set_wifi}
use benchpod_firmware.Bridge.Forward.{Forwarder, link_down}
use benchpod_firmware.Bridge.Update.{
  Update, OtaResult, done, bad_request, storage, not_started, wrong_offset, not_verified,
  size_range, internal, wrong_image, EndOutcome, ota_begin, ota_data, ota_end, abort,
}
use benchpod_firmware.Bridge.Requests.{
  Control, World, Answer, refusal, pair_answer, status_answer, scan_answer, result_answer,
  chunk_answer, Output, sends, confirms, stores_key, sets_wifi, clears_wifi, clears_creds,
  clears_key, reboots, answer, forget_pairing, pair_request, reset_request, wifi_request,
  begin_request, data_request, end_request,
}

module _ (hmac : Bytes → Bytes → Bytes) (open_pass : Bytes → Bytes → Option Bytes) where
  module _ (c : Crypto) (keys : List Bytes) (sha256 : Bytes → Bytes) (project_name : Bytes) where
    -- The `switch` of `handle`.
    pub serve : World → Msg → Option Bytes → Control → List Output × Control
    serve w m new_key s =
        if m.type == bwp_pair
        then pair_request w new_key s
        else if m.type == bwp_status
        then (answer s status_answer ∷ [], s)
        else if m.type == bwp_scan
        then (answer s (scan_answer w.scan_result) ∷ [], s)
        else if m.type == 0x04
        then wifi_request open_pass w m s
        else if m.type == 0x05
        then (clears_wifi ∷ answer s (result_answer (if w.wifi_cleared then 0 else 4)) ∷ [], s)
        else if m.type == 0x06
        then begin_request c keys sha256 project_name w m s
        else if m.type == 0x07
        then data_request c keys sha256 project_name w m s
        else if m.type == 0x08
        then end_request c keys sha256 project_name w s
        else if m.type == 0x0B
        then (answer s (result_answer 0) ∷ [], record s { update = abort s.update })
        else if m.type == 0x09
        then (answer s (result_answer 0) ∷ reboots ∷ [], s)
        else if m.type == 0x0A
        then reset_request w s
        else (answer s (result_answer 2) ∷ [], s)

    -- What the check let in: the answer is signed where the request was, and a new image is kept.
    pub admitted : World → Msg → Outcome → Control → List Output × Control
    unfolding serve
    admitted w m o s =
        let (os, s') = serve w m o.new_key (record s { sign = o.authed }) in (confirms ∷ os, s')

    pub refused : PairVerdict → Control → List Output × Control
    unfolding answer
    refused replay s = (answer s (refusal replay (some s.pair.last_counter)) ∷ [], s)
    refused v s = (answer s (refusal v none) ∷ [], s)

    pub by_verdict : PairVerdict → World → Msg → Outcome → Control → List Output × Control
    unfolding admitted refused
    by_verdict accept w m o s = admitted w m o s
    by_verdict store_key w m o s = admitted w m o s
    by_verdict v w m o s = refused v s

    pub request : World → Bytes → Msg → Control → List Output × Control
    unfolding by_verdict
    request w frame m s =
        let (o, p) = check hmac frame m s.pair in
        by_verdict o.verdict w m o (record s { pair = p; counter = o.counter })

    pub handle : World → Bytes → Control → List Output × Control
    unfolding request
    handle w frame s = elim (parse frame) [
      | ok m ↦ if m.type / 128 % 2 == 1 then ([], s) else request w frame m s
      | _ ↦ ([], s)
    ]

    -- The control task's part for a frame.
    pub receive : World → Bytes → Control → List Output × Control
    unfolding handle
    receive w frame s = let (os, s') = handle w frame s in (os, record s' { sign = false })
