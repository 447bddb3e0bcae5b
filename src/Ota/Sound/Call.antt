-- ===== src/Ota/Sound/Call.antt =====
-- stm32h563/src/ota.c: each call keeps what a session has been through.
use benchpod_firmware.Ota.{Session, Target, World}
use benchpod_firmware.Ota.Begin.{IsLetIn}
use benchpod_firmware.Ota.Owner.{clear_refusal, Event}
use benchpod_firmware.Ota.Sound.{IsBegun, core}
use benchpod_firmware.Access.FwSign.{Policy}
use benchpod_firmware.Base.{ℕ, ◌≡◌, List, arith, Bytes}

clear_refusal-core : (who : ℕ) (s : Session) → core (clear_refusal who s) ≡ core s
unfolding clear_refusal
clear_refusal-core who s = ground arith

module _ (w : World) (es : List Event) where
  -- A begin among the events, once it is let in.
  abbrev Begins : Policy → ℕ → Bytes → Target → Bytes → Type 0
  Begins policy size hex target sig =
      (expect : Bytes)
      → IsLetIn w policy size hex target sig expect
      → IsBegun w es target size expect
