-- ===== src/Ota/Owner.antt =====
-- stm32h563/src/ota.c: which transport the session belongs to, and the calls that check it.
pub mod Isolated
use benchpod_firmware.Ota.{
  Session, Phase, receiving, verified, failed, Target, World, set_err, owner_none, owner_lan,
  takeover_idle_ms, begin_signed, data_in,
}
use benchpod_firmware.Ota.End.{end, abort, reverify, watchdog, install_blob}
use benchpod_firmware.B64url.{decode64}
use benchpod_firmware.Access.FwSign.{Policy, manifest_len}
use benchpod_firmware.Base.{
  ℕ, Bool, true, false, not, ◌&&◌, ◌||◌, Option, none, some, List, [], ◌∷◌, arith, ltb, leb, ◌==◌,
  if◌then◌else◌, length, take, add32, sub32, Bytes, str_eq,
}

-- `session_active`.
abbrev pub session_active : Session → Bool
session_active s = elim s.phase [ receiving ↦ true | verified ↦ true | _ ↦ false ]

-- `is_lan`.
abbrev pub is_lan : ℕ → Bool
is_lan who = leb owner_lan who

abbrev pub may_adopt : ℕ → Session → Bool
may_adopt who s = s.orphan && is_lan who && is_lan s.owner

abbrev pub may_act : ℕ → Session → Bool
may_act who s = not (session_active s) || s.owner == owner_none || s.owner == who || may_adopt who s

-- `abandoned`.
abbrev pub abandoned : Session → Bool
abandoned s = leb takeover_idle_ms (sub32 s.clock_ms s.activity_ms)

abbrev pub may_replace : ℕ → Session → Bool
may_replace who s = may_act who s || s.owner == who || abandoned s

-- `adopt`.
unfoldable pub adopt : ℕ → Session → Session
adopt who s =
    let s' : Session =
      if session_active s && not (s.owner == who) && may_adopt who s
      then record s { owner = who }
      else s in
    if s'.owner == who then record s' { orphan = false } else s'

abbrev pub busy_msg : World → Session → Bytes
busy_msg w s = w.texts.busy s.target s.owner

-- `ota_busy_for`.
unfoldable pub busy_for : World → ℕ → Session → Option Bytes × Session
busy_for w who s = if may_act who s then (none, adopt who s) else (some (busy_msg w s), s)

-- `ota_busy_replace_for`.
unfoldable pub busy_replace_for : World → ℕ → Session → Option Bytes
busy_replace_for w who s = if may_replace who s then none else some (busy_msg w s)

-- `clear_refusal`.
unfoldable pub clear_refusal : ℕ → Session → Session
clear_refusal who s =
    if s.ref_owner == who then record s { ref_owner = owner_none; ref_err = [] } else s

-- `refuse`; the counter has 32 bits, the text 95 characters.
unfoldable pub refuse : ℕ → Bytes → Bool → Session → Session
refuse who why fresh s =
    if may_replace who s
    then (let s1 = clear_refusal who s in
        let s2 : Session = if fresh then record s1 { ref_seq = add32 s1.ref_seq 1 } else s1 in
        record (set_err why s2) { owner = who; orphan = false })
    else if s.ref_owner == who && str_eq s.ref_err (take 95 why) && not fresh
    then s
    else record s { ref_owner = who; ref_err = take 95 why; ref_seq = add32 s.ref_seq 1 }

-- `ota_begin_owned`.
unfoldable pub begin_owned :
    World → Policy → ℕ → ℕ → Bytes → Target → ℕ → Bytes → Session → Bool × Session
begin_owned w policy who size hex target version sig s = elim (busy_replace_for w who s) [
  | some busy ↦ (false, refuse who busy true s)
  | none ↦
      let s1 : Session = record (clear_refusal who s) { owner = who; orphan = false } in
      let begun = begin_signed w policy size hex target version sig s1 in
      (begun.0, record (begun.1) { activity_ms = s1.clock_ms })
]

-- `ota_sig_decode`.
unfoldable pub sig_decode : Bytes → Option Bytes
sig_decode [] = some []
sig_decode (c ∷ b64) = if ltb 172 (length (c ∷ b64)) then none else elim (decode64 132 (c ∷ b64)) [
  | none ↦ none
  | some got ↦ if length got == manifest_len then some got else none
]

-- `ota_begin_owned_b64`: a manifest that cannot be decoded is passed on as one byte, here a 0.
unfoldable pub begin_owned_b64 :
    World → Policy → ℕ → ℕ → Bytes → Target → ℕ → Bytes → Session → Bool × Session
begin_owned_b64 w policy who size hex target version b64 s =
    let sig : Bytes = elim (sig_decode b64) [ none ↦ 0 ∷ [] | some got ↦ got ] in
    begin_owned w policy who size hex target version sig s

-- `ota_data_by`.
unfoldable pub data_by : World → ℕ → ℕ → ℕ → Bool → Session → Bool × Session
data_by w who offset len wrote s =
    let asked = busy_for w who s in
    elim asked.0 [
      | some busy ↦ (false, refuse who busy false asked.1)
      | none ↦ data_in offset len wrote asked.1
    ]

-- `ota_end_by`.
unfoldable pub end_by :
    World → Policy → (ℕ → ℕ → Option Bytes) → Option Bytes → ℕ → Session → Bool × Session
end_by w policy read invalid who s =
    let asked = busy_for w who s in
    elim asked.0 [
      | some busy ↦ (false, refuse who busy false asked.1)
      | none ↦
          let ended = end w policy read invalid asked.1 in
          (ended.0, record (ended.1) { activity_ms = asked.1.clock_ms })
    ]

-- `ota_abort_by`.
unfoldable pub abort_by : ℕ → Session → Bool × Session
abort_by who s = if not (may_replace who s) then (false, s) else (true, abort (clear_refusal who s))

-- `ota_owner_gone`.
unfoldable pub owner_gone : ℕ → Session → Session
owner_gone who s =
    if session_active s && s.owner == who && is_lan who then record s { orphan = true } else s

-- `ota_view_t`.
pub record View : Type 0 where
  pub phase : Phase
  pub received : ℕ
  pub size : ℕ
  pub error : Bytes
  pub refusals : ℕ

-- `ota_view_for`.
unfoldable pub view_for : ℕ → Session → View
view_for who s =
    if not (who == owner_none) && s.ref_owner == who
    then record { phase = failed; received = 0; size = 0; error = s.ref_err; refusals = s.ref_seq }
    else record {
      phase = s.phase;
      received = s.received;
      size = s.size;
      error = s.err;
      refusals = s.ref_seq;
    }

-- The calls of a transport.
pub data Request : Type 0 where
  begin : Policy → ℕ → Bytes → Target → ℕ → Bytes → Request
  data_chunk : ℕ → ℕ → Bool → Request
  finish : Policy → (ℕ → ℕ → Option Bytes) → Option Bytes → Request
  ask : Request
  give_up : Request
  complain : Bytes → Request
  gone : Request

-- The session after a call of `who`.
unfoldable pub serve : World → ℕ → Request → Session → Session
serve w who (begin policy size hex target version b64) s =
    (begin_owned_b64 w policy who size hex target version b64 s).1
serve w who (data_chunk offset len wrote) s = (data_by w who offset len wrote s).1
serve w who (finish policy read invalid) s = (end_by w policy read invalid who s).1
serve w who ask s = (busy_for w who s).1
serve w who give_up s = (abort_by who s).1
serve w who (complain why) s = refuse who why true s
serve w who gone s = owner_gone who s

unfoldable pub serve_all : World → List (ℕ × Request) → Session → Session
serve_all w [] s = s
serve_all w (r ∷ rs) s = serve_all w rs (serve w r.0 r.1 s)

-- What happens to the session: a call, the watchdog of the worker's pass, a firmware image hashed again
-- before it is committed, a blob installed.
pub data Event : Type 0 where
  call : ℕ → Request → Event
  tick : ℕ → Event
  hash_again : (ℕ → ℕ → Option Bytes) → Event
  install : Option Bytes → Bool → Event

unfoldable pub happen : World → Event → Session → Session
happen w (call who r) s = serve w who r s
happen w (tick now) s = watchdog now s
happen w (hash_again read) s = (reverify w read s).1
happen w (install refused wrote) s = (install_blob refused wrote s).1

unfoldable pub happen_all : World → List Event → Session → Session
happen_all w [] s = s
happen_all w (e ∷ es) s = happen_all w es (happen w e s)
