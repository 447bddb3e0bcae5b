-- ===== src/Access/Lease.antt =====
-- stm32h563/src/lease_gate.c: the lease by which a cloud job holds the pod. Times are `uint32_t`
-- milliseconds; a cast to `int32_t` is read off the top bit.
pub mod Deadline
mod Tests
use benchpod_firmware.Base.{
  ℕ, zero, suc, ◌+◌, ◌/◌, ◌^◌, Bool, true, false, not, ◌&&◌, ◌||◌, List, [], ◌∷◌, ltb, leb, ◌==◌,
  if◌then◌else◌, Bytes, add32, sub32, mul32,
}

-- LEASE_GATE_HOLDER_MAX less the NUL, and LEASE_GATE_MAX_S.
abbrev pub holder_max : ℕ
holder_max = 40

abbrev pub max_s : ℕ
max_s = 600

pub record Lease : Type 0 where
  pub held : Bool
  pub deadline_ms : ℕ
  pub holder : Bytes

-- A character of the label that is safe in any reply, or a '?'. Bytes from 0x80 on are negative.
unfoldable pub label_char : ℕ → ℕ
label_char c = if leb 0x20 c && ltb c 0x7f && not (c == b'"') && not (c == b'\\') then c else b'?'

-- The loop over the label, with room for `k` characters; no holder is the empty label.
unfoldable pub label : ℕ → Bytes → Bytes
label zero s = []
label (suc k) [] = []
label (suc k) (c ∷ s) = label_char c ∷ label k s

unfoldable pub clear : Lease → Lease
clear s = record s { held = false; holder = [] }

unfoldable pub update : Bool → Bytes → ℕ → ℕ → Lease → Lease
update held holder expires_in_s now_ms s =
    let capped = if ltb max_s expires_in_s then max_s else expires_in_s in
    if not held || expires_in_s == 0 then clear s else record {
      held = true;
      deadline_ms = add32 now_ms (mul32 capped 1000);
      holder = label holder_max holder;
    }

-- `(int32_t)(s_deadline_ms - now_ms) <= 0`.
abbrev pub is_over : ℕ → Bool
is_over left = left == 0 || leb (2 ^ 31) left

unfoldable pub expire : ℕ → Lease → Lease
expire now_ms s = if s.held && is_over (sub32 s.deadline_ms now_ms) then clear s else s

-- Whether a lease is in force, and the seconds left.
unfoldable pub active : Lease → ℕ → Bool × ℕ
active s now_ms =
    let left = sub32 s.deadline_ms now_ms in
    if not s.held
    then (false, 0)
    else if is_over left
    then (false, 0)
    else (true, add32 left 999 / 1000)
