-- ===== src/Ota/Stall.antt =====
-- stm32h563/src/ota.c: sessions that the watchdog drops.
use mathlib.Core.Path.{subst}
use benchpod_firmware.Ota.{
  Session, Phase, idle, receiving, verified, stage_idle_ms, verified_hold_ms,
}
use benchpod_firmware.Ota.End.{watchdog, abort, mark}
use benchpod_firmware.Ota.Owner.{session_active}
use benchpod_firmware.Ota.Sound.{Phase-cases}
use benchpod_firmware.Base.{ℕ, ◌^◌, ◌≤◌, ◌<◌, ◌≡◌, ◌≢◌, ◌⊎◌, inl, inr, true, arith, sub32}

-- How long a session may stand still.
abbrev pub hold_ms : Phase → ℕ
hold_ms verified = verified_hold_ms
hold_ms _ = stage_idle_ms

watchdog-idle : (now : ℕ) (s : Session) → s.phase ≡ idle → (watchdog now s).phase ≡ idle
unfolding watchdog
watchdog-idle now s e = ground arith

receiving-drop :
    (now : ℕ) (s : Session)
    → s.phase ≡ receiving
    → s.received ≡ s.wd_seen
    → s.wd_mark_ms ≢ 0
    → stage_idle_ms ≤ sub32 now s.wd_mark_ms
    → (watchdog now s).phase ≡ idle
unfolding watchdog abort
receiving-drop now s p r m e = ground arith

verified-drop :
    (now : ℕ) (s : Session)
    → s.phase ≡ verified
    → s.verified_mark_ms ≢ 0
    → verified_hold_ms ≤ sub32 now s.verified_mark_ms
    → (watchdog now s).phase ≡ idle
unfolding watchdog abort
verified-drop now s p m e = ground arith

receiving-tick :
    (now : ℕ) (s : Session)
    → s.phase ≡ receiving
    → ((watchdog now s).phase ≡ idle)
      ⊎ (((watchdog now s).phase ≡ receiving)
          × ((watchdog now s).received ≡ (watchdog now s).wd_seen)
          × (((watchdog now s).wd_mark_ms ≡ mark now)
              ⊎ (((watchdog now s).wd_mark_ms ≡ s.wd_mark_ms)
                  × (s.wd_mark_ms ≢ 0)
                  × (sub32 now s.wd_mark_ms < stage_idle_ms))))
unfolding watchdog abort
receiving-tick now s p = ground arith

verified-tick :
    (now : ℕ) (s : Session)
    → s.phase ≡ verified
    → ((watchdog now s).phase ≡ idle)
      ⊎ (((watchdog now s).phase ≡ verified)
          × (((watchdog now s).verified_mark_ms ≡ mark now)
              ⊎ (((watchdog now s).verified_mark_ms ≡ s.verified_mark_ms)
                  × (s.verified_mark_ms ≢ 0)
                  × (sub32 now s.verified_mark_ms < verified_hold_ms))))
unfolding watchdog abort
verified-tick now s p = ground arith

mark-held :
    (hold t1 t2 : ℕ) → t1 < 2 ^ 32 → t2 < 2 ^ 32 → hold < sub32 t2 t1 → hold ≤ sub32 t2 (mark t1)
mark-held hold t1 t2 a b e = ground arith

older-held :
    (hold m t1 t2 : ℕ)
    → m < 2 ^ 32
    → t1 < 2 ^ 32
    → t2 < 2 ^ 32
    → hold < 2 ^ 31
    → hold < sub32 t2 t1
    → sub32 t2 t1 ≤ 2 ^ 31
    → sub32 t1 m < hold
    → hold ≤ sub32 t2 m
older-held hold m t1 t2 a b c h e l d = omega arith

receiving-drops :
    (t1 t2 : ℕ) (s : Session)
    → s.phase ≡ receiving
    → s.wd_mark_ms < 2 ^ 32
    → t1 < 2 ^ 32
    → t2 < 2 ^ 32
    → stage_idle_ms < sub32 t2 t1
    → sub32 t2 t1 ≤ 2 ^ 31
    → (watchdog t2 (watchdog t1 s)).phase ≡ idle
receiving-drops t1 t2 s p w a b e l = elim (receiving-tick t1 s p) [
  | inl i ↦ watchdog-idle t2 (watchdog t1 s) i
  | inr (p', r, inl k) ↦
      let h = mark-held stage_idle_ms t1 t2 a b e in
      receiving-drop t2 (watchdog t1 s) p' r (rw k (ground arith)) (rw k h)
  | inr (p', r, inr (k, n, d)) ↦
      let h = older-held stage_idle_ms s.wd_mark_ms t1 t2 w a b (omega arith) e l d in
      receiving-drop t2 (watchdog t1 s) p' r (rw k n) (rw k h)
]

verified-drops :
    (t1 t2 : ℕ) (s : Session)
    → s.phase ≡ verified
    → s.verified_mark_ms < 2 ^ 32
    → t1 < 2 ^ 32
    → t2 < 2 ^ 32
    → verified_hold_ms < sub32 t2 t1
    → sub32 t2 t1 ≤ 2 ^ 31
    → (watchdog t2 (watchdog t1 s)).phase ≡ idle
verified-drops t1 t2 s p w a b e l = elim (verified-tick t1 s p) [
  | inl i ↦ watchdog-idle t2 (watchdog t1 s) i
  | inr (p', inl k) ↦
      let h = mark-held verified_hold_ms t1 t2 a b e in
      verified-drop t2 (watchdog t1 s) p' (rw k (ground arith)) (rw k h)
  | inr (p', inr (k, n, d)) ↦
      let h = older-held verified_hold_ms s.verified_mark_ms t1 t2 w a b (omega arith) e l d in
      verified-drop t2 (watchdog t1 s) p' (rw k n) (rw k h)
]

-- A session that is receiving or verified, whose watchdog runs at a time t1 and, with no call between,
-- at a time t2 later than its hold (120 s when receiving, 600 s when verified) and no more than 2^31
-- ms later, is idle then, whatever its marks are and wherever the 32-bit clock wraps around.
pub watchdog-drops :
    (t1 t2 : ℕ) (s : Session)
    → session_active s ≡ true
    → s.wd_mark_ms < 2 ^ 32
    → s.verified_mark_ms < 2 ^ 32
    → t1 < 2 ^ 32
    → t2 < 2 ^ 32
    → hold_ms s.phase < sub32 t2 t1
    → sub32 t2 t1 ≤ 2 ^ 31
    → (watchdog t2 (watchdog t1 s)).phase ≡ idle
watchdog-drops t1 t2 s act w v a b e l = elim (Phase-cases s.phase) [
  | inl p ↦ receiving-drops t1 t2 s p w a b (subst (λ q. hold_ms q < sub32 t2 t1) p e) l
  | inr (inl p) ↦ verified-drops t1 t2 s p v a b (subst (λ q. hold_ms q < sub32 t2 t1) p e) l
  | inr (inr p) ↦ ground arith
]
