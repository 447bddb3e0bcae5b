-- ===== src/StatusLed/Shown.antt =====
-- stm32h563/src/status_led.c: what is shown on the LED, over its calls.
use benchpod_firmware.Base.{
  ℕ, ◌≡◌, refl, ◌≢◌, Bool, true, false, Option, none, some, arith, ltb, if◌then◌else◌, inl, inr,
  sub32, Option-cases, not, ◌*◌,
}
use benchpod_firmware.StatusLed.{
  Led, Input, color, work_color, booted_color, emi_color, next_write, cyan, red, green, off,
  magenta, Emi, idle, waiting, running, failing, recovered, blink, fault_blink_ms, boot_blinks,
  boot_blink_ms,
}

-- The mask the LED holds after a call of `next_write`, from the one it held before.
unfoldable pub held : Option ℕ → ℕ → ℕ
held none old = old
held (some c) old = c

-- After each call the LED shows the colour asked for: a colour that is not sent is the one it shows.
pub next_write-held :
    (c now old : ℕ) (s : Led)
    → (s.written ≡ true → s.last ≡ old)
    → held (next_write c now s).0 old ≡ c
unfolding held next_write
next_write-held c now old s h = ground arith

-- The state after a call keeps what the LED shows.
pub next_write-last :
    (c now old : ℕ) (s : Led)
    → (s.written ≡ true → s.last ≡ old)
    → (next_write c now s).1.written ≡ true
    → (next_write c now s).1.last ≡ held (next_write c now s).0 old
unfolding held next_write
next_write-last c now old s h = ground arith

-- Where the hardware failed, the booted pod's LED is solid red whatever else holds.
pub failed-red :
    (i : Input) (now : ℕ) (s : Led) → i.boot_done ≡ true → i.hw_ok ≡ false → (color i now s).0 ≡ red
unfolding color booted_color
failed-red i now s d f = rw (d, f) refl

-- No flash: another colour than cyan, and none to come.
pub Quiet : ℕ × Led → Type 0
Quiet r = (r.0 ≢ cyan) × (r.1.cmd_armed ≡ false)

blink-Quiet : (t ms c : ℕ) → c ≢ cyan → blink t ms c ≢ cyan
blink-Quiet t ms c h = ground arith

emi_color-Quiet : (e : Emi) (now c : ℕ) → emi_color e now ≡ some c → c ≢ cyan
unfolding emi_color
emi_color-Quiet idle now c h = ground arith
emi_color-Quiet waiting now c h = ground arith
emi_color-Quiet running now c h = ground arith
emi_color-Quiet failing now c h = ground arith
emi_color-Quiet recovered now c h = ground arith

work_color-Quiet :
    (i : Input) (now : ℕ) (s : Led) → s.cmd_armed ≡ false → Quiet (work_color i now s)
unfolding work_color Quiet
work_color-Quiet i now s h = (ground arith, ground arith)

if-Quiet : (b : Bool) (x y : ℕ × Led) → Quiet x → Quiet y → Quiet (if b then x else y)
if-Quiet true x y p q = p
if-Quiet false x y p q = q

booted_color-Quiet :
    (i : Input) (now : ℕ) (s : Led) → s.cmd_armed ≡ false → Quiet (booted_color i now s)
unfolding booted_color Quiet
booted_color-Quiet i now s h =
    let fixed : (c : ℕ) → c ≢ cyan → Quiet (c, s) = λ c n. (n, h) in
    if-Quiet (not i.hw_ok) (red, s) _ (fixed red (ground arith))
      (if-Quiet i.power_fault (blink now fault_blink_ms red, s) _
        (fixed _ (blink-Quiet now fault_blink_ms red (ground arith)))
        (if-Quiet (ltb (sub32 now s.boot_ms) (boot_blinks * 2 * boot_blink_ms))
          (blink (sub32 now s.boot_ms) boot_blink_ms green, s) _
          (fixed _ (blink-Quiet (sub32 now s.boot_ms) boot_blink_ms green (ground arith)))
          (if-Quiet i.updating (magenta, s) _ (fixed magenta (ground arith))
            (elim (Option-cases (emi_color i.emi now)) [
              | inl n ↦ rw (n) (work_color-Quiet i now s h)
              | inr (c, is_c) ↦ rw (is_c) (fixed c (emi_color-Quiet i.emi now c is_c))
            ]))))

-- A flash that is over is not seen again, at any time, before another command.
pub color-Quiet : (i : Input) (now : ℕ) (s : Led) → s.cmd_armed ≡ false → Quiet (color i now s)
unfolding color Quiet
color-Quiet i now s h =
    if-Quiet (not i.boot_done) (off, s) _ ((λ e. ground arith), h)
      (booted_color-Quiet i now
        (if s.boot_seen then s else record s { boot_seen = true; boot_ms = now }) (ground arith))
