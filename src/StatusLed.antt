-- ===== src/StatusLed.antt =====
-- stm32h563/src/status_led.c: the colour of the status LED from the pod's state, and which of its
-- colours are sent. Times are milliseconds that wrap at 2 ^ 32; the file's static variables are the
-- state `Led`.
mod Tests
pub mod Shown
use benchpod_firmware.Base.{
  ℕ, zero, suc, ◌+◌, ◌-◌, ◌*◌, ◌/◌, ◌%◌, ◌^◌, ◌≤◌, ◌<◌, min, max, bit_and, bit_or, bit_xor, ◌≡◌,
  refl, sym, ap, ◌∙◌, ◌≢◌, ◌↔◌, ◌⊎◌, inl, inr, Bool, true, false, not, ◌&&◌, ◌||◌, Option, none,
  some, List, [], ◌∷◌, ◌++◌, arith, ltb, leb, ◌==◌, if◌then◌else◌, sub32,
}

-- The STATUS_LED_* masks.
abbrev pub off : ℕ
off = 0

abbrev pub blue : ℕ
blue = 1

abbrev pub green : ℕ
green = 2

abbrev pub cyan : ℕ
cyan = 3

abbrev pub red : ℕ
red = 4

abbrev pub magenta : ℕ
magenta = 5

abbrev pub boot_blink_ms : ℕ
boot_blink_ms = 200

abbrev pub boot_blinks : ℕ
boot_blinks = 3

abbrev pub fault_blink_ms : ℕ
fault_blink_ms = 250

abbrev pub cmd_flash_ms : ℕ
cmd_flash_ms = 150

abbrev pub refresh_ms : ℕ
refresh_ms = 1000

abbrev pub emi_blink_ms : ℕ
emi_blink_ms = 1000

-- `status_led_emi_t`.
pub data Emi : Type 0 where
  idle : Emi
  waiting : Emi
  running : Emi
  failing : Emi
  recovered : Emi

-- `status_led_in_t`.
pub record Input : Type 0 where
  pub boot_done : Bool
  pub hw_ok : Bool
  pub power_fault : Bool
  pub power_on : Bool
  pub updating : Bool
  pub busy : Bool
  pub emi : Emi

pub record Led : Type 0 where
  pub boot_seen : Bool
  pub boot_ms : ℕ
  pub cmd_armed : Bool
  pub cmd_ms : ℕ
  pub written : Bool
  pub last : ℕ
  pub last_ms : ℕ

unfoldable pub reset : Led → Led
reset s = record s { boot_seen = false; cmd_armed = false; written = false }

unfoldable pub command : ℕ → Led → Led
command now s = record s { cmd_armed = true; cmd_ms = now }

abbrev pub within : ℕ → ℕ → ℕ → Bool
within now t ms = ltb (sub32 now t) ms

-- `status_led_emi_state`.
unfoldable pub emi_state : Bool → Bool → Bool → Bool → Emi
emi_state booted is_running failing_now failed_before =
    if not booted
    then if failed_before then recovered else waiting
    else if not is_running
    then idle
    else if failing_now
    then failing
    else if failed_before
    then recovered
    else running

-- A blink of `ms` on and `ms` off.
abbrev pub blink : ℕ → ℕ → ℕ → ℕ
blink t ms c = if bit_and (t / ms) 1 == 1 then off else c

-- The switch on the pattern of the EMI build: `none` where it goes on.
unfoldable pub emi_color : Emi → ℕ → Option ℕ
emi_color idle now = none
emi_color waiting now = some green
emi_color running now = some (blink now emi_blink_ms green)
emi_color failing now = some (blink now fault_blink_ms red)
emi_color recovered now = some (blink now emi_blink_ms blue)

-- The lines after the switch: busy, the flash of a command, the target's power.
unfoldable pub work_color : Input → ℕ → Led → ℕ × Led
work_color i now s =
    if i.busy
    then (blue, s)
    else if s.cmd_armed && within now s.cmd_ms cmd_flash_ms
    then (cyan, s)
    else (if i.power_on then green else off, record s { cmd_armed = false })

-- The lines from the failed hardware on, once the boot has been seen.
unfoldable pub booted_color : Input → ℕ → Led → ℕ × Led
unfolding emi_color work_color
booted_color i now s =
    let since = sub32 now s.boot_ms in
    if not i.hw_ok
    then (red, s)
    else if i.power_fault
    then (blink now fault_blink_ms red, s)
    else if ltb since (boot_blinks * 2 * boot_blink_ms)
    then (blink since boot_blink_ms green, s)
    else if i.updating
    then (magenta, s)
    else elim (emi_color i.emi now) [ none ↦ work_color i now s | some c ↦ (c, s) ]

-- `status_led_color`: the boot's blinks are timed from the first call that sees the boot done.
unfoldable pub color : Input → ℕ → Led → ℕ × Led
unfolding booted_color
color i now s =
    if not i.boot_done
    then (off, s)
    else booted_color i now
        (if s.boot_seen then s else record s { boot_seen = true; boot_ms = now })

unfoldable pub reset_write : Led → Led
reset_write s = record s { written = false }

-- `status_led_next_write`: the mask to send, `none` for -1.
unfoldable pub next_write : ℕ → ℕ → Led → Option ℕ × Led
next_write c now s =
    if s.written && c == s.last && within now s.last_ms refresh_ms
    then (none, s)
    else (some c, record s { written = true; last = c; last_ms = now })
