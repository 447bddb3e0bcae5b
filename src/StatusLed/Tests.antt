-- ===== src/StatusLed/Tests.antt =====
-- stm32h563/src/status_led.c: a flash after the boot's blinks, and a colour sent again after a second.
use benchpod_firmware.Base.{◌≡◌, refl, true, false, some, none}
use benchpod_firmware.StatusLed.{
  Led, Input, idle, failing, color, command, next_write, off, green, cyan, red, emi_color,
  work_color, booted_color, recovered, emi_state,
}

abbrev led : Led
led = record {
  boot_seen = true;
  boot_ms = 4294967000;
  cmd_armed = false;
  cmd_ms = 0;
  written = true;
  last = 2;
  last_ms = 4294967000;
}

abbrev powered : Input
powered = record {
  boot_done = true;
  hw_ok = true;
  power_fault = false;
  power_on = true;
  updating = false;
  busy = false;
  emi = idle;
}

flash : (color powered 2149 (command 2000 led)).0 ≡ cyan
unfolding color booted_color work_color emi_color command
flash = refl

flash_over : (color powered 2150 (command 2000 led)).0 ≡ green
unfolding color booted_color work_color emi_color command
flash_over = refl

second_boot_blink_gap : (color powered 305 led).0 ≡ off
unfolding color booted_color
second_boot_blink_gap = refl

fault_before_boot : (color (record powered { boot_done = false; power_fault = true }) 0 led).0 ≡ off
unfolding color
fault_before_boot = refl

emi_recovered : emi_state true true false true ≡ recovered
unfolding emi_state
emi_recovered = refl

emi_failing : (color (record powered { emi = failing; busy = true }) 5000 led).0 ≡ red
unfolding color booted_color emi_color
emi_failing = refl

-- Sent at 4294967000 ms: within a second of it across the wrap, then due.
not_due : (next_write green 700 led).0 ≡ none
unfolding next_write
not_due = refl

due : (next_write green 704 led).0 ≡ some green
unfolding next_write
due = refl
