-- ===== src/Boot.antt =====
-- stm32h563/src/boot_guard.c and boot_policy.c: the count of failed boots that survives resets,
-- safe mode, and which subsystems a safe-mode boot turns off. The state is what survives a reset
-- (`Noinit`) beside the ordinary variables (`Ram`). The memory barriers, the watchdog calls and
-- the log lines change neither. `BOOT_SUB_*` sets are numbers; `~done` is taken on 32 bits.
pub mod SafeMode
pub mod Loop
pub mod Masks
mod Tests
use Prim.Native.String.{String}
use text.Mathlib.Text.{◌==◌ as str_eq}
use benchpod_firmware.Base.{
  ℕ, ◌+◌, ◌-◌, ◌^◌, Bool, true, false, not, ◌&&◌, ◌||◌, Option, none, some, List, [], ◌∷◌, ltb, leb,
  ◌==◌, if◌then◌else◌, bit_and, bit_or, add32,
}
use benchpod_firmware.Base.Int.{ℤ, pos, negsuc}

-- boot_policy.h and boot_policy.c.
abbrev pub sub_net : ℕ
sub_net = 1

abbrev pub sub_hw : ℕ
sub_hw = 2

abbrev pub sub_all : ℕ
sub_all = 3

-- The task name of a crash; `none` is the null pointer.
abbrev is_task : Option String → String → Bool
is_task none name = false
is_task (some t) name = str_eq t name

-- `started & ~done & BOOT_SUB_ALL`; here and below the constant of a mask stands first.
unfoldable pub unfinished : ℕ → ℕ → ℕ
unfinished started done = bit_and sub_all (bit_and started (2 ^ 32 - 1 - done))

pub culprit : ℕ → ℕ → Option String → ℕ
culprit started done crash_task =
    if is_task crash_task "net"
    then sub_net
    else if is_task crash_task "hw"
    then sub_hw
    else unfinished started done

unfoldable pub off : ℕ → ℕ → ℕ
off prev_off c =
    let prev = bit_and sub_all prev_off in
    if not (c == 0) then bit_or prev c else if not (prev == 0) then prev else sub_all

off_str : ℕ → String
off_str o =
    let s = bit_and sub_all o in
    if s == sub_net
    then "network"
    else if s == sub_hw
    then "iCE40/PSRAM"
    else "network and iCE40/PSRAM"

-- `boot_policy_gateware_image`; the last two arguments are the tests of the C integers.
pub gateware_image : ℕ → ℕ → Bool → Bool → ℤ
gateware_image running embedded running_is_deep configured =
    if not configured
    then pos 0
    else if running == 0 || embedded == 0 || running == embedded
    then negsuc 0
    else if running_is_deep
    then pos 1
    else pos 0

-- `boot_stage_t`, as the number that the record keeps.
abbrev pub stage_none : ℕ
stage_none = 0

abbrev pub stage_running : ℕ
stage_running = 7

abbrev pub stage_count : ℕ
stage_count = 8

-- `s_names`.
stage_name : ℕ → String
stage_name s =
    if s == 0
    then "start"
    else if s == 1
    then "early hardware"
    else if s == 2
    then "device identity"
    else if s == 3
    then "usb"
    else if s == 4
    then "starting tasks"
    else if s == 5
    then "network"
    else if s == 6
    then "ice40/psram"
    else "running"

abbrev pub guard_magic : ℕ
guard_magic = 0x42475232

abbrev pub test_magic : ℕ
test_magic = 0x544c4f4f

abbrev pub safe_after : ℕ
safe_after = 2

-- `boot_record_t` with the variables of the test loop: what lies in `.noinit`.
pub record Noinit : Type 0 where
  pub magic : ℕ
  pub failed : ℕ
  pub stage : ℕ
  pub last_stage : ℕ
  pub started : ℕ
  pub done : ℕ
  pub off_set : ℕ
  pub loop_magic : ℕ
  pub loop_left : ℕ
  pub loop_sub : ℕ

-- What the safe-mode report says: the count, where the last boot failed, what is off.
pub record Report : Type 0 where
  pub boots : ℕ
  pub where_at : String
  pub turned_off : String

pub record Ram : Type 0 where
  pub safe : Bool
  pub off_now : ℕ
  pub hw_ready : Bool
  pub prior_failed : ℕ
  pub report : Option Report

pub record State : Type 0 where
  pub kept : Noinit
  pub ram : Ram

-- The variables after a reset.
abbrev pub cold : Ram
cold = record { safe = false; off_now = 0; hw_ready = false; prior_failed = 0; report = none }

abbrev test_loop_end : Noinit → Noinit
test_loop_end n = record n { loop_magic = 0 }

-- What `boot_guard_begin` reads of the record: all of it, or nothing on a fresh start.
pub record Found : Type 0 where
  pub failed : ℕ
  pub last : ℕ
  pub started : ℕ
  pub done : ℕ
  pub prev_off : ℕ

pub found : Bool → Noinit → Found
found fresh n =
    if not fresh && n.magic == guard_magic
    then record {
      failed = n.failed;
      last = if ltb n.stage stage_count then n.stage else stage_none;
      started = n.started;
      done = n.done;
      prev_off = n.off_set;
    }
    else record { failed = 0; last = stage_none; started = 0; done = 0; prev_off = 0 }

enter_safe : Found → ℕ → Ram
enter_safe f c =
    let o = off f.prev_off c in
    record cold {
      safe = true;
      off_now = o;
      report = some (record {
        boots = f.failed;
        where_at =
            if c == sub_net
            then stage_name 5
            else if c == sub_hw
            then stage_name 6
            else stage_name f.last;
        turned_off = off_str o;
      });
    }

-- `boot_guard_begin`, on the memory that a reset leaves: `fault_last_crash_task()` is an argument.
pub begin : Bool → Option String → Noinit → State
begin fresh crash_task n =
    let f = found fresh n in
    let c = culprit f.started f.done crash_task in
    let safe = leb safe_after f.failed in
    let ram = if safe then enter_safe f c else cold in
    let n' = if safe then test_loop_end n else n in
    record {
      kept = record n' {
        magic = guard_magic;
        failed = add32 f.failed 1;
        last_stage = f.last;
        stage = stage_none;
        started = 0;
        done = 0;
        off_set = ram.off_now;
      };
      ram = record ram { prior_failed = f.failed };
    }

pub set_stage : ℕ → State → State
set_stage stage s = record s { kept = record (s.kept) { stage = stage } }

pub sub_start : ℕ → State → State
sub_start sub s = record s { kept = record (s.kept) { started = bit_or s.kept.started sub } }

pub sub_done : ℕ → State → State
sub_done sub s = record s { kept = record (s.kept) { done = bit_or s.kept.done sub } }

pub skip_net : State → Bool
skip_net s = not (bit_and sub_net s.ram.off_now == 0)

pub skip_hw : State → Bool
skip_hw s = not (bit_and sub_hw s.ram.off_now == 0)

pub healthy : State → State
healthy s =
    if s.ram.safe
    then s
    else record s { kept = record (s.kept) { failed = 0; stage = stage_running } }

pub planned_reset : Bool → State → State
planned_reset planned s = if s.ram.safe then s else record s {
  kept = record (s.kept) {
    failed = if planned then s.ram.prior_failed else add32 s.ram.prior_failed 1;
  };
}

pub set_hw_ready : State → State
set_hw_ready s = record s { ram = record (s.ram) { hw_ready = true } }

pub arm_test_loop : ℕ → ℕ → State → State
arm_test_loop boots sub s = record s {
  kept = record (s.kept) { loop_left = boots; loop_sub = sub; loop_magic = test_magic };
}

-- `boot_guard_test_loop_point`; the flag says that it crashes on purpose.
pub test_loop_point : ℕ → State → Bool × State
test_loop_point sub s =
    if not (s.kept.loop_magic == test_magic) || not (s.kept.loop_sub == sub)
    then (false, s)
    else if s.ram.safe || s.kept.loop_left == 0
    then (false, record s { kept = test_loop_end s.kept })
    else (true, record s { kept = record (s.kept) { loop_left = s.kept.loop_left - 1 } })
