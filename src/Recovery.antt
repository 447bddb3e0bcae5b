-- ===== src/Recovery.antt =====
-- stm32h563/src/recovery.c: what to try when captures fail or the Ethernet link is down. Times are
-- `uint32_t` milliseconds and counts `uint32_t`; the two rings of times are lists of their fixed
-- lengths. `recovery_poll` returns the state, the reset count and the step.
pub mod Ladder
mod Tests
use benchpod_firmware.Base.{
  ℕ, zero, suc, ◌+◌, ◌%◌, ◌<◌, ◌≤◌, Bool, true, false, not, ◌&&◌, ◌||◌, List, [], ◌∷◌, min, ltb,
  leb, ◌==◌, if◌then◌else◌, set, take, replicate, add32, sub32,
}
use Prim.Native.String.{String}

abbrev pub fail_limit_ms : ℕ
fail_limit_ms = 10000

abbrev pub reload_gap_ms : ℕ
reload_gap_ms = 30000

abbrev pub reloads_per_episode : ℕ
reloads_per_episode = 2

abbrev pub reloads_per_hour : ℕ
reloads_per_hour = 6

abbrev pub resets_max : ℕ
resets_max = 2

abbrev pub healthy_ms : ℕ
healthy_ms = 600000

abbrev pub link_down_limit_ms : ℕ
link_down_limit_ms = 20000

abbrev pub eth_gap_ms : ℕ
eth_gap_ms = 60000

abbrev pub eth_per_hour : ℕ
eth_per_hour = 10

abbrev pub hour_ms : ℕ
hour_ms = 3600000

pub data Action : Type 0 where
  nothing ice40_reload mcu_reset eth_restart : Action

pub record Recovery : Type 0 where
  pub episode_reloads : ℕ
  pub last_reload_ms : ℕ
  pub reload_times : List ℕ
  pub reload_n : ℕ
  pub healthy_since_ms : ℕ
  pub healthy_valid : Bool
  pub last_eth_ms : ℕ
  pub eth_times : List ℕ
  pub eth_n : ℕ
  pub limit_noted : Bool

pub init : ℕ → Recovery
init now = record {
  episode_reloads = 0;
  last_reload_ms = 0;
  reload_times = replicate reloads_per_hour 0;
  reload_n = 0;
  healthy_since_ms = now;
  healthy_valid = false;
  last_eth_ms = 0;
  eth_times = replicate eth_per_hour 0;
  eth_n = 0;
  limit_noted = false;
}

recent : ℕ → List ℕ → ℕ
recent now [] = 0
recent now (t ∷ ts) = (if ltb (sub32 now t) hour_ms then 1 else 0) + recent now ts

pub in_last_hour : List ℕ → ℕ → ℕ → ℕ → ℕ
in_last_hour ring size n now = recent now (take (if ltb n size then n else size) ring)

pub reload_allowed : Recovery → ℕ → Bool
reload_allowed r now =
    ltb (in_last_hour r.reload_times reloads_per_hour r.reload_n now) reloads_per_hour

pub reset_due : Recovery → ℕ → ℕ → Bool
reset_due r now fail_ms =
    if r.episode_reloads == 0
    then leb (fail_limit_ms + reload_gap_ms) fail_ms
    else leb reload_gap_ms (sub32 now r.last_reload_ms)

-- The first half of `recovery_poll`: what a working capture does to the state and the count.
pub note_health : Recovery → ℕ → ℕ → ℕ → Recovery × ℕ
note_health r now fail_ms resets =
    if fail_ms == 0
    then (let r' = if r.healthy_valid then r else record r {
      healthy_valid = true;
      healthy_since_ms = now;
      episode_reloads = 0;
      limit_noted = false;
    } in
        (
          r',
          if not (resets == 0) && leb healthy_ms (sub32 now r'.healthy_since_ms) then 0 else resets,
        ))
    else (record r { healthy_valid = false }, resets)

pub more_reloads : Recovery → ℕ → Bool
more_reloads r now = ltb r.episode_reloads reloads_per_episode && reload_allowed r now

eth_step : Recovery → ℕ → ℕ → Action
eth_step r now link_down_ms =
    if leb link_down_limit_ms link_down_ms
      && (r.eth_n == 0 || leb eth_gap_ms (sub32 now r.last_eth_ms))
      && ltb (in_last_hour r.eth_times eth_per_hour r.eth_n now) eth_per_hour
    then eth_restart
    else nothing

-- The second half: the step to take.
pub step : Recovery → ℕ → ℕ → ℕ → ℕ → Action
unfolding eth_step
step r now fail_ms link_down_ms resets =
    if leb fail_limit_ms fail_ms
      && more_reloads r now
      && (r.episode_reloads == 0 || leb reload_gap_ms (sub32 now r.last_reload_ms))
    then ice40_reload
    else if leb fail_limit_ms fail_ms
        && not (more_reloads r now)
        && ltb resets resets_max
        && reset_due r now fail_ms
    then mcu_reset
    else eth_step r now link_down_ms

pub poll : Recovery → ℕ → ℕ → ℕ → ℕ → Recovery × ℕ × Action
unfolding note_health step
poll r now fail_ms link_down_ms resets =
    let (r', resets') = note_health r now fail_ms resets in
    (r', resets', step r' now fail_ms link_down_ms resets')

-- `recovery_done`.
pub done : Recovery → Action → ℕ → ℕ → Recovery × ℕ
done r ice40_reload now resets = (
  record r {
    episode_reloads = add32 r.episode_reloads 1;
    last_reload_ms = now;
    reload_times = set r.reload_times (r.reload_n % reloads_per_hour) now;
    reload_n = add32 r.reload_n 1;
  },
  resets,
)
done r mcu_reset now resets = (r, add32 resets 1)
done r eth_restart now resets = (
  record r {
    last_eth_ms = now;
    eth_times = set r.eth_times (r.eth_n % eth_per_hour) now;
    eth_n = add32 r.eth_n 1;
  },
  resets,
)
done r nothing now resets = (r, resets)

pub exhausted : Recovery → ℕ → ℕ → ℕ → Recovery × Bool
exhausted r now fail_ms resets =
    if r.limit_noted || ltb fail_ms fail_limit_ms
    then (r, false)
    else if more_reloads r now || ltb resets resets_max
    then (r, false)
    else (record r { limit_noted = true }, true)

pub action_name : Action → String
action_name ice40_reload = "iCE40 reload"
action_name mcu_reset = "STM32 reset"
action_name eth_restart = "Ethernet restart"
action_name nothing = "none"
