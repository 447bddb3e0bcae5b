-- ===== src/Recovery/Tests.antt =====
-- Captures that fail for a minute, with a check every ten seconds.
use benchpod_firmware.Base.{ℕ, ◌-◌, ◌*◌, ◌≡◌, refl, List, [], ◌∷◌, arith}
use benchpod_firmware.Recovery.{
  init, poll, done, more_reloads, reload_allowed, reset_due, in_last_hour, recent,
}
use benchpod_firmware.Recovery.Ladder.{Round, round, rounds, IsValid, rounds-IsValid}

abbrev failing : ℕ → Round
failing s = record { now = 1000 * s; fail_ms = 1000 * (s - 10); link_down_ms = 0 }

abbrev minute : List Round
minute = failing 20 ∷ failing 30 ∷ failing 40 ∷ failing 50 ∷ failing 60 ∷ failing 70 ∷ []

-- Two reloads.
two_reloads : (rounds minute (init 0, 0)).0.episode_reloads ≡ 2
unfolding rounds round init poll done more_reloads reload_allowed reset_due in_last_hour recent
two_reloads = refl

-- Then a reset.
then_reset : (rounds (failing 100 ∷ []) (rounds minute (init 0, 0))).1 ≡ 1
unfolding rounds round init poll done more_reloads reload_allowed reset_due in_last_hour recent
then_reset = refl

rounds-IsValid_example : IsValid (rounds minute (init 0, 0))
rounds-IsValid_example = rounds-IsValid minute 0 0 (omega arith)
