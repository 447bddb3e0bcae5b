-- ===== src/Recovery/Ladder.antt =====
-- The order of the steps and their limits.
use benchpod_firmware.Base.{
  ℕ, ◌+◌, ◌%◌, ◌≤◌, ◌<◌, ◌≡◌, refl, ◌⊎◌, List, [], ◌∷◌, arith, length, length-set, sub32,
}
use benchpod_firmware.Recovery.{
  nothing, ice40_reload, mcu_reset, eth_restart, eth_gap_ms, link_down_limit_ms, reload_gap_ms,
  in_last_hour, eth_per_hour, resets_max, reloads_per_hour, reloads_per_episode, init, reset_due,
  reload_allowed, fail_limit_ms, more_reloads, step, done, note_health, poll, Recovery, Action,
}

-- What has to hold for a step to be taken, on the state that `recovery_poll` leaves.
abbrev pub Justified : Action → Recovery → ℕ → ℕ → ℕ → ℕ → Type 0
Justified nothing r now fail_ms link_down_ms resets = Unit {0}
Justified ice40_reload r now fail_ms link_down_ms resets =
    (fail_limit_ms ≤ fail_ms)
    × (r.episode_reloads < reloads_per_episode)
    × (in_last_hour r.reload_times reloads_per_hour r.reload_n now < reloads_per_hour)
    × ((r.episode_reloads ≡ 0) ⊎ (reload_gap_ms ≤ sub32 now r.last_reload_ms))
Justified mcu_reset r now fail_ms link_down_ms resets =
    (fail_limit_ms ≤ fail_ms)
    × (resets < resets_max)
    × ((reloads_per_episode ≤ r.episode_reloads)
        ⊎ (reloads_per_hour ≤ in_last_hour r.reload_times reloads_per_hour r.reload_n now))
    × (((r.episode_reloads ≡ 0) × (fail_limit_ms + reload_gap_ms ≤ fail_ms))
        ⊎ ((0 < r.episode_reloads) × (reload_gap_ms ≤ sub32 now r.last_reload_ms)))
Justified eth_restart r now fail_ms link_down_ms resets =
    (link_down_limit_ms ≤ link_down_ms)
    × (in_last_hour r.eth_times eth_per_hour r.eth_n now < eth_per_hour)
    × ((r.eth_n ≡ 0) ⊎ (eth_gap_ms ≤ sub32 now r.last_eth_ms))

step-Justified :
    (a : Action) (r : Recovery) (now fail_ms link_down_ms resets : ℕ)
    → step r now fail_ms link_down_ms resets ≡ a
    → Justified a r now fail_ms link_down_ms resets
unfolding step more_reloads reload_allowed reset_due
step-Justified nothing r now f l z h = tt
step-Justified ice40_reload r now f l z h = ground arith
step-Justified mcu_reset r now f l z h = ground arith
step-Justified eth_restart r now f l z h = ground arith

-- The step that recovery_poll returns has what it needs, in the state that it leaves.
pub poll-Justified :
    (r : Recovery) (now fail_ms link_down_ms resets : ℕ)
    → let (r', resets', a) = poll r now fail_ms link_down_ms resets in
      Justified a r' now fail_ms link_down_ms resets'
unfolding poll
poll-Justified r now fail_ms link_down_ms resets =
    let (r', resets') = note_health r now fail_ms resets in
    step-Justified _ r' now fail_ms link_down_ms resets' refl

-- A round of the caller: poll, and do what it says.
pub record Round : Type 0 where
  pub now : ℕ
  pub fail_ms : ℕ
  pub link_down_ms : ℕ

unfoldable pub round : Round → Recovery × ℕ → Recovery × ℕ
round i (r, resets) =
    let (r', resets', a) = poll r i.now i.fail_ms i.link_down_ms resets in done r' a i.now resets'

unfoldable pub rounds : List Round → Recovery × ℕ → Recovery × ℕ
rounds [] s = s
rounds (i ∷ is) s = rounds is (round i s)

-- The counts that limit the ladder.
pub record IsValid (s : Recovery × ℕ) : Type 0 where
  pub few_resets : s.1 ≤ resets_max
  pub few_reloads : s.0.episode_reloads ≤ reloads_per_episode
  pub reload_ring : length s.0.reload_times ≡ reloads_per_hour
  pub eth_ring : length s.0.eth_times ≡ eth_per_hour

note_health-IsValid :
    (r : Recovery) (now fail_ms resets : ℕ)
    → IsValid (r, resets)
    → IsValid (note_health r now fail_ms resets)
unfolding note_health
note_health-IsValid r now fail_ms resets v = ground arith

done-IsValid :
    (a : Action) (r : Recovery) (now f l resets : ℕ)
    → IsValid (r, resets)
    → Justified a r now f l resets
    → IsValid (done r a now resets)
unfolding done
done-IsValid nothing r now f l resets v h = ground arith
done-IsValid ice40_reload r now f l resets v h =
    ground (arith, length-set r.reload_times (r.reload_n % reloads_per_hour) now)
done-IsValid mcu_reset r now f l resets v h = ground arith
done-IsValid eth_restart r now f l resets v h =
    ground (arith, length-set r.eth_times (r.eth_n % eth_per_hour) now)

round-IsValid : (i : Round) (s : Recovery × ℕ) → IsValid s → IsValid (round i s)
unfolding round poll
round-IsValid i (r, resets) v =
    let (r', resets') = note_health r i.now i.fail_ms resets in
    done-IsValid _ r' i.now i.fail_ms i.link_down_ms resets'
      (note_health-IsValid r i.now i.fail_ms resets v)
      (poll-Justified r i.now i.fail_ms i.link_down_ms resets)

init-IsValid : (now resets : ℕ) → resets ≤ resets_max → IsValid (init now, resets)
unfolding init
init-IsValid now resets h = ground arith

rounds-keep : (is : List Round) (s : Recovery × ℕ) → IsValid s → IsValid (rounds is s)
unfolding rounds
rounds-keep [] s v = v
rounds-keep (i ∷ is) s v = rounds-keep is (round i s) (round-IsValid i s v)

-- Over any sequence of rounds from a start with at most two resets counted: never more than two
-- are counted, an episode never has more than two reloads, and the rings keep their sizes.
pub rounds-IsValid :
    (is : List Round) (now resets : ℕ)
    → resets ≤ resets_max
    → IsValid (rounds is (init now, resets))
rounds-IsValid is now resets h = rounds-keep is (init now, resets) (init-IsValid now resets h)
