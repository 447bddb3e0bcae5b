-- ===== src/Net/Dhcp.antt =====
-- stm32h563/src/net_dhcp.c: the DHCP state machine, one step for each tick. `wait_ticks` is 16 bits
-- wide and the state a byte, so a fourth, corrupt, state stands for the other bytes.
use benchpod_firmware.Base.{
  ℕ, zero, suc, ◌+◌, ◌-◌, ◌*◌, ◌^◌, ◌<◌, ◌≡◌, refl, ap, Bool, true, false, not, arith, leb, ◌==◌,
  if◌then◌else◌, add16,
}

pub data DhcpState : Type 0 where
  off wait bound corrupt : DhcpState

pub data Action : Type 0 where
  nothing discover rekick announce ip_change link_down : Action

pub record Dhcp : Type 0 where
  pub state : DhcpState
  pub wait_ticks : ℕ

abbrev at : DhcpState → Dhcp
at s = record { state = s; wait_ticks = 0 }

abbrev is_off : DhcpState → Bool
is_off off = true
is_off _ = false

-- The switch, with the link up.
linked : DhcpState → ℕ → Bool → Bool → ℕ → Dhcp × Action
linked off ticks has_lease ip_changed rekick_ticks = (at wait, discover)
linked wait ticks has_lease ip_changed rekick_ticks =
    if has_lease
    then (at bound, announce)
    else if rekick_ticks == 0
    then (record { state = wait; wait_ticks = ticks }, nothing)
    else if leb rekick_ticks (add16 ticks 1)
    then (at wait, rekick)
    else (record { state = wait; wait_ticks = add16 ticks 1 }, nothing)
linked bound ticks has_lease ip_changed rekick_ticks =
    if not has_lease
    then (at wait, discover)
    else (record { state = bound; wait_ticks = ticks }, if ip_changed then ip_change else nothing)
linked corrupt ticks has_lease ip_changed rekick_ticks = (at off, nothing)

pub dhcp_step : Bool → Bool → Bool → ℕ → Dhcp → Dhcp × Action
unfolding linked
dhcp_step link_up has_lease ip_changed rekick_ticks d =
    if not link_up
    then (at off, if is_off d.state then nothing else link_down)
    else linked d.state d.wait_ticks has_lease ip_changed rekick_ticks

-- `n` ticks with the link up and no lease; the actions that are not `nothing` are counted.
abbrev is_rekick : Action → ℕ
is_rekick rekick = 1
is_rekick _ = 0

pub waits : ℕ → ℕ → Dhcp → Dhcp × ℕ
waits zero r d = (d, 0)
waits (suc n) r d =
    let (d', a) = dhcp_step true false false r d in
    let (e, k) = waits n r d' in (e, is_rekick a + k)

-- A wait with `ticks` ticks behind it asks again exactly when `rekick_ticks` are reached, and not
-- before: `n` further ticks short of that only count.
waits_short :
    (n r t : ℕ)
    → r < 2 ^ 16
    → t + n < r
    → waits n r (record { state = wait; wait_ticks = t })
      ≡ (record { state = wait; wait_ticks = t + n }, 0)
unfolding waits dhcp_step
waits_short zero r t w h = ground arith
waits_short (suc n) r t w h = ground (arith, waits_short n r (t + 1) w (omega arith))

waits-add :
    (m n r : ℕ) (d : Dhcp)
    → waits (m + n) r d
      ≡ ((waits n r (waits m r d).0).0, (waits m r d).1 + (waits n r (waits m r d).0).1)
unfolding waits
waits-add zero n r d = ground arith
waits-add (suc m) n r d =
    let e : suc m + n ≡ suc (m + n) = omega arith in
    let ih = waits-add m n r (dhcp_step true false false r d).0 in
    rw (e, ih, waits)
      (ap (λ (k : ℕ). ((waits n r (waits m r (dhcp_step true false false r d).0).0).0, k))
        (omega arith))

one_rekick :
    (r : ℕ)
    → 0 < r
    → r < 2 ^ 16
    → waits r r (record { state = wait; wait_ticks = 0 })
      ≡ (record { state = wait; wait_ticks = 0 }, 1)
unfolding waits dhcp_step
one_rekick r p w =
    let e : r ≡ (r - 1) + 1 = omega arith in
    let s = waits_short (r - 1) r 0 w (omega arith) in
    let a = waits-add (r - 1) 1 r (record { state = wait; wait_ticks = 0 }) in ground arith

-- While the link is up and no server answers, from a fresh wait, DHCP is started again exactly
-- once in every `rekick_ticks` ticks, a number of 16 bits that is not 0.
pub rekick_period :
    (k r : ℕ)
    → 0 < r
    → r < 2 ^ 16
    → waits (k * r) r (record { state = wait; wait_ticks = 0 })
      ≡ (record { state = wait; wait_ticks = 0 }, k)
rekick_period zero r p w = let e : 0 * r ≡ 0 = omega arith in rw e (unfold waits in refl)
rekick_period (suc k) r p w =
    let e : suc k * r ≡ r + k * r = grind arith in
    let ih = rekick_period k r p w in
    rw (e, waits-add r (k * r) r _, one_rekick r p w, ih)
      (ap (λ (j : ℕ). (record { state = wait; wait_ticks = 0 }, j)) (omega arith))

-- Whatever the state byte and the count are, three ticks with the link up and a lease at hand leave
-- the machine bound, and then it stays bound and announces nothing more.
pub lease_bound :
    (d : Dhcp) (r : ℕ)
    → let tick = λ (e : Dhcp). (dhcp_step true true false r e).0 in
      ((tick (tick (tick d))).state ≡ bound)
      × (dhcp_step true true false r (tick (tick (tick d))) ≡ (tick (tick (tick d)), nothing))
unfolding dhcp_step
lease_bound d r = ground arith
