-- ===== src/Boot/SafeMode.antt =====
-- When a pod is in safe mode: crash loops, planned resets and boots that count as good.
use benchpod_firmware.Base.{
  some, ◌||◌, le→leb, ℕ, ◌+◌, ◌^◌, ◌%◌, ◌≤◌, ◌<◌, ◌≡◌, refl, sym, ap, ◌∙◌, true, false, Option,
  List, [], ◌∷◌, ◌++◌, arith, length, All, leb, if◌then◌else◌, inl, inr,
}
use benchpod_firmware.Boot.{
  Noinit, State, guard_magic, safe_after, begin, healthy, planned_reset, found, set_stage,
  sub_start, sub_done, set_hw_ready, arm_test_loop, test_loop_point, skip_net, skip_hw, culprit,
}
use benchpod_firmware.Boot.Masks.{Within, some_off, Within-net, Within-hw}
use benchpod_firmware.Boot.Loop.{
  Op, well, plan, apply, apply_all, BootRun, boot, boots, Crashed, Marked, apply_all-Same,
  begin-Began, begin_off, boots_count,
}
use Prim.Native.String.{String}

-- A boot after a power-on or the reset button.
unfoldable pub power_on : BootRun → Noinit → Noinit
power_on b n = (apply_all b.ops (begin true b.crash n)).kept

begin-fresh :
    (c : Option String) (n : Noinit)
    → ((begin true c n).kept.magic ≡ guard_magic)
      × ((begin true c n).kept.failed ≡ 1)
      × ((begin true c n).ram.safe ≡ false)
unfolding begin found
begin-fresh c n = (refl, refl, refl)

-- After a power-on and crashing boots in a row, fewer than 2 ^ 32: with `k` of them behind it a boot
-- is in safe mode exactly when `k` is at least two.
pub crash_loop_safe :
    (n : Noinit) (first : BootRun) (bs : List BootRun) (c : Option String)
    → Crashed first
    → All Crashed bs
    → 1 + length bs < 2 ^ 32
    → (begin false c (boots bs (power_on first n))).ram.safe ≡ leb safe_after (1 + length bs)
unfolding power_on
crash_loop_safe n first bs c h hs w =
    let s = begin true first.crash n in
    let same = apply_all-Same first.ops s (inl h) in
    let (m, f, z) = begin-fresh first.crash n in
    let m' = same.magic ∙ m in
    let one = same.failed ∙ f in
    let (m'', e) = boots_count bs (apply_all first.ops s).kept m' hs (omega (arith, one)) in
    (begin-Began c (boots bs (apply_all first.ops s).kept) m'').safe_when
    ∙ ap (leb safe_after) (omega (arith, one, e))

-- Safe mode lasts: on a valid record that counts enough failures (and has room for one more),
-- whatever a safe-mode boot does, the next one without a fresh start is in safe mode too, and turns
-- off at least what this one had turned off.
pub safe_mode_sticks :
    (n : Noinit) (b : BootRun) (c : Option String)
    → Marked n
    → safe_after ≤ n.failed
    → n.failed + 1 < 2 ^ 32
    → let s = begin false b.crash n in
      let s' = begin false c (boot b n) in
      (s'.ram.safe ≡ true) × Within s.ram.off_now s'.ram.off_now
unfolding boot
safe_mode_sticks n b c m h w =
    let s = begin false b.crash n in
    let began = begin-Began b.crash n m in
    let safe : s.ram.safe ≡ true = began.safe_when ∙ le→leb safe_after n.failed h in
    let same = apply_all-Same b.ops s (inr safe) in
    let t = (apply_all b.ops s).kept in
    let m' : Marked t = same.magic ∙ began.magic in
    let more : safe_after ≤ t.failed = omega (arith, same.failed, began.counted) in
    let (first, within, small, ne) = begin_off b.crash n m h in
    let (keeps, within', small', ne') = begin_off c t m' more in
    let set : t.off_set % 4 ≡ s.ram.off_now = omega (arith, same.off_kept, began.off_same) in
    ((begin-Began c t m').safe_when ∙ le→leb safe_after t.failed more, rw set at keeps)

-- What a boot leaves as the count is decided by the last of its calls of `boot_guard_healthy` and
-- `boot_guard_planned_reset`; `p` is the count before the boot.
unfoldable pub verdict : ℕ → ℕ → List Op → ℕ
verdict p f [] = f
verdict p f (well ∷ os) = verdict p 0 os
verdict p f (plan b ∷ os) = verdict p (if b then p else p + 1) os
verdict p f (_ ∷ os) = verdict p f os

record Normal (p : ℕ) (s : State) : Type 0 where
  awake : s.ram.safe ≡ false
  prior : s.ram.prior_failed ≡ p

apply-verdict :
    (o : Op) (os : List Op) (p : ℕ) (s : State)
    → Normal p s
    → p + 1 < 2 ^ 32
    → Normal p (apply o s)
      × (verdict p s.kept.failed (o ∷ os) ≡ verdict p (apply o s).kept.failed os)
unfolding verdict apply set_stage sub_start sub_done set_hw_ready arm_test_loop test_loop_point
    healthy planned_reset
apply-verdict well os p s h w = ground arith
apply-verdict _ os p s h w = ground arith

apply_all-verdict :
    (os : List Op) (p : ℕ) (s : State)
    → Normal p s
    → p + 1 < 2 ^ 32
    → (apply_all os s).kept.failed ≡ verdict p s.kept.failed os
unfolding apply_all
apply_all-verdict [] p s h w = unfold verdict in refl
apply_all-verdict (o ∷ os) p s h w =
    let (h', e) = apply-verdict o os p s h w in apply_all-verdict os p (apply o s) h' w ∙ sym e

begin-Normal :
    (c : Option String) (n : Noinit)
    → Marked n
    → n.failed < safe_after
    → Normal n.failed (begin false c n)
unfolding begin found
begin-Normal c n m h = ground arith

-- On a valid record below the limit, the count that a boot leaves is its verdict on the count
-- before it.
pub boot-verdict :
    (b : BootRun) (n : Noinit)
    → Marked n
    → n.failed < safe_after
    → (boot b n).failed ≡ verdict n.failed (n.failed + 1) b.ops
unfolding boot
boot-verdict b n m h =
    apply_all-verdict b.ops n.failed (begin false b.crash n) (begin-Normal b.crash n m h)
      (omega arith)
    ∙ ap (λ f. verdict n.failed f b.ops) (omega (arith, begin-Began b.crash n m))

verdict-plan : (os : List Op) (p f : ℕ) → verdict p f (os ++ plan true ∷ []) ≡ p
unfolding verdict
verdict-plan [] p f = refl
verdict-plan (well ∷ os) p f = verdict-plan os p 0
verdict-plan (plan b ∷ os) p f = verdict-plan os p (if b then p else p + 1)
verdict-plan (_ ∷ os) p f = verdict-plan os p f

-- A boot below the limit that ends in a planned reset leaves the count that it found, whatever it
-- did before, so also where it had already counted as good.
pub planned_reset_restores :
    (os : List Op) (crash : Option String) (n : Noinit)
    → Marked n
    → n.failed < safe_after
    → (boot (record { crash = crash; ops = os ++ plan true ∷ [] }) n).failed ≡ n.failed
planned_reset_restores os crash n m h =
    boot-verdict _ n m h ∙ verdict-plan os n.failed (n.failed + 1)

-- On a valid record that counts enough failures a boot turns something off, whatever its masks hold: the network after a crash of
-- the "net" task, and the iCE40 and PSRAM after one of the "hw" task.
pub safe_mode_skips :
    (n : Noinit) (c : Option String)
    → Marked n
    → safe_after ≤ n.failed
    → ((skip_net (begin false c n) || skip_hw (begin false c n)) ≡ true)
      × (skip_net (begin false (some "net") n) ≡ true)
      × (skip_hw (begin false (some "hw") n) ≡ true)
unfolding skip_net skip_hw culprit
safe_mode_skips n c m h =
    let (keeps, within, small, ne) = begin_off c n m h in
    let (keeps1, within1, small1, ne1) = begin_off (some "net") n m h in
    let (keeps2, within2, small2, ne2) = begin_off (some "hw") n m h in
    (some_off _ small ne, Within-net _ small1 within1, Within-hw _ small2 within2)
