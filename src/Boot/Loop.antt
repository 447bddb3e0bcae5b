-- ===== src/Boot/Loop.antt =====
-- Boots in a row: a boot is `boot_guard_begin` and what the pod calls until the next reset.
use benchpod_firmware.Base.{
  ℕ, ◌+◌, ◌^◌, ◌%◌, ◌≤◌, ◌<◌, ◌≡◌, ◌≢◌, ◌⊎◌, refl, ◌∙◌, Bool, true, false, Option, List, [], ◌∷◌,
  arith, length, All, leb, add32, inl, inr,
}
use Prim.Native.String.{String}
use benchpod_firmware.Boot.{
  Noinit, State, guard_magic, safe_after, found, begin, set_stage, sub_start, sub_done, healthy,
  planned_reset, set_hw_ready, arm_test_loop, test_loop_point, Found, enter_safe, culprit, off,
}
use benchpod_firmware.Boot.Masks.{Within, off_lem, culprit-lt}

-- What a boot calls.
pub data Op : Type 0 where
  stage : ℕ → Op
  starts : ℕ → Op
  finishes : ℕ → Op
  ready : Op
  arm : ℕ → ℕ → Op
  point : ℕ → Op
  well : Op
  plan : Bool → Op

unfoldable pub apply : Op → State → State
apply (stage n) s = set_stage n s
apply (starts sub) s = sub_start sub s
apply (finishes sub) s = sub_done sub s
apply ready s = set_hw_ready s
apply (arm n sub) s = arm_test_loop n sub s
apply (point sub) s = (test_loop_point sub s).1
apply well s = healthy s
apply (plan b) s = planned_reset b s

unfoldable pub apply_all : List Op → State → State
apply_all [] s = s
apply_all (o ∷ os) s = apply_all os (apply o s)

pub record BootRun : Type 0 where
  pub crash : Option String
  pub ops : List Op

-- The memory that the boot leaves to the next one, which comes without a fresh start.
unfoldable pub boot : BootRun → Noinit → Noinit
boot b n = (apply_all b.ops (begin false b.crash n)).kept

unfoldable pub boots : List BootRun → Noinit → Noinit
boots [] n = n
boots (b ∷ bs) n = boots bs (boot b n)

-- The boot never came to count as good, and its reset was not asked for.
abbrev pub Unwell : Op → Type 0
Unwell well = ⊥
Unwell (plan b) = ⊥
Unwell _ = Unit

abbrev pub Crashed : BootRun → Type 0
Crashed b = All Unwell b.ops

-- `.noinit` holds a record of this firmware.
abbrev pub Marked : Noinit → Type 0
Marked n = n.magic ≡ guard_magic

pub record Same (s t : State) : Type 0 where
  pub magic : t.kept.magic ≡ s.kept.magic
  pub failed : t.kept.failed ≡ s.kept.failed
  pub off_kept : t.kept.off_set ≡ s.kept.off_set
  pub ram_safe : t.ram.safe ≡ s.ram.safe
  pub ram_off : t.ram.off_now ≡ s.ram.off_now

pub apply-Same : (o : Op) (s : State) → (Unwell o ⊎ (s.ram.safe ≡ true)) → Same s (apply o s)
unfolding apply set_stage sub_start sub_done set_hw_ready arm_test_loop test_loop_point healthy
    planned_reset
apply-Same (point sub) s h = ground arith
apply-Same well s h = ground arith
apply-Same (plan b) s h = ground arith
apply-Same _ s h = ground arith

trans_Same : {s t u : State} → Same s t → Same t u → Same s u
trans_Same a b = ground arith

pub apply_all-Same :
    (os : List Op) (s : State) → (All Unwell os ⊎ (s.ram.safe ≡ true)) → Same s (apply_all os s)
unfolding apply_all
apply_all-Same [] s h = ground arith
apply_all-Same (o ∷ os) s (inl (u, us)) =
    trans_Same (apply-Same o s (inl u)) (apply_all-Same os (apply o s) (inl us))
apply_all-Same (o ∷ os) s (inr e) =
    let first = apply-Same o s (inr e) in
    trans_Same first (apply_all-Same os (apply o s) (inr (first.ram_safe ∙ e)))

-- What `boot_guard_begin` does without a fresh start, on a record of this firmware.
pub record Began (n : Noinit) (s : State) : Type 0 where
  pub magic : s.kept.magic ≡ guard_magic
  pub counted : s.kept.failed ≡ add32 n.failed 1
  pub safe_when : s.ram.safe ≡ leb safe_after n.failed
  pub off_same : s.kept.off_set ≡ s.ram.off_now

enter_safe_lem :
    (f : Found) (c : ℕ)
    → ((enter_safe f c).safe ≡ true) × ((enter_safe f c).off_now ≡ off f.prev_off c)
unfolding enter_safe
enter_safe_lem f c = (refl, refl)

found_lem :
    (n : Noinit)
    → Marked n
    → ((found false n).failed ≡ n.failed) × ((found false n).prev_off ≡ n.off_set)
unfolding found
found_lem n m = ground arith

pub begin-Began : (c : Option String) (n : Noinit) → Marked n → Began n (begin false c n)
unfolding begin
begin-Began c n m =
    let f = found false n in
    ground (arith, found_lem n m, enter_safe_lem f (culprit f.started f.done c))

-- In safe mode the boot turns off a set that holds what the boot before had turned off, and the
-- culprit.
pub begin_off :
    (c : Option String) (n : Noinit)
    → Marked n
    → safe_after ≤ n.failed
    → Within (n.off_set % 4) (begin false c n).ram.off_now
      × Within
          (culprit (found false n).started (found false n).done c)
          (begin false c n).ram.off_now
      × ((begin false c n).ram.off_now < 4)
      × ((begin false c n).ram.off_now ≢ 0)
unfolding begin
begin_off c n m h =
    let f = found false n in
    let k = culprit f.started f.done c in
    let (a, b, d, e) = off_lem n.off_set k (culprit-lt f.started f.done c) in
    let at : (begin false c n).ram.off_now ≡ off n.off_set k =
      ground (arith, found_lem n m, enter_safe_lem f k) in
    rw at (a, b, d, e)

-- A boot that only crashes leaves a count one higher.
boot_counts :
    (b : BootRun) (n : Noinit)
    → Marked n
    → Crashed b
    → n.failed + 1 < 2 ^ 32
    → Marked (boot b n) × ((boot b n).failed ≡ n.failed + 1)
unfolding boot
boot_counts b n m h w =
    let s = begin false b.crash n in
    omega (arith, begin-Began b.crash n m, apply_all-Same b.ops s (inl h))

pub boots_count :
    (bs : List BootRun) (n : Noinit)
    → Marked n
    → All Crashed bs
    → n.failed + length bs < 2 ^ 32
    → Marked (boots bs n) × ((boots bs n).failed ≡ n.failed + length bs)
unfolding boots
boots_count [] n m h w = omega arith
boots_count (b ∷ bs) n m (h, hs) w =
    let (m', e) = boot_counts b n m h (omega arith) in
    omega (arith, boots_count bs (boot b n) m' hs (omega arith))
