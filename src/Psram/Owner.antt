-- ===== src/Psram/Owner.antt =====
-- stm32h563/src/bus_owner.c: the owner of the shared quad bus. A task's token is a number; 0 is
-- NULL. The result 1 of `take` and `give` tells the caller to move the pins.
use benchpod_firmware.Base.{
  arith, add32, suc, ◌⊎◌, ℕ, ◌+◌, ◌-◌, ◌<◌, ◌≡◌, Bool, true, false, List, [], ◌∷◌, ltb, ◌==◌, not,
  if◌then◌else◌,
}

pub record Bus : Type 0 where
  pub owner : ℕ
  pub depth : ℕ
  pub violations : ℕ
  pub unpaired : ℕ

abbrev bump : Bool → ℕ → ℕ
bump b n = if b then add32 n 1 else n

pub take : ℕ → Bus → Bus × Bool
take who b = if b.depth == 0 then (record b { owner = who; depth = 1 }, true) else (
  record b {
    violations = bump (not (b.owner == who)) b.violations;
    depth = if ltb b.depth 0xFFFF then b.depth + 1 else b.depth;
  },
  false,
)

pub give : ℕ → Bus → Bus × Bool
give who b = if b.depth == 0 then (record b { unpaired = add32 b.unpaired 1 }, true) else (
  record b {
    violations = bump (not (b.owner == who)) b.violations;
    depth = b.depth - 1;
    owner = if b.depth == 1 then 0 else b.owner;
  },
  b.depth == 1,
)

pub handover : Bus → Bus × ℕ
handover b =
    (record b { violations = bump (ltb 0 b.depth) b.violations; depth = 0; owner = 0 }, b.depth)

-- Calls of one task, as its code nests them: `true` is a take and `false` a give.
pub run : ℕ → List Bool → Bus → Bus
run who [] b = b
run who (true ∷ cs) b = run who cs (take who b).0
run who (false ∷ cs) b = run who cs (give who b).0

-- Holds nested within a depth that the 16-bit count can show, none given that was not taken.
pub data Nested : ℕ → List Bool → ℕ → Type 0 where
  done : (d : ℕ) → Nested d [] d
  taken :
      (d : ℕ) (cs : List Bool) (e : ℕ) → d < 0xFFFF → Nested (suc d) cs e → Nested d (true ∷ cs) e
  given : (d : ℕ) (cs : List Bool) (e : ℕ) → Nested d cs e → Nested (suc d) (false ∷ cs) e

-- A task that has the bus, or finds it free, and whose gives match its takes, is never reported:
-- the counters stay, the depth is what its calls leave, and it owns the bus while that is not 0.
pub run-Nested :
    (who : ℕ) (cs : List Bool) (d e : ℕ) (b : Bus)
    → b.depth ≡ d
    → (b.depth ≡ 0) ⊎ (b.owner ≡ who)
    → Nested d cs e
    → ((run who cs b).depth ≡ e)
      × (((run who cs b).depth ≡ 0) ⊎ ((run who cs b).owner ≡ who))
      × ((run who cs b).violations ≡ b.violations)
      × ((run who cs b).unpaired ≡ b.unpaired)
unfolding run take give
run-Nested who _ _ _ b p o (done d) = ground arith
run-Nested who _ _ _ b p o (taken d cs e l n) =
    ground (arith, run-Nested who cs (suc d) e (take who b).0 (ground arith) (ground arith) n)
run-Nested who _ _ _ b p o (given d cs e n) =
    ground (arith, run-Nested who cs d e (give who b).0 (ground arith) (ground arith) n)
