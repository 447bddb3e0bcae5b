-- ===== src/Command/Tiers.antt =====
-- The tiers that the command table gives, for every command line.
use benchpod_firmware.Base.{
  ◌≤◌, ◌≡◌, ◌⊎◌, inl, inr, refl, Bool, true, false, not, ◌&&◌, ◌||◌, Option, none, some, List, [],
  ◌∷◌, arith, leb, ◌==◌, Bytes, str_eq_iff, all_rows, Option-cases,
}
use benchpod_firmware.Command.Table.{t0, t2, t3, Desc, mixed, k_tiers}
use benchpod_firmware.Command.{has_flag, find_row, cmd_find, mixed_write, tier_of, cmd_tier}

-- What holds of every row holds of the row that is found, which has the name looked for.
find_row-all :
    (p : Desc → Bool) (ds : List Desc) (cmd : Bytes) {d : Desc}
    → all_rows p ds ≡ true
    → find_row ds cmd ≡ some d
    → (p d ≡ true) × (cmd ≡ d.name)
unfolding find_row all_rows
find_row-all p [] cmd h e = cc
find_row-all p (r ∷ ds) cmd {d} h e =
    ground (arith, find_row-all p ds cmd {d = d}, str_eq_iff cmd r.name)

-- A mixed row's tier is that of its read form, T0; no tier is above T3.
abbrev tier_ok : Desc → Bool
tier_ok d = leb d.tier t3 && (not (has_flag d.flags mixed) || d.tier == t0)

tiers_table : all_rows tier_ok k_tiers ≡ true
unfolding all_rows k_tiers has_flag
tiers_table = refl

pub cmd_find-tier :
    (cmd : Bytes) {d : Desc}
    → cmd_find cmd ≡ some d
    → (d.tier ≤ t3) × ((has_flag d.flags mixed ≡ false) ⊎ (d.tier ≡ t0)) × (cmd ≡ d.name)
unfolding cmd_find
cmd_find-tier cmd e = ground (arith, find_row-all tier_ok k_tiers cmd tiers_table e)

-- A line in its write form: the arguments of a mixed verb that change something.
abbrev pub writes : Desc → Option Bytes → Bool
writes d json = has_flag d.flags mixed && mixed_write d.name json

pub tier_of-cases :
    (d : Desc) (json : Option Bytes)
    → ((tier_of (some d) json ≡ d.tier) × (writes d json ≡ false))
      ⊎ ((tier_of (some d) json ≡ t2) × (writes d json ≡ true))
unfolding tier_of
tier_of-cases d json = ground arith

-- What a tier can be: T3 for an unknown verb; else that of the row with the verb's name, or T2 for
-- the write form of a mixed verb, whose row says T0.
abbrev pub TierCases : Bytes → Option Bytes → Type 0
TierCases cmd json =
    ((cmd_find cmd ≡ none) × (cmd_tier cmd json ≡ t3))
    ⊎ ((d : Desc) × (cmd_find cmd ≡ some d)
        × (cmd ≡ d.name)
        × (d.tier ≤ cmd_tier cmd json)
        × (((cmd_tier cmd json ≡ d.tier) × (writes d json ≡ false))
            ⊎ ((cmd_tier cmd json ≡ t2) × (d.tier ≡ t0) × (writes d json ≡ true))))

-- The tier of any command line is T3 for an unknown verb, else that of the row with the verb's
-- name, or T2 for the write form of a mixed verb, whose row says T0; it is never below the row's.
pub cmd_tier-TierCases : (cmd : Bytes) (json : Option Bytes) → TierCases cmd json
unfolding cmd_tier
cmd_tier-TierCases cmd json = elim (Option-cases (cmd_find cmd)) [
  | inl e ↦ inl (e, rw e)
  | inr (d, e) ↦
      let (top, base, name) = cmd_find-tier cmd e in
      inr (
        d,
        e,
        name,
        rw e (ground (arith, tier_of-cases d json)),
        rw e (ground (arith, tier_of-cases d json)),
      )
]
