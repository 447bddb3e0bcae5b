-- ===== src/EspPartTable/Region.antt =====
-- stm32h563/src/esp_part_table.c: the region that is found.
use benchpod_firmware.EspPartTable.{
  entry_size, max_entries, table_offset, table_size, sector_size, flash_size_max, le32,
  is_partition, is_nvs, region_of, find_from, find_nvs_rd,
}
use benchpod_firmware.Base.{
  ℕ, zero, suc, ◌+◌, ◌*◌, ◌%◌, ◌≤◌, ◌<◌, ◌≡◌, refl, sym, ◌∙◌, ◌⊎◌, inl, inr, true, false, Option,
  none, some, arith, Bool-cases, Option-cases, Bytes,
}

-- The sectors of a region lie behind the partition table and inside the flash.
unfoldable pub IsErasable : ℕ → ℕ → Type 0
IsErasable off sz =
    (0 < sz)
    × (off % sector_size ≡ 0)
    × (sz % sector_size ≡ 0)
    × (table_offset + table_size ≤ off)
    × (off + sz ≤ flash_size_max)

region_of-IsErasable :
    (off sz o s : ℕ) → region_of off sz ≡ some (o, s) → (o ≡ off) × (s ≡ sz) × IsErasable off sz
unfolding region_of IsErasable
region_of-IsErasable off sz o s e = ground arith

-- Where a region comes from: an entry of the table, read with all before it, which is the first for NVS.
unfoldable pub IsFirst : (ℕ → ℕ → Option Bytes) → ℕ → ℕ → ℕ → Bytes → Type 0
IsFirst rd zero i k e = ⊥
IsFirst rd (suc more) i k e =
    ((k ≡ i)
      × (rd (table_offset + i * entry_size) entry_size ≡ some e)
      × (is_partition e ≡ true)
      × (is_nvs e ≡ true))
    ⊎ ((before : Bytes) × (rd (table_offset + i * entry_size) entry_size ≡ some before)
        × (is_partition before ≡ true)
        × (is_nvs before ≡ false)
        × IsFirst rd more (i + 1) k e)

find_from-IsFirst :
    (rd : ℕ → ℕ → Option Bytes) (more i off sz : ℕ)
    → find_from rd more i ≡ some (off, sz)
    → (k : ℕ) × (e : Bytes) × IsFirst rd more i k e
      × (off ≡ le32 4 e)
      × (sz ≡ le32 8 e)
      × IsErasable off sz
unfolding find_from IsFirst
find_from-IsFirst rd zero i off sz h = ground arith
find_from-IsFirst rd (suc more) i off sz h =
    elim (Option-cases (rd (table_offset + i * entry_size) entry_size)) [
      | inl n ↦ (let r : find_from rd (suc more) i ≡ none = rw (n, find_from) refl in ground arith)
      | inr (e, read) ↦ elim (Bool-cases (is_partition e)) [
        | inr p ↦
            (let r : find_from rd (suc more) i ≡ none = rw (read, p, find_from) refl in
              ground arith)
        | inl p ↦ elim (Bool-cases (is_nvs e)) [
          | inl v ↦
              let r : find_from rd (suc more) i ≡ region_of (le32 4 e) (le32 8 e) =
                rw (read, p, v, find_from) refl in
              let (a, b, s) = region_of-IsErasable (le32 4 e) (le32 8 e) off sz (sym r ∙ h) in
              (i, e, inl (refl, read, p, v), a, b, rw (a, b) s)
          | inr v ↦
              let r : find_from rd (suc more) i ≡ find_from rd more (i + 1) =
                rw (read, p, v, find_from) refl in
              let (k, e', first, a, b, s) = find_from-IsFirst rd more (i + 1) off sz (sym r ∙ h) in
              (k, e', inr (e, read, p, v, first), a, b, s)
        ]
      ]
    ]

-- What esp_part_find_nvs_rd finds: the region of the first NVS entry of the table, where all before it
-- were read and are entries of other partitions; not empty, whole sectors, behind the partition table
-- and inside the 4 MB of the flash.
pub find_nvs_lem :
    (rd : ℕ → ℕ → Option Bytes) (off sz : ℕ)
    → find_nvs_rd rd ≡ some (off, sz)
    → (k : ℕ) × (e : Bytes) × IsFirst rd max_entries 0 k e
      × (off ≡ le32 4 e)
      × (sz ≡ le32 8 e)
      × IsErasable off sz
unfolding find_nvs_rd
find_nvs_lem rd off sz h = find_from-IsFirst rd max_entries 0 off sz h
