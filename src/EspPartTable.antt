-- ===== src/EspPartTable.antt =====
-- stm32h563/src/esp_part_table.c: the NVS partition of an ESP32 image, that a wifi-clear erases. `rd` is
-- the caller's read of an entry, none where it fails; a region is its offset and its size.
pub mod Region
mod Tests
use benchpod_firmware.Base.{
  ℕ, zero, suc, ◌+◌, ◌-◌, ◌*◌, ◌/◌, ◌%◌, ◌^◌, ◌≤◌, ◌<◌, min, max, bit_and, bit_or, bit_xor, ◌≡◌,
  refl, sym, ap, ◌∙◌, ◌≢◌, ◌↔◌, ◌⊎◌, inl, inr, Bool, true, false, not, ◌&&◌, ◌||◌, Option, none,
  some, List, [], ◌∷◌, ◌++◌, arith, ltb, leb, ◌==◌, if◌then◌else◌, Bool-cases, Option-cases, length,
  take, drop, set, get_or, replicate, All, length-append, length-set, length-take, length-drop,
  length-replicate, add32, sub32, mul32, add16, sub16, Bytes, codes, str_eq, str_eq_iff,
}

abbrev pub entry_size : ℕ
entry_size = 32

abbrev pub max_entries : ℕ
max_entries = 95

abbrev pub table_offset : ℕ
table_offset = 32768

abbrev pub table_size : ℕ
table_size = 4096

abbrev pub sector_size : ℕ
sector_size = 4096

abbrev pub flash_size_max : ℕ
flash_size_max = 4194304

-- `p[i]`, of an entry.
abbrev pub byte : ℕ → Bytes → ℕ
byte i p = get_or p i 0

-- `le32`, from a place of the entry on.
abbrev pub le32 : ℕ → Bytes → ℕ
le32 i p = byte i p + 2 ^ 8 * byte (i + 1) p + 2 ^ 16 * byte (i + 2) p + 2 ^ 24 * byte (i + 3) p

-- Whether an entry is one of a partition, and of the one that is looked for.
abbrev pub is_partition : Bytes → Bool
is_partition e = (byte 0 e + 2 ^ 8 * byte 1 e) == 20650

abbrev pub is_nvs : Bytes → Bool
is_nvs e =
    ((byte 2 e == 1) && (byte 3 e == 2)) && str_eq (take 4 (drop 12 e)) (codes "nvs" ++ (0 ∷ []))

-- The region of the entry, where it may be erased.
unfoldable pub region_of : ℕ → ℕ → Option (ℕ × ℕ)
region_of off sz =
    if sz == 0 || (not (off % sector_size == 0) || not (sz % sector_size == 0))
    then none
    else if ltb off (table_offset + table_size)
    then none
    else if ltb flash_size_max off || ltb (flash_size_max - off) sz
    then none
    else some (off, sz)

-- The loop of `esp_part_find_nvs_rd`, with `more` entries from the `i`-th on.
unfoldable pub find_from : (ℕ → ℕ → Option Bytes) → ℕ → ℕ → Option (ℕ × ℕ)
find_from rd zero i = none
find_from rd (suc more) i =
    let next = find_from rd more (i + 1) in
    elim (rd (table_offset + i * entry_size) entry_size) [
      | none ↦ none
      | some e ↦
          if not (is_partition e)
          then none
          else if not (is_nvs e)
          then next
          else region_of (le32 4 e) (le32 8 e)
    ]

-- `esp_part_find_nvs_rd`.
unfoldable pub find_nvs_rd : (ℕ → ℕ → Option Bytes) → Option (ℕ × ℕ)
find_nvs_rd rd = find_from rd max_entries 0

-- `mem_read`.
unfoldable pub mem_read : Bytes → ℕ → ℕ → Option Bytes
mem_read img off n =
    if ltb (length img) off || ltb (length img - off) n then none else some (take n (drop off img))

-- `esp_part_find_nvs`.
unfoldable pub find_nvs : Bytes → Option (ℕ × ℕ)
find_nvs img = find_nvs_rd (mem_read img)
