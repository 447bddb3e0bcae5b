-- ===== src/EspPartTable/Tests.antt =====
-- stm32h563/src/esp_part_table.c: a run on a concrete table, and a witness.
use benchpod_firmware.EspPartTable.{max_entries, le32, region_of, find_from, find_nvs_rd}
use benchpod_firmware.EspPartTable.Region.{IsFirst, IsErasable, find_nvs_lem}
use benchpod_firmware.Base.{
  ℕ, ◌≡◌, refl, Option, none, some, ◌∷◌, ◌++◌, ◌==◌, if◌then◌else◌, replicate, Bytes, codes, str_eq,
}

-- "otadata" at 0xF000 and "nvs" at 0x9000, 0x6000 bytes.
abbrev ota_entry : Bytes
ota_entry =
    170 ∷ 80 ∷ 1 ∷ 0 ∷ 0 ∷ 240 ∷ 0 ∷ 0 ∷ 0 ∷ 32 ∷ 0 ∷ 0 ∷ (codes "otadata" ++ replicate 13 0)

abbrev nvs_entry : Bytes
nvs_entry = 170 ∷ 80 ∷ 1 ∷ 2 ∷ 0 ∷ 144 ∷ 0 ∷ 0 ∷ 0 ∷ 96 ∷ 0 ∷ 0 ∷ (codes "nvs" ++ replicate 17 0)

abbrev read_table : ℕ → ℕ → Option Bytes
read_table off n =
    if off == 32768 then some ota_entry else if off == 32800 then some nvs_entry else none

nvs_is_found : find_nvs_rd read_table ≡ some (36864, 24576)
unfolding find_nvs_rd find_from region_of str_eq
nvs_is_found = refl

find_nvs_lem_example :
    (k : ℕ) × (e : Bytes) × IsFirst read_table max_entries 0 k e
    × (36864 ≡ le32 4 e)
    × (24576 ≡ le32 8 e)
    × IsErasable 36864 24576
find_nvs_lem_example = find_nvs_lem read_table 36864 24576 nvs_is_found
