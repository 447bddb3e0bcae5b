-- ===== src/Command/Table.antt =====
-- stm32h563/src/cmd_tier.c and cmd_table.h: the rows of the command table, in the build without
-- BENCHPOD_EMI_TEST. A row's flags are the list of those that are set; its handler is not part of
-- the model.
use benchpod_firmware.Base.{ℕ, List, [], ◌∷◌, ◌++◌, Bytes, codes}
use Prim.Native.String.{String}

-- `cmd_tier_t`, as the number that the comparisons read.
abbrev pub t0 : ℕ
t0 = 0

abbrev pub t1 : ℕ
t1 = 1

abbrev pub t2 : ℕ
t2 = 2

abbrev pub t3 : ℕ
t3 = 3

pub data Flag : Type 0 where
  no_hw analog stream heavy noisy mixed : Flag

-- `cmd_desc_t`.
pub record Desc : Type 0 where
  pub name : Bytes
  pub tier : ℕ
  pub flags : List Flag

abbrev row : String → ℕ → List Flag → Desc
row n t fs = record { name = codes n; tier = t; flags = fs }

-- T0: the plain reads, the reads of the DUT, and the read forms of the mixed verbs.
abbrev reads : List Desc
reads =
    row "ping" t0 (no_hw ∷ noisy ∷ [])
    ∷ row "status" t0 (no_hw ∷ [])
    ∷ row "cloud_status" t0 (no_hw ∷ [])
    ∷ row "wifi_status" t0 (no_hw ∷ [])
    ∷ row "wifi_scan" t0 (no_hw ∷ [])
    ∷ row "la_pins" t0 ([])
    ∷ row "usb_cc" t0 (no_hw ∷ [])
    ∷ row "target_status" t0 (no_hw ∷ noisy ∷ [])
    ∷ row "power_status" t0 (no_hw ∷ noisy ∷ [])
    ∷ row "identity_public" t0 (no_hw ∷ [])
    ∷ row "identity_pop" t0 (no_hw ∷ [])
    ∷ row "identity_wipe" t0 (no_hw ∷ [])
    ∷ row "spi_status" t0 ([])
    ∷ row "sensor_status" t0 ([])
    ∷ row "sensor_types" t0 ([])
    ∷ row "gps_status" t0 ([])
    ∷ row "can_status" t0 (no_hw ∷ [])
    ∷ row "ota_status" t0 ([])
    ∷ row "blob_status" t0 ([])
    ∷ row "dac_loop_probe" t0 (analog ∷ [])
    ∷ row "capture" t0 (analog ∷ stream ∷ heavy ∷ [])
    ∷ row "capture_dual" t0 (stream ∷ heavy ∷ [])
    ∷ row "capture_read" t0 (stream ∷ heavy ∷ [])
    ∷ row "stream" t0 (analog ∷ stream ∷ heavy ∷ [])
    ∷ row "la_capture" t0 (stream ∷ heavy ∷ [])
    ∷ row "sensor_regs" t0 (stream ∷ heavy ∷ [])
    ∷ row "sensor_la" t0 (stream ∷ heavy ∷ [])
    ∷ row "can_read" t0 (no_hw ∷ heavy ∷ [])
    ∷ row "psram_ping" t0 (heavy ∷ [])
    ∷ row "test" t0 (stream ∷ heavy ∷ [])
    ∷ row "dac_limits" t0 (no_hw ∷ analog ∷ mixed ∷ [])
    ∷ row "calibrate" t0 (analog ∷ mixed ∷ [])
    ∷ row "eth" t0 (no_hw ∷ mixed ∷ [])
    ∷ row "sig_policy" t0 (mixed ∷ [])
    ∷ row "lan_policy" t0 (mixed ∷ [])
    ∷ row "usb_network" t0 (mixed ∷ [])
    ∷ row "module" t0 (no_hw ∷ mixed ∷ [])
    ∷ row "cloud_ca" t0 (mixed ∷ [])
    ∷ row "cloud_proxy" t0 (mixed ∷ [])
    ∷ row "lan_tls" t0 (mixed ∷ [])
    ∷ []

-- T1: instrument control.
abbrev controls : List Desc
controls =
    row "generate" t1 (analog ∷ [])
    ∷ row "measure" t1 (analog ∷ stream ∷ [])
    ∷ row "load" t1 (analog ∷ stream ∷ [])
    ∷ row "load_bin" t1 (analog ∷ stream ∷ [])
    ∷ row "replay" t1 (analog ∷ stream ∷ [])
    ∷ row "dac_stop" t1 ([])
    ∷ row "dac_set" t1 (analog ∷ [])
    ∷ row "dac_mux" t1 (analog ∷ [])
    ∷ row "cal_switch" t1 (analog ∷ [])
    ∷ row "analog_path" t1 (analog ∷ [])
    ∷ row "dac_out" t1 (analog ∷ [])
    ∷ row "current_out" t1 (analog ∷ [])
    ∷ row "adc_read" t1 (analog ∷ [])
    ∷ row "adc_range" t1 (analog ∷ [])
    ∷ row "dac_control_loop" t1 (analog ∷ [])
    ∷ row "dac_loop_input" t1 (analog ∷ [])
    ∷ row "la" t1 ([])
    ∷ row "gpio" t1 ([])
    ∷ row "la_voltage" t1 (no_hw ∷ [])
    ∷ row "nrst" t1 (no_hw ∷ [])
    ∷ row "target_power" t1 (no_hw ∷ [])
    ∷ row "module_power" t1 ([])
    ∷ row "power_profile" t1 (no_hw ∷ [])
    ∷ row "dap_start" t1 (stream ∷ [])
    ∷ row "uart_proxy_start" t1 (stream ∷ [])
    ∷ row "spi_start" t1 ([])
    ∷ row "spi_stop" t1 ([])
    ∷ row "spi_xfer" t1 ([])
    ∷ row "spi_stream" t1 ([])
    ∷ row "spi_flash" t1 ([])
    ∷ row "sensor_start" t1 ([])
    ∷ row "sensor_set" t1 ([])
    ∷ row "sensor_stop" t1 ([])
    ∷ row "gps_start" t1 ([])
    ∷ row "gps_set" t1 ([])
    ∷ row "gps_stop" t1 ([])
    ∷ row "can_config" t1 (no_hw ∷ [])
    ∷ row "can_write" t1 (no_hw ∷ [])
    ∷ row "can_term" t1 (no_hw ∷ [])
    ∷ row "can_respond" t1 (no_hw ∷ [])
    ∷ row "can_disable" t1 (no_hw ∷ [])
    ∷ row "speedtest" t1 (no_hw ∷ stream ∷ [])
    ∷ row "fpga_image" t1 ([])
    ∷ row "psram_recover" t1 ([])
    ∷ []

-- T2: persisted configuration.
abbrev settings : List Desc
settings =
    row "cloud_set" t2 (no_hw ∷ [])
    ∷ row "cloud_clear" t2 (no_hw ∷ [])
    ∷ row "wifi_set" t2 (no_hw ∷ [])
    ∷ row "wifi_clear" t2 (no_hw ∷ [])
    ∷ []

-- T3: firmware.
abbrev updates : List Desc
updates =
    row "ota_begin" t3 ([])
    ∷ row "ota_data" t3 ([])
    ∷ row "ota_end" t3 ([])
    ∷ row "ota_commit" t3 ([])
    ∷ row "ota_abort" t3 ([])
    ∷ row "ota_selftest" t3 ([])
    ∷ []

-- `k_tiers`.
unfoldable pub k_tiers : List Desc
k_tiers = reads ++ (controls ++ (settings ++ updates))
