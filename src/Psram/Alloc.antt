-- ===== src/Psram/Alloc.antt =====
-- stm32h563/src/psram_alloc.c: the zones of a three-way capture. Every `uint32_t` wraps where the
-- source's does; the sums that the source takes in `uint64_t` do not reach its end.
use benchpod_firmware.Base.{add32, ◌≤◌, arith, mul32, ◌^◌, ◌≡◌, ℕ, ◌+◌, ◌*◌, ltb, if◌then◌else◌}

-- PSRAM_USABLE_BYTES and PSRAM_SUSTAINED_BPS.
abbrev pub usable_bytes : ℕ
usable_bytes = 0x7FF000

abbrev pub sustained_bps : ℕ
sustained_bps = 20000000

pub data Status : Type 0 where
  ok err_capacity err_bandwidth : Status

pub record Request : Type 0 where
  pub la_samples : ℕ
  pub adc_samples : ℕ
  pub dac_bytes : ℕ
  pub la_rate_hz : ℕ
  pub adc_rate_hz : ℕ
  pub dac_rate_hz : ℕ

pub record Layout : Type 0 where
  pub status : Status
  pub la_base : ℕ
  pub la_len : ℕ
  pub adc_base : ℕ
  pub adc_len : ℕ
  pub dac_base : ℕ
  pub dac_len : ℕ
  pub need_bytes : ℕ
  pub avail_bytes : ℕ
  pub load_bps : ℕ
  pub bus_bps : ℕ

abbrev pub clip32 : ℕ → ℕ
clip32 n = if ltb 0xFFFFFFFF n then 0xFFFFFFFF else n

pub psram_plan : Request → Layout
psram_plan req =
    let la_len = mul32 req.la_samples 2 in
    let adc_len = mul32 req.adc_samples 2 in
    let need = la_len + adc_len + req.dac_bytes in
    let load = (req.la_rate_hz + req.adc_rate_hz + req.dac_rate_hz) * 2 in
    record {
      status =
          if ltb usable_bytes need
          then err_capacity
          else if ltb sustained_bps load
          then err_bandwidth
          else ok;
      la_base = 0;
      la_len = la_len;
      adc_base = la_len;
      adc_len = adc_len;
      dac_base = add32 la_len adc_len;
      dac_len = req.dac_bytes;
      need_bytes = clip32 need;
      avail_bytes = usable_bytes;
      load_bps = clip32 load;
      bus_bps = sustained_bps;
    }

-- An accepted layout: each zone ends where the next begins, the last ends within the usable part,
-- and the live streams are within what the bus drains.
pub record Fits (req : Request) (l : Layout) : Type 0 where
  pub adc_after_la : l.adc_base ≡ l.la_base + l.la_len
  pub dac_after_adc : l.dac_base ≡ l.adc_base + l.adc_len
  pub inside : l.dac_base + l.dac_len ≤ usable_bytes
  pub drained : (req.la_rate_hz + req.adc_rate_hz + req.dac_rate_hz) * 2 ≤ sustained_bps
  pub exact_need : l.need_bytes ≡ l.la_len + l.adc_len + l.dac_len

-- psram_plan answers OK for a request exactly when its byte lengths, after the `uint32_t` doubling,
-- sum to no more than the usable bytes and its doubled rates to no more than the bus drains; the
-- zones are then adjacent, disjoint and inside the usable part.
pub psram_plan_ok :
    (req : Request)
    → ((psram_plan req).status ≡ ok → Fits req (psram_plan req))
      × (mul32 req.la_samples 2 + mul32 req.adc_samples 2 + req.dac_bytes ≤ usable_bytes
          → (req.la_rate_hz + req.adc_rate_hz + req.dac_rate_hz) * 2 ≤ sustained_bps
          → (psram_plan req).status ≡ ok)
unfolding psram_plan
psram_plan_ok req = (λ h. ground arith, λ a b. ground arith)

-- The doubling wraps: 2 ^ 31 samples more of either stream make no difference to the plan, so a
-- request far beyond the memory can be accepted with short zones.
pub doubling_wraps :
    (req : Request)
    → psram_plan (record req { la_samples = req.la_samples + 2 ^ 31 }) ≡ psram_plan req
unfolding psram_plan
doubling_wraps req = ground arith
