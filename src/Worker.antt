-- ===== src/Worker.antt =====
-- stm32h563/src/hw_worker.c: the queue of work between the tasks that submit and the worker, the
-- teardowns of connections that did not fit in it, and the slot for a cloud command's reply. A call
-- is one step, and FreeRTOS's queue is the list of its items. What the handlers answer is `Answers`,
-- and which of them were called is the list of `Call`s a step returns. snprintf's `%lu` is `digits`.
-- A connection is a number; a text is its bytes without the NUL.
mod Tests
pub mod Step
pub mod Fifo
pub mod Trace
pub mod Order
pub mod Turns
pub mod Busy
pub mod Round
use benchpod_firmware.Base.{
  ℕ, ◌+◌, ◌-◌, ◌/◌, Bool, true, false, not, ◌&&◌, ◌||◌, Option, none, some, List, [], ◌∷◌, ◌++◌,
  arith, ltb, leb, ◌==◌, if◌then◌else◌, length, take, Bytes, codes,
}

-- HW_WORK_DATA_MAX, HW_WORK_QUEUE_DEPTH, HW_PEND_IDS.
abbrev pub data_max : ℕ
data_max = 1536

abbrev pub queue_depth : ℕ
queue_depth = 16

abbrev pub pend_ids : ℕ
pend_ids = 16

-- BP_TUNNEL_ID_MAX, BP_CLOUD_REPLY_MAX of bp_limits.h.
abbrev pub id_max : ℕ
id_max = 64

abbrev pub reply_max : ℕ
reply_max = 1792

-- OTA_OWNER_CLOUD of ota.h.
abbrev pub owner_cloud : ℕ
owner_cloud = 1

-- `cmd_work_t` with its kind: each carries the fields its handler reads.
pub data Work : Type 0 where
  bytes : (conn : ℕ) (body : Bytes) → Work
  console : (line : Bytes) → Work
  cloud : (req_id json : Bytes) → Work
  closed : (conn : ℕ) → Work
  tunnel_reset : (conn : ℕ) → Work
  ota_begin : (owner size : ℕ) (args : Bytes) → Work
  ota_data : (owner offset : ℕ) (body : Bytes) → Work
  ota_end : (owner : ℕ) → Work
  ota_abort : (owner : ℕ) → Work
  ota_commit : (owner : ℕ) → Work
  esp_flash : Work

-- The bits PEND_CLOSED and PEND_RESET of one connection.
pub record Pend : Type 0 where
  pub close : Bool
  pub reset : Bool

pub record Worker : Type 0 where
  pub created : Bool
  pub q : List Work
  pub inflight : ℕ → Pend
  pub parked : ℕ → Pend
  pub esp_flash_deferred : Bool
  pub cloud_pending : Bool
  pub cloud_ready : Bool
  pub cloud_req_id : Bytes
  pub cloud_reply : Bytes

abbrev pub no_pend : Pend
no_pend = record { close = false; reset = false }

abbrev pub any : Pend → Bool
any p = p.close || p.reset

abbrev pub update : ℕ → Pend → (ℕ → Pend) → ℕ → Pend
update i p f j = if i == j then p else f j

-- `submit_u`: what does not fit is refused.
unfoldable pub submit : Work → Worker → Bool × Worker
submit w s =
    if s.created && ltb (length s.q) queue_depth
    then (true, record s { q = s.q ++ (w ∷ []) })
    else (false, s)

-- `hw_worker_submit_bytes`.
unfoldable pub submit_bytes : ℕ → Bytes → Worker → Bool × Worker
submit_bytes conn body s =
    if ltb conn pend_ids && any (s.parked conn)
    then (false, s)
    else submit (bytes conn (take data_max body)) s

-- `hw_worker_can_accept`.
unfoldable pub can_accept : ℕ → Worker → Bool
can_accept len s =
    let segs = (len + (data_max - 1)) / data_max in
    if s.created then leb (if segs == 0 then 1 else segs) (queue_depth - length s.q) else false

-- Which teardown: WK_CLOSED with PEND_CLOSED, or WK_TUNNEL_RESET with PEND_RESET.
pub data Kind : Type 0 where
  close_conn : Kind
  reset_tunnel : Kind

abbrev pub teardown : Kind → ℕ → Work
teardown close_conn conn = closed conn
teardown reset_tunnel conn = tunnel_reset conn

abbrev pub bit : Kind → Pend → Bool
bit close_conn p = p.close
bit reset_tunnel p = p.reset

abbrev pub with_bit : Kind → Bool → Pend → Pend
with_bit close_conn b p = record p { close = b }
with_bit reset_tunnel b p = record p { reset = b }

-- `submit_teardown`: it is submitted, or parked where the queue is full or others are parked.
unfoldable pub submit_teardown : Kind → ℕ → Worker → Worker
submit_teardown k conn s =
    if not (ltb conn pend_ids)
    then (submit (teardown k conn) s).1
    else (let s' = record s {
      inflight = update conn (with_bit k true (s.inflight conn)) s.inflight;
    } in
        let (sent, s'') = submit (teardown k conn) s' in
        if not (any (s.parked conn)) && sent
        then s''
        else record s' { parked = update conn (with_bit k true (s.parked conn)) s.parked })

-- `hw_worker_conn_busy`.
unfoldable pub conn_busy : ℕ → Worker → Bool
conn_busy conn s = ltb conn pend_ids && any (s.inflight conn)

-- `teardown_done`.
unfoldable pub teardown_done : Kind → ℕ → Worker → Worker
teardown_done k conn s =
    if ltb conn pend_ids
    then record s { inflight = update conn (with_bit k false (s.inflight conn)) s.inflight }
    else s

-- `hw_worker_submit_cloud`: one at a time.
unfoldable pub submit_cloud : Bytes → Bytes → Worker → Bool × Worker
submit_cloud req_id json s =
    if s.cloud_pending || s.cloud_ready
    then (false, s)
    else (let (sent, s') = submit (cloud (take (id_max - 1) req_id) (take data_max json)) s in
        (sent, record s' { cloud_pending = sent }))

-- `hw_worker_submit_console`; a wait for room ends in a call with room, or in a refusal.
unfoldable pub submit_console : Bytes → Worker → Bool × Worker
submit_console line = submit (console (take data_max line))

-- `hw_worker_take_cloud_reply`, into buffers of `req_id_cap` and `reply_cap` bytes.
unfoldable pub take_cloud_reply : ℕ → ℕ → Worker → Option (Bytes × Bytes) × Worker
take_cloud_reply req_id_cap reply_cap s = if not s.cloud_ready then (none, s) else (
  some (take (req_id_cap - 1) s.cloud_req_id, take (reply_cap - 1) s.cloud_reply),
  record s { cloud_ready = false; cloud_pending = false },
)

-- `hw_worker_submit_ota_begin`: what does not fit the item's text is consumed. An empty `target` or
-- `sig` is a NULL one too.
unfoldable pub submit_ota_begin :
    (ℕ → Bytes) → ℕ → Bytes → Bytes → ℕ → Bytes → Worker → Bool × Worker
submit_ota_begin digits size sha target version sig s =
    let name = if length target == 0 then codes "firmware" else target in
    let arg = sha ++ (32 ∷ (name ++ (32 ∷ (digits version ++ (32 ∷ sig))))) in
    if leb 320 (length arg) then (true, s) else submit (ota_begin owner_cloud size arg) s

-- `hw_worker_submit_ota_data_from`, and with the cloud as the owner `hw_worker_submit_ota_data`.
unfoldable pub submit_ota_data : ℕ → ℕ → Bytes → Worker → Bool × Worker
submit_ota_data owner offset body = submit (ota_data owner offset (take data_max body))

unfoldable pub submit_ota_end : Worker → Bool × Worker
submit_ota_end = submit (ota_end owner_cloud)

unfoldable pub submit_ota_abort : Worker → Bool × Worker
submit_ota_abort = submit (ota_abort owner_cloud)

unfoldable pub submit_ota_commit : Worker → Bool × Worker
submit_ota_commit = submit (ota_commit owner_cloud)

unfoldable pub submit_esp_flash : Worker → Bool × Worker
submit_esp_flash = submit esp_flash
