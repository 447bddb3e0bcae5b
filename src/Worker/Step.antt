-- ===== src/Worker/Step.antt =====
-- stm32h563/src/hw_worker.c: what the worker does with an item, with the parked teardowns, and in one
-- round of its loop.
use benchpod_firmware.Worker.{
  Work, bytes, console, cloud, closed, tunnel_reset, ota_begin, ota_data, ota_end, ota_abort,
  ota_commit, esp_flash, Pend, Worker, no_pend, update, Kind, close_conn, reset_tunnel, bit,
  teardown_done, pend_ids, queue_depth, id_max, reply_max,
}
use benchpod_firmware.Base.{
  ℕ, zero, suc, ◌-◌, Bool, true, false, not, ◌&&◌, Option, none, some, List, [], ◌∷◌, ◌++◌, ◌==◌,
  if◌then◌else◌, length, take, Bytes, codes,
}

-- The fields that sscanf reads from an OTA_BEGIN item.
pub record BeginArgs : Type 0 where
  pub sha : Bytes
  pub target : Bytes
  pub version : ℕ
  pub sig_b64 : Bytes

-- What the code that an item reaches answers: the reply of command_handler_dispatch_cloud,
-- heavy_or_claimed, whether esp_rom_flash_start starts, sscanf's fields, ota_target_from_name,
-- ota_begin_gate, ota_busy_for, whether ota_abort_by aborts, ota_busy_replace_for.
pub record Answers : Type 0 where
  pub reply : Bytes
  pub heavy : Bool
  pub flash_starts : Bool
  pub scanned : Option BeginArgs
  pub target : Option ℕ
  pub gate : Option Bytes
  pub busy : Option Bytes
  pub aborts : Bool
  pub replace : Bytes

-- The calls that leave this file, with their arguments.
pub data Call : Type 0 where
  process : (conn : ℕ) (body : Bytes) → Call
  run_line : (line : Bytes) → Call
  dispatch_cloud : (json : Bytes) → Call
  conn_closed : (conn : ℕ) → Call
  conn_reset : (conn : ℕ) → Call
  begin_update : (owner size target : ℕ) (args : BeginArgs) → Call
  refuse : (owner : ℕ) (why : Bytes) → Call
  data_chunk : (owner offset : ℕ) (body : Bytes) → Call
  end_update : (owner : ℕ) → Call
  commit_update : Call
  start_flash : Call
  flash_failed : Call

abbrev pub torn_down : Kind → ℕ → Call
torn_down close_conn conn = conn_closed conn
torn_down reset_tunnel conn = conn_reset conn

-- `start_esp_flash`.
abbrev start_esp_flash : Answers → List Call
start_esp_flash a = if a.flash_starts then start_flash ∷ [] else start_flash ∷ flash_failed ∷ []

-- The arm WK_OTA_BEGIN.
unfoldable pub handle_ota_begin : Answers → ℕ → ℕ → List Call
handle_ota_begin a owner size = elim a.scanned [
  | none ↦ []
  | some args ↦ elim a.target [
    | none ↦ refuse owner (codes "bad target") ∷ []
    | some t ↦ elim a.gate [
      | none ↦ begin_update owner size t args ∷ []
      | some why ↦ refuse owner why ∷ []
    ]
  ]
]

-- `handle_work`.
unfoldable pub handle_work : Answers → Work → Worker → List Call × Worker
unfolding teardown_done handle_ota_begin
handle_work a (bytes conn body) s = (process conn body ∷ [], s)
handle_work a (console line) s = (run_line line ∷ [], s)
handle_work a (cloud req_id json) s = (
  dispatch_cloud json ∷ [],
  record s {
    cloud_reply = take reply_max a.reply;
    cloud_req_id = take (id_max - 1) req_id;
    cloud_ready = true;
  },
)
handle_work a (closed conn) s = (conn_closed conn ∷ [], teardown_done close_conn conn s)
handle_work a (tunnel_reset conn) s = (conn_reset conn ∷ [], teardown_done reset_tunnel conn s)
handle_work a (ota_begin owner size args) s = (handle_ota_begin a owner size, s)
handle_work a (ota_data owner offset body) s = (data_chunk owner offset body ∷ [], s)
handle_work a (ota_end owner) s = (end_update owner ∷ [], s)
handle_work a (ota_abort owner) s = (if a.aborts then [] else refuse owner a.replace ∷ [], s)
handle_work a (ota_commit owner) s =
    (elim a.busy [ none ↦ commit_update ∷ [] | some why ↦ refuse owner why ∷ [] ], s)
handle_work a esp_flash s =
    if a.heavy then ([], record s { esp_flash_deferred = true }) else (start_esp_flash a, s)

-- xQueueReceive and `handle_work`: nothing where the queue is empty.
unfoldable pub receive_from : Answers → List Work → Worker → List Call × Worker
receive_from a [] s = ([], s)
receive_from a (w ∷ ws) s = handle_work a w (record s { q = ws })

unfoldable pub receive : Answers → Worker → List Call × Worker
unfolding receive_from
receive a s = receive_from a s.q s

-- One parked teardown of a connection.
unfoldable pub apply_bit : Kind → ℕ → Pend → List Call × Worker → List Call × Worker
unfolding teardown_done
apply_bit k conn p r =
    if bit k p then (r.0 ++ (torn_down k conn ∷ []), teardown_done k conn r.1) else r

-- The bits of a connection are read and taken.
abbrev pub unpark : ℕ → Worker → Worker
unpark conn s = record s { parked = update conn no_pend s.parked }

-- The body of the loop over the connections.
unfoldable pub apply_one : ℕ → List Call × Worker → List Call × Worker
apply_one conn r =
    let p = r.1.parked conn in
    apply_bit reset_tunnel conn p (apply_bit close_conn conn p (r.0, unpark conn r.1))

-- The loop up to connection `n`.
unfoldable pub apply_below : ℕ → List Call × Worker → List Call × Worker
unfolding apply_one
apply_below zero r = r
apply_below (suc n) r = apply_one n (apply_below n r)

-- `apply_parked_teardowns`.
unfoldable pub apply_parked : Worker → List Call × Worker
apply_parked s = if length s.q == 0 then apply_below pend_ids ([], s) else ([], s)

-- The batch of the worker's loop, of up to `n` items; `answer` is what is answered to each. A queue
-- that is found empty stays so.
unfoldable pub batch : ℕ → (ℕ → Answers) → List Call × Worker → List Call × Worker
batch zero answer r = r
batch (suc n) answer (cs, s) =
    let (cs', s') = receive (answer n) s in batch n answer (cs ++ cs', s')

-- The retry of a flash that waited for the bus.
unfoldable pub retry_flash : Answers → Worker → List Call × Worker
retry_flash a s =
    if s.esp_flash_deferred && not a.heavy
    then (start_esp_flash a, record s { esp_flash_deferred = false })
    else ([], s)

-- The worker's loop as far as this file's state goes: the batch, the parked teardowns, the flash.
unfoldable pub round : (ℕ → Answers) → Worker → List Call × Worker
round answer s =
    let (cs, s1) = batch queue_depth answer ([], s) in
    let (cs', s2) = apply_parked s1 in
    let (cs'', s3) = retry_flash (answer queue_depth) s2 in (cs ++ (cs' ++ cs''), s3)
