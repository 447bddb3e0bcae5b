-- ===== src/Worker/Trace.antt =====
-- stm32h563/src/hw_worker.c: any order of calls by the producers and steps of the worker.
-- Here apply_parked_teardowns is one step; Worker.Turns has the calls that come within its loop.
use benchpod_firmware.Worker.{
  Pend, Worker, Kind, close_conn, reset_tunnel, bit, submit_bytes, submit_teardown, data_max,
  submit_console, submit_cloud, submit_ota_begin, submit_ota_data, submit_ota_end, submit_ota_abort,
  submit_ota_commit, submit_esp_flash, take_cloud_reply,
}
use benchpod_firmware.Worker.Step.{Answers, Call, receive, apply_parked, retry_flash}
use benchpod_firmware.Worker.Fifo.{Item, sent, torn, only}
use benchpod_firmware.Base.{ℕ, ◌≡◌, false, List, [], ◌∷◌, ◌++◌, if◌then◌else◌, take, Bytes}

-- A call of a producer, or a step of the worker with what is answered to it.
pub data Event : Type 0 where
  bytes_in : (conn : ℕ) (body : Bytes) → Event
  teardown_in : (k : Kind) (conn : ℕ) → Event
  cloud_in : (req_id json : Bytes) → Event
  console_in : (line : Bytes) → Event
  begin_in : (size : ℕ) (sha target : Bytes) (version : ℕ) (sig : Bytes) → Event
  data_in : (owner offset : ℕ) (body : Bytes) → Event
  end_in : Event
  abort_in : Event
  commit_in : Event
  flash_in : Event
  reply_taken : (req_id_cap reply_cap : ℕ) → Event
  received : (a : Answers) → Event
  parked_applied : Event
  flash_retried : (a : Answers) → Event

-- The calls that leave the file, and the state after it.
unfoldable pub step : (ℕ → Bytes) → Event → Worker → List Call × Worker
step digits (bytes_in conn body) s = ([], (submit_bytes conn body s).1)
step digits (teardown_in k conn) s = ([], submit_teardown k conn s)
step digits (cloud_in req_id json) s = ([], (submit_cloud req_id json s).1)
step digits (console_in line) s = ([], (submit_console line s).1)
step digits (begin_in size sha target version sig) s =
    ([], (submit_ota_begin digits size sha target version sig s).1)
step digits (data_in owner offset body) s = ([], (submit_ota_data owner offset body s).1)
step digits end_in s = ([], (submit_ota_end s).1)
step digits abort_in s = ([], (submit_ota_abort s).1)
step digits commit_in s = ([], (submit_ota_commit s).1)
step digits flash_in s = ([], (submit_esp_flash s).1)
step digits (reply_taken id_cap reply_cap) s = ([], (take_cloud_reply id_cap reply_cap s).1)
step digits (received a) s = receive a s
step digits parked_applied s = apply_parked s
step digits (flash_retried a) s = retry_flash a s

unfoldable pub run : (ℕ → Bytes) → List Event → Worker → List Call × Worker
run digits [] s = ([], s)
run digits (e ∷ es) s =
    let (cs, s') = step digits e s in let (cs', s'') = run digits es s' in (cs ++ cs', s'')

-- What a connection has given the worker: the bytes that were not refused, up to the length of an
-- item, and each teardown, but one that waits already.
unfoldable pub taken_in : ℕ → Event → Worker → List Item
taken_in id (bytes_in conn body) s =
    if (submit_bytes conn body s).0 then only id conn (sent (take data_max body)) else []
taken_in id (teardown_in k conn) s = if bit k (s.parked conn) then [] else only id conn (torn k)
taken_in id e s = []

-- A connection has one kind of teardown: a LAN connection closes, a tunnel is reset.
abbrev pub Proper : ℕ → Kind → Event → Type 0
Proper id k (teardown_in j conn) = conn ≡ id → j ≡ k
Proper id k e = Unit

abbrev pub Lone : Kind → Pend → Type 0
Lone close_conn p = p.reset ≡ false
Lone reset_tunnel p = p.close ≡ false
