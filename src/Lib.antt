-- ===== src/Lib.antt =====
-- The firmware of the BenchPod (stm32h563/src) and of its Wi-Fi bridge (wifi-bridge) in part: the
-- code that decides, as functions on explicit state, and what it guarantees.
--
-- A client's command line arrives over the LAN, the USB network or a cloud tunnel. Its JSON is
-- read (Json), its verb is looked up in the command table and its tier is found (Command), the
-- gates ask the LAN policy (Access.Policy), the lease of a cloud job (Access.Lease), the tunnel's
-- tier, safe mode (Boot) and the board, and only then its handler runs, all on one worker task,
-- which takes the lines from a queue (Worker). Replies go into one ring for each connection
-- (ConnTx), filled by the worker and emptied by the network task; towards the cloud they are
-- WebSocket frames (WsFrame), and a reply to the cloud is captured first (CloudReply). Around
-- this: the interface and the address (Net), the addresses of the USB link (UsbDhcpd), the PSRAM
-- that captures, replays and updates share (Psram), the records that survive a loss of power
-- (Store), the check of a signed image (Access.FwSign), the session of an update (Ota), and what
-- is done when captures keep failing (Recovery).
--
-- The Wi-Fi bridge is a second device, on the pod's cable. It takes requests in signed frames
-- (Bridge.Wire) from the pod that it is paired with (Bridge.Pairing), forwards that pod's frames to
-- the radio and back (Bridge.Forward), and takes updates of itself in chunks (Bridge.Ota,
-- Bridge.Update) under a signed manifest (Bridge.FwSig). Bridge.Control puts these together.
--
-- Files, and the code under stm32h563/src that each is about:
--   ConnTx                 conn_tx.c: the rings; Queue is the FIFO that they implement
--   Json, Json.Top/Emit    bp_json.c: the flat reader, the outermost-member scan, the emitter; Tree has
--                          JSON values and their text, Fuel and Ends are about the end of the scan
--   Command, Command.Table cmd_tier.c, cmd_table.h, cmd_gate.c, dispatch_line of command_handler.c
--   Worker                 hw_worker.c: Turns has the calls that come inside of the loop of
--                          apply_parked_teardowns and the order in which a connection is served,
--                          Busy and Round are about when its slot is free
--   Boot                   boot_guard.c, boot_policy.c
--   Access.Lease           lease_gate.c
--   Access.Policy          pod_policy.c
--   Access.FwSign          fw_sign.c
--   Ota                    ota.c, fw_info.c: End checks a staged image, Owner is the transport that a
--                          session belongs to, Stall is about the watchdog
--   EspPartTable           esp_part_table.c: the region that a wifi-clear erases
--   Recovery               recovery.c
--   Psram.Alloc/.Regions/.Owner  psram_alloc.c, psram_regions.c, bus_owner.c
--   Store                  config_store.c: the A/B records in flash; Commit and PowerLoss are about a
--                          loss of power while one is written
--   Net.Dhcp/.Route        net_dhcp.c, net_route.c
--   UsbDhcpd               usb_dhcpd.c: Options is about how the options of a reply are read
--   WsFrame                ws_frame.c
--   CloudReply, B64url     cloud_reply_cap.c, b64url.c
--   StatusLed, Xfer        status_led.c, xfer.c
--   Bridge.Wire            wifi-bridge/components/bridge_core/bwp.c: Tlv is about the bodies, Frame about
--                          whole frames, Scan and Auth about signed ones
--   Bridge.Pairing/.Forward  pairing.c, l2fwd.c beside it
--   Bridge.Ota/.FwSig      bridge_util.c, fwsig.c beside it
--   Bridge.Update          wifi-bridge/main/ota.c
--   Bridge.SetWifi         the credentials of a SET_WIFI request, in bwp.c
--   Bridge.Requests, Bridge.Control  wifi-bridge/main/control.c
--   Base                   numbers, words, lists, texts and tests that these share
-- Each file opens with how its state stands for the C variables. Functions keep their C names, less
-- the prefix of their file; a `Tests` module holds runs at concrete inputs.
--
-- Numbers are natural numbers. A uint32_t or uint16_t that can wrap is reduced where the code's is;
-- `(int32_t)` tests read the top bit. C strings are lists of bytes without their NUL, an output
-- buffer's room is a number. A pointer that may be NULL is an option. Text of refusals, replies and
-- log lines is left out, except where it is data.
--
-- Fuel: the outermost-member scan of Json.Top gets the length of the text (Json.Fuel is about why
-- that is enough), the loop of Ota.End that reads an image back its size (Ota.End.Reads), the loop
-- over the options of a DHCP request their length, the one over a partition table its most
-- entries. The loops of Store over chunks and pages get their exact number of rounds. The loops
-- over a body's TLVs (Bridge.Wire) get its length, and each round takes three bytes. All else
-- recurs on its data.
--
-- Parameters: SHA-512, Ed25519 and the key table (Access.FwSign), dac_limits_check_command and the
-- connection's context (Command), the outcome of a flash write and the record in flash
-- (Access.Policy), snprintf's %u (CloudReply), SHA-256 and its HMAC and the outcomes of ESP-IDF's
-- flash calls (Bridge), SHA-256, what PSRAM returns and the outcomes of writes (Ota). Nothing is
-- assumed of them, but that an HMAC has 32 bytes. The flash chip is a parameter of Store; IsChip
-- and Torn of Store.Commit say what is relied on: operations leave the rest alone, an erase leaves
-- 0xFF, and the first quad-word of a sector that a loss of power catches is old, blank or fails
-- its ECC.
--
-- Not modelled: the command handlers and drivers (hardware access), lwIP, TLS and FreeRTOS code
-- and its callers, the writers of updates (ota_commit.c, blob_store.c), the bridge's tasks and
-- drivers, the FPGA gateware and the scripts. Calls are atomic, but for the loop of
-- apply_parked_teardowns in Worker.Turns: memory fences and other preemption inside a call are
-- left out.
pub mod Access
pub mod B64url
pub mod Base
pub mod Boot
pub mod Bridge
pub mod CloudReply
pub mod Command
pub mod ConnTx
pub mod EspPartTable
pub mod Json
pub mod Net
pub mod Ota
pub mod Psram
pub mod Recovery
pub mod StatusLed
pub mod Store
pub mod UsbDhcpd
pub mod Worker
pub mod WsFrame
pub mod Xfer
