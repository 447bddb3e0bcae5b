-- ===== src/Net/Tests.antt =====
-- A pod that waits for a lease, and one with Ethernet and Wi-Fi.
use benchpod_firmware.Base.{◌*◌, ◌≡◌, true, false, List, [], ◌∷◌, arith}
use benchpod_firmware.Net.Dhcp.{Dhcp, wait, corrupt, waits, rekick_period}
use benchpod_firmware.Net.Route.{Iface}

rekick_period_example :
    waits (3 * 150) 150 (record { state = wait; wait_ticks = 0 })
    ≡ (record { state = wait; wait_ticks = 0 }, 3)
rekick_period_example = rekick_period 3 150 (omega arith) (omega arith)

abbrev torn : Dhcp
torn = record { state = corrupt; wait_ticks = 9 }

-- 192.168.1.7/24 and 10.0.0.2/8.
abbrev two : List Iface
two =
    record { ip = 0xC0A80107; mask = 0xFFFFFF00; usable = false }
    ∷ record { ip = 0x0A000002; mask = 0xFF000000; usable = true }
    ∷ []
