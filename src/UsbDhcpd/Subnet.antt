-- ===== src/UsbDhcpd/Subnet.antt =====
-- stm32h563/src/usb_dhcpd.c: the addresses of the USB link.
use benchpod_firmware.UsbDhcpd.{subnet}
use benchpod_firmware.Base.{ℕ, ◌+◌, ◌/◌, ◌%◌, ◌^◌, ◌≡◌, arith}

-- Whatever the UID is: the pod and the host are the two hosts of one /30 network inside of
-- 10.237.0.0/16.
pub subnet_lem :
    (u0 u1 u2 : ℕ)
    → ((subnet u0 u1 u2).0 % 4 ≡ 1)
      × ((subnet u0 u1 u2).1.0 ≡ (subnet u0 u1 u2).0 + 1)
      × ((subnet u0 u1 u2).0 / 2 ^ 16 ≡ 2797)
unfolding subnet
subnet_lem u0 u1 u2 = (omega arith, omega arith, omega arith)
