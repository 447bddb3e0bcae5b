-- ===== src/Bridge/Forward/Gate.antt =====
-- Which frames are forwarded.
use benchpod_firmware.Base.{
  ◌≤◌, ◌≡◌, ◌≢◌, ◌↔◌, ◌⊎◌, Bool, true, false, arith, ltb, ◌==◌, length, Bytes, str_eq, str_eq_iff,
}
use benchpod_firmware.Bridge.Forward.{
  forward, no_reason, Forwarder, zero_mac, bwp_ethertype, dst_of, src_of, ethertype, is_multicast,
  control_frame, data_frame, from_eth, from_wifi,
}

-- An address that can be the pod's.
unfoldable pub IsPodMac : Bytes → Bytes → Type 0
IsPodMac bridge_mac mac = (is_multicast mac ≡ false) × (mac ≢ zero_mac) × (mac ≢ bridge_mac)

data_frame_iff :
    (f : Bytes) (up : Bool) (s : Forwarder)
    → ((data_frame f up s).0 ≡ forward)
      ↔ ((s.pod_known ≡ true) × (src_of f ≡ s.pod_mac) × (dst_of f ≢ s.bridge_mac) × (up ≡ true))
unfolding data_frame
data_frame_iff f up s =
    let p = str_eq_iff (src_of f) s.pod_mac in
    let d = str_eq_iff (dst_of f) s.bridge_mac in ground arith

control_frame-forward : (f : Bytes) (s : Forwarder) → (control_frame f s).0 ≢ forward
unfolding control_frame
control_frame-forward f s h = absurd (ground arith)

from_eth-tests :
    (f : Bytes) (up : Bool) (s : Forwarder)
    → ((from_eth f up s).0 ≡ forward) ↔ (
        (ltb (length f) 14 ≡ false)
        × (is_multicast (src_of f) ≡ false)
        × (str_eq (src_of f) zero_mac ≡ false)
        × (str_eq (src_of f) s.bridge_mac ≡ false)
        × ((ethertype f == bwp_ethertype) ≡ false)
        × ((data_frame f up (record s { last_why = no_reason })).0 ≡ forward))
unfolding from_eth
from_eth-tests f up s =
    let c = control_frame-forward f (record s { last_why = no_reason }) in ground arith

-- A frame from the cable is forwarded exactly when it is no runt and no control frame, the radio is
-- up, the pod is known, the frame is from the pod's address, which is a possible one, and it is not
-- for the bridge.
pub from_eth_iff :
    (f : Bytes) (up : Bool) (s : Forwarder)
    → ((from_eth f up s).0 ≡ forward) ↔ (
        (14 ≤ length f)
        × (ethertype f ≢ bwp_ethertype)
        × (up ≡ true)
        × (s.pod_known ≡ true)
        × (src_of f ≡ s.pod_mac)
        × IsPodMac s.bridge_mac (src_of f)
        × (dst_of f ≢ s.bridge_mac))
unfolding IsPodMac
from_eth_iff f up s =
    let (to, of) = from_eth-tests f up s in
    let (to', of') = data_frame_iff f up (record s { last_why = no_reason }) in
    let z = str_eq_iff (src_of f) zero_mac in
    let b = str_eq_iff (src_of f) s.bridge_mac in
    (
      λ h.
          let (l, m, nz, nb, e, d) = to h in
          let (k, sp, dn, u) = to' d in
          (ground arith, ground arith, u, k, sp, (m, ground arith, ground arith), dn),
      λ (l, e, u, k, sp, (m, nz, nb), dn).
          of (ground arith, m, ground arith, ground arith, ground arith, of' (k, sp, dn, u)),
    )

-- A frame from the radio is forwarded exactly when it is no runt and no control frame, the pod is
-- known and was seen since the cable was last unplugged, the frame is not the pod's own, and it is for
-- the pod or for many.
pub from_wifi_iff :
    (f : Bytes) (s : Forwarder)
    → ((from_wifi f s).0 ≡ forward) ↔ (
        (14 ≤ length f)
        × (ethertype f ≢ bwp_ethertype)
        × (s.pod_known ≡ true)
        × (s.relearn ≡ false)
        × (src_of f ≢ s.pod_mac)
        × ((is_multicast (dst_of f) ≡ true) ⊎ (dst_of f ≡ s.pod_mac)))
unfolding from_wifi
from_wifi_iff f s =
    let r = str_eq_iff (src_of f) s.pod_mac in
    let d = str_eq_iff (dst_of f) s.pod_mac in ground arith
