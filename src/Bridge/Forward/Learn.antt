-- ===== src/Bridge/Forward/Learn.antt =====
-- Whose frames pass between the cable and the radio, and when the pod's address may change.
use mathlib.Core.Path.{subst}
use benchpod_firmware.Base.{
  ◌≡◌, refl, sym, ◌∙◌, ◌≢◌, ◌⊎◌, inl, inr, Bool, true, false, not, ◌&&◌, ◌||◌, List, [], ◌∷◌, arith,
  ltb, ◌==◌, if◌then◌else◌, Bool-cases, length, All, Bytes, str_eq, str_eq_iff,
}
use benchpod_firmware.Bridge.Forward.Gate.{IsPodMac, from_eth_iff, from_wifi_iff}
use benchpod_firmware.Bridge.Forward.{
  Action, drop_it, forward, no_reason, Forwarder, zero_mac, bwp_ethertype, dst_of, src_of,
  ethertype, is_multicast, forward_init, link_down, control_frame, data_frame, from_eth, from_wifi,
}

-- What happens at the two ports of the bridge.
pub data PortOp : Type 0 where
  eth_frame : Bytes → Bool → PortOp
  wifi_frame : Bytes → PortOp
  unplugged : PortOp

unfoldable pub port_step : PortOp → Forwarder → Action × Forwarder
port_step (eth_frame f up) s = let (a, e, s') = from_eth f up s in (a, s')
port_step (wifi_frame f) s = from_wifi f s
port_step unplugged s = (drop_it, link_down s)

-- The pod's address, where it is known, can be one.
pub IsValid : Forwarder → Type 0
unfolding IsPodMac
IsValid s = s.pod_known ≡ true → IsPodMac s.bridge_mac s.pod_mac

-- The addresses and what is known of them are left as they were.
Same : Forwarder → Forwarder → Type 0
Same s t =
    (t.bridge_mac ≡ s.bridge_mac)
    × (t.pod_mac ≡ s.pod_mac)
    × (t.pod_known ≡ s.pod_known)
    × (t.relearn ≡ s.relearn)

-- The pod is learnt from a control frame, after a start or an unplugged cable.
Learnt : Bytes → Forwarder → Forwarder → Type 0
Learnt f s t =
    ((s.pod_known ≡ false) ⊎ (s.relearn ≡ true))
    × (ethertype f ≡ bwp_ethertype)
    × (t.bridge_mac ≡ s.bridge_mac)
    × (t.pod_mac ≡ src_of f)
    × (t.pod_known ≡ true)
    × (t.relearn ≡ false)

data_frame-Same : (f : Bytes) (up : Bool) (s : Forwarder) → Same s (data_frame f up s).1
unfolding data_frame Same
data_frame-Same f up s = ground arith

control_frame-Learnt :
    (f : Bytes) (s : Forwarder)
    → ethertype f ≡ bwp_ethertype
    → Same s (control_frame f s).2 ⊎ Learnt f s (control_frame f s).2
unfolding control_frame Same Learnt
control_frame-Learnt f s e = elim (Bool-cases (not s.pod_known || s.relearn)) [
  | inl l ↦
      elim (Bool-cases (not (str_eq (dst_of f) s.bridge_mac) && not (is_multicast (dst_of f)))) [
        | inl x ↦ inl (ground arith)
        | inr x ↦ inr (ground arith)
      ]
  | inr l ↦ inl (ground arith)
]

-- Which of its parts decides what from_eth leaves.
from_eth-early :
    (f : Bytes) (up : Bool) (s : Forwarder)
    → ltb (length f) 14
        || is_multicast (src_of f)
        || str_eq (src_of f) zero_mac
        || str_eq (src_of f) s.bridge_mac
      ≡ true
    → Same s (from_eth f up s).2
unfolding from_eth Same
from_eth-early f up s h = ground arith

from_eth-late :
    (f : Bytes) (up : Bool) (s : Forwarder)
    → ltb (length f) 14
        || is_multicast (src_of f)
        || str_eq (src_of f) zero_mac
        || str_eq (src_of f) s.bridge_mac
      ≡ false
    → (from_eth f up s).2 ≡ (
        if ethertype f == bwp_ethertype
        then (control_frame f (record s { last_why = no_reason })).2
        else (data_frame f up (record s { last_why = no_reason })).1)
unfolding from_eth
from_eth-late f up s h = ground arith

from_eth-Learnt :
    (f : Bytes) (up : Bool) (s : Forwarder)
    → Same s (from_eth f up s).2
      ⊎ (Learnt f s (from_eth f up s).2 × IsPodMac s.bridge_mac (src_of f))
unfolding IsPodMac Same Learnt
from_eth-Learnt f up s0 =
    let s : Forwarder = record s0 { last_why = no_reason } in
    let z = str_eq_iff (src_of f) zero_mac in
    let b = str_eq_iff (src_of f) s0.bridge_mac in
    elim (Bool-cases (
      ltb (length f) 14
      || is_multicast (src_of f)
      || str_eq (src_of f) zero_mac
      || str_eq (src_of f) s0.bridge_mac)) [
        | inl early ↦ inl (from_eth-early f up s0 early)
        | inr late ↦
            let l = from_eth-late f up s0 late in
            elim (Bool-cases (ethertype f == bwp_ethertype)) [
              | inl e ↦
                  let q : (from_eth f up s0).2 ≡ (control_frame f s).2 = l ∙ rw e refl in
                  elim (control_frame-Learnt f s (ground arith)) [
                    | inl same ↦ inl (subst (Same s0) (sym q) same)
                    | inr l ↦
                        inr (
                          subst (Learnt f s0) (sym q) l,
                          (ground arith, ground arith, ground arith),
                        )
                  ]
              | inr e ↦
                  let q : (from_eth f up s0).2 ≡ (data_frame f up s).1 = l ∙ rw e refl in
                  inl (subst (Same s0) (sym q) (data_frame-Same f up s))
            ]
      ]

from_wifi-Same : (f : Bytes) (s : Forwarder) → Same s (from_wifi f s).1
unfolding from_wifi Same
from_wifi-Same f s = ground arith

forward_init-IsValid : (mac : Bytes) → IsValid (forward_init mac)
unfolding forward_init IsValid
forward_init-IsValid mac h = absurd (cc)

Same-IsValid : (s t : Forwarder) → Same s t → IsValid s → IsValid t
unfolding Same IsValid
Same-IsValid s t (b, p, k, r) v h = rw (b, p) (v (sym k ∙ h))

-- Whatever arrives at either port, a pod's address that is known stays a possible one: unicast, not
-- zero, and not the bridge's own.
pub port_step-IsValid : (o : PortOp) (s : Forwarder) → IsValid s → IsValid (port_step o s).1
unfolding port_step IsValid Learnt link_down
port_step-IsValid (eth_frame f up) s v = elim (from_eth-Learnt f up s) [
  | inl same ↦ Same-IsValid s (from_eth f up s).2 same v
  | inr ((why, e, b, p, k, r), possible) ↦ λ h. rw (b, p) possible
]
port_step-IsValid (wifi_frame f) s v = Same-IsValid s (from_wifi f s).1 (from_wifi-Same f s) v
port_step-IsValid unplugged s v = v

-- The frames that arrive, each with what became of it.
unfoldable pub trace : List PortOp → Forwarder → List (PortOp × Action)
trace [] s = []
trace (o ∷ os) s = (o, (port_step o s).0) ∷ trace os (port_step o s).1

-- The cable is not unplugged.
abbrev IsFrame : PortOp → Type 0
IsFrame o = o ≢ unplugged

-- What the rules promise for a pod's address.
abbrev pub Passed : Bytes → PortOp × Action → Type 0
Passed pod (eth_frame f up, a) = a ≡ forward → src_of f ≡ pod
Passed pod (wifi_frame f, a) =
    a ≡ forward → (src_of f ≢ pod) × ((is_multicast (dst_of f) ≡ true) ⊎ (dst_of f ≡ pod))
Passed pod (unplugged, a) = a ≢ forward

port_step-Passed : (o : PortOp) (s : Forwarder) → Passed s.pod_mac (o, (port_step o s).0)
unfolding port_step
port_step-Passed (eth_frame f up) s =
    λ h. let (l, e, u, k, p, r, d) = (from_eth_iff f up s).0 h in p
port_step-Passed (wifi_frame f) s = λ h. let (l, e, k, r, n, d) = (from_wifi_iff f s).0 h in (n, d)
port_step-Passed unplugged s = λ h. absurd (cc)

-- The pod stays.
port_step-stays :
    (o : PortOp) (s : Forwarder)
    → IsFrame o
    → s.pod_known ≡ true
    → s.relearn ≡ false
    → Same s (port_step o s).1
unfolding port_step Learnt
port_step-stays (eth_frame f up) s n k r = elim (from_eth-Learnt f up s) [
  | inl same ↦ same
  | inr ((why, e, b, p, k2, r2), possible) ↦ elim why [ inl u ↦ absurd (cc) | inr u ↦ absurd (cc) ]
]
port_step-stays (wifi_frame f) s n k r = from_wifi-Same f s
port_step-stays unplugged s n k r = absurd (n refl)

-- Once a pod is known, and until the cable is unplugged, whatever arrives at the two ports: every
-- frame that leaves by radio is from that pod's address, and every frame that leaves by the cable is
-- not, and is for it or for many.
pub trace-Passed :
    (os : List PortOp) (s : Forwarder)
    → All (λ o. o ≢ unplugged) os
    → s.pod_known ≡ true
    → s.relearn ≡ false
    → All (Passed s.pod_mac) (trace os s)
unfolding trace Same
trace-Passed [] s n k r = tt
trace-Passed (o ∷ os) s (n, ns) k r =
    let (eb, ep, ek, er) = port_step-stays o s n k r in
    let ih = trace-Passed os (port_step o s).1 ns (ek ∙ k) (er ∙ r) in
    (port_step-Passed o s, subst (λ p. All (Passed p) (trace os (port_step o s).1)) ep ih)
