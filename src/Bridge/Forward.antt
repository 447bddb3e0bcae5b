-- ===== src/Bridge/Forward.antt =====
-- wifi-bridge/components/bridge_core/l2fwd.c: what is forwarded between the cable and the radio. A
-- frame is a list of bytes; an address is the list of its six bytes.
mod Tests
pub mod Gate
pub mod Learn
use benchpod_firmware.Base.{
  ℕ, zero, suc, ◌+◌, ◌-◌, ◌*◌, ◌/◌, ◌%◌, ◌^◌, ◌≤◌, ◌<◌, min, max, bit_and, bit_or, bit_xor, ◌≡◌,
  refl, sym, ap, ◌∙◌, ◌≢◌, ◌↔◌, ◌⊎◌, inl, inr, Bool, true, false, not, ◌&&◌, ◌||◌, Option, none,
  some, List, [], ◌∷◌, ◌++◌, arith, ltb, leb, ◌==◌, if◌then◌else◌, Bool-cases, Option-cases, length,
  take, drop, set, get_or, replicate, All, length-append, length-set, length-take, length-drop,
  length-replicate, add32, sub32, mul32, add16, sub16, Bytes, codes, str_eq, str_eq_iff,
}

-- `l2_action_t`.
pub data Action : Type 0 where
  drop_it forward control : Action

-- `l2_event_t`.
pub data Event : Type 0 where
  no_event learned changed : Event

-- `l2_why_t`.
pub data Why : Type 0 where
  no_reason runt bad_src own_src other_mac not_for_pod is_control to_bridge no_pod wifi_down
        reflected :
      Why

pub record Forwarder : Type 0 where
  pub bridge_mac : Bytes
  pub pod_mac : Bytes
  pub pod_known : Bool
  pub relearn : Bool
  pub last_why : Why

abbrev pub zero_mac : Bytes
zero_mac = replicate 6 0

abbrev pub bwp_ethertype : ℕ
bwp_ethertype = 0x88B5

abbrev pub dst_of : Bytes → Bytes
dst_of f = take 6 f

abbrev pub src_of : Bytes → Bytes
src_of f = take 6 (drop 6 f)

abbrev pub ethertype : Bytes → ℕ
ethertype f = 256 * get_or f 12 0 + get_or f 13 0

-- `l2_is_multicast`.
abbrev pub is_multicast : Bytes → Bool
is_multicast mac = get_or mac 0 0 % 2 == 1

-- `drop`.
abbrev pub drop_for : Why → Forwarder → Action × Forwarder
drop_for why s = (drop_it, record s { last_why = why })

pub forward_init : Bytes → Forwarder
forward_init bridge_mac = record {
  bridge_mac = bridge_mac;
  pod_mac = zero_mac;
  pod_known = false;
  relearn = false;
  last_why = no_reason;
}

pub link_down : Forwarder → Forwarder
link_down s = record s { relearn = true }

-- The event of a control frame from this source, where the pod is learnt.
pub learn_event : Bytes → Forwarder → Event
learn_event src s =
    if s.pod_known then (if str_eq s.pod_mac src then no_event else changed) else learned

-- The part of `l2fwd_from_eth` for a control frame.
pub control_frame : Bytes → Forwarder → Action × Event × Forwarder
unfolding learn_event
control_frame f s =
    let learns = not s.pod_known || s.relearn in
    let event = if learns then learn_event (src_of f) s else no_event in
    let s' =
      if learns then record s { pod_mac = src_of f; pod_known = true; relearn = false } else s in
    if not (str_eq (dst_of f) s.bridge_mac) && not (is_multicast (dst_of f))
    then (drop_it, no_event, record s { last_why = is_control })
    else if not (str_eq (src_of f) s'.pod_mac)
    then (drop_it, event, record s' { last_why = other_mac })
    else (control, event, s')

-- `l2fwd_from_eth`, for the other frames.
pub data_frame : Bytes → Bool → Forwarder → Action × Forwarder
data_frame f wifi_up s =
    if not s.pod_known
    then drop_for no_pod s
    else if not (str_eq (src_of f) s.pod_mac)
    then drop_for other_mac s
    else if str_eq (dst_of f) s.bridge_mac
    then drop_for to_bridge s
    else if not wifi_up
    then drop_for wifi_down s
    else (forward, s)

pub from_eth : Bytes → Bool → Forwarder → Action × Event × Forwarder
unfolding control_frame data_frame
from_eth f wifi_up s0 =
    let s = record s0 { last_why = no_reason } in
    let (a, s') = data_frame f wifi_up s in
    if ltb (length f) 14
    then (drop_it, no_event, record s { last_why = runt })
    else if is_multicast (src_of f) || str_eq (src_of f) zero_mac
    then (drop_it, no_event, record s { last_why = bad_src })
    else if str_eq (src_of f) s.bridge_mac
    then (drop_it, no_event, record s { last_why = own_src })
    else if ethertype f == bwp_ethertype
    then control_frame f s
    else (a, no_event, s')

pub from_wifi : Bytes → Forwarder → Action × Forwarder
from_wifi f s0 =
    let s = record s0 { last_why = no_reason } in
    if ltb (length f) 14
    then drop_for runt s
    else if ethertype f == bwp_ethertype
    then drop_for is_control s
    else if not s.pod_known || s.relearn
    then drop_for no_pod s
    else if str_eq (src_of f) s.pod_mac
    then drop_for reflected s
    else if is_multicast (dst_of f) || str_eq (dst_of f) s.pod_mac
    then (forward, s)
    else drop_for not_for_pod s
