-- ===== src/Access/Policy.antt =====
-- stm32h563/src/pod_policy.c: the persisted signature, LAN, USB network and HTTPS-only policies.
-- The record's bytes are numbers, since a newer firmware may have written others. `flash` is what
-- the A/B store (config_store.c) would load, `saves` whether its save succeeds, and `applied` the
-- policy that fw_sign.c holds. Notifications and log lines are not part of the state.
pub mod Ratchet
pub mod Persist
mod Tests
use benchpod_firmware.Base.{
  ℕ, Bool, true, false, not, ◌&&◌, ◌||◌, Option, none, some, ltb, ◌==◌, if◌then◌else◌,
}
use benchpod_firmware.Command.{Source, usb, cloud, lan, is_lan}

-- `fw_sig_policy_t` and `pod_lan_policy_t`.
abbrev pub audit : ℕ
audit = 0

abbrev pub permissive : ℕ
permissive = 1

abbrev pub required : ℕ
required = 2

abbrev pub lan_open : ℕ
lan_open = 0

abbrev pub lan_locked : ℕ
lan_locked = 1

abbrev pub lan_off : ℕ
lan_off = 2

-- `pod_policy_rec_t`, less the magic and the reserved bytes.
pub record Rec : Type 0 where
  pub sig : ℕ
  pub lan_policy : ℕ
  pub usb_net_off : ℕ
  pub https_only : ℕ

pub record State : Type 0 where
  pub rec : Rec
  pub flash : Option Rec
  pub applied : ℕ

-- `s_rec` before the record is read.
abbrev pub defaults : Rec
defaults = record { sig = audit; lan_policy = lan_open; usb_net_off = 0; https_only = 0 }

-- A value that this firmware does not know becomes the strictest known one.
pub known : Rec → Rec
known r = record {
  sig = if ltb required r.sig then required else r.sig;
  lan_policy = if ltb lan_off r.lan_policy then lan_locked else r.lan_policy;
  usb_net_off = if ltb 1 r.usb_net_off then 1 else r.usb_net_off;
  https_only = if ltb 1 r.https_only then 1 else r.https_only;
}

-- `pod_policy_load` at boot.
pub load : Option Rec → State
load none = record { rec = defaults; flash = none; applied = audit }
load (some r) = record { rec = known r; flash = some r; applied = (known r).sig }

pub data Error : Type 0 where
  unknown_policy not_from_lan only_console_loosens on_the_device over_tls not_saved : Error

abbrev is_cloud : Source → Bool
is_cloud cloud = true
is_cloud _ = false

-- `save`; `none` is NULL, that is done.
abbrev save : Bool → Rec → State → Option Error × State
save saves r s = if saves then (none, record s { rec = r; flash = some r }) else (some not_saved, s)

pub set_sig : Bool → ℕ → Source → State → Option Error × State
set_sig saves p src s =
    if ltb required p
    then (some unknown_policy, s)
    else if is_lan src
    then (some not_from_lan, s)
    else if is_cloud src && ltb p s.rec.sig
    then (some only_console_loosens, s)
    else if p == s.rec.sig
    then (none, s)
    else (let (e, s') = save saves (record (s.rec) { sig = p }) s in
        (e, if saves then record s' { applied = p } else s'))

pub set_lan : Bool → ℕ → Source → State → Option Error × State
set_lan saves p src s =
    if ltb lan_off p
    then (some unknown_policy, s)
    else if is_lan src
    then (some not_from_lan, s)
    else if p == s.rec.lan_policy
    then (none, s)
    else save saves (record (s.rec) { lan_policy = p }) s

abbrev same : Bool → Bool → Bool
same true b = b
same false b = not b

pub usb_net : State → Bool
usb_net s = s.rec.usb_net_off == 0

pub set_usb_net : Bool → Bool → Source → Bool → State → Option Error × State
unfolding usb_net
set_usb_net saves on src usb_link s =
    if is_cloud src || (is_lan src && not usb_link)
    then (some on_the_device, s)
    else if same on (usb_net s)
    then (none, s)
    else save saves (record (s.rec) { usb_net_off = if on then 0 else 1 }) s

pub https_only : State → Bool
https_only s = not (s.rec.https_only == 0)

-- `pod_policy_lan_tls_gate` and `pod_policy_cloud_link_gate`.
pub lan_tls_gate : Source → Bool → Bool → Option Error
lan_tls_gate src usb_link tls_link =
    if not (is_lan src) || usb_link || tls_link then none else some over_tls

pub cloud_link_gate : Source → Bool → Option Error
cloud_link_gate src usb_link = if not (is_lan src) || usb_link then none else some not_from_lan

-- `pod_policy_set_https_only`, behind its gate.
set_https_past : Option Error → Bool → Bool → State → Option Error × State
set_https_past (some e) saves on s = (some e, s)
set_https_past none saves on s =
    if same on (https_only s)
    then (none, s)
    else save saves (record (s.rec) { https_only = if on then 1 else 0 }) s

pub set_https_only : Bool → Bool → Source → Bool → Bool → State → Option Error × State
unfolding set_https_past https_only lan_tls_gate
set_https_only saves on src usb_link tls_link s =
    set_https_past (if on then none else lan_tls_gate src usb_link tls_link) saves on s

-- A request to change a policy, and where it comes from.
pub data Request : Type 0 where
  want_sig : ℕ → Request
  want_lan : ℕ → Request
  want_usb_net : Bool → Request
  want_https_only : Bool → Request

pub record Origin : Type 0 where
  pub src : Source
  pub usb_link : Bool
  pub tls_link : Bool
  pub saves : Bool

pub handle : Request → Origin → State → Option Error × State
unfolding set_sig set_lan set_usb_net set_https_only
handle (want_sig p) o s = set_sig o.saves p o.src s
handle (want_lan p) o s = set_lan o.saves p o.src s
handle (want_usb_net on) o s = set_usb_net o.saves on o.src o.usb_link s
handle (want_https_only on) o s = set_https_only o.saves on o.src o.usb_link o.tls_link s
