-- ===== src/Access/Policy/Ratchet.antt =====
-- Who can change which policy.
use benchpod_firmware.Base.{◌∷◌, [], All, min, ◌≢◌, List, ◌≤◌, ◌≡◌, false, some, arith}
use benchpod_firmware.Command.{lan}
use benchpod_firmware.Access.Policy.{
  usb, State, Error, Request, Origin, handle, https_only, want_sig,
}

-- A request that is refused changes nothing.
pub refused_unchanged :
    (r : Request) (o : Origin) (s : State) (e : Error)
    → (handle r o s).0 ≡ some e
    → (handle r o s).1 ≡ s
unfolding handle
refused_unchanged (want_sig p) o s e h = ground arith
refused_unchanged _ o s e h = ground arith

-- A plaintext connection from Ethernet or Wi-Fi cannot change the signature, LAN or USB network
-- policy, and cannot turn HTTPS-only off.
pub plain_lan :
    (r : Request) (o : Origin) (s : State)
    → o.src ≡ lan
    → o.usb_link ≡ false
    → o.tls_link ≡ false
    → let s' = (handle r o s).1 in
      (s'.rec.sig ≡ s.rec.sig)
      × (s'.rec.lan_policy ≡ s.rec.lan_policy)
      × (s'.rec.usb_net_off ≡ s.rec.usb_net_off)
      × (min 1 s.rec.https_only ≤ s'.rec.https_only)
unfolding handle https_only
plain_lan (want_sig p) o s a b c = ground arith
plain_lan _ o s a b c = ground arith

-- No request from the cloud or the LAN loosens the signature policy.
sig_ratchet :
    (r : Request) (o : Origin) (s : State) → o.src ≢ usb → s.rec.sig ≤ (handle r o s).1.rec.sig
unfolding handle
sig_ratchet (want_sig p) o s h = ground arith
sig_ratchet _ o s h = ground arith

unfoldable pub handle_all : List (Request × Origin) → State → State
handle_all [] s = s
handle_all ((r, o) ∷ rs) s = handle_all rs (handle r o s).1

-- Over any history of requests with none from the USB console, whatever saves fail, the signature
-- policy only gets stricter.
pub sig_never_loosens :
    (rs : List (Request × Origin)) (s : State)
    → All (λ (x : Request × Origin). x.1.src ≢ usb) rs
    → s.rec.sig ≤ (handle_all rs s).rec.sig
unfolding handle_all
sig_never_loosens [] s h = omega arith
sig_never_loosens ((r, o) ∷ rs) s (h, hs) =
    omega (arith, sig_ratchet r o s h, sig_never_loosens rs (handle r o s).1 hs)
