-- ===== src/Access/Policy/Tests.antt =====
-- A pod whose policies are changed from the console, the cloud and the LAN.
use benchpod_firmware.Base.{[], ◌∷◌, ◌≡◌, ◌≤◌, List, refl}
use benchpod_firmware.Access.Policy.Ratchet.{handle_all, sig_never_loosens}
use benchpod_firmware.Access.Policy.Persist.{IsKnown, policies_survive_reboot}
use benchpod_firmware.Command.{usb, cloud, lan}
use benchpod_firmware.Access.Policy.{
  some, lan_tls_gate, https_only, lan_locked, none, audit, true, load, false, Bool, required, State,
  Source, handle, Request, Origin, want_sig, want_lan, want_https_only,
}

abbrev from : Source → Bool → Bool → Bool → Origin
from src u t saves = record { src = src; usb_link = u; tls_link = t; saves = saves }

abbrev console_tightens : State
console_tightens = (handle (want_sig required) (from usb false false true) (load none)).1

abbrev history : List (Request × Origin)
history =
    (want_sig required, from cloud false false true)
    ∷ (want_lan lan_locked, from cloud false false false)
    ∷ (want_https_only true, from lan false false true)
    ∷ (want_sig audit, from cloud false false true)
    ∷ []

history_runs : handle_all history (load none) ≡ record {
  rec = record { sig = 2; lan_policy = 0; usb_net_off = 0; https_only = 1 };
  flash = some (record { sig = 2; lan_policy = 0; usb_net_off = 0; https_only = 1 });
  applied = 2;
}
unfolding handle_all handle load https_only lan_tls_gate
history_runs = refl

sig_never_loosens_example : console_tightens.rec.sig ≤ (handle_all history console_tightens).rec.sig
sig_never_loosens_example =
    sig_never_loosens history console_tightens
      ((λ h. cc), ((λ h. cc), ((λ h. cc), ((λ h. cc), tt))))

policies_survive_reboot_example :
    let s = handle_all history (load none) in
    IsKnown s.rec
    × (s.applied ≡ s.rec.sig)
    × ((load s.flash).rec ≡ s.rec)
    × ((load s.flash).applied ≡ s.applied)
policies_survive_reboot_example = policies_survive_reboot none history
