-- ===== src/Access/Policy/Persist.antt =====
-- The policies in force, the record in flash and the policy that fw_sign.c applies agree.
use benchpod_firmware.Base.{◌≤◌, ◌≡◌, ◌⊎◌, refl, Option, none, some, List, [], ◌∷◌, arith, inl, inr}
use benchpod_firmware.Access.Policy.{
  Rec, State, Request, Origin, handle, load, known, defaults, want_sig, required, lan_off,
}
use benchpod_firmware.Access.Policy.Ratchet.{handle_all}

pub record IsKnown (r : Rec) : Type 0 where
  pub sig_known : r.sig ≤ required
  pub lan_known : r.lan_policy ≤ lan_off
  pub usb_known : r.usb_net_off ≤ 1
  pub https_known : r.https_only ≤ 1

pub record IsValid (s : State) : Type 0 where
  pub known_values : IsKnown s.rec
  pub in_force : s.applied ≡ s.rec.sig
  pub stored :
      ((s.flash ≡ none) × (s.rec ≡ defaults)) ⊎ ((r : Rec) × (s.flash ≡ some r) × (known r ≡ s.rec))

known-IsKnown : (r : Rec) → IsKnown (known r)
unfolding known
known-IsKnown r = ground arith

known-of_IsKnown : (r : Rec) → IsKnown r → known r ≡ r
unfolding known
known-of_IsKnown r k = ground arith

-- Whatever record a newer or older firmware left, the policies after a boot are known ones.
pub load-IsValid : (f : Option Rec) → IsValid (load f)
unfolding load
load-IsValid none = record {
  known_values = omega arith;
  in_force = refl;
  stored = inl (refl, refl);
}
load-IsValid (some r) = record {
  known_values = known-IsKnown r;
  in_force = refl;
  stored = inr (r, refl, refl);
}

-- What a request leaves is what it found, or a saved record of known values.
handle_saved :
    (r : Request) (o : Origin) (s : State)
    → IsKnown s.rec
    → s.applied ≡ s.rec.sig
    → (IsKnown (handle r o s).1.rec)
      × ((handle r o s).1.applied ≡ (handle r o s).1.rec.sig)
      × (((handle r o s).1 ≡ s) ⊎ ((handle r o s).1.flash ≡ some (handle r o s).1.rec))
unfolding handle
handle_saved (want_sig p) o s k a = ground arith
handle_saved _ o s k a = ground arith

handle-IsValid : (r : Request) (o : Origin) (s : State) → IsValid s → IsValid (handle r o s).1
handle-IsValid r o s v =
    let (k, a, c) = handle_saved r o s v.known_values v.in_force in
    record {
      known_values = k;
      in_force = a;
      stored = elim c [
        | inl e ↦ rw e v.stored
        | inr e ↦ inr ((handle r o s).1.rec, e, known-of_IsKnown _ k)
      ];
    }

handle_all-IsValid :
    (rs : List (Request × Origin)) (s : State) → IsValid s → IsValid (handle_all rs s)
unfolding handle_all
handle_all-IsValid [] s v = v
handle_all-IsValid ((r, o) ∷ rs) s v =
    handle_all-IsValid rs (handle r o s).1 (handle-IsValid r o s v)

load_stored :
    (s : State) → IsValid s → ((load s.flash).rec ≡ s.rec) × ((load s.flash).applied ≡ s.applied)
unfolding load
load_stored s v = ground arith

-- From any boot record and over any history of requests, whatever saves fail: the policies in
-- force are known ones, fw_sign.c applies the signature policy among them, and a reboot brings the
-- same policies back.
pub policies_survive_reboot :
    (f : Option Rec) (rs : List (Request × Origin))
    → let s = handle_all rs (load f) in
      IsKnown s.rec
      × (s.applied ≡ s.rec.sig)
      × ((load s.flash).rec ≡ s.rec)
      × ((load s.flash).applied ≡ s.applied)
policies_survive_reboot f rs =
    let v = handle_all-IsValid rs (load f) (load-IsValid f) in
    let (a, b) = load_stored _ v in (v.known_values, v.in_force, a, b)
