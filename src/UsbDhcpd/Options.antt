-- ===== src/UsbDhcpd/Options.antt =====
-- stm32h563/src/usb_dhcpd.c: the options of a reply, and how find_opt reads them.
use benchpod_firmware.UsbDhcpd.{
  Config, find_from, Answer, offer, ack, nak, answer_number, is_nak, put_u32, opt_u32, options,
}
use benchpod_firmware.Base.{
  take-append, drop-append, ℕ, zero, suc, ◌≤◌, ◌≡◌, refl, ap, ◌∙◌, ◌≢◌, true, false, Option, none,
  some, [], ◌∷◌, ◌++◌, arith, ltb, ◌==◌, if◌then◌else◌, length, length-append, Bytes,
}

-- An option that find_opt reads as one.
find_here :
    (fuel code : ℕ) (v tail : Bytes)
    → code ≢ 0
    → code ≢ 255
    → find_from (suc fuel) code (code ∷ length v ∷ (v ++ tail)) ≡ some v
unfolding find_from
find_here fuel code v tail z e =
    let fits : ltb (length (v ++ tail)) (length v) ≡ false =
      ground (arith, length-append {0} v tail) in
    let z' : (code == 0) ≡ false = ground arith in
    let e' : (code == 255) ≡ false = ground arith in
    let r : (code == code) ≡ true = ground arith in
    rw (z', e', fits, r) (ap some (take-append v tail))

find_past :
    (fuel code c : ℕ) (v tail : Bytes)
    → c ≢ 0
    → c ≢ 255
    → c ≢ code
    → find_from (suc fuel) code (c ∷ length v ∷ (v ++ tail)) ≡ find_from fuel code tail
unfolding find_from
find_past fuel code c v tail z e n =
    let fits : ltb (length (v ++ tail)) (length v) ≡ false =
      ground (arith, length-append {0} v tail) in
    let z' : (c == 0) ≡ false = ground arith in
    let e' : (c == 255) ≡ false = ground arith in
    let r : (c == code) ≡ false = ground arith in
    rw (z', e', fits, r) (ap (find_from fuel code) (drop-append v tail))

-- The options of an answer behind the first two.
abbrev leased : Config → Answer → Bytes
leased cfg a = if is_nak a then [] else opt_u32 51 cfg.lease_s ++ opt_u32 1 cfg.netmask

abbrev pub if_leased : Answer → Bytes → Option Bytes
if_leased a v = if is_nak a then none else some v

past_first :
    (cfg : Config) (a : Answer) (tail : Bytes) (fuel code : ℕ)
    → 53 ≢ code
    → 54 ≢ code
    → find_from (suc (suc fuel)) code (options cfg a ++ tail)
      ≡ find_from fuel code ((leased cfg a ++ (255 ∷ [])) ++ tail)
unfolding options
past_first cfg a tail fuel code n m =
    find_past (suc fuel) code 53 (answer_number a ∷ []) _ (omega arith) (omega arith) n
    ∙ find_past fuel code 54 (put_u32 cfg.server_ip) _ (omega arith) (omega arith) m

pub reads_kind :
    (cfg : Config) (a : Answer) (tail : Bytes) (fuel : ℕ)
    → find_from (suc fuel) 53 (options cfg a ++ tail) ≡ some (answer_number a ∷ [])
unfolding options
reads_kind cfg a tail fuel = find_here fuel 53 (answer_number a ∷ []) _ (omega arith) (omega arith)

pub reads_server :
    (cfg : Config) (a : Answer) (tail : Bytes) (fuel : ℕ)
    → find_from (suc (suc fuel)) 54 (options cfg a ++ tail) ≡ some (put_u32 cfg.server_ip)
unfolding options
reads_server cfg a tail fuel =
    find_past (suc fuel) 54 53 (answer_number a ∷ []) _ (omega arith) (omega arith) (omega arith)
    ∙ find_here fuel 54 (put_u32 cfg.server_ip) _ (omega arith) (omega arith)

ends : (fuel code : ℕ) (tail : Bytes) → find_from fuel code (255 ∷ tail) ≡ none
unfolding find_from
ends zero code tail = refl
ends (suc fuel) code [] = refl
ends (suc fuel) code (l ∷ tail) = refl

pub reads_lease :
    (cfg : Config) (a : Answer) (tail : Bytes) (fuel : ℕ)
    → find_from (suc (suc (suc fuel))) 51 (options cfg a ++ tail)
      ≡ if_leased a (put_u32 cfg.lease_s)
reads_lease cfg a tail fuel =
    past_first cfg a tail (suc fuel) 51 (omega arith) (omega arith) ∙ leases a
  where
    leases :
        (a : Answer)
        → find_from (suc fuel) 51 ((leased cfg a ++ (255 ∷ [])) ++ tail)
          ≡ if_leased a (put_u32 cfg.lease_s)
    leases offer = find_here fuel 51 (put_u32 cfg.lease_s) _ (omega arith) (omega arith)
    leases ack = find_here fuel 51 (put_u32 cfg.lease_s) _ (omega arith) (omega arith)
    leases nak = ends (suc fuel) 51 tail

pub reads_mask :
    (cfg : Config) (a : Answer) (tail : Bytes) (fuel : ℕ)
    → find_from (suc (suc (suc (suc fuel)))) 1 (options cfg a ++ tail)
      ≡ if_leased a (put_u32 cfg.netmask)
reads_mask cfg a tail fuel =
    past_first cfg a tail (suc (suc fuel)) 1 (omega arith) (omega arith) ∙ masks a
  where
    masks :
        (a : Answer)
        → find_from (suc (suc fuel)) 1 ((leased cfg a ++ (255 ∷ [])) ++ tail)
          ≡ if_leased a (put_u32 cfg.netmask)
    masks offer =
        find_past (suc fuel) 1 51 (put_u32 cfg.lease_s) _ (omega arith) (omega arith) (omega arith)
        ∙ find_here fuel 1 (put_u32 cfg.netmask) _ (omega arith) (omega arith)
    masks ack =
        find_past (suc fuel) 1 51 (put_u32 cfg.lease_s) _ (omega arith) (omega arith) (omega arith)
        ∙ find_here fuel 1 (put_u32 cfg.netmask) _ (omega arith) (omega arith)
    masks nak = ends (suc (suc fuel)) 1 tail

pub options-length : (cfg : Config) (a : Answer) → length (options cfg a) ≤ 60
unfolding options
options-length cfg offer = omega arith
options-length cfg ack = omega arith
options-length cfg nak = omega arith
