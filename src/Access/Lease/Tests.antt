-- ===== src/Access/Lease/Tests.antt =====
-- Leases at concrete times.
use benchpod_firmware.Base.{
  ◌+◌, ◌≡◌, refl, true, false, [], arith, codes, add32, ltb, if◌then◌else◌, ◌-◌, ◌/◌,
}
use benchpod_firmware.Access.Lease.{Lease, update, active, expire, label, label_char}
use benchpod_firmware.Access.Lease.Deadline.{term_ms, active-update, active-expire}

abbrev none_held : Lease
none_held = record { held = false; deadline_ms = 0; holder = [] }

abbrev an_hour : Lease
an_hour = update true (codes "ci\"job\"") 3600 4294967000 none_held

hour_capped :
    (active an_hour (add32 4294967000 599001) ≡ (true, 1))
    × (active an_hour (add32 4294967000 600000) ≡ (false, 0))
unfolding active update
hour_capped = (refl, refl)

label_kept : an_hour.holder ≡ codes "ci?job?"
unfolding update label label_char
label_kept = refl

active-update_example :
    active an_hour (add32 4294967000 5)
    ≡ (if ltb 5 (term_ms 3600) then (true, (term_ms 3600 - 5 + 999) / 1000) else (false, 0))
active-update_example =
    active-update (codes "ci\"job\"") 3600 4294967000 5 none_held (omega arith) (omega arith)
      (omega arith)

active-expire_example : active (expire 7 an_hour) 7 ≡ active an_hour 7
active-expire_example = active-expire an_hour 7
