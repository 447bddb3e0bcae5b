-- ===== src/Command/Scpi.antt =====
-- `cmd_gate_scpi_line_writes`: a SCPI line is a read only if each of its parts holds a '?'.
use benchpod_firmware.Base.{
  ◌≡◌, refl, Bool, true, false, not, ◌&&◌, ◌||◌, List, [], ◌∷◌, arith, ◌==◌, if◌then◌else◌, Bytes,
  all_rows,
}
use benchpod_firmware.Command.{scpi_scan, scpi_line_writes}

-- The part up to the first semicolon, and the parts behind it.
unfoldable pub split : Bytes → Bytes × List Bytes
split [] = ([], [])
split (c ∷ s) = let (p, ps) = split s in if c == b';' then ([], p ∷ ps) else (c ∷ p, ps)

pub parts : Bytes → List Bytes
parts s = let (p, ps) = split s in p ∷ ps

pub is_query : Bytes → Bool
is_query [] = false
is_query (c ∷ p) = c == b'?' || is_query p

scan-split :
    (s : Bytes) (seen : Bool)
    → scpi_scan seen s ≡ not ((seen || is_query (split s).0) && all_rows is_query (split s).1)
unfolding scpi_scan split is_query all_rows
scan-split [] true = refl
scan-split [] false = refl
scan-split (c ∷ s) true = ground (arith, scan-split s true, scan-split s false)
scan-split (c ∷ s) false = ground (arith, scan-split s true, scan-split s false)

-- A line writes exactly when one of its parts is no query.
pub scpi_line_writes_lem :
    (line : Bytes) → scpi_line_writes line ≡ not (all_rows is_query (parts line))
unfolding scpi_line_writes parts all_rows
scpi_line_writes_lem line = scan-split line false
