-- ===== src/CloudReply/Tests.antt =====
-- A reply in two pieces with its line ending.
use benchpod_firmware.Base.{◌≡◌, refl, some, List, [], ◌∷◌, ◌++◌, Bytes, codes}
use benchpod_firmware.CloudReply.{cap_begin, cap_end}
use benchpod_firmware.CloudReply.Whole.{concat, appends, strip, reply_to, reply_whole}

abbrev two_pieces : List Bytes
two_pieces = codes "{\"status\":" ∷ (codes "\"ok\"}" ++ (13 ∷ 10 ∷ [])) ∷ []

two_pieces-reply : reply_to (λ n. []) 100 (concat two_pieces) ≡ some (codes "{\"status\":\"ok\"}")
unfolding reply_to concat strip
two_pieces-reply = refl

reply_whole_example :
    (cap_end (λ n. []) 100 (appends two_pieces cap_begin)).0
    ≡ reply_to (λ n. []) 100 (concat two_pieces)
reply_whole_example = reply_whole (λ n. []) 100 two_pieces
