-- ===== src/Json/Tests.antt =====
-- The JSON reader and emitter on concrete lines.
use benchpod_firmware.Base.{
  ◌⊎◌, ◌≢◌, List, [], ◌∷◌, none, some, head_or_nul, tail_or_nil, str_eq, false, ◌≡◌, refl, ◌++◌,
  arith, true, codes, Bytes, inl, inr,
}
use benchpod_firmware.Json.Tree.{
  Chr, plain, Fields, str, scalar, obj, arr, end, field, nil, cons, put_chars, put, ValidFields,
  raw,
}
use benchpod_firmware.Json.Members.{outermost, find_key_top-put}
use benchpod_firmware.Json.Ends.{Ends, find_key_top-Ends}
use benchpod_firmware.Json.{skip_ws, find_key, read_value, get_at, json_get}
use benchpod_firmware.Json.Top.{find_member, find_key_top, json_get_top}
use benchpod_firmware.Json.Emit.{Emit, emit_bytes, escape_byte, emit_chars, emit_jstr}
use benchpod_firmware.Json.RoundTrip.{get-emit_jstr}

abbrev line : Bytes
line = codes "{\"command\":{\"cmd\":\"set\",\"type\":\"bmp\"},\"type\": \"request\", \"n\":12}"

-- The flat reader takes the first key of that name, the envelope reader the outermost.
types_differ :
    ((json_get line (codes "type") 16).value ≡ codes "bmp")
    × ((json_get_top line (codes "type") 16).value ≡ codes "request")
    × ((json_get line (codes "n") 16).value ≡ codes "12")
unfolding json_get get_at read_value find_key json_get_top find_key_top find_member str_eq
types_differ = (refl, refl, refl)

cut_short :
    (json_get line (codes "type") 3) ≡ record { found = true; value = codes "bm"; truncated = true }
unfolding json_get get_at read_value find_key
cut_short = refl

abbrev started : Emit
started = record { buf = codes "{\"a\":"; cap = 40; fits = true }

emitted : (emit_jstr started (codes "x\"y\n")).buf ≡ codes "{\"a\":\"x\\\"y\\n\""
unfolding emit_jstr emit_chars emit_bytes escape_byte
emitted = refl

get-emit_jstr_example :
    json_get ((emit_jstr started (codes "x\"y\n")).buf ++ codes ",\"b\":1}") (codes "a") 8
    ≡ record { found = true; value = codes "x\"y\n"; truncated = false }
unfolding emit_jstr emit_chars emit_bytes escape_byte
get-emit_jstr_example =
    get-emit_jstr (codes "a") (codes "x\"y\n") (codes ",\"b\":1}") 40 8 (omega arith)
      (inl (omega arith), (inl (omega arith), (inl (omega arith), (inr (inl refl), tt))))
      (omega arith) refl

abbrev letters : Bytes → List Chr
letters [] = []
letters (c ∷ s) = plain c ∷ letters s

-- {"command":{"type":"bmp280"},"type":["x",1]}
abbrev envelope : Fields
envelope =
    field (letters (codes "command"))
      (obj (field (letters (codes "type")) (str (letters (codes "bmp280"))) end))
      (field (letters (codes "type"))
        (arr (cons (str (letters (codes "x"))) (cons (scalar (codes "1")) nil))) end)

envelope-text :
    put (obj envelope) [] ≡ codes "{\"command\":{\"type\":\"bmp280\"},\"type\":[\"x\",1]}"
unfolding put put_chars
envelope-text = refl

envelope-type : outermost (codes "type") envelope [] ≡ some (codes "[\"x\",1]}")
unfolding outermost put put_chars raw str_eq
envelope-type = refl

envelope-ValidFields : ValidFields envelope
unfolding ValidFields
envelope-ValidFields = (
  omega arith,
  (omega arith, omega arith, tt),
  (omega arith, (omega arith, (((omega arith, omega arith, refl, refl, refl), tt), tt)), tt),
)

find_key_top-put_example :
    find_key_top (put (obj envelope) (codes "\n")) (codes "type")
    ≡ outermost (codes "type") envelope (codes "\n")
find_key_top-put_example =
    find_key_top-put envelope (codes "\n") (codes "type") envelope-ValidFields

find_key_top-Ends_example :
    ((head_or_nul (skip_ws line) ≢ b'{') × (find_key_top line (codes "n") ≡ none))
    ⊎ ((head_or_nul (skip_ws line) ≡ b'{')
        × Ends (codes "n") (tail_or_nil (skip_ws line)) (find_key_top line (codes "n")))
find_key_top-Ends_example = find_key_top-Ends line (codes "n")
