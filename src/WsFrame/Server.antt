-- ===== src/WsFrame/Server.antt =====
-- What the pod reads of a frame that the server sent.
use benchpod_firmware.Base.{
  drop-append_le, take-append, take-append_le, ℕ, ◌+◌, ◌*◌, ◌/◌, ◌%◌, ◌≤◌, ◌<◌, ◌≡◌, refl, ◌≢◌, inl,
  inr, [], ◌∷◌, ◌++◌, arith, ltb, if◌then◌else◌, Bool-cases, length, take, drop, length-append,
  Bytes,
}
use benchpod_firmware.WsFrame.{
  incomplete, frame, parse_frame, finish, extended16, extended64, big_endian,
}

-- An unmasked, final frame, after RFC 6455, section 5.2, in its shortest form.
unfoldable pub server_header : ℕ → ℕ → Bytes
server_header opcode n =
    if ltb n 126 then (128 + opcode) ∷ n ∷ [] else (128 + opcode) ∷ 126 ∷ (n / 256) ∷ (n % 256) ∷ []

unfoldable pub server_frame : ℕ → Bytes → Bytes
unfolding server_header
server_frame opcode payload = server_header opcode (length payload) ++ payload

finish-append :
    (b0 offset : ℕ) (payload rest : Bytes)
    → finish b0 offset (length payload) (payload ++ rest)
      ≡ frame (b0 % 16) payload (offset + length payload)
unfolding finish
finish-append b0 offset payload rest =
    ground (arith, length-append {0} payload rest, take-append payload rest)

-- A frame of the server with any opcode but a continuation and up to 65535 bytes is read whole,
-- whatever follows it in the buffer: its opcode, its payload and its length.
pub parse-server_frame :
    (opcode : ℕ) (payload rest : Bytes)
    → 0 < opcode
    → opcode < 16
    → length payload ≤ 0xFFFF
    → parse_frame (server_frame opcode payload ++ rest)
      ≡ frame opcode payload (length (server_frame opcode payload))
unfolding parse_frame server_frame extended16
parse-server_frame opcode payload rest p q l = elim (Bool-cases (ltb (length payload) 126)) [
  | inl s ↦ rw s (ground (arith, finish-append (128 + opcode) 2 payload rest))
  | inr s ↦ rw s (ground (arith, finish-append (128 + opcode) 4 payload rest))
]

finish_more :
    (b0 offset n : ℕ) (body more : Bytes)
    → finish b0 offset n body ≢ incomplete
    → finish b0 offset n (body ++ more) ≡ finish b0 offset n body
unfolding finish
finish_more b0 offset n body more h =
    ground (arith, length-append {0} body more, take-append_le n body more)

extended16_more :
    (b0 : ℕ) (r more : Bytes)
    → extended16 b0 r ≢ incomplete
    → extended16 b0 (r ++ more) ≡ extended16 b0 r
unfolding extended16
extended16_more b0 (a ∷ l ∷ body) more h = finish_more b0 4 (256 * a + l) body more h
extended16_more b0 [] more h = absurd (h refl)
extended16_more b0 (a ∷ []) more h = absurd (h refl)

extended64_more :
    (b0 : ℕ) (r more : Bytes)
    → extended64 b0 r ≢ incomplete
    → extended64 b0 (r ++ more) ≡ extended64 b0 r
unfolding extended64
extended64_more b0 r more h = ground (
  arith,
  length-append {0} r more,
  take-append_le 8 r more,
  drop-append_le 8 r more,
  finish_more b0 10 (big_endian 0 (take 8 r)) (drop 8 r) more,
)

-- The answer for a buffer that is enough does not change when more bytes arrive behind it: no
-- frame is read otherwise because the stream was cut elsewhere.
pub parse-append :
    (buf more : Bytes) → parse_frame buf ≢ incomplete → parse_frame (buf ++ more) ≡ parse_frame buf
unfolding parse_frame
parse-append [] more h = absurd (h refl)
parse-append (b0 ∷ []) more h = absurd (h refl)
parse-append (b0 ∷ b1 ∷ rest) more h = ground (
  arith,
  extended16_more b0 rest more,
  extended64_more b0 rest more,
  finish_more b0 2 (b1 % 128) rest more,
)
