-- ===== src/WsFrame/Tests.antt =====
-- Frames at concrete bytes.
use benchpod_firmware.Base.{◌≡◌, refl, ◌≢◌, some, [], ◌∷◌, ◌++◌, arith, Bytes, codes}
use benchpod_firmware.WsFrame.{incomplete, frame, parse_frame, build_frame}
use benchpod_firmware.WsFrame.Server.{parse-append}
use benchpod_firmware.WsFrame.Client.{server_read, server_read-build_frame}

-- The masked "Hello" of RFC 6455, section 5.7.
hello_built :
    build_frame 1 (codes "Hello") (0x37 ∷ 0xfa ∷ 0x21 ∷ 0x3d ∷ []) 64
    ≡ some (0x81 ∷ 0x85 ∷ 0x37 ∷ 0xfa ∷ 0x21 ∷ 0x3d ∷ 0x7f ∷ 0x9f ∷ 0x4d ∷ 0x51 ∷ 0x58 ∷ [])
unfolding build_frame
hello_built = refl

hello_parsed :
    parse_frame (0x81 ∷ 0x05 ∷ 0x48 ∷ 0x65 ∷ 0x6c ∷ 0x6c ∷ 0x6f ∷ []) ≡ frame 1 (codes "Hello") 7
unfolding parse_frame
hello_parsed = refl

server_read-build_frame_example :
    (f : Bytes) × (build_frame 2 (1 ∷ 255 ∷ []) (9 ∷ 8 ∷ 7 ∷ 255 ∷ []) 8 ≡ some f)
    × (server_read (f ++ 129 ∷ []) ≡ some (2, 1 ∷ 255 ∷ [], 129 ∷ []))
server_read-build_frame_example =
    server_read-build_frame 9 8 7 255 (omega arith) (omega arith) (omega arith) (omega arith) 2
      (1 ∷ 255 ∷ []) (129 ∷ []) 8 (omega arith) (omega arith) (omega arith)

ping_with_no_payload : parse_frame (0x89 ∷ 0 ∷ []) ≢ incomplete
unfolding parse_frame
ping_with_no_payload h = cc

parse-append_example : parse_frame (0x89 ∷ 0 ∷ 0x81 ∷ []) ≡ parse_frame (0x89 ∷ 0 ∷ [])
parse-append_example = parse-append (0x89 ∷ 0 ∷ []) (0x81 ∷ []) ping_with_no_payload
