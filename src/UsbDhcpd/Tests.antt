-- ===== src/UsbDhcpd/Tests.antt =====
-- stm32h563/src/usb_dhcpd.c: runs on concrete inputs, and witnesses.
use benchpod_firmware.UsbDhcpd.{
  Config, find_opt, find_from, Answer, offer, ack, nak, answer, reply, wanted, max_msg, for_another,
  answer_to, cookie, options, header,
}
use benchpod_firmware.UsbDhcpd.Reply.{reply_lem, rfc_kind, Reads, Leases}
use benchpod_firmware.Base.{arith, ◌≡◌, refl, some, [], ◌∷◌, ◌++◌, length, replicate, Bytes, str_eq}

abbrev link : Config
link = record { server_ip = 183304193; client_ip = 183304194; netmask = 4294967292; lease_s = 3600 }

-- A request with these options and no address of its own.
abbrev request : Bytes → Bytes
request opts = 1 ∷ 1 ∷ 6 ∷ 0 ∷ (replicate 232 0 ++ (cookie ++ opts))

-- A REQUEST of the host's address, 10.237.0.2.
abbrev asks_for_host : Bytes
asks_for_host = request (53 ∷ 1 ∷ 3 ∷ 0 ∷ 50 ∷ 4 ∷ 10 ∷ 237 ∷ 0 ∷ 2 ∷ 255 ∷ [])

host_is_acked : answer link asks_for_host 300 ≡ some ack
unfolding answer find_opt find_from wanted for_another answer_to str_eq
host_is_acked = refl

other_is_refused :
    answer link (request (53 ∷ 1 ∷ 3 ∷ 50 ∷ 4 ∷ 10 ∷ 0 ∷ 0 ∷ 2 ∷ 255 ∷ [])) 300 ≡ some nak
unfolding answer find_opt find_from wanted for_another answer_to str_eq
other_is_refused = refl

discover_is_offered : answer link (request (53 ∷ 1 ∷ 1 ∷ 255 ∷ [])) 300 ≡ some offer
unfolding answer find_opt find_from answer_to str_eq
discover_is_offered = refl

abbrev host_reply : Bytes
host_reply =
    2
    ∷ 1
    ∷ 6
    ∷ 0
    ∷ (replicate 12 0
        ++ (10
            ∷ 237
            ∷ 0
            ∷ 2
            ∷ 10
            ∷ 237
            ∷ 0
            ∷ 1
            ∷ (replicate 212 0
                ++ (cookie
                    ++ (53
                        ∷ 1
                        ∷ 5
                        ∷ 54
                        ∷ 4
                        ∷ 10
                        ∷ 237
                        ∷ 0
                        ∷ 1
                        ∷ 51
                        ∷ 4
                        ∷ 0
                        ∷ 0
                        ∷ 14
                        ∷ 16
                        ∷ 1
                        ∷ 4
                        ∷ 255
                        ∷ 255
                        ∷ 255
                        ∷ 252
                        ∷ 255
                        ∷ replicate 38 0)))))

host_is_replied : reply link asks_for_host 300 ≡ some host_reply
unfolding reply header options answer find_opt find_from wanted for_another answer_to str_eq
host_is_replied = refl

reply_lem_example :
    (a : Answer) × (answer link asks_for_host 300 ≡ some a)
    × (length host_reply ≡ max_msg)
    × (find_opt host_reply 53 ≡ some (rfc_kind a ∷ []))
    × Reads host_reply 54 183304193
    × Leases a link host_reply
reply_lem_example =
    reply_lem link asks_for_host 300 host_reply (omega arith) (omega arith) (omega arith)
      (omega arith) host_is_replied
