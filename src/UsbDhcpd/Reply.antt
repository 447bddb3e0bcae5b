-- ===== src/UsbDhcpd/Reply.antt =====
-- stm32h563/src/usb_dhcpd.c: the reply to a request.
use benchpod_firmware.UsbDhcpd.Options.{
  reads_kind, reads_server, reads_lease, reads_mask, options-length, if_leased,
}
use benchpod_firmware.UsbDhcpd.{
  Config, find_from, find_opt, Answer, offer, ack, nak, answer, answer_number, is_nak, put_u32,
  options, header, reply, max_msg, off_options, cookie,
}
use mathlib.Core.Option.{some-injective}
use mathlib.Core.Path.{subst}
use benchpod_firmware.Base.{
  ◌*◌, ◌^◌, ◌<◌, ◌<◌, drop-append, ℕ, ◌+◌, ◌-◌, ◌≤◌, ◌≡◌, refl, sym, ap, ◌∙◌, inl, inr, none, some,
  [], ◌∷◌, ◌++◌, arith, if◌then◌else◌, Option-cases, length, take, drop, replicate, length-append,
  length-take, length-drop, length-replicate, Bytes,
}

length-take_part :
    (n off : ℕ) (req : Bytes) → off + n ≤ length req → length (take n (drop off req)) ≡ n
length-take_part n off req le =
    rw (length-take {0} n (drop off req), length-drop {0} off req) (omega arith)

address-length : (ip : ℕ) (a : Answer) → length (if is_nak a then replicate 4 0 else put_u32 ip) ≡ 4
address-length ip offer = refl
address-length ip ack = refl
address-length ip nak = refl

framed-length :
    (x y z p q s : Bytes)
    → length x ≡ 4
    → length y ≡ 2
    → length z ≡ 16
    → length p ≡ 4
    → length q ≡ 4
    → length s ≡ 196
    → length (
        2
        ∷ 1
        ∷ 6
        ∷ 0
        ∷ (x ++ (0 ∷ 0 ∷ (y ++ (replicate 4 0 ++ (p ++ (q ++ (replicate 4 0 ++ (z ++ s)))))))))
      ≡ off_options
framed-length x y z p q s lx ly lz lp lq ls =
    let es = length-append {0} z s in
    let zs = replicate 4 0 ++ (z ++ s) in
    let eq = length-append {0} q zs in
    let ep = length-append {0} p (q ++ zs) in
    let ps = replicate 4 0 ++ (p ++ (q ++ zs)) in
    let ey = length-append {0} y ps in
    let ex = length-append {0} x (0 ∷ 0 ∷ (y ++ ps)) in omega (arith, es, eq, ep, ey, ex)

header-length :
    (cfg : Config) (req : Bytes) (a : Answer)
    → off_options ≤ length req
    → length (header cfg req a) ≡ off_options
unfolding header
header-length cfg req a le =
    let address = λ (ip : ℕ). if is_nak a then replicate 4 0 else put_u32 ip in
    framed-length (take 4 (drop 4 req)) (take 2 (drop 10 req)) (take 16 (drop 28 req))
      (address cfg.client_ip) (address cfg.server_ip) (replicate 192 0 ++ cookie)
      (length-take_part 4 4 req (omega arith)) (length-take_part 2 10 req (omega arith))
      (length-take_part 16 28 req (omega arith)) (address-length cfg.client_ip a)
      (address-length cfg.server_ip a) refl

-- The message that an answer is sent as.
abbrev message : Config → Bytes → Answer → Bytes
message cfg req a =
    let opts = options cfg a in
    header cfg req a ++ (opts ++ replicate (max_msg - off_options - length opts) 0)

answer-length :
    (cfg : Config) (req : Bytes) (out_cap : ℕ) (a : Answer)
    → answer cfg req out_cap ≡ some a
    → off_options ≤ length req
unfolding answer
answer-length cfg req out_cap a e = ground arith

reply_some :
    (cfg : Config) (req : Bytes) (out_cap : ℕ) (a : Answer)
    → answer cfg req out_cap ≡ some a
    → reply cfg req out_cap ≡ some (message cfg req a)
unfolding reply
reply_some cfg req out_cap a k = rw (k, reply) refl

reply-message :
    (cfg : Config) (req : Bytes) (out_cap : ℕ) (out : Bytes)
    → reply cfg req out_cap ≡ some out
    → (a : Answer) × (answer cfg req out_cap ≡ some a) × (out ≡ message cfg req a)
unfolding reply
reply-message cfg req out_cap out e = elim (Option-cases (answer cfg req out_cap)) [
  | inl k ↦ (let r : reply cfg req out_cap ≡ none = rw (k, reply) refl in ground arith)
  | inr (a, k) ↦
      (a, k, some-injective out (message cfg req a) (sym e ∙ reply_some cfg req out_cap a k))
]

message-options :
    (cfg : Config) (req : Bytes) (a : Answer)
    → off_options ≤ length req
    → drop off_options (message cfg req a)
      ≡ options cfg a ++ replicate (max_msg - off_options - length (options cfg a)) 0
message-options cfg req a le =
    let e = header-length cfg req a le in
    subst
      (λ n.
        drop n (message cfg req a)
        ≡ options cfg a ++ replicate (max_msg - off_options - length (options cfg a)) 0)
      e (drop-append (header cfg req a) _)

message-length :
    (cfg : Config) (req : Bytes) (a : Answer)
    → off_options ≤ length req
    → length (message cfg req a) ≡ max_msg
message-length cfg req a le =
    let h = header-length cfg req a le in
    let o = options-length cfg a in
    let pad = max_msg - off_options - length (options cfg a) in
    let r = length-replicate {0} {A = ℕ} pad 0 in
    let t = length-append {0} (options cfg a) (replicate pad 0) in
    let w = length-append {0} (header cfg req a) (options cfg a ++ replicate pad 0) in
    omega (arith, h, o, r, t, w)

find_opt-message :
    (cfg : Config) (req : Bytes) (a : Answer) (code : ℕ)
    → off_options ≤ length req
    → find_opt (message cfg req a) code
      ≡ find_from
          (length (options cfg a ++ replicate (max_msg - off_options - length (options cfg a)) 0))
          code
          (options cfg a ++ replicate (max_msg - off_options - length (options cfg a)) 0)
unfolding find_opt
find_opt-message cfg req a code le =
    ap (λ d. find_from (length d) code d) (message-options cfg req a le)

-- A number in network byte order, and the kinds of RFC 2132, option 53.
unfoldable pub be_value : ℕ → Bytes → ℕ
be_value n [] = n
be_value n (b ∷ bs) = be_value (256 * n + b) bs

abbrev pub rfc_kind : Answer → ℕ
rfc_kind offer = 2
rfc_kind ack = 5
rfc_kind nak = 6

be_value-put_u32 : (v : ℕ) → v < 2 ^ 32 → be_value 0 (put_u32 v) ≡ v
unfolding be_value
be_value-put_u32 v h = omega arith

-- The option holds this number in four bytes.
unfoldable pub Reads : Bytes → ℕ → ℕ → Type 0
Reads out code v =
    (bs : Bytes) × (find_opt out code ≡ some bs) × (length bs ≡ 4) × (be_value 0 bs ≡ v)

-- What is told of the lease, which a NAK does not give.
unfoldable pub Leases : Answer → Config → Bytes → Type 0
Leases nak cfg out =
    (find_opt out 51 ≡ none) × (find_opt out 1 ≡ none) × (be_value 0 (take 4 (drop 16 out)) ≡ 0)
Leases _ cfg out =
    Reads out 51 cfg.lease_s
    × Reads out 1 cfg.netmask
    × (be_value 0 (take 4 (drop 16 out)) ≡ cfg.client_ip)

four : (x : Bytes) → length x ≡ 4 → (a b c d : ℕ) × (x ≡ a ∷ b ∷ c ∷ d ∷ [])
four [] h = absurd (omega arith)
four (a ∷ []) h = absurd (omega arith)
four (a ∷ b ∷ []) h = absurd (omega arith)
four (a ∷ b ∷ c ∷ []) h = absurd (omega arith)
four (a ∷ b ∷ c ∷ d ∷ []) h = (a, b, c, d, refl)
four (a ∷ b ∷ c ∷ d ∷ e ∷ x) h = absurd (omega arith)

two : (x : Bytes) → length x ≡ 2 → (a b : ℕ) × (x ≡ a ∷ b ∷ [])
two [] h = absurd (omega arith)
two (a ∷ []) h = absurd (omega arith)
two (a ∷ b ∷ []) h = (a, b, refl)
two (a ∷ b ∷ c ∷ x) h = absurd (omega arith)

-- The address for the host, 16 bytes behind the start.
message-address :
    (cfg : Config) (req : Bytes) (a : Answer)
    → off_options ≤ length req
    → take 4 (drop 16 (message cfg req a))
      ≡ (if is_nak a then replicate 4 0 else put_u32 cfg.client_ip)
unfolding header
message-address cfg req offer le =
    let (i, j, k, l, x) = four (take 4 (drop 4 req)) (length-take_part 4 4 req (omega arith)) in
    let (m, n, y) = two (take 2 (drop 10 req)) (length-take_part 2 10 req (omega arith)) in
    rw (x, y) refl
message-address cfg req ack le =
    let (i, j, k, l, x) = four (take 4 (drop 4 req)) (length-take_part 4 4 req (omega arith)) in
    let (m, n, y) = two (take 2 (drop 10 req)) (length-take_part 2 10 req (omega arith)) in
    rw (x, y) refl
message-address cfg req nak le =
    let (i, j, k, l, x) = four (take 4 (drop 4 req)) (length-take_part 4 4 req (omega arith)) in
    let (m, n, y) = two (take 2 (drop 10 req)) (length-take_part 2 10 req (omega arith)) in
    rw (x, y) refl

put-Reads :
    (out : Bytes) (code v : ℕ)
    → v < 2 ^ 32
    → find_opt out code ≡ some (put_u32 v)
    → Reads out code v
unfolding Reads
put-Reads out code v h e = (put_u32 v, e, refl, be_value-put_u32 v h)

leases :
    (cfg : Config) (req : Bytes) (a : Answer) (out : Bytes)
    → cfg.client_ip < 2 ^ 32
    → cfg.netmask < 2 ^ 32
    → cfg.lease_s < 2 ^ 32
    → take 4 (drop 16 out) ≡ (if is_nak a then replicate 4 0 else put_u32 cfg.client_ip)
    → find_opt out 51 ≡ if_leased a (put_u32 cfg.lease_s)
    → find_opt out 1 ≡ if_leased a (put_u32 cfg.netmask)
    → Leases a cfg out
unfolding Leases be_value
leases cfg req offer out c n l at e f = (
  put-Reads out 51 cfg.lease_s l e,
  put-Reads out 1 cfg.netmask n f,
  rw at (be_value-put_u32 cfg.client_ip c),
)
leases cfg req ack out c n l at e f = (
  put-Reads out 51 cfg.lease_s l e,
  put-Reads out 1 cfg.netmask n f,
  rw at (be_value-put_u32 cfg.client_ip c),
)
leases cfg req nak out c n l at e f = (e, f, rw at refl)

kind-rfc : (a : Answer) → answer_number a ≡ rfc_kind a
kind-rfc offer = refl
kind-rfc ack = refl
kind-rfc nak = refl

-- For a link whose four numbers have 32 bits: whatever usb_dhcpd_reply answers is a message of
-- USB_DHCPD_MAX_MSG bytes, in which find_opt reads RFC 2132's number of the answer's kind and, in
-- network byte order, the server's address. Unless it is a NAK, it reads the lease's time and the
-- mask too, and the message gives the host's address; a NAK has neither option and the address 0.
pub reply_lem :
    (cfg : Config) (req : Bytes) (out_cap : ℕ) (out : Bytes)
    → cfg.server_ip < 2 ^ 32
    → cfg.client_ip < 2 ^ 32
    → cfg.netmask < 2 ^ 32
    → cfg.lease_s < 2 ^ 32
    → reply cfg req out_cap ≡ some out
    → (a : Answer) × (answer cfg req out_cap ≡ some a)
      × (length out ≡ max_msg)
      × (find_opt out 53 ≡ some (rfc_kind a ∷ []))
      × Reads out 54 cfg.server_ip
      × Leases a cfg out
unfolding options
reply_lem cfg req out_cap out hs hc hn hl e =
    let (a, k, m) = reply-message cfg req out_cap out e in
    let le = answer-length cfg req out_cap a k in
    let pad = replicate (max_msg - off_options - length (options cfg a)) 0 in
    let opt = λ (code : ℕ). ap (λ o. find_opt o code) m ∙ find_opt-message cfg req a code le in
    (
      a,
      k,
      ap (λ o. length o) m ∙ message-length cfg req a le,
      opt 53 ∙ reads_kind cfg a pad _ ∙ ap (λ n. some (n ∷ [])) (kind-rfc a),
      put-Reads out 54 cfg.server_ip hs (opt 54 ∙ reads_server cfg a pad _),
      leases cfg req a out hc hn hl (ap (λ o. take 4 (drop 16 o)) m ∙ message-address cfg req a le)
          (opt 51 ∙ reads_lease cfg a pad _) (opt 1 ∙ reads_mask cfg a pad _),
    )
