-- ===== src/UsbDhcpd.antt =====
-- stm32h563/src/usb_dhcpd.c: the DHCP server of the USB network link. An address is a number of 32 bits,
-- a pointer to an option its value; `out` is built from its start on, where the code clears it and
-- writes at offsets.
pub mod Options
pub mod Reply
pub mod Subnet
mod Tests
use benchpod_firmware.Base.{
  ℕ, zero, suc, ◌+◌, ◌-◌, ◌*◌, ◌/◌, ◌%◌, ◌^◌, bit_xor, Bool, true, false, not, ◌&&◌, ◌||◌, Option,
  none, some, [], ◌∷◌, ◌++◌, arith, ltb, ◌==◌, if◌then◌else◌, length, take, drop, get_or, replicate,
  mul32, Bytes, str_eq,
}

-- `usb_dhcpd_cfg_t`.
pub record Config : Type 0 where
  pub server_ip : ℕ
  pub client_ip : ℕ
  pub netmask : ℕ
  pub lease_s : ℕ

abbrev pub max_msg : ℕ
max_msg = 300

-- OFF_OPTIONS.
abbrev pub off_options : ℕ
off_options = 240

abbrev pub cookie : Bytes
cookie = 99 ∷ 130 ∷ 83 ∷ 99 ∷ []

-- `put_u32` and `get_u32`.
abbrev pub put_u32 : ℕ → Bytes
put_u32 v = v / 2 ^ 24 % 256 ∷ v / 2 ^ 16 % 256 ∷ v / 2 ^ 8 % 256 ∷ v % 256 ∷ []

abbrev pub get_u32 : Bytes → ℕ
get_u32 p = 2 ^ 24 * get_or p 0 0 + 2 ^ 16 * get_or p 1 0 + 2 ^ 8 * get_or p 2 0 + get_or p 3 0

-- The loop of `find_opt`, from an option on.
unfoldable pub find_from : ℕ → ℕ → Bytes → Option Bytes
find_from zero code opts = none
find_from (suc fuel) code [] = none
find_from (suc fuel) code (c ∷ []) = none
find_from (suc fuel) code (c ∷ l ∷ more) =
    let padded = find_from fuel code (l ∷ more) in
    let next = find_from fuel code (drop l more) in
    if c == 255
    then none
    else if c == 0
    then padded
    else if ltb (length more) l
    then none
    else if c == code
    then some (take l more)
    else next

-- `find_opt`; each round takes a byte at least.
unfoldable pub find_opt : Bytes → ℕ → Option Bytes
find_opt req code = find_from (length (drop off_options req)) code (drop off_options req)

-- What a request is answered with.
pub data Answer : Type 0 where
  offer ack nak : Answer

abbrev pub answer_number : Answer → ℕ
answer_number offer = 2
answer_number ack = 5
answer_number nak = 6

abbrev pub is_nak : Answer → Bool
is_nak nak = true
is_nak a = false

-- The address that a REQUEST asks for: option 50, or ciaddr.
unfoldable pub wanted : Bytes → ℕ
wanted req =
    let ciaddr = get_u32 (drop 12 req) in
    elim (find_opt req 50) [ none ↦ ciaddr | some v ↦ if length v == 4 then get_u32 v else ciaddr ]

-- Whether the server that a REQUEST names, if it names one, is another.
unfoldable pub for_another : Config → Bytes → Bool
for_another cfg req = elim (find_opt req 54) [
  | none ↦ false
  | some v ↦ (length v == 4) && not (get_u32 v == cfg.server_ip)
]

-- The answer to a message of this type; none where there is none.
unfoldable pub answer_to : Config → Bytes → ℕ → Option Answer
answer_to cfg req kind =
    if kind == 1
    then some offer
    else if not (kind == 3)
    then none
    else if for_another cfg req
    then none
    else if wanted req == cfg.client_ip
    then some ack
    else some nak

-- The checks of `usb_dhcpd_reply`, up to the type of its answer.
unfoldable pub answer : Config → Bytes → ℕ → Option Answer
answer cfg req out_cap =
    if ltb (length req) off_options || ltb out_cap max_msg
    then none
    else if not (get_or req 0 0 == 1) || not (get_or req 1 0 == 1) || not (get_or req 2 0 == 6)
    then none
    else if not (str_eq (take 4 (drop 236 req)) cookie)
    then none
    else elim (find_opt req 53) [
      | none ↦ none
      | some v ↦ if not (length v == 1) then none else answer_to cfg req (get_or v 0 0)
    ]

-- `opt_u32`.
abbrev pub opt_u32 : ℕ → ℕ → Bytes
opt_u32 code v = code ∷ 4 ∷ put_u32 v

-- The options of an answer.
unfoldable pub options : Config → Answer → Bytes
options cfg a =
    let lease = if is_nak a then [] else opt_u32 51 cfg.lease_s ++ opt_u32 1 cfg.netmask in
    53 ∷ 1 ∷ answer_number a ∷ (opt_u32 54 cfg.server_ip ++ (lease ++ (255 ∷ [])))

-- The message before its options.
unfoldable pub header : Config → Bytes → Answer → Bytes
header cfg req a =
    let address = λ (ip : ℕ). if is_nak a then replicate 4 0 else put_u32 ip in
    let addresses =
      replicate 4 0
      ++ (address cfg.client_ip
          ++ (address cfg.server_ip
              ++ (replicate 4 0 ++ (take 16 (drop 28 req) ++ (replicate 192 0 ++ cookie))))) in
    2 ∷ 1 ∷ 6 ∷ 0 ∷ (take 4 (drop 4 req) ++ (0 ∷ 0 ∷ (take 2 (drop 10 req) ++ addresses)))

-- `usb_dhcpd_reply`; none for no answer.
unfoldable pub reply : Config → Bytes → ℕ → Option Bytes
reply cfg req out_cap = elim (answer cfg req out_cap) [
  | none ↦ none
  | some a ↦
      let opts = options cfg a in
      some (header cfg req a ++ (opts ++ replicate (max_msg - off_options - length opts) 0))
]

-- A round of the hash of `usb_dhcpd_subnet`.
abbrev pub fnv_byte : ℕ → ℕ → ℕ
fnv_byte h b = mul32 (bit_xor h b) 16777619

-- The four bytes of a word of the UID.
unfoldable pub fnv_word : ℕ → ℕ → ℕ
fnv_word h w =
    fnv_byte (fnv_byte (fnv_byte (fnv_byte h (w % 256)) (w / 2 ^ 8 % 256)) (w / 2 ^ 16 % 256))
      (w / 2 ^ 24 % 256)

-- `usb_dhcpd_subnet`: the pod's address, the host's, the mask.
unfoldable pub subnet : ℕ → ℕ → ℕ → ℕ × (ℕ × ℕ)
subnet u0 u1 u2 =
    let h0 = fnv_word (fnv_word (fnv_word 2166136261 u0) u1) u2 in
    let h = bit_xor h0 (h0 / 2 ^ 14) in
    let base = 10 * 2 ^ 24 + 237 * 2 ^ 16 + h / 2 ^ 6 % 256 * 2 ^ 8 + h % 64 * 2 ^ 2 in
    (base + 1, (base + 2, 4294967292))
