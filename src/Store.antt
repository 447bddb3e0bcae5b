-- ===== src/Store.antt =====
-- stm32h563/src/config_store.c: records in two flash slots that survive a loss of power. The flash
-- is seen through flash_compat.c: a byte at each offset, or `none` where its quad-word fails the
-- ECC. What an erase and a program do to it is the hardware's, the parameter `Chip`. The cast
-- `(int32_t)` reads the top bit. Log lines and the interrupt masking are left out.
pub mod Commit
pub mod PowerLoss
mod Tests
use benchpod_firmware.Base.{
  ℕ, zero, suc, ◌+◌, ◌-◌, ◌*◌, ◌/◌, ◌%◌, ◌^◌, ◌≤◌, ◌<◌, min, max, bit_and, bit_or, bit_xor, ◌≡◌,
  refl, sym, ap, ◌∙◌, ◌≢◌, ◌↔◌, ◌⊎◌, inl, inr, Bool, true, false, not, ◌&&◌, ◌||◌, Option, none,
  some, List, [], ◌∷◌, ◌++◌, arith, ltb, leb, ◌==◌, if◌then◌else◌, Bool-cases, Option-cases, length,
  take, drop, set, get_or, replicate, All, length-append, length-set, length-take, length-drop,
  length-replicate, add32, sub32, mul32, add16, sub16, Bytes, codes, str_eq, str_eq_iff,
}

abbrev pub Flash : Type 0
Flash = ℕ → Option ℕ

pub record Chip : Type 0 where
  -- `flash_range_erase` of one sector, and `flash_range_program`.
  pub erase : ℕ → Flash → Flash
  pub program : ℕ → Bytes → Flash → Flash

push : Option ℕ → Option Bytes → Option Bytes
push (some b) (some bs) = some (b ∷ bs)
push _ _ = none

-- `flash_read_checked`: all the bytes, or an error.
pub read_checked : ℕ → ℕ → Flash → Option Bytes
unfolding push
read_checked off zero f = some []
read_checked off (suc n) f = push (f off) (read_checked (off + 1) n f)

abbrev pub hdr_size : ℕ
hdr_size = 16

abbrev pub chunk_size : ℕ
chunk_size = 32

abbrev pub page_size : ℕ
page_size = 256

-- The CRC of ab_crc32; every value is a `uint32_t`, and `~c` is what is left to its largest.
crc_bit : ℕ → ℕ
crc_bit c = bit_xor (c / 2) (if c % 2 == 1 then 0xEDB88320 else 0)

crc_byte : ℕ → ℕ → ℕ
unfolding crc_bit
crc_byte c b =
    crc_bit (crc_bit (crc_bit (crc_bit (crc_bit (crc_bit (crc_bit (crc_bit (bit_xor c b))))))))
    % 2 ^ 32

crc_loop : ℕ → Bytes → ℕ
crc_loop c [] = c
crc_loop c (b ∷ bs) = crc_loop (crc_byte c b) bs

abbrev not32 : ℕ → ℕ
not32 c = 2 ^ 32 - 1 - c

pub crc32 : ℕ → Bytes → ℕ
unfolding crc_loop crc_byte
crc32 c bs = not32 (crc_loop (not32 c) bs)

-- `ab_hdr_t` and its 16 bytes, little-endian.
pub record Hdr : Type 0 where
  pub magic : ℕ
  pub seq : ℕ
  pub ver_len : ℕ
  pub crc : ℕ

abbrev pub le32 : ℕ → Bytes
le32 n = (n % 256) ∷ (n / 256 % 256) ∷ (n / 65536 % 256) ∷ (n / 16777216 % 256) ∷ []

abbrev word : ℕ → Bytes → ℕ
word i p =
    get_or p i 0
    + 256 * get_or p (i + 1) 0
    + 65536 * get_or p (i + 2) 0
    + 16777216 * get_or p (i + 3) 0

pub hdr_of : Bytes → Hdr
hdr_of p = record { magic = word 0 p; seq = word 4 p; ver_len = word 8 p; crc = word 12 p }

pub hdr_bytes : Hdr → Bytes
hdr_bytes h = le32 h.magic ++ (le32 h.seq ++ (le32 h.ver_len ++ le32 h.crc))

abbrev pub hdr_len : Hdr → ℕ
hdr_len h = h.ver_len % 65536

abbrev pub hdr_ver : Hdr → ℕ
hdr_ver h = h.ver_len / 65536

-- `ab_store_t`; a slot is `false` for A and `true` for B.
pub record Store : Type 0 where
  pub slot_a : ℕ
  pub slot_b : ℕ
  pub magic : ℕ
  pub version : ℕ
  pub legacy_off : ℕ
  pub legacy_magic : ℕ
  pub max_len : ℕ

abbrev pub slot_off : Store → Bool → ℕ
slot_off s i = if i then s.slot_b else s.slot_a

abbrev pub store_max : Store → ℕ
store_max s = if s.max_len == 0 then 240 else s.max_len

-- The loop over the payload in chunks: the CRC behind it, and what was read. The fuel is the
-- number of chunks.
pub read_loop : ℕ → ℕ → ℕ → ℕ → Flash → Option (ℕ × Bytes)
read_loop zero off left crc f = some (crc, [])
read_loop (suc k) off left crc f = elim (read_checked off (min chunk_size left) f) [
  | none ↦ none
  | some buf ↦ elim (read_loop k (off + chunk_size) (left - chunk_size) (crc32 crc buf) f) [
    | none ↦ none
    | some (c, rest) ↦ some (c, buf ++ rest)
  ]
]

abbrev pub chunks : ℕ → ℕ
chunks n = (n + 31) / 32

-- The checks of `slot_read` on a header that was read.
slot_payload : Store → ℕ → Hdr → Flash → Option (Hdr × Bytes)
slot_payload s off h f =
    if not (h.magic == s.magic) || ltb (store_max s) (hdr_len h)
    then none
    else elim (read_loop (chunks (hdr_len h)) (off + hdr_size) (hdr_len h)
        (crc32 (crc32 0 (le32 h.seq)) (le32 h.ver_len)) f) [
          | none ↦ none
          | some (c, p) ↦ if c == h.crc then some (h, p) else none
        ]

pub slot_read : Store → Bool → Flash → Option (Hdr × Bytes)
unfolding slot_payload
slot_read s i f = elim (read_checked (slot_off s i) hdr_size f) [
  | none ↦ none
  | some p ↦ slot_payload s (slot_off s i) (hdr_of p) f
]

-- `(int32_t)(b - a) > 0`.
abbrev pub ahead : ℕ → ℕ → Bool
ahead b a = ltb 0 (sub32 b a) && ltb (sub32 b a) (2 ^ 31)

pub newest_slot : Option (Hdr × Bytes) → Option (Hdr × Bytes) → Option (Bool × Hdr × Bytes)
newest_slot (some (a, p)) (some (b, q)) =
    if ahead b.seq a.seq then some (true, b, q) else some (false, a, p)
newest_slot (some (a, p)) none = some (false, a, p)
newest_slot none (some (b, q)) = some (true, b, q)
newest_slot none none = none

-- `scan`: the newest slot, its header and payload.
pub scan : Store → Flash → Option (Bool × Hdr × Bytes)
unfolding newest_slot
scan s f = newest_slot (slot_read s false f) (slot_read s true f)

-- The single-sector layout of older firmware.
load_legacy : Store → ℕ → Flash → Option Bytes
load_legacy s len f = if s.legacy_off == 0 then none else elim (read_checked s.legacy_off 4 f) [
  | none ↦ none
  | some m ↦ if word 0 m == s.legacy_magic then read_checked s.legacy_off len f else none
]

-- `ab_store_load`: the payload that it copies out, none for -1.
pub load : Store → ℕ → Flash → Option Bytes
unfolding load_legacy
load s len f = elim (scan s f) [
  | none ↦ load_legacy s len f
  | some (i, h, p) ↦
      if hdr_len h == 0 || not (hdr_ver h == s.version) || not (hdr_len h == len)
      then none
      else elim (slot_read s i f) [ none ↦ none | some (h', q) ↦ some (take len q) ]
]

-- `slot_payload_equals`.
equals_loop : ℕ → ℕ → Bytes → Flash → Bool
equals_loop zero off data' f = true
equals_loop (suc k) off data' f = elim (read_checked off (min chunk_size (length data')) f) [
  | none ↦ false
  | some buf ↦
      str_eq buf (take chunk_size data')
      && equals_loop k (off + chunk_size) (drop chunk_size data') f
]

pub payload_equals : Store → Bool → Bytes → Flash → Bool
unfolding equals_loop
payload_equals s i data' f = equals_loop (chunks (length data')) (slot_off s i + hdr_size) data' f

-- One operation on the flash.
pub data Op : Type 0 where
  erase_at : ℕ → Op
  program_at : ℕ → Bytes → Op

pub perform : Chip → Op → Flash → Flash
perform c (erase_at off) f = c.erase off f
perform c (program_at off bs) f = c.program off bs f

pub perform_all : Chip → List Op → Flash → Flash
unfolding perform
perform_all c [] f = f
perform_all c (o ∷ os) f = perform_all c os (perform c o f)

-- The header of a new record.
pub new_hdr : Store → ℕ → Bytes → Hdr
new_hdr s seq data' =
    let ver_len = s.version * 65536 + length data' in
    record {
      magic = s.magic;
      seq = seq;
      ver_len = ver_len;
      crc = crc32 (crc32 (crc32 0 (le32 seq)) (le32 ver_len)) data';
    }

-- The payload, filled up to a quad-word with 0xFF.
pub padded : Bytes → Bytes
padded data' = data' ++ replicate ((length data' + 15) / 16 * 16 - length data') 255

-- The loop that programs it page by page.
pub pages : ℕ → ℕ → Bytes → List Op
pages zero off body = []
pages (suc k) off body =
    program_at off (take page_size body) ∷ pages k (off + page_size) (drop page_size body)

-- What `write_record` does to the flash, in its order; the header is last.
pub record_ops : Store → Bool → ℕ → Bytes → List Op
unfolding pages padded
record_ops s i seq data' =
    erase_at (slot_off s i)
    ∷ (pages ((length (padded data') + 255) / page_size) (slot_off s i + hdr_size) (padded data')
        ++ program_at (slot_off s i) (hdr_bytes (new_hdr s seq data')) ∷ [])

-- The read back.
verified : Store → Bool → ℕ → Bytes → Flash → Bool
verified s i seq data' f = elim (slot_read s i f) [
  | none ↦ false
  | some (h, p) ↦ h.seq == seq && h.crc == (new_hdr s seq data').crc && payload_equals s i data' f
]

pub write_record : Chip → Store → Bool → ℕ → Bytes → Flash → Flash × Bool
unfolding verified
write_record c s i seq data' f =
    let f' = perform_all c (record_ops s i seq data') f in (f', verified s i seq data' f')

-- The slot and the number of the next record.
pub next_target : Option (Bool × Hdr × Bytes) → Bool × ℕ
next_target none = (false, 1)
next_target (some (i, h, p)) = (not i, add32 h.seq 1)

unchanged : Store → Bytes → Flash → Bool
unchanged s data' f = elim (scan s f) [
  | none ↦ false
  | some (i, h, p) ↦
      hdr_ver h == s.version && hdr_len h == length data' && payload_equals s i data' f
]

-- `ab_store_save`: the flash it leaves, and whether it returned 0.
pub save : Chip → Store → Bytes → Flash → Flash × Bool
unfolding unchanged
save c s data' f =
    let (i, seq) = next_target (scan s f) in
    if length data' == 0 || ltb (store_max s) (length data')
    then (f, false)
    else if unchanged s data' f
    then (f, true)
    else write_record c s i seq data' f

-- `ab_store_clear`: a record with no payload, then the other sectors.
pub clear : Chip → Store → Flash → Flash × Bool
clear c s f =
    let (i, seq) = next_target (scan s f) in
    let (f1, done) = write_record c s i seq [] f in
    let f2 = if done then f1 else c.erase (slot_off s i) f1 in
    let f3 = c.erase (slot_off s (not i)) f2 in
    (if s.legacy_off == 0 then f3 else c.erase s.legacy_off f3, done)
