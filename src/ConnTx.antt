-- ===== src/ConnTx.antt =====
-- stm32h563/src/conn_tx.c: the byte rings between the worker task (the producer) and the net task
-- (the consumer). `x & CONN_TX_MASK` is `x % ring_size`, since the size is a power of two. A
-- position in `buf` stands for the pointer into it that `conn_tx_peek` hands out.
pub mod Queue
pub mod Drain
pub mod Refine
pub mod Slots
pub mod Stream
mod Tests
use benchpod_firmware.Base.{
  ℕ, ◌+◌, ◌-◌, ◌%◌, ◌^◌, Option, none, some, List, [], ◌∷◌, ltb, leb, ◌==◌, if◌then◌else◌, ◌&&◌,
  length, get_or, set, add16, sub16, sub32, Option-cases,
}
use benchpod_firmware.Base.Int.{ℤ, pos, negsuc}

abbrev pub ring_size : ℕ
ring_size = 2048

abbrev pub ring_mask : ℕ
ring_mask = 2047

abbrev pub tcp_slots : ℕ
tcp_slots = 5

-- CH_CLOUD_TUNNEL_CONN, CH_CLOUD_TUNNEL_CONN_COUNT and CH_CLOUD_TUNNEL_CONN_LAST.
abbrev pub tunnel_conn : ℕ
tunnel_conn = 7

abbrev pub tunnel_count : ℕ
tunnel_count = 3

abbrev pub tunnel_last : ℕ
tunnel_last = tunnel_conn + tunnel_count - 1

abbrev pub slots : ℕ
slots = tcp_slots + tunnel_count

-- `ring_t`: `head` and `tail` are free-running 16-bit counters.
pub record Ring : Type 0 where
  pub head : ℕ
  pub tail : ℕ
  pub buf : List ℕ

-- `conn_tx_slot`; `none` is -1.
pub slot : ℤ → Option ℕ
slot (negsuc n) = none
slot (pos id) =
    if ltb id tcp_slots
    then some id
    else if leb tunnel_conn id && leb id tunnel_last
    then some (tcp_slots + (id - tunnel_conn))
    else none

-- `(uint16_t)(r->head - r->tail)`.
abbrev pub ring_used : Ring → ℕ
ring_used r = sub16 r.head r.tail

-- One slot is kept spare. The subtraction is one of `unsigned int`.
abbrev pub ring_free : Ring → ℕ
ring_free r = sub32 ring_mask (ring_used r)

-- The copying loop of `conn_tx_write`, from position `p` on.
pub copy : List ℕ → ℕ → List ℕ → List ℕ
copy buf p [] = buf
copy buf p (x ∷ xs) = copy (set buf (p % ring_size) x) (p + 1) xs

pub ring_write : Ring → List ℕ → ℕ × Ring
ring_write r src =
    if ltb (ring_free r) (length src)
    then (0, r)
    else (length src, record r { head = add16 r.head (length src); buf = copy r.buf r.head src })

-- The length of the contiguous run, and where it starts in `buf`.
pub ring_peek : Ring → ℕ × ℕ
ring_peek r =
    let used = ring_used r in
    let tpos = r.tail % ring_size in
    let to_end = ring_size - tpos in
    if used == 0 then (0, 0) else ((if ltb used to_end then used else to_end), tpos)

pub ring_advance : Ring → ℕ → Ring
ring_advance r n = record r { tail = add16 r.tail n }

pub ring_reset : Ring → Ring
ring_reset r = record r { tail = r.head }

abbrev empty_ring : Ring
empty_ring = record { head = 0; tail = 0; buf = [] }

-- `s_rings` and `ring_of`: the rings of all connections; a connection with no slot has none.
abbrev pub Rings : Type 0
Rings = List Ring

abbrev pub ring_at : Rings → ℕ → Ring
ring_at rs s = get_or rs s empty_ring

pub used : Rings → ℤ → ℕ
unfolding slot
used rs id = elim (slot id) [ none ↦ 0 | some s ↦ ring_used (ring_at rs s) ]

pub free : Rings → ℤ → ℕ
unfolding slot
free rs id = elim (slot id) [ none ↦ 0 | some s ↦ ring_free (ring_at rs s) ]

pub write : Rings → ℤ → List ℕ → ℕ × Rings
write rs id src = elim (slot id) [
  | none ↦ (0, rs)
  | some s ↦ (let (n, r) = ring_write (ring_at rs s) src in (n, set rs s r))
]

pub peek : Rings → ℤ → ℕ × ℕ
peek rs id = elim (slot id) [ none ↦ (0, 0) | some s ↦ ring_peek (ring_at rs s) ]

pub advance : Rings → ℤ → ℕ → Rings
advance rs id n = elim (slot id) [ none ↦ rs | some s ↦ set rs s (ring_advance (ring_at rs s) n) ]

pub reset : Rings → ℤ → Rings
reset rs id = elim (slot id) [ none ↦ rs | some s ↦ set rs s (ring_reset (ring_at rs s)) ]
