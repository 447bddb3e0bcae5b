-- ===== src/Access/Lease/Deadline.antt =====
-- How long a lease can keep the LAN out, and what its label holds.
use benchpod_firmware.Base.{
  ℕ, zero, suc, ◌+◌, ◌-◌, ◌*◌, ◌/◌, ◌^◌, ◌≤◌, ◌<◌, ◌≡◌, ◌≢◌, min, Bool, true, false, not, ◌||◌, [],
  ◌∷◌, ltb, ◌==◌, if◌then◌else◌, Bytes, add32, arith, length, All, Bool-cases, inl, inr,
}
use benchpod_firmware.Access.Lease.{
  Lease, holder_max, max_s, label_char, label, clear, update, expire, active,
}

-- The time for which an announced lease is in force.
abbrev pub term_ms : ℕ → ℕ
term_ms expires_in_s = min expires_in_s max_s * 1000

-- At any time less than 2 ^ 31 ms after it was announced, for at least a second, a lease is in force exactly until its
-- announced end, but never longer than 600 s, and the seconds left are rounded up.
pub active-update :
    (holder : Bytes) (expires_in_s now_ms t : ℕ) (s : Lease)
    → 0 < expires_in_s
    → now_ms < 2 ^ 32
    → t < 2 ^ 31
    → active (update true holder expires_in_s now_ms s) (add32 now_ms t) ≡ (
        if ltb t (term_ms expires_in_s)
        then (true, (term_ms expires_in_s - t + 999) / 1000)
        else (false, 0))
unfolding active update
active-update holder e now t s he hn ht = ground arith

-- `lease_gate_expire` at a poll changes neither whether a lease is in force then nor what is left.
pub active-expire : (s : Lease) (now_ms : ℕ) → active (expire now_ms s) now_ms ≡ active s now_ms
unfolding active expire clear
active-expire s now = ground arith

-- A poll at which no lease is in force forgets it for good: it is in force at no later time, the
-- clock's wrap-around included, until the server announces one.
pub expire_forgets :
    (s : Lease) (now_ms later_ms : ℕ)
    → (active s now_ms).0 ≡ false
    → active (expire now_ms s) later_ms ≡ (false, 0)
unfolding active expire clear
expire_forgets s now later h = ground arith

-- A character that needs no escape in a JSON string or a log line.
pub record IsSafe (c : ℕ) : Type 0 where
  pub printable : (0x20 ≤ c) × (c < 0x7f)
  pub no_quote : c ≢ b'"'
  pub no_backslash : c ≢ b'\\'

label_char-IsSafe : (c : ℕ) → IsSafe (label_char c)
unfolding label_char
label_char-IsSafe c = ground arith

label-IsSafe : (k : ℕ) (h : Bytes) → All IsSafe (label k h) × (length (label k h) ≤ k)
unfolding label
label-IsSafe zero h = (tt, omega arith)
label-IsSafe (suc k) [] = (tt, omega arith)
label-IsSafe (suc k) (c ∷ h) =
    let (safe, short) = label-IsSafe k h in ((label_char-IsSafe c, safe), omega arith)

-- Whatever label the server sends, what is kept has at most 40 characters, all of them safe.
pub holder-IsSafe :
    (held : Bool) (holder : Bytes) (expires_in_s now_ms : ℕ) (s : Lease)
    → All IsSafe (update held holder expires_in_s now_ms s).holder
      × (length (update held holder expires_in_s now_ms s).holder ≤ holder_max)
unfolding update clear
holder-IsSafe held holder e now s = elim (Bool-cases (not held || e == 0)) [
  | inl off ↦ rw off (tt, omega arith)
  | inr on ↦ rw on (label-IsSafe holder_max holder)
]
