-- ===== src/Worker/Order.antt =====
-- stm32h563/src/hw_worker.c: which teardowns are parked for a connection, step by step.
pub mod Step
use benchpod_firmware.Worker.{
  Work, bytes, console, cloud, ota_begin, ota_data, ota_end, ota_abort, ota_commit, esp_flash, Pend,
  Worker, no_pend, update, any, Kind, close_conn, reset_tunnel, submit, pend_ids, teardown,
  with_bit, submit_bytes, submit_teardown, data_max, submit_console, submit_cloud, submit_ota_begin,
  submit_ota_data, submit_ota_end, submit_ota_abort, submit_ota_commit, submit_esp_flash,
  take_cloud_reply, owner_cloud, id_max,
}
use benchpod_firmware.Worker.Step.{
  receive_from, apply_below, Answers, Call, receive, apply_parked, retry_flash,
}
use benchpod_firmware.Worker.Fifo.{called-handle_work, apply_one-q}
use benchpod_firmware.Base.{
  ℕ, zero, suc, ◌-◌, ◌≡◌, refl, ap, ◌⊎◌, inl, inr, true, not, ◌&&◌, List, [], ◌∷◌, ◌++◌, arith, ltb,
  ◌==◌, if◌then◌else◌, Bool-cases, length, take, Bytes, codes,
}
use benchpod_firmware.Worker.Trace.{
  Event, bytes_in, teardown_in, cloud_in, console_in, begin_in, data_in, end_in, abort_in,
  commit_in, flash_in, reply_taken, received, parked_applied, flash_retried, step, Proper, Lone,
}

Lone-with_bit : (k : Kind) (p : Pend) → Lone k p → Lone k (with_bit k true p)
Lone-with_bit close_conn p h = h
Lone-with_bit reset_tunnel p h = h

Lone-none : (k : Kind) → Lone k no_pend
Lone-none close_conn = refl
Lone-none reset_tunnel = refl

pub submit-parked : (w : Work) (s : Worker) → (submit w s).1.parked ≡ s.parked
unfolding submit
submit-parked w s = ground arith

module _ (id : ℕ) where
  Lone-park :
      (k j : Kind) (conn : ℕ) (parked : ℕ → Pend)
      → (conn ≡ id → j ≡ k)
      → Lone k (parked id)
      → Lone k (update conn (with_bit j true (parked conn)) parked id)
  Lone-park k j conn parked proper lone = elim (Bool-cases (conn == id)) [
    | inl c ↦
        let same : conn ≡ id = ground arith in
        rw (c, same, proper same) (Lone-with_bit k (parked id) lone)
    | inr c ↦ rw c lone
  ]

  Lone-teardown :
      (k j : Kind) (conn : ℕ) (s : Worker)
      → (conn ≡ id → j ≡ k)
      → Lone k (s.parked id)
      → Lone k ((submit_teardown j conn s).parked id)
  unfolding submit_teardown
  Lone-teardown k j conn s proper lone =
      let s' : Worker = record s {
        inflight = update conn (with_bit j true (s.inflight conn)) s.inflight;
      } in
      elim (Bool-cases (ltb conn pend_ids)) [
        | inr g ↦ rw (g, submit-parked (teardown j conn) s) lone
        | inl g ↦ elim (Bool-cases (not (any (s.parked conn)) && (submit (teardown j conn) s').0)) [
          | inl a ↦ rw (g, a, submit-parked (teardown j conn) s') lone
          | inr a ↦ rw (g, a) (Lone-park k j conn s.parked proper lone)
        ]
      ]

  -- Of the other steps, one leaves the connection's bits or clears them.
  abbrev pub Fewer : Worker → Worker → Type 0
  Fewer s s' = (s'.parked id ≡ s.parked id) ⊎ (s'.parked id ≡ no_pend)

  pub Fewer-apply_below : (n : ℕ) (r : List Call × Worker) → Fewer r.1 (apply_below n r).1
  unfolding apply_below
  Fewer-apply_below zero r = inl refl
  Fewer-apply_below (suc n) r =
      rw ((apply_one-q id n (apply_below n r)).1) (elim (Bool-cases (n == id)) [
        | inl c ↦ rw c (inr refl)
        | inr c ↦ rw c (Fewer-apply_below n r)
      ])

  pub Fewer-receive_from :
      (a : Answers) (ws : List Work) (s : Worker) → Fewer s (receive_from a ws s).1
  unfolding receive_from
  Fewer-receive_from a [] s = inl refl
  Fewer-receive_from a (w ∷ ws) s =
      inl (ap (λ (f : ℕ → Pend). f id) ((called-handle_work id a w (record s { q = ws })).2))

  pub Fewer-apply_parked : (s : Worker) → Fewer s (apply_parked s).1
  unfolding apply_parked
  Fewer-apply_parked s = elim (Bool-cases (length s.q == 0)) [
    | inl e ↦ rw e (Fewer-apply_below pend_ids ([], s))
    | inr e ↦ rw e (inl refl)
  ]

  pub Lone-Fewer :
      (k : Kind) (s s' : Worker) → Fewer s s' → Lone k (s.parked id) → Lone k (s'.parked id)
  Lone-Fewer k s s' (inl e) lone = rw e lone
  Lone-Fewer k s s' (inr e) lone = rw e (Lone-none k)

  pub Lone-step :
      (digits : ℕ → Bytes) (k : Kind) (e : Event) (s : Worker)
      → Proper id k e
      → Lone k (s.parked id)
      → Lone k ((step digits e s).1.parked id)
  unfolding step submit_bytes submit_cloud submit_console submit_ota_begin submit_ota_data
      submit_ota_end submit_ota_abort submit_ota_commit submit_esp_flash take_cloud_reply
      retry_flash receive
  Lone-step digits k (teardown_in j conn) s pr lone = Lone-teardown k j conn s pr lone
  Lone-step digits k (bytes_in conn body) s pr lone =
      Lone-Fewer k s (submit_bytes conn body s).1
        (inl (ground (arith, submit-parked (bytes conn (take data_max body)) s))) lone
  Lone-step digits k (cloud_in req_id json) s pr lone =
      Lone-Fewer k s (submit_cloud req_id json s).1
        (inl
          (ground (arith, submit-parked (cloud (take (id_max - 1) req_id) (take data_max json)) s)))
        lone
  Lone-step digits k (console_in line) s pr lone =
      rw (submit-parked (console (take data_max line)) s) lone
  Lone-step digits k (begin_in size sha target version sig) s pr lone =
      let name = if length target == 0 then codes "firmware" else target in
      let arg = sha ++ (32 ∷ (name ++ (32 ∷ (digits version ++ (32 ∷ sig))))) in
      Lone-Fewer k s (submit_ota_begin digits size sha target version sig s).1
        (inl (ground (arith, submit-parked (ota_begin owner_cloud size arg) s))) lone
  Lone-step digits k (data_in owner offset body) s pr lone =
      rw (submit-parked (ota_data owner offset (take data_max body)) s) lone
  Lone-step digits k end_in s pr lone = rw (submit-parked (ota_end owner_cloud) s) lone
  Lone-step digits k abort_in s pr lone = rw (submit-parked (ota_abort owner_cloud) s) lone
  Lone-step digits k commit_in s pr lone = rw (submit-parked (ota_commit owner_cloud) s) lone
  Lone-step digits k flash_in s pr lone = rw (submit-parked esp_flash s) lone
  Lone-step digits k (reply_taken id_cap reply_cap) s pr lone =
      Lone-Fewer k s (take_cloud_reply id_cap reply_cap s).1 (inl (ground arith)) lone
  Lone-step digits k (received a) s pr lone =
      Lone-Fewer k s (receive_from a s.q s).1 (Fewer-receive_from a s.q s) lone
  Lone-step digits k parked_applied s pr lone =
      Lone-Fewer k s (apply_parked s).1 (Fewer-apply_parked s) lone
  Lone-step digits k (flash_retried a) s pr lone =
      Lone-Fewer k s (retry_flash a s).1 (inl (ground arith)) lone
