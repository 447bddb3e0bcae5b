-- ===== src/Worker/Busy.antt =====
-- stm32h563/src/hw_worker.c: a connection's slot is busy only while a teardown of it waits.
pub mod Kinds
use benchpod_firmware.Worker.{
  Work, bytes, console, cloud, closed, tunnel_reset, ota_begin, ota_data, ota_end, ota_abort,
  ota_commit, esp_flash, Pend, Worker, update, any, Kind, close_conn, reset_tunnel, bit, submit,
  pend_ids, teardown, with_bit, submit_bytes, submit_teardown, data_max, submit_console,
  submit_cloud, submit_ota_begin, submit_ota_data, submit_ota_end, submit_ota_abort,
  submit_ota_commit, submit_esp_flash, take_cloud_reply, owner_cloud, id_max, teardown_done,
}
use benchpod_firmware.Worker.Step.{
  Answers, Call, handle_work, receive, receive_from, apply_parked, retry_flash, apply_bit,
  apply_one, apply_below, unpark,
}
use benchpod_firmware.Worker.Fifo.{
  Item, torn, only, item_of, call_of, queued, called, behind, todo, called-handle_work,
  called-apply_bit,
}
use benchpod_firmware.Worker.Trace.{
  Event, bytes_in, teardown_in, cloud_in, console_in, begin_in, data_in, end_in, abort_in,
  commit_in, flash_in, reply_taken, received, parked_applied, flash_retried, step, taken_in, Proper,
  Lone,
}
use benchpod_firmware.Worker.Order.Step.{step-todo}
use benchpod_firmware.Base.{
  ℕ, zero, suc, ◌-◌, ◌<◌, ◌≡◌, refl, sym, ap, ◌⊎◌, inl, inr, true, false, not, ◌&&◌, List, [], ◌∷◌,
  ◌++◌, arith, ltb, ◌==◌, if◌then◌else◌, Bool-cases, length, take, Bytes, codes,
}
use benchpod_firmware.Worker.Busy.Kinds.{
  has, has-append, bit-cleared, bit-with_bit, same_kind_eq, submit-inflight, has-behind, or-true,
  has_self, has-left,
}

module _ (id : ℕ) (lt : id < pend_ids) (k : Kind) where
  -- A teardown that is on its way is one that waits.
  abbrev pub Tracked : Worker → Type 0
  Tracked s = bit k (s.inflight id) ≡ true → has k (todo id s) ≡ true

  -- From `s`, with these calls made: where the bit is still set, it was, and none of them was its.
  abbrev Clear : Worker → List Call × Worker → Type 0
  Clear s r =
      bit k (r.1.inflight id) ≡ true
      → (has k (called id r.0) ≡ false) × (bit k (s.inflight id) ≡ true)

  done-inflight :
      (j : Kind) (conn : ℕ) (s : Worker)
      → (teardown_done j conn s).inflight id
        ≡ (if conn == id then with_bit j false (s.inflight id) else s.inflight id)
  unfolding teardown_done
  done-inflight j conn s = elim (Bool-cases (conn == id)) [
    | inl c ↦
        let same : conn ≡ id = ground arith in
        let tracked : ltb id pend_ids ≡ true = ground arith in
        rw (same, tracked)
          (ap (λ b. if b then with_bit j false (s.inflight id) else s.inflight id) refl)
    | inr c ↦ elim (Bool-cases (ltb conn pend_ids)) [
      | inl g ↦ rw (g, c) refl
      | inr g ↦ rw (g, c) refl
    ]
  ]

  done-Clear :
      (j : Kind) (conn : ℕ) (s : Worker)
      → bit k ((teardown_done j conn s).inflight id) ≡ true
      → (has k (only id conn (torn j)) ≡ false) × (bit k (s.inflight id) ≡ true)
  unfolding has
  done-Clear j conn s h = elim (Bool-cases (conn == id)) [
    | inl c ↦
        let (other, before) =
          bit-cleared k j (s.inflight id) (rw (done-inflight j conn s, c) at h) in
        (rw (c, other) refl, before)
    | inr c ↦ (rw c refl, rw (done-inflight j conn s, c) at h)
  ]

  done-Clear_called :
      (j : Kind) (conn : ℕ) (cs : List Item) (s : Worker)
      → cs ≡ only id conn (torn j)
      → bit k ((teardown_done j conn s).inflight id) ≡ true
      → (has k cs ≡ false) × (bit k (s.inflight id) ≡ true)
  done-Clear_called j conn cs s e h = rw e (done-Clear j conn s h)

  handle-Clear : (a : Answers) (w : Work) (s : Worker) → Clear s (handle_work a w s)
  unfolding handle_work item_of has
  handle-Clear a (closed conn) s h =
      done-Clear_called close_conn conn _ s ((called-handle_work id a (closed conn) s).0) h
  handle-Clear a (tunnel_reset conn) s h =
      done-Clear_called reset_tunnel conn _ s ((called-handle_work id a (tunnel_reset conn) s).0) h
  handle-Clear a (bytes conn body) s h =
      (rw ((called-handle_work id a (bytes conn body) s).0) (ground arith), h)
  handle-Clear a (console line) s h = (rw ((called-handle_work id a (console line) s).0) refl, h)
  handle-Clear a (cloud req_id json) s h =
      (rw ((called-handle_work id a (cloud req_id json) s).0) refl, h)
  handle-Clear a (ota_begin owner size args) s h =
      (rw ((called-handle_work id a (ota_begin owner size args) s).0) refl, h)
  handle-Clear a (ota_data owner offset body) s h =
      (rw ((called-handle_work id a (ota_data owner offset body) s).0) refl, h)
  handle-Clear a (ota_end owner) s h = (rw ((called-handle_work id a (ota_end owner) s).0) refl, h)
  handle-Clear a (ota_abort owner) s h =
      (rw ((called-handle_work id a (ota_abort owner) s).0) refl, h)
  handle-Clear a (ota_commit owner) s h =
      (rw ((called-handle_work id a (ota_commit owner) s).0) refl, h)
  handle-Clear a esp_flash s h = (
    rw ((called-handle_work id a esp_flash s).0) refl,
    elim (Bool-cases a.heavy) [ inl b ↦ rw b at h | inr b ↦ rw b at h ],
  )

  bit-Clear :
      (j : Kind) (conn : ℕ) (p : Pend) (s : Worker) (r : List Call × Worker)
      → Clear s r
      → Clear s (apply_bit j conn p r)
  unfolding apply_bit
  bit-Clear j conn p s r clear h = elim (Bool-cases (bit j p)) [
    | inr b ↦ rw b (clear (rw b at h))
    | inl b ↦
        let (mine, before) = done-Clear j conn r.1 (rw b at h) in
        let (none_yet, was) = clear before in
        rw (called-apply_bit id j conn p r, has-append k (called id r.0) _, none_yet, b) (mine, was)
  ]

  below-Clear :
      (n : ℕ) (s : Worker) (r : List Call × Worker) → Clear s r → Clear s (apply_below n r)
  unfolding apply_below apply_one
  below-Clear zero s r clear = clear
  below-Clear (suc n) s r clear =
      let r' = apply_below n r in
      let p = r'.1.parked n in
      let u : List Call × Worker = (r'.0, unpark n r'.1) in
      bit-Clear reset_tunnel n p s (apply_bit close_conn n p u)
        (bit-Clear close_conn n p s u (below-Clear n s r clear))

  receive-Clear : (a : Answers) (ws : List Work) (s : Worker) → Clear s (receive_from a ws s)
  unfolding receive_from has called
  receive-Clear a [] s h = (refl, h)
  receive-Clear a (w ∷ ws) s h = handle-Clear a w (record s { q = ws }) h

  parked-Clear : (s : Worker) → Clear s (apply_parked s)
  unfolding apply_parked has called
  parked-Clear s = elim (Bool-cases (length s.q == 0)) [
    | inl e ↦ rw e (below-Clear pend_ids s ([], s) (λ h. (refl, h)))
    | inr e ↦ rw e (λ h. (refl, h))
  ]

  flash-Clear : (a : Answers) (s : Worker) → Clear s (retry_flash a s)
  unfolding retry_flash has called call_of
  flash-Clear a s = elim (Bool-cases (s.esp_flash_deferred && not a.heavy)) [
    | inl e ↦ rw e (λ h. (ground arith, h))
    | inr e ↦ rw e (λ h. (refl, h))
  ]

  -- What an event says of a bit that is set after it.
  abbrev Told : Event → Worker → List Call × Worker → Type 0
  Told e s r =
      bit k (r.1.inflight id) ≡ true
      → (has k (called id r.0) ≡ false)
        × ((bit k (s.inflight id) ≡ true) ⊎ (has k (todo id s ++ taken_in id e s) ≡ true))

  quiet-Told : (e : Event) (s s' : Worker) → s'.inflight ≡ s.inflight → Told e s ([], s')
  unfolding has called
  quiet-Told e s s' same h = (refl, inl (rw same at h))

  submit-Told : (e : Event) (w : Work) (s : Worker) → Told e s ([], (submit w s).1)
  submit-Told e w s = quiet-Told e s (submit w s).1 (submit-inflight w s)

  Clear-Told : (e : Event) (s : Worker) (r : List Call × Worker) → Clear s r → Told e s r
  Clear-Told e s r clear h = let (none_yet, was) = clear h in (none_yet, inl was)

  has-todo_taken :
      (s : Worker) (conn : ℕ)
      → conn ≡ id
      → has k (todo id s ++ taken_in id (teardown_in k conn) s) ≡ true
  unfolding todo taken_in
  has-todo_taken s conn same = elim (Bool-cases (bit k (s.parked id))) [
    | inl b ↦
        rw
          (
            same,
            b,
            has-append k (queued id s.q ++ behind (s.parked id)) [],
            has-append k (queued id s.q) (behind (s.parked id)),
            has-behind k (s.parked id) b,
          )
          (ground arith)
    | inr b ↦
        let self : (id == id) ≡ true = ground arith in
        rw (same, b, self, has-append k (queued id s.q ++ behind (s.parked id)) (torn k ∷ []))
          (or-true (has k (queued id s.q ++ behind (s.parked id))) (has k (torn k ∷ []))
            (has_self k))
  ]

  teardown-inflight :
      (j : Kind) (conn : ℕ) (s : Worker)
      → (submit_teardown j conn s).inflight id
        ≡ (if conn == id then with_bit j true (s.inflight conn) else s.inflight id)
  unfolding submit_teardown
  teardown-inflight j conn s =
      let s' : Worker = record s {
        inflight = update conn (with_bit j true (s.inflight conn)) s.inflight;
      } in
      elim (Bool-cases (ltb conn pend_ids)) [
        | inr g ↦
            let other : (conn == id) ≡ false = ground arith in
            rw (g, other, submit-inflight (teardown j conn) s) refl
        | inl g ↦ elim (Bool-cases (not (any (s.parked conn)) && (submit (teardown j conn) s').0)) [
          | inl a ↦ rw (g, a, submit-inflight (teardown j conn) s') refl
          | inr a ↦ rw (g, a) refl
        ]
      ]

  teardown-Told :
      (j : Kind) (conn : ℕ) (s : Worker)
      → Told (teardown_in j conn) s ([], submit_teardown j conn s)
  unfolding has called
  teardown-Told j conn s h = elim (Bool-cases (conn == id)) [
    | inr c ↦ (refl, inl (rw (teardown-inflight j conn s, c) at h))
    | inl c ↦
        let same : conn ≡ id = ground arith in
        (
          refl,
          elim (bit-with_bit k j (s.inflight conn) (rw (teardown-inflight j conn s, c) at h)) [
            | inl b ↦ inl (rw (sym same) b)
            | inr m ↦ inr (rw (sym (same_kind_eq k j m)) (has-todo_taken s conn same))
          ],
        )
  ]

  step-Told : (digits : ℕ → Bytes) (e : Event) (s : Worker) → Told e s (step digits e s)
  unfolding step submit_bytes submit_cloud submit_console submit_ota_begin submit_ota_data
      submit_ota_end submit_ota_abort submit_ota_commit submit_esp_flash take_cloud_reply receive
  step-Told digits (teardown_in j conn) s = teardown-Told j conn s
  step-Told digits (bytes_in conn body) s =
      quiet-Told (bytes_in conn body) s (submit_bytes conn body s).1
        (ground (arith, submit-inflight (bytes conn (take data_max body)) s))
  step-Told digits (cloud_in req_id json) s =
      quiet-Told (cloud_in req_id json) s (submit_cloud req_id json s).1
        (ground (arith, submit-inflight (cloud (take (id_max - 1) req_id) (take data_max json)) s))
  step-Told digits (console_in line) s =
      submit-Told (console_in line) (console (take data_max line)) s
  step-Told digits (begin_in size sha target version sig) s =
      let name = if length target == 0 then codes "firmware" else target in
      let arg = sha ++ (32 ∷ (name ++ (32 ∷ (digits version ++ (32 ∷ sig))))) in
      quiet-Told (begin_in size sha target version sig) s
        (submit_ota_begin digits size sha target version sig s).1
        (ground (arith, submit-inflight (ota_begin owner_cloud size arg) s))
  step-Told digits (data_in owner offset body) s =
      submit-Told (data_in owner offset body) (ota_data owner offset (take data_max body)) s
  step-Told digits end_in s = submit-Told end_in (ota_end owner_cloud) s
  step-Told digits abort_in s = submit-Told abort_in (ota_abort owner_cloud) s
  step-Told digits commit_in s = submit-Told commit_in (ota_commit owner_cloud) s
  step-Told digits flash_in s = submit-Told flash_in esp_flash s
  step-Told digits (reply_taken id_cap reply_cap) s =
      quiet-Told (reply_taken id_cap reply_cap) s (take_cloud_reply id_cap reply_cap s).1
        (ground arith)
  step-Told digits (received a) s =
      Clear-Told (received a) s (receive_from a s.q s) (receive-Clear a s.q s)
  step-Told digits parked_applied s = Clear-Told parked_applied s (apply_parked s) (parked-Clear s)
  step-Told digits (flash_retried a) s =
      Clear-Told (flash_retried a) s (retry_flash a s) (flash-Clear a s)

  -- A bit is set only while a teardown waits: kept by every step.
  pub step-Tracked :
      (digits : ℕ → Bytes) (j : Kind) (e : Event) (s : Worker)
      → Proper id j e
      → Lone j (s.parked id)
      → Tracked s
      → Tracked (step digits e s).1
  step-Tracked digits j e s pr lone tracked h =
      let (none_yet, why) = step-Told digits e s h in
      let split = has-append k (called id (step digits e s).0) (todo id (step digits e s).1) in
      let same = ap (has k) (step-todo id digits j e s lt pr lone) in
      let there : has k (todo id s ++ taken_in id e s) ≡ true = elim why [
        | inl b ↦ has-left k (todo id s) (taken_in id e s) (tracked b)
        | inr t ↦ t
      ] in
      ground (arith, split, same, there, none_yet)
