-- ===== src/Worker/Order/Step.antt =====
-- stm32h563/src/hw_worker.c: what one step does to what waits for a connection.
use mathlib.Core.List.{append_assoc, append-nil}
use benchpod_firmware.Worker.{
  Work, bytes, console, cloud, ota_begin, ota_data, ota_end, ota_abort, ota_commit, esp_flash, Pend,
  Worker, update, any, Kind, close_conn, reset_tunnel, bit, submit, pend_ids, queue_depth, teardown,
  with_bit, submit_bytes, submit_teardown, data_max, submit_console, submit_cloud, submit_ota_begin,
  submit_ota_data, submit_ota_end, submit_ota_abort, submit_ota_commit, submit_esp_flash,
  take_cloud_reply, owner_cloud, id_max,
}
use benchpod_firmware.Worker.Step.{Answers, retry_flash}
use benchpod_firmware.Worker.Fifo.{
  if-same, Item, torn, only, item_of, call_of, queued, called, behind, when, todo, queued-append,
  receive-todo, apply_parked-todo,
}
use benchpod_firmware.Base.{
  ℕ, ◌-◌, ◌<◌, ◌≡◌, refl, sym, ap, ◌∙◌, ◌⊎◌, inl, inr, true, false, ◌&&◌, ◌||◌, List, [], ◌∷◌, ◌++◌,
  arith, ltb, leb, ◌==◌, if◌then◌else◌, Bool-cases, length, take, Bytes, codes,
}
use benchpod_firmware.Worker.Trace.{
  Event, bytes_in, teardown_in, cloud_in, console_in, begin_in, data_in, end_in, abort_in,
  commit_in, flash_in, reply_taken, received, parked_applied, flash_retried, step, taken_in, Proper,
  Lone,
}

pub submit-cases :
    (w : Work) (s : Worker)
    → (submit w s ≡ (true, record s { q = s.q ++ (w ∷ []) })) ⊎ (submit w s ≡ (false, s))
unfolding submit
submit-cases w s = elim (Bool-cases (s.created && ltb (length s.q) queue_depth)) [
  | inl e ↦ inl (rw e refl)
  | inr e ↦ inr (rw e refl)
]

bit-any : (k : Kind) (p : Pend) → any p ≡ false → bit k p ≡ false
bit-any close_conn p h = ground arith
bit-any reset_tunnel p h = ground arith

pub behind-none : (p : Pend) → any p ≡ false → behind p ≡ []
unfolding behind when
behind-none p h = ground arith

behind-with_bit :
    (k : Kind) (p : Pend)
    → Lone k p
    → behind (with_bit k true p) ≡ behind p ++ (if bit k p then [] else torn k ∷ [])
unfolding behind when
behind-with_bit close_conn p h = ground arith
behind-with_bit reset_tunnel p h = ground arith

module _ (id : ℕ) where
  pub queued-snoc :
      (ws : List Work) (w : Work) → queued id (ws ++ (w ∷ [])) ≡ queued id ws ++ item_of id w
  unfolding queued
  queued-snoc ws w =
      queued-append id ws (w ∷ []) ∙ ap (λ l. queued id ws ++ l) (append-nil (item_of id w))

  pub item_of-teardown :
      (k : Kind) (conn : ℕ) → item_of id (teardown k conn) ≡ only id conn (torn k)
  unfolding item_of
  item_of-teardown close_conn conn = refl
  item_of-teardown reset_tunnel conn = refl

  submit-other : (w : Work) (s : Worker) → item_of id w ≡ [] → todo id (submit w s).1 ≡ todo id s
  unfolding todo
  submit-other w s h = elim (submit-cases w s) [
    | inl e ↦ rw e (
        ap (λ l. l ++ behind (s.parked id))
          (queued-snoc s.q w ∙ ap (λ l. queued id s.q ++ l) h ∙ append-nil (queued id s.q)))
    | inr e ↦ rw e refl
  ]

  -- An item of the connection's that is sent where none of its teardowns are parked.
  snoc-todo :
      (w : Work) (s : Worker)
      → (item_of id w ≡ []) ⊎ (any (s.parked id) ≡ false)
      → queued id (s.q ++ (w ∷ [])) ++ behind (s.parked id) ≡ todo id s ++ item_of id w
  unfolding todo
  snoc-todo w s (inl h) = rw (queued-snoc s.q w, h) (simp append-nil)
  snoc-todo w s (inr h) = rw (queued-snoc s.q w, behind-none (s.parked id) h) (simp append-nil)

  bytes-todo :
      (conn : ℕ) (body : Bytes) (s : Worker)
      → id < pend_ids
      → todo id (submit_bytes conn body s).1 ≡ todo id s ++ taken_in id (bytes_in conn body) s
  unfolding taken_in submit_bytes todo item_of
  bytes-todo conn body s lt = elim (Bool-cases (ltb conn pend_ids && any (s.parked conn))) [
    | inl g ↦ rw g (sym (append-nil (todo id s)))
    | inr g ↦ elim (submit-cases (bytes conn (take data_max body)) s) [
      | inl e ↦
          rw (g, e)
            (snoc-todo (bytes conn (take data_max body)) s (elim (Bool-cases (conn == id)) [
              | inl c ↦ inr (ground arith)
              | inr c ↦ inl (rw c refl)
            ]))
      | inr e ↦ rw (g, e) (sym (append-nil (todo id s)))
    ]
  ]

  park-todo :
      (k j : Kind) (conn : ℕ) (l : List Item) (parked : ℕ → Pend)
      → Lone k (parked id)
      → (conn ≡ id → j ≡ k)
      → l ++ behind (update conn (with_bit j true (parked conn)) parked id)
        ≡ (l ++ behind (parked id)) ++ (if bit j (parked conn) then [] else only id conn (torn j))
  park-todo k j conn l parked lone proper = elim (Bool-cases (conn == id)) [
    | inl c ↦
        let same : conn ≡ id = ground arith in
        let kind : j ≡ k = proper same in
        rw (c, same, kind)
          (ap (λ b. l ++ b) (behind-with_bit k (parked id) lone)
            ∙ sym (
                append_assoc l (behind (parked id))
                  (if bit k (parked id) then [] else torn k ∷ [])))
    | inr c ↦ rw c (simp (if-same, append-nil))
  ]

  teardown-todo :
      (k j : Kind) (conn : ℕ) (s : Worker)
      → id < pend_ids
      → Lone k (s.parked id)
      → (conn ≡ id → j ≡ k)
      → todo id (submit_teardown j conn s) ≡ todo id s ++ taken_in id (teardown_in j conn) s
  unfolding taken_in submit_teardown todo
  teardown-todo k j conn s lt lone proper =
      let w = teardown j conn in
      let s' : Worker = record s {
        inflight = update conn (with_bit j true (s.inflight conn)) s.inflight;
      } in
      let kept = park-todo k j conn (queued id s.q) s.parked lone proper in
      elim (Bool-cases (ltb conn pend_ids)) [
        | inr g ↦
            let other : (conn == id) ≡ false = ground arith in
            rw (g, other)
              (submit-other w s (item_of-teardown j conn ∙ rw other refl)
                ∙ (sym (append-nil (todo id s))
                    ∙ ap (λ l. todo id s ++ l) (sym (if-same (bit j (s.parked conn)) []))))
        | inl g ↦ elim (Bool-cases (any (s.parked conn))) [
          | inl a ↦ rw (g, a) kept
          | inr a ↦ elim (submit-cases w s') [
            | inl e ↦
                rw (g, a, e, bit-any j (s.parked conn) a)
                  (snoc-todo w s (elim (Bool-cases (conn == id)) [
                    | inl c ↦ inr (ground arith)
                    | inr c ↦ inl (item_of-teardown j conn ∙ rw c refl)
                  ])
                    ∙ ap (λ l. todo id s ++ l) (item_of-teardown j conn))
            | inr e ↦ rw (g, a, e) kept
          ]
        ]
      ]

  submit_cloud-todo :
      (req_id json : Bytes) (s : Worker) → todo id (submit_cloud req_id json s).1 ≡ todo id s
  unfolding submit_cloud todo item_of
  submit_cloud-todo req_id json s = elim (Bool-cases (s.cloud_pending || s.cloud_ready)) [
    | inl g ↦ rw g refl
    | inr g ↦ rw g (submit-other (cloud (take (id_max - 1) req_id) (take data_max json)) s refl)
  ]

  submit_ota_begin-todo :
      (digits : ℕ → Bytes) (size : ℕ) (sha target : Bytes) (version : ℕ) (sig : Bytes) (s : Worker)
      → todo id (submit_ota_begin digits size sha target version sig s).1 ≡ todo id s
  unfolding submit_ota_begin item_of
  submit_ota_begin-todo digits size sha target version sig s =
      let name = if length target == 0 then codes "firmware" else target in
      let arg = sha ++ (32 ∷ (name ++ (32 ∷ (digits version ++ (32 ∷ sig))))) in
      elim (Bool-cases (leb 320 (length arg))) [
        | inl g ↦ rw g refl
        | inr g ↦ rw g (submit-other (ota_begin owner_cloud size arg) s refl)
      ]

  -- A submission that is none of the connection's.
  other-todo :
      (w : Work) (s : Worker) → item_of id w ≡ [] → todo id (submit w s).1 ≡ todo id s ++ []
  other-todo w s h = submit-other w s h ∙ sym (append-nil (todo id s))

  take_cloud_reply-todo :
      (id_cap reply_cap : ℕ) (s : Worker)
      → todo id (take_cloud_reply id_cap reply_cap s).1 ≡ todo id s
  unfolding take_cloud_reply todo
  take_cloud_reply-todo id_cap reply_cap s = ground arith

  retry_flash-todo :
      (a : Answers) (s : Worker)
      → called id (retry_flash a s).0 ++ todo id (retry_flash a s).1 ≡ todo id s
  unfolding retry_flash todo called call_of
  retry_flash-todo a s = ground arith

  -- One step.
  pub step-todo :
      (digits : ℕ → Bytes) (k : Kind) (e : Event) (s : Worker)
      → id < pend_ids
      → Proper id k e
      → Lone k (s.parked id)
      → called id (step digits e s).0 ++ todo id (step digits e s).1 ≡ todo id s ++ taken_in id e s
  unfolding step taken_in called item_of submit_console submit_ota_data submit_ota_end
      submit_ota_abort submit_ota_commit submit_esp_flash
  step-todo digits k (bytes_in conn body) s lt pr lone = bytes-todo conn body s lt
  step-todo digits k (teardown_in j conn) s lt pr lone = teardown-todo k j conn s lt lone pr
  step-todo digits k (cloud_in req_id json) s lt pr lone =
      submit_cloud-todo req_id json s ∙ sym (append-nil (todo id s))
  step-todo digits k (console_in line) s lt pr lone =
      other-todo (console (take data_max line)) s refl
  step-todo digits k (begin_in size sha target version sig) s lt pr lone =
      submit_ota_begin-todo digits size sha target version sig s ∙ sym (append-nil (todo id s))
  step-todo digits k (data_in owner offset body) s lt pr lone =
      other-todo (ota_data owner offset (take data_max body)) s refl
  step-todo digits k end_in s lt pr lone = other-todo (ota_end owner_cloud) s refl
  step-todo digits k abort_in s lt pr lone = other-todo (ota_abort owner_cloud) s refl
  step-todo digits k commit_in s lt pr lone = other-todo (ota_commit owner_cloud) s refl
  step-todo digits k flash_in s lt pr lone = other-todo esp_flash s refl
  step-todo digits k (reply_taken id_cap reply_cap) s lt pr lone =
      take_cloud_reply-todo id_cap reply_cap s ∙ sym (append-nil (todo id s))
  step-todo digits k (received a) s lt pr lone = receive-todo id a s ∙ sym (append-nil (todo id s))
  step-todo digits k parked_applied s lt pr lone =
      apply_parked-todo id s ∙ sym (append-nil (todo id s))
  step-todo digits k (flash_retried a) s lt pr lone =
      retry_flash-todo a s ∙ sym (append-nil (todo id s))
