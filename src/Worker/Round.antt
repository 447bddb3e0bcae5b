-- ===== src/Worker/Round.antt =====
-- stm32h563/src/hw_worker.c: one round of the worker's loop empties the queue and frees the slots.
use benchpod_firmware.Worker.{
  Work, bytes, console, cloud, ota_begin, ota_data, ota_end, ota_abort, ota_commit, esp_flash,
  Worker, no_pend, update, Kind, close_conn, reset_tunnel, bit, submit, pend_ids, teardown,
  with_bit, submit_bytes, submit_teardown, data_max, submit_console, submit_cloud, submit_ota_begin,
  submit_ota_data, submit_ota_end, submit_ota_abort, submit_ota_commit, submit_esp_flash,
  take_cloud_reply, owner_cloud, id_max, queue_depth, conn_busy,
}
use benchpod_firmware.Worker.Step.{
  Answers, Call, receive, receive_from, apply_parked, retry_flash, apply_below, batch, round,
}
use benchpod_firmware.Worker.Fifo.{
  queued, behind, when, todo, eq-nil, called-handle_work, apply_one-q, called-apply_below,
}
use benchpod_firmware.Worker.Trace.{
  Event, bytes_in, teardown_in, cloud_in, console_in, begin_in, data_in, end_in, abort_in,
  commit_in, flash_in, reply_taken, received, parked_applied, flash_retried, step, run, Proper,
  Lone,
}
use benchpod_firmware.Worker.Order.{Lone-step}
use benchpod_firmware.Worker.Busy.{Tracked, step-Tracked}
use benchpod_firmware.Worker.Busy.Kinds.{has}
use benchpod_firmware.Base.{
  ℕ, zero, suc, ◌-◌, ◌≤◌, ◌<◌, ◌≡◌, refl, ap, ◌∙◌, inl, inr, true, false, List, [], ◌∷◌, ◌++◌,
  arith, ◌==◌, if◌then◌else◌, Bool-cases, length, take, All, length-append, Bytes, codes,
}

-- The state after hw_worker_init.
abbrev pub fresh : Worker
fresh = record {
  created = true;
  q = [];
  inflight = λ id. no_pend;
  parked = λ id. no_pend;
  esp_flash_deferred = false;
  cloud_pending = false;
  cloud_ready = false;
  cloud_req_id = [];
  cloud_reply = [];
}

submit-bound :
    (w : Work) (s : Worker) → length s.q ≤ queue_depth → length (submit w s).1.q ≤ queue_depth
unfolding submit
submit-bound w s h = ground (arith, length-append s.q (w ∷ []))

receive_from-q :
    (a : Answers) (ws : List Work) (s : Worker)
    → length (receive_from a ws (record s { q = ws })).1.q ≡ length ws - 1
unfolding receive_from
receive_from-q a [] s = omega arith
receive_from-q a (w ∷ ws) s = rw ((called-handle_work 0 a w (record s { q = ws })).1) (omega arith)

receive-q : (a : Answers) (s : Worker) → length (receive a s).1.q ≡ length s.q - 1
unfolding receive
receive-q a s = receive_from-q a s.q s

apply_parked-q : (s : Worker) → (apply_parked s).1.q ≡ s.q
unfolding apply_parked
apply_parked-q s = elim (Bool-cases (length s.q == 0)) [
  | inl e ↦ rw e ((called-apply_below 0 pend_ids ([], s)).1)
  | inr e ↦ rw e refl
]

batch-q :
    (n : ℕ) (answer : ℕ → Answers) (r : List Call × Worker)
    → length (batch n answer r).1.q ≡ length r.1.q - n
unfolding batch
batch-q zero answer r = omega arith
batch-q (suc n) answer (cs, s) = omega (
  arith,
  batch-q n answer (cs ++ (receive (answer n) s).0, (receive (answer n) s).1),
  receive-q (answer n) s,
)

apply_below-none :
    (n : ℕ) (r : List Call × Worker) (id : ℕ) → id < n → (apply_below n r).1.parked id ≡ no_pend
unfolding apply_below
apply_below-none zero r id lt = elim lt [ ]
apply_below-none (suc n) r id lt =
    rw ((apply_one-q 0 n (apply_below n r)).1) (elim (Bool-cases (n == id)) [
      | inl c ↦ rw c refl
      | inr c ↦ rw c (apply_below-none n r id (ground arith))
    ])

parked-none :
    (s : Worker) (id : ℕ) → id < pend_ids → s.q ≡ [] → (apply_parked s).1.parked id ≡ no_pend
unfolding apply_parked
parked-none s id lt e =
    let none_left : (length s.q == 0) ≡ true = ap (λ l. length l == 0) e in
    rw none_left (apply_below-none pend_ids ([], s) id lt)

retry_flash-q : (a : Answers) (s : Worker) → (retry_flash a s).1.q ≡ s.q
unfolding retry_flash
retry_flash-q a s = ground arith

retry_flash-parked :
    (a : Answers) (s : Worker) (id : ℕ) → (retry_flash a s).1.parked id ≡ s.parked id
unfolding retry_flash
retry_flash-parked a s id = ground arith

-- The queue never holds more than it can.
step-bound :
    (digits : ℕ → Bytes) (e : Event) (s : Worker)
    → length s.q ≤ queue_depth
    → length (step digits e s).1.q ≤ queue_depth
unfolding step submit_bytes submit_cloud submit_console submit_ota_begin submit_ota_data
    submit_ota_end submit_ota_abort submit_ota_commit submit_esp_flash take_cloud_reply retry_flash
    submit_teardown
step-bound digits (bytes_in conn body) s h =
    ground (arith, submit-bound (bytes conn (take data_max body)) s)
step-bound digits (teardown_in j conn) s h = ground (
  arith,
  submit-bound (teardown j conn) s,
  submit-bound (teardown j conn)
      (record s { inflight = update conn (with_bit j true (s.inflight conn)) s.inflight }),
)
step-bound digits (cloud_in req_id json) s h =
    ground (arith, submit-bound (cloud (take (id_max - 1) req_id) (take data_max json)) s)
step-bound digits (console_in line) s h = submit-bound (console (take data_max line)) s h
step-bound digits (begin_in size sha target version sig) s h =
    let name = if length target == 0 then codes "firmware" else target in
    let arg = sha ++ (32 ∷ (name ++ (32 ∷ (digits version ++ (32 ∷ sig))))) in
    ground (arith, submit-bound (ota_begin owner_cloud size arg) s)
step-bound digits (data_in owner offset body) s h =
    submit-bound (ota_data owner offset (take data_max body)) s h
step-bound digits end_in s h = submit-bound (ota_end owner_cloud) s h
step-bound digits abort_in s h = submit-bound (ota_abort owner_cloud) s h
step-bound digits commit_in s h = submit-bound (ota_commit owner_cloud) s h
step-bound digits flash_in s h = submit-bound esp_flash s h
step-bound digits (reply_taken id_cap reply_cap) s h = ground arith
step-bound digits (received a) s h = omega (arith, receive-q a s)
step-bound digits parked_applied s h = rw (apply_parked-q s) h
step-bound digits (flash_retried a) s h = ground arith

module _ (id : ℕ) (lt : id < pend_ids) (k : Kind) where
  -- What holds of a worker that was started.
  pub record Sound (s : Worker) : Type 0 where
    pub bounded : length s.q ≤ queue_depth
    pub lone : Lone k (s.parked id)
    pub closing : Tracked id lt close_conn s
    pub resetting : Tracked id lt reset_tunnel s

  fresh-Lone : Lone k no_pend
  fresh-Lone = elim k as (λ j. Lone j no_pend) [ close_conn ↦ refl | reset_tunnel ↦ refl ]

  fresh-Sound : Sound fresh
  fresh-Sound = record {
    bounded = omega arith;
    lone = fresh-Lone;
    closing = λ h. cc;
    resetting = λ h. cc;
  }

  pub step-Sound :
      (digits : ℕ → Bytes) (e : Event) (s : Worker)
      → Proper id k e
      → Sound s
      → Sound (step digits e s).1
  step-Sound digits e s pr v = record {
    bounded = step-bound digits e s v.bounded;
    lone = Lone-step id digits k e s pr v.lone;
    closing = step-Tracked id lt close_conn digits k e s pr v.lone v.closing;
    resetting = step-Tracked id lt reset_tunnel digits k e s pr v.lone v.resetting;
  }

  run-Sound :
      (digits : ℕ → Bytes) (es : List Event) (s : Worker)
      → All (Proper id k) es
      → Sound s
      → Sound (run digits es s).1
  unfolding run
  run-Sound digits [] s prs v = v
  run-Sound digits (e ∷ es) s (pr, prs) v =
      run-Sound digits es (step digits e s).1 prs (step-Sound digits e s pr v)

  received-Sound : (a : Answers) (s : Worker) → Sound s → Sound (receive a s).1
  unfolding step
  received-Sound a s v = step-Sound (λ n. []) (received a) s tt v

  batch-Sound :
      (n : ℕ) (answer : ℕ → Answers) (r : List Call × Worker)
      → Sound r.1
      → Sound (batch n answer r).1
  unfolding batch
  batch-Sound zero answer r v = v
  batch-Sound (suc n) answer (cs, s) v =
      batch-Sound n answer (cs ++ (receive (answer n) s).0, (receive (answer n) s).1)
        (received-Sound (answer n) s v)

  todo-none : (s : Worker) → s.q ≡ [] → s.parked id ≡ no_pend → todo id s ≡ []
  unfolding todo queued behind when
  todo-none s e n = rw (ap (queued id) e, ap behind n) refl

  untracked :
      (j : Kind) (s : Worker) → Tracked id lt j s → todo id s ≡ [] → bit j (s.inflight id) ≡ false
  unfolding has
  untracked j s h none_left = elim (Bool-cases (bit j (s.inflight id))) [
    | inl b ↦ let still = ap (has j) none_left in cc (h b, still)
    | inr b ↦ b
  ]

  -- Nothing waits for the connection any more: its slot is free.
  free-slot : (s : Worker) → Sound s → s.q ≡ [] → s.parked id ≡ no_pend → conn_busy id s ≡ false
  unfolding conn_busy
  free-slot s v e n =
      let none_left = todo-none s e n in
      ground (
        arith,
        untracked close_conn s v.closing none_left,
        untracked reset_tunnel s v.resetting none_left,
      )

  -- Whatever came before, after one more round of the worker the queue is empty and the connection's
  -- slot is free.
  pub round-frees :
      (digits : ℕ → Bytes) (es : List Event) (answer : ℕ → Answers)
      → All (Proper id k) es
      → ((round answer (run digits es fresh).1).1.q ≡ [])
        × (conn_busy id (round answer (run digits es fresh).1).1 ≡ false)
  unfolding round step
  round-frees digits es answer prs =
      let s0 = (run digits es fresh).1 in
      let v0 = run-Sound digits es fresh prs fresh-Sound in
      let r1 = batch queue_depth answer ([], s0) in
      let v1 = batch-Sound queue_depth answer ([], s0) v0 in
      let empty : r1.1.q ≡ [] =
        eq-nil r1.1.q (ground (arith, batch-q queue_depth answer ([], s0), v0.bounded)) in
      let s2 = (apply_parked r1.1).1 in
      let v2 = step-Sound (λ n. []) parked_applied r1.1 tt v1 in
      let none_parked = parked-none r1.1 id lt empty in
      let v3 = step-Sound (λ n. []) (flash_retried (answer queue_depth)) s2 tt v2 in
      let left : (retry_flash (answer queue_depth) s2).1.q ≡ [] =
        retry_flash-q (answer queue_depth) s2 ∙ apply_parked-q r1.1 ∙ empty in
      (
        left,
        free-slot (retry_flash (answer queue_depth) s2).1 v3 left
            (retry_flash-parked (answer queue_depth) s2 id ∙ none_parked),
      )
