-- ===== src/Worker/Turns/Order.antt =====
-- stm32h563/src/hw_worker.c: each connection is served in its order, where calls come between the turns.
use mathlib.Core.List.{append_assoc, append-nil}
use benchpod_firmware.Worker.{
  Work, bytes, console, cloud, ota_begin, ota_data, ota_end, ota_abort, ota_commit, esp_flash, Pend,
  Worker, update, any, Kind, submit, pend_ids, teardown, with_bit, submit_bytes, submit_teardown,
  data_max, submit_console, submit_cloud, submit_ota_begin, submit_ota_data, submit_ota_end,
  submit_ota_abort, submit_ota_commit, submit_esp_flash, take_cloud_reply, owner_cloud, id_max,
  queue_depth,
}
use benchpod_firmware.Worker.Step.{apply_one}
use benchpod_firmware.Worker.Fifo.{
  item_of, queued, called, behind, todo, called-append, apply_one-q, called-apply_one,
  called-apply_one_bits, eq-nil, if-same,
}
use benchpod_firmware.Worker.Trace.{
  Event, bytes_in, teardown_in, cloud_in, console_in, begin_in, data_in, end_in, abort_in,
  commit_in, flash_in, reply_taken, received, parked_applied, flash_retried, step, Lone,
}
use benchpod_firmware.Worker.Order.{submit-parked, Fewer, Lone-Fewer, Lone-step}
use benchpod_firmware.Worker.Order.Step.{step-todo, submit-cases, queued-snoc, item_of-teardown}
use benchpod_firmware.Worker.Turns.{
  Task, Move, does, tested, turn, of_worker, at_once, take_turn, move, moves, given, gives,
  ProperMove, IsRoomy, AllRoomy,
}
use benchpod_firmware.Base.{
  ℕ, ◌-◌, ◌≤◌, ◌<◌, ◌≡◌, refl, sym, ap, ◌∙◌, ◌⊎◌, inl, inr, true, false, not, ◌&&◌, ◌||◌, none,
  some, List, [], ◌∷◌, ◌++◌, arith, ltb, leb, ◌==◌, if◌then◌else◌, Bool-cases, length, take, All,
  Bytes, codes,
}

module _ (id : ℕ) where
  -- Before the connection's turn, none of its teardowns are parked, or nothing else of it waits.
  unfoldable IsClearAt : ℕ → Worker → Type 0
  IsClearAt n s = n ≤ id → (any (s.parked id) ≡ false) ⊎ (queued id s.q ≡ [])

  unfoldable pub IsClear : Task → Type 0
  unfolding IsClearAt
  IsClear (s, none) = Unit
  IsClear (s, some n) = IsClearAt n s

  -- What a call does that parks no teardown of the connection.
  Grows : Worker → Worker → Type 0
  Grows s s' =
      (s'.parked id ≡ s.parked id)
      × ((queued id s'.q ≡ queued id s.q) ⊎ (any (s.parked id) ≡ false))

  Grows-IsClear : (n : ℕ) (s s' : Worker) → Grows s s' → IsClearAt n s → IsClearAt n s'
  unfolding Grows IsClearAt
  Grows-IsClear n s s' (p, inr a) c le = inl (ap any p ∙ a)
  Grows-IsClear n s s' (p, inl q) c le = elim (c le) [
    | inl a ↦ inl (ap any p ∙ a)
    | inr e ↦ inr (q ∙ e)
  ]

  submit-Grows :
      (w : Work) (s : Worker)
      → (item_of id w ≡ []) ⊎ (any (s.parked id) ≡ false)
      → Grows s (submit w s).1
  unfolding Grows
  submit-Grows w s (inr a) = (ap (λ (f : ℕ → Pend). f id) (submit-parked w s), inr a)
  submit-Grows w s (inl h) = elim (submit-cases w s) [
    | inl e ↦ rw e (
      refl,
      inl (queued-snoc id s.q w ∙ ap (λ l. queued id s.q ++ l) h ∙ append-nil (queued id s.q)),
    )
    | inr e ↦ rw e (refl, inl refl)
  ]

  bytes-Grows :
      (conn : ℕ) (body : Bytes) (s : Worker) → id < pend_ids → Grows s (submit_bytes conn body s).1
  unfolding submit_bytes Grows item_of
  bytes-Grows conn body s lt = elim (Bool-cases (ltb conn pend_ids && any (s.parked conn))) [
    | inl g ↦ rw g (refl, inl refl)
    | inr g ↦ rw g (
        submit-Grows (bytes conn (take data_max body)) s
          (elim (Bool-cases (conn == id)) [ inl c ↦ inr (ground arith) | inr c ↦ inl (rw c refl) ]))
  ]

  own_teardown-IsClear :
      (j : Kind) (conn n : ℕ) (s : Worker)
      → id < pend_ids
      → conn ≡ id
      → (conn ≡ id
          → n ≤ id
          → (any (s.parked id) ≡ true) ⊎ ((s.created && ltb (length s.q) queue_depth) ≡ true))
      → IsClearAt n s
      → IsClearAt n (submit_teardown j conn s)
  unfolding submit_teardown submit IsClearAt
  own_teardown-IsClear j conn n s lt same roomy c le =
      let g : ltb id pend_ids ≡ true = ground arith in
      elim (Bool-cases (any (s.parked id))) [
        | inl a ↦ rw (same, g, a) (elim (c le) [ inl contra ↦ absurd (cc) | inr e ↦ inr e ])
        | inr a ↦ elim (roomy same le) [
          | inl contra ↦ absurd (cc)
          | inr room ↦ rw (same, g, a, room) (inl a)
        ]
      ]

  teardown-IsClear :
      (j : Kind) (conn n : ℕ) (s : Worker)
      → id < pend_ids
      → (conn ≡ id
          → n ≤ id
          → (any (s.parked id) ≡ true) ⊎ ((s.created && ltb (length s.q) queue_depth) ≡ true))
      → IsClearAt n s
      → IsClearAt n (submit_teardown j conn s)
  unfolding submit_teardown Grows
  teardown-IsClear j conn n s lt roomy c =
      let w = teardown j conn in
      let s' : Worker = record s {
        inflight = update conn (with_bit j true (s.inflight conn)) s.inflight;
      } in
      elim (Bool-cases (conn == id)) [
        | inr o ↦
            let none_of : item_of id w ≡ [] = item_of-teardown id j conn ∙ rw o refl in
            elim (Bool-cases (ltb conn pend_ids)) [
              | inr g ↦ rw g (Grows-IsClear n s (submit w s).1 (submit-Grows w s (inl none_of)) c)
              | inl g ↦ elim (Bool-cases (not (any (s.parked conn)) && (submit w s').0)) [
                | inl a ↦
                    rw (g, a)
                      (Grows-IsClear n s (submit w s').1 (submit-Grows w s' (inl none_of)) c)
                | inr a ↦
                    rw (g, a)
                      (Grows-IsClear n s
                        (record s' {
                          parked = update conn (with_bit j true (s.parked conn)) s.parked;
                        })
                        (rw o (refl, inl refl)) c)
              ]
            ]
        | inl same ↦ own_teardown-IsClear j conn n s lt (ground arith) roomy c
      ]

  -- A call while the loop runs.
  call-IsClear :
      (digits : ℕ → Bytes) (e : Event) (n : ℕ) (s : Worker)
      → id < pend_ids
      → of_worker e ≡ false
      → IsRoomy id (does e) (s, some n)
      → IsClearAt n s
      → IsClearAt n (step digits e s).1
  unfolding step submit_cloud submit_console submit_ota_begin submit_ota_data submit_ota_end
      submit_ota_abort submit_ota_commit submit_esp_flash take_cloud_reply item_of IsRoomy Grows
  call-IsClear digits (bytes_in conn body) n s lt o r c =
      Grows-IsClear n s (submit_bytes conn body s).1 (bytes-Grows conn body s lt) c
  call-IsClear digits (teardown_in j conn) n s lt o r c = teardown-IsClear j conn n s lt r c
  call-IsClear digits (cloud_in req_id json) n s lt o r c =
      let w = cloud (take (id_max - 1) req_id) (take data_max json) in
      let (p, q) = submit-Grows w s (inl refl) in
      elim (Bool-cases (s.cloud_pending || s.cloud_ready)) [
        | inl g ↦ rw g c
        | inr g ↦
            rw g (
              Grows-IsClear n s (record (submit w s).1 { cloud_pending = (submit w s).0 }) (p, q) c)
      ]
  call-IsClear digits (console_in line) n s lt o r c =
      Grows-IsClear n s _ (submit-Grows (console (take data_max line)) s (inl refl)) c
  call-IsClear digits (begin_in size sha target version sig) n s lt o r c =
      let name = if length target == 0 then codes "firmware" else target in
      let arg = sha ++ (32 ∷ (name ++ (32 ∷ (digits version ++ (32 ∷ sig))))) in
      elim (Bool-cases (leb 320 (length arg))) [
        | inl g ↦ rw g c
        | inr g ↦
            rw g
              (Grows-IsClear n s _ (submit-Grows (ota_begin owner_cloud size arg) s (inl refl)) c)
      ]
  call-IsClear digits (data_in owner offset body) n s lt o r c =
      Grows-IsClear n s _ (submit-Grows (ota_data owner offset (take data_max body)) s (inl refl)) c
  call-IsClear digits end_in n s lt o r c =
      Grows-IsClear n s _ (submit-Grows (ota_end owner_cloud) s (inl refl)) c
  call-IsClear digits abort_in n s lt o r c =
      Grows-IsClear n s _ (submit-Grows (ota_abort owner_cloud) s (inl refl)) c
  call-IsClear digits commit_in n s lt o r c =
      Grows-IsClear n s _ (submit-Grows (ota_commit owner_cloud) s (inl refl)) c
  call-IsClear digits flash_in n s lt o r c =
      Grows-IsClear n s _ (submit-Grows esp_flash s (inl refl)) c
  call-IsClear digits (reply_taken id_cap reply_cap) n s lt o r c =
      Grows-IsClear n s (take_cloud_reply id_cap reply_cap s).1 (ground arith, inl (ground arith)) c
  call-IsClear digits (received a) n s lt o r c = absurd (cc)
  call-IsClear digits parked_applied n s lt o r c = absurd (cc)
  call-IsClear digits (flash_retried a) n s lt o r c = absurd (cc)

  turn-IsClear : (n : ℕ) (s : Worker) → IsClearAt n s → IsClear (take_turn n s).1
  unfolding take_turn IsClearAt IsClear
  turn-IsClear n s c = elim (Bool-cases (ltb n pend_ids)) [
    | inr g ↦ rw g tt
    | inl g ↦
        let (q, p) = apply_one-q id n ([], s) in
        rw g
          (λ le. let other : (n == id) ≡ false = ground arith in rw (q, p, other) (c (omega arith)))
  ]

  move-IsClear :
      (digits : ℕ → Bytes) (m : Move) (t : Task)
      → id < pend_ids
      → IsRoomy id m t
      → IsClear t
      → IsClear (move digits m t).1
  unfolding move IsClear IsClearAt queued
  move-IsClear digits (does e) (s, none) lt r c = elim (Bool-cases (at_once e)) [
    | inl b ↦ rw b tt
    | inr b ↦ rw b tt
  ]
  move-IsClear digits (does e) (s, some n) lt r c = elim (Bool-cases (of_worker e)) [
    | inl b ↦ rw b c
    | inr b ↦ rw b (call-IsClear digits e n s lt b r c)
  ]
  move-IsClear digits tested (s, none) lt r c = elim (Bool-cases (length s.q == 0)) [
    | inl e ↦ rw e (λ le. inr (ap (queued id) (eq-nil s.q e)))
    | inr e ↦ rw e tt
  ]
  move-IsClear digits tested (s, some n) lt r c = c
  move-IsClear digits turn (s, none) lt r c = tt
  move-IsClear digits turn (s, some n) lt r c = turn-IsClear n s c

  apply_one-quiet :
      (n : ℕ) (s : Worker)
      → ((n == id) ≡ false) ⊎ (any (s.parked id) ≡ false)
      → called id (apply_one n ([], s)).0 ≡ []
  unfolding called
  apply_one-quiet n s h = called-apply_one_bits id n ([], s) ∙ (elim (Bool-cases (n == id)) [
    | inr c ↦ rw c (simp if-same)
    | inl c ↦
        let same : n ≡ id = ground arith in
        elim h [ inl contra ↦ absurd (cc) | inr a ↦ rw (c, same) (ground arith) ]
  ])

  turn-todo :
      (n : ℕ) (s : Worker)
      → id < pend_ids
      → IsClearAt n s
      → called id (take_turn n s).0 ++ todo id (take_turn n s).1.0 ≡ todo id s
  unfolding take_turn IsClearAt todo called
  turn-todo n s lt c =
      let r = apply_one n ([], s) in
      let taken = called-apply_one id n ([], s) in
      let kept : r.1.q ≡ s.q = (apply_one-q id n ([], s)).0 in
      let quiet : called id r.0 ≡ []
          → called id r.0 ++ (queued id r.1.q ++ behind (r.1.parked id))
            ≡ queued id s.q ++ behind (s.parked id) =
        λ e.
          rw (e, kept)
            (ap (λ l. queued id s.q ++ l)
              (sym (ap (λ l. l ++ behind (r.1.parked id)) e) ∙ taken)) in
      elim (Bool-cases (ltb n pend_ids)) [
        | inr g ↦ rw g refl
        | inl g ↦ rw g (elim (Bool-cases (n == id)) [
          | inr o ↦ quiet (apply_one-quiet n s (inl o))
          | inl o ↦ elim (c (ground arith)) [
            | inl a ↦ quiet (apply_one-quiet n s (inr a))
            | inr e ↦ rw (kept, e) taken
          ]
        ])
      ]

  move-todo :
      (digits : ℕ → Bytes) (k : Kind) (m : Move) (t : Task)
      → id < pend_ids
      → ProperMove id k m
      → Lone k (t.0.parked id)
      → IsClear t
      → called id (move digits m t).0 ++ todo id (move digits m t).1.0 ≡ todo id t.0 ++ given id m t
  unfolding move given IsClear called
  move-todo digits k (does e) (s, none) lt pr lone c = elim (Bool-cases (at_once e)) [
    | inl b ↦ rw b (sym (append-nil (todo id s)))
    | inr b ↦ rw b (step-todo id digits k e s lt pr lone)
  ]
  move-todo digits k (does e) (s, some n) lt pr lone c = elim (Bool-cases (of_worker e)) [
    | inl b ↦ rw b (sym (append-nil (todo id s)))
    | inr b ↦ rw b (step-todo id digits k e s lt pr lone)
  ]
  move-todo digits k tested (s, none) lt pr lone c = sym (append-nil (todo id s))
  move-todo digits k tested (s, some n) lt pr lone c = sym (append-nil (todo id s))
  move-todo digits k turn (s, none) lt pr lone c = sym (append-nil (todo id s))
  move-todo digits k turn (s, some n) lt pr lone c =
      turn-todo n s lt c ∙ sym (append-nil (todo id s))

  turn-Fewer : (n : ℕ) (s : Worker) → Fewer id s (take_turn n s).1.0
  unfolding take_turn
  turn-Fewer n s = elim (Bool-cases (ltb n pend_ids)) [
    | inr g ↦ rw g (inl refl)
    | inl g ↦
        rw (g, (apply_one-q id n ([], s)).1)
          (elim (Bool-cases (n == id)) [ inl c ↦ rw c (inr refl) | inr c ↦ rw c (inl refl) ])
  ]

  Lone-move :
      (digits : ℕ → Bytes) (k : Kind) (m : Move) (t : Task)
      → ProperMove id k m
      → Lone k (t.0.parked id)
      → Lone k ((move digits m t).1.0.parked id)
  unfolding move
  Lone-move digits k (does e) (s, none) pr lone = elim (Bool-cases (at_once e)) [
    | inl b ↦ rw b lone
    | inr b ↦ rw b (Lone-step id digits k e s pr lone)
  ]
  Lone-move digits k (does e) (s, some n) pr lone = elim (Bool-cases (of_worker e)) [
    | inl b ↦ rw b lone
    | inr b ↦ rw b (Lone-step id digits k e s pr lone)
  ]
  Lone-move digits k tested (s, none) pr lone = lone
  Lone-move digits k tested (s, some n) pr lone = lone
  Lone-move digits k turn (s, none) pr lone = lone
  Lone-move digits k turn (s, some n) pr lone =
      Lone-Fewer id k s (take_turn n s).1.0 (turn-Fewer n s) lone

  -- What is handled of a connection and what still waits is what waited and what it gave since, in its
  -- order: nothing is lost, doubled or overtaken. This holds over any order of the calls, the worker's
  -- steps, the tests of the queue by apply_parked_teardowns and its turns, one for each connection,
  -- with calls between the test and the turns, where only one kind of teardown is parked and given
  -- for the connection, the worker is not within the loop at the start, and each teardown of the
  -- connection that is given within the loop before its turn finds room in the queue or one parked.
  pub moves-fifo :
      (digits : ℕ → Bytes) (k : Kind) (ms : List Move) (t : Task)
      → id < pend_ids
      → All (ProperMove id k) ms
      → AllRoomy digits id ms t
      → Lone k (t.0.parked id)
      → IsClear t
      → called id (moves digits ms t).0 ++ todo id (moves digits ms t).1.0
        ≡ todo id t.0 ++ gives digits id ms t
  unfolding moves gives called AllRoomy
  moves-fifo digits k [] t lt pr r lone c = sym (append-nil (todo id t.0))
  moves-fifo digits k (m ∷ ms) t lt (pr, prs) (r, rs) lone c =
      let t' = (move digits m t).1 in
      let cs = (move digits m t).0 in
      let one = move-todo digits k m t lt pr lone c in
      let rest =
        moves-fifo digits k ms t' lt prs rs (Lone-move digits k m t pr lone)
          (move-IsClear digits m t lt r c) in
      rw (called-append id cs (moves digits ms t').0) (
        append_assoc (called id cs) (called id (moves digits ms t').0)
          (todo id (moves digits ms t').1.0)
        ∙ ap (λ l. called id cs ++ l) rest
        ∙ sym (append_assoc (called id cs) (todo id t'.0) (gives digits id ms t'))
        ∙ ap (λ l. l ++ gives digits id ms t') one
        ∙ append_assoc (todo id t.0) (given id m t) (gives digits id ms t'))
