-- ===== src/Worker/Fifo.antt =====
-- stm32h563/src/hw_worker.c: what waits for one connection, in the queue and parked behind it, and in
-- what order the worker's steps take it.
use mathlib.Core.List.{append_assoc, append-nil}
use benchpod_firmware.Worker.{
  Work, bytes, console, cloud, closed, tunnel_reset, ota_begin, ota_data, ota_end, ota_abort,
  ota_commit, esp_flash, Pend, Worker, no_pend, update, Kind, close_conn, reset_tunnel, bit,
  teardown_done, pend_ids,
}
use benchpod_firmware.Worker.Step.{
  Answers, Call, process, run_line, dispatch_cloud, conn_closed, conn_reset, begin_update, refuse,
  data_chunk, end_update, commit_update, start_flash, flash_failed, torn_down, unpark,
  handle_ota_begin, handle_work, receive, receive_from, apply_bit, apply_one, apply_below,
  apply_parked,
}
use benchpod_firmware.Base.{
  ℕ, zero, suc, ◌≡◌, refl, sym, ap, ◌∙◌, inl, inr, Bool, true, false, List, [], ◌∷◌, ◌++◌, arith,
  ◌==◌, if◌then◌else◌, Bool-cases, length, Bytes,
}

-- What a connection gives the worker.
pub data Item : Type 0 where
  sent : Bytes → Item
  torn : Kind → Item

pub teardown_done-q : (k : Kind) (conn : ℕ) (s : Worker) → (teardown_done k conn s).q ≡ s.q
unfolding teardown_done
teardown_done-q k conn s = ground arith

pub teardown_done-parked :
    (k : Kind) (conn : ℕ) (s : Worker) → (teardown_done k conn s).parked ≡ s.parked
unfolding teardown_done
teardown_done-parked k conn s = ground arith

pub eq-nil {ℓ} : {A : Type ℓ} (xs : List A) → (length xs == 0) ≡ true → xs ≡ []
eq-nil [] h = refl
eq-nil (x ∷ xs) h = ground arith

pub if-same {ℓ} : {A : Type ℓ} (b : Bool) (x : A) → (if b then x else x) ≡ x
if-same true x = refl
if-same false x = refl

unfoldable pub when : Bool → Kind → List Item
when b k = if b then torn k ∷ [] else []

unfoldable pub behind : Pend → List Item
unfolding when
behind p = when p.close close_conn ++ when p.reset reset_tunnel

module _ (id : ℕ) where
  abbrev pub only : ℕ → Item → List Item
  only conn x = if conn == id then x ∷ [] else []

  unfoldable pub item_of : Work → List Item
  item_of (bytes conn body) = only conn (sent body)
  item_of (closed conn) = only conn (torn close_conn)
  item_of (tunnel_reset conn) = only conn (torn reset_tunnel)
  item_of (console line) = []
  item_of (cloud req_id json) = []
  item_of (ota_begin owner size args) = []
  item_of (ota_data owner offset body) = []
  item_of (ota_end owner) = []
  item_of (ota_abort owner) = []
  item_of (ota_commit owner) = []
  item_of esp_flash = []

  unfoldable pub call_of : Call → List Item
  call_of (process conn body) = only conn (sent body)
  call_of (conn_closed conn) = only conn (torn close_conn)
  call_of (conn_reset conn) = only conn (torn reset_tunnel)
  call_of (run_line line) = []
  call_of (dispatch_cloud json) = []
  call_of (begin_update owner size target args) = []
  call_of (refuse owner why) = []
  call_of (data_chunk owner offset body) = []
  call_of (end_update owner) = []
  call_of commit_update = []
  call_of start_flash = []
  call_of flash_failed = []

  unfoldable pub queued : List Work → List Item
  queued [] = []
  queued (w ∷ ws) = item_of w ++ queued ws

  -- What was handled, oldest first.
  unfoldable pub called : List Call → List Item
  called [] = []
  called (c ∷ cs) = call_of c ++ called cs

  -- What waits: the queue's items, then the parked teardowns.
  unfoldable pub todo : Worker → List Item
  todo s = queued s.q ++ behind (s.parked id)

  pub called-append : (cs ds : List Call) → called (cs ++ ds) ≡ called cs ++ called ds
  unfolding called
  called-append [] ds = refl
  called-append (c ∷ cs) ds =
      rw (called-append cs ds) (sym (append_assoc (call_of c) (called cs) (called ds)))

  pub queued-append : (ws vs : List Work) → queued (ws ++ vs) ≡ queued ws ++ queued vs
  unfolding queued
  queued-append [] vs = refl
  queued-append (w ∷ ws) vs =
      rw (queued-append ws vs) (sym (append_assoc (item_of w) (queued ws) (queued vs)))

  called-handle_ota_begin :
      (a : Answers) (owner size : ℕ) → called (handle_ota_begin a owner size) ≡ []
  unfolding handle_ota_begin called call_of
  called-handle_ota_begin a owner size = ground arith

  pub called-handle_work :
      (a : Answers) (w : Work) (s : Worker)
      → (called (handle_work a w s).0 ≡ item_of w)
        × ((handle_work a w s).1.q ≡ s.q)
        × ((handle_work a w s).1.parked ≡ s.parked)
  unfolding handle_work called call_of item_of
  called-handle_work a (bytes conn body) s = (append-nil (only conn (sent body)), refl, refl)
  called-handle_work a (closed conn) s = (
    append-nil (only conn (torn close_conn)),
    teardown_done-q close_conn conn s,
    teardown_done-parked close_conn conn s,
  )
  called-handle_work a (tunnel_reset conn) s = (
    append-nil (only conn (torn reset_tunnel)),
    teardown_done-q reset_tunnel conn s,
    teardown_done-parked reset_tunnel conn s,
  )
  called-handle_work a (console line) s = (refl, refl, refl)
  called-handle_work a (cloud req_id json) s = (refl, refl, refl)
  called-handle_work a (ota_begin owner size args) s =
      (called-handle_ota_begin a owner size, refl, refl)
  called-handle_work a (ota_data owner offset body) s = (refl, refl, refl)
  called-handle_work a (ota_end owner) s = (refl, refl, refl)
  called-handle_work a (ota_abort owner) s = ground arith
  called-handle_work a (ota_commit owner) s = ground arith
  called-handle_work a esp_flash s = ground arith

  -- The worker takes the oldest item of the connection's, or one of another's.
  pub receive_from-todo :
      (a : Answers) (ws : List Work) (s : Worker)
      → called (receive_from a ws (record s { q = ws })).0
          ++ todo (receive_from a ws (record s { q = ws })).1
        ≡ queued ws ++ behind (s.parked id)
  unfolding receive_from todo queued called
  receive_from-todo a [] s = refl
  receive_from-todo a (w ∷ ws) s =
      let (same, left, kept) = called-handle_work a w (record s { q = ws }) in
      rw (same, left, kept) (sym (append_assoc (item_of w) (queued ws) (behind (s.parked id))))

  pub receive-todo :
      (a : Answers) (s : Worker) → called (receive a s).0 ++ todo (receive a s).1 ≡ todo s
  unfolding receive todo
  receive-todo a s = receive_from-todo a s.q s

  pub apply_bit-q :
      (k : Kind) (conn : ℕ) (p : Pend) (r : List Call × Worker)
      → ((apply_bit k conn p r).1.q ≡ r.1.q) × ((apply_bit k conn p r).1.parked ≡ r.1.parked)
  unfolding apply_bit teardown_done
  apply_bit-q k conn p r = ground arith

  call_of-torn_down : (k : Kind) (conn : ℕ) → call_of (torn_down k conn) ≡ only conn (torn k)
  unfolding call_of
  call_of-torn_down close_conn conn = refl
  call_of-torn_down reset_tunnel conn = refl

  pub called-apply_bit :
      (k : Kind) (conn : ℕ) (p : Pend) (r : List Call × Worker)
      → called (apply_bit k conn p r).0 ≡ called r.0 ++ (if bit k p then only conn (torn k) else [])
  unfolding apply_bit called
  called-apply_bit k conn p r = elim (Bool-cases (bit k p)) [
    | inl b ↦ rw b (
        called-append r.0 (torn_down k conn ∷ [])
        ∙ ap (λ l. called r.0 ++ l)
            (append-nil (call_of (torn_down k conn)) ∙ call_of-torn_down k conn))
    | inr b ↦ rw b (sym (append-nil (called r.0)))
  ]

  pub apply_one-q :
      (conn : ℕ) (r : List Call × Worker)
      → ((apply_one conn r).1.q ≡ r.1.q)
        × ((apply_one conn r).1.parked ≡ update conn no_pend r.1.parked)
  unfolding apply_one
  apply_one-q conn r =
      let p = r.1.parked conn in
      let r0 : List Call × Worker = (r.0, unpark conn r.1) in
      let r1 = apply_bit close_conn conn p r0 in
      let (q1, p1) = apply_bit-q close_conn conn p r0 in
      let (q2, p2) = apply_bit-q reset_tunnel conn p r1 in (q2 ∙ q1, p2 ∙ p1)

  pub called-apply_one_bits :
      (conn : ℕ) (r : List Call × Worker)
      → called (apply_one conn r).0
        ≡ (called r.0 ++ (if (r.1.parked conn).close then only conn (torn close_conn) else []))
          ++ (if (r.1.parked conn).reset then only conn (torn reset_tunnel) else [])
  unfolding apply_one
  called-apply_one_bits conn r =
      let p = r.1.parked conn in
      let r0 : List Call × Worker = (r.0, unpark conn r.1) in
      called-apply_bit reset_tunnel conn p (apply_bit close_conn conn p r0)
      ∙ ap (λ l. l ++ (if p.reset then only conn (torn reset_tunnel) else []))
          (called-apply_bit close_conn conn p r0)

  -- The lists that the bits of a connection stand for, taken or left behind.
  behind-taken :
      (l : List Item) (conn : ℕ) (parked : ℕ → Pend)
      → ((l ++ (if (parked conn).close then only conn (torn close_conn) else []))
            ++ (if (parked conn).reset then only conn (torn reset_tunnel) else []))
          ++ behind (update conn no_pend parked id)
        ≡ l ++ behind (parked id)
  unfolding behind when
  behind-taken l conn parked = elim (Bool-cases (conn == id)) [
    | inl e ↦
        let same : conn ≡ id = ground arith in
        rw (e, same)
          (append-nil _
            ∙ append_assoc l (if (parked id).close then torn close_conn ∷ [] else [])
                (if (parked id).reset then torn reset_tunnel ∷ [] else []))
    | inr n ↦ rw n (simp (if-same, append-nil))
  ]

  pub called-apply_one :
      (conn : ℕ) (r : List Call × Worker)
      → called (apply_one conn r).0 ++ behind ((apply_one conn r).1.parked id)
        ≡ called r.0 ++ behind (r.1.parked id)
  called-apply_one conn r =
      rw (called-apply_one_bits conn r, (apply_one-q conn r).1)
        (behind-taken (called r.0) conn r.1.parked)

  pub called-apply_below :
      (n : ℕ) (r : List Call × Worker)
      → (called (apply_below n r).0 ++ behind ((apply_below n r).1.parked id)
          ≡ called r.0 ++ behind (r.1.parked id))
        × ((apply_below n r).1.q ≡ r.1.q)
  unfolding apply_below
  called-apply_below zero r = (refl, refl)
  called-apply_below (suc n) r =
      let (same, left) = called-apply_below n r in
      (called-apply_one n (apply_below n r) ∙ same, (apply_one-q n (apply_below n r)).0 ∙ left)

  -- The parked teardowns come after all that is queued.
  pub apply_parked-todo :
      (s : Worker) → called (apply_parked s).0 ++ todo (apply_parked s).1 ≡ todo s
  unfolding apply_parked todo called queued
  apply_parked-todo s = elim (Bool-cases (length s.q == 0)) [
    | inl e ↦
        let (same, left) = called-apply_below pend_ids ([], s) in
        let empty : s.q ≡ [] = eq-nil s.q e in rw (e, ap queued left, ap queued empty) same
    | inr n ↦ rw n refl
  ]
