-- ===== src/Worker/Tests.antt =====
-- stm32h563/src/hw_worker.c: the queue filled by one connection, its close parked behind it.
use benchpod_firmware.Worker.{
  Worker, update, close_conn, submit, submit_bytes, submit_teardown, can_accept, conn_busy,
  submit_cloud, take_cloud_reply, teardown_done,
}
use benchpod_firmware.Worker.Step.{
  Answers, conn_closed, handle_work, receive, receive_from, apply_parked, apply_below, apply_one,
  apply_bit, batch, round, retry_flash,
}
use benchpod_firmware.Worker.Fifo.{queued, behind, when, sent, torn, called, call_of, todo}
use benchpod_firmware.Worker.Trace.{
  taken_in, Proper, Event, bytes_in, teardown_in, cloud_in, received, step, run,
}
use benchpod_firmware.Worker.Turns.{
  given, Move, does, tested, turn, move, take_turn, moves, gives, IsRoomy, AllRoomy,
}
use benchpod_firmware.Worker.Turns.Order.{IsClear, moves-fifo}
use benchpod_firmware.Worker.Round.{fresh, round-frees}
use benchpod_firmware.Base.{
  inl, inr, ℕ, zero, suc, ◌≡◌, refl, true, false, none, some, List, [], ◌∷◌, ◌++◌, arith, All,
  Bytes, codes,
}

abbrev answers : Answers
answers = record {
  reply = codes "{}";
  heavy = false;
  flash_starts = true;
  scanned = none;
  target = none;
  gate = none;
  busy = none;
  aborts = true;
  replace = [];
}

abbrev no_digits : ℕ → Bytes
no_digits n = []

abbrev repeat : ℕ → Event → List Event → List Event
repeat zero e es = es
repeat (suc n) e es = e ∷ repeat n e es

-- A bulk upload fills the queue, and the connection closes behind it.
abbrev full_and_closed : List Event
full_and_closed = repeat 16 (bytes_in 3 (7 ∷ [])) (teardown_in close_conn 3 ∷ [])

close_parked :
    (run no_digits full_and_closed fresh).1.parked 3 ≡ record { close = true; reset = false }
unfolding run step submit_bytes submit submit_teardown
close_parked = refl

slot_busy : conn_busy 3 (run no_digits full_and_closed fresh).1 ≡ true
unfolding run step submit_bytes submit submit_teardown conn_busy
slot_busy = refl

bytes_refused : (submit_bytes 3 (8 ∷ []) (run no_digits (full_and_closed) fresh).1).0 ≡ false
unfolding run step submit_bytes submit submit_teardown
bytes_refused = refl

close_last :
    called 3 (round (λ n. answers) (run no_digits full_and_closed fresh).1).0
    ≡ sent (7 ∷ [])
      ∷ sent (7 ∷ [])
      ∷ sent (7 ∷ [])
      ∷ sent (7 ∷ [])
      ∷ sent (7 ∷ [])
      ∷ sent (7 ∷ [])
      ∷ sent (7 ∷ [])
      ∷ sent (7 ∷ [])
      ∷ sent (7 ∷ [])
      ∷ sent (7 ∷ [])
      ∷ sent (7 ∷ [])
      ∷ sent (7 ∷ [])
      ∷ sent (7 ∷ [])
      ∷ sent (7 ∷ [])
      ∷ sent (7 ∷ [])
      ∷ sent (7 ∷ [])
      ∷ torn close_conn
      ∷ []
unfolding run step submit_bytes submit submit_teardown round batch receive receive_from handle_work
    apply_parked apply_below apply_one apply_bit teardown_done retry_flash called call_of
close_last = refl

-- The loop over the parked bits does not look at the queue again: where a connection fills it and
-- closes between the test for an empty queue and its turn in the loop, its close runs first.
close_first : (apply_one 3 ([], (run no_digits full_and_closed fresh).1)).0 ≡ conn_closed 3 ∷ []
unfolding run step submit_bytes submit submit_teardown apply_one apply_bit teardown_done
close_first = refl

whole_or_nothing : can_accept 24577 fresh ≡ false
unfolding can_accept
whole_or_nothing = refl

one_cloud_command :
    (submit_cloud (codes "b") (codes "{}") (submit_cloud (codes "a") (codes "{}") fresh).1).0
    ≡ false
unfolding submit_cloud submit
one_cloud_command = refl

reply_of_it :
    (take_cloud_reply 64 100
      (run no_digits (cloud_in (codes "a") (codes "{}") ∷ received answers ∷ []) fresh).1).0
    ≡ some (codes "a", codes "{}")
unfolding run step submit_cloud submit receive receive_from handle_work take_cloud_reply
reply_of_it = refl

repeat-Proper :
    (n conn : ℕ) (body : Bytes) (es : List Event)
    → All (Proper 3 close_conn) es
    → All (Proper 3 close_conn) (repeat n (bytes_in conn body) es)
repeat-Proper zero conn body es h = h
repeat-Proper (suc n) conn body es h = (tt, repeat-Proper n conn body es h)

-- A close is parked for connection 3, and the worker's task is past the test of the queue. Before the
-- turn of 3 there come bytes of it, a second close; after it bytes and a close that is queued.
abbrev close_waits : Worker
close_waits = record fresh {
  parked = update 3 (record { close = true; reset = false }) fresh.parked;
}

abbrev calls_inside : List Move
calls_inside =
    tested
    ∷ turn
    ∷ does (bytes_in 3 (8 ∷ []))
    ∷ does (teardown_in close_conn 3)
    ∷ turn
    ∷ turn
    ∷ turn
    ∷ does (bytes_in 3 (9 ∷ []))
    ∷ does (teardown_in close_conn 3)
    ∷ []

-- The parked close, then what came after its turn.
calls_inside_served :
    (todo 3 close_waits ++ gives no_digits 3 calls_inside (close_waits, none)
      ≡ torn close_conn ∷ sent (9 ∷ []) ∷ torn close_conn ∷ [])
    × (called 3 (moves no_digits calls_inside (close_waits, none)).0 ≡ torn close_conn ∷ [])
unfolding todo queued behind when gives given taken_in moves move take_turn step submit_bytes submit
    submit_teardown apply_one apply_bit teardown_done called call_of
calls_inside_served = (refl, refl)

calls_inside-AllRoomy : AllRoomy no_digits 3 calls_inside (close_waits, none)
unfolding AllRoomy IsRoomy move take_turn step submit_bytes submit submit_teardown apply_one
    apply_bit teardown_done
calls_inside-AllRoomy =
    (tt, (tt, (tt, ((λ same le. inl refl), (tt, (tt, (tt, (tt, ((λ same le. inr refl), tt)))))))))

moves-fifo_example :
    called 3 (moves no_digits calls_inside (close_waits, none)).0
      ++ todo 3 (moves no_digits calls_inside (close_waits, none)).1.0
    ≡ todo 3 close_waits ++ gives no_digits 3 calls_inside (close_waits, none)
unfolding IsClear
moves-fifo_example =
    moves-fifo 3 no_digits close_conn calls_inside (close_waits, none) (omega arith)
      (tt, (tt, (tt, ((λ same. refl), (tt, (tt, (tt, (tt, ((λ same. refl), tt)))))))))
      calls_inside-AllRoomy refl tt

round-frees_example :
    ((round (λ n. answers) (run no_digits full_and_closed fresh).1).1.q ≡ [])
    × (conn_busy 3 (round (λ n. answers) (run no_digits full_and_closed fresh).1).1 ≡ false)
round-frees_example =
    round-frees 3 (omega arith) close_conn no_digits full_and_closed (λ n. answers)
      (repeat-Proper 16 3 (7 ∷ []) (teardown_in close_conn 3 ∷ []) ((λ same. refl), tt))
