-- ===== src/Worker/Turns.antt =====
-- stm32h563/src/hw_worker.c: the worker's task among the calls of the others, where
-- apply_parked_teardowns tests the queue once and then serves the connections one by one: the calls may
-- come between the test and a connection's turn, and between two turns.
pub mod Order
mod Whole
use benchpod_firmware.Worker.{Worker, Kind, any, queue_depth, pend_ids}
use benchpod_firmware.Worker.Step.{Call, apply_one}
use benchpod_firmware.Worker.Fifo.{Item}
use benchpod_firmware.Worker.Trace.{
  Event, teardown_in, received, parked_applied, flash_retried, step, taken_in, Proper,
}
use benchpod_firmware.Base.{
  ℕ, suc, ◌≤◌, ◌≡◌, ◌⊎◌, Bool, true, false, ◌&&◌, Option, none, some, List, [], ◌∷◌, ◌++◌, arith,
  ltb, ◌==◌, if◌then◌else◌, length, Bytes,
}

-- The state, and the connection that the loop of apply_parked_teardowns is at, where it runs.
abbrev pub Task : Type 0
Task = Worker × Option ℕ

-- A call, or a step of the worker outside of that loop; the test of the queue; a connection's turn.
pub data Move : Type 0 where
  does : Event → Move
  tested : Move
  turn : Move

-- The steps of the worker's task, of which none comes inside of the loop.
abbrev pub of_worker : Event → Bool
of_worker (received a) = true
of_worker parked_applied = true
of_worker (flash_retried a) = true
of_worker e = false

-- One connection's turn, with the state that it meets.
unfoldable pub take_turn : ℕ → Worker → List Call × Task
take_turn n s =
    if ltb n pend_ids
    then (let r = apply_one n ([], s) in (r.0, (r.1, some (suc n))))
    else ([], (s, none))

-- The whole of apply_parked_teardowns at once is no step here.
abbrev pub at_once : Event → Bool
at_once parked_applied = true
at_once e = false

unfoldable pub move : (ℕ → Bytes) → Move → Task → List Call × Task
move digits (does e) (s, none) =
    if at_once e then ([], (s, none)) else (let r = step digits e s in (r.0, (r.1, none)))
move digits (does e) (s, some n) =
    if of_worker e then ([], (s, some n)) else (let r = step digits e s in (r.0, (r.1, some n)))
move digits tested (s, none) = ([], (s, if length s.q == 0 then some 0 else none))
move digits tested (s, some n) = ([], (s, some n))
move digits turn (s, none) = ([], (s, none))
move digits turn (s, some n) = take_turn n s

unfoldable pub moves : (ℕ → Bytes) → List Move → Task → List Call × Task
moves digits [] t = ([], t)
moves digits (m ∷ ms) t =
    let r = move digits m t in let rest = moves digits ms r.1 in (r.0 ++ rest.0, rest.1)

-- What a connection gives the worker.
unfoldable pub given : ℕ → Move → Task → List Item
given id (does e) (s, none) = if at_once e then [] else taken_in id e s
given id (does e) (s, some n) = if of_worker e then [] else taken_in id e s
given id tested t = []
given id turn t = []

unfoldable pub gives : (ℕ → Bytes) → ℕ → List Move → Task → List Item
gives digits id [] t = []
gives digits id (m ∷ ms) t = given id m t ++ gives digits id ms (move digits m t).1

abbrev pub ProperMove : ℕ → Kind → Move → Type 0
ProperMove id k (does e) = Proper id k e
ProperMove id k m = Unit

-- Where the loop runs and the connection's turn is to come, a teardown of it finds room in the queue,
-- or one is parked already.
unfoldable pub IsRoomy : ℕ → Move → Task → Type 0
IsRoomy id (does (teardown_in j conn)) (s, some n) =
    conn ≡ id
    → n ≤ id
    → (any (s.parked id) ≡ true) ⊎ ((s.created && ltb (length s.q) queue_depth) ≡ true)
IsRoomy id m t = Unit

unfoldable pub AllRoomy : (ℕ → Bytes) → ℕ → List Move → Task → Type 0
AllRoomy digits id [] t = Unit
AllRoomy digits id (m ∷ ms) t = IsRoomy id m t × AllRoomy digits id ms (move digits m t).1
