-- ===== src/Queue/Tests.antt =====
-- A queue with two commands.
use cloud_sys.Base.Int.{pos}
use cloud_sys.Base.{ℕ, ◌≡◌, refl, [], ◌∷◌, none, some, ◌==◌, if◌then◌else◌, arith}
use cloud_sys.Tlv.{empty_packet}
use cloud_sys.Queue.{LongCommand, Heap, TaskQueue, en_queue}
use cloud_sys.Queue.Chain.{node}
use cloud_sys.Queue.Refinement.{Refines, Dequeues, en_queue-Refines, de_queue-Refines}

abbrev upload : ℕ → LongCommand
upload fd = record { netfd = fd; packet = empty_packet; state = 0 }

-- The first node is at 40, the second at 16.
abbrev two_nodes : Heap
two_nodes a =
    if a == 40
    then some (node (upload 7) 16)
    else if a == 16
    then some (node (upload 8) 0)
    else none

abbrev two : TaskQueue
two = record { heap = two_nodes; front = 40; rear = 16; size = 2 }

two-Refines : Refines two (upload 7 ∷ upload 8 ∷ [])
unfolding Refines
two-Refines = (
  (40, upload 7) ∷ (16, upload 8) ∷ [],
  record {
    chain = (omega arith, refl, refl, (omega arith, refl, refl, tt));
    at_front = refl;
    at_rear = refl;
    counted = refl;
  },
  refl,
)

en_queue-Refines_example :
    (t : TaskQueue) × (en_queue 64 (upload 9) two ≡ some (pos 0, t))
    × Refines t (upload 7 ∷ upload 8 ∷ upload 9 ∷ [])
en_queue-Refines_example =
    en_queue-Refines 64 (upload 9) two (upload 7 ∷ upload 8 ∷ []) two-Refines (omega arith) refl

de_queue-Refines_example : Dequeues two (upload 7 ∷ upload 8 ∷ [])
de_queue-Refines_example = de_queue-Refines two (upload 7 ∷ upload 8 ∷ []) two-Refines
