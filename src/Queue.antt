-- ===== src/Queue.antt =====
-- The queue of long commands of server/task_queue.c: a linked list on the heap, with the structs of
-- server/thread_pool.h.
pub mod Chain
pub mod Nodes
pub mod Refinement
pub mod Print
pub mod Tests
use cloud_sys.Base.Int.{ℤ, pos, negsuc}
use cloud_sys.Base.{
  ℕ, zero, suc, ◌+◌, ◌-◌, Bool, true, false, List, [], ◌∷◌, ◌++◌, Option, none, some, ◌==◌,
  if◌then◌else◌,
}
use cloud_sys.CString.{Bytes, text, dec}
use cloud_sys.Tlv.{Packet}

-- `long_command_t`. The pointer `state` is the index of its slot.
pub record LongCommand : Type 0 where
  pub netfd : ℕ
  pub packet : Packet
  pub state : ℕ

abbrev pub Ptr : Type 0
Ptr = ℕ

abbrev pub null : Ptr
null = 0

pub record Node : Type 0 where
  pub long_command : LongCommand
  pub next : Ptr

-- The nodes that `malloc` has given and `free` has not taken back.
abbrev pub Heap : Type 0
Heap = Ptr → Option Node

unfoldable pub write : Heap → Ptr → Option Node → Heap
write h p c a = if a == p then c else h a

-- `task_queue_t`, and the heap that its pointers point into.
pub record TaskQueue : Type 0 where
  pub heap : Heap
  pub front : Ptr
  pub rear : Ptr
  pub size : ℕ

-- `bzero` of the struct.
unfoldable pub task_queue_init : TaskQueue → ℤ × TaskQueue
task_queue_init q = (pos 0, record q { front = null; rear = null; size = 0 })

-- `*p`: `none` is a read through NULL or through a pointer to no node.
unfoldable pub load : Heap → Ptr → Option Node
load h p = if p == null then none else h p

-- `node` is what `malloc` returns. `none` is a fault.
unfoldable pub en_queue : Ptr → LongCommand → TaskQueue → Option (ℤ × TaskQueue)
unfolding write load
en_queue node c q =
    if node == null
    then none
    else (let h = write q.heap node (some (record { long_command = c; next = null })) in
        if q.size == 0
        then some (pos 0, record { heap = h; front = node; rear = node; size = q.size + 1 })
        else elim (load h q.rear) [
          | none ↦ none
          | some last ↦ some (
            pos 0,
            record {
              heap = write h q.rear (some (record last { next = node }));
              front = q.front;
              rear = node;
              size = q.size + 1;
            },
          )
        ])

-- `free(p)`: of NULL it does nothing, and of a pointer to no node it faults.
unfoldable pub free : Ptr → TaskQueue → Option TaskQueue
unfolding write
free p q =
    if p == null
    then some q
    else elim (q.heap p) [ none ↦ none | some n ↦ some (record q { heap = write q.heap p none }) ]

-- The new ends of a queue that is not empty.
unfoldable pub unlink_front : TaskQueue → Option TaskQueue
unfolding load
unlink_front q =
    if q.size == 1
    then some (record q { front = null; rear = null })
    else elim (load q.heap q.front) [ none ↦ none | some n ↦ some (record q { front = n.next }) ]

-- `free(node); --queue->size`.
unfoldable pub free_front : Ptr → TaskQueue → Option (ℤ × TaskQueue)
unfolding free
free_front node q = elim (free node q) [
  | none ↦ none
  | some q' ↦ some (pos 0, record q' { size = q'.size - 1 })
]

unfoldable pub de_queue : TaskQueue → Option (ℤ × TaskQueue)
unfolding unlink_front free_front
de_queue q =
    if q.size == 0
    then some (negsuc 0, q)
    else elim (unlink_front q) [ none ↦ none | some q' ↦ free_front q.front q' ]

-- The loop of `print_queue` on fuel: `none` is a fault or no fuel.
unfoldable pub print_from : ℕ → Heap → Ptr → Option Bytes
unfolding load text dec
print_from zero h node = none
print_from (suc fuel) h node = elim (node == null) [
  | true ↦ some (10 ∷ [])
  | false ↦ elim (load h node) [
    | none ↦ none
    | some n ↦ elim (print_from fuel h n.next) [
      | none ↦ none
      | some out ↦
          some (dec n.long_command.netfd ++ ((if n.next == null then [] else text "-->") ++ out))
    ]
  ]
]

-- What `print_queue` prints.
unfoldable pub print_queue : ℕ → TaskQueue → Option Bytes
unfolding print_from
print_queue fuel q = print_from fuel q.heap q.front
