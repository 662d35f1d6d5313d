-- ===== src/Queue/Refinement.antt =====
-- The linked list as a list of commands: `en_queue` adds at its end, `de_queue` takes from its front.
use cloud_sys.Base.Int.{pos, negsuc}
use cloud_sys.Base.{
  ◌+◌, ◌-◌, ◌≡◌, ◌≢◌, refl, sym, ap, subst, ◌∙◌, List, [], ◌∷◌, ◌++◌, none, some, ◌==◌, arith,
  length, ne→==,
}
use cloud_sys.Queue.{
  LongCommand, Ptr, null, Node, TaskQueue, write, load, task_queue_init, en_queue, free,
  unlink_front, free_front, de_queue,
}
use cloud_sys.Queue.Chain.{Cells, first, last, commands, node, Chain, Chain-write, Chain-unused}
use cloud_sys.Queue.Nodes.{
  ==_false_sym, commands-append, last-append, length-snoc, last_command, Chain-last, Chain-append,
  length-commands, cons_injective, some-ne-none, write_self, write-other, load-held,
}

-- The queue has these nodes.
pub record IsQueue (q : TaskQueue) (cs : Cells) : Type 0 where
  pub chain : Chain q.heap cs
  pub at_front : q.front ≡ first cs
  pub at_rear : q.rear ≡ last cs
  pub counted : q.size ≡ length cs

-- The queue stands for this list of commands.
unfoldable pub Refines : TaskQueue → List LongCommand → Type 0
Refines q xs = (cs : Cells) × IsQueue q cs × (commands cs ≡ xs)

en_queue-IsQueue :
    (a : Ptr) (c : LongCommand) (q : TaskQueue) (cs : Cells)
    → IsQueue q cs
    → a ≢ null
    → q.heap a ≡ none
    → (t : TaskQueue) × (en_queue a c q ≡ some (pos 0, t)) × IsQueue t (cs ++ (a, c) ∷ [])
unfolding en_queue
en_queue-IsQueue a c q [] is ne unused = (
  record { heap = write q.heap a (some (node c null)); front = a; rear = a; size = q.size + 1 },
  rw (en_queue, ne→== a null ne, is.counted) refl,
  record {
    chain = (ne, write_self q.heap a (some (node c null)), refl, tt);
    at_front = refl;
    at_rear = refl;
    counted = omega (arith, is.counted);
  },
)
en_queue-IsQueue a c q ((p, d) ∷ cs) is ne unused =
    let n = node (last_command d cs) null in
    let n' = node (last_command d cs) a in
    let h = write q.heap a (some (node c null)) in
    let g = write h q.rear (some n') in
    let out = Chain-unused q.heap a ((p, d) ∷ cs) unused is.chain in
    let old = Chain-last q.heap p d cs is.chain in
    let held = ap q.heap is.at_rear ∙ old.1 in
    let apart = ne→== q.rear a (λ i. some-ne-none n (sym held ∙ ap q.heap i ∙ unused)) in
    let loaded =
      load-held h q.rear n (subst (λ z. z ≢ null) (sym is.at_rear) old.0)
        (write-other q.heap a q.rear (some (node c null)) apart ∙ held) in
    (
      record { heap = g; front = q.front; rear = a; size = q.size + 1 },
      rw (en_queue, ne→== a null ne, ne→== q.size 0 (λ z. omega (arith, z, is.counted)), loaded)
          refl,
      record {
        chain =
            Chain-append q.heap g p d cs a c ne out
              (write-other h q.rear a (some n') (==_false_sym q.rear a apart)
                ∙ write_self q.heap a (some (node c null)))
              (ap g (sym is.at_rear) ∙ write_self h q.rear (some n'))
              (λ b other other'.
                write-other h q.rear b (some n') (ap (λ z. b == z) is.at_rear ∙ other)
                ∙ write-other q.heap a b (some (node c null)) other')
              is.chain;
        at_front = is.at_front;
        at_rear = sym (last-append ((p, d) ∷ cs) a c);
        counted = omega (arith, is.counted, length-snoc ((p, d) ∷ cs) a c);
      },
    )

free-held :
    (p : Ptr) (q : TaskQueue) (n : Node)
    → p ≢ null
    → q.heap p ≡ some n
    → free p q ≡ some (record q { heap = write q.heap p none })
unfolding free
free-held p q n ne held = rw (free, ne→== p null ne, held) refl

-- The queue without its first node.
de_queue-IsQueue :
    (q : TaskQueue) (p : Ptr) (c : LongCommand) (cs : Cells)
    → IsQueue q ((p, c) ∷ cs)
    → (t : TaskQueue) × (de_queue q ≡ some (pos 0, t))
      × (t.heap ≡ write q.heap q.front none)
      × IsQueue t cs
unfolding de_queue unlink_front free_front
de_queue-IsQueue q p c [] is =
    let ne = subst (λ z. z ≢ null) (sym is.at_front) is.chain.0 in
    let held = ap q.heap is.at_front ∙ is.chain.1 in
    let q' = record q { front = null; rear = null } in
    let h = write q.heap q.front none in
    (
      record { heap = h; front = null; rear = null; size = q.size - 1 },
      rw
          (
            de_queue,
            ne→== q.size 0 (λ z. omega (arith, z, is.counted)),
            unlink_front,
            ap (λ z. z == 1) is.counted,
            free_front,
            free-held q.front q' (node c null) ne held,
          )
          refl,
      refl,
      record { chain = tt; at_front = refl; at_rear = refl; counted = omega (arith, is.counted) },
    )
de_queue-IsQueue q p c ((p', c') ∷ cs) is =
    let ne = subst (λ z. z ≢ null) (sym is.at_front) is.chain.0 in
    let held = ap q.heap is.at_front ∙ is.chain.1 in
    let q' = record q { front = p' } in
    let h = write q.heap q.front none in
    (
      record { heap = h; front = p'; rear = q.rear; size = q.size - 1 },
      rw
          (
            de_queue,
            ne→== q.size 0 (λ z. omega (arith, z, is.counted)),
            unlink_front,
            ne→== q.size 1 (λ z. omega (arith, z, is.counted)),
            load-held q.heap q.front (node c p') ne held,
            free_front,
            free-held q.front q' (node c p') ne held,
          )
          refl,
      refl,
      record {
        chain =
            subst (λ z. Chain (write q.heap z none) ((p', c') ∷ cs)) (sym is.at_front)
              (Chain-write q.heap p none ((p', c') ∷ cs) is.chain.2 is.chain.3);
        at_front = refl;
        at_rear = is.at_rear;
        counted = omega (arith, is.counted);
      },
    )

-- The first command, which a worker reads before it calls `de_queue`.
pub front-Refines :
    (q : TaskQueue) (c : LongCommand) (xs : List LongCommand)
    → Refines q (c ∷ xs)
    → (next : Ptr) × (load q.heap q.front ≡ some (node c next))
unfolding Refines
front-Refines q c xs ([], is, e) = absurd (ground arith)
front-Refines q c xs ((p, d) ∷ cs, is, e) = (
  first cs,
  load-held q.heap q.front (node c (first cs)) (subst (λ z. z ≢ null) (sym is.at_front) is.chain.0)
      (ap q.heap is.at_front
        ∙ is.chain.1
        ∙ ap (λ d'. some (node d' (first cs))) (cons_injective e).0),
)

-- `en_queue` with memory for a new node puts the command at the end, and faults nowhere.
pub en_queue-Refines :
    (a : Ptr) (c : LongCommand) (q : TaskQueue) (xs : List LongCommand)
    → Refines q xs
    → a ≢ null
    → q.heap a ≡ none
    → (t : TaskQueue) × (en_queue a c q ≡ some (pos 0, t)) × Refines t (xs ++ c ∷ [])
unfolding Refines
en_queue-Refines a c q xs (cs, is, e) ne unused =
    let r = en_queue-IsQueue a c q cs is ne unused in
    (r.0, r.1, (cs ++ (a, c) ∷ [], r.2, commands-append cs a c ∙ ap (λ ys. ys ++ c ∷ []) e))

-- What `de_queue` does: -1 and no change for an empty queue, else 0 and all but the first command,
-- with the node at the front taken off the heap, and no other.
unfoldable pub Dequeues : TaskQueue → List LongCommand → Type 0
Dequeues q [] = de_queue q ≡ some (negsuc 0, q)
Dequeues q (c ∷ xs) =
    (t : TaskQueue) × (de_queue q ≡ some (pos 0, t))
    × (t.heap ≡ write q.heap q.front none)
    × Refines t xs

-- `de_queue` of a queue that stands for a list takes the first command off and misreads no pointer;
-- the node at the front is freed, and nothing else on the heap has changed. Of an empty one it
-- returns -1 and changes nothing.
pub de_queue-Refines : (q : TaskQueue) (xs : List LongCommand) → Refines q xs → Dequeues q xs
unfolding Refines Dequeues de_queue
de_queue-Refines q [] ([], is, e) = rw (de_queue, is.counted) refl
de_queue-Refines q [] ((p, d) ∷ cs, is, e) = absurd (ground arith)
de_queue-Refines q (c ∷ xs) ([], is, e) = absurd (ground arith)
de_queue-Refines q (c ∷ xs) ((p, d) ∷ cs, is, e) =
    let r = de_queue-IsQueue q p d cs is in (r.0, r.1, r.2, (cs, r.3, (cons_injective e).1))

pub task_queue_init-Refines : (q : TaskQueue) → Refines (task_queue_init q).1 []
unfolding Refines task_queue_init
task_queue_init-Refines q =
    ([], record { chain = tt; at_front = refl; at_rear = refl; counted = refl }, refl)

pub size-Refines : (q : TaskQueue) (xs : List LongCommand) → Refines q xs → q.size ≡ length xs
unfolding Refines
size-Refines q xs (cs, is, e) = is.counted ∙ length-commands cs ∙ ap length e
