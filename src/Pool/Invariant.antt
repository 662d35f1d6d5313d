-- ===== src/Pool/Invariant.antt =====
-- What holds of the pool in every reachable state.
use mathlib.Core.List.{append_assoc}
use cloud_sys.Base.Int.{ℤ}
use cloud_sys.Base.{
  ℕ, ◌≡◌, ◌≢◌, refl, sym, ap, subst, ◌∙◌, inl, inr, true, false, List, [], ◌∷◌, ◌++◌, none, some,
  arith, Bool-cases,
}
use cloud_sys.Queue.{LongCommand, TaskQueue, Ptr, null, en_queue}
use cloud_sys.Queue.Refinement.{Refines, en_queue-Refines, task_queue_init-Refines, size-Refines}
use cloud_sys.Pool.{
  ThreadPool, Worker, testing, waiting, gone, running, System, locked, update, wake, broadcast,
  note_taken, Step, locks, wakes, finishes, submits, quits, start, Steps, here, later, thread_init,
  worker_num,
}
use cloud_sys.Pool.Locked.{
  take_command-first, locked-waits, locked-ends, locked-takes, queued, some_injective,
}

-- A worker waits only while there is nothing to do, and has ended only after the flag was set. The
-- commands that were submitted are those taken and, behind them, those in the queue.
pub record IsSound (s : System) : Type 0 where
  pub queue : List LongCommand
  pub refines : Refines s.pool.task_queue queue
  pub staffed : s.pool.workers ≡ worker_num
  pub in_order : s.submitted ≡ s.taken ++ queue
  pub idle :
      (i : ℕ) → s.worker i ≡ waiting → (s.pool.task_queue.size ≡ 0) × (s.pool.exit_flag ≡ false)
  pub ended : (i : ℕ) → s.worker i ≡ gone → s.pool.exit_flag ≡ true

pub start-IsSound : (p : ThreadPool) → IsSound (start p)
unfolding thread_init
start-IsSound p = record {
  queue = [];
  refines = task_queue_init-Refines p.task_queue;
  staffed = refl;
  in_order = refl;
  idle = λ i e. absurd (ground arith);
  ended = λ i e. absurd (ground arith);
}

module _ (s : System) (h : IsSound s) where
  -- What a worker finds under the lock.
  data Found (v : Worker) (p : ThreadPool) : Type 0 where
    nothing :
        s.pool.task_queue.size ≡ 0 → s.pool.exit_flag ≡ false → v ≡ waiting → p ≡ s.pool → Found v p
    the_end : s.pool.exit_flag ≡ true → v ≡ gone → p ≡ s.pool → Found v p
    command :
        (c : LongCommand) (xs : List LongCommand) (q : TaskQueue)
        → s.pool.exit_flag ≡ false
        → h.queue ≡ c ∷ xs
        → v ≡ running c
        → p ≡ record s.pool { task_queue = q }
        → Refines q xs
        → Found v p

  found :
      (v : Worker) (p : ThreadPool) (xs : List LongCommand)
      → h.queue ≡ xs
      → locked s.pool ≡ some (v, p)
      → Found v p
  found v p xs eq e = elim (Bool-cases s.pool.exit_flag) [
    | inl k ↦ let r = some_injective (sym e ∙ locked-ends s.pool k) in the_end k r.0 r.1
    | inr k ↦ found_open xs k (subst (Refines s.pool.task_queue) eq h.refines) eq
  ]
    where
      found_open :
          (xs : List LongCommand)
          → s.pool.exit_flag ≡ false
          → Refines s.pool.task_queue xs
          → h.queue ≡ xs
          → Found v p
      found_open [] k r eq =
          let z = size-Refines s.pool.task_queue [] r in
          let i = some_injective (sym e ∙ locked-waits s.pool z k) in nothing z k i.0 i.1
      found_open (c ∷ xs) k r eq =
          let (q, t, r') = take_command-first s.pool c xs r in
          let i = some_injective (sym e ∙ locked-takes s.pool c xs r k ∙ t) in
          command c xs q k eq i.0 i.1 r'

  -- The worker `i` goes to `v`, and the pool to `p`.
  moved : (i : ℕ) → Worker → ThreadPool → System
  moved i v p = record s { pool = p; worker = update s.worker i v; taken = note_taken s.taken v }

  locks-IsSound : (i : ℕ) (v : Worker) (p : ThreadPool) → Found v p → IsSound (moved i v p)
  unfolding moved
  locks-IsSound i v p (nothing z k ev ep) =
      rw (ev, ep)
        (record {
          queue = h.queue;
          refines = h.refines;
          staffed = h.staffed;
          in_order = h.in_order;
          idle = λ j e. (z, k);
          ended = λ j e. ground (arith, h.ended j);
        })
  locks-IsSound i v p (the_end k ev ep) =
      rw (ev, ep)
        (record {
          queue = h.queue;
          refines = h.refines;
          staffed = h.staffed;
          in_order = h.in_order;
          idle = λ j e. ground (arith, h.idle j);
          ended = λ j e. k;
        })
  locks-IsSound i v p (command c xs q k eq ev ep r) =
      rw (ev, ep)
        (record {
          queue = xs;
          refines = r;
          staffed = h.staffed;
          in_order =
              h.in_order ∙ ap (λ ys. s.taken ++ ys) eq ∙ sym (append_assoc s.taken (c ∷ []) xs);
          idle = λ j e. absurd (
              ground (
                arith,
                h.idle j,
                size-Refines s.pool.task_queue (c ∷ xs)
                    (subst (Refines s.pool.task_queue) eq h.refines),
              ));
          ended = λ j e. ground (arith, h.ended j);
        })

  finishes-IsSound :
      (i : ℕ) (fs : List LongCommand)
      → IsSound (record s { worker = update s.worker i testing; finished = fs })
  finishes-IsSound i fs = record {
    queue = h.queue;
    refines = h.refines;
    staffed = h.staffed;
    in_order = h.in_order;
    idle = λ j e. ground (arith, h.idle j);
    ended = λ j e. ground (arith, h.ended j);
  }

  broadcast-waiting : (w : Worker) → ¬ (wake w ≡ waiting)
  broadcast-waiting testing e = ground arith
  broadcast-waiting waiting e = ground arith
  broadcast-waiting gone e = ground arith
  broadcast-waiting (running c) e = ground arith

  broadcast-gone : (w : Worker) → wake w ≡ gone → w ≡ gone
  broadcast-gone testing e = ground arith
  broadcast-gone waiting e = ground arith
  broadcast-gone gone e = refl
  broadcast-gone (running c) e = ground arith

  submits-IsSound :
      (a : Ptr) (c : LongCommand) (code : ℤ) (q : TaskQueue)
      → a ≢ null
      → s.pool.task_queue.heap a ≡ none
      → en_queue a c s.pool.task_queue ≡ some (code, q)
      → IsSound (record s {
        pool = record s.pool { task_queue = q };
        worker = broadcast s.worker;
        submitted = s.submitted ++ c ∷ [];
      })
  submits-IsSound a c code q ne unused e =
      let (t, e', r) = en_queue-Refines a c s.pool.task_queue h.queue h.refines ne unused in
      record {
        queue = h.queue ++ c ∷ [];
        staffed = h.staffed;
        refines = subst (λ z. Refines z (h.queue ++ c ∷ [])) (queued (sym e' ∙ e)) r;
        in_order = ap (λ ys. ys ++ c ∷ []) h.in_order ∙ append_assoc s.taken h.queue (c ∷ []);
        idle = λ j w. absurd (broadcast-waiting (s.worker j) w);
        ended = λ j w. h.ended j (broadcast-gone (s.worker j) w);
      }

  quits-IsSound :
      IsSound (record s { pool = record s.pool { exit_flag = true }; worker = broadcast s.worker })
  quits-IsSound = record {
    queue = h.queue;
    refines = h.refines;
    staffed = h.staffed;
    in_order = h.in_order;
    idle = λ j w. absurd (broadcast-waiting (s.worker j) w);
    ended = λ j w. refl;
  }

  Step-IsSound : {t : System} → Step s t → IsSound t
  unfolding moved
  Step-IsSound (locks i v p lt w e) = locks-IsSound i v p (found v p h.queue refl e)
  Step-IsSound (wakes i w) = finishes-IsSound i s.finished
  Step-IsSound (finishes i c w) = finishes-IsSound i (s.finished ++ c ∷ [])
  Step-IsSound (submits a c code q ne unused e) = submits-IsSound a c code q ne unused e
  Step-IsSound quits = quits-IsSound

pub Steps-IsSound : (s : System) {t : System} → IsSound s → Steps s t → IsSound t
Steps-IsSound s h here = h
Steps-IsSound s h (later {t} r st) = Step-IsSound t (Steps-IsSound s h r) st

runs :
    (t : System) (h : IsSound t) (xs : List LongCommand)
    → h.queue ≡ xs
    → (r : Worker × ThreadPool) × (locked t.pool ≡ some r)
runs t h xs eq = elim (Bool-cases t.pool.exit_flag) [
  | inl k ↦ (_, locked-ends t.pool k)
  | inr k ↦ open_runs xs k (subst (Refines t.pool.task_queue) eq h.refines)
]
  where
    open_runs :
        (xs : List LongCommand)
        → t.pool.exit_flag ≡ false
        → Refines t.pool.task_queue xs
        → (r : Worker × ThreadPool) × (locked t.pool ≡ some r)
    open_runs [] k r = (_, locked-waits t.pool (size-Refines t.pool.task_queue [] r) k)
    open_runs (c ∷ xs) k r =
        (_, locked-takes t.pool c xs r k ∙ (take_command-first t.pool c xs r).1)

-- In every state that the pool can reach, whatever the interleaving: the queue stands for a list;
-- the commands submitted are those that workers took, in the same order, and behind them those in
-- the queue; and a worker that gets the lock misreads no pointer.
pub Steps-in_order :
    (p : ThreadPool) (t : System)
    → Steps (start p) t
    → (queue : List LongCommand) × Refines t.pool.task_queue queue
      × (t.submitted ≡ t.taken ++ queue)
      × (r : Worker × ThreadPool) × (locked t.pool ≡ some r)
Steps-in_order p t r =
    let h = Steps-IsSound (start p) (start-IsSound p) r in
    let l = runs t h h.queue refl in (h.queue, h.refines, h.in_order, l.0, l.1)
