-- ===== src/Pool.antt =====
-- The thread pool: server/thread_pool.c, the workers of server/worker.c, and the main thread's use of
-- the queue in server/main.c. The parts under the mutex are single steps.
pub mod Locked
pub mod Invariant
pub mod Progress
pub mod Quit
pub mod Join
pub mod Tests
use cloud_sys.Base.Int.{ℤ, pos}
use cloud_sys.Base.{
  ℕ, ◌≡◌, ◌≢◌, ◌<◌, Bool, true, false, not, ◌&&◌, List, [], ◌∷◌, ◌++◌, Option, none, some, ◌==◌,
  if◌then◌else◌,
}
use cloud_sys.Queue.{LongCommand, Ptr, null, TaskQueue, task_queue_init, en_queue, load, de_queue}

abbrev pub worker_num : ℕ
worker_num = 5

-- `thread_pool_t` without the mutex and the condition; `exit_flag` is OUT where it is true. The
-- number of the workers is that of `tid_arr`.
pub record ThreadPool : Type 0 where
  pub task_queue : TaskQueue
  pub exit_flag : Bool
  pub workers : ℕ

-- `thread_init` and `tid_arr_init`.
unfoldable pub thread_init : ℕ → ThreadPool → ℤ × ThreadPool
unfolding task_queue_init
thread_init num p = (
  pos 0,
  record { task_queue = (task_queue_init p.task_queue).1; exit_flag = false; workers = num },
)

-- Where a worker is: before the lock, in `pthread_cond_wait`, in `long_solve_command`, or ended.
pub data Worker : Type 0 where
  testing waiting gone : Worker
  running : LongCommand → Worker

-- `queue.front->long_command`, and then `de_queue`. `none` is a fault.
unfoldable pub take_command : ThreadPool → Option (Worker × ThreadPool)
take_command p = elim (load p.task_queue.heap p.task_queue.front) [
  | none ↦ none
  | some n ↦ elim (de_queue p.task_queue) [
    | none ↦ none
    | some r ↦ some (running n.long_command, record p { task_queue = r.1 })
  ]
]

-- One round of `thread_func` from the lock, or from a return of `pthread_cond_wait`, to the next wait
-- or unlock.
unfoldable pub locked : ThreadPool → Option (Worker × ThreadPool)
unfolding take_command
locked p =
    if (p.task_queue.size == 0) && not p.exit_flag
    then some (waiting, p)
    else if p.exit_flag
    then some (gone, p)
    else take_command p

-- The pool, its workers, and what was done: the commands submitted, taken and finished, in order.
-- Finished, a command's descriptor has been closed.
pub record System : Type 0 where
  pub pool : ThreadPool
  pub worker : ℕ → Worker
  pub submitted : List LongCommand
  pub taken : List LongCommand
  pub finished : List LongCommand

abbrev pub update : (ℕ → Worker) → ℕ → Worker → ℕ → Worker
update w i v j = if j == i then v else w j

abbrev pub wake : Worker → Worker
wake testing = testing
wake waiting = testing
wake gone = gone
wake (running c) = running c

-- `pthread_cond_broadcast`.
abbrev pub broadcast : (ℕ → Worker) → ℕ → Worker
broadcast w j = wake (w j)

abbrev pub note_taken : List LongCommand → Worker → List LongCommand
note_taken cs testing = cs
note_taken cs waiting = cs
note_taken cs gone = cs
note_taken cs (running c) = cs ++ c ∷ []

-- A step of a worker or of the main thread.
pub data Step (s : System) : System → Type 0 where
  -- A worker gets the lock.
  locks :
      (i : ℕ) (v : Worker) (p : ThreadPool)
      → i < s.pool.workers
      → s.worker i ≡ testing
      → locked s.pool ≡ some (v, p)
      → Step s (record s { pool = p; worker = update s.worker i v; taken = note_taken s.taken v })
  -- A wait may end without a signal.
  wakes : (i : ℕ) → s.worker i ≡ waiting → Step s (record s { worker = update s.worker i testing })
  -- A worker is done with its command, and closes the descriptor.
  finishes :
      (i : ℕ) (c : LongCommand)
      → s.worker i ≡ running c
      → Step s (record s { worker = update s.worker i testing; finished = s.finished ++ c ∷ [] })
  -- The main thread submits a command, and `malloc` gives the node `a`.
  submits :
      (a : Ptr) (c : LongCommand) (code : ℤ) (q : TaskQueue)
      → a ≢ null
      → s.pool.task_queue.heap a ≡ none
      → en_queue a c s.pool.task_queue ≡ some (code, q)
      → Step s (record s {
        pool = record s.pool { task_queue = q };
        worker = broadcast s.worker;
        submitted = s.submitted ++ c ∷ [];
      })
  -- The main thread sets the flag.
  quits :
      Step s (record s { pool = record s.pool { exit_flag = true }; worker = broadcast s.worker })

-- The step is one of worker `i`, and no end of a wait without a signal.
abbrev pub IsOf : {s t : System} → ℕ → Step s t → Type 0
IsOf i (locks j v p few w e) = j ≡ i
IsOf i (wakes j w) = ⊥
IsOf i (finishes j c w) = j ≡ i
IsOf i (submits a c code q ne unused e) = ⊥
IsOf i quits = ⊥

-- The system behind `make_worker`.
abbrev pub start : ThreadPool → System
start p = record {
  pool = (thread_init worker_num p).1;
  worker = λ i. testing;
  submitted = [];
  taken = [];
  finished = [];
}

-- Any number of steps, the last one last.
pub data Steps (s : System) : System → Type 0 where
  here : Steps s s
  later : {t u : System} → Steps s t → Step t u → Steps s u

-- Every step is one of a worker that `p` admits, and none ends a wait without a signal.
abbrev pub AreOf : {s t : System} → (ℕ → Type 0) → Steps s t → Type 0
AreOf p here = Unit
AreOf p (later r st) = AreOf p r × ((i : ℕ) × p i × IsOf i st)

-- No worker is in `pthread_cond_wait`.
abbrev pub AreAwake : System → Type 0
AreAwake s = (i : ℕ) → s.worker i ≢ waiting
