-- ===== src/Pool/Tests.antt =====
-- A pool to which one command is submitted.
use cloud_sys.Base.Int.{pos}
use cloud_sys.Base.{◌≡◌, refl, true, false, List, [], ◌∷◌, ◌++◌, none, some, arith}
use cloud_sys.Tlv.{empty_packet}
use cloud_sys.Queue.{LongCommand, TaskQueue, en_queue, write}
use cloud_sys.Queue.Chain.{node}
use cloud_sys.Queue.Refinement.{Refines}
use cloud_sys.Pool.{
  ThreadPool, Worker, running, System, start, broadcast, thread_init, Step, submits, locks, update,
  gone, Steps, here, later, locked,
}
use cloud_sys.Pool.Locked.{locked-ends}
use cloud_sys.Pool.Invariant.{Steps-in_order}
use cloud_sys.Pool.Progress.{next_command-Runs}
use cloud_sys.Pool.Join.{IsWorker, AreJoined, Steps-joined}
use cloud_sys.Pool.{worker_num, quits, AreOf, AreAwake}

abbrev upload : LongCommand
upload = record { netfd = 7; packet = empty_packet; state = 0 }

abbrev raw : ThreadPool
raw = record {
  task_queue = record { heap = λ a. none; front = 5; rear = 5; size = 3 };
  exit_flag = true;
  workers = 0;
}

abbrev one : TaskQueue
one = record { heap = write (λ a. none) 16 (some (node upload 0)); front = 16; rear = 16; size = 1 }

submitted_one : en_queue 16 upload (start raw).pool.task_queue ≡ some (pos 0, one)
unfolding en_queue thread_init
submitted_one = refl

abbrev busy : System
busy = record (start raw) {
  pool = record (start raw).pool { task_queue = one };
  worker = broadcast (start raw).worker;
  submitted = upload ∷ [];
}

submitting : Steps (start raw) busy
unfolding thread_init
submitting = later here (submits 16 upload (pos 0) one (omega arith) refl submitted_one)

one-Refines : Refines one (upload ∷ [])
unfolding Refines write
one-Refines = (
  (16, upload) ∷ [],
  record { chain = (omega arith, refl, refl, tt); at_front = refl; at_rear = refl; counted = refl },
  refl,
)

Steps-in_order_example :
    (queue : List LongCommand) × Refines busy.pool.task_queue queue
    × (upload ∷ [] ≡ busy.taken ++ queue)
    × (r : Worker × ThreadPool) × (locked busy.pool ≡ some r)
Steps-in_order_example = Steps-in_order raw busy submitting

still_open : busy.pool.exit_flag ≡ false
unfolding thread_init
still_open = refl

next_command-Runs_example :
    AreAwake busy
    × ((u : System) × (r : Steps busy u) × AreOf (λ j. j ≡ 3) r
        × (u.worker 3 ≡ running upload)
        × (u.taken ≡ upload ∷ []))
next_command-Runs_example =
    next_command-Runs raw busy upload [] 3 submitting one-Refines still_open (omega arith)

abbrev stopped : System
stopped = record busy {
  pool = record busy.pool { exit_flag = true };
  worker = broadcast busy.worker;
}

-- Worker 0 gets the lock, and ends.
one_gone : Step stopped (record stopped { worker = update stopped.worker 0 gone })
unfolding thread_init
one_gone = locks 0 gone stopped.pool (omega arith) refl (locked-ends stopped.pool refl)

Steps-joined_example :
    AreAwake stopped
    × ((u : System) × (r : Steps stopped u) × AreOf IsWorker r
        × AreJoined worker_num u
        × (u.pool ≡ stopped.pool)
        × (u.taken ≡ []))
Steps-joined_example = Steps-joined raw stopped (later submitting quits) refl
