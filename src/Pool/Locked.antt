-- ===== src/Pool/Locked.antt =====
-- What a worker does under the lock.
use cloud_sys.Base.Int.{ℤ}
use cloud_sys.Base.{◌≡◌, refl, true, false, List, ◌∷◌, Option, some, arith}
use cloud_sys.Queue.{LongCommand, TaskQueue}
use cloud_sys.Queue.Refinement.{Refines, Dequeues, front-Refines, de_queue-Refines, size-Refines}
use cloud_sys.Pool.{ThreadPool, Worker, waiting, gone, running, locked, take_command}

-- With a command in the queue.
pub take_command-first :
    (p : ThreadPool) (c : LongCommand) (xs : List LongCommand)
    → Refines p.task_queue (c ∷ xs)
    → (q : TaskQueue) × (take_command p ≡ some (running c, record p { task_queue = q }))
      × Refines q xs
unfolding take_command Dequeues
take_command-first p c xs r =
    let (n, e) = front-Refines p.task_queue c xs r in
    let d = de_queue-Refines p.task_queue (c ∷ xs) r in (d.0, rw (take_command, e, d.1) refl, d.3)

module _ (p : ThreadPool) where
  pub locked-waits : p.task_queue.size ≡ 0 → p.exit_flag ≡ false → locked p ≡ some (waiting, p)
  unfolding locked
  locked-waits e k = ground arith

  pub locked-ends : p.exit_flag ≡ true → locked p ≡ some (gone, p)
  unfolding locked
  locked-ends k = ground arith

  pub locked-takes :
      (c : LongCommand) (xs : List LongCommand)
      → Refines p.task_queue (c ∷ xs)
      → p.exit_flag ≡ false
      → locked p ≡ take_command p
  unfolding locked
  locked-takes c xs r k = ground (arith, size-Refines p.task_queue (c ∷ xs) r)

pub queued :
    {a b : ℤ} {p q : TaskQueue}
    → ◌≡◌ {A = Option (ℤ × TaskQueue)} (some (a, p)) (some (b, q))
    → p ≡ q
queued e = cc

pub some_injective :
    {v w : Worker} {p q : ThreadPool}
    → ◌≡◌ {A = Option (Worker × ThreadPool)} (some (v, p)) (some (w, q))
    → (v ≡ w) × (p ≡ q)
some_injective e = (cc, cc)
