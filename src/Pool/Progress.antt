-- ===== src/Pool/Progress.antt =====
-- A command that waits in the queue is taken by whichever worker gets to go on.
use cloud_sys.Base.{
  ℕ, ◌≡◌, ◌<◌, refl, sym, ap, subst, ◌∙◌, false, List, [], ◌∷◌, ◌++◌, arith, ==_refl,
}
use cloud_sys.Queue.{LongCommand}
use cloud_sys.Queue.Refinement.{Refines, size-Refines}
use cloud_sys.Pool.{
  ThreadPool, Worker, testing, waiting, gone, running, System, worker_num, update, start, locks,
  finishes, Steps, here, later, AreOf, AreAwake,
}
use cloud_sys.Pool.Locked.{take_command-first, locked-takes}
use cloud_sys.Pool.Invariant.{IsSound, start-IsSound, Steps-IsSound}

-- The worker `i` goes on by its own steps until it runs the command.
pub Runs : System → ℕ → LongCommand → Type 0
Runs t i c =
    (u : System) × (r : Steps t u) × AreOf (λ j. j ≡ i) r
    × (u.worker i ≡ running c)
    × (u.taken ≡ t.taken ++ c ∷ [])

module _ (t : System) (h : IsSound t) (c : LongCommand) (xs : List LongCommand)
    (queued : Refines t.pool.task_queue (c ∷ xs)) (open_pool : t.pool.exit_flag ≡ false) (i : ℕ)
    (few : i < worker_num) where
  -- From the lock.
  takes :
      (s : System)
      → s.pool ≡ t.pool
      → s.taken ≡ t.taken
      → s.worker i ≡ testing
      → (r : Steps t s) → AreOf (λ j. j ≡ i) r
      → Runs t i c
  unfolding Runs
  takes s e k w r own =
      let (q, f, _) =
        take_command-first s.pool c xs
          (subst (λ p. Refines p.task_queue (c ∷ xs)) (sym e) queued) in
      let l =
        locked-takes s.pool c xs (subst (λ p. Refines p.task_queue (c ∷ xs)) (sym e) queued)
          (ap (λ p. p.exit_flag) e ∙ open_pool)
        ∙ f in
      let fits = subst (λ p. i < p.workers) (sym e) (subst (λ n. i < n) (sym h.staffed) few) in
      (
        _,
        later r (locks i (running c) (record s.pool { task_queue = q }) fits w l),
        (own, (i, refl, refl)),
        rw (==_refl i) refl,
        ap (λ ys. ys ++ c ∷ []) k,
      )

  Runs-from : (w : Worker) → t.worker i ≡ w → Runs t i c
  Runs-from testing w = takes t refl refl w here tt
  Runs-from waiting w =
      absurd (omega (arith, (h.idle i w).0, size-Refines t.pool.task_queue (c ∷ xs) queued))
  Runs-from gone w = absurd (ground (arith, h.ended i w))
  Runs-from (running d) w =
      takes (record t { worker = update t.worker i testing; finished = t.finished ++ d ∷ [] }) refl
        refl (rw (==_refl i) refl) (later here (finishes i d w)) (tt, (i, refl, refl))

-- In a reachable state with a command at the front of the queue and the flag not set, no worker is in
-- `pthread_cond_wait`; and each of the five, by steps of its own alone, none of which ends a wait
-- without a signal, comes to run that command, which is the only one taken meanwhile. A command
-- that it still runs is taken to end.
pub next_command-Runs :
    (p : ThreadPool) (t : System) (c : LongCommand) (xs : List LongCommand) (i : ℕ)
    → Steps (start p) t
    → Refines t.pool.task_queue (c ∷ xs)
    → t.pool.exit_flag ≡ false
    → i < worker_num
    → AreAwake t
      × ((u : System) × (r : Steps t u) × AreOf (λ j. j ≡ i) r
          × (u.worker i ≡ running c)
          × (u.taken ≡ t.taken ++ c ∷ []))
unfolding Runs
next_command-Runs p t c xs i r queued open_pool few =
    let h = Steps-IsSound (start p) (start-IsSound p) r in
    (
      λ j w. omega (arith, (h.idle j w).0, size-Refines t.pool.task_queue (c ∷ xs) queued),
      Runs-from t h c xs queued open_pool i few (t.worker i) refl,
    )
