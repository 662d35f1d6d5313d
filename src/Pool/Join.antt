-- ===== src/Pool/Join.antt =====
-- The joining of the workers by `main` of server/main.c.
use cloud_sys.Base.{
  ℕ, zero, suc, ◌≤◌, ◌<◌, ◌≡◌, refl, sym, ap, subst, ◌∙◌, inl, inr, true, ◌∷◌, [], ◌++◌, arith,
  ◌==◌, Bool-cases, ==_refl,
}
use cloud_sys.Pool.{
  ThreadPool, Worker, testing, waiting, gone, running, System, worker_num, update, start, locks,
  finishes, Steps, here, later, AreOf, AreAwake,
}
use cloud_sys.Pool.Locked.{locked-ends}
use cloud_sys.Pool.Invariant.{IsSound, start-IsSound, Steps-IsSound}
use cloud_sys.Pool.Quit.{Steps-quit}

-- Steps behind steps.
run_on : (t : System) {u v : System} → Steps t u → Steps u v → Steps t v
run_on t r here = r
run_on t r (later r' st) = later (run_on t r r') st

run_on-AreOf :
    (p : ℕ → Type 0) (t : System) {u v : System} (r : Steps t u) (r' : Steps u v)
    → AreOf p r
    → AreOf p r'
    → AreOf p (run_on t r r')
unfolding run_on
run_on-AreOf p t r here a b = a
run_on-AreOf p t r (later r' st) a b = (run_on-AreOf p t r r' a b.0, b.1)

-- The workers of the pool.
abbrev pub IsWorker : ℕ → Type 0
IsWorker i = i < worker_num

-- `pthread_join` has returned for the first `k` workers.
abbrev pub AreJoined : ℕ → System → Type 0
AreJoined k t = (i : ℕ) → i < k → t.worker i ≡ gone

join-one :
    (w : ℕ → Worker) (k i : ℕ)
    → ((j : ℕ) → j < k → w j ≡ gone)
    → i < suc k
    → update w k gone i ≡ gone
join-one w k i h few = elim (Bool-cases (i == k)) [
  | inl e ↦ rw e refl
  | inr e ↦ rw e (h i (ground arith))
]

kept : (w : ℕ → Worker) (v : Worker) (k i : ℕ) → w i ≡ gone → i < k → update w k v i ≡ gone
kept w v k i h less = elim (Bool-cases (i == k)) [ inl e ↦ absurd (ground arith) | inr e ↦ rw e h ]

module _ (t : System) (h : IsSound t) (out : t.pool.exit_flag ≡ true) (k : ℕ)
    (few : k < worker_num) where
  -- The worker `k` ends, and those before it have ended.
  Ends : Type 0
  Ends = (u : System) × (r : Steps t u) × AreOf IsWorker r × AreJoined (suc k) u × (u.pool ≡ t.pool)

  -- From the lock.
  leaves :
      (s : System)
      → s.pool ≡ t.pool
      → s.worker k ≡ testing
      → AreJoined k s
      → (r : Steps t s) → AreOf IsWorker r
      → Ends
  unfolding Ends
  leaves s e w before r own =
      let fits = subst (λ p. k < p.workers) (sym e) (subst (λ n. k < n) (sym h.staffed) few) in
      let l = locked-ends s.pool (ap (λ p. p.exit_flag) e ∙ out) in
      (
        _,
        later r (locks k gone s.pool fits w l),
        (own, (k, few, refl)),
        λ i less. join-one s.worker k i before less,
        e,
      )

  Ends-from : AreJoined k t → (w : Worker) → t.worker k ≡ w → Ends
  unfolding Ends
  Ends-from before testing w = leaves t refl w before here tt
  Ends-from before waiting w = absurd (ground (arith, (h.idle k w).1))
  Ends-from before gone w = (
    t,
    here,
    tt,
    λ i less. elim (Bool-cases (i == k)) [
      | inl e ↦ let same : i ≡ k = ground arith in subst (λ n. t.worker n ≡ gone) (sym same) w
      | inr e ↦ before i (ground arith)
    ],
    refl,
  )
  Ends-from before (running c) w =
      leaves (record t { worker = update t.worker k testing; finished = t.finished ++ c ∷ [] }) refl
        (rw (==_refl k) refl) (λ i less. kept t.worker testing k i (before i less) less)
        (later here (finishes k c w)) (tt, (k, few, refl))

joined :
    (t : System)
    → IsSound t
    → t.pool.exit_flag ≡ true
    → (k : ℕ) → k ≤ worker_num
    → (u : System) × (r : Steps t u) × AreOf IsWorker r × AreJoined k u × (u.pool ≡ t.pool)
unfolding Ends
joined t h out zero few = (t, here, tt, (λ i less. absurd (omega arith)), refl)
joined t h out (suc k) few =
    let (u, r, own, before, same) = joined t h out k (omega arith) in
    let h' = Steps-IsSound t h r in
    let (v, r', own', after, same') =
      Ends-from u h' (Steps-quit t out r).1 k (omega arith) before (u.worker k) refl in
    (v, run_on t r r', run_on-AreOf IsWorker t r r' own own', after, same' ∙ same)

-- In every reachable state in which the exit flag is set, no worker is in `pthread_cond_wait`, and the
-- joining of the workers can return: by steps of the workers alone, none of which ends a wait
-- without a signal, the pool comes to a state in which all five have ended, a command that a worker
-- still runs being taken to end. The queue is then as it was, with what was still in it, and no more
-- commands have been taken.
pub Steps-joined :
    (p : ThreadPool) (t : System)
    → Steps (start p) t
    → t.pool.exit_flag ≡ true
    → AreAwake t
      × ((u : System) × (r : Steps t u) × AreOf IsWorker r
          × AreJoined worker_num u
          × (u.pool ≡ t.pool)
          × (u.taken ≡ t.taken))
Steps-joined p t r out =
    let h = Steps-IsSound (start p) (start-IsSound p) r in
    let (u, r', own, all, same) = joined t h out worker_num (omega arith) in
    (λ i w. ground (arith, (h.idle i w).1), (u, r', own, all, same, (Steps-quit t out r').0))
