-- ===== src/Pool/Quit.antt =====
-- The pool after the exit flag was set.
use cloud_sys.Base.{◌≡◌, refl, sym, ap, ◌∙◌, true}
use cloud_sys.Pool.{
  System, note_taken, Step, locks, wakes, finishes, submits, quits, Steps, here, later,
}
use cloud_sys.Pool.Locked.{locked-ends, some_injective}

Step-quit :
    (t : System) {u : System}
    → t.pool.exit_flag ≡ true
    → Step t u
    → (u.taken ≡ t.taken) × (u.pool.exit_flag ≡ true)
Step-quit t k (locks i v p lt w e) =
    let r = some_injective (sym e ∙ locked-ends t.pool k) in
    (ap (note_taken t.taken) r.0, ap (λ q. q.exit_flag) r.1 ∙ k)
Step-quit t k (wakes i w) = (refl, k)
Step-quit t k (finishes i c w) = (refl, k)
Step-quit t k (submits a c code q ne unused e) = (refl, k)
Step-quit t k quits = (refl, refl)

-- Once the flag is set it stays set, and no worker takes a command any more: those in the queue are
-- dropped, and so are those submitted later.
pub Steps-quit :
    (t : System) {u : System}
    → t.pool.exit_flag ≡ true
    → Steps t u
    → (u.taken ≡ t.taken) × (u.pool.exit_flag ≡ true)
Steps-quit t k here = (refl, k)
Steps-quit t k (later {t = v} r st) =
    let (taken, out) = Steps-quit t k r in
    let (taken', out') = Step-quit v out st in (taken' ∙ taken, out')
