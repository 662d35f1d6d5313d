-- ===== src/Clients/Sweep.antt =====
-- The sweep over the table, against what it means for each slot alone.
use cloud_sys.Base.{
  ℕ, suc, ◌≡◌, sym, ap, ◌∙◌, inl, inr, true, List, [], ◌∷◌, ◌++◌, map, some, if◌then◌else◌, arith,
  Bool-cases, length, length-append, get_elem?-middle, modify-middle, subst,
}
use mathlib.Core.List.{append_assoc, append-nil}
use cloud_sys.Clients.{
  ClientState, Table, max_clients, is_stale, kill, drop_slot, remove_client_state, sweep_slot,
  sweep_from, check_timeout_clients,
}
use cloud_sys.Clients.Distinct.{
  Absent, AreDistinct, find-Absent, AreDistinct-kill, Absent-once_killed,
}

unfoldable pub expire : ℕ → ClientState → ClientState
expire now c = if is_stale now c then kill c else c

-- The descriptor of a slot that has expired.
abbrev pub stale_fd : ℕ → ClientState → List ℕ
stale_fd now c = if is_stale now c then c.netfd ∷ [] else []

unfoldable pub stale_fds : ℕ → List ClientState → List ℕ
stale_fds now [] = []
stale_fds now (c ∷ cs) = stale_fd now c ++ stale_fds now cs

abbrev table : List ClientState → ℕ → List ℕ → Table
table states n fds = record { states = states; client_count = n; closed = fds }

pub stale-is_alive : (now : ℕ) (c : ClientState) → is_stale now c ≡ true → c.is_alive ≡ true
stale-is_alive now c e = ground arith

-- No slot is left with the descriptor, so there is nothing to remove.
remove-Absent : (fd : ℕ) (t : Table) → Absent fd t.states → remove_client_state fd t ≡ t
unfolding remove_client_state
remove-Absent fd t h = ap (drop_slot t) (find-Absent fd t.states h)

-- One round at the slot `c`, with `xs` behind it and `cs` ahead.
sweep_round :
    (now : ℕ) (xs cs : List ClientState) (c : ClientState) (n : ℕ) (fds : List ℕ)
    → AreDistinct (xs ++ c ∷ cs)
    → sweep_slot now (length xs) (table (xs ++ c ∷ cs) n fds) (some c)
      ≡ table (xs ++ expire now c ∷ cs) n (fds ++ stale_fd now c)
unfolding sweep_slot expire
sweep_round now xs cs c n fds h = elim (Bool-cases (is_stale now c)) [
  | inl e ↦
      rw (e, modify-middle xs cs c kill)
        (remove-Absent c.netfd _ (Absent-once_killed xs cs c h (stale-is_alive now c e)))
  | inr e ↦ rw (e, append-nil)
]

AreDistinct-expire :
    (now : ℕ) (xs cs : List ClientState) (c : ClientState)
    → AreDistinct (xs ++ c ∷ cs)
    → AreDistinct (xs ++ expire now c ∷ cs)
unfolding expire
AreDistinct-expire now xs cs c h = elim (Bool-cases (is_stale now c)) [
  | inl e ↦ rw e (AreDistinct-kill xs cs c h)
  | inr e ↦ rw e h
]

sweep_from_step :
    (now : ℕ) (xs cs : List ClientState) (c : ClientState) (n : ℕ) (fds : List ℕ)
    → AreDistinct (xs ++ c ∷ cs)
    → sweep_from now (length xs) (suc (length cs)) (table (xs ++ c ∷ cs) n fds)
      ≡ sweep_from now
          (suc (length xs))
          (length cs)
          (table (xs ++ expire now c ∷ cs) n (fds ++ stale_fd now c))
unfolding sweep_from
sweep_from_step now xs cs c n fds h =
    let t = table (xs ++ c ∷ cs) n fds in
    let next = sweep_from now (suc (length xs)) (length cs) in
    ap (λ o. next (sweep_slot now (length xs) t o)) (get_elem?-middle xs cs c)
    ∙ ap next (sweep_round now xs cs c n fds h)

sweep_from-expire :
    (now : ℕ) (xs cs : List ClientState) (n : ℕ) (fds : List ℕ)
    → AreDistinct (xs ++ cs)
    → sweep_from now (length xs) (length cs) (table (xs ++ cs) n fds)
      ≡ table (xs ++ map (expire now) cs) n (fds ++ stale_fds now cs)
unfolding stale_fds
sweep_from-expire now xs [] n fds h = rw append-nil (unfold sweep_from in rw append-nil)
sweep_from-expire now xs (c ∷ cs) n fds h =
    let ys = xs ++ expire now c ∷ [] in
    let next : (zs : List ClientState) → xs ++ expire now c ∷ zs ≡ ys ++ zs =
      λ zs. sym (append_assoc xs (expire now c ∷ []) zs) in
    let size : suc (length xs) ≡ length ys = omega (arith, length-append xs (expire now c ∷ [])) in
    let distinct = subst AreDistinct (next cs) (AreDistinct-expire now xs cs c h) in
    let fds' = fds ++ stale_fd now c in
    sweep_from_step now xs cs c n fds h
    ∙ ap (λ k. sweep_from now k (length cs) (table (xs ++ expire now c ∷ cs) n fds')) size
    ∙ ap (λ zs. sweep_from now (length ys) (length cs) (table zs n fds')) (next cs)
    ∙ sweep_from-expire now ys cs n fds' distinct
    ∙ ap (λ zs. table zs n (fds' ++ stale_fds now cs)) (sym (next (map (expire now) cs)))
    ∙ ap (table (xs ++ expire now c ∷ map (expire now) cs) n)
        (append_assoc fds (stale_fd now c) (stale_fds now cs))

-- The sweep ends each client that has been silent for longer than the limit, closes its
-- descriptor, and does nothing else: `client_count` too stays as it was.
pub check_timeout_clients-expire :
    (now : ℕ) (t : Table)
    → length t.states ≡ max_clients
    → AreDistinct t.states
    → check_timeout_clients now t ≡ record {
      states = map (expire now) t.states;
      client_count = t.client_count;
      closed = t.closed ++ stale_fds now t.states;
    }
unfolding check_timeout_clients
check_timeout_clients-expire now t size h =
    ap (λ k. sweep_from now 0 k t) (sym size)
    ∙ sweep_from-expire now [] t.states t.client_count t.closed h
