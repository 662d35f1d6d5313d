-- ===== src/Clients/Distinct.antt =====
-- No two slots in use hold one descriptor.
use cloud_sys.Base.{
  ℕ, ◌≡◌, refl, inl, inr, true, false, List, [], ◌∷◌, ◌++◌, none, arith, Bool-cases,
}
use cloud_sys.Clients.{ClientState, is_client, find, kill}

-- No slot in use holds the descriptor.
abbrev pub Absent : ℕ → List ClientState → Type 0
Absent fd [] = Unit {0}
Absent fd (c ∷ cs) = (is_client fd c ≡ false) × Absent fd cs

abbrev pub AreDistinct : List ClientState → Type 0
AreDistinct [] = Unit {0}
AreDistinct (c ∷ cs) = (c.is_alive ≡ true → Absent c.netfd cs) × AreDistinct cs

pub find-Absent : (fd : ℕ) (cs : List ClientState) → Absent fd cs → find (is_client fd) cs ≡ none
unfolding find
find-Absent fd [] h = refl
find-Absent fd (c ∷ cs) h = rw (h.0, find-Absent fd cs h.1)

pub Absent-find : (fd : ℕ) (cs : List ClientState) → find (is_client fd) cs ≡ none → Absent fd cs
unfolding find
Absent-find fd [] h = tt
Absent-find fd (c ∷ cs) h = elim (Bool-cases (is_client fd c)) [
  | inl e ↦ absurd (ground arith)
  | inr e ↦ (e, Absent-find fd cs (ground arith))
]

Absent-kill :
    (fd : ℕ) (xs cs : List ClientState) (c : ClientState)
    → Absent fd (xs ++ c ∷ cs)
    → Absent fd (xs ++ kill c ∷ cs)
Absent-kill fd [] cs c h = (refl, h.1)
Absent-kill fd (x ∷ xs) cs c h = (h.0, Absent-kill fd xs cs c h.1)

pub AreDistinct-kill :
    (xs cs : List ClientState) (c : ClientState)
    → AreDistinct (xs ++ c ∷ cs)
    → AreDistinct (xs ++ kill c ∷ cs)
AreDistinct-kill [] cs c h = (λ e. cc, h.1)
AreDistinct-kill (x ∷ xs) cs c h =
    (λ e. Absent-kill x.netfd xs cs c (h.0 e), AreDistinct-kill xs cs c h.1)

Absent-middle :
    (fd : ℕ) (xs cs : List ClientState) (c : ClientState)
    → Absent fd (xs ++ c ∷ cs)
    → is_client fd c ≡ false
Absent-middle fd [] cs c h = h.0
Absent-middle fd (x ∷ xs) cs c h = Absent-middle fd xs cs c h.1

other_fd :
    (x c : ClientState) (xs cs : List ClientState)
    → (x.is_alive ≡ true → Absent x.netfd (xs ++ c ∷ cs))
    → c.is_alive ≡ true
    → is_client c.netfd x ≡ false
other_fd x c xs cs h e = elim (Bool-cases x.is_alive) [
  | inl a ↦ ground (arith, Absent-middle x.netfd xs cs c (h a))
  | inr a ↦ ground arith
]

-- Where a client is in use, no other slot holds its descriptor.
pub Absent-once_killed :
    (xs cs : List ClientState) (c : ClientState)
    → AreDistinct (xs ++ c ∷ cs)
    → c.is_alive ≡ true
    → Absent c.netfd (xs ++ kill c ∷ cs)
Absent-once_killed [] cs c h e = (refl, h.0 e)
Absent-once_killed (x ∷ xs) cs c h e = (other_fd x c xs cs h.0 e, Absent-once_killed xs cs c h.1 e)
