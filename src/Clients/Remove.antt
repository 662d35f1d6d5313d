-- ===== src/Clients/Remove.antt =====
-- `remove_client_state`: no slot is left in use by the descriptor.
use cloud_sys.Base.{
  ℕ, ◌≡◌, refl, inl, inr, false, List, [], ◌∷◌, Option, none, some, arith, Bool-cases, modify,
}
use cloud_sys.Clients.{
  ClientState, Table, is_client, find, retire, drop_slot, one_on, remove_client_state,
}
use cloud_sys.Clients.Distinct.{Absent, AreDistinct}

dropped : List ClientState → Option ℕ → List ClientState
dropped cs none = cs
dropped cs (some i) = modify cs i retire

Absent-dropped :
    (fd : ℕ) (cs : List ClientState)
    → AreDistinct cs
    → Absent fd (dropped cs (find (is_client fd) cs))
unfolding dropped find retire
Absent-dropped fd [] h = tt
Absent-dropped fd (c ∷ cs) h = elim (Bool-cases (is_client fd c)) [
  | inl e ↦ rw e (refl, ground (arith, h.0))
  | inr e ↦ rw e (behind (find (is_client fd) cs) e (Absent-dropped fd cs h.1))
]
  where
    behind :
        (o : Option ℕ)
        → is_client fd c ≡ false
        → Absent fd (dropped cs o)
        → Absent fd (dropped (c ∷ cs) (one_on o))
    behind none e r = (e, r)
    behind (some i) e r = (e, r)

-- In a table where no two slots are in use by one descriptor, `remove_client_state` leaves none that
-- is in use by its descriptor.
pub remove_client_state-Absent :
    (fd : ℕ) (t : Table) → AreDistinct t.states → Absent fd (remove_client_state fd t).states
unfolding remove_client_state drop_slot dropped
remove_client_state-Absent fd t h =
    slot (find (is_client fd) t.states) (Absent-dropped fd t.states h)
  where
    slot : (o : Option ℕ) → Absent fd (dropped t.states o) → Absent fd (drop_slot t o).states
    slot none r = r
    slot (some i) r = r
