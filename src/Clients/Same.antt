-- ===== src/Clients/Same.antt =====
-- A change of a slot that leaves it in use by the same descriptor, or free.
use cloud_sys.Base.{
  ℕ, zero, suc, ◌+◌, ◌≡◌, refl, sym, ap, ◌∙◌, List, [], ◌∷◌, arith, get_or, length-modify, modify,
  if◌then◌else◌, ◌&&◌, ◌==◌,
}
use cloud_sys.Clients.{ClientState, Table, no_client, is_client, touch}
use cloud_sys.Clients.Distinct.{Absent, AreDistinct}
use cloud_sys.Clients.Lookup.{alive_count, IsValid}

-- The slot is in use as before, and by the same descriptor.
abbrev pub Same : ClientState → ClientState → Type 0
Same c d = (d.netfd ≡ c.netfd) × (d.is_alive ≡ c.is_alive)

is_client-Same : (fd : ℕ) (c d : ClientState) → Same c d → is_client fd d ≡ is_client fd c
is_client-Same fd c d h = ap (λ a. a && d.netfd == fd) h.1 ∙ ap (λ n. c.is_alive && n == fd) h.0

module _ (g : ClientState → ClientState) where
  -- `g` leaves this slot to the same descriptor.
  abbrev SameAt : List ClientState → ℕ → Type 0
  SameAt cs i = Same (get_or cs i no_client) (g (get_or cs i no_client))

  Absent-Same :
      (fd i : ℕ) (cs : List ClientState) → SameAt cs i → Absent fd cs → Absent fd (modify cs i g)
  Absent-Same fd i [] h a = tt
  Absent-Same fd zero (c ∷ cs) h a = (is_client-Same fd c (g c) h ∙ a.0, a.1)
  Absent-Same fd (suc i) (c ∷ cs) h a = (a.0, Absent-Same fd i cs h a.1)

  AreDistinct-Same :
      (i : ℕ) (cs : List ClientState) → SameAt cs i → AreDistinct cs → AreDistinct (modify cs i g)
  AreDistinct-Same i [] h d = tt
  AreDistinct-Same zero (c ∷ cs) h d = (λ e. rw h.0 (d.0 (sym h.1 ∙ e)), d.1)
  AreDistinct-Same (suc i) (c ∷ cs) h d =
      (λ e. Absent-Same c.netfd i cs h (d.0 e), AreDistinct-Same i cs h d.1)

  alive_count-Same :
      (i : ℕ) (cs : List ClientState) → SameAt cs i → alive_count (modify cs i g) ≡ alive_count cs
  unfolding alive_count
  alive_count-Same i [] h = refl
  alive_count-Same zero (c ∷ cs) h = rw h.1 refl
  alive_count-Same (suc i) (c ∷ cs) h =
      ap (λ n. (if c.is_alive then 1 else 0) + n) (alive_count-Same i cs h)

  pub modify-IsValid :
      (i : ℕ) (t : Table)
      → SameAt t.states i
      → IsValid t
      → IsValid (record t { states = modify t.states i g })
  modify-IsValid i t h v = record {
    size = length-modify t.states i g ∙ v.size;
    distinct = AreDistinct-Same i t.states h v.distinct;
    counted = omega (arith, alive_count-Same i t.states h, v.counted);
  }

pub touch-IsValid : (i now : ℕ) (t : Table) → IsValid t → IsValid (touch i now t)
unfolding touch
touch-IsValid i now t v = modify-IsValid (λ c. record c { last_active = now }) i t (refl, refl) v
