-- ===== src/Clients/Lookup.antt =====
-- `get_client_state`: the slot that it finds or takes, and the invariant of the table.
use cloud_sys.Base.Int.{pos}
use cloud_sys.Base.{
  sym, ℕ, zero, suc, ◌+◌, ◌≤◌, ◌≡◌, ◌≢◌, refl, ap, ◌∙◌, ◌⊎◌, inl, inr, Bool, true, false, List, [],
  ◌∷◌, Option, none, some, if◌then◌else◌, arith, Bool-cases, Option-cases, length, get_elem?,
  modify, length-modify, length-replicate, replicate, ==_refl, ne→==,
}
use cloud_sys.Clients.{
  ClientState, Table, max_clients, no_client, init, is_client, is_free, find, occupy, take_slot,
  get_client_state,
}
use cloud_sys.Clients.Distinct.{Absent, AreDistinct, Absent-find}

unfoldable pub alive_count : List ClientState → ℕ
alive_count [] = 0
alive_count (c ∷ cs) = (if c.is_alive then 1 else 0) + alive_count cs

pub record IsValid (t : Table) : Type 0 where
  pub size : length t.states ≡ max_clients
  pub distinct : AreDistinct t.states
  pub counted : alive_count t.states ≤ t.client_count

find-cons :
    (p : ClientState → Bool) (c : ClientState) (cs : List ClientState) (i : ℕ)
    → find p (c ∷ cs) ≡ some i
    → ((p c ≡ true) × (i ≡ 0)) ⊎ ((p c ≡ false) × ((j : ℕ) × (i ≡ suc j) × (find p cs ≡ some j)))
unfolding find
find-cons p c cs i h = elim (Bool-cases (p c)) [
  | inl e ↦ inl (e, ground arith)
  | inr e ↦ elim (Option-cases (find p cs)) [
    | inl z ↦ absurd (ground arith)
    | inr (j, z) ↦ inr (e, (j, ground arith, z))
  ]
]

module _ (fd now : ℕ) where
  Absent-occupy :
      (fd' i : ℕ) (cs : List ClientState)
      → fd ≢ fd'
      → Absent fd' cs
      → Absent fd' (modify cs i (occupy fd now))
  unfolding occupy
  Absent-occupy fd' i [] ne h = tt
  Absent-occupy fd' zero (c ∷ cs) ne h = (ne→== fd fd' ne, h.1)
  Absent-occupy fd' (suc i) (c ∷ cs) ne h = (h.0, Absent-occupy fd' i cs ne h.1)

  -- The slot that was taken is the one that the descriptor is then found in.
  find-occupy :
      (i : ℕ) (cs : List ClientState)
      → Absent fd cs
      → find is_free cs ≡ some i
      → find (is_client fd) (modify cs i (occupy fd now)) ≡ some i
  unfolding find occupy
  find-occupy i [] a h = h
  find-occupy i (c ∷ cs) a h = elim (find-cons is_free c cs i h) [
    | inl (free, e) ↦ rw e (rw (==_refl fd))
    | inr (used, (j, e, h')) ↦ rw e (rw (a.0, find-occupy j cs a.1 h'))
  ]

  AreDistinct-occupy :
      (i : ℕ) (cs : List ClientState)
      → Absent fd cs
      → AreDistinct cs
      → AreDistinct (modify cs i (occupy fd now))
  unfolding occupy
  AreDistinct-occupy i [] a h = tt
  AreDistinct-occupy zero (c ∷ cs) a h = (λ _. a.1, h.1)
  AreDistinct-occupy (suc i) (c ∷ cs) a h = (
    λ alive. Absent-occupy c.netfd i cs (λ e. ground arith) (h.0 alive),
    AreDistinct-occupy i cs a.1 h.1,
  )

  alive_count-occupy :
      (i : ℕ) (cs : List ClientState)
      → find is_free cs ≡ some i
      → alive_count (modify cs i (occupy fd now)) ≡ alive_count cs + 1
  unfolding alive_count find occupy
  alive_count-occupy i [] h = absurd (ground arith)
  alive_count-occupy i (c ∷ cs) h = elim (find-cons is_free c cs i h) [
    | inl (free, e) ↦ rw e (ground arith)
    | inr (used, (j, e, h')) ↦ rw e (omega (arith, alive_count-occupy j cs h'))
  ]

  -- The table of a descriptor that is not in it yet, when a slot is free.
  taken-IsValid :
      (t : Table) (i : ℕ)
      → IsValid t
      → Absent fd t.states
      → find is_free t.states ≡ some i
      → IsValid (take_slot fd now t (some i)).1
  unfolding take_slot
  taken-IsValid t i v a e = record {
    size = length-modify t.states i (occupy fd now) ∙ v.size;
    distinct = AreDistinct-occupy i t.states a v.distinct;
    counted = omega (arith, alive_count-occupy i t.states e, v.counted);
  }

  -- The three outcomes: the slot that the descriptor has, the first free slot, or none.
  abbrev Outcome : Table → Type 0
  Outcome t =
      ((i : ℕ) × (find (is_client fd) t.states ≡ some i)
        × (get_client_state fd now t ≡ (some i, t)))
      ⊎ ((i : ℕ) × Absent fd t.states
          × (find is_free t.states ≡ some i)
          × (get_client_state fd now t ≡ take_slot fd now t (some i)))
      ⊎ (Absent fd t.states
          × (find is_free t.states ≡ none)
          × (get_client_state fd now t ≡ (none, t)))

  get_client_state-Outcome : (t : Table) → Outcome t
  unfolding get_client_state
  get_client_state-Outcome t = elim (Option-cases (find (is_client fd) t.states)) [
    | inr (i, e) ↦ inl (i, e, rw e)
    | inl e ↦ elim (Option-cases (find is_free t.states)) [
      | inr (i, h) ↦ inr (inl (i, Absent-find fd t.states e, h, rw (e, h)))
      | inl h ↦ inr (inr (Absent-find fd t.states e, h, rw (e, h)))
    ]
  ]

  -- Every lookup keeps the table well formed, whether it finds, takes or refuses a slot.
  pub get_client_state-IsValid : (t : Table) → IsValid t → IsValid (get_client_state fd now t).1
  get_client_state-IsValid t v = elim (get_client_state-Outcome t) [
    | inl (i, h, e) ↦ rw e v
    | inr (inl (i, a, h, e)) ↦ rw e (taken-IsValid t i v a h)
    | inr (inr (a, h, e)) ↦ rw e v
  ]

find_holds :
    (p : ClientState → Bool) (cs : List ClientState) (i : ℕ)
    → find p cs ≡ some i
    → (c : ClientState) × (get_elem? cs i ≡ some c) × (p c ≡ true)
find_holds p [] i h = unfold find in absurd (ground arith)
find_holds p (c ∷ cs) i h = elim (find-cons p c cs i h) [
  | inl (e, z) ↦ rw z (c, refl, e)
  | inr (e, (j, z, h')) ↦ rw z (find_holds p cs j h')
]

-- A slot of the descriptor, and the one slot in which two tables differ.
pub record Found (fd i : ℕ) (t t' : Table) : Type 0 where
  pub client : ClientState
  pub slot : get_elem? t'.states i ≡ some client
  pub is_fd : is_client fd client ≡ true
  pub frame : (j : ℕ) → j ≢ i → get_elem? t'.states j ≡ get_elem? t.states j

get_elem?-modify :
    (cs : List ClientState) (f : ClientState → ClientState) (i j : ℕ)
    → j ≢ i
    → get_elem? (modify cs i f) j ≡ get_elem? cs j
get_elem?-modify [] f i j ne = refl
get_elem?-modify (c ∷ cs) f zero zero ne = absurd (ne refl)
get_elem?-modify (c ∷ cs) f zero (suc j) ne = refl
get_elem?-modify (c ∷ cs) f (suc i) zero ne = refl
get_elem?-modify (c ∷ cs) f (suc i) (suc j) ne = get_elem?-modify cs f i j (λ e. ne (ap suc e))

full-alive_count : (cs : List ClientState) → find is_free cs ≡ none → alive_count cs ≡ length cs
unfolding find alive_count
full-alive_count [] h = refl
full-alive_count (c ∷ cs) h = elim (Bool-cases c.is_alive) [
  | inl e ↦ rw e (omega (arith, full-alive_count cs (ground arith)))
  | inr e ↦ absurd (ground arith)
]

-- The first slot that is not in use.
abbrev pub IsFirstFree : ℕ → List ClientState → Type 0
IsFirstFree i [] = ⊥
IsFirstFree zero (c ∷ cs) = c.is_alive ≡ false
IsFirstFree (suc i) (c ∷ cs) = (c.is_alive ≡ true) × IsFirstFree i cs

find-IsFirstFree : (i : ℕ) (cs : List ClientState) → find is_free cs ≡ some i → IsFirstFree i cs
unfolding find
find-IsFirstFree i [] h = absurd (ground arith)
find-IsFirstFree zero (c ∷ cs) h = elim (find-cons is_free c cs zero h) [
  | inl (free, e) ↦ ground arith
  | inr (used, (j, e, h')) ↦ absurd (omega (arith, e))
]
find-IsFirstFree (suc i) (c ∷ cs) h = elim (find-cons is_free c cs (suc i) h) [
  | inl (free, e) ↦ absurd (omega (arith, e))
  | inr (used, (j, e, h')) ↦
      let same : i ≡ j = omega (arith, e) in
      (ground arith, find-IsFirstFree i cs (h' ∙ ap some (sym same)))
]

-- The slot of a client that has just been seen for the first time.
abbrev pub newcomer : ℕ → ℕ → ClientState
newcomer fd now = record {
  netfd = fd;
  username = [];
  logged_in = false;
  current_pwd_id = pos 1;
  virtual_path = [];
  is_alive = true;
  last_active = now;
}

-- The descriptor had no slot, and gets the first that is free, which holds nothing of the client
-- before and is counted.
pub record Takes (fd now i : ℕ) (t t' : Table) : Type 0 where
  pub absent : Absent fd t.states
  pub first : IsFirstFree i t.states
  pub fresh : get_elem? t'.states i ≡ some (newcomer fd now)
  pub counted : t'.client_count ≡ t.client_count + 1
  pub closed : t'.closed ≡ t.closed

-- What a lookup at the time `now` may return. A slot belongs to the descriptor, no other slot has
-- changed, and later lookups return it again and change nothing; either the table is as it was, or
-- the slot was taken. NULL comes with the table as it was, every slot in use and none by the
-- descriptor.
abbrev pub Held : ℕ → ℕ → Table → Option ℕ × Table → Type 0
Held fd now t (some i, t') =
    Found fd i t t'
    × ((later : ℕ) → get_client_state fd later t' ≡ (some i, t'))
    × ((t' ≡ t) ⊎ Takes fd now i t t')
Held fd now t (none, t') = (t' ≡ t) × Absent fd t.states × (alive_count t.states ≡ length t.states)

-- A slot that is there is the one that `modify` writes.
modified :
    (g : ClientState → ClientState) (i : ℕ) (cs : List ClientState)
    → IsFirstFree i cs
    → (c : ClientState) → ((x : ClientState) → g x ≡ c)
    → get_elem? (modify cs i g) i ≡ some c
modified g i [] h c same = absurd h
modified g zero (x ∷ cs) h c same = ap some (same x)
modified g (suc i) (x ∷ cs) h c same = modified g i cs h.1 c same

module _ (fd now : ℕ) (t : Table) where
  taken-Held :
      (i : ℕ)
      → Absent fd t.states
      → find is_free t.states ≡ some i
      → Held fd now t (take_slot fd now t (some i))
  unfolding take_slot get_client_state occupy
  taken-Held i a e =
      let there = find-occupy fd now i t.states a e in
      let (c, slot, is_fd) =
        find_holds (is_client fd) (modify t.states i (occupy fd now)) i there in
      let first = find-IsFirstFree i t.states e in
      (
        record {
          client = c;
          slot = slot;
          is_fd = is_fd;
          frame = λ j ne. get_elem?-modify t.states (occupy fd now) i j ne;
        },
        λ later. rw there,
        inr (record {
          absent = a;
          first = first;
          fresh = modified (occupy fd now) i t.states first (newcomer fd now) (λ x. refl);
          counted = refl;
          closed = refl;
        }),
      )

  known-Held : (i : ℕ) → find (is_client fd) t.states ≡ some i → Held fd now t (some i, t)
  unfolding get_client_state
  known-Held i h =
      let (c, slot, is_fd) = find_holds (is_client fd) t.states i h in
      (
        record { client = c; slot = slot; is_fd = is_fd; frame = λ j ne. refl },
        (λ later. rw h),
        inl refl,
      )

  -- A lookup returns the slot that the descriptor has, with the table as it was; or, if it has none,
  -- the first free slot, which then holds the descriptor, the time, the root's id and nothing of a
  -- client before, and is counted, while no other slot has changed; or NULL, with the table as it
  -- was, where it has none and every slot is in use. Later lookups of it return the same slot and
  -- change nothing.
  pub get_client_state-Held : Held fd now t (get_client_state fd now t)
  get_client_state-Held = elim (get_client_state-Outcome fd now t) [
    | inl (i, h, e) ↦ rw e (known-Held i h)
    | inr (inl (i, a, h, e)) ↦ rw e (taken-Held i a h)
    | inr (inr (a, h, e)) ↦ rw e (refl, a, full-alive_count t.states h)
  ]

pub Absent-replicate : (fd n : ℕ) → Absent fd (replicate n no_client)
Absent-replicate fd zero = tt
Absent-replicate fd (suc n) = (refl, Absent-replicate fd n)

pub AreDistinct-replicate : (n : ℕ) → AreDistinct (replicate n no_client)
AreDistinct-replicate zero = tt
AreDistinct-replicate (suc n) = (λ e. cc, AreDistinct-replicate n)

alive_count-replicate : (n : ℕ) → alive_count (replicate n no_client) ≡ 0
unfolding alive_count
alive_count-replicate zero = refl
alive_count-replicate (suc n) = omega (arith, alive_count-replicate n)

pub init-IsValid : IsValid init
unfolding init
init-IsValid = record {
  size = length-replicate max_clients no_client;
  distinct = AreDistinct-replicate max_clients;
  counted = omega (arith, alive_count-replicate max_clients);
}
