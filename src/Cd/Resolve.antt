-- ===== src/Cd/Resolve.antt =====
-- Path resolution over the tree of directories, without ids, statements or arrays: what `cd`
-- promises.
use cloud_sys.Base.Int.{ℤ, pos, int_eq}
use cloud_sys.Base.{
  ℕ, zero, suc, ◌≡◌, refl, sym, ap, subst, ◌∙◌, inl, inr, Option-cases, Bool, true, false, List, [],
  ◌∷◌, ◌++◌, Option, none, some, if◌then◌else◌, length, take, arith,
}
use cloud_sys.CString.{Bytes, bytes_eq}
use cloud_sys.Database.{Mysql}
use cloud_sys.PathStack.{Cwd, done}
use cloud_sys.PathStack.Spec.{Represents, push_names, pop_names}
use cloud_sys.Cd.{Outcome, stop, go_on, dot, dot_dot}
use cloud_sys.Cd.Directory.{Directory}

-- A piece that fails ends the walk where it stands.
unfoldable pub then_names : Bool × List Bytes → (List Bytes → Bool × List Bytes) → Bool × List Bytes
then_names (true, ds) rest = rest ds
then_names (false, ds) rest = (false, ds)

module _ {m : Mysql} (tree : Directory m) where
  open tree use {child, Stores}

  -- The directory that names lead to, down from the directory `id`.
  abbrev pub id_of : ℤ → List Bytes → Option ℤ
  id_of id [] = some id
  id_of id (n ∷ ns) = elim (child id n) [ none ↦ none | some c ↦ id_of c ns ]

  abbrev pub is_some : Option ℤ → Bool
  is_some none = false
  is_some (some id) = true

  -- One piece: whether the walk goes on, and where it then stands.
  unfoldable pub piece_names : Bool → Bytes → List Bytes → Bool × List Bytes
  piece_names memory name ds =
      if bytes_eq name dot_dot
      then (true, (pop_names ds).1)
      else if bytes_eq name dot
      then (true, ds)
      else if is_some (id_of (pos 1) (ds ++ name ∷ []))
      then (let (code, ds') = push_names memory name ds in (int_eq code done, ds'))
      else (false, ds)

  unfoldable pub resolve : (ℕ → Bool) → List Bytes → List Bytes → Bool × List Bytes
  unfolding then_names
  resolve memory [] ds = (true, ds)
  resolve memory (name ∷ names) ds =
      then_names (piece_names (memory (length names)) name ds) (resolve memory names)

  -- The stack stands for these names, and `current_pwd_id` is the directory that they lead to.
  pub record Located (s : Cwd) (ds : List Bytes) : Type 0 where
    pub stack : Represents s ds
    pub id : id_of (pos 1) ds ≡ some s.current_pwd_id

  abbrev pub Agrees : Outcome m.Db → Bool × List Bytes → Type 0
  Agrees o (true, ds) = (t : Cwd) × (d : m.Db) × (o ≡ go_on t d) × Located t ds × Stores d
  Agrees o (false, ds) =
      (message : Bytes) × (t : Cwd) × (d : m.Db) × (o ≡ stop message t d) × Located t ds × Stores d

  id_of-cons :
      (id q : ℤ) (n : Bytes) (ns : List Bytes)
      → id_of id (n ∷ ns) ≡ some q
      → (c : ℤ) × (child id n ≡ some c) × (id_of c ns ≡ some q)
  id_of-cons id q n ns e = elim (Option-cases (child id n)) [
    | inl h ↦ absurd (ground arith)
    | inr (c, h) ↦ (c, h, rw (h, id_of) at e)
  ]

  id_of_step :
      (id c : ℤ) (n : Bytes) (ns : List Bytes)
      → child id n ≡ some c
      → id_of id (n ∷ ns) ≡ id_of c ns
  id_of_step id c n ns h = rw (h, id_of)

  id_of_one : (id : ℤ) (n : Bytes) → id_of id (n ∷ []) ≡ child id n
  id_of_one id n = elim (Option-cases (child id n)) [
    | inl h ↦ rw (h, id_of)
    | inr (c, h) ↦ rw (h, id_of)
  ]

  pub id_of-snoc :
      (id q : ℤ) (ds : List Bytes) (n : Bytes)
      → id_of id ds ≡ some q
      → id_of id (ds ++ n ∷ []) ≡ child q n
  id_of-snoc id q [] n e = let z : id ≡ q = cc in id_of_one id n ∙ ap (λ p. child p n) z
  id_of-snoc id q (d ∷ ds) n e =
      let (c, h, e') = id_of-cons id q d ds e in
      id_of_step id c d (ds ++ n ∷ []) h ∙ id_of-snoc c q ds n e'

  -- The last name of a path leads from the directory above.
  pub id_of-last :
      (id c : ℤ) (k : ℕ) (ds : List Bytes)
      → length ds ≡ suc k
      → id_of id ds ≡ some c
      → (q : ℤ) × (n : Bytes) × (id_of id (take k ds) ≡ some q) × (child q n ≡ some c)
  id_of-last id c k [] l e = absurd (omega arith)
  id_of-last id c zero (d ∷ ds) l e = (id, d, refl, sym (id_of_one id d) ∙ nil ds (omega arith) e)
    where
      nil :
          (xs : List Bytes)
          → length xs ≡ 0
          → id_of id (d ∷ xs) ≡ some c
          → id_of id (d ∷ []) ≡ some c
      nil [] z h = h
      nil (x ∷ xs) z h = absurd (omega arith)
  id_of-last id c (suc k) (d ∷ ds) l e =
      let (p, h, e') = id_of-cons id c d ds e in
      let (q, n, f, g) = id_of-last p c k ds (omega arith) e' in
      (q, n, id_of_step id p d (take k ds) h ∙ f, g)

  pub id_of-IsId : (id c : ℤ) (ds : List Bytes) → tree.IsId id → id_of id ds ≡ some c → tree.IsId c
  id_of-IsId id c [] i e = let z : id ≡ c = cc in subst tree.IsId z i
  id_of-IsId id c (d ∷ ds) i e =
      let (q, h, e') = id_of-cons id c d ds e in id_of-IsId q c ds (tree.child-IsId id q d h) e'

  pub Located-IsId : {s : Cwd} {ds : List Bytes} → Located s ds → tree.IsId s.current_pwd_id
  Located-IsId {s} {ds} loc = id_of-IsId (pos 1) s.current_pwd_id ds tree.root-IsId loc.id
