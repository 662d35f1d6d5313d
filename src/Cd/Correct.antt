-- ===== src/Cd/Correct.antt =====
-- `dir_cd` as path resolution, and its crash before the stack is initialised.
use cloud_sys.Base.Int.{ℤ, pos}
use cloud_sys.Base.{
  ℕ, ◌≡◌, ◌≢◌, refl, sym, ap, ◌∙◌, inl, inr, Bool, true, false, List, [], ◌∷◌, Option, none, some,
  if◌then◌else◌, length, Bool-cases, ◌==◌, ne→==, get_or,
}
use cloud_sys.CString.{Bytes, bytes_eq}
use cloud_sys.Database.{Mysql}
use cloud_sys.PathStack.{Cwd, fresh}
use cloud_sys.PathStack.Spec.{path_of}
use cloud_sys.PathStack.Refinement.{
  stack_clear-Represents, stack_clear-root, stack_push-fresh_crash,
}
use cloud_sys.Cd.{
  Outcome, crash, next, dot, dot_dot, success, failure_code, snprintf, cd_piece, cd_loop, cd_return,
  cd_pieces, cd_start, dir_cd, pushed_reply,
}
use cloud_sys.Cd.Directory.{Directory}
use cloud_sys.Cd.Resolve.{piece_names, then_names, resolve, Located, Agrees}
use cloud_sys.Cd.Steps.{cd_piece-Agrees, found_reply}

abbrev pub is_absolute : Bytes → Bool
is_absolute path = get_or path 0 0 == b'/'

abbrev pub start_names : Bytes → List Bytes → List Bytes
start_names path ds = if is_absolute path then [] else ds

module _ {m : Mysql} (tree : Directory m) where
  open tree use {child, IsPlain, Stores}

  abbrev pub ArePlain : List Bytes → Type 0
  ArePlain [] = Unit {0}
  ArePlain (n ∷ ns) = IsPlain n × ArePlain ns

  next-Agrees :
      (o : Outcome m.Db) (r : Bool × List Bytes) (f : Cwd → m.Db → Outcome m.Db)
      (g : List Bytes → Bool × List Bytes)
      → Agrees tree o r
      → ((t : Cwd) (ds : List Bytes) (d : m.Db)
          → Located tree t ds
          → Stores d
          → Agrees tree (f t d) (g ds))
      → Agrees tree (next o f) (then_names r g)
  unfolding next then_names
  next-Agrees o (true, ds) f g (t, d, e, loc, st) rest = rw e (rest t ds d loc st)
  next-Agrees o (false, ds) f g (message, t, d, e, loc, st) rest = (message, t, d, rw e, loc, st)

  cd_loop-Agrees :
      (memory : ℕ → Bool) (names : List Bytes) (s : Cwd) (ds : List Bytes) (d : m.Db)
      → Located tree s ds
      → Stores d
      → ArePlain names
      → Agrees tree (cd_loop m memory names s d) (resolve tree memory names ds)
  unfolding cd_loop resolve
  cd_loop-Agrees memory [] s ds d loc st plain = (s, d, refl, loc, st)
  cd_loop-Agrees memory (n ∷ ns) s ds d loc st plain =
      let rest =
        λ (t : Cwd) (es : List Bytes) (d' : m.Db) (l : Located tree t es) (st' : Stores d').
          cd_loop-Agrees memory ns t es d' l st' plain.1 in
      next-Agrees (cd_piece m (memory (length ns)) n s d)
        (piece_names tree (memory (length ns)) n ds) (cd_loop m memory ns) (resolve tree memory ns)
        (cd_piece-Agrees tree (memory (length ns)) n s ds d loc st plain.0) rest

  -- What `cd` to a path that is not empty returns: the code and, on success, the response.
  abbrev pub Returns : ℕ → Option (ℤ × Bytes × Cwd × m.Db) → Bool × List Bytes → Type 0
  Returns size r (ok, ds) =
      (response : Bytes) × (t : Cwd) × (d : m.Db) × (r
        ≡ some (if ok then success else failure_code, response, t, d))
      × (ok ≡ true → response ≡ snprintf size (path_of ds))
      × Located tree t ds
      × Stores d

  cd_return-Returns :
      (size : ℕ) (o : Outcome m.Db) (r : Bool × List Bytes)
      → Agrees tree o r
      → Returns size (cd_return m size o) r
  unfolding cd_return
  cd_return-Returns size o (true, ds) (t, d, e, loc, st) =
      (snprintf size t.cur_v_path, t, d, rw e, λ _. ap (snprintf size) loc.stack.path, loc, st)
  cd_return-Returns size o (false, ds) (message, t, d, e, loc, st) =
      (snprintf size message, t, d, rw e, λ z. cc, loc, st)

  start-Located :
      (path : Bytes) (s : Cwd) (ds : List Bytes)
      → Located tree s ds
      → Located tree (cd_start m path s) (start_names path ds)
  unfolding cd_start
  start-Located path s ds loc = elim (Bool-cases (is_absolute path)) [
    | inl e ↦
        rw e (record { stack = stack_clear-Represents s; id = ap some (sym (stack_clear-root s)) })
    | inr e ↦ rw e loc
  ]

  -- Where the current directory is located in a tree that the database stores, `cd` to a path that
  -- is not empty, each piece of which the tree can look up, resolves it: from the root if the path
  -- is absolute, else from the current directory. It returns SUCCESS with the path of the directory
  -- that it comes to, or FAILURE, and leaves the server where the walk ended.
  pub dir_cd-resolve :
      (memory : ℕ → Bool) (path : Bytes) (size : ℕ) (s : Cwd) (ds : List Bytes) (d : m.Db)
      → Located tree s ds
      → Stores d
      → ArePlain (cd_pieces m path)
      → length path ≢ 0
      → size ≢ 0
      → Returns size
          (dir_cd m memory path size s d)
          (resolve tree memory (cd_pieces m path) (start_names path ds))
  unfolding dir_cd
  dir_cd-resolve memory path size s ds d loc st plain ne ne' =
      rw (ne→== size 0 ne', ne→== (length path) 0 ne)
        (cd_return-Returns size _ _ (
          cd_loop-Agrees memory (cd_pieces m path) (cd_start m path s) (start_names path ds) d
            (start-Located path s ds loc) st plain))

  fresh_piece :
      (name : Bytes) (d : m.Db) (c : ℤ)
      → Stores d
      → IsPlain name
      → child (pos 1) name ≡ some c
      → length name ≢ 0
      → bytes_eq name dot_dot ≡ false
      → bytes_eq name dot ≡ false
      → cd_piece m true name fresh d ≡ crash
  unfolding cd_piece pushed_reply
  fresh_piece name d c st plain there ne up here =
      rw (up, here)
        (found_reply tree true name fresh c d there st tree.root-IsId plain
          ∙ ap (pushed_reply m name c (tree.after_child (pos 1) name d))
              (stack_push-fresh_crash name ne))

  -- Before the first login the stack is as the initialisers leave it, and `cd` by a relative path whose
  -- first piece, neither "." nor "..", names a directory that is there under the root, runs into the
  -- NULL slot. The response buffer is not empty, and `strdup` finds memory.
  pub dir_cd-fresh_crash :
      (path name : Bytes) (names : List Bytes) (size : ℕ) (d : m.Db) (c : ℤ)
      → Stores d
      → IsPlain name
      → child (pos 1) name ≡ some c
      → cd_pieces m path ≡ name ∷ names
      → is_absolute path ≡ false
      → length path ≢ 0
      → length name ≢ 0
      → bytes_eq name dot_dot ≡ false
      → bytes_eq name dot ≡ false
      → size ≢ 0
      → dir_cd m (λ _. true) path size fresh d ≡ none
  unfolding dir_cd cd_loop next cd_start
  dir_cd-fresh_crash path name names size d c st plain there pieces relative ne ne' up here ne'' =
      rw (ne→== size 0 ne'', ne→== (length path) 0 ne)
        (ap (cd_return m size) (
          ap (λ s. cd_loop m (λ _. true) (cd_pieces m path) s d) start
          ∙ ap (λ ns. cd_loop m (λ _. true) ns fresh d) pieces
          ∙ first))
    where
      start : cd_start m path fresh ≡ fresh
      start = rw relative

      piece : cd_piece m true name fresh d ≡ crash
      piece = fresh_piece name d c st plain there ne' up here

      first : cd_loop m (λ _. true) (name ∷ names) fresh d ≡ crash
      first = rw piece
