-- ===== src/Cd/Tests.antt =====
-- A small server with one directory and one user, "docs", and the theorems on `cd` in it.
use cloud_sys.Base.Int.{ℤ, pos, negsuc}
use cloud_sys.Base.{
  ◌≡◌, refl, ap, subst, sym, ◌⊎◌, inl, inr, true, false, ◌&&◌, List, [], ◌∷◌, ◌++◌, Option, none,
  some, ◌==◌, if◌then◌else◌, arith,
}
use cloud_sys.CString.{Bytes, bytes_eq, dec_int, strtok}
use cloud_sys.Database.{Mysql, Row}
use cloud_sys.PathStack.{Cwd, fresh, stack_init}
use cloud_sys.PathStack.Refinement.{stack_init-Represents, stack_init-root}
use cloud_sys.Cd.{sql_parent, sql_child, cd_pieces, dir_cd, dot_dot, dot}
use cloud_sys.Users.{sql_get_salt, sql_get_password}
use cloud_sys.Cd.Directory.{Directory, id_rows}
use cloud_sys.Cd.Resolve.{resolve, Located}
use cloud_sys.Cd.Correct.{ArePlain, Returns, start_names, dir_cd-resolve, dir_cd-fresh_crash}

abbrev pub docs : Bytes
docs = b'd' ∷ b'o' ∷ b'c' ∷ b's' ∷ []

abbrev pub pics : Bytes
pics = b'p' ∷ b'i' ∷ []

abbrev answer : Bytes → List Row
answer sql =
    if bytes_eq sql (sql_child (pos 1) docs)
    then id_rows (some (pos 5))
    else if bytes_eq sql (sql_parent (pos 5))
    then id_rows (some (pos 1))
    else if bytes_eq sql (sql_get_salt docs)
    then (some pics ∷ []) ∷ []
    else if bytes_eq sql (sql_get_password docs)
    then (some docs ∷ []) ∷ []
    else []

-- The connection holds the rows of the last statement.
abbrev pub server : Mysql
server = record {
  Db = List Row;
  run = λ sql d. (true, answer sql);
  store_result = λ d. (some d, d);
  affected_rows = λ d. some 0;
  escape = λ s. s;
  ping = λ d. true;
}

abbrev child_of : ℤ → Bytes → Option ℤ
child_of (pos n) name = if n == 1 && bytes_eq name docs then some (pos 5) else none
child_of (negsuc n) name = none

abbrev parent_of : ℤ → Option ℤ
parent_of (pos n) = if n == 5 then some (pos 1) else none
parent_of (negsuc n) = none

abbrev KnownId : ℤ → Type 0
KnownId id = (id ≡ pos 1) ⊎ (id ≡ pos 5)

abbrev KnownName : Bytes → Type 0
KnownName name = (name ≡ docs) ⊎ (name ≡ pics) ⊎ (name ≡ dot_dot)

child_answers :
    (id : ℤ) (name : Bytes)
    → KnownId id
    → KnownName name
    → answer (sql_child id name) ≡ id_rows (child_of id name)
unfolding sql_child sql_parent dec_int sql_get_salt sql_get_password
child_answers id name (inl e) (inl h) = rw (e, h)
child_answers id name (inl e) (inr (inl h)) = rw (e, h)
child_answers id name (inl e) (inr (inr h)) = rw (e, h)
child_answers id name (inr e) (inl h) = rw e
child_answers id name (inr e) (inr (inl h)) = rw e
child_answers id name (inr e) (inr (inr h)) = rw e

parent_answers : (id : ℤ) → KnownId id → answer (sql_parent id) ≡ id_rows (parent_of id)
unfolding sql_child sql_parent dec_int sql_get_salt sql_get_password
parent_answers id (inl e) = rw e
parent_answers id (inr e) = rw e

child_is_five : (id c : ℤ) (name : Bytes) → child_of id name ≡ some c → (id ≡ pos 1) × (c ≡ pos 5)
child_is_five (pos n) c name h = ground arith
child_is_five (negsuc n) c name h = absurd (ground arith)

filed : (id c : ℤ) (name : Bytes) → child_of id name ≡ some c → parent_of c ≡ some id
filed id c name h = let (a, b) = child_is_five id c name h in rw (b, a)

pub one_directory : Directory server
one_directory = record {
  child = child_of;
  parent = parent_of;
  IsId = KnownId;
  root-IsId = inl refl;
  child-IsId = λ id c name h. inr (child_is_five id c name h).1;
  IsPlain = KnownName;
  Stores = λ d. Unit {0};
  after_child = λ id name d. answer (sql_child id name);
  after_parent = λ id d. answer (sql_parent id);
  child_runs = λ id name d s i p. refl;
  child_rows =
      λ id name d s i p. ap (λ r. (some r, answer (sql_child id name))) (child_answers id name i p);
  parent_runs = λ id d s i. refl;
  parent_rows = λ id d s i. ap (λ r. (some r, answer (sql_parent id))) (parent_answers id i);
  child_keeps = λ id name d s. tt;
  parent_keeps = λ id d s. tt;
  parent-child = λ id c name h. filed id c name h;
  child-ne_root = λ id c name h e. ground (arith, child_is_five id c name h);
}

abbrev pub start : Cwd
start = (stack_init fresh).1

pub start-Located : Located one_directory start []
start-Located = record {
  stack = stack_init-Represents fresh;
  id = ap some (sym (stack_init-root fresh));
}

-- "docs/../docs/pi": the last piece is missing.
abbrev path : Bytes
path = docs ++ (b'/' ∷ (dot_dot ++ (b'/' ∷ (docs ++ (b'/' ∷ pics)))))

path_pieces : cd_pieces server path ≡ docs ∷ dot_dot ∷ docs ∷ pics ∷ []
unfolding cd_pieces strtok
path_pieces = refl

path_plain : ArePlain one_directory (cd_pieces server path)
unfolding one_directory
path_plain =
    subst (ArePlain one_directory) (sym path_pieces)
      (inl refl, (inr (inr refl), (inl refl, (inr (inl refl), tt))))

dir_cd-resolve_example :
    Returns one_directory 4096
      (dir_cd server (λ _. true) path 4096 start [])
      (resolve one_directory (λ _. true) (cd_pieces server path) (start_names path []))
unfolding one_directory
dir_cd-resolve_example =
    dir_cd-resolve one_directory (λ _. true) path 4096 start [] [] start-Located tt path_plain
      (λ e. omega arith) (λ e. omega arith)

-- It fails, and leaves the server in "docs".
stays_inside :
    resolve one_directory (λ _. true) (cd_pieces server path) (start_names path [])
    ≡ (false, docs ∷ [])
unfolding one_directory resolve cloud_sys.Cd.Resolve.piece_names cd_pieces strtok
    cloud_sys.PathStack.Spec.push_names cloud_sys.PathStack.Spec.pop_names
stays_inside = refl

docs_pieces : cd_pieces server docs ≡ docs ∷ []
unfolding cd_pieces strtok
docs_pieces = refl

dir_cd-fresh_crash_example : dir_cd server (λ _. true) docs 4096 fresh [] ≡ none
unfolding one_directory
dir_cd-fresh_crash_example =
    dir_cd-fresh_crash one_directory docs docs [] 4096 [] (pos 5) tt (inl refl) refl docs_pieces
      refl (λ e. omega arith) (λ e. omega arith) refl refl (λ e. omega arith)

pub docs-ArePlain : ArePlain one_directory (cd_pieces server docs)
unfolding one_directory
docs-ArePlain = subst (ArePlain one_directory) (sym docs_pieces) (inl refl, tt)

pub docs_resolves :
    resolve one_directory (λ _. true) (cd_pieces server docs) (start_names docs [])
    ≡ (true, docs ∷ [])
unfolding one_directory resolve cloud_sys.Cd.Resolve.piece_names cd_pieces strtok
    cloud_sys.PathStack.Spec.push_names
docs_resolves = refl

pub always_stored : (d : List Row) → one_directory.Stores d
unfolding one_directory
always_stored d = tt

pub up_resolves :
    resolve one_directory (λ _. true) (cd_pieces server dot_dot) (start_names dot_dot (docs ∷ []))
    ≡ (true, [])
unfolding one_directory resolve cloud_sys.Cd.Resolve.piece_names cd_pieces strtok
    cloud_sys.PathStack.Spec.push_names cloud_sys.PathStack.Spec.pop_names
up_resolves = refl

up_pieces : cd_pieces server dot_dot ≡ dot_dot ∷ []
unfolding cd_pieces strtok
up_pieces = refl

pub up-ArePlain : ArePlain one_directory (cd_pieces server dot_dot)
unfolding one_directory
up-ArePlain = subst (ArePlain one_directory) (sym up_pieces) (inr (inr refl), tt)
