-- ===== src/PathStack/Spec.antt =====
-- What the directory stack stands for: the names of the directories from the root down, and the
-- virtual path that they spell.
use cloud_sys.Base.Int.{ℤ}
use cloud_sys.Base.{
  ℕ, suc, ◌-◌, ◌≤◌, ◌≡◌, Bool, not, List, [], ◌∷◌, ◌++◌, Option, some, ltb, ◌==◌, if◌then◌else◌,
  length, take,
}
use cloud_sys.CString.{Bytes}
use cloud_sys.PathStack.{Cwd, path_max, max_stack_size, root_path, done, failed}

unfoldable pub join : List Bytes → Bytes
join [] = []
join (d ∷ []) = d
join (d ∷ d' ∷ ds) = d ++ b'/' ∷ join (d' ∷ ds)

-- The path has room for PATH_MAX - 1 bytes, and is cut there.
unfoldable pub path_of : List Bytes → Bytes
unfolding join
path_of ds = take (path_max - 1) (root_path ++ join ds)

-- The slots from `i` on hold the names `ds`.
abbrev pub Holds : (ℕ → Option Bytes) → ℕ → List Bytes → Type 0
Holds dir i [] = Unit {0}
Holds dir i (d ∷ ds) = (dir i ≡ some d) × Holds dir (suc i) ds

pub record Represents (s : Cwd) (ds : List Bytes) : Type 0 where
  pub size : s.depth ≡ length ds
  pub room : length ds ≤ max_stack_size
  pub slots : Holds s.dir 0 ds
  pub path : s.cur_v_path ≡ path_of ds

-- The operation returned, with this code, in a state that stands for these names, and left the
-- directory id alone.
abbrev pub Refines : Cwd → Option (ℤ × Cwd) → ℤ × List Bytes → Type 0
Refines s r (code, ds) =
    (t : Cwd) × (r ≡ some (code, t)) × Represents t ds × (t.current_pwd_id ≡ s.current_pwd_id)

unfoldable pub push_names : Bool → Bytes → List Bytes → ℤ × List Bytes
push_names memory d ds =
    if length d == 0
    then (failed, ds)
    else if not (ltb (length ds) max_stack_size)
    then (failed, ds)
    else if not memory
    then (failed, ds)
    else (done, ds ++ d ∷ [])

unfoldable pub pop_names : List Bytes → ℤ × List Bytes
pop_names ds = if length ds == 0 then (failed, []) else (done, take (length ds - 1) ds)

-- The names do not depend on the directory id.
pub Represents-id :
    (s : Cwd) (ds : List Bytes) (id : ℤ)
    → Represents s ds
    → Represents (record s { current_pwd_id = id }) ds
Represents-id s ds id v = record { size = v.size; room = v.room; slots = v.slots; path = v.path }
