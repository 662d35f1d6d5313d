-- ===== src/PathStack.antt =====
-- The directory stack of server/func_cd.c: one copy for each thread. The main thread runs every
-- directory command, so its copy is the one that this module follows.
pub mod Spec
pub mod Rebuild
pub mod Refinement
pub mod Tests
use cloud_sys.Base.Int.{ℤ, pos, negsuc}
use cloud_sys.Base.{
  ℕ, zero, suc, ◌+◌, ◌-◌, Bool, true, false, not, ◌||◌, List, [], ◌∷◌, Option, none, some, ltb,
  ◌==◌, if◌then◌else◌, length, take,
}
use cloud_sys.CString.{Bytes, strncat}

abbrev pub max_stack_size : ℕ
max_stack_size = 1024

-- PATH_MAX of linux/limits.h.
abbrev pub path_max : ℕ
path_max = 4096

-- The return codes 0 and -1 of the stack's functions.
abbrev pub done : ℤ
done = pos 0

abbrev pub failed : ℤ
failed = negsuc 0

-- `thread_path_stack`, `cur_v_path` and `current_pwd_id`. `depth` is `top + 1`, and a slot is
-- `none` where the array holds NULL.
pub record Cwd : Type 0 where
  pub dir : ℕ → Option Bytes
  pub depth : ℕ
  pub cur_v_path : Bytes
  pub current_pwd_id : ℤ

abbrev pub root_path : Bytes
root_path = b'/' ∷ []

-- The initialisers of the three variables: `{{0}, 0}` puts `top` at 0, above a NULL slot.
abbrev pub fresh : Cwd
fresh = record { dir = λ _. none; depth = 1; cur_v_path = root_path; current_pwd_id = pos 1 }

abbrev pub write_slot : (ℕ → Option Bytes) → ℕ → Option Bytes → ℕ → Option Bytes
write_slot dir i v j = if i == j then v else dir j

abbrev pub append_room : Bytes → Bytes → Bytes
append_room temp s = strncat temp s (path_max - length temp - 1)

-- The loop that rebuilds the virtual path, from slot `i` with `rounds` slots left. It does not
-- return where a slot is NULL: `strncat` reads through the pointer.
pub rebuild_loop : (ℕ → Option Bytes) → (depth i rounds : ℕ) → Bytes → Option Bytes
rebuild_loop dir depth i zero temp = some temp
rebuild_loop dir depth i (suc r) temp = elim (dir i) [
  | none ↦ none
  | some d ↦
      let named = append_room temp d in
      rebuild_loop dir depth (suc i) r
        (if ltb (suc i) depth then append_room named root_path else named)
]

pub rebuild : (ℕ → Option Bytes) → ℕ → Option Bytes
unfolding rebuild_loop
rebuild dir depth = elim (rebuild_loop dir depth 0 depth root_path) [
  | none ↦ none
  | some temp ↦ some (take (path_max - 1) temp)
]

pub stack_init : Cwd → ℤ × Cwd
stack_init s = (done, record s { depth = 0; current_pwd_id = pos 1; cur_v_path = root_path })

-- `memory` says whether `strdup` finds memory.
pub stack_push : Bool → Bytes → Cwd → Option (ℤ × Cwd)
stack_push memory d s =
    if length d == 0
    then some (failed, s)
    else if not (ltb s.depth max_stack_size)
    then some (failed, s)
    else if not memory
    then some (failed, s)
    else (let dir = write_slot s.dir s.depth (some d) in
        elim (rebuild dir (suc s.depth)) [
          | none ↦ none
          | some path ↦ some (done, record s { dir = dir; depth = suc s.depth; cur_v_path = path })
        ])

-- The part of `stack_pop` behind its guard, with `depth` one less.
pop_to : ℕ → Cwd → Option (ℤ × Cwd)
pop_to depth s =
    let dir = write_slot s.dir depth none in
    if depth == 0
    then some (done, record s { dir = dir; depth = depth; cur_v_path = root_path })
    else elim (rebuild dir depth) [
      | none ↦ none
      | some path ↦ some (done, record s { dir = dir; depth = depth; cur_v_path = path })
    ]

pub stack_pop : Cwd → Option (ℤ × Cwd)
unfolding pop_to
stack_pop s =
    if s.depth == 0
    then some (failed, record s { cur_v_path = root_path; depth = 0 })
    else pop_to (s.depth - 1) s

-- `while (top >= 0)`: the slots that are freed and set to NULL.
clear_loop : ℕ → (ℕ → Option Bytes) → ℕ → Option Bytes
clear_loop zero dir = dir
clear_loop (suc top) dir = clear_loop top (write_slot dir top none)

pub stack_clear : Cwd → ℤ × Cwd
unfolding clear_loop
stack_clear s = (
  done,
  record {
    dir = clear_loop s.depth s.dir;
    depth = 0;
    cur_v_path = root_path;
    current_pwd_id = pos 1;
  },
)
