-- ===== src/Cd.antt =====
-- `dir_cd` of server/func_cd.c: it walks the pieces of a path, keeping the directory stack and
-- `current_pwd_id` in step with the rows of `file_info`.
pub mod Directory
pub mod Resolve
pub mod Steps
pub mod Correct
pub mod Tests
use cloud_sys.Base.Int.{ℤ, pos, negsuc, int_eq}
use cloud_sys.Base.{
  ℕ, ◌+◌, ◌-◌, Bool, true, false, List, [], ◌∷◌, ◌++◌, Option, none, some, ◌==◌, if◌then◌else◌,
  length, take, drop, get_or,
}
use cloud_sys.CString.{Bytes, text, bytes_eq, strtok, dec_int, atoi}
use cloud_sys.Database.{Mysql, Row, Reply, failure, rows, affected, db_query}
use cloud_sys.PathStack.{Cwd, path_max, done, stack_push, stack_pop, stack_clear}

-- The codes SUCCESS, FAILURE, ERR_PARAM and ERR_DB of header.h.
abbrev pub success : ℤ
success = pos 0

abbrev pub failure_code : ℤ
failure_code = negsuc 0

abbrev pub err_param : ℤ
err_param = negsuc 1

abbrev pub err_db : ℤ
err_db = negsuc 2

-- `snprintf(response, size, …)` for a text that has been formatted.
abbrev pub snprintf : ℕ → Bytes → Bytes
snprintf size s = take (size - 1) s

abbrev pub dot : Bytes
dot = b'.' ∷ []

abbrev pub dot_dot : Bytes
dot_dot = b'.' ∷ b'.' ∷ []

unfoldable pub sql_parent : ℤ → Bytes
unfolding text
sql_parent id = snprintf 1024 (text "SELECT parent_id FROM file_info WHERE id = " ++ dec_int id)

unfoldable pub sql_child : ℤ → Bytes → Bytes
unfolding text
sql_child id name = snprintf 1024 (
    text "SELECT id FROM file_info WHERE parent_id = "
    ++ (dec_int id ++ (text " AND filename = '" ++ (name ++ text "' AND hash IS NULL"))))

unfoldable pub no_parent_message : Bytes
unfolding text
no_parent_message = text "cd: 内部错误 - 无法找到父目录。\n"

unfoldable pub no_directory_message : Bytes → Bytes
unfolding text
no_directory_message name = text "cd: '" ++ (name ++ text "': 没有这个目录\n")

unfoldable pub overflow_message : Bytes → Bytes
unfolding text
overflow_message name = text "cd: '" ++ (name ++ text "': 目录栈溢出\n")

unfoldable pub here_message : Bytes → ℤ → Bytes
unfolding text
here_message path id = text "当前目录：" ++ (path ++ (text " （ID : " ++ (dec_int id ++ text "）\n")))

-- The outcome of a piece: a return from `dir_cd` with a message, the next piece, or a crash.
pub data Outcome (Db : Type 0) : Type 0 where
  crash : Outcome Db
  stop : Bytes → Cwd → Db → Outcome Db
  go_on : Cwd → Db → Outcome Db

-- The first field of the first row, as `atoi` reads it. A NULL field crashes.
abbrev pub with_id {ℓ} : {A : Type ℓ} → Row → A → (ℤ → A) → A
with_id row null found = elim (get_or row 0 none) [ none ↦ null | some s ↦ found (atoi s) ]

-- A return ends the loop.
pub next : {Db : Type 0} → Outcome Db → (Cwd → Db → Outcome Db) → Outcome Db
next crash rest = crash
next (stop message t d) rest = stop message t d
next (go_on t d) rest = rest t d

module _ (m : Mysql) where
  open m use {Db}

  parent_reply : Cwd → Reply × Db → Outcome Db
  parent_reply t (failure, d) = stop no_parent_message t d
  parent_reply t (affected n, d) = stop no_parent_message t d
  parent_reply t (rows [], d) = stop no_parent_message t d
  parent_reply t (rows (row ∷ rs), d) =
      with_id row crash (λ id. go_on (record t { current_pwd_id = id }) d)

  popped_reply : Db → Option (ℤ × Cwd) → Outcome Db
  unfolding parent_reply
  popped_reply d none = crash
  popped_reply d (some (code, t)) =
      if int_eq code done
      then (if int_eq t.current_pwd_id (pos 1)
          then go_on t d
          else parent_reply t (db_query m (sql_parent t.current_pwd_id) d))
      else go_on (record t { current_pwd_id = pos 1 }) d

  pub pushed_reply : Bytes → ℤ → Db → Option (ℤ × Cwd) → Outcome Db
  pushed_reply name id d none = crash
  pushed_reply name id d (some (code, t)) =
      if int_eq code done
      then go_on (record t { current_pwd_id = id }) d
      else stop (overflow_message name) t d

  pub child_reply : Bool → Bytes → Cwd → Reply × Db → Outcome Db
  unfolding pushed_reply
  child_reply memory name s (failure, d) = stop (no_directory_message name) s d
  child_reply memory name s (affected n, d) = stop (no_directory_message name) s d
  child_reply memory name s (rows [], d) = stop (no_directory_message name) s d
  child_reply memory name s (rows (row ∷ rs), d) =
      with_id row crash (λ id. pushed_reply name id d (stack_push memory name s))

  -- One round of the loop over the pieces.
  pub cd_piece : Bool → Bytes → Cwd → Db → Outcome Db
  unfolding popped_reply child_reply
  cd_piece memory name s d =
      if bytes_eq name dot_dot
      then popped_reply d (stack_pop s)
      else if bytes_eq name dot
      then go_on s d
      else child_reply memory name s (db_query m (sql_child s.current_pwd_id name) d)

  -- `memory n` says whether `strdup` finds memory when `n` pieces are still to come.
  pub cd_loop : (ℕ → Bool) → List Bytes → Cwd → Db → Outcome Db
  cd_loop memory [] s d = go_on s d
  cd_loop memory (name ∷ names) s d =
      next (cd_piece (memory (length names)) name s d) (cd_loop memory names)

  cd_return : ℕ → Outcome Db → Option (ℤ × Bytes × Cwd × Db)
  cd_return size crash = none
  cd_return size (stop message t d) = some (failure_code, snprintf size message, t, d)
  cd_return size (go_on t d) = some (success, snprintf size t.cur_v_path, t, d)

  -- The pieces of the path, and the stack that they start from.
  pub cd_pieces : Bytes → List Bytes
  cd_pieces path =
      strtok b'/' (drop (if get_or path 0 0 == b'/' then 1 else 0) (take (path_max - 1) path))

  pub cd_start : Bytes → Cwd → Cwd
  cd_start path s = if get_or path 0 0 == b'/' then (stack_clear s).1 else s

  -- The code, the response, and the state. The pointers that the server passes are not NULL.
  pub dir_cd : (ℕ → Bool) → Bytes → ℕ → Cwd → Db → Option (ℤ × Bytes × Cwd × Db)
  unfolding next cd_loop cd_return cd_pieces cd_start
  dir_cd memory path size s d =
      if size == 0
      then some (err_param, [], s, d)
      else if length path == 0
      then some (success, snprintf size (here_message s.cur_v_path s.current_pwd_id), s, d)
      else cd_return size (cd_loop memory (cd_pieces path) (cd_start path s) d)
