-- ===== src/Dir.antt =====
-- The directory commands of server/func_dir.c, server/func_ls.c and server/path.c.
pub mod Commands
pub mod Table
pub mod Inserts
pub mod Listing
pub mod Rows
pub mod Removes
pub mod Reverts
pub mod Tests
mod Statements
unfoldable pub use Statements.{
  sql_pwd, sql_parent_path, sql_dir_taken, insert_dir_text, sql_insert_dir, sql_find_dir,
  sql_children, sql_delete_dir, sql_ls, sql_path,
}
pub use Statements.{char_max}
use cloud_sys.Base.Int.{ℤ, pos, negsuc}
use cloud_sys.Base.{
  ℕ, zero, suc, ◌+◌, ◌-◌, Bool, true, false, ◌||◌, List, [], ◌∷◌, ◌++◌, Option, none, some, ltb,
  leb, ◌==◌, if◌then◌else◌, length, take, drop, get_or,
}
use cloud_sys.CString.{Bytes, text, bytes_eq, dec_int, atoi}
use cloud_sys.Database.{Mysql, Row, Reply, failure, rows, affected, db_query}
use cloud_sys.PathStack.{path_max}
use cloud_sys.Cd.{snprintf, success, failure_code, err_param, err_db}
use cloud_sys.Users.{first_text}

-- `strchr(src, '\n')`: what follows the first newline.
after_newline : Bytes → Option Bytes
after_newline [] = none
after_newline (b ∷ bs) = let rest = after_newline bs in if b == 10 then some bs else rest

-- The bytes before the first tab or newline.
field_of : Bytes → Bytes
field_of [] = []
field_of (b ∷ bs) = let rest = b ∷ field_of bs in if (b == 9) || (b == 10) then [] else rest

-- The string in `dst`, for a `dst_size` that is not 0.
unfoldable pub extract_path : Bytes → ℕ → Bytes
unfolding after_newline field_of
extract_path src dst_size = elim (after_newline src) [
  | none ↦ []
  | some line ↦ take (dst_size - 1) (field_of line)
]

-- The path of a new directory. A parent path that is empty has its byte at -1 read, which is not
-- the path's: the argument `before` is that byte.
unfoldable pub new_path : ℕ → Bytes → Bytes → Bytes
new_path before parent_path dirname =
    if bytes_eq parent_path (b'/' ∷ [])
    then snprintf 1024 (b'/' ∷ dirname)
    else (let last = get_or (before ∷ parent_path) (length parent_path) 0 in
        if last == b'/'
        then snprintf 1024 (parent_path ++ dirname)
        else snprintf 1024 (parent_path ++ (b'/' ∷ dirname)))

-- One row of `ls`, the second column as printf's "%s" prints it. `none`: NULL or no such column.
unfoldable pub column : Row → ℕ → Bytes
unfolding text
column row i = elim (get_or row i none) [ none ↦ text "(null)" | some s ↦ s ]

-- The loop over the rows. `offset` grows by the length that was to be printed, and so passes the
-- bytes that are in the buffer.
unfoldable pub ls_loop : List Row → (res_size offset : ℕ) → Bytes → ℕ × Bytes
unfolding column
ls_loop [] res_size offset out = (offset, out)
ls_loop (row ∷ rs) res_size offset out =
    let line = column row 1 ++ (10 ∷ []) in
    let remaining = res_size - offset - 1 in
    let rest = ls_loop rs res_size (offset + length line) (out ++ snprintf remaining line) in
    if ltb offset (res_size - 1) then rest else (offset, out)

-- A command: its code, its response, and the connection's state.
abbrev pub Answer : Type 0 → Type 0
Answer Db = ℤ × Bytes × Db

-- The test `db_query(…) != SUCCESS || res == NULL` of a SELECT.
abbrev pub on_rows {ℓ} : {A : Type ℓ} → Reply → A → (List Row → A) → A
on_rows failure bad good = bad
on_rows (affected n) bad good = bad
on_rows (rows rs) bad good = good rs

-- The test `db_query(…) != SUCCESS` of a statement without a result set.
abbrev pub on_success {ℓ} : {A : Type ℓ} → Reply → A → A → A
on_success failure bad good = bad
on_success (affected n) bad good = good
on_success (rows rs) bad good = good

module _ (m : Mysql) where
  open m use {Db}

  -- `path` has PATH_MAX bytes; it is not written where the query fails.
  unfoldable pub dir_pwd : ℤ → Db → ℤ × Option Bytes × Db
  unfolding first_text
  dir_pwd pwd_id d =
      let (reply, d') = db_query m (sql_pwd pwd_id) d in
      on_rows reply (err_db, none, d')
        (λ rs. elim (first_text (rows rs)) [
          | none ↦ (success, some [], d')
          | some s ↦ (success, some (take (path_max - 1) s), d')
        ])

  -- The end of `dir_mkdir`, from what its INSERT gave.
  unfoldable pub mkdir_inserted : Bytes → ℕ → Reply × Db → Answer Db
  unfolding text
  mkdir_inserted path res_size (reply, d') =
      on_success reply (err_db, snprintf res_size (text "创建目录失败！"), d')
        (success, snprintf res_size (text "目录 '" ++ (path ++ text "' 创建成功！")), d')

  unfoldable pub mkdir_insert : Bytes → Bytes → ℤ → Bytes → ℕ → Db → Answer Db
  unfolding mkdir_inserted
  mkdir_insert username dirname pwd_id path res_size d =
      mkdir_inserted path res_size (db_query m (sql_insert_dir dirname username pwd_id path) d)

  -- From what the test that the directory does not exist yet gave.
  unfoldable pub mkdir_free : Bytes → Bytes → ℤ → Bytes → ℕ → Reply × Db → Answer Db
  unfolding mkdir_insert text
  mkdir_free username dirname pwd_id path res_size (reply, d') =
      on_rows reply (err_db, snprintf res_size (text "数据库查询失败！"), d')
        (λ rs.
          if ltb 0 (length rs)
          then (failure_code, snprintf res_size (text "目录已存在！"), d')
          else mkdir_insert username dirname pwd_id path res_size d')

  unfoldable pub mkdir_check : Bytes → Bytes → ℤ → Bytes → ℕ → Db → Answer Db
  unfolding mkdir_free
  mkdir_check username dirname pwd_id path res_size d =
      mkdir_free username dirname pwd_id path res_size
        (db_query m (sql_dir_taken dirname pwd_id username) d)

  -- From the path of the current directory; `before` as for `new_path`.
  unfoldable pub mkdir_parent : ℕ → Bytes → Bytes → ℤ → ℕ → Reply × Db → Answer Db
  unfolding mkdir_check first_text new_path text
  mkdir_parent before username dirname pwd_id res_size (reply, d') =
      on_rows reply (err_db, snprintf res_size (text "查询失败！"), d')
        (λ rs. elim (first_text (rows rs)) [
          | none ↦ (failure_code, snprintf res_size (text "父路径无效！"), d')
          | some s ↦
              mkdir_check username dirname pwd_id (new_path before (take (char_max - 1) s) dirname)
                res_size d'
        ])

  unfoldable pub dir_mkdir : ℕ → Bytes → Bytes → ℤ → ℕ → Db → Answer Db
  unfolding mkdir_parent text
  dir_mkdir before username dirname pwd_id res_size d =
      if (length dirname == 0) || (res_size == 0)
      then (err_param, snprintf res_size (text "参数错误!"), d)
      else mkdir_parent before username dirname pwd_id res_size
          (db_query m (sql_parent_path pwd_id) d)

  -- The end of `dir_rmdir`, from what its DELETE gave.
  unfoldable pub rmdir_deleted : Bytes → ℕ → Reply × Db → Answer Db
  unfolding text
  rmdir_deleted dirname res_size (reply, d') =
      on_success reply (err_db, snprintf res_size (text "删除目录失败！"), d')
        (success, snprintf res_size (text "目录 '" ++ (dirname ++ text "' 删除成功！")), d')

  unfoldable pub rmdir_delete : Bytes → ℤ → ℕ → Db → Answer Db
  unfolding rmdir_deleted
  rmdir_delete dirname dir_id res_size d =
      rmdir_deleted dirname res_size (db_query m (sql_delete_dir dir_id) d)

  -- From the answer on the rows in the directory.
  unfoldable pub rmdir_check : Bytes → ℤ → ℕ → Reply × Db → Answer Db
  unfolding rmdir_delete
  rmdir_check dirname dir_id res_size (reply, d) =
      on_rows reply (err_db, snprintf res_size (text "检查目录内容失败！"), d)
        (λ rs.
          if ltb 0 (length rs)
          then (failure_code, snprintf res_size (text "目录不为空，无法删除！"), d)
          else rmdir_delete dirname dir_id res_size d)

  -- From the answer on the directory.
  unfoldable pub rmdir_found : Bytes → ℕ → Reply × Db → Answer Db
  unfolding rmdir_check first_text
  rmdir_found dirname res_size (reply, d) =
      on_rows reply (err_db, snprintf res_size (text "数据库查询失败！"), d)
        (λ rs. elim (first_text (rows rs)) [
          | none ↦ (failure_code, snprintf res_size (text "目录不存在！"), d)
          | some s ↦ rmdir_check dirname (atoi s) res_size (db_query m (sql_children (atoi s)) d)
        ])

  -- The name of the user is only tested for NULL.
  unfoldable pub dir_rmdir : Bytes → ℤ → ℕ → Db → Answer Db
  unfolding rmdir_found
  dir_rmdir dirname pwd_id res_size d =
      if res_size == 0
      then (err_param, [], d)
      else rmdir_found dirname res_size (db_query m (sql_find_dir dirname pwd_id) d)

  -- What `response` holds after the loop.
  unfoldable pub ls_response : ℕ → ℕ × Bytes → Bytes
  ls_response res_size (offset, out) =
      if offset == 0 then snprintf res_size (text "目录为空\n") else out

  -- From the answer on the rows in the directory.
  unfoldable pub ls_rows : ℕ → Reply × Db → Answer Db
  unfolding ls_response ls_loop
  ls_rows res_size (reply, d) =
      on_rows reply (err_db, snprintf res_size (text "Database error\n"), d)
        (λ rs. (success, ls_response res_size (ls_loop rs res_size 0 []), d))

  unfoldable pub dir_ls : ℕ → Bytes → ℤ → Db → Answer Db
  unfolding ls_rows
  dir_ls res_size username pwd_id d =
      if res_size == 0
      then (err_param, [], d)
      else ls_rows res_size (db_query m (sql_ls pwd_id username) d)

  -- The path where the result is SUCCESS; the buffer's size is not 0.
  unfoldable pub get_current_path : ℕ → ℤ → Db → ℤ × Bytes × Db
  unfolding first_text
  get_current_path path_size pwd_id d =
      if path_size == 0
      then (err_param, [], d)
      else (let (reply, d') = db_query m (sql_path pwd_id) d in
          on_rows reply (err_db, [], d')
            (λ rs. elim (first_text (rows rs)) [
              | none ↦ (failure_code, [], d')
              | some s ↦ (success, take (path_size - 1) s, d')
            ]))
