-- ===== src/File/Remove.antt =====
-- `file_remove` of server/func_file.c.
use cloud_sys.Base.Int.{ℤ}
use cloud_sys.Base.{ℕ, List, [], ◌∷◌, ◌++◌, Option, none, some, if◌then◌else◌, get_or}
use cloud_sys.CString.{Bytes, text}
use cloud_sys.Database.{Mysql, Row, Reply, db_query}
use cloud_sys.Cd.{snprintf, success, failure_code, err_db}
use cloud_sys.Dir.{on_rows, on_success}
use cloud_sys.File.{Files, FileAnswer, joined, sql_get_file, sql_delete_file}

module _ (f : Files) (m : Mysql) where
  open f use {
    Fs, stat, open_create, open_read, ftruncate, map_write, map_read, close, unlink, error_text,
  }
  open m use {Db}

  -- The part of `file_remove` on the file itself.
  unfoldable pub remove_file : Bytes → Bytes → ℕ → Fs → ℤ × Bytes × Fs
  remove_file filename file_path res_size w = elim (stat file_path w) [
    | none ↦ (success, snprintf res_size (text "文件删除成功: " ++ filename), w)
    | some st ↦
        let (gone, w') = unlink file_path w in
        if gone then (success, snprintf res_size (text "文件删除成功: " ++ filename), w') else (
          failure_code,
          snprintf res_size (text "删除文件失败: " ++ (file_path ++ (text ", 错误: " ++ error_text w'))),
          w',
        )
  ]

  -- From the answer to the DELETE.
  unfoldable pub remove_row : Bytes → Bytes → ℕ → Reply × Db → Fs → FileAnswer Db Fs
  unfolding remove_file
  remove_row filename file_path res_size (reply, d) w =
      on_success reply (err_db, snprintf res_size (text "数据库删除失败"), d, w)
        (let (code, response, u) = remove_file filename file_path res_size w in
          (code, response, d, u))

  -- `row[0] && row[1]` for the first row of the result set.
  unfoldable pub two_texts : List Row → Option (Bytes × Bytes)
  two_texts [] = none
  two_texts (row ∷ rs) = elim (get_or row 0 none) [
    | none ↦ none
    | some hash ↦ elim (get_or row 1 none) [ none ↦ none | some path ↦ some (hash, path) ]
  ]

  -- From the answer on the file's row. The hash and the path are read after `mysql_free_result` has
  -- freed them: `freed` is what the two pointers then show of them.
  unfoldable pub remove_found :
      (Bytes × Bytes → Bytes × Bytes)
      → (username filename : Bytes) → ℕ
      → Reply × Db
      → Fs
      → FileAnswer Db Fs
  unfolding remove_row two_texts
  remove_found freed username filename res_size (reply, d) w =
      on_rows reply (err_db, snprintf res_size (text "数据库查询失败"), d, w)
        (λ rs. elim (two_texts rs) [
          | none ↦ (failure_code, snprintf res_size (text "未找到对应的文件记录"), d, w)
          | some row ↦
              let (hash, sql_path) = freed row in
              remove_row filename (joined sql_path hash) res_size
                (db_query m (sql_delete_file filename username) d) w
        ])

  unfoldable pub file_remove :
      (Bytes × Bytes → Bytes × Bytes) → (username filename : Bytes) → ℕ → Db → Fs → FileAnswer Db Fs
  unfolding remove_found
  file_remove freed username filename res_size d w =
      remove_found freed username filename res_size (db_query m (sql_get_file filename username) d)
        w
