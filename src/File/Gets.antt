-- ===== src/File/Gets.antt =====
-- `file_gets` of server/func_file.c.
use cloud_sys.Base.Int.{ℤ}
use cloud_sys.Base.{ℕ, ◌-◌, [], ◌++◌, Option, none, some, ltb, if◌then◌else◌, take}
use cloud_sys.CString.{Bytes, text}
use cloud_sys.Database.{Mysql, Reply, rows, db_query}
use cloud_sys.Cd.{snprintf, success, failure_code, err_param, err_db}
use cloud_sys.Users.{first_text}
use cloud_sys.Dir.{on_rows}
use cloud_sys.File.{Files, FileAnswer, strip_slash, joined, sql_get_hash}

module _ (f : Files) (m : Mysql) where
  open f use {
    Fs, stat, open_create, open_read, ftruncate, map_write, map_read, close, unlink, error_text,
  }
  open m use {Db}

  -- Whether the user's folder is there, made now where it was not: the response and the code
  -- where it is not.
  unfoldable pub user_folder : Bytes → ℕ → Fs → Option (ℤ × Bytes) × Fs
  user_folder folder res_size w = elim (stat folder w) [
    | none ↦
        let (made, w') = f.mkdir folder w in
        if made
        then (none, w')
        else (some (failure_code, snprintf res_size (text "创建用户文件夹失败: " ++ error_text w')), w')
    | some st ↦
        if st.is_dir then (none, w) else (some (err_param, snprintf res_size (text "路径错误，不是目录")), w)
  ]

  -- From the `mmap` of the stored file, with its descriptor and the size that `stat` gave.
  unfoldable pub gets_mapped :
      Bytes → (fd file_size res_size : ℕ) → Option Bytes → Fs → ℤ × Bytes × Fs
  gets_mapped filename fd file_size res_size none w = (failure_code, [], close fd w)
  gets_mapped filename fd file_size res_size (some mapped) w =
      if ltb file_size res_size
      then (
        success,
        mapped ++ snprintf (res_size - file_size) (text "文件下载完成: " ++ filename),
        close fd w,
      )
      else (failure_code, snprintf res_size (text "响应缓冲区不足"), close fd w)

  -- From its `open`.
  unfoldable pub gets_read : Bytes → (file_size res_size : ℕ) → Option ℕ × Fs → ℤ × Bytes × Fs
  unfolding gets_mapped
  gets_read filename file_size res_size (none, w) =
      (failure_code, snprintf res_size (text "无法打开文件: " ++ error_text w), w)
  gets_read filename file_size res_size (some fd, w) =
      gets_mapped filename fd file_size res_size (map_read fd file_size w) w

  -- From the test that the stored file exists.
  unfoldable pub gets_file : Bytes → Bytes → ℕ → Fs → ℤ × Bytes × Fs
  unfolding gets_read
  gets_file filename file_path res_size w = elim (stat file_path w) [
    | none ↦ (failure_code, snprintf res_size (text "文件不存在: " ++ file_path), w)
    | some st ↦ gets_read filename st.st_size res_size (open_read file_path w)
  ]

  -- From the answer on the file's row.
  unfoldable pub gets_found : (filename path : Bytes) → ℕ → Reply × Db → Fs → FileAnswer Db Fs
  unfolding gets_file strip_slash first_text
  gets_found filename path res_size (reply, d) w =
      on_rows reply (err_db, snprintf res_size (text "数据库查询失败"), d, w)
        (λ rs. elim (first_text (rows rs)) [
          | none ↦ (failure_code, snprintf res_size (text "✅"), d, w)
          | some s ↦
              let (code, response, u) =
                gets_file filename (joined (strip_slash path) (take 40 s)) res_size w in
              (code, response, d, u)
        ])

  -- From the user's folder.
  unfoldable pub gets_ready :
      (username filename path : Bytes) → ℕ → Db → Option (ℤ × Bytes) × Fs → FileAnswer Db Fs
  unfolding gets_found
  gets_ready username filename path res_size d (some (code, response), w) = (code, response, d, w)
  gets_ready username filename path res_size d (none, w) =
      gets_found filename path res_size (db_query m (sql_get_hash filename username) d) w

  -- What the buffer `response` holds, which may have NULs in it.
  unfoldable pub file_gets :
      (username filename path userpath : Bytes) → ℕ → Db → Fs → FileAnswer Db Fs
  unfolding user_folder gets_ready
  file_gets username filename path userpath res_size d w =
      gets_ready username filename path res_size d
        (user_folder (joined userpath username) res_size w)
