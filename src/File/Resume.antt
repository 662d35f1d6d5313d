-- ===== src/File/Resume.antt =====
-- `file_gets_resume` of server/func_file.c: a file is copied on from where its copy ends.
pub mod Copy
pub mod Tests
use cloud_sys.Base.Int.{ℤ, pos, int_eq}
use cloud_sys.Base.{
  ℕ, zero, suc, ◌+◌, ◌-◌, Bool, true, false, List, [], ◌∷◌, ◌++◌, Option, none, some, ltb, leb,
  ◌==◌, if◌then◌else◌, length,
}
use cloud_sys.CString.{Bytes, text, atoi, dec}
use cloud_sys.Database.{Mysql, Row, Reply, failure, rows, affected, db_query}
use cloud_sys.Cd.{snprintf, success, failure_code, err_param, err_db}
use cloud_sys.Users.{first_text}
use cloud_sys.Dir.{on_rows}
use cloud_sys.File.{Files, Stat, FileAnswer, joined}

-- The calls on open files that the copy makes; `none` is -1.
pub record Io (f : Files) : Type 0 where
  -- `open` with O_WRONLY | O_CREAT | O_APPEND: a descriptor.
  pub open_append : Bytes → f.Fs → Option ℕ × f.Fs
  -- `lseek` with SEEK_SET: the new offset.
  pub lseek : ℕ → ℕ → f.Fs → Option ℕ × f.Fs
  -- `read` into a buffer with that much room.
  pub read : ℕ → ℕ → f.Fs → Option Bytes × f.Fs
  -- `write`: the number of bytes that were written.
  pub write : ℕ → Bytes → f.Fs → Option ℕ × f.Fs

abbrev pub buffer_size : ℕ
buffer_size = 8192

-- How the copy ends: with the number of bytes that it transferred, or with an error and the text of
-- the response. `running` is for no fuel.
pub data Copied (Fs : Type 0) : Type 0 where
  running : Copied Fs
  failed : Bytes → Fs → Copied Fs
  copied : ℕ → Fs → Copied Fs

unfoldable pub sql_count_file : (filename path username : Bytes) → Bytes
unfolding text
sql_count_file filename path username = snprintf 1024 (
    text "SELECT COUNT(*) FROM file_info WHERE filename='"
    ++ (filename
        ++ (text "' AND path='" ++ (path ++ (text "' AND username='" ++ (username ++ text "'"))))))

module _ (f : Files) (io : Io f) where
  open f use {Fs, stat, open_read, close, error_text}
  open io use {open_append, lseek, read, write}

  -- Whether `bytes_written != bytes_read`.
  abbrev pub short_write : Option ℕ → ℕ → Bool
  short_write none n = true
  short_write (some k) n = if k == n then false else true

  -- From the result of `write`; `rest` is the loop for the rounds behind this one.
  unfoldable pub copy_written : (total n : ℕ) → (ℕ → Fs → Copied Fs) → Option ℕ × Fs → Copied Fs
  copy_written total n rest (written, w) =
      if short_write written n
      then failed (text "写入文件错误: " ++ error_text w) w
      else rest (total + n) w

  -- From the result of `read`.
  unfoldable pub copy_chunk : (dst total : ℕ) → (ℕ → Fs → Copied Fs) → Option Bytes × Fs → Copied Fs
  unfolding copy_written
  copy_chunk dst total rest (none, w) = failed (text "读取文件错误: " ++ error_text w) w
  copy_chunk dst total rest (some [], w) = copied total w
  copy_chunk dst total rest (some (b ∷ bs), w) =
      copy_written total (length (b ∷ bs)) rest (write dst (b ∷ bs) w)

  -- The loop, on fuel: a round that goes on transfers a byte or more.
  unfoldable pub copy_loop : (fuel src dst remaining total : ℕ) → Fs → Copied Fs
  unfolding copy_chunk
  copy_loop zero src dst remaining total w = if ltb total remaining then running else copied total w
  copy_loop (suc fuel) src dst remaining total w =
      let round =
        copy_chunk dst total (copy_loop fuel src dst remaining) (read src buffer_size w) in
      if ltb total remaining then round else copied total w

  -- The two files are closed, and the response written. `none`: the loop had no fuel.
  unfoldable pub resume_end :
      (src dst server_size res_size : ℕ) → Copied Fs → Option (ℤ × Bytes × Fs)
  resume_end src dst server_size res_size running = none
  resume_end src dst server_size res_size (failed message w) =
      some (failure_code, snprintf res_size message, close dst (close src w))
  resume_end src dst server_size res_size (copied total w) = some (
    success,
    snprintf res_size (
        text "断点续传成功，总大小: "
        ++ (dec server_size ++ (text " 字节，本次传输: " ++ (dec total ++ text " 字节")))),
    close dst (close src w),
  )

  -- From the result of `lseek`. The fuel is the number of bytes to transfer.
  unfoldable pub resume_from :
      (src dst server_size already res_size : ℕ) → Option ℕ × Fs → Option (ℤ × Bytes × Fs)
  unfolding copy_loop resume_end
  resume_from src dst server_size already res_size (offset, w) =
      if short_write offset already
      then some (
        failure_code,
        snprintf res_size (text "无法设置文件偏移量: " ++ error_text w),
        close dst (close src w),
      )
      else resume_end src dst server_size res_size
          (copy_loop (server_size - already) src dst (server_size - already) 0 w)

  -- From the `open` of the local file.
  unfoldable pub resume_append :
      Bytes → (src server_size already res_size : ℕ) → Option ℕ × Fs → Option (ℤ × Bytes × Fs)
  unfolding resume_from
  resume_append local_file src server_size already res_size (none, w) = some (
    failure_code,
    snprintf res_size (text "无法打开本地文件: " ++ (local_file ++ (text ", 错误: " ++ error_text w))),
    close src w,
  )
  resume_append local_file src server_size already res_size (some dst, w) =
      resume_from src dst server_size already res_size (lseek src already w)

  -- From the `open` of the server's file.
  unfoldable pub resume_open :
      (server_file local_file : Bytes)
      → (server_size already res_size : ℕ) → Option ℕ × Fs
      → Option (ℤ × Bytes × Fs)
  unfolding resume_append
  resume_open server_file local_file server_size already res_size (none, w) = some (
    failure_code,
    snprintf res_size (text "无法打开服务器文件: " ++ (server_file ++ (text ", 错误: " ++ error_text w))),
    w,
  )
  resume_open server_file local_file server_size already res_size (some src, w) =
      resume_append local_file src server_size already res_size (open_append local_file w)

  -- The state of the database beside the rest of an answer.
  abbrev pub with_db : {Db : Type 0} → Db → Option (ℤ × Bytes × Fs) → Option (FileAnswer Db Fs)
  with_db d none = none
  with_db d (some (code, response, w)) = some (code, response, d, w)

  module _ (m : Mysql) where
    open m use {Db}

    -- From the answer on the number of rows. `none`: a count without a row.
    unfoldable pub resume_counted :
        (filename server_file local_file : Bytes)
        → (server_size already res_size : ℕ) → Reply × Db
        → Fs
        → Option (FileAnswer Db Fs)
    unfolding resume_open first_text
    resume_counted filename server_file local_file server_size already res_size (reply, d) w =
        on_rows reply (some (err_db, snprintf res_size (text "数据库查询失败"), d, w)) (λ rs.
          elim (first_text (rows rs)) [
            | none ↦ none
            | some count ↦
                if int_eq (atoi count) (pos 0)
                then some (failure_code, snprintf res_size (text "文件不存在于数据库: " ++ filename), d, w)
                else with_db d (
                    resume_open server_file local_file server_size already res_size
                      (open_read server_file w))
          ])

    -- From the `stat` of the local file, which says how much there is of it.
    unfoldable pub resume_local :
        (username filename path local_file : Bytes)
        → (server_size res_size : ℕ) → Option Stat
        → Db
        → Fs
        → Option (FileAnswer Db Fs)
    unfolding resume_counted
    resume_local username filename path local_file server_size res_size none d w =
        resume_counted filename (joined path filename) local_file server_size 0 res_size
          (db_query m (sql_count_file filename path username) d) w
    resume_local username filename path local_file server_size res_size (some st) d w =
        if leb server_size st.st_size
        then some (success, snprintf res_size (text "文件已完全下载: " ++ filename), d, w)
        else resume_counted filename (joined path filename) local_file server_size st.st_size
            res_size (db_query m (sql_count_file filename path username) d) w

    -- From the `stat` of the server's file.
    unfoldable pub resume_server :
        (username filename path local_path : Bytes)
        → ℕ
        → Option Stat
        → Db
        → Fs
        → Option (FileAnswer Db Fs)
    unfolding resume_local
    resume_server username filename path local_path res_size none d w =
        some (failure_code, snprintf res_size (text "文件不存在: " ++ joined path filename), d, w)
    resume_server username filename path local_path res_size (some st) d w =
        resume_local username filename path (joined local_path filename) st.st_size res_size
          (stat (joined local_path filename) w) d w

    -- The user's folder: as for a download, with other responses.
    unfoldable pub resume_folder : Bytes → ℕ → Option Stat → Fs → Option (ℤ × Bytes) × Fs
    resume_folder folder res_size none w =
        let (made, w') = f.mkdir folder w in
        if made
        then (none, w')
        else (some (failure_code, snprintf res_size (text "无法创建用户文件夹: " ++ folder)), w')
    resume_folder folder res_size (some st) w =
        if st.is_dir
        then (none, w)
        else (some (err_param, snprintf res_size (text "路径错误: " ++ (folder ++ text " 不是目录"))), w)

    -- From the user's folder.
    unfoldable pub resume_ready :
        (username filename path local_path : Bytes)
        → ℕ
        → Db
        → Option (ℤ × Bytes) × Fs
        → Option (FileAnswer Db Fs)
    unfolding resume_server
    resume_ready username filename path local_path res_size d (some (code, response), w) =
        some (code, response, d, w)
    resume_ready username filename path local_path res_size d (none, w) =
        resume_server username filename path local_path res_size (stat (joined path filename) w) d w

    -- The pointers are not NULL.
    unfoldable pub file_gets_resume :
        (username filename path local_path userpath : Bytes)
        → ℕ
        → Db
        → Fs
        → Option (FileAnswer Db Fs)
    unfolding resume_folder resume_ready
    file_gets_resume username filename path local_path userpath res_size d w =
        let folder = joined userpath username in
        resume_ready username filename path local_path res_size d
          (resume_folder folder res_size (stat folder w) w)
