-- ===== src/File/Puts.antt =====
-- `file_puts` of server/func_file.c.
use cloud_sys.Base.Int.{ℤ, pos, negsuc, int_eq}
use cloud_sys.Base.{ℕ, Bool, true, false, [], ◌++◌, Option, none, some, ltb, if◌then◌else◌, length}
use cloud_sys.CString.{Bytes, text, atoi}
use cloud_sys.Database.{Mysql, Reply, rows, db_query}
use cloud_sys.Cd.{snprintf, success, failure_code, err_db}
use cloud_sys.Users.{first_text}
use cloud_sys.Dir.{on_rows, on_success}
use cloud_sys.File.{
  Files, FileAnswer, compute_sha1_from_memory, strip_slash, joined, sql_count_hash, sql_insert_file,
}

module _ (f : Files) (m : Mysql) where
  open f use {
    Fs, stat, open_create, open_read, ftruncate, map_write, map_read, close, unlink, error_text,
  }
  open m use {Db}

  -- From the `ftruncate` of the new file: whether it is there with its content, or the response of a
  -- FAILURE.
  unfoldable pub write_sized : ℕ → Bytes → Bool × Fs → Option Bytes × Fs
  write_sized fd content (false, w) = (some [], close fd w)
  write_sized fd content (true, w) = elim (map_write fd (length content) content w) [
    | none ↦ (some [], close fd w)
    | some u ↦ (none, close fd u)
  ]

  -- From its `open`.
  unfoldable pub write_opened : Bytes → ℕ → Option ℕ × Fs → Option Bytes × Fs
  unfolding write_sized
  write_opened content res_size (none, w) =
      (some (snprintf res_size (text "创建文件失败: " ++ error_text w)), w)
  write_opened content res_size (some fd, w) =
      write_sized fd content (ftruncate fd (length content) w)

  unfoldable pub write_file : Bytes → Bytes → ℕ → Fs → Option Bytes × Fs
  unfolding write_opened
  write_file file_path content res_size w = write_opened content res_size (open_create file_path w)

  -- `count > 0`.
  unfoldable pub is_known : ℤ → Bool
  is_known (pos n) = ltb 0 n
  is_known (negsuc n) = false

  -- The branches of `if (count > 0)`.
  unfoldable pub store_file : ℤ → Bytes → Bytes → ℕ → Fs → Option Bytes × Fs
  unfolding is_known write_file
  store_file count file_path content res_size w =
      if is_known count then (none, w) else write_file file_path content res_size w

  -- The end of `file_puts`, from the answer to its INSERT.
  unfoldable pub puts_insert : ℤ → Bytes → ℕ → Reply × Db → Fs → FileAnswer Db Fs
  puts_insert count file_path res_size (reply, d) w =
      on_success reply
        (
          err_db,
          snprintf res_size (text "数据库插入失败"),
          d,
          (if int_eq count (pos 0) then (unlink file_path w).1 else w),
        )
        (success, snprintf res_size (text "文件上传成功"), d, w)

  -- From the branches of `if (count > 0)`.
  unfoldable pub puts_stored :
      (count : ℤ) (username filename hash path file_path : Bytes)
      → ℕ
      → Db
      → Option Bytes × Fs
      → FileAnswer Db Fs
  unfolding puts_insert
  puts_stored count username filename hash path file_path res_size d (some response, w) =
      (failure_code, response, d, w)
  puts_stored count username filename hash path file_path res_size d (none, w) =
      puts_insert count file_path res_size
        (db_query m (sql_insert_file filename username hash path) d) w

  -- From the test on the number of files with the hash.
  unfoldable pub puts_store :
      (count : ℤ) (username filename hash path content : Bytes) → ℕ → Db → Fs → FileAnswer Db Fs
  unfolding store_file puts_stored
  puts_store count username filename hash path content res_size d w =
      puts_stored count username filename hash path (joined path hash) res_size d
        (store_file count (joined path hash) content res_size w)

  -- From the answer on the number of files with the hash. `none`: a count without a row, which is
  -- read through NULL.
  unfoldable pub puts_counted :
      (username filename hash path content : Bytes)
      → ℕ
      → Reply × Db
      → Fs
      → Option (FileAnswer Db Fs)
  unfolding puts_store strip_slash first_text
  puts_counted username filename hash path content res_size (reply, d) w =
      on_rows reply (some (err_db, snprintf res_size (text "数据库查询失败"), d, w)) (λ rs.
        elim (first_text (rows rs)) [
          | none ↦ none
          | some s ↦
              some
                (puts_store (atoi s) username filename hash (strip_slash path) content res_size d w)
        ])

  -- From the hash.
  unfoldable pub puts_hashed :
      (username filename path content : Bytes)
      → ℕ
      → Db
      → Fs
      → Option Bytes
      → Option (FileAnswer Db Fs)
  unfolding puts_counted
  puts_hashed username filename path content res_size d w none =
      some (failure_code, snprintf res_size (text "无法计算文件哈希值"), d, w)
  puts_hashed username filename path content res_size d w (some hash) =
      puts_counted username filename hash path content res_size (db_query m (sql_count_hash hash) d)
        w

  -- The pointers are not NULL.
  unfoldable pub file_puts :
      (username filename path content : Bytes) → ℕ → Db → Fs → Option (FileAnswer Db Fs)
  unfolding compute_sha1_from_memory puts_hashed
  file_puts username filename path content res_size d w =
      puts_hashed username filename path content res_size d w (compute_sha1_from_memory f content)
