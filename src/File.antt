-- ===== src/File.antt =====
-- The file commands of server/func_file.c. The file system and SHA-1 are parameters.
pub mod Puts
pub mod Gets
pub mod Remove
pub mod Resume
pub mod Hash
pub mod Transfer
pub mod Lost
pub mod Download
pub mod Keeping
pub mod RoundTrip
pub mod Tests
use cloud_sys.Base.Int.{ℤ, pos, negsuc}
use cloud_sys.Base.{
  ℕ, zero, suc, ◌+◌, ◌-◌, ◌/◌, ◌%◌, Bool, true, false, not, List, [], ◌∷◌, ◌++◌, Option, none, some,
  ltb, ◌==◌, if◌then◌else◌, length, take, get_or,
}
use cloud_sys.CString.{Bytes, text, atoi}
use cloud_sys.Database.{Mysql, Row, Reply, failure, rows, affected, db_query}
use cloud_sys.PathStack.{path_max}
use cloud_sys.Cd.{snprintf, success, failure_code, err_param, err_db}
use cloud_sys.Users.{first_text}
use cloud_sys.Dir.{on_rows, on_success}

-- `struct stat`, as far as it is read.
pub record Stat : Type 0 where
  pub st_size : ℕ
  pub is_dir : Bool

-- The calls on the file system, over its state. `true` is a result of 0.
pub record Files : Type 1 where
  pub Fs : Type 0
  pub stat : Bytes → Fs → Option Stat
  pub mkdir : Bytes → Fs → Bool × Fs
  -- `open` with O_RDWR | O_CREAT | O_TRUNC, and with O_RDONLY: a descriptor.
  pub open_create : Bytes → Fs → Option ℕ × Fs
  pub open_read : Bytes → Fs → Option ℕ × Fs
  pub ftruncate : ℕ → ℕ → Fs → Bool × Fs
  -- `mmap` for writing, with what the `memcpy` puts there until `munmap`. `none` is MAP_FAILED.
  pub map_write : ℕ → ℕ → Bytes → Fs → Option Fs
  -- `mmap` for reading: the bytes of the mapping.
  pub map_read : ℕ → ℕ → Fs → Option Bytes
  pub close : ℕ → Fs → Fs
  pub unlink : Bytes → Fs → Bool × Fs
  -- `strerror(errno)`.
  pub error_text : Fs → Bytes
  -- SHA1_Init, SHA1_Update and SHA1_Final: the digest, or `none` where one of them fails.
  pub sha1 : Bytes → Option (List ℕ)

unfoldable pub hex_digit : ℕ → ℕ
hex_digit n = if ltb n 10 then 48 + n else 87 + n

-- The loop of `sprintf("%02x")`.
unfoldable pub hex : List ℕ → Bytes
unfolding hex_digit
hex [] = []
hex (b ∷ bs) = hex_digit (b / 16) ∷ hex_digit (b % 16) ∷ hex bs

unfoldable pub sql_count_hash : Bytes → Bytes
unfolding text
sql_count_hash hash =
    snprintf 1024 (text "SELECT COUNT(*) FROM file_info WHERE hash='" ++ (hash ++ text "'"))

unfoldable pub sql_insert_file : Bytes → Bytes → Bytes → Bytes → Bytes
unfolding text
sql_insert_file filename username hash path = snprintf 1024 (
    text "INSERT INTO file_info (filename, username, hash, path) VALUES ('"
    ++ (filename
        ++ (text "', '"
            ++ (username ++ (text "', '" ++ (hash ++ (text "', '" ++ (path ++ text "')"))))))))

unfoldable pub sql_get_hash : Bytes → Bytes → Bytes
unfolding text
sql_get_hash filename username = snprintf 1024 (
    text "SELECT hash FROM file_info WHERE filename='"
    ++ (filename ++ (text "' AND username='" ++ (username ++ text "'"))))

unfoldable pub sql_get_file : Bytes → Bytes → Bytes
unfolding text
sql_get_file filename username = snprintf 1024 (
    text "SELECT hash, path FROM file_info WHERE filename='"
    ++ (filename ++ (text "' AND username='" ++ (username ++ text "'"))))

unfoldable pub sql_delete_file : Bytes → Bytes → Bytes
unfolding text
sql_delete_file filename username = snprintf 1024 (
    text "DELETE FROM file_info WHERE filename='"
    ++ (filename ++ (text "' AND username='" ++ (username ++ text "'"))))

-- `path` without the slash at its end.
unfoldable pub strip_slash : Bytes → Bytes
strip_slash path =
    let p = take (path_max - 1) path in
    let n = length p in
    if ltb 0 n then (if get_or p (n - 1) 0 == b'/' then take (n - 1) p else p) else p

abbrev pub joined : Bytes → Bytes → Bytes
joined path name = snprintf path_max (path ++ (b'/' ∷ name))

-- A command: its code, its response, and the states of the connection and of the file system.
abbrev pub FileAnswer : Type 0 → Type 0 → Type 0
FileAnswer Db Fs = ℤ × Bytes × Db × Fs

module _ (f : Files) where
  open f use {sha1}

  -- `none` is a result that is not 0.
  unfoldable pub compute_sha1_from_memory : Bytes → Option Bytes
  unfolding hex
  compute_sha1_from_memory content = elim (sha1 content) [ none ↦ none | some md ↦ some (hex md) ]
