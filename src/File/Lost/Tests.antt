-- ===== src/File/Lost/Tests.antt =====
-- Two users with the same stored file, at a server whose every SELECT gives the same row.
use cloud_sys.Base.{
  ◌≡◌, refl, Bool, true, false, [], ◌∷◌, ◌++◌, none, some, if◌then◌else◌, replicate, arith,
}
use cloud_sys.CString.{Bytes, bytes_eq, text}
use cloud_sys.Database.{Mysql, Row, rows, db_query, kind_of}
use cloud_sys.Cd.{snprintf, success, failure_code}
use cloud_sys.File.{Files, joined, strip_slash, sql_get_file, sql_delete_file, sql_get_hash}
use cloud_sys.File.Remove.{file_remove, remove_found, remove_row, remove_file, two_texts}
use cloud_sys.File.Gets.{file_gets}
use cloud_sys.File.Lost.{Unlinks, file_remove-file_gets}

abbrev amy : Bytes
amy = b'a' ∷ []

abbrev bob : Bytes
bob = b'b' ∷ []

abbrev hash : Bytes
hash = b'1' ∷ []

abbrev path : Bytes
path = b's' ∷ []

-- The hash, and the path of the stored file.
abbrev shared_row : Row
shared_row = some hash ∷ some path ∷ []

abbrev shared : Mysql
shared = record {
  Db = Unit;
  run = λ sql d. (true, d);
  store_result = λ d. (some (shared_row ∷ []), d);
  affected_rows = λ d. some 1;
  escape = λ s. s;
  ping = λ d. true;
}

abbrev is_folder : Bytes → Bool
is_folder p = bytes_eq p (b'u' ∷ b'/' ∷ bob)

-- The folder of `bob` and one file beside it, by whatever name. The state says whether it is there.
abbrev disk : Files
disk = record {
  Fs = Bool;
  stat = λ p w.
      if is_folder p
      then some (record { st_size = 0; is_dir = true })
      else if w
      then some (record { st_size = 3; is_dir = false })
      else none;
  mkdir = λ p w. (false, w);
  open_create = λ p w. (none, w);
  open_read = λ p w. (none, w);
  ftruncate = λ fd n w. (true, w);
  map_write = λ fd n c w. none;
  map_read = λ fd n w. none;
  close = λ fd w. w;
  unlink = λ p w. if is_folder p then (false, w) else (true, false);
  error_text = λ w. [];
  sha1 = λ c. some (replicate 20 171);
}

disk-Unlinks : Unlinks disk shared
disk-Unlinks p w w' h = ground arith

finds : db_query shared (sql_get_file amy amy) tt ≡ (rows (shared_row ∷ []), tt)
unfolding db_query kind_of sql_get_file
finds = refl

removes :
    file_remove disk shared (λ r. r) amy amy 4096 tt true
    ≡ (success, snprintf 4096 (text "文件删除成功: " ++ amy), tt, false)
unfolding file_remove remove_found remove_row remove_file two_texts db_query kind_of sql_get_file
    sql_delete_file
removes = refl

knows : db_query shared (sql_get_hash bob bob) tt ≡ (rows (shared_row ∷ []), tt)
unfolding db_query kind_of sql_get_hash
knows = refl

file_remove-file_gets_example :
    file_gets disk shared bob bob path (b'u' ∷ []) 4096 tt false
    ≡ (failure_code, snprintf 4096 (text "文件不存在: " ++ joined (strip_slash path) hash), tt, false)
unfolding strip_slash
file_remove-file_gets_example =
    file_remove-file_gets disk shared disk-Unlinks (λ r. r) amy amy hash path bob bob (b'u' ∷ [])
      (snprintf 4096 (text "文件删除成功: " ++ amy)) 4096 tt tt tt tt true false [] (some path ∷ []) [] []
      (record { st_size = 0; is_dir = true }) finds refl removes refl refl knows (omega arith)
