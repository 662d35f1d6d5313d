-- ===== src/File/RoundTrip/Tests.antt =====
-- An upload and a download at a server with one stored file, and a table that gets its row.
use cloud_sys.Base.Int.{pos}
use cloud_sys.Base.{
  ℕ, ◌≡◌, refl, Bool, true, false, ◌||◌, List, [], ◌∷◌, Option, none, some, ◌==◌, if◌then◌else◌,
  length, take, take_all, get_or, replicate, arith, length-replicate,
}
use cloud_sys.CString.{Bytes, bytes_eq, text, atoi}
use cloud_sys.Database.{Mysql, rows, affected, db_query, kind_of}
use cloud_sys.Cd.{snprintf, success}
use cloud_sys.File.{
  Files, Stat, hex, joined, strip_slash, sql_count_hash, sql_insert_file, sql_get_hash,
}
use cloud_sys.File.Keeping.{Keeping}
use cloud_sys.File.Puts.{file_puts}
use cloud_sys.File.Gets.{file_gets}
use cloud_sys.File.Download.{download}
use cloud_sys.File.RoundTrip.{file_puts-file_gets}

abbrev digest : List ℕ
digest = replicate 20 171

-- Whether the row is there, and the last statement.
abbrev one_table : Mysql
one_table = record {
  Db = Bool × Bytes;
  run = λ sql d. (true, (get_or sql 0 0 == b'I' || d.0, sql));
  store_result = λ d. (
    some (
        if get_or d.1 7 0 == b'C'
        then (some ((if d.0 then b'1' else b'0') ∷ []) ∷ []) ∷ []
        else if d.0
        then (some (hex digest) ∷ []) ∷ []
        else []),
    d,
  );
  affected_rows = λ d. some 1;
  escape = λ s. s;
  ping = λ d. true;
}

abbrev folder_path : Bytes
folder_path = b'u' ∷ b'/' ∷ b'n' ∷ []

abbrev is_folder : Bytes → Bool
is_folder p = bytes_eq p folder_path

-- The user's folder, and the one file beside it, by whatever name.
abbrev one_disk : Files
one_disk = record {
  Fs = Option Bytes;
  stat = λ p w.
      if is_folder p
      then some (record { st_size = 0; is_dir = true })
      else elim w [ none ↦ none | some c ↦ some (record { st_size = length c; is_dir = false }) ];
  mkdir = λ p w. (false, w);
  open_create = λ p w. if is_folder p then (none, w) else (some 3, some []);
  open_read = λ p w.
      if is_folder p then (none, w) else elim w [ none ↦ (none, none) | some c ↦ (some 4, some c) ];
  ftruncate = λ fd n w. (true, some (replicate n 0));
  map_write = λ fd n c w. some (some c);
  map_read = λ fd n w. elim w [ none ↦ none | some c ↦ some (take n c) ];
  close = λ fd w. w;
  unlink = λ p w. (true, none);
  error_text = λ w. [];
  sha1 = λ c. some digest;
}

abbrev the_content : Bytes → Option Bytes → Option Bytes
the_content p w = if is_folder p then none else w

opens :
    (p : Bytes) (fd : ℕ) (w w' : Option Bytes)
    → one_disk.open_create p w ≡ (some fd, w')
    → is_folder p ≡ false
opens p fd w w' h = ground arith

sizes :
    (p : Bytes) (n : ℕ) (w w' : Option Bytes)
    → is_folder p ≡ false
    → (◌≡◌ {A = Bool × Option Bytes} (true, some (replicate n 0)) (true, w'))
    → (c : Bytes) × (the_content p w' ≡ some c) × (length c ≡ n)
sizes p n w w' file h = (replicate n 0, ground arith, length-replicate n 0)

stores :
    (p content : Bytes) (w' : Option Bytes)
    → is_folder p ≡ false
    → (◌≡◌ {A = Option (Option Bytes)} (some (some content)) (some w'))
    → the_content p w' ≡ some content
stores p content w' file h = ground arith

measures :
    (p c : Bytes) (w : Option Bytes) (st : Stat)
    → the_content p w ≡ some c
    → one_disk.stat p w ≡ some st
    → st.st_size ≡ length c
measures p c none st has there = ground arith
measures p c (some x) st has there = ground arith

read_opens :
    (p : Bytes) (fd : ℕ) (w w' : Option Bytes)
    → one_disk.open_read p w ≡ (some fd, w')
    → is_folder p ≡ false
read_opens p fd w w' h = ground arith

read_keeps :
    (p q : Bytes) (fd : ℕ) (w w' : Option Bytes)
    → one_disk.open_read p w ≡ (some fd, w')
    → the_content q w' ≡ the_content q w
read_keeps p q fd none w' h = ground arith
read_keeps p q fd (some x) w' h = ground arith

shows :
    (p c mapped : Bytes) (fd : ℕ) (w : Option Bytes)
    → the_content p w ≡ some c
    → one_disk.map_read fd (length c) w ≡ some mapped
    → mapped ≡ c
shows p c mapped fd none has read = ground arith
shows p c mapped fd (some x) has read = ground (arith, take_all (length c) c)

abbrev one_disk_keeps : Keeping one_disk
one_disk_keeps = record {
  content_of = the_content;
  Opened = λ fd p w. is_folder p ≡ false;
  open_create_opens = opens;
  ftruncate_opens = λ p fd n w w' o h. o;
  ftruncate_sizes = λ p fd n w w' o h. sizes p n w w' o h;
  map_write_stores = λ p c content fd w w' o has long h. stores p content w' o h;
  close_keeps = λ p fd w. refl;
  stat_measures = measures;
  open_read_opens = read_opens;
  open_read_keeps = read_keeps;
  map_read_shows = λ p c mapped fd w o has h. shows p c mapped fd w has h;
}

abbrev n_name : Bytes
n_name = b'n' ∷ []

abbrev xyz : Bytes
xyz = b'x' ∷ b'y' ∷ b'z' ∷ []

abbrev table_at : Bool → Bytes → one_table.Db
table_at there sql = (there, sql)

counts :
    db_query one_table (sql_count_hash (hex digest)) (table_at false [])
    ≡ (rows ((some (b'0' ∷ []) ∷ []) ∷ []), table_at false (sql_count_hash (hex digest)))
unfolding db_query kind_of sql_count_hash hex
counts = refl

inserts :
    db_query one_table
      (sql_insert_file n_name n_name (hex digest) (strip_slash (b's' ∷ [])))
      (table_at false (sql_count_hash (hex digest)))
    ≡ (affected 1, table_at true (sql_insert_file n_name n_name (hex digest) (b's' ∷ [])))
unfolding db_query kind_of sql_insert_file strip_slash hex
inserts = refl

finds :
    db_query one_table
      (sql_get_hash n_name n_name)
      (table_at true (sql_insert_file n_name n_name (hex digest) (b's' ∷ [])))
    ≡ (rows ((some (hex digest) ∷ []) ∷ []), table_at true (sql_get_hash n_name n_name))
unfolding db_query kind_of sql_get_hash hex
finds = refl

zero_count : atoi (b'0' ∷ []) ≡ pos 0
unfolding atoi
zero_count = refl

abbrev stored_path : Bytes
stored_path = joined (strip_slash (b's' ∷ [])) (hex digest)

makes : one_disk.open_create stored_path none ≡ (some 3, some [])
unfolding strip_slash hex
makes = refl

stats :
    one_disk.stat stored_path (some xyz) ≡ some (record { st_size = length xyz; is_dir = false })
unfolding strip_slash hex
stats = refl

opens_again : one_disk.open_read stored_path (some xyz) ≡ (some 4, some xyz)
unfolding strip_slash hex
opens_again = refl

file_puts-file_gets_example :
    (file_puts one_disk one_table n_name n_name (b's' ∷ []) xyz 4096 (table_at false []) none
      ≡ some (
        success,
        snprintf 4096 (text "文件上传成功"),
        table_at true (sql_insert_file n_name n_name (hex digest) (b's' ∷ [])),
        some xyz,
      ))
    × (file_gets one_disk one_table n_name n_name
          (b's' ∷ [])
          (b'u' ∷ [])
          4096
          (table_at true (sql_insert_file n_name n_name (hex digest) (b's' ∷ [])))
          (some xyz)
        ≡ (
          (download one_disk one_table n_name 3 4096 xyz).0,
          (download one_disk one_table n_name 3 4096 xyz).1,
          table_at true (sql_get_hash n_name n_name),
          some xyz,
        ))
file_puts-file_gets_example =
    file_puts-file_gets one_disk one_table one_disk_keeps n_name n_name (b's' ∷ []) (b'u' ∷ []) xyz
      (b'0' ∷ []) xyz digest 4096 3 4 1 (table_at false [])
      (table_at false (sql_count_hash (hex digest)))
      (table_at true (sql_insert_file n_name n_name (hex digest) (b's' ∷ [])))
      (table_at true (sql_get_hash n_name n_name)) none (some []) (some (replicate 3 0)) (some xyz)
      (some xyz) [] [] [] [] (record { st_size = 0; is_dir = true })
      (record { st_size = 3; is_dir = false }) refl refl counts zero_count makes refl refl inserts
      refl refl finds stats opens_again refl
