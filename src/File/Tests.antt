-- ===== src/File/Tests.antt =====
-- File commands on a file system with one file, at a server whose every SELECT gives the same row.
use cloud_sys.Base.Int.{ℤ, pos}
use cloud_sys.Base.{ℕ, zero, suc, ◌<◌, ◌≡◌, refl, Bool, true, false, [], ◌∷◌, none, some, replicate}
use cloud_sys.CString.{Bytes, atoi}
use cloud_sys.Database.{Mysql, Row, rows, db_query, kind_of}
use cloud_sys.Users.Salt.{AllBelow}
use cloud_sys.File.{Files, compute_sha1_from_memory, hex, sql_count_hash}
use cloud_sys.File.Puts.{file_puts}
use cloud_sys.File.Transfer.{file_puts-known}

abbrev note_name : Bytes
note_name = b'n' ∷ []

-- The first field serves as a count and as a hash.
abbrev the_row : Row
the_row = some (b'1' ∷ []) ∷ some (b'/' ∷ []) ∷ []

abbrev one_row : Mysql
one_row = record {
  Db = Unit;
  run = λ sql d. (true, d);
  store_result = λ d. (some (the_row ∷ []), d);
  affected_rows = λ d. some 1;
  escape = λ s. s;
  ping = λ d. true;
}

-- The state says whether the file is still there.
abbrev one_file : Files
one_file = record {
  Fs = Bool;
  stat = λ p w. some (record { st_size = 3; is_dir = true });
  mkdir = λ p w. (false, w);
  open_create = λ p w. (none, w);
  open_read = λ p w. (some 3, w);
  ftruncate = λ fd n w. (true, w);
  map_write = λ fd n c w. none;
  map_read = λ fd n w. some (b'x' ∷ b'y' ∷ b'z' ∷ []);
  close = λ fd w. w;
  unlink = λ p w. (true, false);
  error_text = λ w. [];
  sha1 = λ c. some (replicate 20 171);
}

abbrev ab_hash : Bytes
ab_hash = hex (replicate 20 171)

AllBelow-replicate : (k n x : ℕ) → x < n → AllBelow n (replicate k x)
AllBelow-replicate zero n x h = tt
AllBelow-replicate (suc k) n x h = (h, AllBelow-replicate k n x h)

hashed : compute_sha1_from_memory one_file note_name ≡ some ab_hash
unfolding compute_sha1_from_memory
hashed = refl

counted : db_query one_row (sql_count_hash ab_hash) tt ≡ (rows (the_row ∷ []), tt)
unfolding db_query kind_of sql_count_hash
counted = refl

one : atoi (b'1' ∷ []) ≡ pos 1
unfolding atoi
one = refl

file_puts-known_example :
    (code : ℤ) × (response : Bytes) × (d : Unit) × (file_puts one_file one_row note_name note_name
        (b'/' ∷ [])
        note_name
        4096
        tt
        true
      ≡ some (code, response, d, true))
file_puts-known_example =
    file_puts-known one_file one_row note_name note_name (b'/' ∷ []) note_name ab_hash (b'1' ∷ [])
      4096 tt tt true 0 (some (b'/' ∷ []) ∷ []) [] hashed counted one
