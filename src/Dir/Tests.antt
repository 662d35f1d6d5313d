-- ===== src/Dir/Tests.antt =====
-- `mkdir` at a server with a table whose root is empty.
use cloud_sys.Base.Int.{ℤ, pos}
use cloud_sys.Base.{◌++◌, ap, List, map, if◌then◌else◌, ◌≡◌, refl, true, [], ◌∷◌, some, arith}
use cloud_sys.CString.{Bytes, bytes_eq, dec_int}
use cloud_sys.Database.{Mysql, Row}
use cloud_sys.Dir.Inserts.{Makes, dir_mkdir-Makes}
use cloud_sys.Dir.{new_path, dir_mkdir}
use cloud_sys.Base.{ltb, length}
use cloud_sys.Dir.Table.{
  is_dir_of, is_under, has_other_id, FileRow, FileTable, keep, has_id, is_named, path_row, id_row,
  made, is_listed,
}
use cloud_sys.Dir.Statements.{
  parent_path_text, dir_taken_text, insert_dir_text, ls_text, find_dir_text, children_text,
  delete_dir_text,
}

abbrev pub docs : Bytes
docs = b'd' ∷ b'o' ∷ b'c' ∷ b's' ∷ []

abbrev pub slash_docs : Bytes
slash_docs = b'/' ∷ docs

abbrev pub name_row : FileRow → Row
name_row r = id_row r ++ some r.filename ∷ []

-- The answer to a SELECT over these rows of the table.
abbrev pub selected : Bytes → List FileRow → List Row
selected sql rs =
    if bytes_eq sql (parent_path_text (pos 1))
    then map path_row (keep (has_id (pos 1)) rs)
    else if bytes_eq sql (dir_taken_text docs (pos 1) docs)
    then map id_row (keep (is_named docs (pos 1) docs) rs)
    else if bytes_eq sql (ls_text (pos 1) docs)
    then map name_row (keep (is_listed (pos 1) docs) rs)
    else if bytes_eq sql (find_dir_text docs (pos 1))
    then map id_row (keep (is_dir_of docs (pos 1)) rs)
    else if bytes_eq sql (children_text (pos 7))
    then map id_row (keep (is_under (pos 7)) rs)
    else []

-- A server with a table, and the result of the last SELECT; the next id is 7.
abbrev pub tabled : Mysql
tabled = record {
  Db = List FileRow × List Row;
  run = λ sql d. (
    true,
    if bytes_eq sql (insert_dir_text docs docs (pos 1) slash_docs)
        then (d.0 ++ made docs docs (pos 1) slash_docs (pos 7) ∷ [], [])
        else if bytes_eq sql (delete_dir_text (pos 7))
        then (keep (has_other_id (pos 7)) d.0, [])
        else (d.0, selected sql d.0),
  );
  store_result = λ d. (some d.1, d);
  affected_rows = λ d. some 1;
  escape = λ s. s;
  ping = λ d. true;
}

pub tabled_path :
    (id : ℤ) (d : List FileRow × List Row)
    → id ≡ pos 1
    → tabled.store_result (tabled.run (parent_path_text id) d).1
      ≡ (some (map path_row (keep (has_id id) d.0)), (d.0, selected (parent_path_text id) d.0))
unfolding parent_path_text dir_taken_text insert_dir_text delete_dir_text dec_int
tabled_path id d e = rw e refl

pub tabled_taken :
    (dirname username : Bytes) (id : ℤ) (d : List FileRow × List Row)
    → dirname ≡ docs
    → username ≡ docs
    → id ≡ pos 1
    → tabled.store_result (tabled.run (dir_taken_text dirname id username) d).1 ≡ (
      some (map id_row (keep (is_named dirname id username) d.0)),
      (d.0, selected (dir_taken_text dirname id username) d.0),
    )
unfolding parent_path_text dir_taken_text insert_dir_text delete_dir_text dec_int
tabled_taken dirname username id d e e' e'' = rw (e, e', e'') refl

pub tabled_insert :
    (dirname username path : Bytes) (id : ℤ) (d : List FileRow × List Row)
    → dirname ≡ docs
    → username ≡ docs
    → path ≡ slash_docs
    → id ≡ pos 1
    → (tabled.run (insert_dir_text dirname username id path) d).1.0
      ≡ d.0 ++ made dirname username id path (pos 7) ∷ []
unfolding parent_path_text dir_taken_text insert_dir_text delete_dir_text dec_int
tabled_insert dirname username path id d e e' e'' e3 = rw (e, e', e'', e3) refl

unfoldable pub table : FileTable tabled
table = record {
  rows_of = λ d. d.0;
  IsId = λ id. id ≡ pos 1;
  IsName = λ n. n ≡ docs;
  IsUser = λ n. n ≡ docs;
  IsPath = λ n. n ≡ slash_docs;
  after = λ sql d. (d.0, selected sql d.0);
  after_keeps = λ sql d. refl;
  next_id = λ d. pos 7;
  path_runs = λ id d i. refl;
  path_rows = tabled_path;
  taken_runs = λ dirname username id d p q i. refl;
  taken_rows = tabled_taken;
  insert_runs = λ dirname username path id d p q r i. refl;
  insert_counts = λ dirname username path id d p q r i. refl;
  insert_adds = tabled_insert;
}

-- The root.
abbrev pub root_row : FileRow
root_row = record {
  id = pos 1;
  filename = [];
  username = [];
  parent_id = pos 0;
  path = b'/' ∷ [];
  type = 2;
}

abbrev pub one_row : List FileRow × List Row
one_row = (root_row ∷ [], [])

pub docs_path : new_path 0 root_row.path docs ≡ slash_docs
unfolding new_path
docs_path = refl

dir_mkdir-Makes_example :
    (new : ℤ) × Makes table
      (ltb 0 (length (keep (is_named docs (pos 1) docs) (root_row ∷ []))))
      (made docs docs (pos 1) (new_path 0 root_row.path docs) new)
      one_row
      (dir_mkdir tabled 0 docs docs (pos 1) 4096 one_row)
unfolding table dec_int
dir_mkdir-Makes_example =
    dir_mkdir-Makes table 0 docs docs (pos 1) 4096 one_row root_row [] (omega arith) (omega arith)
      refl (omega arith) refl refl docs_path refl (omega arith) (omega (arith, ap length docs_path))
