-- ===== src/Dir/Table.antt =====
-- What `dir_mkdir`, `dir_ls` and `dir_rmdir` rely on of the database: the table `file_info` as a
-- list of rows, which its statements read and extend. The table's definition is not in the
-- repository.
use mathlib.Core.List.{Permᴰ}
use cloud_sys.Base.Int.{ℤ, int_eq}
use cloud_sys.Base.{
  ℕ, ◌≡◌, Bool, true, not, ◌&&◌, ◌||◌, List, [], ◌∷◌, ◌++◌, map, some, ◌==◌, if◌then◌else◌,
}
use cloud_sys.CString.{Bytes, bytes_eq, dec_int}
use cloud_sys.Database.{Mysql, Row}
use cloud_sys.Dir.Statements.{
  parent_path_text, dir_taken_text, insert_dir_text, ls_text, find_dir_text, children_text,
  delete_dir_text,
}

-- A row, in the columns that the statements name.
pub record FileRow : Type 0 where
  pub id : ℤ
  pub filename : Bytes
  pub username : Bytes
  pub parent_id : ℤ
  pub path : Bytes
  pub type : ℕ

abbrev pub keep : (FileRow → Bool) → List FileRow → List FileRow
keep p [] = []
keep p (r ∷ rs) = let rest = keep p rs in if p r then r ∷ rest else rest

abbrev pub has_id : ℤ → FileRow → Bool
has_id id r = int_eq r.id id

-- A directory of the user with this name, in this place.
abbrev pub is_named : Bytes → ℤ → Bytes → FileRow → Bool
is_named dirname id username r =
    bytes_eq r.filename dirname
    && (int_eq r.parent_id id && (bytes_eq r.username username && (r.type == 2)))

abbrev pub path_row : FileRow → Row
path_row r = some r.path ∷ []

abbrev pub id_row : FileRow → Row
id_row r = some (dec_int r.id) ∷ []

abbrev pub made : Bytes → Bytes → ℤ → Bytes → ℤ → FileRow
made dirname username id path new = record {
  id = new;
  filename = dirname;
  username = username;
  parent_id = id;
  path = path;
  type = 2;
}

pub record FileTable (m : Mysql) : Type 1 where
  -- The rows that the connection sees.
  pub rows_of : m.Db → List FileRow
  -- The ids of rows, and the names of directories, of users and the paths that the text of a
  -- statement carries over to the server unchanged.
  pub IsId : ℤ → Type 0
  pub IsName : Bytes → Type 0
  pub IsUser : Bytes → Type 0
  pub IsPath : Bytes → Type 0
  -- The connection behind a SELECT and its result.
  pub after : Bytes → m.Db → m.Db
  pub after_keeps : (sql : Bytes) (d : m.Db) → rows_of (after sql d) ≡ rows_of d
  -- The id that the next row gets.
  pub next_id : m.Db → ℤ
  pub path_runs : (id : ℤ) (d : m.Db) → IsId id → (m.run (parent_path_text id) d).0 ≡ true
  pub path_rows :
      (id : ℤ) (d : m.Db)
      → IsId id
      → m.store_result (m.run (parent_path_text id) d).1
        ≡ (some (map path_row (keep (has_id id) (rows_of d))), after (parent_path_text id) d)
  pub taken_runs :
      (dirname username : Bytes) (id : ℤ) (d : m.Db)
      → IsName dirname
      → IsUser username
      → IsId id
      → (m.run (dir_taken_text dirname id username) d).0 ≡ true
  pub taken_rows :
      (dirname username : Bytes) (id : ℤ) (d : m.Db)
      → IsName dirname
      → IsUser username
      → IsId id
      → m.store_result (m.run (dir_taken_text dirname id username) d).1 ≡ (
        some (map id_row (keep (is_named dirname id username) (rows_of d))),
        after (dir_taken_text dirname id username) d,
      )
  pub insert_runs :
      (dirname username path : Bytes) (id : ℤ) (d : m.Db)
      → IsName dirname
      → IsUser username
      → IsPath path
      → IsId id
      → (m.run (insert_dir_text dirname username id path) d).0 ≡ true
  pub insert_counts :
      (dirname username path : Bytes) (id : ℤ) (d : m.Db)
      → IsName dirname
      → IsUser username
      → IsPath path
      → IsId id
      → m.affected_rows (m.run (insert_dir_text dirname username id path) d).1 ≡ some 1
  pub insert_adds :
      (dirname username path : Bytes) (id : ℤ) (d : m.Db)
      → IsName dirname
      → IsUser username
      → IsPath path
      → IsId id
      → rows_of (m.run (insert_dir_text dirname username id path) d).1
        ≡ rows_of d ++ made dirname username id path (next_id d) ∷ []

-- A row of the directory that the user may see.
abbrev pub is_listed : ℤ → Bytes → FileRow → Bool
is_listed id username r =
    int_eq r.parent_id id && (bytes_eq r.username username || bytes_eq r.username (b'0' ∷ []))

-- The names of the rows, a line each.
abbrev pub names : List FileRow → Bytes
names [] = []
names (r ∷ rs) = (r.filename ++ (10 ∷ [])) ++ names rs

-- What `ls` relies on beyond this: its SELECT gives the rows of its condition, each once, in an order
-- that nothing is known of; and the second column of the table is `filename`, as the comment in
-- `dir_ls` assumes.
pub record Listed {m : Mysql} (table : FileTable m) : Type 1 where
  pub first_column : FileRow → Bytes
  pub other_columns : FileRow → Row
  pub ls_runs :
      (id : ℤ) (username : Bytes) (d : m.Db)
      → table.IsId id
      → table.IsUser username
      → (m.run (ls_text id username) d).0 ≡ true
  pub order : m.Db → List FileRow → List FileRow
  pub order_permutes : (d : m.Db) (rs : List FileRow) → Permᴰ (order d rs) rs
  pub ls_rows :
      (id : ℤ) (username : Bytes) (d : m.Db)
      → table.IsId id
      → table.IsUser username
      → m.store_result (m.run (ls_text id username) d).1 ≡ (
        some (
            map
              (λ r. some (first_column r) ∷ some r.filename ∷ other_columns r)
              (order d (keep (is_listed id username) (table.rows_of d)))),
        table.after (ls_text id username) d,
      )

-- A directory with this name, of any user, in this place.
abbrev pub is_dir_of : Bytes → ℤ → FileRow → Bool
is_dir_of dirname id r = bytes_eq r.filename dirname && (int_eq r.parent_id id && (r.type == 2))

abbrev pub is_under : ℤ → FileRow → Bool
is_under id r = int_eq r.parent_id id

abbrev pub has_other_id : ℤ → FileRow → Bool
has_other_id id r = not (has_id id r)

-- What `rmdir` relies on beyond `FileTable`.
pub record Removable {m : Mysql} (table : FileTable m) : Type 1 where
  pub find_runs :
      (dirname : Bytes) (id : ℤ) (d : m.Db)
      → table.IsName dirname
      → table.IsId id
      → (m.run (find_dir_text dirname id) d).0 ≡ true
  pub find_rows :
      (dirname : Bytes) (id : ℤ) (d : m.Db)
      → table.IsName dirname
      → table.IsId id
      → m.store_result (m.run (find_dir_text dirname id) d).1 ≡ (
        some (map id_row (keep (is_dir_of dirname id) (table.rows_of d))),
        table.after (find_dir_text dirname id) d,
      )
  -- The ids of directories to remove that the text of a statement carries over.
  pub IsTarget : ℤ → Type 0
  pub children_runs : (id : ℤ) (d : m.Db) → IsTarget id → (m.run (children_text id) d).0 ≡ true
  pub children_rows :
      (id : ℤ) (d : m.Db)
      → IsTarget id
      → m.store_result (m.run (children_text id) d).1 ≡ (
        some (map id_row (keep (is_under id) (table.rows_of d))),
        table.after (children_text id) d,
      )
  pub delete_runs : (id : ℤ) (d : m.Db) → IsTarget id → (m.run (delete_dir_text id) d).0 ≡ true
  pub delete_counts :
      (id : ℤ) (d : m.Db)
      → IsTarget id
      → (n : ℕ) × (m.affected_rows (m.run (delete_dir_text id) d).1 ≡ some n)
  pub delete_removes :
      (id : ℤ) (d : m.Db)
      → IsTarget id
      → table.rows_of (m.run (delete_dir_text id) d).1 ≡ keep (has_other_id id) (table.rows_of d)
