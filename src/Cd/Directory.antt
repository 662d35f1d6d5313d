-- ===== src/Cd/Directory.antt =====
-- What `dir_cd` relies on of the database: the two SELECT statements answer from one tree of
-- directories, and leave it as it is.
use cloud_sys.Base.Int.{ℤ, pos}
use cloud_sys.Base.{◌≡◌, ◌≢◌, true, List, [], ◌∷◌, Option, none, some}
use cloud_sys.CString.{Bytes, dec_int}
use cloud_sys.Database.{Mysql, Row}
use cloud_sys.Cd.{sql_parent, sql_child}

-- One row with one field, or no row.
abbrev pub id_rows : Option ℤ → List Row
id_rows none = []
id_rows (some id) = (some (dec_int id) ∷ []) ∷ []

pub record Directory (m : Mysql) : Type 1 where
  pub child : ℤ → Bytes → Option ℤ
  pub parent : ℤ → Option ℤ
  -- The ids of the table's rows, and the id of the root among them.
  pub IsId : ℤ → Type 0
  pub root-IsId : IsId (pos 1)
  pub child-IsId : (id c : ℤ) (name : Bytes) → child id name ≡ some c → IsId c
  -- Names that the statement's text carries over to the server unchanged.
  pub IsPlain : Bytes → Type 0
  -- The states of the connection in which the tree is the stored one.
  pub Stores : m.Db → Type 0
  pub after_child : ℤ → Bytes → m.Db → m.Db
  pub after_parent : ℤ → m.Db → m.Db
  pub child_runs :
      (id : ℤ) (name : Bytes) (d : m.Db)
      → Stores d
      → IsId id
      → IsPlain name
      → (m.run (sql_child id name) d).0 ≡ true
  pub child_rows :
      (id : ℤ) (name : Bytes) (d : m.Db)
      → Stores d
      → IsId id
      → IsPlain name
      → m.store_result (m.run (sql_child id name) d).1
        ≡ (some (id_rows (child id name)), after_child id name d)
  pub parent_runs : (id : ℤ) (d : m.Db) → Stores d → IsId id → (m.run (sql_parent id) d).0 ≡ true
  pub parent_rows :
      (id : ℤ) (d : m.Db)
      → Stores d
      → IsId id
      → m.store_result (m.run (sql_parent id) d).1 ≡ (some (id_rows (parent id)), after_parent id d)
  pub child_keeps : (id : ℤ) (name : Bytes) (d : m.Db) → Stores d → Stores (after_child id name d)
  pub parent_keeps : (id : ℤ) (d : m.Db) → Stores d → Stores (after_parent id d)
  -- A directory is filed under its parent, and the root is filed under none.
  pub parent-child : (id c : ℤ) (name : Bytes) → child id name ≡ some c → parent c ≡ some id
  pub child-ne_root : (id c : ℤ) (name : Bytes) → child id name ≡ some c → c ≢ pos 1
