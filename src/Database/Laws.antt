-- ===== src/Database/Laws.antt =====
-- How `db_query` answers each kind of statement.
use cloud_sys.Base.{ℕ, ◌≡◌, ap, ◌∙◌, true, List, some}
use cloud_sys.CString.{Bytes}
use cloud_sys.Database.{Mysql, Row, rows, affected, select, update, kind_of, answer, db_query}

module _ (m : Mysql) where
  open m use {Db, run, store_result, affected_rows}

  answered :
      (sql : Bytes) (d : Db)
      → (run sql d).0 ≡ true
      → db_query m sql d ≡ answer m (kind_of sql) (run sql d).1
  unfolding db_query
  answered sql d sent = rw sent

  pub db_query-select :
      (sql : Bytes) (d d' : Db) (rs : List Row)
      → kind_of sql ≡ select
      → (run sql d).0 ≡ true
      → store_result (run sql d).1 ≡ (some rs, d')
      → db_query m sql d ≡ (rows rs, d')
  db_query-select sql d d' rs k sent stored =
      answered sql d sent ∙ ap (λ k'. answer m k' (run sql d).1) k ∙ (unfold answer in rw stored)

  pub db_query-update :
      (sql : Bytes) (d : Db) (n : ℕ)
      → kind_of sql ≡ update
      → (run sql d).0 ≡ true
      → affected_rows (run sql d).1 ≡ some n
      → db_query m sql d ≡ (affected n, (run sql d).1)
  db_query-update sql d n k sent counts =
      answered sql d sent ∙ ap (λ k'. answer m k' (run sql d).1) k ∙ (unfold answer in rw counts)
