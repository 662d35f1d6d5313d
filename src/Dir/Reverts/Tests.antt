-- ===== src/Dir/Reverts/Tests.antt =====
-- `mkdir` and `rmdir`, at the server with a table.
use cloud_sys.Base.Int.{ℤ, pos, int_eq}
use cloud_sys.Base.{
  ◌≡◌, ◌≤◌, refl, ap, sym, ◌∙◌, subst, false, List, [], ◌∷◌, map, some, arith, length,
}
use cloud_sys.CString.{Bytes, dec_int}
use cloud_sys.Database.{Row, kind_of, db_query}
use cloud_sys.Cd.{success}
use cloud_sys.Dir.{dir_mkdir, dir_rmdir}
use cloud_sys.Dir.Statements.{
  sql_parent_path, sql_dir_taken, sql_insert_dir, parent_path_text, dir_taken_text, insert_dir_text,
  ls_text, find_dir_text, children_text, delete_dir_text,
}
use cloud_sys.Dir.Table.{
  FileRow, keep, has_id, id_row, made, is_dir_of, is_under, has_other_id, Removable,
}
use cloud_sys.Dir.Removes.{removed, dir_rmdir-removed}
use cloud_sys.Dir.Reverts.{head_id, dir_mkdir-dir_rmdir}
use cloud_sys.Dir.Tests.{docs, slash_docs, tabled, selected, table, root_row, one_row, docs_path}

tabled_found :
    (dirname : Bytes) (id : ℤ) (d : List FileRow × List Row)
    → dirname ≡ docs
    → id ≡ pos 1
    → tabled.store_result (tabled.run (find_dir_text dirname id) d).1 ≡ (
      some (map id_row (keep (is_dir_of dirname id) d.0)),
      (d.0, selected (find_dir_text dirname id) d.0),
    )
unfolding parent_path_text dir_taken_text insert_dir_text ls_text find_dir_text delete_dir_text
    dec_int
tabled_found dirname id d e e' = rw (e, e') refl

tabled_children :
    (id : ℤ) (d : List FileRow × List Row)
    → id ≡ pos 7
    → tabled.store_result (tabled.run (children_text id) d).1
      ≡ (some (map id_row (keep (is_under id) d.0)), (d.0, selected (children_text id) d.0))
unfolding parent_path_text dir_taken_text insert_dir_text ls_text find_dir_text children_text
    delete_dir_text dec_int
tabled_children id d e = rw e refl

tabled_delete :
    (id : ℤ) (d : List FileRow × List Row)
    → id ≡ pos 7
    → (tabled.run (delete_dir_text id) d).1.0 ≡ keep (has_other_id id) d.0
unfolding insert_dir_text delete_dir_text dec_int
tabled_delete id d e = rw e refl

removable : Removable table
unfolding table
removable = record {
  find_runs = λ dirname id d p i. refl;
  find_rows = tabled_found;
  IsTarget = λ id. id ≡ pos 7;
  children_runs = λ id d i. refl;
  children_rows = tabled_children;
  delete_runs = λ id d i. refl;
  delete_counts = λ id d i. (1, refl);
  delete_removes = tabled_delete;
}

abbrev docs_row : FileRow
docs_row = made docs docs (pos 1) slash_docs (pos 7)

abbrev with_docs : List FileRow × List Row
with_docs = (root_row ∷ docs_row ∷ [], [])

-- An id that is 7.
seven : (id : ℤ) → id ≡ pos 7 → (id ≡ pos 7) × (length (dec_int id) ≤ 11)
unfolding dec_int
seven id e = (e, subst (λ k. length (dec_int k) ≤ 11) (sym e) (omega arith))

dir_rmdir-removed_example :
    ◌≡◌ {A = ℤ × List FileRow}
      (
        (dir_rmdir tabled docs (pos 1) 4096 with_docs).0,
        (dir_rmdir tabled docs (pos 1) 4096 with_docs).2.0,
      )
      (removed docs (pos 1) (root_row ∷ docs_row ∷ []))
unfolding table removable dec_int
dir_rmdir-removed_example =
    dir_rmdir-removed table removable docs (pos 1) 4096 with_docs (omega arith) refl refl
      (omega arith) (λ r rs e. seven r.id (ap (head_id (pos 7)) (sym e)))

makes_docs : (dir_mkdir tabled 0 docs docs (pos 1) 4096 one_row).2.0 ≡ root_row ∷ docs_row ∷ []
unfolding dir_mkdir db_query kind_of dec_int parent_path_text dir_taken_text insert_dir_text
    delete_dir_text sql_parent_path sql_dir_taken sql_insert_dir
makes_docs = refl

abbrev second_id : List FileRow → ℤ
second_id [] = pos 0
second_id (r ∷ rs) = head_id (pos 0) rs

-- The id of the row that was made is new.
fresh_at :
    (new : ℤ)
    → new ≡ pos 7
    → (keep (has_id new) (root_row ∷ []) ≡ [])
      × (keep (is_under new) (root_row ∷ []) ≡ [])
      × (int_eq (pos 1) new ≡ false)
      × (new ≡ pos 7)
      × (length (dec_int new) ≤ 11)
fresh_at new e = (rw e refl, rw e refl, rw e refl, e, (seven new e).1)

dir_mkdir-dir_rmdir_example :
    (out out' : Bytes) × (d' d'' : tabled.Db) × (dir_mkdir tabled 0 docs docs (pos 1) 4096 one_row
      ≡ (success, out, d'))
    × (dir_rmdir tabled docs (pos 1) 4096 d' ≡ (success, out', d''))
    × (d''.0 ≡ root_row ∷ [])
unfolding table removable dec_int
dir_mkdir-dir_rmdir_example =
    dir_mkdir-dir_rmdir table removable 0 docs docs (pos 1) 4096 4096 one_row root_row []
      (omega arith) (omega arith) (omega arith) refl (omega arith) refl refl refl docs_path refl
      (omega arith) (omega (arith, ap length docs_path))
      (λ new e. fresh_at new (ap second_id (sym e ∙ makes_docs)))
