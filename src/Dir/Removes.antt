-- ===== src/Dir/Removes.antt =====
-- `dir_rmdir` of server/func_dir.c as a removal from the table `file_info`.
use cloud_sys.Base.Int.{ℤ}
use cloud_sys.Base.{
  ℕ, suc, ◌+◌, ◌≤◌, ◌<◌, ◌≡◌, refl, ap, ◌∙◌, List, [], ◌∷◌, ◌++◌, map, arith, length, take_all,
  length-append, lt→ltb, ne→==,
}
use cloud_sys.CString.{Bytes, text, dec_int}
use cloud_sys.CString.Decimal.{atoi-dec_int}
use cloud_sys.Database.{Mysql, rows, affected, kind_of, db_query}
use cloud_sys.Database.Laws.{db_query-select, db_query-update}
use cloud_sys.Cd.{success, failure_code}
use cloud_sys.Users.{first_text}
use cloud_sys.Dir.Statements.{
  find_dir_text, sql_find_dir, children_text, sql_children, delete_dir_text, sql_delete_dir,
}
use cloud_sys.Dir.{rmdir_deleted, rmdir_delete, rmdir_check, rmdir_found, dir_rmdir}
use cloud_sys.Dir.Table.{
  FileRow, FileTable, keep, id_row, is_dir_of, is_under, has_other_id, Removable,
}

-- What the removal of the directory that was found makes of the rows, given those under it.
unfoldable pub removed_empty : FileRow → List FileRow → List FileRow → ℤ × List FileRow
removed_empty r rs [] = (success, keep (has_other_id r.id) rs)
removed_empty r rs (c ∷ cs) = (failure_code, rs)

unfoldable pub removed_found : List FileRow → List FileRow → ℤ × List FileRow
unfolding removed_empty
removed_found rs [] = (failure_code, rs)
removed_found rs (r ∷ others) = removed_empty r rs (keep (is_under r.id) rs)

-- The code of `rmdir`, and the rows that it leaves: the first directory of this name in this place
-- goes, if no row is under it.
unfoldable pub removed : Bytes → ℤ → List FileRow → ℤ × List FileRow
unfolding removed_found
removed dirname id rs = removed_found rs (keep (is_dir_of dirname id) rs)

find_dir_text-length :
    (dirname : Bytes) (id : ℤ)
    → length (find_dir_text dirname id) ≡ 69 + (length dirname + length (dec_int id))
unfolding find_dir_text text
find_dir_text-length dirname id =
    let x1 = text " and type=2;" in
    let x0 = text "' and parent_id=" ++ (dec_int id ++ x1) in
    omega (arith, length-append dirname x0, length-append (dec_int id) x1)

children_text-length : (id : ℤ) → length (children_text id) ≡ 42 + length (dec_int id)
unfolding children_text text
children_text-length id = omega (arith, length-append (dec_int id) (text ";"))

delete_dir_text-length : (id : ℤ) → length (delete_dir_text id) ≡ 32 + length (dec_int id)
unfolding delete_dir_text text
delete_dir_text-length id = omega (arith, length-append (dec_int id) (text ";"))

module _ {m : Mysql} (table : FileTable m) (removable : Removable table) where
  open table use {rows_of, IsId, IsName, after}
  open removable use {IsTarget}

  find_query :
      (dirname : Bytes) (id : ℤ) (d : m.Db)
      → IsName dirname
      → IsId id
      → length dirname + length (dec_int id) ≤ 954
      → db_query m (sql_find_dir dirname id) d ≡ (
        rows (map id_row (keep (is_dir_of dirname id) (rows_of d))),
        after (find_dir_text dirname id) d,
      )
  unfolding sql_find_dir
  find_query dirname id d p i short =
      ap (λ sql. db_query m sql d)
        (take_all 1023 (find_dir_text dirname id) (omega (arith, find_dir_text-length dirname id)))
      ∙ db_query-select m (find_dir_text dirname id) d _ _ (unfold kind_of find_dir_text in refl)
          (removable.find_runs dirname id d p i) (removable.find_rows dirname id d p i)

  children_query :
      (id : ℤ) (d : m.Db)
      → IsTarget id
      → length (dec_int id) ≤ 11
      → db_query m (sql_children id) d
        ≡ (rows (map id_row (keep (is_under id) (rows_of d))), after (children_text id) d)
  unfolding sql_children
  children_query id d i short =
      ap (λ sql. db_query m sql d)
        (take_all 1023 (children_text id) (omega (arith, children_text-length id)))
      ∙ db_query-select m (children_text id) d _ _ (unfold kind_of children_text in refl)
          (removable.children_runs id d i) (removable.children_rows id d i)

  delete_query :
      (id : ℤ) (d : m.Db)
      → IsTarget id
      → length (dec_int id) ≤ 11
      → (n : ℕ) × (db_query m (sql_delete_dir id) d
          ≡ (affected n, (m.run (delete_dir_text id) d).1))
  unfolding sql_delete_dir
  delete_query id d i short =
      let (n, counts) = removable.delete_counts id d i in
      (
        n,
        ap (λ sql. db_query m sql d)
              (take_all 1023 (delete_dir_text id) (omega (arith, delete_dir_text-length id)))
            ∙ db_query-update m (delete_dir_text id) d n (unfold kind_of delete_dir_text in refl)
                (removable.delete_runs id d i) counts,
      )

  -- The code of an answer, and the rows that it leaves.
  abbrev seen : ℤ × Bytes × m.Db → ℤ × List FileRow
  seen a = (a.0, rows_of a.2)

  -- `dir_rmdir` from the answer on the rows under the directory that was found.
  inside_case :
      (dirname : Bytes) (r : FileRow) (size : ℕ) (d2 : m.Db) (cs : List FileRow)
      → IsTarget r.id
      → length (dec_int r.id) ≤ 11
      → seen (rmdir_check m dirname r.id size (rows (map id_row cs), d2))
        ≡ removed_empty r (rows_of d2) cs
  unfolding rmdir_check rmdir_delete removed_empty
  inside_case dirname r size d2 [] i short =
      ap (λ q. seen (rmdir_deleted m dirname size q)) (delete_query r.id d2 i short).1
      ∙ (unfold rmdir_deleted in ap (λ rs. (success, rs)) (removable.delete_removes r.id d2 i))
  inside_case dirname r size d2 (c ∷ cs) i short =
      rw (lt→ltb 0 (suc (length (map id_row cs))) (omega arith)) refl

  -- From the answer on the directories of the name.
  found_case :
      (dirname : Bytes) (size : ℕ) (d1 : m.Db) (found : List FileRow)
      → ((r : FileRow) (rs : List FileRow)
          → found ≡ r ∷ rs
          → IsTarget r.id × (length (dec_int r.id) ≤ 11))
      → seen (rmdir_found m dirname size (rows (map id_row found), d1))
        ≡ removed_found (rows_of d1) found
  unfolding rmdir_found first_text removed_found
  found_case dirname size d1 [] ids = refl
  found_case dirname size d1 (r ∷ rs) ids =
      let (i, short) = ids r rs refl in
      let d2 = after (children_text r.id) d1 in
      let same = table.after_keeps (children_text r.id) d1 in
      ap (λ id. seen (rmdir_check m dirname id size (db_query m (sql_children id) d1)))
        (atoi-dec_int r.id)
      ∙ ap (λ q. seen (rmdir_check m dirname r.id size q)) (children_query r.id d1 i short)
      ∙ inside_case dirname r size d2 (keep (is_under r.id) (rows_of d1)) i short
      ∙ ap (λ all. removed_empty r all (keep (is_under r.id) (rows_of d1))) same

  -- `rmdir` with a response buffer, of a name that a statement carries over and that fits it: it
  -- fails and leaves the table as it is where no directory has this name in the current one, whoever
  -- it belongs to, or where a row is under the first that has it; else it succeeds, and exactly the
  -- rows with the id of that directory are gone. The id that is found is a number of at most 11
  -- characters that statements carry over.
  pub dir_rmdir-removed :
      (dirname : Bytes) (id : ℤ) (size : ℕ) (d : m.Db)
      → 0 < size
      → IsName dirname
      → IsId id
      → length dirname + length (dec_int id) ≤ 954
      → ((r : FileRow) (rs : List FileRow)
          → keep (is_dir_of dirname id) (rows_of d) ≡ r ∷ rs
          → IsTarget r.id × (length (dec_int r.id) ≤ 11))
      → seen (dir_rmdir m dirname id size d) ≡ removed dirname id (rows_of d)
  unfolding dir_rmdir removed
  dir_rmdir-removed dirname id size d room p i short ids =
      let found = keep (is_dir_of dirname id) (rows_of d) in
      let d1 = after (find_dir_text dirname id) d in
      rw (dir_rmdir, ne→== size 0 (λ e. omega arith))
        (ap (λ q. seen (rmdir_found m dirname size q)) (find_query dirname id d p i short)
          ∙ found_case dirname size d1 found ids
          ∙ ap (λ all. removed_found all found) (table.after_keeps (find_dir_text dirname id) d))
