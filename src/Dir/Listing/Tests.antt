-- ===== src/Dir/Listing/Tests.antt =====
-- `mkdir` and then `ls`, at the server with a table.
use mathlib.Core.List.{Permᴰ}
use mathlib.Core.List.Permᴰ
use cloud_sys.Base.Int.{ℤ, pos}
use cloud_sys.Base.{◌++◌, ◌≡◌, refl, ap, List, [], ◌∷◌, map, some, arith, length}
use cloud_sys.CString.{Bytes, dec_int}
use cloud_sys.Database.{Row}
use cloud_sys.Cd.{success}
use cloud_sys.Dir.{new_path, dir_mkdir, dir_ls}
use cloud_sys.Dir.Statements.{
  parent_path_text, dir_taken_text, insert_dir_text, ls_text, delete_dir_text,
}
use cloud_sys.Dir.Table.{FileRow, keep, made, is_listed, names, Listed}
use cloud_sys.Dir.Listing.{dir_mkdir-dir_ls}
use cloud_sys.Dir.Tests.{docs, tabled, selected, name_row, table, root_row, one_row, docs_path}

tabled_names :
    (id : ℤ) (username : Bytes) (d : List FileRow × List Row)
    → id ≡ pos 1
    → username ≡ docs
    → tabled.store_result (tabled.run (ls_text id username) d).1 ≡ (
      some (map name_row (keep (is_listed id username) d.0)),
      (d.0, selected (ls_text id username) d.0),
    )
unfolding parent_path_text dir_taken_text insert_dir_text ls_text delete_dir_text dec_int
tabled_names id username d e e' = rw (e, e') refl

listed : Listed table
unfolding table
listed = record {
  first_column = λ r. dec_int r.id;
  other_columns = λ r. [];
  ls_runs = λ id username d i q. refl;
  order = λ d rs. rs;
  order_permutes = λ d rs. Permᴰ.refl rs;
  ls_rows = tabled_names;
}

dir_mkdir-dir_ls_example :
    (out : Bytes) × (d' d'' : tabled.Db) × (new : ℤ) × (shown : List FileRow) × (dir_mkdir tabled 0
        docs docs
        (pos 1)
        4096
        one_row
      ≡ (success, out, d'))
    × Permᴰ shown (
        keep (is_listed (pos 1) docs) (root_row ∷ [])
        ++ made docs docs (pos 1) (new_path 0 root_row.path docs) new ∷ [])
    × (dir_ls tabled 4096 docs (pos 1) d' ≡ (success, names shown, d''))
unfolding table dec_int
dir_mkdir-dir_ls_example =
    dir_mkdir-dir_ls table listed 0 docs docs (pos 1) 4096 4096 one_row root_row [] (omega arith)
      (omega arith) refl (omega arith) refl refl refl docs_path refl (omega arith)
      (omega (arith, ap length docs_path)) (omega arith)
