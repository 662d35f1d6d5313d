-- ===== src/Dir/Inserts.antt =====
-- `dir_mkdir` of server/func_dir.c as an insertion into the table `file_info`.
use cloud_sys.Base.Int.{ℤ}
use cloud_sys.Base.{
  ℕ, suc, subst, ◌+◌, ◌≤◌, ◌<◌, ◌≡◌, refl, ap, sym, ◌∙◌, Bool, List, [], ◌∷◌, ◌++◌, map,
  if◌then◌else◌, arith, length, take_all, length-append, ltb, lt→ltb, ne→==,
}
use cloud_sys.CString.{Bytes, text, dec_int}
use cloud_sys.Database.{Mysql, rows, affected, kind_of, db_query}
use cloud_sys.Database.Laws.{db_query-select, db_query-update}
use cloud_sys.Cd.{success, failure_code}
use cloud_sys.Users.{first_text}
use cloud_sys.Dir.Statements.{
  parent_path_text, sql_parent_path, dir_taken_text, sql_dir_taken, insert_dir_text, sql_insert_dir,
}
use cloud_sys.Dir.{
  new_path, mkdir_inserted, mkdir_insert, mkdir_free, mkdir_check, mkdir_parent, dir_mkdir,
}
use cloud_sys.Dir.Commands.{sql_insert_dir-whole}
use cloud_sys.Dir.Table.{FileRow, FileTable, keep, has_id, is_named, path_row, id_row, made}

parent_path_text-length : (id : ℤ) → length (parent_path_text id) ≡ 37 + length (dec_int id)
unfolding parent_path_text text
parent_path_text-length id = omega (arith, length-append (dec_int id) (text ";"))

dir_taken_text-length :
    (dirname username : Bytes) (id : ℤ)
    → length (dir_taken_text dirname id username)
      ≡ 84 + (length dirname + length username + length (dec_int id))
unfolding dir_taken_text text
dir_taken_text-length dirname username id =
    let x2 = text "' and type=2" in
    let x1 = text " and username='" ++ (username ++ x2) in
    let x0 = text "' and parent_id=" ++ (dec_int id ++ x1) in
    omega
      (arith, length-append dirname x0, length-append (dec_int id) x1, length-append username x2)

module _ {m : Mysql} (table : FileTable m) where
  open table use {rows_of, IsId, IsName, IsUser, IsPath, after, next_id}

  parent_query :
      (id : ℤ) (d : m.Db)
      → IsId id
      → length (dec_int id) ≤ 46
      → db_query m (sql_parent_path id) d
        ≡ (rows (map path_row (keep (has_id id) (rows_of d))), after (parent_path_text id) d)
  unfolding sql_parent_path
  parent_query id d i short =
      ap (λ sql. db_query m sql d)
        (take_all 126 (parent_path_text id) (omega (arith, parent_path_text-length id)))
      ∙ db_query-select m (parent_path_text id) d _ _ (unfold kind_of parent_path_text in refl)
          (table.path_runs id d i) (table.path_rows id d i)

  taken_query :
      (dirname username : Bytes) (id : ℤ) (d : m.Db)
      → IsName dirname
      → IsUser username
      → IsId id
      → length dirname + length username + length (dec_int id) ≤ 42
      → db_query m (sql_dir_taken dirname id username) d ≡ (
        rows (map id_row (keep (is_named dirname id username) (rows_of d))),
        after (dir_taken_text dirname id username) d,
      )
  unfolding sql_dir_taken
  taken_query dirname username id d p q i short =
      ap (λ sql. db_query m sql d)
        (take_all 126 (dir_taken_text dirname id username)
          (omega (arith, dir_taken_text-length dirname username id)))
      ∙ db_query-select m (dir_taken_text dirname id username) d _ _
          (unfold kind_of dir_taken_text in refl) (table.taken_runs dirname username id d p q i)
          (table.taken_rows dirname username id d p q i)

  insert_query :
      (dirname username path : Bytes) (id : ℤ) (d : m.Db)
      → IsName dirname
      → IsUser username
      → IsPath path
      → IsId id
      → length dirname + length username + length (dec_int id) + length path ≤ 46
      → db_query m (sql_insert_dir dirname username id path) d
        ≡ (affected 1, (m.run (insert_dir_text dirname username id path) d).1)
  insert_query dirname username path id d p q r i short =
      ap (λ sql. db_query m sql d) ((sql_insert_dir-whole dirname username path id).1 short)
      ∙ db_query-update m (insert_dir_text dirname username id path) d 1
          (unfold kind_of insert_dir_text in refl)
          (table.insert_runs dirname username path id d p q r i)
          (table.insert_counts dirname username path id d p q r i)

  -- What `mkdir` has done: it answers that the directory is there, or the rows have one more.
  unfoldable pub Makes : Bool → FileRow → m.Db → ℤ × Bytes × m.Db → Type 0
  Makes taken new d (code, out, d') =
      (code ≡ (if taken then failure_code else success))
      × (rows_of d' ≡ (if taken then rows_of d else rows_of d ++ new ∷ []))

  free_case :
      (dirname username path : Bytes) (id : ℤ) (size : ℕ) (d d2 : m.Db) (cs : List FileRow)
      → rows_of d2 ≡ rows_of d
      → IsName dirname
      → IsUser username
      → IsPath path
      → IsId id
      → length dirname + length username + length (dec_int id) + length path ≤ 46
      → (new : ℤ) × Makes
          (ltb 0 (length cs))
          (made dirname username id path new)
          d
          (mkdir_free m username dirname id path size (rows (map id_row cs), d2))
  unfolding Makes mkdir_free mkdir_insert
  free_case dirname username path id size d d2 (c ∷ cs) same p q r i short = (
    id,
    rw
        (
          lt→ltb 0 (suc (length cs)) (omega arith),
          lt→ltb 0 (suc (length (map id_row cs))) (omega arith),
        )
        (refl, same),
  )
  free_case dirname username path id size d d2 [] same p q r i short =
      let e =
        ap (mkdir_inserted m path size) (insert_query dirname username path id d2 p q r i short) in
      (
        next_id d2,
        (
          ap (λ a. a.0) e,
          ap (λ a. rows_of a.2) e
              ∙ (table.insert_adds dirname username path id d2 p q r i
                  ∙ ap (λ rs. rs ++ made dirname username id path (next_id d2) ∷ []) same),
        ),
      )

  started :
      (before : ℕ) (dirname username : Bytes) (id : ℤ) (size : ℕ) (d : m.Db)
      → 0 < length dirname
      → 0 < size
      → dir_mkdir m before username dirname id size d
        ≡ mkdir_parent m before username dirname id size (db_query m (sql_parent_path id) d)
  unfolding dir_mkdir
  started before dirname username id size d name room =
      rw (ne→== (length dirname) 0 (λ e. omega arith), ne→== size 0 (λ e. omega arith)) refl

  -- `mkdir` where the current directory has a row whose path has at most 126 bytes, and the statements
  -- fit their buffers (the two names and the digits of the id have at most 42 bytes, and at most 46
  -- with the new path), with a response buffer and a name that are not empty, and texts that
  -- statements carry over: if the user has a directory of this name in this place, it fails and
  -- the table stays as it is; else it succeeds, and the table gets this one row, with the path of
  -- the parent and the name.
  pub dir_mkdir-Makes :
      (before : ℕ) (dirname username : Bytes) (id : ℤ) (size : ℕ) (d : m.Db) (parent : FileRow)
      (others : List FileRow)
      → 0 < length dirname
      → 0 < size
      → keep (has_id id) (rows_of d) ≡ parent ∷ others
      → length parent.path ≤ 126
      → IsName dirname
      → IsUser username
      → IsPath (new_path before parent.path dirname)
      → IsId id
      → length dirname + length username + length (dec_int id) ≤ 42
      → length dirname
          + length username
          + length (dec_int id)
          + length (new_path before parent.path dirname)
        ≤ 46
      → (new : ℤ) × Makes
          (ltb 0 (length (keep (is_named dirname id username) (rows_of d))))
          (made dirname username id (new_path before parent.path dirname) new)
          d
          (dir_mkdir m before username dirname id size d)
  unfolding mkdir_parent mkdir_check first_text
  dir_mkdir-Makes before dirname username id size d parent others name room here short p q r i fits
        fits' =
      let path = new_path before parent.path dirname in
      let d1 = after (parent_path_text id) d in
      let d2 = after (dir_taken_text dirname id username) d1 in
      let same1 = table.after_keeps (parent_path_text id) d in
      let same2 = table.after_keeps (dir_taken_text dirname id username) d1 ∙ same1 in
      let run =
        started before dirname username id size d name room
        ∙ (ap (mkdir_parent m before username dirname id size)
              (parent_query id d i (omega (arith, fits)))
            ∙ (ap
                  (λ rs.
                    mkdir_parent m before username dirname id size (rows (map path_row rs), d1))
                  here
                ∙ (ap (λ s. mkdir_check m username dirname id (new_path before s dirname) size d1)
                      (take_all 126 parent.path short)
                    ∙ (ap (mkdir_free m username dirname id path size)
                          (taken_query dirname username id d1 p q i fits)
                        ∙ ap
                            (λ rs.
                              mkdir_free m username dirname id path size
                                (rows (map id_row (keep (is_named dirname id username) rs)), d2))
                            same1)))) in
      let (new, made_it) =
        free_case dirname username path id size d d2
          (keep (is_named dirname id username) (rows_of d)) same2 p q r i fits' in
      (
        new,
        subst
            (Makes (ltb 0 (length (keep (is_named dirname id username) (rows_of d))))
              (made dirname username id path new) d)
            (sym run) made_it,
      )
