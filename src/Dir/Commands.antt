-- ===== src/Dir/Commands.antt =====
-- The behaviour of the directory commands.
use cloud_sys.Base.Int.{ℤ}
use cloud_sys.Base.{
  ℕ, suc, ◌+◌, ◌-◌, ◌≤◌, ◌<◌, ◌≡◌, ◌↔◌, refl, ap, sym, ◌∙◌, List, [], ◌∷◌, ◌++◌, some,
  if◌then◌else◌, arith, length, take, take_all, length-take, length-append, lt→ltb, ne→==,
}
use mathlib.Core.List.{append_assoc, append-nil}
use cloud_sys.CString.{Bytes, text, dec_int, atoi}
use cloud_sys.Database.{Mysql, Row, rows, db_query}
use cloud_sys.Cd.{snprintf, success, failure_code}
use cloud_sys.Users.{first_text}
use cloud_sys.Dir.{
  insert_dir_text, sql_insert_dir, dir_rmdir, rmdir_found, ls_rows, rmdir_check, sql_find_dir,
  sql_children, dir_ls, ls_loop, column, sql_ls, ls_response,
}

take_iff : (n : ℕ) (xs : Bytes) → (take n xs ≡ xs) ↔ (length xs ≤ n)
take_iff n xs = (λ h. omega (arith, length-take n xs, ap length h), take_all n xs)

insert_dir_text-length :
    (dirname username path : Bytes) (id : ℤ)
    → length (insert_dir_text dirname username id path)
      ≡ 80 + (length dirname + length username + length (dec_int id) + length path)
unfolding insert_dir_text text
insert_dir_text-length dirname username path id =
    let x3 = text "',2)" in
    let x2 = text ",'" ++ (path ++ x3) in
    let x1 = text "'," ++ (dec_int id ++ x2) in
    let x0 = text "','" ++ (username ++ x1) in
    omega (
      arith,
      length-append dirname x0,
      length-append username x1,
      length-append (dec_int id) x2,
      length-append path x3,
    )

-- The statement with which `mkdir` inserts the directory is whole exactly where the two names, the
-- digits of the parent's id and the new path have together at most 46 bytes: the buffer has
-- CHAR_MAX, 127, of them. Else the database is sent a statement that is cut off.
pub sql_insert_dir-whole :
    (dirname username path : Bytes) (id : ℤ)
    → (sql_insert_dir dirname username id path ≡ insert_dir_text dirname username id path)
      ↔ (length dirname + length username + length (dec_int id) + length path ≤ 46)
unfolding sql_insert_dir
sql_insert_dir-whole dirname username path id =
    let n = insert_dir_text-length dirname username path id in
    let t = take_iff 126 (insert_dir_text dirname username id path) in
    ((λ h. omega (arith, n, t.0 h)), (λ h. t.1 (omega (arith, n, h))))

-- The second column of each row, a line each.
unfoldable pub lines : List Row → Bytes
lines [] = []
lines (row ∷ rs) = (column row 1 ++ (10 ∷ [])) ++ lines rs

module _ (m : Mysql) where
  -- `rmdir` of a directory that has a row of its own under it answers that it is not empty, and sends
  -- no DELETE: the connection is in the state that the two SELECTs left.
  pub dir_rmdir-not_empty :
      (dirname : Bytes) (pwd_id : ℤ) (size : ℕ) (d d' d'' : m.Db) (id : Bytes) (row r : Row)
      (rs rs' : List Row)
      → 0 < size
      → db_query m (sql_find_dir dirname pwd_id) d ≡ (rows ((some id ∷ row) ∷ rs), d')
      → db_query m (sql_children (atoi id)) d' ≡ (rows (r ∷ rs'), d'')
      → dir_rmdir m dirname pwd_id size d ≡ (failure_code, snprintf size (text "目录不为空，无法删除！"), d'')
  unfolding dir_rmdir rmdir_found rmdir_check first_text
  dir_rmdir-not_empty dirname pwd_id size d d' d'' id row r rs rs' h found inside =
      rw (dir_rmdir, ne→== size 0 (λ e. ground arith))
        (ap (rmdir_found m dirname size) found
          ∙ ap (rmdir_check m dirname (atoi id) size) inside
          ∙ rw (lt→ltb 0 (suc (length rs')) (omega arith)) refl)

  ls_loop-lines :
      (rs : List Row) (size off : ℕ) (out : Bytes)
      → off + length (lines rs) + 2 ≤ size
      → ls_loop rs size off out ≡ (off + length (lines rs), out ++ lines rs)
  unfolding ls_loop lines
  ls_loop-lines [] size off out h =
      ap (λ n. (n, out)) (omega arith) ∙ ap (λ o. (off + 0, o)) (sym (append-nil out))
  ls_loop-lines (row ∷ rs) size off out h =
      let line = column row 1 ++ (10 ∷ []) in
      let split = length-append line (lines rs) in
      let fits = take_all (size - off - 1 - 1) line (omega (arith, h, split)) in
      rw (lt→ltb off (size - 1) (omega (arith, h)), fits)
        (ls_loop-lines rs size (off + length line) (out ++ line) (omega (arith, h, split))
          ∙ ap (λ n. (n, (out ++ line) ++ lines rs)) (omega (arith, split))
          ∙ ap (λ o. (off + length (lines (row ∷ rs)), o)) (append_assoc out line (lines rs)))

  -- Where the directory has rows, and their names with a newline each leave room for two more bytes
  -- in the response, `ls` answers with exactly these lines, in the order of the rows.
  pub dir_ls-lines :
      (size : ℕ) (username : Bytes) (pwd_id : ℤ) (d d' : m.Db) (row : Row) (rs : List Row)
      → db_query m (sql_ls pwd_id username) d ≡ (rows (row ∷ rs), d')
      → length (lines (row ∷ rs)) + 2 ≤ size
      → dir_ls m size username pwd_id d ≡ (success, lines (row ∷ rs), d')
  unfolding dir_ls ls_rows ls_response lines
  dir_ls-lines size username pwd_id d d' row rs found room =
      let line = column row 1 ++ (10 ∷ []) in
      let n = length-append line (lines rs) in
      let k = length-append (column row 1) (10 ∷ []) in
      rw (dir_ls, ne→== size 0 (λ e. ground arith))
        (ap (ls_rows m size) found
          ∙ ap (λ o. (success, ls_response m size o, d'))
              (ls_loop-lines (row ∷ rs) size 0 [] (omega (arith, room)))
          ∙ ap (λ b. (success, (if b then snprintf size (text "目录为空\n") else lines (row ∷ rs)), d'))
              (ne→== (0 + length (lines (row ∷ rs))) 0 (λ e. omega (arith, e, n, k))))
