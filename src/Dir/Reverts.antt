-- ===== src/Dir/Reverts.antt =====
-- `dir_mkdir` and `dir_rmdir` of server/func_dir.c, one after the other.
pub mod Tests
use cloud_sys.Base.Int.{ℤ, int_eq, int_eq_iff}
use cloud_sys.Base.{
  ℕ, zero, suc, subst, ◌+◌, ◌≤◌, ◌<◌, ◌≡◌, refl, ap, sym, ◌∙◌, inl, inr, Bool, true, false, not,
  ◌&&◌, ◌||◌, List, [], ◌∷◌, ◌++◌, if◌then◌else◌, arith, length, ltb, ◌==◌, Bool-cases,
}
use cloud_sys.CString.{Bytes, bytes_eq, dec_int}
use cloud_sys.Database.{Mysql}
use cloud_sys.Cd.{success, failure_code}
use cloud_sys.Dir.{new_path, dir_mkdir, dir_rmdir}
use cloud_sys.Dir.Inserts.{Makes, dir_mkdir-Makes}
use cloud_sys.Dir.Removes.{removed, removed_found, removed_empty, dir_rmdir-removed}
use cloud_sys.Dir.Rows.{
  bytes_eq_refl, keep-append, keep-append_out, keep_stronger, keep-not, made_new,
}
use cloud_sys.Dir.Table.{
  FileRow, FileTable, keep, has_id, is_named, made, is_dir_of, is_under, has_other_id, Removable,
}

module _ (dirname username path : Bytes) (id new : ℤ) (rs : List FileRow) where
  abbrev new_row : FileRow
  new_row = made dirname username id path new

  -- The directory that was made is the one that is found, where no other has the name.
  found_made :
      keep (is_dir_of dirname id) rs ≡ []
      → keep (is_dir_of dirname id) (rs ++ new_row ∷ []) ≡ new_row ∷ []
  found_made free =
      keep-append (is_dir_of dirname id) rs new_row
        (ground (arith, bytes_eq_refl dirname, (int_eq_iff id id).1 refl))
      ∙ ap (λ xs. xs ++ new_row ∷ []) free

  -- Its removal gives the rows back, where its id is a new one.
  removed_made :
      keep (is_dir_of dirname id) rs ≡ []
      → keep (has_id new) rs ≡ []
      → keep (is_under new) rs ≡ []
      → int_eq id new ≡ false
      → removed dirname id (rs ++ new_row ∷ []) ≡ (success, rs)
  unfolding removed removed_found removed_empty
  removed_made free unused empty other =
      ap (removed_found (rs ++ new_row ∷ [])) (found_made free)
      ∙ ap (removed_empty new_row (rs ++ new_row ∷ []))
          (keep-append_out (is_under new) rs new_row other ∙ empty)
      ∙ ap (λ xs. (success, xs))
          (keep-append_out (has_other_id new) rs new_row
              (ground (arith, (int_eq_iff new new).1 refl))
            ∙ keep-not (has_id new) rs unused)

abbrev head_id : ℤ → List FileRow → ℤ
head_id none_found [] = none_found
head_id none_found (r ∷ rs) = r.id

named_is_dir :
    (dirname username : Bytes) (id : ℤ) (r : FileRow)
    → is_named dirname id username r ≡ true
    → is_dir_of dirname id r ≡ true
named_is_dir dirname username id r h = ground arith

module _ {m : Mysql} (table : FileTable m) (removable : Removable table) where
  open table use {rows_of, IsId, IsName, IsUser, IsPath}
  open removable use {IsTarget}

  -- `rmdir` of a directory that was just made.
  rmdir_made :
      (dirname username path : Bytes) (id new : ℤ) (size : ℕ) (d d' : m.Db)
      → rows_of d' ≡ rows_of d ++ made dirname username id path new ∷ []
      → keep (is_dir_of dirname id) (rows_of d) ≡ []
      → 0 < size
      → IsName dirname
      → IsId id
      → length dirname + length (dec_int id) ≤ 954
      → keep (has_id new) (rows_of d) ≡ []
      → keep (is_under new) (rows_of d) ≡ []
      → int_eq id new ≡ false
      → IsTarget new
      → length (dec_int new) ≤ 11
      → ◌≡◌ {A = ℤ × List FileRow}
          ((dir_rmdir m dirname id size d').0, rows_of (dir_rmdir m dirname id size d').2)
          (success, rows_of d)
  rmdir_made dirname username path id new size d d' more free room p i short unused empty other
        target digits =
      let found =
        ap (keep (is_dir_of dirname id)) more
        ∙ found_made dirname username path id new (rows_of d) free in
      dir_rmdir-removed table removable dirname id size d' room p i short (λ r rs e.
        subst (λ (k : ℤ). IsTarget k × (length (dec_int k) ≤ 11)) (ap (head_id new) (sym found ∙ e))
          (target, digits))
      ∙ ap (removed dirname id) more
      ∙ removed_made dirname username path id new (rows_of d) free unused empty other

  -- `mkdir` of a name that no user has a directory of in the current one, and then `rmdir` of it: both
  -- succeed, and the table holds the same rows as before. The id that the new row gets is that of no
  -- other row and no row's parent, nor the current directory's, and has at most 11 characters. The
  -- current directory has a row whose path has at most 126 bytes, the statements fit their buffers
  -- (the two names and the digits of the id have at most 42 bytes, and at most 46 with the new path),
  -- the texts are ones that statements carry over, and the name and the buffers are not empty.
  pub dir_mkdir-dir_rmdir :
      (before : ℕ) (dirname username : Bytes) (id : ℤ) (size rm_size : ℕ) (d : m.Db)
      (parent : FileRow) (others : List FileRow)
      → 0 < length dirname
      → 0 < size
      → 0 < rm_size
      → keep (has_id id) (rows_of d) ≡ parent ∷ others
      → length parent.path ≤ 126
      → keep (is_dir_of dirname id) (rows_of d) ≡ []
      → IsName dirname
      → IsUser username
      → IsPath (new_path before parent.path dirname)
      → IsId id
      → length dirname + length username + length (dec_int id) ≤ 42
      → length dirname
          + length username
          + length (dec_int id)
          + length (new_path before parent.path dirname)
        ≤ 46
      → ((new : ℤ)
          → rows_of (dir_mkdir m before username dirname id size d).2
            ≡ rows_of d ++ made dirname username id (new_path before parent.path dirname) new ∷ []
          → (keep (has_id new) (rows_of d) ≡ [])
            × (keep (is_under new) (rows_of d) ≡ [])
            × (int_eq id new ≡ false)
            × IsTarget new
            × (length (dec_int new) ≤ 11))
      → (out out' : Bytes) × (d' d'' : m.Db) × (dir_mkdir m before username dirname id size d
          ≡ (success, out, d'))
        × (dir_rmdir m dirname id rm_size d' ≡ (success, out', d''))
        × (rows_of d'' ≡ rows_of d)
  dir_mkdir-dir_rmdir before dirname username id size rm_size d parent others name space space' here
        short free p q r i fits fits' fresh =
      let a = dir_mkdir m before username dirname id size d in
      let b = dir_rmdir m dirname id rm_size a.2 in
      let path = new_path before parent.path dirname in
      let (new, makes) =
        dir_mkdir-Makes table before dirname username id size d parent others name space here short
          p q r i fits fits' in
      let (code, more) =
        made_new table (made dirname username id path new)
          (keep (is_named dirname id username) (rows_of d)) d a
          (keep_stronger (is_dir_of dirname id) (is_named dirname id username) (rows_of d)
            (named_is_dir dirname username id) free)
          makes in
      let (unused, empty, other, target, digits) = fresh new more in
      let gone =
        rmdir_made dirname username path id new rm_size d a.2 more free space' p i
          (omega (arith, fits)) unused empty other target digits in
      (
        a.1,
        b.1,
        a.2,
        b.2,
        ap (λ (c : ℤ). (c, a.1, a.2)) code,
        ap (λ (x : ℤ × List FileRow). (x.0, b.1, b.2)) gone,
        ap (λ (x : ℤ × List FileRow). x.1) gone,
      )
