-- ===== src/Dir/Listing.antt =====
-- `dir_ls` of server/func_ls.c over the table `file_info`, and after a `dir_mkdir`.
pub mod Tests
use cloud_sys.Base.Int.{ℤ, int_eq, int_eq_iff}
use cloud_sys.Base.{
  ℕ, zero, suc, subst, ◌+◌, ◌≤◌, ◌<◌, ◌≡◌, refl, ap, sym, ◌∙◌, inl, inr, Bool, true, false, ◌&&◌,
  ◌||◌, List, [], ◌∷◌, ◌++◌, map, some, if◌then◌else◌, arith, length, take_all, length-append, ltb,
  Bool-cases,
}
use mathlib.Core.List.{append_assoc, append-nil, Permᴰ}
use cloud_sys.CString.{Bytes, text, dec_int, bytes_eq}
use cloud_sys.Database.{Mysql, Row, rows, kind_of, db_query}
use cloud_sys.Database.Laws.{db_query-select}
use cloud_sys.Cd.{success, failure_code}
use cloud_sys.Dir.Statements.{ls_text, sql_ls}
use cloud_sys.Dir.{new_path, dir_mkdir, dir_ls, column}
use cloud_sys.Dir.Commands.{lines, dir_ls-lines}
use cloud_sys.Dir.Inserts.{Makes, dir_mkdir-Makes}
use cloud_sys.Dir.Rows.{bytes_eq_refl, keep-append, made_new}
use cloud_sys.Dir.Table.{FileRow, FileTable, keep, has_id, is_named, made, is_listed, names, Listed}

ls_text-length :
    (id : ℤ) (username : Bytes)
    → length (ls_text id username) ≡ 81 + (length (dec_int id) + length username)
unfolding ls_text text
ls_text-length id username =
    let x1 = text "' OR username = '0');" in
    let x0 = text " AND (username = '" ++ (username ++ x1) in
    omega (arith, length-append (dec_int id) x0, length-append username x1)

names-length-append :
    (rs : List FileRow) (r : FileRow)
    → length (names (rs ++ r ∷ [])) ≡ length (names rs) + (length r.filename + 1)
names-length-append [] r =
    omega (arith, length-append (r.filename ++ (10 ∷ [])) [], length-append r.filename (10 ∷ []))
names-length-append (x ∷ rs) r = omega (
  arith,
  names-length-append rs r,
  length-append (x.filename ++ (10 ∷ [])) (names (rs ++ r ∷ [])),
  length-append (x.filename ++ (10 ∷ [])) (names rs),
)

-- The lines of the same rows in another order are as long.
names-length-perm : {rs rs' : List FileRow} → Permᴰ rs rs' → length (names rs) ≡ length (names rs')
names-length-perm Permᴰ.nil = refl
names-length-perm (Permᴰ.cons {a} {b} {l₁} {l₂} e p) = omega (
  arith,
  ap (λ (r : FileRow). length (r.filename ++ (10 ∷ []))) e,
  names-length-perm p,
  length-append (a.filename ++ (10 ∷ [])) (names l₁),
  length-append (b.filename ++ (10 ∷ [])) (names l₂),
)
names-length-perm (Permᴰ.swap {a} {b} {a'} {b'} {l} e e') = omega (
  arith,
  ap (λ (r : FileRow). length (r.filename ++ (10 ∷ []))) e,
  ap (λ (r : FileRow). length (r.filename ++ (10 ∷ []))) e',
  length-append (a.filename ++ (10 ∷ [])) (names (b ∷ l)),
  length-append (b.filename ++ (10 ∷ [])) (names l),
  length-append (a'.filename ++ (10 ∷ [])) (names (b' ∷ l)),
  length-append (b'.filename ++ (10 ∷ [])) (names l),
)
names-length-perm (Permᴰ.trans p q) = names-length-perm p ∙ names-length-perm q

some-perm : {rs rs' : List FileRow} → Permᴰ rs rs' → 0 < length rs' → 0 < length rs
some-perm Permᴰ.nil h = h
some-perm (Permᴰ.cons e p) h = omega arith
some-perm (Permᴰ.swap e e') h = omega arith
some-perm (Permᴰ.trans p q) h = some-perm p (some-perm q h)

module _ {m : Mysql} (table : FileTable m) (listed : Listed table) where
  open table use {rows_of, IsId, IsName, IsUser, IsPath, after, next_id}
  open listed use {first_column, other_columns, ls_runs, order, order_permutes, ls_rows}

  abbrev whole : FileRow → Row
  whole r = some (first_column r) ∷ some r.filename ∷ other_columns r

  lines-names : (rs : List FileRow) → lines (map whole rs) ≡ names rs
  unfolding lines column
  lines-names [] = refl
  lines-names (r ∷ rs) = ap (λ s. (r.filename ++ (10 ∷ [])) ++ s) (lines-names rs)

  ls_query :
      (id : ℤ) (username : Bytes) (d : m.Db)
      → IsId id
      → IsUser username
      → length (dec_int id) + length username ≤ 174
      → db_query m (sql_ls id username) d ≡ (
        rows (map whole (order d (keep (is_listed id username) (rows_of d)))),
        after (ls_text id username) d,
      )
  unfolding sql_ls
  ls_query id username d i q short =
      ap (λ sql. db_query m sql d)
        (take_all 255 (ls_text id username) (omega (arith, ls_text-length id username)))
      ∙ db_query-select m (ls_text id username) d _ _ (unfold kind_of ls_text in refl)
          (ls_runs id username d i q) (ls_rows id username d i q)

  -- The names of the rows that the user may see, if there is one.
  pub dir_ls-names :
      (id : ℤ) (username : Bytes) (size : ℕ) (d : m.Db) (rs : List FileRow)
      → order d (keep (is_listed id username) (rows_of d)) ≡ rs
      → 0 < length rs
      → IsId id
      → IsUser username
      → length (dec_int id) + length username ≤ 174
      → length (names rs) + 2 ≤ size
      → dir_ls m size username id d ≡ (success, names rs, after (ls_text id username) d)
  dir_ls-names id username size d [] there some_row i q short room = absurd (omega arith)
  dir_ls-names id username size d (r ∷ rs) there some_row i q short room =
      let same = lines-names (r ∷ rs) in
      let d' = after (ls_text id username) d in
      dir_ls-lines m size username id d d' (whole r) (map whole rs)
        (ls_query id username d i q short
          ∙ ap (λ (x : List FileRow). (rows (map whole x), d')) there)
        (omega (arith, ap length same, room))
      ∙ ap (λ s. (success, s, d')) same

  made_listed :
      (dirname username path : Bytes) (id new : ℤ)
      → is_listed id username (made dirname username id path new) ≡ true
  made_listed dirname username path id new =
      ground (arith, (int_eq_iff id id).1 refl, bytes_eq_refl username)

  -- Where the rows have one more, made by `mkdir`, `ls` has its name as one more line.
  ls_made :
      (dirname username path : Bytes) (id new : ℤ) (size : ℕ) (d d' : m.Db)
      → rows_of d' ≡ rows_of d ++ made dirname username id path new ∷ []
      → IsId id
      → IsUser username
      → length (dec_int id) + length username ≤ 174
      → length (names (keep (is_listed id username) (rows_of d))) + length dirname + 3 ≤ size
      → (shown : List FileRow) × Permᴰ shown
          (keep (is_listed id username) (rows_of d) ++ made dirname username id path new ∷ [])
        × (dir_ls m size username id d' ≡ (success, names shown, after (ls_text id username) d'))
  ls_made dirname username path id new size d d' more i q short room =
      let new_row = made dirname username id path new in
      let old = keep (is_listed id username) (rows_of d) in
      let kept : keep (is_listed id username) (rows_of d') ≡ old ++ new_row ∷ [] =
        ap (keep (is_listed id username)) more
        ∙ keep-append (is_listed id username) (rows_of d) new_row
            (made_listed dirname username path id new) in
      let shown = order d' (keep (is_listed id username) (rows_of d')) in
      let permuted : Permᴰ shown (old ++ new_row ∷ []) =
        subst (Permᴰ shown) kept (order_permutes d' (keep (is_listed id username) (rows_of d'))) in
      (
        shown,
        permuted,
        dir_ls-names id username size d' shown refl
            (some-perm permuted (omega (arith, length-append old (new_row ∷ [])))) i q short
            (omega (arith, names-length-perm permuted, names-length-append old new_row, room)),
      )

  -- After `mkdir` of a name that the user has no directory of in the current directory, `ls` with
  -- room for its answer prints, a line each and in an order that the database chooses, the names of
  -- exactly the rows that the user could see there before and of the row that `mkdir` made, which has
  -- this name. The current directory has a row whose path has at most 126 bytes, the statements
  -- fit their buffers (the two names and the digits of the id have at most 42 bytes, and at most 46
  -- with the new path), the texts are ones that statements carry over, the response buffer of
  -- `mkdir` and the name are not empty, and the second column of the table is the name.
  pub dir_mkdir-dir_ls :
      (before : ℕ) (dirname username : Bytes) (id : ℤ) (size ls_size : ℕ) (d : m.Db)
      (parent : FileRow) (others : List FileRow)
      → 0 < length dirname
      → 0 < size
      → keep (has_id id) (rows_of d) ≡ parent ∷ others
      → length parent.path ≤ 126
      → keep (is_named dirname id username) (rows_of d) ≡ []
      → IsName dirname
      → IsUser username
      → IsPath (new_path before parent.path dirname)
      → IsId id
      → length dirname + length username + length (dec_int id) ≤ 42
      → length dirname
          + length username
          + length (dec_int id)
          + length (new_path before parent.path dirname)
        ≤ 46
      → length (names (keep (is_listed id username) (rows_of d))) + length dirname + 3 ≤ ls_size
      → (out : Bytes) × (d' d'' : m.Db) × (new : ℤ) × (shown : List FileRow) × (dir_mkdir m before
            username dirname id size d
          ≡ (success, out, d'))
        × Permᴰ shown (
            keep (is_listed id username) (rows_of d)
            ++ made dirname username id (new_path before parent.path dirname) new ∷ [])
        × (dir_ls m ls_size username id d' ≡ (success, names shown, d''))
  dir_mkdir-dir_ls before dirname username id size ls_size d parent others name space here short
        free p q r i fits fits' room =
      let a = dir_mkdir m before username dirname id size d in
      let (new, makes) =
        dir_mkdir-Makes table before dirname username id size d parent others name space here short
          p q r i fits fits' in
      let path = new_path before parent.path dirname in
      let (code, more) =
        made_new table (made dirname username id path new)
          (keep (is_named dirname id username) (rows_of d)) d a free makes in
      let (shown, permuted, listing) =
        ls_made dirname username path id new ls_size d a.2 more i q (omega (arith, fits)) room in
      (
        a.1,
        a.2,
        after (ls_text id username) a.2,
        new,
        shown,
        ap (λ (c : ℤ). (c, a.1, a.2)) code,
        permuted,
        listing,
      )
