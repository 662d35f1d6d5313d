-- ===== src/File/Lost.antt =====
-- What the removal of a file does to other rows that name the same stored file.
pub mod Tests
use cloud_sys.Base.Int.{ℤ}
use cloud_sys.Base.{
  ℕ, ◌≡◌, refl, sym, ap, subst, ◌∙◌, inl, inr, true, false, List, ◌∷◌, ◌++◌, none, some, length,
  take_all, ◌≤◌, Bool-cases, Option-cases, arith,
}
use cloud_sys.CString.{Bytes, text}
use cloud_sys.Database.{Mysql, Row, Reply, failure, affected, rows, db_query}
use cloud_sys.Cd.{snprintf, success, failure_code}
use cloud_sys.Users.{first_text}
use cloud_sys.File.{Files, Stat, joined, strip_slash, sql_get_file, sql_delete_file, sql_get_hash}
use cloud_sys.File.Remove.{file_remove, remove_found, remove_row, remove_file, two_texts}
use cloud_sys.File.Gets.{file_gets, gets_ready, gets_found, gets_file}
use cloud_sys.File.Download.{folder_there}

module _ (f : Files) (m : Mysql) where
  open f use {Fs, stat, unlink}
  open m use {Db}

  -- The file of a name that has been unlinked is not found, as unlink(2) says.
  abbrev pub Unlinks : Type 0
  Unlinks = (p : Bytes) (w w' : Fs) → unlink p w ≡ (true, w') → stat p w' ≡ none

  -- Where the code is SUCCESS, there is no such file.
  abbrev Gone : Bytes → ℤ → Fs → Type 0
  Gone p code w = code ≡ success → stat p w ≡ none

  module _ (unlinks : Unlinks) where
    remove_file-Gone :
        (filename p : Bytes) (size : ℕ) (w : Fs)
        → Gone p (remove_file f m filename p size w).0 (remove_file f m filename p size w).2
    unfolding remove_file
    remove_file-Gone filename p size w = elim (Option-cases (stat p w)) [
      | inl z ↦ rw (remove_file, z) (λ e. z)
      | inr (st, z) ↦
          rw (remove_file, z)
            (elim (Bool-cases (unlink p w).0) [
              | inl e ↦ rw e (λ ok. unlinks p w (unlink p w).1 (ap (λ b. (b, (unlink p w).1)) e))
              | inr e ↦ rw e (λ ok. absurd (ground arith))
            ])
    ]

    remove_row-Gone :
        (filename p : Bytes) (size : ℕ) (r : Reply × Db) (w : Fs)
        → Gone p (remove_row f m filename p size r w).0 (remove_row f m filename p size r w).3
    unfolding remove_row
    remove_row-Gone filename p size (failure, d) w = λ e. absurd (ground arith)
    remove_row-Gone filename p size (affected n, d) w = remove_file-Gone filename p size w
    remove_row-Gone filename p size (rows rs, d) w = remove_file-Gone filename p size w

    -- Where the row of the file is found, a removal that succeeds leaves no stored file.
    file_remove-Gone :
        (freed : Bytes × Bytes → Bytes × Bytes) (username filename hash sql_path : Bytes) (size : ℕ)
        (d d' : Db) (w : Fs) (row : Row) (rs : List Row)
        → db_query m (sql_get_file filename username) d
          ≡ (rows ((some hash ∷ some sql_path ∷ row) ∷ rs), d')
        → freed (hash, sql_path) ≡ (hash, sql_path)
        → Gone
            (joined sql_path hash)
            (file_remove f m freed username filename size d w).0
            (file_remove f m freed username filename size d w).3
    unfolding file_remove remove_found two_texts
    file_remove-Gone freed username filename hash sql_path size d d' w row rs found kept =
        let same : file_remove f m freed username filename size d w
            ≡ remove_row f m filename (joined sql_path hash) size
                (db_query m (sql_delete_file filename username) d') w =
          ap (λ r. remove_found f m freed username filename size r w) found
          ∙ ap
              (λ (x : Bytes × Bytes).
                remove_row f m filename (joined x.1 x.0) size
                  (db_query m (sql_delete_file filename username) d') w)
              kept in
        subst (λ (x : ℤ × Bytes × Db × Fs). Gone (joined sql_path hash) x.0 x.3) (sym same)
          (remove_row-Gone filename (joined sql_path hash) size
            (db_query m (sql_delete_file filename username) d') w)

    missing :
        (filename p : Bytes) (size : ℕ) (w : Fs)
        → stat p w ≡ none
        → gets_file f m filename p size w ≡ (failure_code, snprintf size (text "文件不存在: " ++ p), w)
    unfolding gets_file
    missing filename p size w h = rw (gets_file, h) refl

    -- A user removes a file, whose row is found with its hash and its path, and the removal returns
    -- SUCCESS. Then a user who has a folder, whose row for a file of any name has the same hash, and
    -- who asks for it with the same path, gets FAILURE and the message that the file does not exist;
    -- the file system stays as it is. A hash has at most forty bytes, a file that was unlinked is not
    -- found, and the fields of the row that are read after they were freed show what they held.
    pub file_remove-file_gets :
        (freed : Bytes × Bytes → Bytes × Bytes)
        (username filename hash path other other_filename userpath response : Bytes) (size : ℕ)
        (d d₁ d₂ d₃ : Db) (w w' : Fs) (row row' : Row) (rs rs' : List Row) (folder : Stat)
        → db_query m (sql_get_file filename username) d
          ≡ (rows ((some hash ∷ some (strip_slash path) ∷ row) ∷ rs), d₁)
        → freed (hash, strip_slash path) ≡ (hash, strip_slash path)
        → file_remove f m freed username filename size d w ≡ (success, response, d₂, w')
        → stat (joined userpath other) w' ≡ some folder
        → folder.is_dir ≡ true
        → db_query m (sql_get_hash other_filename other) d₂ ≡ (rows ((some hash ∷ row') ∷ rs'), d₃)
        → length hash ≤ 40
        → file_gets f m other other_filename path userpath size d₂ w'
          ≡ (failure_code, snprintf size (text "文件不存在: " ++ joined (strip_slash path) hash), d₃, w')
    unfolding file_gets gets_ready gets_found first_text
    file_remove-file_gets freed username filename hash path other other_filename userpath response
          size d d₁ d₂ d₃ w w' row row' rs rs' folder found kept removed there dir known few =
        let gone : stat (joined (strip_slash path) hash) w' ≡ none =
          subst (λ (u : Fs). stat (joined (strip_slash path) hash) u ≡ none)
            (ap (λ (x : ℤ × Bytes × Db × Fs). x.3) removed)
            (file_remove-Gone freed username filename hash (strip_slash path) size d d₁ w row rs
              found kept (ap (λ (x : ℤ × Bytes × Db × Fs). x.0) removed)) in
        ap (gets_ready f m other other_filename path size d₂)
          (folder_there f m (joined userpath other) size w' folder there dir)
        ∙ ap (λ r. gets_found f m other_filename path size r w') known
        ∙ ap
            (λ (h : Bytes).
              let (code, out, u) =
                gets_file f m other_filename (joined (strip_slash path) h) size w' in
              (code, out, d₃, u))
            (take_all 40 hash few)
        ∙ ap (λ (x : ℤ × Bytes × Fs). (x.0, x.1, d₃, x.2))
            (missing other_filename (joined (strip_slash path) hash) size w' gone)
