-- ===== src/File/Download.antt =====
-- What a download answers.
use cloud_sys.Base.Int.{ℤ}
use cloud_sys.Base.{
  ℕ, ◌-◌, ◌≡◌, refl, ap, ◌∙◌, inl, inr, true, List, ◌∷◌, ◌++◌, none, some, ltb, if◌then◌else◌, take,
  Bool-cases,
}
use cloud_sys.CString.{Bytes, text}
use cloud_sys.Database.{Mysql, Row, rows, db_query}
use cloud_sys.Cd.{snprintf, success, failure_code}
use cloud_sys.Users.{first_text}
use cloud_sys.File.{Files, Stat, joined, strip_slash, sql_get_hash}
use cloud_sys.File.Gets.{
  file_gets, gets_ready, gets_found, gets_file, gets_read, gets_mapped, user_folder,
}

module _ (f : Files) (m : Mysql) where
  open f use {Fs, stat, open_read, map_read, close}
  open m use {Db}

  pub folder_there :
      (folder : Bytes) (size : ℕ) (w : Fs) (st : Stat)
      → stat folder w ≡ some st
      → st.is_dir ≡ true
      → user_folder f m folder size w ≡ (none, w)
  unfolding user_folder
  folder_there folder size w st there dir = rw (user_folder, there, dir) refl

  -- The code and the response for a stored file of this size and content.
  pub download : Bytes → ℕ → ℕ → Bytes → ℤ × Bytes
  download filename file_size size content =
      if ltb file_size size
      then (success, content ++ snprintf (size - file_size) (text "文件下载完成: " ++ filename))
      else (failure_code, snprintf size (text "响应缓冲区不足"))

  content_answer :
      (filename content : Bytes) (file_size size fd : ℕ) (w : Fs)
      → gets_mapped f m filename fd file_size size (some content) w ≡ (
        (download filename file_size size content).0,
        (download filename file_size size content).1,
        close fd w,
      )
  unfolding gets_mapped download
  content_answer filename content file_size size fd w = elim (Bool-cases (ltb file_size size)) [
    | inl e ↦ rw e refl
    | inr e ↦ rw e refl
  ]

  file_read :
      (filename file_path content : Bytes) (size fd : ℕ) (w w' : Fs) (st : Stat)
      → stat file_path w ≡ some st
      → open_read file_path w ≡ (some fd, w')
      → map_read fd st.st_size w' ≡ some content
      → gets_file f m filename file_path size w ≡ (
        (download filename st.st_size size content).0,
        (download filename st.st_size size content).1,
        close fd w',
      )
  unfolding gets_file gets_read
  file_read filename file_path content size fd w w' st there opened mapped =
      rw (gets_file, there)
        (ap (gets_read f m filename st.st_size size) opened
          ∙ ap (λ c. gets_mapped f m filename fd st.st_size size c w') mapped
          ∙ content_answer filename content st.st_size size fd w')

  -- Where the user has a folder and a row for the file, and the stored file can be opened and mapped,
  -- a download answers with its content and a message behind it if the file is shorter than the
  -- response buffer, and else with a failure; the descriptor is closed in both cases.
  pub file_gets-download :
      (username filename path userpath hash content : Bytes) (size fd : ℕ) (d d' : Db) (w w' : Fs)
      (row : Row) (rs : List Row) (folder st : Stat)
      → stat (joined userpath username) w ≡ some folder
      → folder.is_dir ≡ true
      → db_query m (sql_get_hash filename username) d ≡ (rows ((some hash ∷ row) ∷ rs), d')
      → stat (joined (strip_slash path) (take 40 hash)) w ≡ some st
      → open_read (joined (strip_slash path) (take 40 hash)) w ≡ (some fd, w')
      → map_read fd st.st_size w' ≡ some content
      → file_gets f m username filename path userpath size d w ≡ (
        (download filename st.st_size size content).0,
        (download filename st.st_size size content).1,
        d',
        close fd w',
      )
  unfolding file_gets gets_ready gets_found first_text
  file_gets-download username filename path userpath hash content size fd d d' w w' row rs folder st
        there dir found stored opened mapped =
      ap (gets_ready f m username filename path size d)
        (folder_there (joined userpath username) size w folder there dir)
      ∙ ap (λ r. gets_found f m filename path size r w) found
      ∙ ap (λ (x : ℤ × Bytes × Fs). (x.0, x.1, d', x.2))
          (file_read filename (joined (strip_slash path) (take 40 hash)) content size fd w w' st
            stored opened mapped)
