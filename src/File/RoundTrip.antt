-- ===== src/File/RoundTrip.antt =====
-- An upload and the download of the same file.
pub mod Tests
use cloud_sys.Base.Int.{ℤ, pos}
use cloud_sys.Base.{
  ℕ, zero, suc, ◌+◌, ◌≤◌, ◌≡◌, refl, sym, ap, ◌∙◌, true, List, [], ◌∷◌, none, some, length, take,
  arith, take_all,
}
use cloud_sys.CString.{Bytes, text, atoi}
use cloud_sys.Database.{Mysql, Row, affected, rows, db_query}
use cloud_sys.Cd.{snprintf, success}
use cloud_sys.Users.{first_text}
use cloud_sys.File.{
  Files, Stat, hex, joined, strip_slash, compute_sha1_from_memory, sql_count_hash, sql_insert_file,
  sql_get_hash,
}
use cloud_sys.File.Keeping.{Keeping}
use cloud_sys.File.Puts.{
  file_puts, puts_hashed, puts_counted, puts_store, puts_insert, puts_stored, store_file,
  write_file, write_opened, write_sized, is_known,
}
use cloud_sys.File.Gets.{file_gets}
use cloud_sys.File.Download.{download, file_gets-download}

length-hex : (md : List ℕ) → length (hex md) ≡ length md + length md
unfolding hex
length-hex [] = refl
length-hex (b ∷ bs) = omega (arith, length-hex bs)

module _ (f : Files) (m : Mysql) where
  open f use {Fs, stat, open_create, open_read, ftruncate, map_write, map_read, close}
  open m use {Db}

  sha1_hex :
      (content : Bytes) (md : List ℕ)
      → f.sha1 content ≡ some md
      → compute_sha1_from_memory f content ≡ some (hex md)
  unfolding compute_sha1_from_memory
  sha1_hex content md h = rw (compute_sha1_from_memory, h) refl

  file_written :
      (file_path content : Bytes) (size fd : ℕ) (w w₁ w₂ w₃ : Fs)
      → open_create file_path w ≡ (some fd, w₁)
      → ftruncate fd (length content) w₁ ≡ (true, w₂)
      → map_write fd (length content) content w₂ ≡ some w₃
      → store_file f m (pos 0) file_path content size w ≡ (none, close fd w₃)
  unfolding store_file write_file write_opened is_known
  file_written file_path content size fd w w₁ w₂ w₃ made sized mapped =
      ap (write_opened f m content size) made
      ∙ ap (write_sized f m fd content) sized
      ∙ (unfold write_sized in rw (write_sized, mapped) refl)

  -- Where no file with this hash is known and no call fails, the upload succeeds.
  pub file_puts-new :
      (username filename path content hash count : Bytes) (size fd n : ℕ) (d d₁ d₂ : Db)
      (w w₁ w₂ w₃ : Fs) (row : Row) (rs : List Row)
      → compute_sha1_from_memory f content ≡ some hash
      → db_query m (sql_count_hash hash) d ≡ (rows ((some count ∷ row) ∷ rs), d₁)
      → atoi count ≡ pos 0
      → open_create (joined (strip_slash path) hash) w ≡ (some fd, w₁)
      → ftruncate fd (length content) w₁ ≡ (true, w₂)
      → map_write fd (length content) content w₂ ≡ some w₃
      → db_query m (sql_insert_file filename username hash (strip_slash path)) d₁ ≡ (affected n, d₂)
      → file_puts f m username filename path content size d w
        ≡ some (success, snprintf size (text "文件上传成功"), d₂, close fd w₃)
  unfolding file_puts puts_hashed puts_counted puts_store puts_stored puts_insert first_text
  file_puts-new username filename path content hash count size fd n d d₁ d₂ w w₁ w₂ w₃ row rs hashed
        counted unknown made sized mapped inserted =
      ap (puts_hashed f m username filename path content size d w) hashed
      ∙ ap (λ r. puts_counted f m username filename hash path content size r w) counted
      ∙ ap
          (λ c. some (puts_store f m c username filename hash (strip_slash path) content size d₁ w))
          unknown
      ∙ ap
          (λ r. some (
            puts_stored f m (pos 0) username filename hash (strip_slash path)
              (joined (strip_slash path) hash) size d₁ r))
          (file_written (joined (strip_slash path) hash) content size fd w w₁ w₂ w₃ made sized
            mapped)
      ∙ ap
          (λ r.
            some (puts_insert f m (pos 0) (joined (strip_slash path) hash) size r (close fd w₃)))
          inserted

  module _ (keeping : Keeping f) where
    open keeping use {
      content_of, Opened, open_create_opens, ftruncate_opens, ftruncate_sizes, map_write_stores,
      close_keeps, stat_measures, open_read_opens, open_read_keeps, map_read_shows,
    }

    -- What an upload has mapped, written and closed, a download reads.
    content_kept :
        (p content mapped : Bytes) (fd fd' : ℕ) (w w₁ w₂ w₃ w₄ : Fs) (st : Stat)
        → open_create p w ≡ (some fd, w₁)
        → ftruncate fd (length content) w₁ ≡ (true, w₂)
        → map_write fd (length content) content w₂ ≡ some w₃
        → stat p (close fd w₃) ≡ some st
        → open_read p (close fd w₃) ≡ (some fd', w₄)
        → map_read fd' st.st_size w₄ ≡ some mapped
        → (st.st_size ≡ length content) × (mapped ≡ content)
    content_kept p content mapped fd fd' w w₁ w₂ w₃ w₄ st made sized written there opened read =
        let held = open_create_opens p fd w w₁ made in
        let (c, has, long) = ftruncate_sizes p fd (length content) w₁ w₂ held sized in
        let stored : content_of p (close fd w₃) ≡ some content =
          close_keeps p fd w₃
          ∙ map_write_stores p c content fd w₂ w₃
              (ftruncate_opens p fd (length content) w₁ w₂ held sized) has long written in
        let measured = stat_measures p content (close fd w₃) st stored there in
        (
          measured,
          map_read_shows p content mapped fd' w₄ (open_read_opens p fd' (close fd w₃) w₄ opened)
              (open_read_keeps p p fd' (close fd w₃) w₄ opened ∙ stored)
              (ap (λ n. map_read fd' n w₄) (sym measured) ∙ read),
        )

    -- A file whose hash no row has is uploaded, and then downloaded by the same user under the same
    -- name and path. Where no call on the database or the file system fails, the user's folder is
    -- there, SHA-1 gives twenty bytes, the INSERT is done and the row that the download finds has
    -- this hash: the upload returns SUCCESS, and the download answers with the content that was
    -- uploaded and a message behind it if the content is shorter than the response buffer, and else
    -- with a failure. The file system keeps what is mapped and written.
    pub file_puts-file_gets :
        (username filename path userpath content count mapped : Bytes) (md : List ℕ)
        (size fd fd' n : ℕ) (d d₁ d₂ d₃ : Db) (w w₁ w₂ w₃ w₄ : Fs) (row row' : Row)
        (rs rs' : List Row) (folder st : Stat)
        → f.sha1 content ≡ some md
        → length md ≡ 20
        → db_query m (sql_count_hash (hex md)) d ≡ (rows ((some count ∷ row) ∷ rs), d₁)
        → atoi count ≡ pos 0
        → open_create (joined (strip_slash path) (hex md)) w ≡ (some fd, w₁)
        → ftruncate fd (length content) w₁ ≡ (true, w₂)
        → map_write fd (length content) content w₂ ≡ some w₃
        → db_query m (sql_insert_file filename username (hex md) (strip_slash path)) d₁
          ≡ (affected n, d₂)
        → stat (joined userpath username) (close fd w₃) ≡ some folder
        → folder.is_dir ≡ true
        → db_query m (sql_get_hash filename username) d₂ ≡ (rows ((some (hex md) ∷ row') ∷ rs'), d₃)
        → stat (joined (strip_slash path) (hex md)) (close fd w₃) ≡ some st
        → open_read (joined (strip_slash path) (hex md)) (close fd w₃) ≡ (some fd', w₄)
        → map_read fd' st.st_size w₄ ≡ some mapped
        → (file_puts f m username filename path content size d w
            ≡ some (success, snprintf size (text "文件上传成功"), d₂, close fd w₃))
          × (file_gets f m username filename path userpath size d₂ (close fd w₃) ≡ (
            (download f m filename (length content) size content).0,
            (download f m filename (length content) size content).1,
            d₃,
            close fd' w₄,
          ))
    file_puts-file_gets username filename path userpath content count mapped md size fd fd' n d d₁
          d₂ d₃ w w₁ w₂ w₃ w₄ row row' rs rs' folder st hashed twenty counted unknown made sized
          written inserted there dir found stored opened read =
        let forty : take 40 (hex md) ≡ hex md =
          take_all 40 (hex md) (omega (arith, length-hex md)) in
        let at : (h : Bytes) → Bytes = λ h. joined (strip_slash path) h in
        let kept =
          content_kept (joined (strip_slash path) (hex md)) content mapped fd fd' w w₁ w₂ w₃ w₄ st
            made sized written stored opened read in
        (
          file_puts-new username filename path content (hex md) count size fd n d d₁ d₂ w w₁ w₂ w₃
              row rs (sha1_hex content md hashed) counted unknown made sized written inserted,
          file_gets-download f m username filename path userpath (hex md) mapped size fd' d₂ d₃
                (close fd w₃) w₄ row' rs' folder st there dir found
                (ap (λ h. stat (at h) (close fd w₃)) forty ∙ stored)
                (ap (λ h. open_read (at h) (close fd w₃)) forty ∙ opened) read
              ∙ ap
                  (λ (k : ℕ). (
                    (download f m filename k size mapped).0,
                    (download f m filename k size mapped).1,
                    d₃,
                    close fd' w₄,
                  ))
                  kept.0
              ∙ ap
                  (λ (c : Bytes). (
                    (download f m filename (length content) size c).0,
                    (download f m filename (length content) size c).1,
                    d₃,
                    close fd' w₄,
                  ))
                  kept.1,
        )
