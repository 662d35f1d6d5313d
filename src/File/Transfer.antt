-- ===== src/File/Transfer.antt =====
-- Uploads of what is stored already.
use cloud_sys.Base.Int.{ℤ, pos}
use cloud_sys.Base.{ℕ, suc, ◌≡◌, refl, ap, ◌∙◌, List, ◌∷◌, none, some, arith}
use cloud_sys.CString.{Bytes, text, atoi}
use cloud_sys.Database.{Mysql, Row, Reply, failure, affected, rows, db_query}
use cloud_sys.Cd.{snprintf, err_db}
use cloud_sys.Users.{first_text}
use cloud_sys.File.{
  Files, joined, strip_slash, compute_sha1_from_memory, sql_count_hash, sql_insert_file,
}
use cloud_sys.File.Puts.{
  file_puts, puts_hashed, puts_counted, puts_store, puts_stored, puts_insert, store_file, is_known,
}

module _ (f : Files) (m : Mysql) where
  open f use {Fs, stat, unlink}
  open m use {Db}

  puts_insert-known :
      (n : ℕ) (file_path : Bytes) (size : ℕ) (r : Reply × Db) (w : Fs)
      → (code : ℤ) × (response : Bytes) × (d : Db) × (puts_insert f m
            (pos (suc n))
            file_path
            size
            r
            w
          ≡ (code, response, d, w))
  unfolding puts_insert
  puts_insert-known k file_path size (failure, d) w =
      (err_db, snprintf size (text "数据库插入失败"), d, ground arith)
  puts_insert-known k file_path size (affected n, d) w = (_, _, d, refl)
  puts_insert-known k file_path size (rows rs, d) w = (_, _, d, refl)

  store_file-known :
      (n : ℕ) (file_path content : Bytes) (size : ℕ) (w : Fs)
      → store_file f m (pos (suc n)) file_path content size w ≡ (none, w)
  unfolding store_file is_known
  store_file-known n file_path content size w = ground arith

  -- An upload whose hash a row of `file_info` has already, for any user and path, leaves the file
  -- system as it is, whether its own row can be inserted or not.
  pub file_puts-known :
      (username filename path content hash count : Bytes) (size : ℕ) (d d' : Db) (w : Fs) (n : ℕ)
      (row : Row) (rs : List Row)
      → compute_sha1_from_memory f content ≡ some hash
      → db_query m (sql_count_hash hash) d ≡ (rows ((some count ∷ row) ∷ rs), d')
      → atoi count ≡ pos (suc n)
      → (code : ℤ) × (response : Bytes) × (d'' : Db) × (file_puts f m username filename path content
            size d w
          ≡ some (code, response, d'', w))
  unfolding file_puts puts_hashed puts_counted puts_store puts_stored first_text
  file_puts-known username filename path content hash count size d d' w n row rs hashed counted
        positive =
      let stored =
        puts_insert-known n (joined (strip_slash path) hash) size
          (db_query m (sql_insert_file filename username hash (strip_slash path)) d') w in
      (
        stored.0,
        stored.1,
        stored.2,
        ap (puts_hashed f m username filename path content size d w) hashed
            ∙ ap (λ r. puts_counted f m username filename hash path content size r w) counted
            ∙ ap
                (λ c.
                  some
                    (puts_store f m c username filename hash (strip_slash path) content size d' w))
                positive
            ∙ ap some (
                ap
                  (puts_stored f m (pos (suc n)) username filename hash (strip_slash path)
                    (joined (strip_slash path) hash) size d')
                  (store_file-known n (joined (strip_slash path) hash) content size w)
                ∙ stored.3),
      )
