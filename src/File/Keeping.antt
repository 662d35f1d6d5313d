-- ===== src/File/Keeping.antt =====
-- What an upload and a later download rely on of the file system: that a file keeps what is mapped
-- and written, as the manual pages of open(2), ftruncate(2), mmap(2), close(2) and stat(2) say.
use cloud_sys.Base.{ℕ, ◌≡◌, true, Option, some, length}
use cloud_sys.CString.{Bytes}
use cloud_sys.File.{Files, Stat}

pub record Keeping (f : Files) : Type 1 where
  -- The content of the regular file of a name.
  pub content_of : Bytes → f.Fs → Option Bytes
  -- The descriptor is open on the file of this name.
  pub Opened : ℕ → Bytes → f.Fs → Type 0
  pub open_create_opens :
      (p : Bytes) (fd : ℕ) (w w' : f.Fs) → f.open_create p w ≡ (some fd, w') → Opened fd p w'
  pub ftruncate_opens :
      (p : Bytes) (fd n : ℕ) (w w' : f.Fs)
      → Opened fd p w
      → f.ftruncate fd n w ≡ (true, w')
      → Opened fd p w'
  -- The file has the length that it is given.
  pub ftruncate_sizes :
      (p : Bytes) (fd n : ℕ) (w w' : f.Fs)
      → Opened fd p w
      → f.ftruncate fd n w ≡ (true, w')
      → (c : Bytes) × (content_of p w' ≡ some c) × (length c ≡ n)
  -- A mapping of the whole file that is overwritten, and unmapped.
  pub map_write_stores :
      (p c content : Bytes) (fd : ℕ) (w w' : f.Fs)
      → Opened fd p w
      → content_of p w ≡ some c
      → length c ≡ length content
      → f.map_write fd (length content) content w ≡ some w'
      → content_of p w' ≡ some content
  pub close_keeps : (p : Bytes) (fd : ℕ) (w : f.Fs) → content_of p (f.close fd w) ≡ content_of p w
  pub stat_measures :
      (p c : Bytes) (w : f.Fs) (st : Stat)
      → content_of p w ≡ some c
      → f.stat p w ≡ some st
      → st.st_size ≡ length c
  pub open_read_opens :
      (p : Bytes) (fd : ℕ) (w w' : f.Fs) → f.open_read p w ≡ (some fd, w') → Opened fd p w'
  pub open_read_keeps :
      (p q : Bytes) (fd : ℕ) (w w' : f.Fs)
      → f.open_read p w ≡ (some fd, w')
      → content_of q w' ≡ content_of q w
  -- A mapping of the whole file shows its content.
  pub map_read_shows :
      (p c mapped : Bytes) (fd : ℕ) (w : f.Fs)
      → Opened fd p w
      → content_of p w ≡ some c
      → f.map_read fd (length c) w ≡ some mapped
      → mapped ≡ c
