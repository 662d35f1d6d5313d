-- ===== src/File/Resume/Tests.antt =====
-- The copy of a file in memory.
use cloud_sys.Base.{
  ◌≡◌, ◌≢◌, refl, ap, true, [], ◌∷◌, ◌++◌, none, some, arith, length, take, drop, take-append-drop,
}
use cloud_sys.CString.{Bytes}
use cloud_sys.File.{Files}
use cloud_sys.File.Resume.{Io, buffer_size, running, copied, copy_loop}
use cloud_sys.File.Resume.Copy.{Disk, copy_loop-ends, copy_loop-copied}

-- What is left of the source, and the local file.
abbrev two_files : Files
two_files = record {
  Fs = Bytes × Bytes;
  stat = λ p w. none;
  mkdir = λ p w. (true, w);
  open_create = λ p w. (none, w);
  open_read = λ p w. (some 3, w);
  ftruncate = λ fd n w. (true, w);
  map_write = λ fd n c w. none;
  map_read = λ fd n w. none;
  close = λ fd w. w;
  unlink = λ p w. (true, w);
  error_text = λ w. [];
  sha1 = λ c. none;
}

abbrev memory_io : Io two_files
memory_io = record {
  open_append = λ p w. (some 4, w);
  lseek = λ fd n w. (some n, w);
  read = λ fd n w. (some (take n w.0), (drop n w.0, w.1));
  write = λ fd b w. (some (length b), (w.0, w.1 ++ b));
}

take_nil : (rest : Bytes) → take buffer_size rest ≡ [] → rest ≡ []
take_nil [] e = refl
take_nil (b ∷ bs) e = absurd (ground arith)

abbrev memory_disk : Disk two_files memory_io 3 4
memory_disk = record {
  Holds = λ rest local w. w ≡ (rest, local);
  chunk = λ rest w. take buffer_size rest;
  after = λ rest w. drop buffer_size rest;
  split = λ rest w. take-append-drop buffer_size rest;
  more = λ rest w e. take_nil rest e;
  reads = λ rest local w e. (
    (drop buffer_size rest, local),
    ap (λ (v : Bytes × Bytes). (some (take buffer_size v.0), (drop buffer_size v.0, v.1))) e,
    refl,
  );
  writes = λ rest local bytes w e. (
    (rest, local ++ bytes),
    ap (λ (v : Bytes × Bytes). (some (length bytes), (v.0, v.1 ++ bytes))) e,
    refl,
  );
}

abbrev rest_of_file : Bytes
rest_of_file = b'c' ∷ b'd' ∷ []

abbrev begun : Bytes × Bytes
begun = (rest_of_file, b'a' ∷ b'b' ∷ [])

copy_loop-ends_example : copy_loop two_files memory_io 2 3 4 2 0 begun ≢ running
copy_loop-ends_example = copy_loop-ends two_files memory_io 3 4 2 2 0 begun (omega arith)

copy_loop-copied_example :
    (w : Bytes × Bytes) × (copy_loop two_files memory_io 2 3 4 2 0 begun ≡ copied 2 w)
    × (w ≡ ([], b'a' ∷ b'b' ∷ b'c' ∷ b'd' ∷ []))
copy_loop-copied_example =
    copy_loop-copied two_files memory_io 3 4 2 memory_disk 2 0 rest_of_file (b'a' ∷ b'b' ∷ []) begun
      refl refl (omega arith)
