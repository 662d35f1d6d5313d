-- ===== src/File/Resume/Copy.antt =====
-- The loop that copies.
use mathlib.Core.List.{append_assoc, append-nil}
use cloud_sys.Base.{
  ℕ, zero, suc, ◌+◌, ◌-◌, ◌≤◌, ◌<◌, ◌≡◌, ◌≢◌, refl, sym, ap, subst, ◌∙◌, inl, inr, [], ◌∷◌, ◌++◌,
  Option, none, some, ltb, arith, length, length-append, Bool-cases, ==_refl, lt→ltb, le→ltb,
}
use cloud_sys.CString.{Bytes}
use cloud_sys.File.{Files}
use cloud_sys.File.Resume.{
  Io, buffer_size, Copied, running, copied, short_write, copy_chunk, copy_written, copy_loop,
}

module _ (f : Files) (io : Io f) (src dst remaining : ℕ) where
  open f use {Fs}

  chunk_ends :
      (total fuel : ℕ) (chunk : Option Bytes × Fs)
      → ((n : ℕ) (w' : Fs) → total < n → copy_loop f io fuel src dst remaining n w' ≢ running)
      → copy_chunk f io dst total (copy_loop f io fuel src dst remaining) chunk ≢ running
  unfolding copy_chunk
  chunk_ends total fuel (none, w) rest = λ e. ground arith
  chunk_ends total fuel (some [], w) rest = λ e. ground arith
  chunk_ends total fuel (some (b ∷ bs), w) rest =
      elim (Bool-cases (short_write f io (io.write dst (b ∷ bs) w).0 (length (b ∷ bs)))) [
        | inl e ↦ rw (copy_chunk, copy_written, e) (λ z. ground arith)
        | inr e ↦ rw (copy_chunk, copy_written, e) (rest (total + length (b ∷ bs)) _ (omega arith))
      ]

  -- Whatever the two files and the calls on them do, the loop ends in as many rounds as there are
  -- bytes to transfer.
  pub copy_loop-ends :
      (fuel total : ℕ) (w : Fs)
      → remaining - total ≤ fuel
      → copy_loop f io fuel src dst remaining total w ≢ running
  unfolding copy_loop
  copy_loop-ends zero total w enough =
      rw (copy_loop, le→ltb total remaining (omega arith)) (λ z. ground arith)
  copy_loop-ends (suc fuel) total w enough = elim (Bool-cases (ltb total remaining)) [
    | inr e ↦ rw (copy_loop, e) (λ z. ground arith)
    | inl e ↦
        rw (copy_loop, e)
          (chunk_ends total fuel (io.read src buffer_size w)
            (λ n w' lt. copy_loop-ends fuel n w' (omega (arith, enough, lt))))
  ]

cons_ne_nil : (b : ℕ) (bs : Bytes) → ¬ (b ∷ bs ≡ [])
cons_ne_nil b bs e = ground arith

-- Two open files, `src` at an offset with `rest` to be read and `dst` with the content `local`, and
-- what `read` and `write` do with them when the disk has room and no call is interrupted.
pub record Disk (f : Files) (io : Io f) (src dst : ℕ) : Type 1 where
  pub Holds : Bytes → Bytes → f.Fs → Type 0
  pub chunk : Bytes → f.Fs → Bytes
  pub after : Bytes → f.Fs → Bytes
  pub split : (rest : Bytes) (w : f.Fs) → chunk rest w ++ after rest w ≡ rest
  -- `read` of a regular file gives nothing only at its end.
  pub more : (rest : Bytes) (w : f.Fs) → chunk rest w ≡ [] → rest ≡ []
  pub reads :
      (rest local : Bytes) (w : f.Fs)
      → Holds rest local w
      → (w' : f.Fs) × (io.read src buffer_size w ≡ (some (chunk rest w), w'))
        × Holds (after rest w) local w'
  -- The file was opened for appending.
  pub writes :
      (rest local bytes : Bytes) (w : f.Fs)
      → Holds rest local w
      → (w' : f.Fs) × (io.write dst bytes w ≡ (some (length bytes), w'))
        × Holds rest (local ++ bytes) w'

module _ (f : Files) (io : Io f) (src dst remaining : ℕ) (disk : Disk f io src dst) where
  open f use {Fs}
  open disk use {Holds, chunk, after, split, more, reads, writes}

  -- The copy ends with `total` bytes transferred, and the local file is `local`.
  abbrev Ends : Copied Fs → ℕ → Bytes → Type 0
  Ends c total local = (w : Fs) × (c ≡ copied total w) × Holds [] local w

  written :
      (total n : ℕ) (next : ℕ → Fs → Copied Fs) (w : Fs)
      → copy_written f io total n next (some n, w) ≡ next (total + n) w
  unfolding copy_written
  written total n next w = rw (copy_written, ==_refl n) refl

  chunk_copied :
      (total : ℕ) (next : ℕ → Fs → Copied Fs) (bytes rest local : Bytes) (w : Fs)
      → Holds rest local w
      → (bytes ≡ [] → rest ≡ [])
      → ((w' : Fs)
          → total < total + length bytes
          → Holds rest (local ++ bytes) w'
          → Ends
              (next (total + length bytes) w')
              (total + length bytes + length rest)
              ((local ++ bytes) ++ rest))
      → Ends
          (copy_chunk f io dst total next (some bytes, w))
          (total + length bytes + length rest)
          ((local ++ bytes) ++ rest)
  unfolding copy_chunk
  chunk_copied total next [] rest local w h end go =
      let e = end refl in
      (
        w,
        ap (λ n. copied n w) (omega (arith, ap length e)),
        subst (λ r. Holds [] ((local ++ []) ++ r) w) (sym e)
            (subst (λ l. Holds [] l w) (sym (append-nil (local ++ []) ∙ append-nil local))
              (subst (λ r. Holds r local w) e h)),
      )
  chunk_copied total next (b ∷ bs) rest local w h end go =
      let (w', e, h') = writes rest local (b ∷ bs) w h in
      let run = go w' (omega arith) h' in
      (
        run.0,
        ap (copy_written f io total (length (b ∷ bs)) next) e
            ∙ written total (length (b ∷ bs)) next w'
            ∙ run.1,
        run.2,
      )

  copy_loop-done :
      (fuel total : ℕ) (local : Bytes) (w : Fs)
      → Holds [] local w
      → total + 0 ≡ remaining
      → Ends (copy_loop f io fuel src dst remaining total w) remaining (local ++ [])
  unfolding copy_loop
  copy_loop-done zero total local w h all = (
    w,
    rw (copy_loop, le→ltb total remaining (omega arith)) (ap (λ n. copied n w) (omega arith)),
    subst (λ l. Holds [] l w) (sym (append-nil local)) h,
  )
  copy_loop-done (suc fuel) total local w h all = (
    w,
    rw (copy_loop, le→ltb total remaining (omega arith)) (ap (λ n. copied n w) (omega arith)),
    subst (λ l. Holds [] l w) (sym (append-nil local)) h,
  )

  -- Where no call fails or writes less than it is given, and `read` gives nothing only at the end of
  -- the source: if `rest` is what is left of the source, and as much is to be transferred, the loop,
  -- given a round for each byte, ends with the whole of it behind what the local file held.
  pub copy_loop-copied :
      (fuel total : ℕ) (rest local : Bytes) (w : Fs)
      → Holds rest local w
      → total + length rest ≡ remaining
      → length rest ≤ fuel
      → (w' : Fs) × (copy_loop f io fuel src dst remaining total w ≡ copied remaining w')
        × Holds [] (local ++ rest) w'
  unfolding copy_loop
  copy_loop-copied fuel total [] local w h all enough = copy_loop-done fuel total local w h all
  copy_loop-copied zero total (b ∷ bs) local w h all enough = absurd (omega arith)
  copy_loop-copied (suc fuel) total (b ∷ bs) local w h all enough =
      let rest = b ∷ bs in
      let (w', r, h') = reads rest local w h in
      let bytes = chunk rest w in
      let left = after rest w in
      let parts = ap length (sym (split rest w)) ∙ length-append bytes left in
      let sum : total + length bytes + length left ≡ remaining = omega (arith, parts, all) in
      let go =
        chunk_copied total (copy_loop f io fuel src dst remaining) bytes left local w' h'
          (λ z. absurd (cons_ne_nil b bs (more rest w z)))
          (λ w'' lt h''.
            let next =
              copy_loop-copied fuel (total + length bytes) left (local ++ bytes) w'' h'' sum
                (omega (arith, parts, enough, lt)) in
            (next.0, next.1 ∙ ap (λ n. copied n next.0) (sym sum), next.2)) in
      (
        go.0,
        rw (copy_loop, lt→ltb total remaining (omega (arith, all)))
            (ap (copy_chunk f io dst total (copy_loop f io fuel src dst remaining)) r
              ∙ go.1
              ∙ ap (λ n. copied n go.0) sum),
        subst (λ l. Holds [] l go.0)
            (append_assoc local bytes left ∙ ap (λ l. local ++ l) (split rest w)) go.2,
      )
