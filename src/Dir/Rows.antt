-- ===== src/Dir/Rows.antt =====
-- Rows of the table `file_info` that a condition keeps, and one more row.
use cloud_sys.Base.Int.{ℤ}
use cloud_sys.Base.{
  subst, ◌≡◌, refl, ap, inl, inr, Bool, true, false, not, List, [], ◌∷◌, ◌++◌, arith, length, ltb,
  Bool-cases,
}
use cloud_sys.CString.{Bytes, bytes_eq}
use cloud_sys.Database.{Mysql}
use cloud_sys.Cd.{success}
use cloud_sys.Dir.Inserts.{Makes}
use cloud_sys.Dir.Table.{FileRow, FileTable, keep}

pub bytes_eq_refl : (s : Bytes) → bytes_eq s s ≡ true
bytes_eq_refl [] = refl
bytes_eq_refl (b ∷ bs) = ground (arith, bytes_eq_refl bs)

pub keep-append :
    (p : FileRow → Bool) (rs : List FileRow) (r : FileRow)
    → p r ≡ true
    → keep p (rs ++ r ∷ []) ≡ keep p rs ++ r ∷ []
keep-append p [] r h = rw h refl
keep-append p (x ∷ rs) r h = elim (Bool-cases (p x)) [
  | inl e ↦ rw e (ap (◌∷◌ x) (keep-append p rs r h))
  | inr e ↦ rw e (keep-append p rs r h)
]

pub keep-append_out :
    (p : FileRow → Bool) (rs : List FileRow) (r : FileRow)
    → p r ≡ false
    → keep p (rs ++ r ∷ []) ≡ keep p rs
keep-append_out p [] r h = rw h refl
keep-append_out p (x ∷ rs) r h = elim (Bool-cases (p x)) [
  | inl e ↦ rw e (ap (◌∷◌ x) (keep-append_out p rs r h))
  | inr e ↦ rw e (keep-append_out p rs r h)
]

-- What a stronger condition keeps, where the weaker keeps nothing.
pub keep_stronger :
    (p q : FileRow → Bool) (rs : List FileRow)
    → ((r : FileRow) → q r ≡ true → p r ≡ true)
    → keep p rs ≡ []
    → keep q rs ≡ []
keep_stronger p q [] h none_kept = refl
keep_stronger p q (r ∷ rs) h none_kept = ground (arith, h r, keep_stronger p q rs h)

-- Where a condition keeps nothing, its negation keeps all.
pub keep-not :
    (p : FileRow → Bool) (rs : List FileRow) → keep p rs ≡ [] → keep (λ r. not (p r)) rs ≡ rs
keep-not p [] h = refl
keep-not p (r ∷ rs) h = ground (arith, keep-not p rs)

module _ {m : Mysql} (table : FileTable m) where
  open table use {rows_of}

  -- What a `mkdir` of a name that is free answers, and leaves.
  pub made_new :
      (new : FileRow) (rs : List FileRow) (d : m.Db) (a : ℤ × Bytes × m.Db)
      → rs ≡ []
      → Makes table (ltb 0 (length rs)) new d a
      → (a.0 ≡ success) × (rows_of a.2 ≡ rows_of d ++ new ∷ [])
  unfolding Makes
  made_new new rs d a free makes = subst (λ rs. Makes table (ltb 0 (length rs)) new d a) free makes
