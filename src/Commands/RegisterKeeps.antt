-- ===== src/Commands/RegisterKeeps.antt =====
-- USERREGISTER and the tables of sessions.
use cloud_sys.Base.Int.{pos, int_eq}
use cloud_sys.Base.{
  ℕ, ◌≡◌, refl, subst, sym, inl, inr, Bool, true, false, List, Option, none, some, if◌then◌else◌,
  length, take, get_or, Bool-cases, Option-cases, ltb, ◌==◌,
}
use cloud_sys.CString.{Bytes}
use cloud_sys.Database.{Mysql}
use cloud_sys.Sessions.{Session, no_session, close_session}
use cloud_sys.Sessions.Valid.{
  IsIdle, IsPending, IsValid, opened, pending-Idle, pending-Pending, open_session-Pending,
  close_session-Idle,
}
use cloud_sys.Users.{insert_user, user_exists, generate_salt}
use cloud_sys.File.{Files}
use cloud_sys.Commands.{Server, send, reply}
use cloud_sys.Commands.Register.{
  user_register, register_packet, register_name, register_open, register_salt, register_password,
  register_insert, register_end, end_register,
}
use cloud_sys.Commands.Keeps.{Holds, AreValid, Holds-if}

module _ (m : Mysql) (f : Files) where
  register_open-IsValid :
      (draws : List ℕ) (fd : ℕ) (name : Bytes) (s : Server m f)
      → IsIdle s.registers
      → IsValid s.logins
      → Holds AreValid (register_open m f draws fd name s)
  unfolding register_open register_salt generate_salt send IsValid AreValid
  register_open-IsValid draws fd name s idle l =
      let salt = (generate_salt 25 draws).1 in
      let o = open_session-Pending name salt s.registers idle in
      rw (register_open, o.1) (l, inr (opened name salt, o.2))

  register_name-IsValid :
      (draws : List ℕ) (fd : ℕ) (value : Bytes) (s : Server m f)
      → IsIdle s.registers
      → IsValid s.logins
      → Holds AreValid (register_name m f draws fd value s)
  unfolding register_name reply send IsValid AreValid
  register_name-IsValid draws fd value s idle l =
      let (code, d) = user_exists m value s.db in
      let s' = record s { current_username = value; db = d } in
      Holds-if m f (ltb (length value) 50) _ none
        (Holds-if m f (int_eq code (pos 0)) _ _ (register_open-IsValid draws fd value s' idle l)
          (l, inl idle))
        tt

  -- The tables stay as they are.
  abbrev SameTables : Server m f → Option (Server m f) → Type 0
  SameTables s none = Unit
  SameTables s (some t) = (t.logins ≡ s.logins) × (t.registers ≡ s.registers)

  SameTables-if :
      (b : Bool) (s : Server m f) (x y : Option (Server m f))
      → SameTables s x
      → SameTables s y
      → SameTables s (if b then x else y)
  SameTables-if true s x y p q = p
  SameTables-if false s x y p q = q

  insert-SameTables :
      (fd : ℕ) (name salt value : Bytes) (s : Server m f)
      → SameTables s (register_insert m f fd name salt value s)
  unfolding register_insert reply send
  insert-SameTables fd name salt value s =
      SameTables-if (length salt == 0) s _ _ (refl, refl)
        (elim (Option-cases (insert_user m name salt value s.db)) [
          | inl z ↦ rw z tt
          | inr ((code, d), z) ↦ elim (Bool-cases (int_eq code (pos 0))) [
            | inl e ↦ rw (z, e) (refl, refl)
            | inr e ↦ rw (z, e) (refl, refl)
          ]
        ])

  register_end-IsValid :
      (x : Session) (s : Server m f) (r : Option (Server m f))
      → IsPending x s.registers
      → IsValid s.logins
      → SameTables s r
      → Holds AreValid (register_end m f 0 r)
  unfolding register_end end_register IsValid AreValid
  register_end-IsValid x s none p l e = tt
  register_end-IsValid x s (some t) p l e = (
    subst IsValid (sym e.0) l,
    inl (subst (λ t. IsIdle (close_session 0 t)) (sym e.1) (close_session-Idle s.registers x p)),
  )

  pub user_register-IsValid :
      (draws : List ℕ) (fd : ℕ) (value : Bytes) (s : Server m f)
      → AreValid s
      → Holds AreValid (user_register m f draws fd value s)
  unfolding user_register register_packet register_password IsValid AreValid
  user_register-IsValid draws fd value s (l, inl idle) =
      subst (λ o. Holds AreValid (register_packet m f draws fd value s o))
        (sym (pending-Idle s.registers idle)) (register_name-IsValid draws fd value s idle l)
  user_register-IsValid draws fd value s (l, inr (x, p)) =
      subst (λ o. Holds AreValid (register_packet m f draws fd value s o))
        (sym (pending-Pending s.registers x p))
        (register_end-IsValid x
          (record s { current_username = take 49 (get_or s.registers.slots 0 no_session).username })
          _ p l (insert-SameTables fd _ _ value _))
