-- ===== src/Commands/LoginKeeps.antt =====
-- USERLOGIN and the tables of sessions.
use cloud_sys.Base.{
  ℕ, ◌≡◌, refl, subst, sym, inl, inr, [], Option, none, some, length, Bool-cases, Option-cases, ltb,
}
use cloud_sys.CString.{Bytes, bytes_eq}
use cloud_sys.Database.{Mysql}
use cloud_sys.Sessions.{Session, close_session}
use cloud_sys.Sessions.Valid.{
  IsIdle, IsPending, IsValid, opened, pending-Idle, pending-Pending, open_session-Pending,
  close_session-Idle,
}
use cloud_sys.Users.{get_salt}
use cloud_sys.File.{Files}
use cloud_sys.Commands.{Server, send, reply}
use cloud_sys.Commands.Login.{
  user_login, login_packet, login_name, login_open, login_password, login_stored, login_check,
  end_login,
}
use cloud_sys.Commands.Keeps.{Holds, AreValid}

module _ (m : Mysql) (f : Files) where
  login_open-IsValid :
      (fd : ℕ) (name salt : Bytes) (s : Server m f)
      → IsIdle s.logins
      → IsValid s.registers
      → Holds AreValid (login_open m f fd name salt s)
  unfolding login_open send IsValid AreValid
  login_open-IsValid fd name salt s idle r =
      let o = open_session-Pending name [] s.logins idle in
      rw (login_open, o.1) (inr (opened name [], o.2), r)

  login_name-IsValid :
      (fd : ℕ) (value : Bytes) (s : Server m f)
      → IsIdle s.logins
      → IsValid s.registers
      → Holds AreValid (login_name m f fd value s)
  unfolding login_name reply send IsValid AreValid
  login_name-IsValid fd value s idle r = elim (Bool-cases (ltb (length value) 50)) [
    | inr e ↦ rw (login_name, e) tt
    | inl e ↦ elim (Option-cases (get_salt m value s.db)) [
      | inl z ↦ rw (login_name, e, z) tt
      | inr ((none, d), z) ↦ rw (login_name, e, z) (inl idle, r)
      | inr ((some salt, d), z) ↦
          rw (login_name, e, z)
            (login_open-IsValid fd value salt (record s { current_username = value; db = d }) idle
              r)
    ]
  ]

  check-sessions :
      (fd : ℕ) (value : Bytes) (stored : Option Bytes) (s : Server m f)
      → ((login_check m f fd value stored s).logins ≡ s.logins)
        × ((login_check m f fd value stored s).registers ≡ s.registers)
  unfolding login_check reply send
  check-sessions fd value none s = (refl, refl)
  check-sessions fd value (some hash) s = elim (Bool-cases (bytes_eq value hash)) [
    | inl e ↦ rw e (refl, refl)
    | inr e ↦ rw e (refl, refl)
  ]

  login_stored-IsValid :
      (fd : ℕ) (value name : Bytes) (x : Session) (s : Server m f)
      → (found : Option (Option Bytes × m.Db)) → IsPending x s.logins
      → IsValid s.registers
      → Holds AreValid (login_stored m f fd value 0 s name found)
  unfolding login_stored end_login IsValid AreValid
  login_stored-IsValid fd value name x s none p r = tt
  login_stored-IsValid fd value name x s (some (stored, d)) p r =
      let c = check-sessions fd value stored (record s { current_username = name; db = d }) in
      (
        inl (subst (λ t. IsIdle (close_session 0 t)) (sym c.0) (close_session-Idle s.logins x p)),
        subst IsValid (sym c.1) r,
      )

  pub user_login-IsValid :
      (fd : ℕ) (value : Bytes) (s : Server m f)
      → AreValid s
      → Holds AreValid (user_login m f fd value s)
  unfolding user_login login_packet login_password IsValid AreValid
  user_login-IsValid fd value s (inl idle, r) =
      subst (λ o. Holds AreValid (login_packet m f fd value s o)) (sym (pending-Idle s.logins idle))
        (login_name-IsValid fd value s idle r)
  user_login-IsValid fd value s (inr (x, p), r) =
      subst (λ o. Holds AreValid (login_packet m f fd value s o))
        (sym (pending-Pending s.logins x p)) (login_stored-IsValid fd value _ x s _ p r)
