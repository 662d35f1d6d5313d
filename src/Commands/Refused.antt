-- ===== src/Commands/Refused.antt =====
-- Names that a login or a registration cannot take.
use cloud_sys.Base.{
  ℕ, ◌<◌, ◌≤◌, ◌≡◌, refl, ap, ◌∙◌, false, List, none, some, length, lt→ltb, le→ltb,
}
use cloud_sys.CString.{Bytes, text}
use cloud_sys.Database.{Mysql}
use cloud_sys.Sessions.Valid.{IsIdle, pending-Idle}
use cloud_sys.Cd.{success}
use cloud_sys.Users.{user_exists}
use cloud_sys.File.{Files}
use cloud_sys.Commands.{Server, response, reply}
use cloud_sys.Commands.Login.{user_login, login_packet, login_name}
use cloud_sys.Commands.Register.{user_register, register_packet, register_name}

module _ (m : Mysql) (f : Files) where
  -- Where no session is open, a name of 50 bytes or more in a USERLOGIN or a USERREGISTER packet is
  -- written past the end of `current_username[50]`.
  pub name-overflow :
      (draws : List ℕ) (fd : ℕ) (name : Bytes) (s : Server m f)
      → 50 ≤ length name
      → IsIdle s.logins
      → IsIdle s.registers
      → (user_login m f fd name s ≡ none) × (user_register m f draws fd name s ≡ none)
  unfolding user_login login_packet login_name user_register register_packet register_name
  name-overflow draws fd name s long idle idle' = (
    ap (login_packet m f fd name s) (pending-Idle s.logins idle)
        ∙ rw (login_name, le→ltb (length name) 50 long) refl,
    ap (register_packet m f draws fd name s) (pending-Idle s.registers idle')
        ∙ rw (register_name, le→ltb (length name) 50 long) refl,
  )

  -- Where no registration is open and the connection to the database is down, a registration is
  -- answered with "用户名已存在" (the name exists already), whether it does or not.
  pub user_register-db_down :
      (draws : List ℕ) (fd : ℕ) (name : Bytes) (s : Server m f)
      → IsIdle s.registers
      → length name < 50
      → m.ping s.db ≡ false
      → user_register m f draws fd name s
        ≡ some
            (success, reply m f fd response (text "用户名已存在") (record s { current_username = name }))
  unfolding user_register register_packet register_name user_exists
  user_register-db_down draws fd name s idle short down =
      ap (register_packet m f draws fd name s) (pending-Idle s.registers idle)
      ∙ rw (register_name, lt→ltb (length name) 50 short, user_exists, down) refl
