-- ===== src/Commands/Login.antt =====
-- TLV_TYPE_USERLOGIN and TLV_TYPE_USERCANCEL of `solve_command`.
use cloud_sys.Base.Int.{ℤ, pos, int_eq}
use cloud_sys.Base.{ℕ, true, [], ◌++◌, Option, none, some, ltb, if◌then◌else◌, length, take, get_or}
use cloud_sys.CString.{Bytes, text, bytes_eq}
use cloud_sys.Database.{Mysql}
use cloud_sys.PathStack.{Cwd, stack_init}
use cloud_sys.Clients.{ClientState}
use cloud_sys.Sessions.{no_session, pending, open_session, close_session, drop_session}
use cloud_sys.Cd.{snprintf, success}
use cloud_sys.Users.{get_salt, get_encrypted_password, delete_user}
use cloud_sys.File.{Files}
use cloud_sys.Commands.{Server, userlogin, usercancel, response, send, reply}

-- The state of a client that has logged in.
unfoldable pub log_in : ClientState → ClientState
log_in c = record c { username = take 49 c.username; logged_in = true; current_pwd_id = pos 1 }

-- The directory of the thread after a login: the stack is initialised twice.
unfoldable pub login_cwd : Cwd → Cwd
login_cwd c = (stack_init (stack_init (record c { current_pwd_id = pos 1 })).1).1

unfoldable pub salt_packet : Bytes → Bytes
unfolding text
salt_packet salt = snprintf 40 (text "$6$" ++ salt)

module _ (m : Mysql) (f : Files) where
  -- A result: the return value, and the state. `none` is a write outside an array.
  abbrev pub Ran : Type 0
  Ran = Option (ℤ × Server m f)

  -- A salt was found: a session is opened, and the salt sent.
  unfoldable pub login_open : ℕ → Bytes → Bytes → Server m f → Ran
  unfolding salt_packet
  login_open fd name salt s = elim (open_session name [] s.logins) [
    | none ↦ some (success, reply m f fd response (text "服务器会话已满，请稍后再试") s)
    | some t ↦
        let (ret, s') = send m f fd userlogin (salt_packet salt) (record s { logins = t }) in
        if int_eq ret success
        then some (ret, s')
        else (let s'' = reply m f fd response (text "发送盐值失败") s' in
            some (ret, record s'' { logins = drop_session s''.logins }))
  ]

  -- The first packet: `value` is a name, copied into `current_username[50]`.
  unfoldable pub login_name : ℕ → Bytes → Server m f → Ran
  unfolding login_open
  login_name fd value s =
      if ltb (length value) 50
      then elim (get_salt m value s.db) [
        | none ↦ none
        | some r ↦
            let (found, d) = r in
            let s' = record s { current_username = value; db = d } in
            elim found [
              | none ↦ some (success, reply m f fd response (text "用户不存在") s')
              | some salt ↦ login_open fd value salt s'
            ]
      ]
      else none

  -- The answer to the second packet, given the stored password.
  unfoldable pub login_check : ℕ → Bytes → Option Bytes → Server m f → Server m f
  unfolding log_in login_cwd
  login_check fd value none s = reply m f fd response (text "用户不存在") s
  login_check fd value (some stored_hash) s =
      if bytes_eq value stored_hash
      then (let s' = reply m f fd userlogin (text "登录成功") s in
          record s' { cwd = login_cwd s'.cwd; client = log_in s'.client })
      else reply m f fd response (text "登录失败：密码错误") s

  -- The session at `i` ends.
  unfoldable pub end_login : ℕ → Server m f → Server m f
  end_login i s = record s { logins = close_session i s.logins }

  -- `r` is what `get_encrypted_password` gave for the session's name.
  unfoldable pub login_stored :
      ℕ → Bytes → ℕ → Server m f → Bytes → Option (Option Bytes × m.Db) → Ran
  unfolding login_check end_login
  login_stored fd value i s name none = none
  login_stored fd value i s name (some (stored, d)) = some (
    success,
    end_login i (login_check fd value stored (record s { current_username = name; db = d })),
  )

  -- The second packet: `value` is the password for the session at `i`.
  unfoldable pub login_password : ℕ → Bytes → ℕ → Server m f → Ran
  unfolding login_stored
  login_password fd value i s =
      let name = take 49 (get_or s.logins.slots i no_session).username in
      login_stored fd value i s name (get_encrypted_password m name s.db)

  -- One packet, given the session that awaits a password.
  unfoldable pub login_packet : ℕ → Bytes → Server m f → Option ℕ → Ran
  unfolding login_name login_password
  login_packet fd value s none = login_name fd value s
  login_packet fd value s (some i) = login_password fd value i s

  unfoldable pub user_login : ℕ → Bytes → Server m f → Ran
  unfolding login_packet
  user_login fd value s = login_packet fd value s (pending s.logins)

  -- The session of the user goes on.
  unfoldable pub user_cancel : ℕ → Bytes → Server m f → Ran
  user_cancel fd value s = elim (delete_user m (take 49 value) s.db) [
    | none ↦ none
    | some r ↦
        let s' = record s { db = r.1 } in
        some (
          success,
          (if int_eq r.0 success
              then reply m f fd usercancel (text "注销成功") s'
              else reply m f fd response (text "注销失败：用户不存在或数据库错误") s'),
        )
  ]
