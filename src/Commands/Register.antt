-- ===== src/Commands/Register.antt =====
-- TLV_TYPE_USERREGISTER of `solve_command`.
use cloud_sys.Base.Int.{ℤ, pos, int_eq}
use cloud_sys.Base.{ℕ, List, Option, none, some, ltb, ◌==◌, if◌then◌else◌, length, take, get_or}
use cloud_sys.CString.{Bytes, text}
use cloud_sys.Database.{Mysql}
use cloud_sys.Sessions.{no_session, pending, open_session, close_session, drop_session}
use cloud_sys.Cd.{success}
use cloud_sys.Users.{generate_salt, user_exists, insert_user}
use cloud_sys.File.{Files}
use cloud_sys.Commands.{Server, userregister, response, send, reply}
use cloud_sys.Commands.Login.{Ran, salt_packet}

module _ (m : Mysql) (f : Files) where
  -- A session was opened with the salt: the salt is sent. `made` is what `generate_salt` returned.
  unfoldable pub register_salt : ℕ → ℤ → Bytes → Server m f → Ran m f
  register_salt fd made salt s =
      if int_eq made success
      then (let (ret, s') = send m f fd userregister (salt_packet salt) s in
          if int_eq ret success
          then some (ret, s')
          else (let s'' = reply m f fd response (text "发送盐值失败") s' in
              some (ret, record s'' { registers = drop_session s''.registers })))
      else (let s' = reply m f fd response (text "生成盐值失败") s in
          some (success, record s' { registers = drop_session s'.registers }))

  -- The name is free. The salt has 25 bytes in the session.
  unfoldable pub register_open : List ℕ → ℕ → Bytes → Server m f → Ran m f
  unfolding register_salt
  register_open draws fd name s =
      let (made, salt) = generate_salt 25 draws in
      elim (open_session name salt s.registers) [
        | none ↦ some (success, reply m f fd response (text "服务器会话已满，请稍后再试") s)
        | some t ↦ register_salt fd made salt (record s { registers = t })
      ]

  -- The first packet: every code of `user_exists` but 0 is taken for an existing user.
  unfoldable pub register_name : List ℕ → ℕ → Bytes → Server m f → Ran m f
  unfolding register_open
  register_name draws fd value s =
      if ltb (length value) 50
      then (let (code, d) = user_exists m value s.db in
          let s' = record s { current_username = value; db = d } in
          if int_eq code (pos 0)
          then register_open draws fd value s'
          else some (success, reply m f fd response (text "用户名已存在") s'))
      else none

  -- The row of the user is inserted, and the answer sent.
  unfoldable pub register_insert : ℕ → Bytes → Bytes → Bytes → Server m f → Option (Server m f)
  register_insert fd name salt value s =
      if length salt == 0
      then some (reply m f fd response (text "无法获取盐值") s)
      else elim (insert_user m name salt value s.db) [
        | none ↦ none
        | some r ↦
            let s' = record s { db = r.1 } in
            some (
              if int_eq r.0 success
              then reply m f fd userregister (text "注册成功") s'
              else reply m f fd response (text "注册失败：数据库错误") s')
      ]

  -- The session at `i` ends.
  unfoldable pub end_register : ℕ → Server m f → Server m f
  end_register i s = record s { registers = close_session i s.registers }

  -- From what the insertion of the user gave.
  unfoldable pub register_end : ℕ → Option (Server m f) → Ran m f
  unfolding end_register
  register_end i none = none
  register_end i (some s) = some (success, end_register i s)

  -- The second packet: `value` is the encrypted password for the session at `i`.
  unfoldable pub register_password : ℕ → Bytes → ℕ → Server m f → Ran m f
  unfolding register_insert register_end
  register_password fd value i s =
      let x = get_or s.registers.slots i no_session in
      let name = take 49 x.username in
      register_end i (register_insert fd name x.salt value (record s { current_username = name }))

  -- One packet, given the session that awaits a password.
  unfoldable pub register_packet : List ℕ → ℕ → Bytes → Server m f → Option ℕ → Ran m f
  unfolding register_name register_password
  register_packet draws fd value s none = register_name draws fd value s
  register_packet draws fd value s (some i) = register_password fd value i s

  unfoldable pub user_register : List ℕ → ℕ → Bytes → Server m f → Ran m f
  unfolding register_packet
  user_register draws fd value s = register_packet draws fd value s (pending s.registers)
