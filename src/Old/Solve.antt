-- ===== src/Old/Solve.antt =====
-- `solve_command` of server/old_solve_command.c.
use cloud_sys.Base.Int.{pos}
use cloud_sys.Base.{ℕ, ◌&&◌, Option, none, some, ◌==◌, if◌then◌else◌, take, get_or}
use cloud_sys.CString.{Bytes, text, bytes_eq}
use cloud_sys.Database.{Mysql}
use cloud_sys.PathStack.{Cwd, stack_init}
use cloud_sys.Sessions.{no_session, pending}
use cloud_sys.Cd.{success}
use cloud_sys.Dir.{dir_ls}
use cloud_sys.Users.{get_encrypted_password}
use cloud_sys.File.{Files}
use cloud_sys.Tlv.{Packet, tlv_unpack}
use cloud_sys.Commands.{
  Server, Outside, TlvType, transfile, cd, ls, pwd, mkdir, rmdir, remove, fileinfo, userregister,
  userlogin, userquit, usercancel, puts, gets, response, chunk_data, type_of, response_size, reply,
  respond,
}
use cloud_sys.Commands.Login.{Ran, login_name, end_login, user_cancel}
use cloud_sys.Commands.Register.{user_register}
use cloud_sys.Commands.Short.{do_cd, do_pwd, do_mkdir, do_rmdir}

-- The directory of the thread after a login: the root has the id 0.
unfoldable pub login_cwd : Cwd → Cwd
login_cwd c = (stack_init (record c { current_pwd_id = pos 0 })).1

module _ (m : Mysql) (f : Files) where
  -- The answer to the second packet; the slot of the client is not known.
  unfoldable pub login_check : ℕ → Bytes → Option Bytes → Server m f → Server m f
  unfolding login_cwd text
  login_check fd value none s = reply m f fd response (text "用户不存在") s
  login_check fd value (some stored_hash) s =
      if bytes_eq value stored_hash
      then (let s' = reply m f fd userlogin (text "登录成功") s in record s' { cwd = login_cwd s'.cwd })
      else reply m f fd response (text "登录失败：密码错误") s

  unfoldable pub login_stored :
      ℕ → Bytes → ℕ → Server m f → Bytes → Option (Option Bytes × m.Db) → Ran m f
  unfolding login_check end_login
  login_stored fd value i s name none = none
  login_stored fd value i s name (some (stored, d)) = some (
    success,
    end_login m f i (login_check fd value stored (record s { current_username = name; db = d })),
  )

  unfoldable pub login_packet : ℕ → Bytes → Server m f → Option ℕ → Ran m f
  unfolding login_name login_stored
  login_packet fd value s none = login_name m f fd value s
  login_packet fd value s (some i) =
      let name = take 49 (get_or s.logins.slots i no_session).username in
      login_stored fd value i s name (get_encrypted_password m name s.db)

  unfoldable pub user_login : ℕ → Bytes → Server m f → Ran m f
  unfolding login_packet
  user_login fd value s = login_packet fd value s (pending s.logins)

  -- The name of the user is not looked at first.
  unfoldable pub do_ls : ℕ → Server m f → Ran m f
  do_ls fd s =
      let (ret, out, d) = dir_ls m response_size s.current_username s.cwd.current_pwd_id s.db in
      respond m f fd ls ret out (record s { db = d })

  unfoldable pub unknown : ℕ → Server m f → Ran m f
  unfolding text
  unknown fd s = some (success, reply m f fd response (text "无效命令") s)

  -- The `switch` on the type: every type without a case of its own is answered.
  unfoldable pub run_command : Outside → ℕ → Bytes → Server m f → Option TlvType → Ran m f
  unfolding user_login do_ls unknown
  run_command o fd value s (some userlogin) = user_login fd value s
  run_command o fd value s (some userregister) = user_register m f o.draws fd value s
  run_command o fd value s (some usercancel) = user_cancel m f fd value s
  run_command o fd value s (some ls) = do_ls fd s
  run_command o fd value s (some cd) = do_cd m f o fd value s
  run_command o fd value s (some pwd) = do_pwd m f fd s
  run_command o fd value s (some mkdir) = do_mkdir m f o fd value s
  run_command o fd value s (some rmdir) = do_rmdir m f fd value s
  run_command o fd value s (some remove) = unknown fd s
  run_command o fd value s (some transfile) = unknown fd s
  run_command o fd value s (some fileinfo) = unknown fd s
  run_command o fd value s (some userquit) = unknown fd s
  run_command o fd value s (some puts) = unknown fd s
  run_command o fd value s (some gets) = unknown fd s
  run_command o fd value s (some response) = unknown fd s
  run_command o fd value s (some chunk_data) = unknown fd s
  run_command o fd value s none = unknown fd s

  unfoldable pub solve_command : Outside → ℕ → Packet → Server m f → Ran m f
  unfolding run_command type_of
  solve_command o fd packet s = elim (tlv_unpack packet) [
    | none ↦ none
    | some r ↦
        let (type, len, value) = r in
        if (type == 0) && (len == 0)
        then some (success, s)
        else run_command o fd value s (type_of type)
  ]
