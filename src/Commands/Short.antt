-- ===== src/Commands/Short.antt =====
-- The other cases of `solve_command`, and the function itself.
use cloud_sys.Base.Int.{int_eq}
use cloud_sys.Base.{ℕ, ◌&&◌, [], Option, none, some, ◌==◌, if◌then◌else◌, length}
use cloud_sys.CString.{Bytes, text}
use cloud_sys.Database.{Mysql}
use cloud_sys.PathStack.{path_max}
use cloud_sys.Tlv.{Packet, tlv_unpack}
use cloud_sys.Cd.{success, dir_cd}
use cloud_sys.Dir.{dir_pwd, dir_mkdir, dir_rmdir, dir_ls, get_current_path}
use cloud_sys.File.{Files}
use cloud_sys.File.Remove.{file_remove}
use cloud_sys.Commands.{
  Server, Outside, TlvType, transfile, cd, ls, pwd, mkdir, rmdir, remove, fileinfo, userregister,
  userlogin, userquit, usercancel, puts, gets, response, chunk_data, type_of, response_size, reply,
  respond,
}
use cloud_sys.Commands.Login.{Ran, user_login, user_cancel}
use cloud_sys.Commands.Register.{user_register}

module _ (m : Mysql) (f : Files) where
  unfoldable pub do_ls : ℕ → Server m f → Ran m f
  do_ls fd s =
      if length s.current_username == 0
      then some (success, reply m f fd response (text "用户名未设置，无法列出目录内容") s)
      else (let (ret, out, d) =
            dir_ls m response_size s.current_username s.cwd.current_pwd_id s.db in
          respond m f fd ls ret out (record s { db = d }))

  unfoldable pub do_cd : Outside → ℕ → Bytes → Server m f → Ran m f
  do_cd o fd value s = elim (dir_cd m o.memory value response_size s.cwd s.db) [
    | none ↦ none
    | some r ↦
        let (ret, out, cwd, d) = r in respond m f fd cd ret out (record s { cwd = cwd; db = d })
  ]

  -- `response` starts empty.
  unfoldable pub do_pwd : ℕ → Server m f → Ran m f
  do_pwd fd s =
      let (ret, path, d) = dir_pwd m s.cwd.current_pwd_id s.db in
      respond m f fd pwd ret (elim path [ none ↦ [] | some p ↦ p ]) (record s { db = d })

  unfoldable pub do_mkdir : Outside → ℕ → Bytes → Server m f → Ran m f
  do_mkdir o fd value s =
      let (ret, out, d) =
        dir_mkdir m o.before s.current_username value s.cwd.current_pwd_id response_size s.db in
      respond m f fd mkdir ret out (record s { db = d })

  unfoldable pub do_rmdir : ℕ → Bytes → Server m f → Ran m f
  do_rmdir fd value s =
      let (ret, out, d) = dir_rmdir m value s.cwd.current_pwd_id response_size s.db in
      respond m f fd rmdir ret out (record s { db = d })

  -- The current path is looked up, but `file_remove` does not use it.
  unfoldable pub do_remove : Outside → ℕ → Bytes → Server m f → Ran m f
  do_remove o fd value s =
      let (found, path, d) = get_current_path m path_max s.cwd.current_pwd_id s.db in
      if int_eq found success
      then (let (ret, out, d', w) =
            file_remove f m o.freed s.current_username value response_size d s.fs in
          respond m f fd remove ret out (record s { db = d'; fs = w }))
      else some (success, reply m f fd response (text "获取当前路径失败") (record s { db = d }))

  -- The `switch` on the type.
  unfoldable pub run_command : Outside → ℕ → Bytes → Server m f → Option TlvType → Ran m f
  run_command o fd value s (some userlogin) = user_login m f fd value s
  run_command o fd value s (some userregister) = user_register m f o.draws fd value s
  run_command o fd value s (some usercancel) = user_cancel m f fd value s
  run_command o fd value s (some ls) = do_ls fd s
  run_command o fd value s (some cd) = do_cd o fd value s
  run_command o fd value s (some pwd) = do_pwd fd s
  run_command o fd value s (some mkdir) = do_mkdir o fd value s
  run_command o fd value s (some rmdir) = do_rmdir fd value s
  run_command o fd value s (some remove) = do_remove o fd value s
  run_command o fd value s (some transfile) = some (success, s)
  run_command o fd value s (some fileinfo) = some (success, s)
  run_command o fd value s (some userquit) = some (success, s)
  run_command o fd value s (some puts) = some (success, s)
  run_command o fd value s (some gets) = some (success, s)
  run_command o fd value s (some response) = some (success, s)
  run_command o fd value s (some chunk_data) = some (success, s)
  run_command o fd value s none = some (success, s)

  unfoldable pub solve_command : Outside → ℕ → Packet → Server m f → Ran m f
  unfolding run_command type_of
  solve_command o fd packet s = elim (tlv_unpack packet) [
    | none ↦ none
    | some r ↦
        let (type, len, value) = r in
        if (type == 0) && (len == 0)
        then some (success, s)
        else run_command o fd value s (type_of type)
  ]
