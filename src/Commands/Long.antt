-- ===== src/Commands/Long.antt =====
-- `long_solve_command` of server/long_solve_command.c, which a worker runs.
use cloud_sys.Base.Int.{ℤ, int_eq}
use cloud_sys.Base.{ℕ, List, [], ◌∷◌, Option, none, some, ◌==◌, if◌then◌else◌}
use cloud_sys.CString.{Bytes, text, c_str, strtok}
use cloud_sys.Database.{Mysql}
use cloud_sys.PathStack.{path_max, fresh}
use cloud_sys.Tlv.{Packet, tlv_unpack}
use cloud_sys.Cd.{success, failure_code}
use cloud_sys.Dir.{get_current_path}
use cloud_sys.File.{Files}
use cloud_sys.File.Puts.{file_puts}
use cloud_sys.File.Gets.{file_gets}
use cloud_sys.Commands.{Server, puts, gets, response, type_code, response_size, reply, respond}
use cloud_sys.Commands.Login.{Ran}

unfoldable pub user_root : Bytes
unfolding text
user_root = text "/home/xuewentao/project/test_dir/"

-- `current_pwd_id` has a copy for each thread. No code that a worker runs assigns it, so the copy of
-- a worker keeps its initial value.
abbrev pub worker_pwd_id : ℤ
worker_pwd_id = fresh.current_pwd_id

module _ (m : Mysql) (f : Files) where
  -- The directory of a command that needs one, or the answer that there is none.
  unfoldable pub with_path : ℕ → Server m f → (Bytes → Server m f → Ran m f) → Ran m f
  with_path sock s use_path =
      let (found, path, d) = get_current_path m path_max worker_pwd_id s.db in
      let s' = record s { db = d } in
      if int_eq found success
      then use_path path s'
      else some (success, reply m f sock response (text "获取当前路径失败") s')

  -- `send_tlv` sends the response up to its first NUL.
  unfoldable pub gets_at : ℕ → Bytes → Bytes → Server m f → Ran m f
  gets_at sock filename path s =
      let (ret, out, d, w) =
        file_gets f m s.current_username filename path user_root response_size s.db s.fs in
      respond m f sock gets ret (c_str out) (record s { db = d; fs = w })

  unfoldable pub puts_at : ℕ → Bytes → Bytes → Bytes → Server m f → Ran m f
  puts_at sock filename content path s =
      elim (file_puts f m s.current_username filename path content response_size s.db s.fs) [
        | none ↦ none
        | some r ↦
            let (ret, out, d, w) = r in
            respond m f sock puts ret (if int_eq ret success then text "文件上传成功" else out)
              (record s { db = d; fs = w })
      ]

  unfoldable pub do_gets : ℕ → Bytes → Server m f → Ran m f
  unfolding with_path gets_at
  do_gets sock value s = with_path sock s (gets_at sock value)

  -- The first two pieces between the bars are the name and the content.
  unfoldable pub do_puts : ℕ → List Bytes → Server m f → Ran m f
  unfolding with_path puts_at
  do_puts sock [] s = some (success, reply m f sock response (text "无效的上传请求") s)
  do_puts sock (filename ∷ []) s = some (success, reply m f sock response (text "无效的上传请求") s)
  do_puts sock (filename ∷ content ∷ rest) s = with_path sock s (puts_at sock filename content)

  -- The `switch` on the type, with the socket for the data.
  unfoldable pub run_long : ℕ → ℕ → Bytes → Server m f → Ran m f
  unfolding do_gets do_puts type_code
  run_long sock type value s =
      if type == type_code gets
      then do_gets sock value s
      else if type == type_code puts
      then do_puts sock (strtok b'|' value) s
      else some (success, reply m f sock response (text "无效命令") s)

  -- `data_sock` is what `tcp_init` gives: `none` for -1. It is a listening socket.
  unfoldable pub long_solve_command : Option ℕ → ℕ → Packet → Server m f → Ran m f
  unfolding run_long
  long_solve_command data_sock fd packet s = elim (tlv_unpack packet) [
    | none ↦ none
    | some r ↦ elim data_sock [
      | none ↦ some (failure_code, reply m f fd response (text "创建数据连接失败") s)
      | some sock ↦ run_long sock r.0 r.2 s
    ]
  ]
