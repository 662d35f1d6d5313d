-- ===== src/Commands/OneSession.antt =====
-- `solve_command` and the tables of sessions.
use cloud_sys.Base.Int.{ℤ, pos, int_eq}
use cloud_sys.Base.{
  ℕ, ◌≡◌, subst, inl, inr, Option, none, some, arith, length, take, Bool-cases, Option-cases, ◌==◌,
  ◌&&◌,
}
use cloud_sys.CString.{Bytes}
use cloud_sys.Database.{Mysql}
use cloud_sys.PathStack.{path_max}
use cloud_sys.Cd.{dir_cd}
use cloud_sys.Dir.{get_current_path}
use cloud_sys.Tlv.{Packet, tlv_unpack}
use cloud_sys.Commands.Short.{
  do_ls, do_cd, do_pwd, do_mkdir, do_rmdir, do_remove, run_command, solve_command,
}
use cloud_sys.Users.{delete_user}
use cloud_sys.File.{Files}
use cloud_sys.Commands.{
  Server, Outside, TlvType, type_of, transfile, cd, ls, pwd, mkdir, rmdir, remove, fileinfo,
  userregister, userlogin, userquit, usercancel, puts, gets, response, chunk_data, response_size,
  send, reply, respond,
}
use cloud_sys.Commands.Login.{Ran, user_cancel}
use cloud_sys.Commands.Keeps.{Holds, AreValid, Holds-if}
use cloud_sys.Commands.LoginKeeps.{user_login-IsValid}
use cloud_sys.Commands.RegisterKeeps.{user_register-IsValid}

module _ (m : Mysql) (f : Files) where
  user_cancel-IsValid :
      (fd : ℕ) (value : Bytes) (s : Server m f)
      → AreValid s
      → Holds AreValid (user_cancel m f fd value s)
  unfolding user_cancel reply send AreValid
  user_cancel-IsValid fd value s h = elim (Option-cases (delete_user m (take 49 value) s.db)) [
    | inl z ↦ rw (user_cancel, z) tt
    | inr ((code, d), z) ↦ elim (Bool-cases (int_eq code (pos 0))) [
      | inl e ↦ rw (user_cancel, z, e) h
      | inr e ↦ rw (user_cancel, z, e) h
    ]
  ]

  do_ls-IsValid : (fd : ℕ) (s : Server m f) → AreValid s → Holds AreValid (do_ls m f fd s)
  unfolding do_ls respond reply send AreValid
  do_ls-IsValid fd s h = Holds-if m f (length s.current_username == 0) _ _ h h

  do_cd-IsValid :
      (o : Outside) (fd : ℕ) (value : Bytes) (s : Server m f)
      → AreValid s
      → Holds AreValid (do_cd m f o fd value s)
  unfolding do_cd respond reply send AreValid
  do_cd-IsValid o fd value s h =
      elim (Option-cases (dir_cd m o.memory value response_size s.cwd s.db)) [
        | inl z ↦ rw (do_cd, z) tt
        | inr (r, z) ↦ rw (do_cd, z) h
      ]

  do_remove-IsValid :
      (o : Outside) (fd : ℕ) (value : Bytes) (s : Server m f)
      → AreValid s
      → Holds AreValid (do_remove m f o fd value s)
  unfolding do_remove respond reply send AreValid
  do_remove-IsValid o fd value s h =
      Holds-if m f (int_eq (get_current_path m path_max s.cwd.current_pwd_id s.db).0 (pos 0)) _ _ h
        h

  run_command-IsValid :
      (o : Outside) (fd : ℕ) (value : Bytes) (s : Server m f) (type : Option TlvType)
      → AreValid s
      → Holds AreValid (run_command m f o fd value s type)
  unfolding run_command do_pwd do_mkdir do_rmdir respond reply send AreValid
  run_command-IsValid o fd value s (some transfile) h = h
  run_command-IsValid o fd value s (some cd) h = do_cd-IsValid o fd value s h
  run_command-IsValid o fd value s (some ls) h = do_ls-IsValid fd s h
  run_command-IsValid o fd value s (some pwd) h = h
  run_command-IsValid o fd value s (some mkdir) h = h
  run_command-IsValid o fd value s (some rmdir) h = h
  run_command-IsValid o fd value s (some remove) h = do_remove-IsValid o fd value s h
  run_command-IsValid o fd value s (some fileinfo) h = h
  run_command-IsValid o fd value s (some userregister) h =
      user_register-IsValid m f o.draws fd value s h
  run_command-IsValid o fd value s (some userlogin) h = user_login-IsValid m f fd value s h
  run_command-IsValid o fd value s (some userquit) h = h
  run_command-IsValid o fd value s (some usercancel) h = user_cancel-IsValid fd value s h
  run_command-IsValid o fd value s (some puts) h = h
  run_command-IsValid o fd value s (some gets) h = h
  run_command-IsValid o fd value s (some response) h = h
  run_command-IsValid o fd value s (some chunk_data) h = h
  run_command-IsValid o fd value s none h = h

  Holds-returned :
      (r : Ran m f) (ret : ℤ) (t : Server m f) → Holds AreValid r → r ≡ some (ret, t) → AreValid t
  Holds-returned none ret t h e = absurd (ground arith)
  Holds-returned (some r) ret t h e = subst (λ o. Holds AreValid o) e h

  -- Each call of `solve_command` that returns keeps both tables of sessions valid: ten slots, and
  -- either no session, or one that awaits a password.
  pub solve_command-IsValid :
      (o : Outside) (fd : ℕ) (packet : Packet) (s t : Server m f) (ret : ℤ)
      → AreValid s
      → solve_command m f o fd packet s ≡ some (ret, t)
      → AreValid t
  unfolding solve_command
  solve_command-IsValid o fd packet s t ret h =
      Holds-returned _ ret t (elim (Option-cases (tlv_unpack packet)) [
        | inl z ↦ rw (solve_command, z) tt
        | inr ((type, len, value), z) ↦
            rw (solve_command, z)
              (Holds-if m f ((type == 0) && (len == 0)) (some (pos 0, s)) _ h
                (run_command-IsValid o fd value s (type_of type) h))
      ])
