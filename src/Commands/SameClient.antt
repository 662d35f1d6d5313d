-- ===== src/Commands/SameClient.antt =====
-- `solve_command` and the slot of its client.
use cloud_sys.Base.Int.{ℤ, pos, int_eq}
use cloud_sys.Base.{
  ℕ, ◌≡◌, subst, inl, inr, List, [], Option, none, some, length, take, arith, Bool-cases,
  Option-cases, ltb, ◌==◌, ◌&&◌, Bool, true, false, if◌then◌else◌,
}
use cloud_sys.CString.{Bytes, bytes_eq}
use cloud_sys.Database.{Mysql}
use cloud_sys.PathStack.{path_max}
use cloud_sys.Clients.{ClientState}
use cloud_sys.Clients.Same.{Same}
use cloud_sys.Sessions.{open_session, pending}
use cloud_sys.Cd.{dir_cd}
use cloud_sys.Dir.{get_current_path}
use cloud_sys.Tlv.{Packet, tlv_unpack}
use cloud_sys.Commands.Short.{
  do_ls, do_cd, do_pwd, do_mkdir, do_rmdir, do_remove, run_command, solve_command,
}
use cloud_sys.Users.{delete_user, get_salt, insert_user, user_exists, generate_salt}
use cloud_sys.File.{Files}
use cloud_sys.Commands.{
  Server, Outside, TlvType, type_of, transfile, cd, ls, pwd, mkdir, rmdir, remove, fileinfo,
  userregister, userlogin, userquit, usercancel, puts, gets, response, chunk_data, response_size,
  send, reply, respond,
}
use cloud_sys.Commands.Login.{
  Ran, user_login, user_cancel, login_packet, login_name, login_open, login_password, login_stored,
  login_check, end_login, log_in,
}
use cloud_sys.Commands.Register.{
  user_register, register_packet, register_name, register_open, register_salt, register_password,
  register_insert, register_end, end_register,
}

module _ (m : Mysql) (f : Files) (c : ClientState) where
  -- What a command that returns does with the slot.
  abbrev Kept : Ran m f → Type 0
  Kept none = Unit
  Kept (some r) = Same c r.1.client

  Kept-if : (b : Bool) (x y : Ran m f) → Kept x → Kept y → Kept (if b then x else y)
  Kept-if true x y p q = p
  Kept-if false x y p q = q

  login_open-Same :
      (fd : ℕ) (name salt : Bytes) (s : Server m f)
      → Same c s.client
      → Kept (login_open m f fd name salt s)
  unfolding login_open send reply
  login_open-Same fd name salt s h = elim (Option-cases (open_session name [] s.logins)) [
    | inl z ↦ rw (login_open, z) h
    | inr (t, z) ↦ rw (login_open, z) h
  ]

  login_name-Same :
      (fd : ℕ) (value : Bytes) (s : Server m f) → Same c s.client → Kept (login_name m f fd value s)
  unfolding login_name reply send
  login_name-Same fd value s h = elim (Bool-cases (ltb (length value) 50)) [
    | inr e ↦ rw (login_name, e) tt
    | inl e ↦ elim (Option-cases (get_salt m value s.db)) [
      | inl z ↦ rw (login_name, e, z) tt
      | inr ((none, d), z) ↦ rw (login_name, e, z) h
      | inr ((some salt, d), z) ↦
          rw (login_name, e, z)
            (login_open-Same fd value salt (record s { current_username = value; db = d }) h)
    ]
  ]

  login_stored-Same :
      (fd : ℕ) (value : Bytes) (i : ℕ) (s : Server m f) (name : Bytes)
      → (found : Option (Option Bytes × m.Db)) → Same c s.client
      → Kept (login_stored m f fd value i s name found)
  unfolding login_stored login_check end_login reply send log_in
  login_stored-Same fd value i s name none h = tt
  login_stored-Same fd value i s name (some (none, d)) h = h
  login_stored-Same fd value i s name (some (some hash, d)) h =
      elim (Bool-cases (bytes_eq value hash)) [ inl e ↦ rw e h | inr e ↦ rw e h ]

  user_login-Same :
      (fd : ℕ) (value : Bytes) (s : Server m f) → Same c s.client → Kept (user_login m f fd value s)
  unfolding user_login login_packet login_password
  user_login-Same fd value s h = packet (pending s.logins)
    where
      packet : (o : Option ℕ) → Kept (login_packet m f fd value s o)
      packet none = login_name-Same fd value s h
      packet (some i) = login_stored-Same fd value i s _ _ h

  register_open-Same :
      (draws : List ℕ) (fd : ℕ) (name : Bytes) (s : Server m f)
      → Same c s.client
      → Kept (register_open m f draws fd name s)
  unfolding register_open register_salt send reply
  register_open-Same draws fd name s h =
      elim (Option-cases (open_session name (generate_salt 25 draws).1 s.registers)) [
        | inl z ↦ rw (register_open, z) h
        | inr (t, z) ↦
            rw (register_open, z) (Kept-if (int_eq (generate_salt 25 draws).0 (pos 0)) _ _ h h)
      ]

  register_name-Same :
      (draws : List ℕ) (fd : ℕ) (value : Bytes) (s : Server m f)
      → Same c s.client
      → Kept (register_name m f draws fd value s)
  unfolding register_name reply send
  register_name-Same draws fd value s h =
      let (code, d) = user_exists m value s.db in
      let s' = record s { current_username = value; db = d } in
      Kept-if (ltb (length value) 50) _ none
        (Kept-if (int_eq code (pos 0)) _ _ (register_open-Same draws fd value s' h) h) tt

  register_insert-Same :
      (fd i : ℕ) (name salt value : Bytes) (s : Server m f)
      → Same c s.client
      → Kept (register_end m f i (register_insert m f fd name salt value s))
  unfolding register_end end_register register_insert reply send
  register_insert-Same fd i name salt value s h = elim (Bool-cases (length salt == 0)) [
    | inl e ↦ rw e h
    | inr e ↦ elim (Option-cases (insert_user m name salt value s.db)) [
      | inl z ↦ rw (e, z) tt
      | inr ((code, d), z) ↦ elim (Bool-cases (int_eq code (pos 0))) [
        | inl g ↦ rw (e, z, g) h
        | inr g ↦ rw (e, z, g) h
      ]
    ]
  ]

  user_register-Same :
      (draws : List ℕ) (fd : ℕ) (value : Bytes) (s : Server m f)
      → Same c s.client
      → Kept (user_register m f draws fd value s)
  unfolding user_register register_packet register_password
  user_register-Same draws fd value s h = packet (pending s.registers)
    where
      packet : (o : Option ℕ) → Kept (register_packet m f draws fd value s o)
      packet none = register_name-Same draws fd value s h
      packet (some i) = register_insert-Same fd i _ _ value _ h

  user_cancel-Same :
      (fd : ℕ) (value : Bytes) (s : Server m f)
      → Same c s.client
      → Kept (user_cancel m f fd value s)
  unfolding user_cancel reply send
  user_cancel-Same fd value s h = elim (Option-cases (delete_user m (take 49 value) s.db)) [
    | inl z ↦ rw (user_cancel, z) tt
    | inr ((code, d), z) ↦ elim (Bool-cases (int_eq code (pos 0))) [
      | inl e ↦ rw (user_cancel, z, e) h
      | inr e ↦ rw (user_cancel, z, e) h
    ]
  ]

  do_cd-Same :
      (o : Outside) (fd : ℕ) (value : Bytes) (s : Server m f)
      → Same c s.client
      → Kept (do_cd m f o fd value s)
  unfolding do_cd respond reply send
  do_cd-Same o fd value s h =
      elim (Option-cases (dir_cd m o.memory value response_size s.cwd s.db)) [
        | inl z ↦ rw (do_cd, z) tt
        | inr (r, z) ↦ rw (do_cd, z) h
      ]

  run_command-Same :
      (o : Outside) (fd : ℕ) (value : Bytes) (s : Server m f) (type : Option TlvType)
      → Same c s.client
      → Kept (run_command m f o fd value s type)
  unfolding run_command do_ls do_pwd do_mkdir do_rmdir do_remove respond reply send
  run_command-Same o fd value s (some transfile) h = h
  run_command-Same o fd value s (some cd) h = do_cd-Same o fd value s h
  run_command-Same o fd value s (some ls) h = Kept-if (length s.current_username == 0) _ _ h h
  run_command-Same o fd value s (some pwd) h = h
  run_command-Same o fd value s (some mkdir) h = h
  run_command-Same o fd value s (some rmdir) h = h
  run_command-Same o fd value s (some remove) h =
      Kept-if (int_eq (get_current_path m path_max s.cwd.current_pwd_id s.db).0 (pos 0)) _ _ h h
  run_command-Same o fd value s (some fileinfo) h = h
  run_command-Same o fd value s (some userregister) h = user_register-Same o.draws fd value s h
  run_command-Same o fd value s (some userlogin) h = user_login-Same fd value s h
  run_command-Same o fd value s (some userquit) h = h
  run_command-Same o fd value s (some usercancel) h = user_cancel-Same fd value s h
  run_command-Same o fd value s (some puts) h = h
  run_command-Same o fd value s (some gets) h = h
  run_command-Same o fd value s (some response) h = h
  run_command-Same o fd value s (some chunk_data) h = h
  run_command-Same o fd value s none h = h

  solve_command-Kept :
      (o : Outside) (fd : ℕ) (packet : Packet) (s : Server m f)
      → Same c s.client
      → Kept (solve_command m f o fd packet s)
  unfolding solve_command
  solve_command-Kept o fd packet s h = elim (Option-cases (tlv_unpack packet)) [
    | inl z ↦ rw (solve_command, z) tt
    | inr ((type, len, value), z) ↦
        rw (solve_command, z)
          (Kept-if ((type == 0) && (len == 0)) (some (pos 0, s)) _ h
            (run_command-Same o fd value s (type_of type) h))
  ]

  Kept-returned :
      (r : Ran m f) (ret : ℤ) (t : Server m f) → Kept r → r ≡ some (ret, t) → Same c t.client
  Kept-returned none ret t h e = absurd (ground arith)
  Kept-returned (some r) ret t h e = subst (λ o. Kept o) e h

  -- A command that returns leaves the slot in use by its descriptor, or free.
  pub solve_command-Same :
      (o : Outside) (fd : ℕ) (packet : Packet) (s t : Server m f) (ret : ℤ)
      → Same c s.client
      → solve_command m f o fd packet s ≡ some (ret, t)
      → Same c t.client
  solve_command-Same o fd packet s t ret h =
      Kept-returned _ ret t (solve_command-Kept o fd packet s h)
