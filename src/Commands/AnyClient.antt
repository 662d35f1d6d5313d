-- ===== src/Commands/AnyClient.antt =====
-- What `solve_command` does without the slot of its client.
use cloud_sys.Base.Int.{pos, int_eq}
use cloud_sys.Base.{
  ℕ, ◌≡◌, refl, inl, inr, Bool, true, false, List, [], Option, none, some, length, take, Bool-cases,
  Option-cases, ltb, ◌==◌, ◌&&◌, if◌then◌else◌,
}
use cloud_sys.CString.{Bytes, bytes_eq}
use cloud_sys.Database.{Mysql}
use cloud_sys.PathStack.{path_max}
use cloud_sys.Clients.{ClientState, no_client}
use cloud_sys.Sessions.{open_session, pending}
use cloud_sys.Cd.{dir_cd}
use cloud_sys.Dir.{get_current_path}
use cloud_sys.Tlv.{Packet, tlv_unpack}
use cloud_sys.Users.{delete_user, get_salt, insert_user, user_exists, generate_salt}
use cloud_sys.File.{Files}
use cloud_sys.Commands.{
  Server, Outside, TlvType, type_of, transfile, cd, ls, pwd, mkdir, rmdir, remove, fileinfo,
  userregister, userlogin, userquit, usercancel, puts, gets, response, chunk_data, response_size,
  send, reply, respond,
}
use cloud_sys.Commands.Login.{
  Ran, user_login, user_cancel, login_packet, login_name, login_open, login_password, login_stored,
  login_check, end_login,
}
use cloud_sys.Commands.Register.{
  user_register, register_packet, register_name, register_open, register_salt, register_password,
  register_insert, register_end, end_register,
}
use cloud_sys.Commands.Short.{
  do_ls, do_cd, do_pwd, do_mkdir, do_rmdir, do_remove, run_command, solve_command,
}

module _ (m : Mysql) (f : Files) where
  -- The result of a command, but for the slot of the client.
  unfoldable pub unseen : Ran m f → Ran m f
  unseen none = none
  unseen (some r) = some (r.0, record r.1 { client = no_client })

  module _ (c : ClientState) where
    -- The same state with another slot.
    abbrev seen : Server m f → Server m f
    seen s = record s { client = c }

    unseen-if :
        (b : Bool) (x x' y y' : Ran m f)
        → unseen x ≡ unseen x'
        → unseen y ≡ unseen y'
        → unseen (if b then x else y) ≡ unseen (if b then x' else y')
    unseen-if true x x' y y' p q = p
    unseen-if false x x' y y' p q = q

    login_open-unseen :
        (fd : ℕ) (name salt : Bytes) (s : Server m f)
        → unseen (login_open m f fd name salt (seen s)) ≡ unseen (login_open m f fd name salt s)
    unfolding login_open send reply unseen
    login_open-unseen fd name salt s = elim (Option-cases (open_session name [] s.logins)) [
      | inl z ↦ rw (login_open, z) refl
      | inr (t, z) ↦ rw (login_open, z) refl
    ]

    login_name-unseen :
        (fd : ℕ) (value : Bytes) (s : Server m f)
        → unseen (login_name m f fd value (seen s)) ≡ unseen (login_name m f fd value s)
    unfolding login_name reply send unseen
    login_name-unseen fd value s = elim (Bool-cases (ltb (length value) 50)) [
      | inr e ↦ rw (login_name, e) refl
      | inl e ↦ elim (Option-cases (get_salt m value s.db)) [
        | inl z ↦ rw (login_name, e, z) refl
        | inr ((none, d), z) ↦ rw (login_name, e, z) refl
        | inr ((some salt, d), z) ↦
            rw (login_name, e, z)
              (login_open-unseen fd value salt (record s { current_username = value; db = d }))
      ]
    ]

    login_stored-unseen :
        (fd : ℕ) (value : Bytes) (i : ℕ) (s : Server m f) (name : Bytes)
        (found : Option (Option Bytes × m.Db))
        → unseen (login_stored m f fd value i (seen s) name found)
          ≡ unseen (login_stored m f fd value i s name found)
    unfolding login_stored login_check end_login reply send unseen
    login_stored-unseen fd value i s name none = refl
    login_stored-unseen fd value i s name (some (none, d)) = refl
    login_stored-unseen fd value i s name (some (some hash, d)) =
        elim (Bool-cases (bytes_eq value hash)) [ inl e ↦ rw e refl | inr e ↦ rw e refl ]

    user_login-unseen :
        (fd : ℕ) (value : Bytes) (s : Server m f)
        → unseen (user_login m f fd value (seen s)) ≡ unseen (user_login m f fd value s)
    unfolding user_login login_packet login_password
    user_login-unseen fd value s = packet (pending s.logins)
      where
        packet :
            (o : Option ℕ)
            → unseen (login_packet m f fd value (seen s) o) ≡ unseen (login_packet m f fd value s o)
        packet none = login_name-unseen fd value s
        packet (some i) = login_stored-unseen fd value i s _ _

    register_open-unseen :
        (draws : List ℕ) (fd : ℕ) (name : Bytes) (s : Server m f)
        → unseen (register_open m f draws fd name (seen s))
          ≡ unseen (register_open m f draws fd name s)
    unfolding register_open register_salt send reply unseen
    register_open-unseen draws fd name s =
        elim (Option-cases (open_session name (generate_salt 25 draws).1 s.registers)) [
          | inl z ↦ rw (register_open, z) refl
          | inr (t, z) ↦
              rw (register_open, z)
                (unseen-if (int_eq (generate_salt 25 draws).0 (pos 0)) _ _ _ _ refl refl)
        ]

    register_name-unseen :
        (draws : List ℕ) (fd : ℕ) (value : Bytes) (s : Server m f)
        → unseen (register_name m f draws fd value (seen s))
          ≡ unseen (register_name m f draws fd value s)
    unfolding register_name reply send unseen
    register_name-unseen draws fd value s =
        let (code, d) = user_exists m value s.db in
        let s' = record s { current_username = value; db = d } in
        unseen-if (ltb (length value) 50) _ _ none none
          (unseen-if (int_eq code (pos 0)) _ _ _ _ (register_open-unseen draws fd value s') refl)
          refl

    register_insert-unseen :
        (fd i : ℕ) (name salt value : Bytes) (s : Server m f)
        → unseen (register_end m f i (register_insert m f fd name salt value (seen s)))
          ≡ unseen (register_end m f i (register_insert m f fd name salt value s))
    unfolding register_end end_register register_insert reply send unseen
    register_insert-unseen fd i name salt value s = elim (Bool-cases (length salt == 0)) [
      | inl e ↦ rw e refl
      | inr e ↦ elim (Option-cases (insert_user m name salt value s.db)) [
        | inl z ↦ rw (e, z) refl
        | inr ((code, d), z) ↦ elim (Bool-cases (int_eq code (pos 0))) [
          | inl g ↦ rw (e, z, g) refl
          | inr g ↦ rw (e, z, g) refl
        ]
      ]
    ]

    user_register-unseen :
        (draws : List ℕ) (fd : ℕ) (value : Bytes) (s : Server m f)
        → unseen (user_register m f draws fd value (seen s))
          ≡ unseen (user_register m f draws fd value s)
    unfolding user_register register_packet register_password
    user_register-unseen draws fd value s = packet (pending s.registers)
      where
        packet :
            (o : Option ℕ)
            → unseen (register_packet m f draws fd value (seen s) o)
              ≡ unseen (register_packet m f draws fd value s o)
        packet none = register_name-unseen draws fd value s
        packet (some i) = register_insert-unseen fd i _ _ value _

    user_cancel-unseen :
        (fd : ℕ) (value : Bytes) (s : Server m f)
        → unseen (user_cancel m f fd value (seen s)) ≡ unseen (user_cancel m f fd value s)
    unfolding user_cancel reply send unseen
    user_cancel-unseen fd value s = elim (Option-cases (delete_user m (take 49 value) s.db)) [
      | inl z ↦ rw (user_cancel, z) refl
      | inr ((code, d), z) ↦ elim (Bool-cases (int_eq code (pos 0))) [
        | inl e ↦ rw (user_cancel, z, e) refl
        | inr e ↦ rw (user_cancel, z, e) refl
      ]
    ]

    do_cd-unseen :
        (o : Outside) (fd : ℕ) (value : Bytes) (s : Server m f)
        → unseen (do_cd m f o fd value (seen s)) ≡ unseen (do_cd m f o fd value s)
    unfolding do_cd respond reply send unseen
    do_cd-unseen o fd value s =
        elim (Option-cases (dir_cd m o.memory value response_size s.cwd s.db)) [
          | inl z ↦ rw (do_cd, z) refl
          | inr (r, z) ↦ rw (do_cd, z) refl
        ]

    run_command-unseen :
        (o : Outside) (fd : ℕ) (value : Bytes) (s : Server m f) (type : Option TlvType)
        → unseen (run_command m f o fd value (seen s) type)
          ≡ unseen (run_command m f o fd value s type)
    unfolding run_command do_ls do_pwd do_mkdir do_rmdir do_remove respond reply send unseen
    run_command-unseen o fd value s (some transfile) = refl
    run_command-unseen o fd value s (some cd) = do_cd-unseen o fd value s
    run_command-unseen o fd value s (some ls) =
        unseen-if (length s.current_username == 0) _ _ _ _ refl refl
    run_command-unseen o fd value s (some pwd) = refl
    run_command-unseen o fd value s (some mkdir) = refl
    run_command-unseen o fd value s (some rmdir) = refl
    run_command-unseen o fd value s (some remove) =
        unseen-if (int_eq (get_current_path m path_max s.cwd.current_pwd_id s.db).0 (pos 0)) _ _ _ _
          refl refl
    run_command-unseen o fd value s (some fileinfo) = refl
    run_command-unseen o fd value s (some userregister) = user_register-unseen o.draws fd value s
    run_command-unseen o fd value s (some userlogin) = user_login-unseen fd value s
    run_command-unseen o fd value s (some userquit) = refl
    run_command-unseen o fd value s (some usercancel) = user_cancel-unseen fd value s
    run_command-unseen o fd value s (some puts) = refl
    run_command-unseen o fd value s (some gets) = refl
    run_command-unseen o fd value s (some response) = refl
    run_command-unseen o fd value s (some chunk_data) = refl
    run_command-unseen o fd value s none = refl

    -- Whatever is in the slot of the client that a packet comes from, `solve_command` returns the
    -- same value, sends the same answers, and leaves the same directory, user name, tables of sessions,
    -- database and files: a client that has not logged in is served like one that has.
    pub solve_command-unseen :
        (o : Outside) (fd : ℕ) (packet : Packet) (s : Server m f)
        → unseen (solve_command m f o fd packet (seen s)) ≡ unseen (solve_command m f o fd packet s)
    unfolding solve_command unseen
    solve_command-unseen o fd packet s = elim (Option-cases (tlv_unpack packet)) [
      | inl z ↦ rw (solve_command, z) refl
      | inr ((type, len, value), z) ↦
          rw (solve_command, z)
            (unseen-if ((type == 0) && (len == 0)) _ _ _ _ refl
              (run_command-unseen o fd value s (type_of type)))
    ]
