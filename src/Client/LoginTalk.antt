-- ===== src/Client/LoginTalk.antt =====
-- `handle_login` of client/client_logic.c against `solve_command` of server/solve_command.c.
use cloud_sys.Base.{
  ℕ, Bool, true, false, ◌<◌, ◌≡◌, refl, sym, ap, ◌∙◌, [], ◌∷◌, Option, some, arith, length, take,
  take_all, length-take, if◌then◌else◌, lt→ltb, ne→==,
}
use cloud_sys.CString.{Bytes, text, c_str, bytes_eq}
use cloud_sys.Database.{Mysql}
use cloud_sys.File.{Files}
use cloud_sys.PathStack.{root_path}
use cloud_sys.Sessions.Valid.{IsIdle, opened}
use cloud_sys.Cd.{success}
use cloud_sys.Users.{get_salt, get_encrypted_password}
use cloud_sys.Tlv.{Packet, char_size, packed}
use cloud_sys.Tlv.Faults.{HasNoNul, tlv_unpack-fits}
use cloud_sys.Commands.{Server, Outside, userlogin, type_code, type_of}
use cloud_sys.Commands.Login.{user_login, log_in, login_cwd, salt_packet}
use cloud_sys.Commands.LoginRound.{login_name-Pending, login_password-Idle, password_reply}
use cloud_sys.Commands.Short.{solve_command, run_command}
use cloud_sys.Client.{
  Ending, entered, refused, overflow, Dialogue, finish, ask, session, then_dialogue,
}
use cloud_sys.Client.Talk.{then_finish}
use cloud_sys.Client.Login.{end, handle_login, login_salted, login_answer, send_encrypted}
use cloud_sys.Client.Request.{whole, talk-whole}
use cloud_sys.Client.Talk.{ended, talk}

module _ (m : Mysql) (f : Files) (o : Outside) (fd : ℕ) where
  solve_command-login :
      (v : Bytes) (s : Server m f)
      → length v < char_size
      → HasNoNul v
      → solve_command m f o fd (whole (type_code userlogin) v) s ≡ user_login m f fd v s
  unfolding solve_command run_command type_of type_code
  solve_command-login v s short clean = rw (solve_command, tlv_unpack-fits 10 v short clean) refl

  -- A request of type USERLOGIN, and the answer.
  talk-login :
      (tlv : Packet) (v : Bytes) (k : ℕ → Packet → Dialogue) (s t : Server m f) (fd' type b : ℕ)
      (bs : Bytes)
      → length v < char_size
      → HasNoNul v
      → user_login m f fd v (record s { sent = [] }) ≡ some (success, t)
      → t.sent ≡ (fd', type, b ∷ bs) ∷ []
      → type < 4294967296
      → length (b ∷ bs) < char_size
      → talk m f o fd tlv [] (ask session userlogin v k) s
        ≡ talk m f o fd (whole type (b ∷ bs)) [] (k (length (b ∷ bs)) (whole type (b ∷ bs))) t
  talk-login tlv v k s t fd' type b bs short clean runs =
      talk-whole m f o fd userlogin tlv v k s t fd' type b bs success short
        (solve_command-login v (record s { sent = [] }) short clean ∙ runs)

  -- The setting that `crypt_r` is given.
  abbrev salted : Bytes → Bytes
  salted salt = b'$' ∷ b'6' ∷ b'$' ∷ take 36 salt

  salt_packet-salted : (salt : Bytes) → salt_packet salt ≡ salted salt
  unfolding salt_packet text
  salt_packet-salted salt = refl

  packed-salt_packet : (salt : Bytes) → packed (salt_packet salt) ≡ salted salt
  packed-salt_packet salt =
      ap packed (salt_packet-salted salt)
      ∙ ap (λ v. b'$' ∷ b'6' ∷ b'$' ∷ v)
          (take_all 4092 (take 36 salt) (omega (arith, length-take 36 salt)))

  -- The client reads the answer to the encrypted password, and goes on with `next`.
  answer-Right :
      (tlv : Packet) (v : Bytes) (s t : Server m f) (next : Bytes → Ending → Dialogue)
      → (crypt_r : Bytes → Bytes → Option Bytes) → length v < char_size
      → HasNoNul v
      → user_login m f fd v (record s { sent = [] }) ≡ some (success, t)
      → (right : Bool) → t.sent ≡ password_reply fd right ∷ []
      → (q : Packet) × (talk m f o fd tlv []
            (ask session userlogin v (λ ret p. then_dialogue (login_answer crypt_r ret p) next))
            s
          ≡ talk m f o fd q []
              (next root_path (if right then entered else refused (text "登录失败：密码错误")))
              t)
  unfolding password_reply text type_code c_str login_answer then_dialogue
  answer-Right tlv v s t next crypt_r short clean runs true sent = (
    _,
    talk-login tlv v (λ ret p. then_dialogue (login_answer crypt_r ret p) next) s t fd 10 _ _ short
        clean runs sent (omega arith) (omega arith),
  )
  answer-Right tlv v s t next crypt_r short clean runs false sent = (
    _,
    talk-login tlv v (λ ret p. then_dialogue (login_answer crypt_r ret p) next) s t fd 15 _ _ short
        clean runs sent (omega arith) (omega arith),
  )

  -- The client reads the salt, and the password is encrypted.
  salt_answer :
      (crypt_r : Bytes → Bytes → Option Bytes)
      → (password salt encrypted : Bytes) → length password < 100
      → crypt_r password (c_str (salt_packet salt)) ≡ some encrypted
      → login_salted crypt_r password (length (salted salt)) (whole 10 (salted salt))
        ≡ ask session userlogin encrypted (login_answer crypt_r)
  unfolding login_salted send_encrypted type_code
  salt_answer crypt_r password salt encrypted room crypted =
      rw (ne→== (length (salted salt)) 0 (omega arith), lt→ltb (length password) 100 room)
        (ap
            (λ v.
              send_encrypted crypt_r userlogin (login_answer crypt_r) (crypt_r password (c_str v)))
            (sym (salt_packet-salted salt))
          ∙ ap (send_encrypted crypt_r userlogin (login_answer crypt_r)) crypted)

  -- The name goes out, and the encrypted password is about to.
  talk-name :
      (tlv : Packet) (crypt_r : Bytes → Bytes → Option Bytes) (next : Bytes → Ending → Dialogue)
      → (name password salt encrypted : Bytes) (s t : Server m f) → length name < 50
      → HasNoNul name
      → user_login m f fd name (record s { sent = [] }) ≡ some (success, t)
      → t.sent ≡ (fd, 10, packed (salt_packet salt)) ∷ []
      → length password < 100
      → crypt_r password (c_str (salt_packet salt)) ≡ some encrypted
      → talk m f o fd tlv [] (then_dialogue (handle_login crypt_r name password) next) s
        ≡ talk m f o fd
            (whole 10 (salted salt))
            []
            (ask session userlogin encrypted
              (λ ret p. then_dialogue (login_answer crypt_r ret p) next))
            t
  unfolding handle_login then_dialogue
  talk-name tlv crypt_r next name password salt encrypted s t short clean runs sent room crypted =
      let k : ℕ → Packet → Dialogue =
        λ ret p. then_dialogue (login_salted crypt_r password ret p) next in
      ap
        (λ e.
          talk m f o fd tlv []
            (then_dialogue
              (if e
                then ask session userlogin name (login_salted crypt_r password)
                else end overflow)
              next)
            s)
        (lt→ltb (length name) 50 short)
      ∙ talk-login tlv name k s t fd 10 b'$' (b'6' ∷ b'$' ∷ take 36 salt) (omega arith) clean runs
          (sent ∙ ap (λ v. (fd, 10, v) ∷ []) (packed-salt_packet salt)) (omega arith)
          (omega (arith, length-take 36 salt))
      ∙ ap (λ e. talk m f o fd (whole 10 (salted salt)) [] (then_dialogue e next) t)
          (salt_answer crypt_r password salt encrypted room crypted)

module _ (m : Mysql) (f : Files) (o : Outside) (fd : ℕ) (tlv : Packet) (s : Server m f)
    (d d' : m.Db) (crypt_r : Bytes → Bytes → Option Bytes)
    (name password salt hash encrypted : Bytes) (idle : IsIdle s.logins) (short : length name < 50)
    (clean : HasNoNul name) (room : length password < 100)
    (salted_name : get_salt m name s.db ≡ some (some salt, d))
    (stored : get_encrypted_password m name d ≡ some (some hash, d'))
    (crypted : crypt_r password (c_str (salt_packet salt)) ≡ some encrypted)
    (short' : length encrypted < char_size) (clean' : HasNoNul encrypted) where
  -- How the login ends.
  abbrev pub verdict : Ending
  verdict = if bytes_eq encrypted hash then entered else refused (text "登录失败：密码错误")

  -- The server behind the login, and the dialogue `next` behind it.
  pub handle_login-Then :
      (next : Bytes → Ending → Dialogue)
      → (t : Server m f) × (q : Packet) × (talk m f o fd tlv []
            (then_dialogue (handle_login crypt_r name password) next)
            s
          ≡ talk m f o fd q [] (next root_path verdict) t)
        × (t.client ≡ (if bytes_eq encrypted hash then log_in s.client else s.client))
        × (t.cwd ≡ (if bytes_eq encrypted hash then login_cwd s.cwd else s.cwd))
        × IsIdle t.logins
        × (t.db ≡ d')
  unfolding opened type_code
  handle_login-Then next =
      let a =
        login_name-Pending m f fd name salt (record s { sent = [] }) d idle short salted_name in
      let once = take_all 49 name (omega (arith, short)) in
      let twice = ap (take 49) once ∙ once in
      let b =
        login_password-Idle m f fd encrypted hash (opened name []) (record a.0 { sent = [] }) d' a.2
          (ap (λ n. get_encrypted_password m n a.0.db) twice
            ∙ (ap (get_encrypted_password m name) a.5 ∙ stored)) in
      let right = bytes_eq encrypted hash in
      let (q, e) =
        answer-Right m f o fd (whole 10 (salted m f o fd salt)) encrypted a.0 b.0 next crypt_r
          short' clean' b.1 right b.6 in
      (
        b.0,
        q,
        talk-name m f o fd tlv crypt_r next name password salt encrypted s a.0 short clean a.1 a.6
              room crypted
            ∙ e,
        b.4 ∙ ap (λ c. if right then log_in c else c) a.3,
        b.5 ∙ ap (λ c. if right then login_cwd c else c) a.4,
        b.2,
        b.7,
      )

  -- At a server where no session is open, for a name that has a salt and a stored password there, and
  -- where `crypt_r` makes something of the password and that salt, the dialogue of `handle_login` with
  -- `solve_command` ends, and the client is let in exactly when what `crypt_r` makes of the password and the salt is
  -- the stored password; the server has then logged this client in, with the root for its directory,
  -- else both stay as they were and the client shows the refusal. No session stays open. The name
  -- has at most 49 bytes, the password 99, and what is sent has no NUL and fits a packet.
  pub handle_login-Right :
      (t : Server m f) × (talk m f o fd tlv [] (handle_login crypt_r name password) s
        ≡ ended root_path
            (if bytes_eq encrypted hash then entered else refused (text "登录失败：密码错误"))
            t)
      × (t.client ≡ (if bytes_eq encrypted hash then log_in s.client else s.client))
      × (t.cwd ≡ (if bytes_eq encrypted hash then login_cwd s.cwd else s.cwd))
      × IsIdle t.logins
  unfolding talk
  handle_login-Right =
      let (t, q, e, client, cwd, idle', db) = handle_login-Then finish in
      (
        t,
        ap (λ d. talk m f o fd tlv [] d s) (sym (then_finish (handle_login crypt_r name password)))
            ∙ e,
        client,
        cwd,
        idle',
      )
