-- ===== src/Commands/LoginRound.antt =====
-- A login takes two packets: the name, and the encrypted password.
use cloud_sys.Base.{
  ℕ, Bool, ◌≡◌, ◌<◌, subst, refl, ap, sym, ◌∙◌, inl, inr, [], ◌∷◌, Option, none, some, arith,
  if◌then◌else◌, length, take, take_all, Bool-cases, lt→ltb,
}
use cloud_sys.CString.{Bytes, bytes_eq, text}
use cloud_sys.Database.{Mysql}
use cloud_sys.Sessions.{Session, close_session}
use cloud_sys.Sessions.Valid.{
  IsIdle, IsPending, opened, pending-Idle, pending-Pending, open_session-Pending,
  close_session-Idle,
}
use cloud_sys.Clients.{ClientState}
use cloud_sys.Cd.{success}
use cloud_sys.Users.{get_salt, get_encrypted_password}
use cloud_sys.File.{Files}
use cloud_sys.Tlv.{packed}
use cloud_sys.Commands.{Server, TlvType, OutPacket, type_code, send, reply}
use cloud_sys.Commands.Login.{
  Ran, user_login, login_name, login_open, login_packet, login_password, login_stored, login_check,
  end_login, log_in, login_cwd, salt_packet,
}

-- The answer to the encrypted password.
unfoldable pub password_reply : ℕ → Bool → OutPacket
unfolding text
password_reply fd right =
    if right
    then (fd, type_code TlvType.userlogin, packed (text "登录成功"))
    else (fd, type_code TlvType.response, packed (text "登录失败：密码错误"))

module _ (m : Mysql) (f : Files) where
  pub login_name-Pending :
      (fd : ℕ) (name salt : Bytes) (s : Server m f) (d : m.Db)
      → IsIdle s.logins
      → length name < 50
      → get_salt m name s.db ≡ some (some salt, d)
      → (t : Server m f) × (user_login m f fd name s ≡ some (success, t))
        × IsPending (opened name []) t.logins
        × (t.client ≡ s.client)
        × (t.cwd ≡ s.cwd)
        × (t.db ≡ d)
        × (t.sent ≡ (fd, type_code TlvType.userlogin, packed (salt_packet salt)) ∷ s.sent)
  unfolding user_login login_packet login_name login_open send
  login_name-Pending fd name salt s d idle short found =
      let o = open_session-Pending name [] s.logins idle in
      (
        record (send m f fd TlvType.userlogin (salt_packet salt)
            (record s { current_username = name; db = d })).1 { logins = o.0 },
        rw
            (
              user_login,
              pending-Idle s.logins idle,
              login_name,
              lt→ltb (length name) 50 short,
              found,
              login_open,
              o.1,
            )
            refl,
        o.2,
        refl,
        refl,
        refl,
        refl,
      )

  module _ (fd : ℕ) (value hash : Bytes) where
    password_runs :
        (x : Session) (s : Server m f) (d : m.Db)
        → IsPending x s.logins
        → get_encrypted_password m (take 49 x.username) s.db ≡ some (some hash, d)
        → user_login m f fd value s
          ≡ some (
            success,
            end_login m f 0 (
                login_check m f fd value
                  (some hash)
                  (record s { current_username = take 49 x.username; db = d })),
          )
    unfolding user_login login_packet login_password login_stored IsPending
    password_runs x s d p found =
        ap (login_packet m f fd value s) (pending-Pending s.logins x p)
        ∙ ap
            (λ y.
              login_stored m f fd value 0 s (take 49 y.username)
                (get_encrypted_password m (take 49 y.username) s.db))
            p.2
        ∙ ap (login_stored m f fd value 0 s (take 49 x.username)) found

    check-kept :
        (s : Server m f)
        → ((login_check m f fd value (some hash) s).logins ≡ s.logins)
          × ((login_check m f fd value (some hash) s).current_username ≡ s.current_username)
          × ((login_check m f fd value (some hash) s).client
              ≡ (if bytes_eq value hash then log_in s.client else s.client))
          × ((login_check m f fd value (some hash) s).cwd
              ≡ (if bytes_eq value hash then login_cwd s.cwd else s.cwd))
          × ((login_check m f fd value (some hash) s).sent
              ≡ password_reply fd (bytes_eq value hash) ∷ s.sent)
          × ((login_check m f fd value (some hash) s).db ≡ s.db)
    unfolding login_check reply send password_reply
    check-kept s = elim (Bool-cases (bytes_eq value hash)) [
      | inl e ↦ rw e (refl, refl, refl, refl, refl, refl)
      | inr e ↦ rw e (refl, refl, refl, refl, refl, refl)
    ]

  pub login_password-Idle :
      (fd : ℕ) (value hash : Bytes) (x : Session) (s : Server m f) (d : m.Db)
      → IsPending x s.logins
      → get_encrypted_password m (take 49 x.username) s.db ≡ some (some hash, d)
      → (t : Server m f) × (user_login m f fd value s ≡ some (success, t))
        × IsIdle t.logins
        × (t.current_username ≡ take 49 x.username)
        × (t.client ≡ (if bytes_eq value hash then log_in s.client else s.client))
        × (t.cwd ≡ (if bytes_eq value hash then login_cwd s.cwd else s.cwd))
        × (t.sent ≡ password_reply fd (bytes_eq value hash) ∷ s.sent)
        × (t.db ≡ d)
  unfolding end_login
  login_password-Idle fd value hash x s d p found =
      let s1 = record s { current_username = take 49 x.username; db = d } in
      let s2 = login_check m f fd value (some hash) s1 in
      (
        end_login m f 0 s2,
        password_runs fd value hash x s d p found,
        subst (λ t. IsIdle (close_session 0 t)) (sym ((check-kept fd value hash s1).0))
            (close_session-Idle s.logins x p),
        (check-kept fd value hash s1).1,
        (check-kept fd value hash s1).2,
        (check-kept fd value hash s1).3,
        (check-kept fd value hash s1).4,
        (check-kept fd value hash s1).5,
      )

  -- The second packet, with the slot `c'` of its client: the slot of the first client, and what the
  -- second packet gives.
  then_login : ℕ → Bytes → ClientState → Ran m f → Option (ClientState × Ran m f)
  then_login fd value c' none = none
  then_login fd value c' (some r) =
      some (r.1.client, user_login m f fd value (record r.1 { client = c' }))

  -- Two packets of type USERLOGIN, from the clients with the slots `c` and `c'`.
  pub login_round :
      (fd fd' : ℕ) (name value : Bytes) (c c' : ClientState)
      → Server m f
      → Option (ClientState × Ran m f)
  unfolding then_login
  login_round fd fd' name value c c' s =
      then_login fd' value c' (user_login m f fd name (record s { client = c }))

  -- Where no session is open, a name of at most 49 bytes that has a salt and a stored password comes
  -- from one client, and then any packet of type USERLOGIN from another, `value` in it. The first
  -- client is sent the salt, and its slot stays as it was. The second, of whom no name was asked, is
  -- logged in exactly when `value` is the stored password, and gets the answer; the server's
  -- directory is then the root with an empty stack, else it and the second slot stay as they were.
  -- No session stays open.
  pub user_login-round :
      (fd fd' : ℕ) (name value salt hash : Bytes) (c c' : ClientState) (s : Server m f)
      (d d' : m.Db)
      → IsIdle s.logins
      → length name < 50
      → get_salt m name s.db ≡ some (some salt, d)
      → get_encrypted_password m name d ≡ some (some hash, d')
      → (t : Server m f) × (login_round fd fd' name value c c' s ≡ some (c, some (success, t)))
        × IsIdle t.logins
        × (t.current_username ≡ name)
        × (t.client ≡ (if bytes_eq value hash then log_in c' else c'))
        × (t.cwd ≡ (if bytes_eq value hash then login_cwd s.cwd else s.cwd))
        × (t.sent
            ≡ password_reply fd' (bytes_eq value hash)
              ∷ (fd, type_code TlvType.userlogin, packed (salt_packet salt))
              ∷ s.sent)
  unfolding login_round then_login opened
  user_login-round fd fd' name value salt hash c c' s d d' idle short salted stored =
      let a = login_name-Pending fd name salt (record s { client = c }) d idle short salted in
      let s' = record a.0 { client = c' } in
      let short' = take_all 49 name (omega (arith, short)) in
      let twice = ap (take 49) short' ∙ short' in
      let b = login_password-Idle fd' value hash (opened name []) s' d' a.2 (
        ap (λ n. get_encrypted_password m n a.0.db) twice
        ∙ (ap (get_encrypted_password m name) a.5 ∙ stored)) in
      (
        b.0,
        ap (then_login fd' value c') a.1
            ∙ ap (λ x. some (x, user_login m f fd' value s')) a.3
            ∙ ap (λ r. some (c, r)) b.1,
        b.2,
        b.3 ∙ twice,
        b.4,
        b.5 ∙ ap (λ x. if bytes_eq value hash then login_cwd x else x) a.4,
        b.6 ∙ ap (λ l. password_reply fd' (bytes_eq value hash) ∷ l) a.6,
      )
