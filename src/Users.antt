-- ===== src/Users.antt =====
-- The accounts of server/password_auth_server.c: salts, and the statements on `user_info`.
pub mod Salt
pub mod Tests
use cloud_sys.Base.Int.{ℤ, pos, negsuc}
use cloud_sys.Base.{
  ℕ, ◌+◌, ◌*◌, ◌/◌, Bool, true, false, List, [], ◌∷◌, ◌++◌, map, Option, none, some, ltb, ◌==◌,
  if◌then◌else◌, length, take, get_or,
}
use cloud_sys.CString.{Bytes, text, c_str, atoi}
use cloud_sys.Database.{Mysql, Row, Reply, failure, rows, affected, db_query}
use cloud_sys.Cd.{snprintf, success, failure_code}

-- `alphanum`, with its terminator.
unfoldable pub alphanum : Bytes
unfolding text
alphanum = text "./0123456789ABCDEFGHIJKLMNOPQRSTUVWXYZabcdefghijklmnopqrstuvwxyz" ++ (0 ∷ [])

abbrev pub rand_max : ℕ
rand_max = 2147483647

-- The index for one result of `rand`: the quotient is a double there, and its rounding moves no
-- result across a multiple of 1/64.
unfoldable pub salt_index : ℕ → ℕ
salt_index r = r * 64 / rand_max

-- `generate_salt`, given the results of the twenty calls of `rand`: what it returns, and the string
-- that `salt` then starts with.
unfoldable pub generate_salt : ℕ → List ℕ → ℤ × Bytes
unfolding salt_index alphanum c_str
generate_salt salt_size draws =
    if ltb salt_size 21
    then (failure_code, [])
    else (success, c_str (take 20 (map (λ r. get_or alphanum (salt_index r) 0) draws)))

-- The room of `escaped_username` and its like.
abbrev pub escape_room : ℕ
escape_room = 512

unfoldable pub sql_user_exists : Bytes → Bytes
unfolding text
sql_user_exists name = snprintf 1024 (
    text "SELECT COUNT(*) FROM user_info WHERE username = '"
    ++ (name ++ text "' AND is_deleted = 0"))

unfoldable pub sql_insert_user : Bytes → Bytes → Bytes → Bytes
unfolding text
sql_insert_user name salt password = snprintf 2048 (
    text "INSERT INTO user_info (username, salt, encrypted_password, is_deleted) VALUES ('"
    ++ (name ++ (text "', '" ++ (salt ++ (text "', '" ++ (password ++ text "', 0)"))))))

unfoldable pub sql_get_salt : Bytes → Bytes
unfolding text
sql_get_salt name =
    snprintf 1024 (
      text "SELECT salt FROM user_info WHERE username = '" ++ (name ++ text "' AND is_deleted = 0"))

unfoldable pub sql_get_password : Bytes → Bytes
unfolding text
sql_get_password name = snprintf 1024 (
    text "SELECT encrypted_password FROM user_info WHERE username = '"
    ++ (name ++ text "' AND is_deleted = 0"))

unfoldable pub sql_delete_user : Bytes → Bytes
unfolding text
sql_delete_user name =
    snprintf 1024 (text "DELETE FROM user_info WHERE username = '" ++ (name ++ text "'"))

-- `row && row[0]` for the first row of the result set of a SELECT.
unfoldable pub first_text : Reply → Option Bytes
first_text failure = none
first_text (affected n) = none
first_text (rows []) = none
first_text (rows (row ∷ rs)) = get_or row 0 none

-- `row ? atoi(row[0]) : 0`, tested for being positive. COUNT(*) is never NULL.
unfoldable pub exists_code : Reply → ℤ
unfolding first_text
exists_code failure = negsuc 0
exists_code (affected n) = negsuc 0
exists_code (rows rs) = elim (first_text (rows rs)) [
  | none ↦ pos 0
  | some s ↦ elim (atoi s) [ pos n ↦ if n == 0 then pos 0 else pos 1 | negsuc n ↦ pos 0 ]
]

-- Whether an INSERT or a DELETE changed a row.
unfoldable pub changed_code : Reply → ℤ
changed_code failure = failure_code
changed_code (rows rs) = failure_code
changed_code (affected n) = if n == 0 then failure_code else success

module _ (m : Mysql) where
  open m use {Db, ping, escape}

  -- `mysql_real_escape_string` into a buffer: `none` where the result leaves it.
  unfoldable pub escape_into : Bytes → Option Bytes
  escape_into s = let e = escape s in if ltb (length e) escape_room then some e else none

  -- The code -1 stands for every error.
  unfoldable pub user_exists : Bytes → Db → ℤ × Db
  unfolding exists_code
  user_exists username d =
      if ping d
      then (if ltb escape_room (length username * 2 + 1)
          then (negsuc 0, d)
          else (let (reply, d') = db_query m (sql_user_exists (escape username)) d in
              (exists_code reply, d')))
      else (negsuc 0, d)

  unfoldable pub insert_user : Bytes → Bytes → Bytes → Db → Option (ℤ × Db)
  unfolding escape_into changed_code
  insert_user username salt password d = elim (escape_into username) [
    | none ↦ none
    | some u ↦ elim (escape_into salt) [
      | none ↦ none
      | some s ↦ elim (escape_into password) [
        | none ↦ none
        | some p ↦
            let (reply, d') = db_query m (sql_insert_user u s p) d in some (changed_code reply, d')
      ]
    ]
  ]

  -- The salt, where the function returns SUCCESS.
  unfoldable pub get_salt : Bytes → Db → Option (Option Bytes × Db)
  unfolding escape_into first_text
  get_salt username d = elim (escape_into username) [
    | none ↦ none
    | some u ↦
        let (reply, d') = db_query m (sql_get_salt u) d in
        some (elim (first_text reply) [ none ↦ none | some s ↦ some (take 20 s) ], d')
  ]

  -- The password, where the function returns SUCCESS. It then also writes a NUL at the index 128.
  unfoldable pub get_encrypted_password : Bytes → Db → Option (Option Bytes × Db)
  unfolding escape_into first_text
  get_encrypted_password username d = elim (escape_into username) [
    | none ↦ none
    | some u ↦
        let (reply, d') = db_query m (sql_get_password u) d in
        some (elim (first_text reply) [ none ↦ none | some s ↦ some (take 128 s) ], d')
  ]

  unfoldable pub delete_user : Bytes → Db → Option (ℤ × Db)
  unfolding escape_into changed_code
  delete_user username d = elim (escape_into username) [
    | none ↦ none
    | some u ↦ let (reply, d') = db_query m (sql_delete_user u) d in some (changed_code reply, d')
  ]
