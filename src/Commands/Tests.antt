-- ===== src/Commands/Tests.antt =====
-- A login at a server with one user.
use cloud_sys.Base.{
  ◌≡◌, refl, inl, true, false, List, [], ◌∷◌, none, some, arith, if◌then◌else◌, replicate,
}
use cloud_sys.CString.{Bytes, bytes_eq, c_str}
use cloud_sys.Database.{Mysql, Row, db_query, kind_of}
use cloud_sys.PathStack.{fresh}
use cloud_sys.Clients.{ClientState, no_client}
use cloud_sys.Sessions.{no_sessions, no_session, pending, pending_from, open_session}
use cloud_sys.Sessions.Valid.{IsIdle, IsValid, opened, no_sessions-Idle}
use cloud_sys.Cd.{success}
use cloud_sys.Users.{get_salt, sql_get_salt, sql_get_password, get_encrypted_password}
use cloud_sys.File.{Files}
use cloud_sys.Tlv.{packed, Packet, tlv_unpack}
use cloud_sys.Commands.{TlvType, Server, Outside, type_of, type_code, send}
use cloud_sys.Commands.Short.{solve_command, run_command}
use cloud_sys.Commands.Keeps.{AreValid}
use cloud_sys.Commands.OneSession.{solve_command-IsValid}
use cloud_sys.Commands.Login.{
  log_in, login_cwd, user_login, login_packet, login_name, login_open, salt_packet,
}
use cloud_sys.Commands.AnyClient.{unseen, solve_command-unseen}
use cloud_sys.Commands.LoginRound.{password_reply, login_round, user_login-round}

abbrev amy : Bytes
amy = b'a' ∷ b'm' ∷ b'y' ∷ []

abbrev salt : Bytes
salt = b's' ∷ b'a' ∷ []

abbrev hash : Bytes
hash = b'h' ∷ b'1' ∷ []

abbrev answers : Bytes → List Row
answers sql =
    if bytes_eq sql (sql_get_salt amy) then (some salt ∷ []) ∷ [] else (some hash ∷ []) ∷ []

abbrev one_user : Mysql
one_user = record {
  Db = List Row;
  run = λ sql d. (true, answers sql);
  store_result = λ d. (some d, []);
  affected_rows = λ d. some 0;
  escape = λ s. s;
  ping = λ d. false;
}

abbrev no_files : Files
no_files = record {
  Fs = Unit;
  stat = λ p w. none;
  mkdir = λ p w. (true, w);
  open_create = λ p w. (none, w);
  open_read = λ p w. (none, w);
  ftruncate = λ fd n w. (true, w);
  map_write = λ fd n c w. none;
  map_read = λ fd n w. none;
  close = λ fd w. w;
  unlink = λ p w. (true, w);
  error_text = λ w. [];
  sha1 = λ c. none;
}

abbrev start : Server one_user no_files
start = record {
  logins = no_sessions;
  registers = no_sessions;
  current_username = [];
  cwd = fresh;
  client = no_client;
  sent = [];
  db = [];
  fs = tt;
}

has_salt : get_salt one_user amy [] ≡ some (some salt, [])
unfolding get_salt sql_get_salt sql_get_password db_query kind_of
has_salt = refl

has_password : get_encrypted_password one_user amy [] ≡ some (some hash, [])
unfolding get_encrypted_password sql_get_salt sql_get_password db_query kind_of
has_password = refl

-- The slot of a client that has another name.
abbrev bobs : ClientState
bobs = record no_client { netfd = 8; username = b'b' ∷ []; is_alive = true }

user_login-round_example :
    (t : Server one_user no_files) × (login_round one_user no_files 7 8 amy hash no_client bobs
        start
      ≡ some (no_client, some (success, t)))
    × IsIdle t.logins
    × (t.current_username ≡ amy)
    × (t.client ≡ log_in bobs)
    × (t.cwd ≡ login_cwd fresh)
    × (t.sent
        ≡ password_reply 8 true ∷ (7, type_code TlvType.userlogin, packed (salt_packet salt)) ∷ [])
user_login-round_example =
    user_login-round one_user no_files 7 8 amy hash salt hash no_client bobs start [] []
      no_sessions-Idle (omega arith) has_salt has_password

abbrev outside : Outside
outside = record { draws = []; memory = λ n. true; before = 0; freed = λ r. r }

abbrev hello : Packet
hello = record { type = 10; len = 3; value = amy }

-- The server after the first packet.
abbrev greeted : Server one_user no_files
greeted = record start {
  logins = record { slots = opened amy [] ∷ replicate 9 no_session; session_count = 1 };
  current_username = amy;
  sent = (7, 10, b'$' ∷ b'6' ∷ b'$' ∷ salt) ∷ [];
}

hello-greeted : solve_command one_user no_files outside 7 hello start ≡ some (success, greeted)
unfolding solve_command tlv_unpack run_command type_of user_login login_packet pending pending_from
    login_name login_open open_session send type_code salt_packet opened get_salt sql_get_salt
    sql_get_password db_query kind_of c_str
hello-greeted = refl

start-AreValid : AreValid start
unfolding AreValid IsValid
start-AreValid = (inl no_sessions-Idle, inl no_sessions-Idle)

solve_command-IsValid_example : AreValid greeted
solve_command-IsValid_example =
    solve_command-IsValid one_user no_files outside 7 hello start greeted success start-AreValid
      hello-greeted

solve_command-unseen_example :
    unseen one_user no_files (
      solve_command one_user no_files outside 7 hello
        (record start { client = record no_client { logged_in = true } }))
    ≡ unseen one_user no_files (solve_command one_user no_files outside 7 hello start)
solve_command-unseen_example =
    solve_command-unseen one_user no_files (record no_client { logged_in = true }) outside 7 hello
      start
