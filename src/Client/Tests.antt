-- ===== src/Client/Tests.antt =====
-- The client at work.
use cloud_sys.Base.Int.{pos}
use cloud_sys.Base.{◌≡◌, refl, [], ◌∷◌, ◌++◌, none, some, arith, Option, true, if◌then◌else◌}
use cloud_sys.CString.{Bytes, bytes_eq}
use cloud_sys.Database.{Mysql, db_query, kind_of}
use cloud_sys.PathStack.{fresh, root_path}
use cloud_sys.Clients.{no_client}
use cloud_sys.Sessions.{no_sessions}
use cloud_sys.Sessions.Valid.{IsIdle, no_sessions-Idle}
use cloud_sys.Users.{get_salt, get_encrypted_password, sql_get_salt, sql_get_password}
use cloud_sys.File.{Files}
use cloud_sys.Tlv.{Arrivals, SendPlan, le_bytes, empty_packet}
use cloud_sys.Tlv.Send.{image}
use cloud_sys.Tlv.Receive.{stream}
use cloud_sys.Tlv as Tlv
use cloud_sys.Commands.{Server, Outside}
use cloud_sys.Commands.Login.{log_in, login_cwd}
use cloud_sys.Client.{entered}
use cloud_sys.Client.Wire.{went, send_tlv}
use cloud_sys.Client.Wire.Crossing.{send_tlv-recv_tlv}
use cloud_sys.Client.Login.{handle_login}
use cloud_sys.Client.Talk.{ended, talk}
use cloud_sys.Client.LoginTalk.{handle_login-Right}
use cloud_sys.Tlv.{Packet}

abbrev amy : Bytes
amy = b'a' ∷ b'm' ∷ b'y' ∷ []

abbrev salt : Bytes
salt = b's' ∷ b'a' ∷ []

abbrev hash : Bytes
hash = b'h' ∷ b'1' ∷ []

-- The packet in runs of one, six and two bytes.
abbrev runs : Arrivals
runs = some (10 ∷ []) ∷ some (0 ∷ 0 ∷ 0 ∷ 3 ∷ 0 ∷ b'a' ∷ []) ∷ some (b'm' ∷ b'y' ∷ []) ∷ []

runs-image : stream runs ≡ image 10 amy ++ []
unfolding image le_bytes
runs-image = refl

send_tlv-recv_tlv_example :
    (send_tlv 10 amy (some 4 ∷ some 2 ∷ some 3 ∷ []) ≡ went (image 10 amy) [])
    × (rest : Arrivals) × (Tlv.recv_tlv runs
        ≡ Tlv.returns (pos 3) (record { type = 10; len = 3; value = amy }) rest)
    × (stream rest ≡ [])
send_tlv-recv_tlv_example =
    send_tlv-recv_tlv 10 amy [] 4 2 3 [] runs (omega arith) (omega arith) (omega arith)
      (omega arith) (omega arith) runs-image

-- A database that answers a question for a password with `hash`, and every other with `salt`.
abbrev one_user : Mysql
one_user = record {
  Db = Bytes;
  run = λ sql d. (true, sql);
  store_result =
      λ d. (some ((some (if bytes_eq d (sql_get_password amy) then hash else salt) ∷ []) ∷ []), d);
  affected_rows = λ d. some 0;
  escape = λ s. s;
  ping = λ d. true;
}

abbrev no_files : Files
no_files = record {
  Fs = Unit;
  stat = λ p w. none;
  mkdir = λ p w. (true, w);
  open_create = λ p w. (none, w);
  open_read = λ p w. (none, w);
  ftruncate = λ fd n w. (true, w);
  map_write = λ fd n c w. none;
  map_read = λ fd n w. none;
  close = λ fd w. w;
  unlink = λ p w. (true, w);
  error_text = λ w. [];
  sha1 = λ c. none;
}

abbrev start : Server one_user no_files
start = record {
  logins = no_sessions;
  registers = no_sessions;
  current_username = [];
  cwd = fresh;
  client = no_client;
  sent = [];
  db = [];
  fs = tt;
}

abbrev outside : Outside
outside = record { draws = []; memory = λ n. true; before = 0; freed = λ r. r }

has_salt : get_salt one_user amy [] ≡ some (some salt, sql_get_salt amy)
unfolding get_salt sql_get_salt sql_get_password db_query kind_of
has_salt = refl

has_password :
    get_encrypted_password one_user amy (sql_get_salt amy) ≡ some (some hash, sql_get_password amy)
unfolding get_encrypted_password sql_get_salt sql_get_password db_query kind_of
has_password = refl

-- The password leads to the stored hash, another one does not.
abbrev some_crypt : Bytes → Bytes → Option Bytes
some_crypt password setting = some (if bytes_eq password amy then hash else setting)

handle_login-Right_example :
    (t : Server one_user no_files) × (talk one_user no_files outside 7 empty_packet []
        (handle_login some_crypt amy amy)
        start
      ≡ ended root_path entered t)
    × (t.client ≡ log_in no_client)
    × (t.cwd ≡ login_cwd fresh)
    × IsIdle t.logins
handle_login-Right_example =
    handle_login-Right one_user no_files outside 7 empty_packet start (sql_get_salt amy)
      (sql_get_password amy) some_crypt amy amy salt hash hash no_sessions-Idle (omega arith)
      (λ e. omega arith, (λ e. omega arith, (λ e. omega arith, tt))) (omega arith) has_salt
      has_password refl (omega arith) (λ e. omega arith, (λ e. omega arith, tt))
