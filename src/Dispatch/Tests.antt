-- ===== src/Dispatch/Tests.antt =====
-- A server with one client.
use cloud_sys.Base.Int.{pos}
use cloud_sys.Base.{◌≡◌, refl, true, false, [], ◌∷◌, none, some}
use cloud_sys.CString.{text}
use cloud_sys.Database.{Mysql}
use cloud_sys.PathStack.{fresh}
use cloud_sys.Clients.{ClientState, Table, find, get_client_state, touch}
use cloud_sys.Sessions.{no_sessions}
use cloud_sys.Tlv.{Packet}
use cloud_sys.File.{Files}
use cloud_sys.Commands.{Outside, response, reply}
use cloud_sys.Dispatch.{Main}
use cloud_sys.Clients.{no_client}
use cloud_sys.Clients.Lookup.{alive_count, Absent-replicate, AreDistinct-replicate}
use cloud_sys.Sessions.Valid.{no_sessions-Idle, IsValid}
use cloud_sys.Commands.Keeps.{AreValid}
use cloud_sys.Base.{List, replicate, inl, ap, arith}
use cloud_sys.Dispatch.Turn.{
  Loop, Round, listener, data_on, main_loop, turn, check_time, events, then_events, then_rounds,
  goes_on,
}
use cloud_sys.Dispatch.Sound.{IsSound, main_loop-IsSound}
use cloud_sys.Dispatch.Routes.{readable-closed}

abbrev silent : Mysql
silent = record {
  Db = Unit;
  run = λ sql d. (false, d);
  store_result = λ d. (none, d);
  affected_rows = λ d. none;
  escape = λ s. s;
  ping = λ d. false;
}

abbrev no_files : Files
no_files = record {
  Fs = Unit;
  stat = λ p w. none;
  mkdir = λ p w. (false, w);
  open_create = λ p w. (none, w);
  open_read = λ p w. (none, w);
  ftruncate = λ fd n w. (false, w);
  map_write = λ fd n c w. none;
  map_read = λ fd n w. none;
  close = λ fd w. w;
  unlink = λ p w. (false, w);
  error_text = λ w. [];
  sha1 = λ c. none;
}

abbrev client : ClientState
client = record {
  netfd = 7;
  username = [];
  logged_in = false;
  current_pwd_id = pos 1;
  virtual_path = [];
  is_alive = true;
  last_active = 10;
}

abbrev one_client : Table
one_client = record { states = client ∷ []; client_count = 1; closed = [] }

abbrev main : Main silent no_files
main = record {
  table = one_client;
  server = record {
    logins = no_sessions;
    registers = no_sessions;
    current_username = [];
    cwd = fresh;
    client = client;
    sent = [];
    db = tt;
    fs = tt;
  };
  queue = [];
  watched = 7 ∷ [];
  refused = [];
}

abbrev outside : Outside
outside = record { draws = []; memory = λ n. true; before = 0; freed = λ r. r }

abbrev upload : Packet
upload = record { type = 13; len = 3; value = b'a' ∷ b'|' ∷ b'b' ∷ [] }

-- A table with one client.
abbrev hundred : Table
hundred = record main.table { states = client ∷ replicate 99 no_client }

-- Between two rounds.
abbrev loop : Loop silent no_files
loop = record { main = record main { table = hundred }; last_check_time = 11 }

-- In this second the server is asked for nothing, then told that a client has gone.
abbrev rounds : List Round
rounds =
    record { ready_set = listener none ∷ []; current_time = 11; now = 11 }
    ∷ record { ready_set = data_on 7 (some [] ∷ []) outside ∷ []; current_time = 11; now = 11 }
    ∷ []

abbrev behind : Loop silent no_files
behind = record loop {
  main = record main {
    table = touch 0 11 hundred;
    server = reply silent no_files 7 response (text "无效命令") main.server;
  };
}

known_of_hundred : get_client_state 7 11 hundred ≡ (some 0, hundred)
unfolding get_client_state find
known_of_hundred = refl

rounds-behind : main_loop silent no_files rounds loop ≡ goes_on behind
unfolding main_loop turn check_time events then_events then_rounds
rounds-behind =
    ap
      (λ e.
        then_rounds silent no_files goes_on (
          then_events silent no_files (λ s. goes_on (record { main = s; last_check_time = 11 })) e))
      (readable-closed silent no_files outside 7 11 11 0 [] (record main { table = hundred })
        hundred known_of_hundred)

loop-IsSound : IsSound silent no_files loop.main
unfolding AreValid IsValid alive_count
loop-IsSound = record {
  clients = record {
    size = refl;
    distinct = (λ e. Absent-replicate 7 99, AreDistinct-replicate 99);
    counted = omega arith;
  };
  sessions = (inl no_sessions-Idle, inl no_sessions-Idle);
}

main_loop-IsSound_example : IsSound silent no_files behind.main
main_loop-IsSound_example =
    main_loop-IsSound silent no_files rounds loop behind loop-IsSound rounds-behind
