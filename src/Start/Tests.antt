-- ===== src/Start/Tests.antt =====
-- A server that starts, on a machine where every call works.
use cloud_sys.Base.{ℕ, ◌+◌, ◌≡◌, refl, false, true, [], none, some}
use cloud_sys.Database.{Mysql}
use cloud_sys.File.{Files}
use cloud_sys.Pool.{ThreadPool, start}
use cloud_sys.Net.{Net, tcp_init, listening, epoll_add}
use cloud_sys.Dispatch.Turn.{Loop}
use cloud_sys.Start.{
  Dbms, db_init, db_connect, no_database, no_handle, serving, first_loop, epoll_start, socket_start,
  connected_start, server_start,
}

abbrev pub silent : Mysql
silent = record {
  Db = Unit;
  run = λ sql d. (false, d);
  store_result = λ d. (none, d);
  affected_rows = λ d. none;
  escape = λ s. s;
  ping = λ d. false;
}

abbrev pub no_files : Files
no_files = record {
  Fs = Unit;
  stat = λ p w. none;
  mkdir = λ p w. (false, w);
  open_create = λ p w. (none, w);
  open_read = λ p w. (none, w);
  ftruncate = λ fd n w. (false, w);
  map_write = λ fd n c w. none;
  map_read = λ fd n w. none;
  close = λ fd w. w;
  unlink = λ p w. (false, w);
  error_text = λ w. [];
  sha1 = λ c. none;
}

abbrev pub dbms : Dbms silent
dbms = record {
  Handle = Unit;
  mysql_init = some tt;
  mysql_real_connect = λ h host user password database. some tt;
}

-- The next descriptor is the state. The port is in use.
abbrev pub net : Net
net = record {
  World = ℕ;
  socket = λ w. (some w, w + 1);
  reuse_address = λ fd w. (true, w);
  bind = λ fd a w. (false, w);
  listen = λ fd k w. (true, w);
  connect = λ fd a w. (true, w);
  close = λ fd w. w;
  inet_addr = λ s. 0;
  inet_pton = λ s. some 0;
  epoll_create = λ w. (some w, w + 1);
  epoll_ctl_add = λ e fd w. (true, w);
  epoll_ctl_del = λ e fd w. (true, w);
}

abbrev pub raw : ThreadPool
raw = record {
  task_queue = record { heap = λ a. none; front = 5; rear = 5; size = 3 };
  exit_flag = true;
  workers = 0;
}

abbrev pub first : Loop silent no_files
first = first_loop silent dbms no_files net 20 tt tt

-- The server gets its listening socket 5, although `bind` has failed.
pub starting :
    server_start silent dbms no_files net false 20 4 raw tt 5
    ≡ serving first (start raw) 5 (some 6) 7
unfolding server_start connected_start db_init db_connect socket_start epoll_start tcp_init
    listening epoll_add
starting = refl

no_memory : Dbms silent
no_memory = record {
  Handle = Unit;
  mysql_init = none;
  mysql_real_connect = λ h host user password database. none;
}

no_connection :
    server_start silent no_memory no_files net false 20 4 raw tt 5 ≡ no_database no_handle
unfolding server_start db_init no_memory
no_connection = refl
