-- ===== src/Start.antt =====
-- The start of the server: `db_init` and `db_close` of server/func_db.c, and `main` of server/main.c up
-- to its loop.
pub mod Sound
pub mod Tests
use cloud_sys.Base.Int.{ℤ, int_eq}
use cloud_sys.Base.{ℕ, Bool, true, false, [], Option, none, some, if◌then◌else◌}
use cloud_sys.CString.{Bytes, text}
use cloud_sys.Database.{Mysql}
use cloud_sys.PathStack.{fresh}
use cloud_sys.Cd.{success, err_db}
use cloud_sys.Clients.{no_client, init}
use cloud_sys.Sessions.{no_sessions}
use cloud_sys.File.{Files}
use cloud_sys.Pool.{ThreadPool, System}
use cloud_sys.Pool as Pool
use cloud_sys.Dispatch.{Main}
use cloud_sys.Dispatch.Turn.{Loop}
use cloud_sys.Net.{Net, tcp_init, epoll_add}

abbrev pub ip : Bytes
ip = text "127.0.0.1"

abbrev pub port : Bytes
port = text "12345"

-- The calls that make a connection to the database: `none` is a NULL pointer.
pub record Dbms (m : Mysql) : Type 1 where
  pub Handle : Type 0
  pub mysql_init : Option Handle
  -- The host, the user, the password and the database.
  pub mysql_real_connect : Handle → Bytes → Bytes → Bytes → Bytes → Option m.Db

module _ (m : Mysql) (b : Dbms m) where
  -- What the pointer `mysql` stands for.
  pub data Connection : Type 0 where
    no_handle closed : Connection
    connected : m.Db → Connection

  unfoldable pub db_connect : Option m.Db → ℤ × Connection
  db_connect none = (err_db, closed)
  db_connect (some d) = (success, connected d)

  unfoldable pub db_init : Option b.Handle → ℤ × Connection
  unfolding db_connect text
  db_init none = (err_db, no_handle)
  db_init (some h) =
      db_connect (
        b.mysql_real_connect h (text "localhost") (text "root") (text "12345") (text "my_database"))

  unfoldable pub db_close : Connection → ℤ × Connection
  db_close c = (success, closed)

module _ (m : Mysql) (b : Dbms m) (f : Files) (n : Net) where
  -- How the start ends: the process is the parent, which waits for a signal and for the child; there
  -- is no database, and `main` returns; ERROR_CHECK ends the process; or the loop begins.
  pub data Started : Type 0 where
    parent : Started
    no_database : Connection m b → Started
    exited : Started
    serving : Loop m f → System → (sockfd : ℕ) (epfd : Option ℕ) → n.World → Started

  -- The variables of the server before the loop; `d` is the database, and `w` are the files.
  unfoldable pub first_loop : (now : ℕ) → m.Db → f.Fs → Loop m f
  first_loop now d w = record {
    main = record {
      table = init;
      server = record {
        logins = no_sessions;
        registers = no_sessions;
        current_username = [];
        cwd = fresh;
        client = no_client;
        sent = [];
        db = d;
        fs = w;
      };
      queue = [];
      watched = [];
      refused = [];
    };
    last_check_time = now;
  }

  -- The epoll set has the listening socket and the exit pipe.
  unfoldable pub epoll_start :
      (now exit_pipe : ℕ) → Loop m f → System → ℕ → Option ℕ × n.World → Started
  unfolding epoll_add
  epoll_start now exit_pipe l p sockfd (epfd, w) =
      serving l p sockfd epfd
        (epoll_add n epfd (some exit_pipe) (epoll_add n epfd (some sockfd) w).1).1

  unfoldable pub socket_start :
      (now exit_pipe : ℕ) → Loop m f → System → Option (ℕ × n.World) → Started
  unfolding epoll_start
  socket_start now exit_pipe l p none = exited
  socket_start now exit_pipe l p (some r) = epoll_start now exit_pipe l p r.0 (n.epoll_create r.1)

  unfoldable pub connected_start :
      (now exit_pipe : ℕ) → f.Fs → System → n.World → Connection m b → Started
  unfolding socket_start first_loop tcp_init
  connected_start now exit_pipe fs p w no_handle = no_database no_handle
  connected_start now exit_pipe fs p w closed = no_database closed
  connected_start now exit_pipe fs p w (connected d) =
      socket_start now exit_pipe (first_loop now d fs) p (tcp_init n ip port w)

  -- `forked` is whether `fork` returned another number than 0, and `exit_pipe` the end of the pipe
  -- that is read. `raw` is the memory of `thread_pool` before it is initialised.
  unfoldable pub server_start :
      (forked : Bool) (now exit_pipe : ℕ) → ThreadPool → f.Fs → n.World → Started
  unfolding connected_start db_init
  server_start true now exit_pipe raw fs w = parent
  server_start false now exit_pipe raw fs w =
      let (code, c) = db_init m b b.mysql_init in
      if int_eq code success
      then connected_start now exit_pipe fs (Pool.start raw) w c
      else no_database c
