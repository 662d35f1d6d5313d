-- ===== src/Start/Sound.antt =====
-- The state behind the start of the server.
use cloud_sys.Base.Int.{int_eq}
use cloud_sys.Base.{
  ℕ, ◌≡◌, refl, subst, inl, Bool, true, false, [], Option, none, some, if◌then◌else◌,
}
use cloud_sys.Database.{Mysql}
use cloud_sys.File.{Files}
use cloud_sys.Cd.{success}
use cloud_sys.Clients.Lookup.{init-IsValid}
use cloud_sys.Sessions.Valid.{IsValid, no_sessions-Idle}
use cloud_sys.Commands.Keeps.{AreValid}
use cloud_sys.Pool.{ThreadPool, System, start}
use cloud_sys.Net.{Net, tcp_init}
use cloud_sys.Dispatch.Turn.{Loop}
use cloud_sys.Dispatch.Sound.{IsSound}
use cloud_sys.Start.{
  Dbms, Connection, no_handle, closed, connected, db_init, Started, parent, no_database, exited,
  serving, first_loop, epoll_start, socket_start, connected_start, server_start, ip, port,
}

module _ (m : Mysql) (b : Dbms m) (f : Files) (n : Net) (raw : ThreadPool) where
  -- The main thread of a server that starts to serve has the initial variables, and the pool is new.
  abbrev Begins : Started m b f n → Type 0
  Begins parent = Unit
  Begins (no_database c) = Unit
  Begins exited = Unit
  Begins (serving l p sockfd epfd w) = (l.main.queue ≡ []) × (p ≡ start raw) × IsSound m f l.main

  first_loop-IsSound :
      (now : ℕ) (d : m.Db) (fs : f.Fs) → IsSound m f (first_loop m b f n now d fs).main
  unfolding first_loop AreValid IsValid
  first_loop-IsSound now d fs = record {
    clients = init-IsValid;
    sessions = (inl no_sessions-Idle, inl no_sessions-Idle);
  }

  socket-Begins :
      (now exit_pipe : ℕ) (d : m.Db) (fs : f.Fs) (r : Option (ℕ × n.World))
      → Begins (socket_start m b f n now exit_pipe (first_loop m b f n now d fs) (start raw) r)
  unfolding socket_start epoll_start first_loop
  socket-Begins now exit_pipe d fs none = tt
  socket-Begins now exit_pipe d fs (some r) = (refl, refl, first_loop-IsSound now d fs)

  connected-Begins :
      (now exit_pipe : ℕ) (fs : f.Fs) (w : n.World) (c : Connection m b)
      → Begins (connected_start m b f n now exit_pipe fs (start raw) w c)
  unfolding connected_start
  connected-Begins now exit_pipe fs w no_handle = tt
  connected-Begins now exit_pipe fs w closed = tt
  connected-Begins now exit_pipe fs w (connected d) =
      socket-Begins now exit_pipe d fs (tcp_init n ip port w)

  Begins-if : (c : Bool) (x y : Started m b f n) → Begins x → Begins y → Begins (if c then x else y)
  Begins-if true x y p q = p
  Begins-if false x y p q = q

  server_start-Begins :
      (forked : Bool) (now exit_pipe : ℕ) (fs : f.Fs) (w : n.World)
      → Begins (server_start m b f n forked now exit_pipe raw fs w)
  unfolding server_start
  server_start-Begins true now exit_pipe fs w = tt
  server_start-Begins false now exit_pipe fs w =
      let r = db_init m b b.mysql_init in
      Begins-if (int_eq r.0 success) _ _ (connected-Begins now exit_pipe fs w r.1) tt

  -- A server that gets to its loop gets there with no command routed to a worker, with a new pool,
  -- and with valid tables.
  pub serving-IsSound :
      (forked : Bool) (now exit_pipe : ℕ) (fs : f.Fs) (w w' : n.World) (l : Loop m f) (p : System)
      (sockfd : ℕ) (epfd : Option ℕ)
      → server_start m b f n forked now exit_pipe raw fs w ≡ serving l p sockfd epfd w'
      → (l.main.queue ≡ []) × (p ≡ start raw) × IsSound m f l.main
  serving-IsSound forked now exit_pipe fs w w' l p sockfd epfd e =
      subst Begins e (server_start-Begins forked now exit_pipe fs w)
