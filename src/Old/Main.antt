-- ===== src/Old/Main.antt =====
-- The table of clients and the loop of server/old_main.c.
use cloud_sys.Base.Int.{ℤ, pos, negsuc}
use cloud_sys.Base.{
  ℕ, zero, suc, ◌+◌, ◌-◌, Bool, true, false, ◌&&◌, List, [], ◌∷◌, ◌++◌, Option, none, some, leb,
  ltb, ◌==◌, if◌then◌else◌, modify, get_elem?, length, drop,
}
use cloud_sys.CString.{text}
use cloud_sys.Database.{Mysql}
use cloud_sys.Clients.{
  ClientState, Table, max_clients, is_client, is_free, find, kill, remove_client_state, touch,
}
use cloud_sys.Tlv.{Packet, Arrivals, Recv, waits, exits, returns, recv_tlv}
use cloud_sys.File.{Files}
use cloud_sys.Commands.{Outside, cd, usercancel, response, type_code, reply}
use cloud_sys.Dispatch.{Main, Event, blocks, ends, crash, handled, unwatch, is_long}
use cloud_sys.Dispatch.Turn.{
  Ready, exit_pipe, listener, data_on, Round, Loop, Turned, cleaned, goes_on, unwatch_all,
  then_events, then_rounds,
}
use cloud_sys.Old.Solve.{solve_command}

abbrev pub timeout_seconds : ℕ
timeout_seconds = 30

-- The root has the id 0.
unfoldable pub occupy : ℕ → ℕ → ClientState → ClientState
occupy fd now c = record {
  netfd = fd;
  username = [];
  logged_in = false;
  current_pwd_id = pos 0;
  virtual_path = [];
  is_alive = true;
  last_active = now;
}

unfoldable pub take_slot : ℕ → ℕ → Table → Option ℕ → Option ℕ × Table
unfolding occupy
take_slot fd now t none = (none, t)
take_slot fd now t (some i) = (
  some i,
  record t { states = modify t.states i (occupy fd now); client_count = t.client_count + 1 },
)

unfoldable pub known_or : Table → Option ℕ × Table → Option ℕ → Option ℕ × Table
known_or t fresh (some i) = (some i, t)
known_or t fresh none = fresh

unfoldable pub get_client_state : ℕ → ℕ → Table → Option ℕ × Table
unfolding take_slot known_or find
get_client_state fd now t =
    known_or t (take_slot fd now t (find is_free t.states)) (find (is_client fd) t.states)

unfoldable pub is_stale : ℕ → ClientState → Bool
is_stale now c = c.is_alive && ltb timeout_seconds (now - c.last_active)

unfoldable pub sweep_slot : ℕ → ℕ → Table → Option ClientState → Table
unfolding is_stale
sweep_slot now i t none = t
sweep_slot now i t (some c) =
    if is_stale now c
    then remove_client_state c.netfd
        (record t { states = modify t.states i kill; closed = t.closed ++ c.netfd ∷ [] })
    else t

unfoldable pub sweep_from : ℕ → (i rounds : ℕ) → Table → Table
unfolding sweep_slot
sweep_from now i zero t = t
sweep_from now i (suc r) t = sweep_from now (suc i) r (sweep_slot now i t (get_elem? t.states i))

unfoldable pub check_timeout_clients : ℕ → Table → Table
unfolding sweep_from
check_timeout_clients now t = sweep_from now 0 max_clients t

-- `recv_result <= 0`.
unfoldable pub is_lost : ℤ → Bool
is_lost (pos n) = n == 0
is_lost (negsuc n) = true

unfoldable pub is_short : ℕ → Bool
unfolding type_code
is_short type = leb (type_code cd) type && leb type (type_code usercancel)

module _ (m : Mysql) (f : Files) where
  unfoldable pub run_short : Outside → ℕ → Packet → Main m f → Arrivals → Event m f
  unfolding solve_command
  run_short o fd p s segs = elim (solve_command m f o fd p s.server) [
    | none ↦ crash
    | some r ↦ handled (record s { server = r.1 }) segs
  ]

  -- A command for a worker names no slot; 0 stands for that.
  unfoldable pub route : Outside → ℕ → Packet → Main m f → Arrivals → Event m f
  unfolding run_short is_short is_long text
  route o fd p s segs =
      if is_short p.type
      then run_short o fd p s segs
      else if is_long m f p.type
      then handled
          (record s { queue = s.queue ++ (record { netfd = fd; packet = p; state = 0 } ∷ []) }) segs
      else handled (record s { server = reply m f fd response (text "无效命令") s.server }) segs

  -- A connection that is lost, as the result of `recv_tlv` tells, leaves the epoll set and the table.
  unfoldable pub drop_client : ℕ → Main m f → Main m f
  unfolding unwatch
  drop_client fd s = record s {
    table = remove_client_state fd s.table;
    watched = unwatch fd s.watched;
    refused = fd ∷ s.refused;
  }

  unfoldable pub received : Outside → ℕ → Main m f → Recv → Event m f
  unfolding route drop_client is_lost
  received o fd s waits = blocks
  received o fd s exits = ends
  received o fd s (returns code p segs) =
      if is_lost code then handled (drop_client fd s) segs else route o fd p s segs

  unfoldable pub readable_from :
      Outside → (fd current_time : ℕ) → Arrivals → Main m f → Option ℕ × Table → Event m f
  unfolding received unwatch
  readable_from o fd current_time segs s (none, t) =
      handled (record s { table = t; watched = unwatch fd s.watched; refused = fd ∷ s.refused })
        segs
  readable_from o fd current_time segs s (some i, t) =
      received o fd (record s { table = touch i current_time t }) (recv_tlv segs)

  unfoldable pub readable : Outside → (fd current_time now : ℕ) → Arrivals → Main m f → Event m f
  unfolding readable_from
  readable o fd current_time now segs s =
      readable_from o fd current_time segs s (get_client_state fd now s.table)

  unfoldable pub new_from : (fd current_time : ℕ) → Main m f → Option ℕ × Table → Main m f
  new_from fd current_time s (none, t) = record s { table = t; refused = fd ∷ s.refused }
  new_from fd current_time s (some i, t) = record s {
    table = touch i current_time t;
    watched = fd ∷ s.watched;
  }

  unfoldable pub sweep : ℕ → Main m f → Main m f
  unfolding unwatch_all check_timeout_clients
  sweep now s =
      let t = check_timeout_clients now s.table in
      record s {
        table = t;
        watched = unwatch_all (drop (length s.table.closed) t.closed) s.watched;
      }

  unfoldable pub check_time : Round → Loop m f → Loop m f
  unfolding sweep
  check_time r l =
      if leb 1 (r.current_time - l.last_check_time)
      then record { main = sweep r.now l.main; last_check_time = r.current_time }
      else l

  unfoldable pub events : Round → (last_check_time : ℕ) → List Ready → Main m f → Turned m f
  unfolding then_events new_from readable get_client_state
  events r last [] s = goes_on (record { main = s; last_check_time = last })
  events r last (exit_pipe ∷ es) s = cleaned s
  events r last (listener none ∷ es) s = events r last es s
  events r last (listener (some fd) ∷ es) s =
      events r last es (new_from fd r.current_time s (get_client_state fd r.now s.table))
  events r last (data_on fd segs o ∷ es) s =
      then_events m f (events r last es) (readable o fd r.current_time r.now segs s)

  unfoldable pub turn : Round → Loop m f → Turned m f
  unfolding check_time events
  turn r l = let l' = check_time r l in events r l'.last_check_time r.ready_set l'.main

  unfoldable pub main_loop : List Round → Loop m f → Turned m f
  unfolding turn then_rounds
  main_loop [] l = goes_on l
  main_loop (r ∷ rs) l = then_rounds m f (main_loop rs) (turn r l)
