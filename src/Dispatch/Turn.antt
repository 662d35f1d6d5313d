-- ===== src/Dispatch/Turn.antt =====
-- The loop of `main` of server/main.c, behind its start.
use cloud_sys.Base.{ℕ, ◌-◌, List, [], ◌∷◌, Option, none, some, leb, if◌then◌else◌, length, drop}
use cloud_sys.Database.{Mysql}
use cloud_sys.File.{Files}
use cloud_sys.Clients.{check_timeout_clients}
use cloud_sys.Tlv.{Arrivals}
use cloud_sys.Commands.{Outside}
use cloud_sys.Dispatch.{Main, Event, blocks, ends, crash, handled, unwatch, new_client, readable}

-- What `epoll_wait` reports: the exit pipe, the listening socket with what `accept` gives (`none` is
-- -1), or a client's descriptor with what has arrived there, and what comes from outside for its
-- command.
pub data Ready : Type 0 where
  exit_pipe : Ready
  listener : Option ℕ → Ready
  data_on : (fd : ℕ) → Arrivals → Outside → Ready

-- One round: `current_time` is read in the loop, and `now` by the functions that it calls.
pub record Round : Type 0 where
  pub ready_set : List Ready
  pub current_time : ℕ
  pub now : ℕ

unfoldable pub unwatch_all : List ℕ → List ℕ → List ℕ
unfolding unwatch
unwatch_all [] watched = watched
unwatch_all (fd ∷ fds) watched = unwatch_all fds (unwatch fd watched)

module _ (m : Mysql) (f : Files) where
  -- The main thread between two rounds.
  pub record Loop : Type 0 where
    pub main : Main m f
    pub last_check_time : ℕ

  -- How a round ends: the thread waits in `recv` for ever, the process ends in ERROR_CHECK, it writes
  -- outside an array, `cleanup` is reached, or the next round can come.
  pub data Turned : Type 0 where
    stuck exited faulted : Turned
    cleaned : Main m f → Turned
    goes_on : Loop → Turned

  -- `check_timeout_clients`, with what it does to the epoll set.
  unfoldable pub sweep : ℕ → Main m f → Main m f
  unfolding unwatch_all
  sweep now s =
      let t = check_timeout_clients now s.table in
      record s {
        table = t;
        watched = unwatch_all (drop (length s.table.closed) t.closed) s.watched;
      }

  -- The sweep once a second.
  unfoldable pub check_time : Round → Loop → Loop
  unfolding sweep
  check_time r l =
      if leb 1 (r.current_time - l.last_check_time)
      then record { main = sweep r.now l.main; last_check_time = r.current_time }
      else l

  -- From what became of an event of a client; `rest` are the events behind it.
  unfoldable pub then_events : (Main m f → Turned) → Event m f → Turned
  then_events rest blocks = stuck
  then_events rest ends = exited
  then_events rest crash = faulted
  then_events rest (handled s segs) = rest s

  -- The loop over `ready_set`.
  unfoldable pub events : Round → (last_check_time : ℕ) → List Ready → Main m f → Turned
  unfolding then_events
  events r last [] s = goes_on (record { main = s; last_check_time = last })
  events r last (exit_pipe ∷ es) s = cleaned s
  events r last (listener none ∷ es) s = events r last es s
  events r last (listener (some fd) ∷ es) s =
      events r last es (new_client m f fd r.current_time r.now s)
  events r last (data_on fd segs o ∷ es) s =
      then_events (events r last es) (readable m f o fd r.current_time r.now segs s)

  unfoldable pub turn : Round → Loop → Turned
  unfolding check_time events
  turn r l = let l' = check_time r l in events r l'.last_check_time r.ready_set l'.main

  -- Rounds, one after the other.
  unfoldable pub then_rounds : (Loop → Turned) → Turned → Turned
  then_rounds rest stuck = stuck
  then_rounds rest exited = exited
  then_rounds rest faulted = faulted
  then_rounds rest (cleaned s) = cleaned s
  then_rounds rest (goes_on l) = rest l

  unfoldable pub main_loop : List Round → Loop → Turned
  unfolding turn then_rounds
  main_loop [] l = goes_on l
  main_loop (r ∷ rs) l = then_rounds (main_loop rs) (turn r l)
