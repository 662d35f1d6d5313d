-- ===== src/Program.antt =====
-- The server as a whole: the main thread of server/main.c, the workers of server/worker.c, and what
-- they share. A step is one event of the main thread or one move of a worker.
pub mod Submits
pub mod Reached
pub mod Tests
use cloud_sys.Base.Int.{ℤ}
use cloud_sys.Base.{ℕ, ◌≡◌, ◌≢◌, ◌<◌, false, true, List, [], ◌∷◌, ◌++◌, Option, none, some}
use cloud_sys.Database.{Mysql}
use cloud_sys.File.{Files}
use cloud_sys.Tlv.{Arrivals}
use cloud_sys.Queue.{LongCommand, Ptr, null, TaskQueue, en_queue}
use cloud_sys.Commands.{Server, Outside}
use cloud_sys.Commands.Long.{long_solve_command}
use cloud_sys.Dispatch.{Main, handled, unwatch, new_client, readable}
use cloud_sys.Dispatch.Turn.{Ready, exit_pipe, listener, data_on, Round, Loop, check_time}
use cloud_sys.Pool.{
  ThreadPool, Worker, testing, waiting, running, System, locked, update, broadcast, note_taken,
}

-- The pool after an event of the main thread, by the commands routed to it before and after the
-- event: a new one is put in the queue under the mutex, and the waiting workers are woken. `malloc`
-- gives the node `a`.
pub data Handed (p : System) (before after : List LongCommand) : System → Type 0 where
  nothing_new : after ≡ before → Handed p before after p
  one_more :
      (a : Ptr) (c : LongCommand) (code : ℤ) (q : TaskQueue)
      → after ≡ before ++ c ∷ []
      → a ≢ null
      → p.pool.task_queue.heap a ≡ none
      → en_queue a c p.pool.task_queue ≡ some (code, q)
      → Handed p before after (record p {
        pool = record p.pool { task_queue = q };
        worker = broadcast p.worker;
        submitted = p.submitted ++ c ∷ [];
      })

module _ (m : Mysql) (f : Files) where
  -- The main thread with the events of its round that are still to come, and the pool. The server's
  -- variables that the workers share stand in `loop`.
  pub record Program : Type 0 where
    pub loop : Loop m f
    pub current_time : ℕ
    pub todo : List Ready
    pub pool : System

  abbrev pub with_main : Program → Main m f → Program
  with_main s t = record s { loop = record s.loop { main = t } }

  -- The main thread moves while it has not set the exit flag; behind that it only waits for the
  -- workers. `now` is the time that the called functions read.
  pub data Moves (s : Program) : Program → Type 0 where
    -- The next round begins.
    turns :
        (r : Round)
        → s.pool.pool.exit_flag ≡ false
        → s.todo ≡ []
        → Moves s (record s {
          loop = check_time m f r s.loop;
          current_time = r.current_time;
          todo = r.ready_set;
        })
    no_connection :
        (es : List Ready)
        → s.pool.pool.exit_flag ≡ false
        → s.todo ≡ listener none ∷ es
        → Moves s (record s { todo = es })
    accepts :
        (fd now : ℕ) (es : List Ready)
        → s.pool.pool.exit_flag ≡ false
        → s.todo ≡ listener (some fd) ∷ es
        → Moves s
            (record (with_main s (new_client m f fd s.current_time now s.loop.main)) { todo = es })
    reads :
        (fd now : ℕ) (segs rest : Arrivals) (o : Outside) (es : List Ready) (t : Main m f)
        (p : System)
        → s.pool.pool.exit_flag ≡ false
        → s.todo ≡ data_on fd segs o ∷ es
        → readable m f o fd s.current_time now segs s.loop.main ≡ handled t rest
        → Handed s.pool s.loop.main.queue t.queue p
        → Moves s (record (with_main s t) { todo = es; pool = p })
    stops :
        (es : List Ready)
        → s.pool.pool.exit_flag ≡ false
        → s.todo ≡ exit_pipe ∷ es
        → Moves s (record s {
          todo = [];
          pool = record s.pool {
            pool = record s.pool.pool { exit_flag = true };
            worker = broadcast s.pool.worker;
          };
        })
    -- A worker gets the lock.
    enters :
        (i : ℕ) (v : Worker) (p : ThreadPool)
        → i < s.pool.pool.workers
        → s.pool.worker i ≡ testing
        → locked s.pool.pool ≡ some (v, p)
        → Moves s (record s {
          pool = record s.pool {
            pool = p;
            worker = update s.pool.worker i v;
            taken = note_taken s.pool.taken v;
          };
        })
    -- A wait may end without a signal.
    rises :
        (i : ℕ)
        → s.pool.worker i ≡ waiting
        → Moves s (record s { pool = record s.pool { worker = update s.pool.worker i testing } })
    -- A worker runs its command, with the new listening socket `sock`, and closes the client's
    -- descriptor, which leaves the epoll set by that. This is what happens where the calls of
    -- `send_tlv` return; where SIGPIPE ends the process instead, there are no further steps.
    works :
        (i sock : ℕ) (c : LongCommand) (ret : ℤ) (t : Server m f)
        → s.pool.worker i ≡ running c
        → long_solve_command m f (some sock) c.netfd c.packet s.loop.main.server ≡ some (ret, t)
        → Moves s
            (record (with_main s
              (record s.loop.main { server = t; watched = unwatch c.netfd s.loop.main.watched })) {
                pool = record s.pool {
                  worker = update s.pool.worker i testing;
                  finished = s.pool.finished ++ c ∷ [];
                };
              })

  -- Any number of steps, the last one last.
  pub data Reaches (s : Program) : Program → Type 0 where
    at_once : Reaches s s
    and_then : {t u : Program} → Reaches s t → Moves t u → Reaches s u

  -- The server behind its start, before the first round.
  abbrev pub begun : Loop m f → System → Program
  begun l p = record { loop = l; current_time = l.last_check_time; todo = []; pool = p }
