-- ===== src/Dispatch.antt =====
-- The body of the event loop of server/main.c: a new connection, and a descriptor that is readable.
pub mod Routes
pub mod Turn
pub mod Sound
pub mod Tests
use cloud_sys.Base.{
  ℕ, Bool, true, false, ◌&&◌, ◌||◌, List, [], ◌∷◌, ◌++◌, Option, none, some, leb, ◌==◌,
  if◌then◌else◌, modify, get_or,
}
use cloud_sys.CString.{text}
use cloud_sys.Database.{Mysql}
use cloud_sys.Clients.{ClientState, Table, no_client, get_client_state, touch}
use cloud_sys.Tlv.{Packet, Arrivals, Recv, waits, exits, returns, recv_tlv}
use cloud_sys.Queue.{LongCommand}
use cloud_sys.File.{Files}
use cloud_sys.Commands.{
  Server, Outside, TlvType, cd, usercancel, remove, puts, gets, response, type_code, reply,
}
use cloud_sys.Commands.Login.{Ran}
use cloud_sys.Commands.Short.{solve_command}

-- `epoll_del`.
unfoldable pub unwatch : ℕ → List ℕ → List ℕ
unwatch fd [] = []
unwatch fd (x ∷ xs) = let rest = unwatch fd xs in if x == fd then rest else x ∷ rest

module _ (m : Mysql) (f : Files) where
  -- The state of the main thread. `watched` are the client descriptors in the epoll set, and
  -- `refused` those that the main thread has closed itself.
  pub record Main : Type 0 where
    pub table : Table
    pub server : Server m f
    pub queue : List LongCommand
    pub watched : List ℕ
    pub refused : List ℕ

  -- What becomes of one event: the thread waits in `recv`, the process ends, it writes outside an
  -- array, or the next event can come.
  pub data Event : Type 0 where
    blocks : Event
    ends : Event
    crash : Event
    handled : Main → Arrivals → Event

  -- `accept` gave `fd`.
  unfoldable pub new_client : (fd current_time now : ℕ) → Main → Main
  new_client fd current_time now s =
      let (slot, t) = get_client_state fd now s.table in
      elim slot [
        | none ↦ record s { table = t; refused = fd ∷ s.refused }
        | some i ↦ record s { table = touch i current_time t; watched = fd ∷ s.watched }
      ]

  unfoldable pub is_short : ℕ → Bool
  unfolding type_code
  is_short type =
      (leb (type_code cd) type && leb type (type_code usercancel)) || (type == type_code remove)

  unfoldable pub is_long : ℕ → Bool
  unfolding type_code
  is_long type = (type == type_code puts) || (type == type_code gets)

  -- `solve_command` with the pointer to slot `i`.
  unfoldable pub run_short : Outside → ℕ → ℕ → Packet → Main → Arrivals → Event
  run_short o fd i p s segs =
      let server = record s.server { client = get_or s.table.states i no_client } in
      elim (solve_command m f o fd p server) [
        | none ↦ crash
        | some r ↦
            let t = record s.table { states = modify s.table.states i (λ c. r.1.client) } in
            handled (record s { table = t; server = r.1 }) segs
      ]

  -- The packet is handed on by its type.
  unfoldable pub route : Outside → ℕ → ℕ → Packet → Main → Arrivals → Event
  unfolding run_short is_short is_long
  route o fd i p s segs =
      if is_short p.type
      then run_short o fd i p s segs
      else if is_long p.type
      then handled
          (record s { queue = s.queue ++ (record { netfd = fd; packet = p; state = i } ∷ []) }) segs
      else handled (record s { server = reply m f fd response (text "无效命令") s.server }) segs

  -- The result of `recv_tlv` is not looked at.
  unfoldable pub received : Outside → ℕ → ℕ → Main → Recv → Event
  unfolding route
  received o fd i s waits = blocks
  received o fd i s exits = ends
  received o fd i s (returns code p segs) = route o fd i p s segs

  -- From what `get_client_state` gives.
  unfoldable pub readable_from :
      Outside → (fd current_time : ℕ) → Arrivals → Main → Option ℕ × Table → Event
  unfolding received unwatch
  readable_from o fd current_time segs s (none, t) =
      handled (record s { table = t; watched = unwatch fd s.watched; refused = fd ∷ s.refused })
        segs
  readable_from o fd current_time segs s (some i, t) =
      received o fd i (record s { table = touch i current_time t }) (recv_tlv segs)

  -- `segs` is what arrives on `fd`.
  unfoldable pub readable : Outside → (fd current_time now : ℕ) → Arrivals → Main → Event
  unfolding readable_from
  readable o fd current_time now segs s =
      readable_from o fd current_time segs s (get_client_state fd now s.table)
