-- ===== src/Program/Submits.antt =====
-- The commands that an event of the main thread routes to the workers.
use cloud_sys.Base.{
  ℕ, ◌≡◌, refl, inl, inr, Bool, true, false, List, [], ◌∷◌, ◌++◌, Option, none, some, get_or, leb,
  ◌-◌, Bool-cases, Option-cases, if◌then◌else◌,
}
use cloud_sys.Database.{Mysql}
use cloud_sys.File.{Files}
use cloud_sys.Queue.{LongCommand}
use cloud_sys.Clients.{Table, no_client, get_client_state, touch}
use cloud_sys.Tlv.{Packet, Arrivals, Recv, waits, exits, returns, recv_tlv}
use cloud_sys.Commands.{Outside}
use cloud_sys.Commands.Short.{solve_command}
use cloud_sys.Dispatch.{
  Main, Event, blocks, ends, crash, handled, new_client, is_short, is_long, run_short, route,
  received, readable_from, readable,
}
use cloud_sys.Dispatch.Turn.{Round, Loop, sweep, check_time}

-- The list is as before, or has one more command at its end.
pub data Grown (before : List LongCommand) : List LongCommand → Type 0 where
  same : Grown before before
  longer : (c : LongCommand) → Grown before (before ++ c ∷ [])

module _ (m : Mysql) (f : Files) where
  abbrev pub Adds : List LongCommand → Event m f → Type 0
  Adds before blocks = Unit
  Adds before ends = Unit
  Adds before crash = Unit
  Adds before (handled t segs) = Grown before t.queue

  Adds-if :
      (before : List LongCommand) (b : Bool) (x y : Event m f)
      → Adds before x
      → Adds before y
      → Adds before (if b then x else y)
  Adds-if before true x y p q = p
  Adds-if before false x y p q = q

  run_short-Adds :
      (o : Outside) (fd i : ℕ) (p : Packet) (s : Main m f) (segs : Arrivals)
      → Adds s.queue (run_short m f o fd i p s segs)
  unfolding run_short
  run_short-Adds o fd i p s segs =
      let server = record s.server { client = get_or s.table.states i no_client } in
      elim (Option-cases (solve_command m f o fd p server)) [
        | inl z ↦ rw (run_short, z) tt
        | inr (r, z) ↦ rw (run_short, z) same
      ]

  route-Adds :
      (o : Outside) (fd i : ℕ) (p : Packet) (s : Main m f) (segs : Arrivals)
      → Adds s.queue (route m f o fd i p s segs)
  unfolding route
  route-Adds o fd i p s segs =
      Adds-if s.queue (is_short m f p.type) _ _ (run_short-Adds o fd i p s segs)
        (Adds-if s.queue (is_long m f p.type) _ _ (longer _) same)

  -- An event of a client leaves the commands routed to the workers, or adds one behind them.
  pub readable-Adds :
      (o : Outside) (fd current_time now : ℕ) (segs : Arrivals) (s : Main m f)
      → Adds s.queue (readable m f o fd current_time now segs s)
  unfolding readable readable_from received
  readable-Adds o fd current_time now segs s = slot (get_client_state fd now s.table)
    where
      packet : (i : ℕ) (s' : Main m f) (r : Recv) → Adds s'.queue (received m f o fd i s' r)
      packet i s' waits = tt
      packet i s' exits = tt
      packet i s' (returns code p rest) = route-Adds o fd i p s' rest

      slot : (r : Option ℕ × Table) → Adds s.queue (readable_from m f o fd current_time segs s r)
      slot (none, t) = same
      slot (some i, t) = packet i (record s { table = touch i current_time t }) (recv_tlv segs)

  pub new_client-queue :
      (fd current_time now : ℕ) (s : Main m f)
      → (new_client m f fd current_time now s).queue ≡ s.queue
  unfolding new_client
  new_client-queue fd current_time now s = elim (Option-cases (get_client_state fd now s.table).0) [
    | inl z ↦ rw (new_client, z) refl
    | inr (i, z) ↦ rw (new_client, z) refl
  ]

  pub check_time-queue : (r : Round) (l : Loop m f) → (check_time m f r l).main.queue ≡ l.main.queue
  unfolding check_time sweep
  check_time-queue r l = elim (Bool-cases (leb 1 (r.current_time - l.last_check_time))) [
    | inl e ↦ rw e refl
    | inr e ↦ rw e refl
  ]
