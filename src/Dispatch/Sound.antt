-- ===== src/Dispatch/Sound.antt =====
-- The invariant of the main loop.
use cloud_sys.Base.{
  ℕ, ◌-◌, ◌≡◌, refl, subst, inl, inr, Bool, true, false, List, [], ◌∷◌, Option, none, some, leb,
  get_or, Option-cases, Bool-cases, if◌then◌else◌,
}
use cloud_sys.Database.{Mysql}
use cloud_sys.File.{Files}
use cloud_sys.Clients.{Table, no_client, get_client_state, touch}
use cloud_sys.Clients.Lookup.{IsValid, get_client_state-IsValid}
use cloud_sys.Clients.Expiry.{check_timeout_clients-IsValid}
use cloud_sys.Clients.Same.{modify-IsValid, touch-IsValid}
use cloud_sys.Tlv.{Packet, Arrivals, Recv, waits, exits, returns, recv_tlv}
use cloud_sys.Commands.{Outside, send, reply}
use cloud_sys.Commands.Short.{solve_command}
use cloud_sys.Commands.Keeps.{AreValid}
use cloud_sys.Commands.OneSession.{solve_command-IsValid}
use cloud_sys.Commands.SameClient.{solve_command-Same}
use cloud_sys.Dispatch.{
  Main, Event, blocks, ends, crash, handled, new_client, is_short, is_long, run_short, route,
  received, readable_from, readable,
}
use cloud_sys.Dispatch.Turn.{
  Ready, exit_pipe, listener, data_on, Round, Loop, Turned, stuck, exited, faulted, cleaned,
  goes_on, sweep, check_time, then_events, events, turn, then_rounds, main_loop,
}

module _ (m : Mysql) (f : Files) where
  -- The tables of clients and of sessions are valid.
  pub record IsSound (s : Main m f) : Type 0 where
    pub clients : IsValid s.table
    pub sessions : AreValid s.server

  -- What holds of an event that is over.
  abbrev pub SoundEvent : Event m f → Type 0
  SoundEvent blocks = Unit
  SoundEvent ends = Unit
  SoundEvent crash = Unit
  SoundEvent (handled s segs) = IsSound s

  SoundEvent-if :
      (b : Bool) (x y : Event m f) → SoundEvent x → SoundEvent y → SoundEvent (if b then x else y)
  SoundEvent-if true x y p q = p
  SoundEvent-if false x y p q = q

  pub new_client-IsSound :
      (fd current_time now : ℕ) (s : Main m f)
      → IsSound s
      → IsSound (new_client m f fd current_time now s)
  unfolding new_client
  new_client-IsSound fd current_time now s h =
      slot (get_client_state fd now s.table) (get_client_state-IsValid fd now s.table h.clients)
    where
      slot :
          (r : Option ℕ × Table)
          → IsValid r.1
          → IsSound (elim r.0 [
            | none ↦ record s { table = r.1; refused = fd ∷ s.refused }
            | some i ↦ record s { table = touch i current_time r.1; watched = fd ∷ s.watched }
          ])
      slot (none, t) v = record { clients = v; sessions = h.sessions }
      slot (some i, t) v = record {
        clients = touch-IsValid i current_time t v;
        sessions = h.sessions;
      }

  run_short-IsSound :
      (o : Outside) (fd i : ℕ) (p : Packet) (s : Main m f) (segs : Arrivals)
      → IsSound s
      → SoundEvent (run_short m f o fd i p s segs)
  unfolding run_short AreValid
  run_short-IsSound o fd i p s segs h =
      let c = get_or s.table.states i no_client in
      let server = record s.server { client = c } in
      elim (Option-cases (solve_command m f o fd p server)) [
        | inl z ↦ rw (run_short, z) tt
        | inr ((ret, t), z) ↦
            rw (run_short, z)
              (record {
                clients =
                    modify-IsValid (λ x. t.client) i s.table
                      (solve_command-Same m f c o fd p server t ret (refl, refl) z) h.clients;
                sessions = solve_command-IsValid m f o fd p server t ret h.sessions z;
              })
      ]

  route-IsSound :
      (o : Outside) (fd i : ℕ) (p : Packet) (s : Main m f) (segs : Arrivals)
      → IsSound s
      → SoundEvent (route m f o fd i p s segs)
  unfolding route reply send AreValid
  route-IsSound o fd i p s segs h =
      SoundEvent-if (is_short m f p.type) _ _ (run_short-IsSound o fd i p s segs h) (
        SoundEvent-if (is_long m f p.type) _ _
          (record { clients = h.clients; sessions = h.sessions })
          (record { clients = h.clients; sessions = h.sessions }))

  pub readable-IsSound :
      (o : Outside) (fd current_time now : ℕ) (segs : Arrivals) (s : Main m f)
      → IsSound s
      → SoundEvent (readable m f o fd current_time now segs s)
  unfolding readable readable_from received
  readable-IsSound o fd current_time now segs s h =
      slot (get_client_state fd now s.table) (get_client_state-IsValid fd now s.table h.clients)
    where
      packet :
          (i : ℕ) (s' : Main m f) (r : Recv) → IsSound s' → SoundEvent (received m f o fd i s' r)
      packet i s' waits k = tt
      packet i s' exits k = tt
      packet i s' (returns code p rest) k = route-IsSound o fd i p s' rest k

      slot :
          (r : Option ℕ × Table)
          → IsValid r.1
          → SoundEvent (readable_from m f o fd current_time segs s r)
      slot (none, t) v = record { clients = v; sessions = h.sessions }
      slot (some i, t) v =
          packet i (record s { table = touch i current_time t }) (recv_tlv segs)
            (record { clients = touch-IsValid i current_time t v; sessions = h.sessions })

  pub check_time-IsSound :
      (r : Round) (l : Loop m f) → IsSound l.main → IsSound (check_time m f r l).main
  unfolding check_time sweep
  check_time-IsSound r l h = elim (Bool-cases (leb 1 (r.current_time - l.last_check_time))) [
    | inl e ↦ rw e (record {
      clients = (check_timeout_clients-IsValid r.now l.main.table h.clients).0;
      sessions = h.sessions;
    })
    | inr e ↦ rw e h
  ]

  -- What holds of a round that is over.
  abbrev SoundTurned : Turned m f → Type 0
  SoundTurned stuck = Unit
  SoundTurned exited = Unit
  SoundTurned faulted = Unit
  SoundTurned (cleaned s) = IsSound s
  SoundTurned (goes_on l) = IsSound l.main

  then_events-IsSound :
      (rest : Main m f → Turned m f) (e : Event m f)
      → ((s : Main m f) → IsSound s → SoundTurned (rest s))
      → SoundEvent e
      → SoundTurned (then_events m f rest e)
  unfolding then_events
  then_events-IsSound rest blocks k h = tt
  then_events-IsSound rest ends k h = tt
  then_events-IsSound rest crash k h = tt
  then_events-IsSound rest (handled s segs) k h = k s h

  events-IsSound :
      (r : Round) (last : ℕ) (es : List Ready) (s : Main m f)
      → IsSound s
      → SoundTurned (events m f r last es s)
  unfolding events
  events-IsSound r last [] s h = h
  events-IsSound r last (exit_pipe ∷ es) s h = h
  events-IsSound r last (listener none ∷ es) s h = events-IsSound r last es s h
  events-IsSound r last (listener (some fd) ∷ es) s h =
      events-IsSound r last es _ (new_client-IsSound fd r.current_time r.now s h)
  events-IsSound r last (data_on fd segs o ∷ es) s h =
      then_events-IsSound (events m f r last es) _ (events-IsSound r last es)
        (readable-IsSound o fd r.current_time r.now segs s h)

  then_rounds-IsSound :
      (rest : Loop m f → Turned m f) (r : Turned m f)
      → ((l : Loop m f) → IsSound l.main → SoundTurned (rest l))
      → SoundTurned r
      → SoundTurned (then_rounds m f rest r)
  unfolding then_rounds
  then_rounds-IsSound rest stuck k h = tt
  then_rounds-IsSound rest exited k h = tt
  then_rounds-IsSound rest faulted k h = tt
  then_rounds-IsSound rest (cleaned s) k h = h
  then_rounds-IsSound rest (goes_on l) k h = k l h

  main_loop-SoundTurned :
      (rs : List Round) (l : Loop m f) → IsSound l.main → SoundTurned (main_loop m f rs l)
  unfolding main_loop turn
  main_loop-SoundTurned [] l h = h
  main_loop-SoundTurned (r ∷ rs) l h =
      then_rounds-IsSound (main_loop m f rs) _ (main_loop-SoundTurned rs) (
        events-IsSound r (check_time m f r l).last_check_time r.ready_set _
          (check_time-IsSound r l h))

  -- From a state whose tables are valid, any number of rounds of the main loop, with any connections,
  -- packets, closed and failed connections and times, that do not stop the thread, lead to a state
  -- whose tables are valid: a hundred slots, no two in use by one descriptor, no more in use than are
  -- counted; and at most one login and one registration under way, in the first slot of ten.
  pub main_loop-IsSound :
      (rs : List Round) (l l' : Loop m f)
      → IsSound l.main
      → main_loop m f rs l ≡ goes_on l'
      → IsSound l'.main
  main_loop-IsSound rs l l' h e = subst SoundTurned e (main_loop-SoundTurned rs l h)
