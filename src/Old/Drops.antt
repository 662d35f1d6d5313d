-- ===== src/Old/Drops.antt =====
-- What the check on `recv_tlv` in server/old_main.c does, against server/main.c without it.
use cloud_sys.Base.Int.{ℤ, pos}
use cloud_sys.Base.{ℕ, ◌≡◌, ◌∙◌, refl, ap, true, [], ◌∷◌, ◌++◌, some, arith, if◌then◌else◌}
use cloud_sys.CString.{Bytes}
use cloud_sys.Database.{Mysql}
use cloud_sys.File.{Files}
use cloud_sys.Clients.{Table, is_client, is_free, find, touch}
use cloud_sys.Clients as Clients
use cloud_sys.Clients.Distinct.{Absent}
use cloud_sys.Clients.Lookup.{IsValid}
use cloud_sys.Clients.Same.{touch-IsValid}
use cloud_sys.Clients.Remove.{remove_client_state-Absent}
use cloud_sys.Tlv.{Packet, Arrivals, returns, recv_tlv}
use cloud_sys.Tlv.Send.{image}
use cloud_sys.Tlv.Receive.{stream, IsOpen, recv_tlv-image}
use cloud_sys.Commands.{Outside, type_code}
use cloud_sys.Dispatch.{Main, Event, handled, unwatch, is_short, run_short, route}
use cloud_sys.Dispatch as Dispatch
use cloud_sys.Old.Main as Old
use cloud_sys.Old.Main.{
  get_client_state, known_or, take_slot, is_lost, drop_client, received, readable_from, readable,
}

abbrev pub ls_packet : Packet
ls_packet = record { type = 3; len = 0; value = [] }

module _ (m : Mysql) (f : Files) where
  -- The client behind `fd` is dropped: nothing but the table, the epoll set and the closed descriptors
  -- changes, and no slot is left in use by it.
  pub record IsDropped (fd : ℕ) (s u : Main m f) : Type 0 where
    pub absent : Absent fd u.table.states
    pub unwatched : u.watched ≡ unwatch fd s.watched
    pub closed : u.refused ≡ fd ∷ s.refused
    pub untouched : (u.server ≡ s.server) × (u.queue ≡ s.queue)

  known :
      (fd now i : ℕ) (t : Table)
      → find (is_client fd) t.states ≡ some i
      → get_client_state fd now t ≡ (some i, t)
  unfolding get_client_state known_or
  known fd now i t e = ap (known_or t (take_slot fd now t (find is_free t.states))) e

  -- A connection that has a slot in a valid table, and on which `recv_tlv` returns 0 or less: the
  -- old loop drops the client.
  pub readable-IsDropped :
      (o : Outside) (fd current_time now i : ℕ) (segs rest : Arrivals) (s : Main m f) (code : ℤ)
      (p : Packet)
      → IsValid s.table
      → find (is_client fd) s.table.states ≡ some i
      → recv_tlv segs ≡ returns code p rest
      → is_lost code ≡ true
      → (u : Main m f) × (readable m f o fd current_time now segs s ≡ handled u rest)
        × IsDropped fd s u
  unfolding readable readable_from received drop_client
  readable-IsDropped o fd current_time now i segs rest s code p v e r lost =
      let s' = record s { table = touch i current_time s.table } in
      (
        drop_client m f fd s',
        ap (readable_from m f o fd current_time segs s) (known fd now i s.table e)
            ∙ (ap (received m f o fd s') r
                ∙ ap
                    (λ b.
                      if b
                      then handled (drop_client m f fd s') rest
                      else Old.route m f o fd p s' rest)
                    lost),
        record {
          absent =
              remove_client_state-Absent fd s'.table
                (touch-IsValid i current_time s.table v).distinct;
          unwatched = refl;
          closed = refl;
          untouched = (refl, refl);
        },
      )

  known_now :
      (fd now i : ℕ) (t : Table)
      → find (is_client fd) t.states ≡ some i
      → Clients.get_client_state fd now t ≡ (some i, t)
  unfolding Clients.get_client_state
  known_now fd now i t e = rw (Clients.get_client_state, e) refl

  routed_now :
      (o : Outside) (fd i : ℕ) (s : Main m f) (rest : Arrivals)
      → route m f o fd i ls_packet s rest ≡ run_short m f o fd i ls_packet s rest
  unfolding route is_short type_code
  routed_now o fd i s rest = refl

  -- "ls" of a client that has a slot in a valid table: its packet has an empty value, so that
  -- `recv_tlv` returns 0. The old loop drops the client, without an answer; the present one hands the
  -- packet to `solve_command`.
  pub readable-ls :
      (o : Outside) (fd current_time now i : ℕ) (segs : Arrivals) (after : Bytes) (s : Main m f)
      → IsValid s.table
      → find (is_client fd) s.table.states ≡ some i
      → IsOpen segs
      → stream segs ≡ image 3 [] ++ after
      → (rest : Arrivals) × (stream rest ≡ after)
        × ((u : Main m f) × (readable m f o fd current_time now segs s ≡ handled u rest)
            × IsDropped fd s u)
        × (Dispatch.readable m f o fd current_time now segs s
            ≡ run_short m f o fd i ls_packet
                (record s { table = touch i current_time s.table })
                rest)
  unfolding Dispatch.readable Dispatch.readable_from Dispatch.received is_lost
  readable-ls o fd current_time now i segs after s v e open_segs arrive =
      let (rest, r, left) = recv_tlv-image 3 [] after segs (omega arith) open_segs arrive in
      let s' = record s { table = touch i current_time s.table } in
      (
        rest,
        left,
        readable-IsDropped o fd current_time now i segs rest s (pos 0) ls_packet v e r refl,
        ap (Dispatch.readable_from m f o fd current_time segs s) (known_now fd now i s.table e)
            ∙ (ap (Dispatch.received m f o fd i s') r ∙ routed_now o fd i s' rest),
      )
