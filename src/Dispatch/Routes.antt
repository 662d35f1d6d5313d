-- ===== src/Dispatch/Routes.antt =====
-- Which packets go where, and what a closed connection leads to.
use cloud_sys.Base.{
  ℕ, ◌≤◌, ◌<◌, ◌≡◌, ◌⊎◌, inl, inr, ◌++◌, refl, ap, ◌∙◌, true, false, [], ◌∷◌, some, arith,
}
use cloud_sys.CString.{text}
use cloud_sys.Database.{Mysql}
use cloud_sys.Clients.{Table, get_client_state, touch}
use cloud_sys.Tlv.{Packet, Arrivals, empty_packet}
use cloud_sys.Tlv.Faults.{recv_tlv-closed}
use cloud_sys.File.{Files}
use cloud_sys.Commands.{Outside, response, reply}
use cloud_sys.Dispatch.{
  Main, handled, is_short, is_long, route, run_short, received, readable_from, readable,
}

module _ (m : Mysql) (f : Files) where
  short_test : (type : ℕ) → 2 ≤ type → type ≤ 12 → is_short m f type ≡ true
  unfolding is_short
  short_test type l u = ground arith

  long_test :
      (type : ℕ) → 13 ≤ type → type ≤ 14 → (is_short m f type ≡ false) × (is_long m f type ≡ true)
  unfolding is_short is_long
  long_test type l u = (ground arith, ground arith)

  other_test :
      (type : ℕ)
      → (type < 2) ⊎ (14 < type)
      → (is_short m f type ≡ false) × (is_long m f type ≡ false)
  unfolding is_short is_long
  other_test type h = (ground arith, ground arith)

  ranges :
      (type : ℕ)
      → ((2 ≤ type) × (type ≤ 12)) ⊎ (((13 ≤ type) × (type ≤ 14)) ⊎ ((type < 2) ⊎ (14 < type)))
  ranges type = ground arith

  route-other :
      (o : Outside) (fd i : ℕ) (p : Packet) (s : Main m f) (segs : Arrivals)
      → (p.type < 2) ⊎ (14 < p.type)
      → route m f o fd i p s segs
        ≡ handled (record s { server = reply m f fd response (text "无效命令") s.server }) segs
  unfolding route
  route-other o fd i p s segs h = rw (other_test p.type h).0 (rw (other_test p.type h).1 refl)

  -- A packet of a type from 2 to 12 is run by `solve_command` at once; one of type 13 or 14 goes to
  -- the end of the queue with its descriptor and its client's slot; every other is answered with
  -- "无效命令".
  pub route-cases :
      (o : Outside) (fd i : ℕ) (p : Packet) (s : Main m f) (segs : Arrivals)
      → (((2 ≤ p.type) × (p.type ≤ 12))
          × (route m f o fd i p s segs ≡ run_short m f o fd i p s segs))
        ⊎ ((((13 ≤ p.type) × (p.type ≤ 14))
              × (route m f o fd i p s segs
                  ≡ handled
                      (record s {
                        queue = s.queue ++ (record { netfd = fd; packet = p; state = i } ∷ []);
                      })
                      segs))
            ⊎ (((p.type < 2) ⊎ (14 < p.type))
                × (route m f o fd i p s segs
                    ≡ handled
                        (record s { server = reply m f fd response (text "无效命令") s.server })
                        segs)))
  unfolding route
  route-cases o fd i p s segs = elim (ranges p.type) [
    | inl (l, u) ↦ inl ((l, u), rw (short_test p.type l u) refl)
    | inr (inl (l, u)) ↦
        inr (inl ((l, u), rw (long_test p.type l u).0 (rw (long_test p.type l u).1 refl)))
    | inr (inr h) ↦ inr (inr (h, route-other o fd i p s segs h))
  ]

  -- A readable descriptor of a client whose connection is closed, as long as the call of `send_tlv`
  -- returns: the time in its slot is renewed and "无效命令" is handed to `send_tlv`; nothing is closed.
  pub readable-closed :
      (o : Outside) (fd current_time now i : ℕ) (segs : Arrivals) (s : Main m f) (t : Table)
      → get_client_state fd now s.table ≡ (some i, t)
      → readable m f o fd current_time now (some [] ∷ segs) s
        ≡ handled
            (record s {
              table = touch i current_time t;
              server = reply m f fd response (text "无效命令") s.server;
            })
            (some [] ∷ segs)
  unfolding readable readable_from received
  readable-closed o fd current_time now i segs s t found =
      let s' = record s { table = touch i current_time t } in
      ap (readable_from m f o fd current_time (some [] ∷ segs) s) found
      ∙ ap (received m f o fd i s') (recv_tlv-closed segs)
      ∙ route-other o fd i empty_packet s' (some [] ∷ segs) (inl (omega arith))
