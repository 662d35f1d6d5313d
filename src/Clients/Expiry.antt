-- ===== src/Clients/Expiry.antt =====
-- What the sweep leaves in the table.
use cloud_sys.Base.{
  ℕ, suc, ◌+◌, ◌≤◌, ◌<◌, ◌≡◌, ◌≢◌, refl, ap, ◌∙◌, inl, inr, Bool, true, false, List, [], ◌∷◌, ◌++◌,
  map, arith, Bool-cases, length,
}
use cloud_sys.Clients.{ClientState, Table, is_client, is_stale, check_timeout_clients}
use cloud_sys.Clients.Distinct.{Absent, AreDistinct}
use cloud_sys.Clients.Lookup.{alive_count, IsValid}
use cloud_sys.Clients.Sweep.{expire, stale_fds, stale-is_alive, check_timeout_clients-expire}

module _ (now : ℕ) where
  expire-Absent : (fd : ℕ) (cs : List ClientState) → Absent fd cs → Absent fd (map (expire now) cs)
  expire-Absent fd [] h = tt
  expire-Absent fd (c ∷ cs) h = (one (is_stale now c) refl, expire-Absent fd cs h.1)
    where
      one : (b : Bool) → is_stale now c ≡ b → is_client fd (expire now c) ≡ false
      one true e = unfold expire in rw e
      one false e = unfold expire in rw e h.0

  -- A slot that is in use after the sweep was in use before it, by the same client.
  kept :
      (c : ClientState)
      → (expire now c).is_alive ≡ true
      → (c.is_alive ≡ true) × ((expire now c).netfd ≡ c.netfd)
  unfolding expire
  kept c h = elim (Bool-cases (is_stale now c)) [
    | inl e ↦ absurd (ground arith)
    | inr e ↦ rw e (rw e at h, refl)
  ]

  expire-AreDistinct : (cs : List ClientState) → AreDistinct cs → AreDistinct (map (expire now) cs)
  expire-AreDistinct [] h = tt
  expire-AreDistinct (c ∷ cs) h = (
    λ alive. let (was, same) = kept c alive in rw same (expire-Absent c.netfd cs (h.0 was)),
    expire-AreDistinct cs h.1,
  )

  length-expire : (cs : List ClientState) → length (map (expire now) cs) ≡ length cs
  length-expire [] = refl
  length-expire (c ∷ cs) = ap suc (length-expire cs)

  alive_count-expire :
      (cs : List ClientState)
      → alive_count (map (expire now) cs) + length (stale_fds now cs) ≡ alive_count cs
  unfolding alive_count stale_fds expire
  alive_count-expire [] = refl
  alive_count-expire (c ∷ cs) = elim (Bool-cases (is_stale now c)) [
    | inl e ↦ rw (e, stale-is_alive now c e) (omega (arith, alive_count-expire cs))
    | inr e ↦ rw e (omega (arith, alive_count-expire cs))
  ]

  nonempty : (fds : List ℕ) → fds ≢ [] → 1 ≤ length fds
  nonempty [] h = absurd (h refl)
  nonempty (fd ∷ fds) h = omega arith

  none_stale : (cs : List ClientState) → stale_fds now (map (expire now) cs) ≡ []
  unfolding stale_fds expire
  none_stale [] = refl
  none_stale (c ∷ cs) = elim (Bool-cases (is_stale now c)) [
    | inl e ↦ rw e (none_stale cs)
    | inr e ↦ rw (e, e) (none_stale cs)
  ]

  module _ (t : Table) (v : IsValid t) where
    swept : check_timeout_clients now t ≡ record {
      states = map (expire now) t.states;
      client_count = t.client_count;
      closed = t.closed ++ stale_fds now t.states;
    }
    swept = check_timeout_clients-expire now t v.size v.distinct

    -- The sweep keeps the table well formed, and leaves no client in it that is overdue.
    pub check_timeout_clients-IsValid :
        IsValid (check_timeout_clients now t)
        × (stale_fds now (check_timeout_clients now t).states ≡ [])
    check_timeout_clients-IsValid = rw swept (
      record {
        size = length-expire t.states ∙ v.size;
        distinct = expire-AreDistinct t.states v.distinct;
        counted = omega (arith, alive_count-expire t.states, v.counted);
      },
      none_stale t.states,
    )

    -- Each client that a sweep ends lowers the number of slots in use by one, and `client_count` by
    -- nothing. So after a sweep of a valid table that ends a client the counter exceeds the number of
    -- slots in use.
    pub check_timeout_clients-drift :
        stale_fds now t.states ≢ []
        → (alive_count (check_timeout_clients now t).states + length (stale_fds now t.states)
            ≡ alive_count t.states)
          × ((check_timeout_clients now t).client_count ≡ t.client_count)
          × (alive_count (check_timeout_clients now t).states
              < (check_timeout_clients now t).client_count)
    check_timeout_clients-drift h = rw swept (
      alive_count-expire t.states,
      refl,
      omega (arith, alive_count-expire t.states, v.counted, nonempty (stale_fds now t.states) h),
    )
