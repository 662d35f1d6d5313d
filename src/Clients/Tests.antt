-- ===== src/Clients/Tests.antt =====
-- The client table at two connections.
use cloud_sys.Base.Int.{pos}
use cloud_sys.Base.{
  ℕ, ◌≡◌, ◌<◌, refl, [], ◌∷◌, ◌++◌, map, arith, replicate, true, false, length, ◌+◌,
}
use cloud_sys.Clients.{ClientState, Table, no_client, get_client_state, check_timeout_clients}
use cloud_sys.Clients.Lookup.{
  alive_count, IsValid, Absent-replicate, AreDistinct-replicate, Held, get_client_state-Held,
}
use cloud_sys.Clients.Sweep.{expire, stale_fds, check_timeout_clients-expire}
use cloud_sys.Clients.Expiry.{check_timeout_clients-drift}

abbrev client : ℕ → ℕ → ClientState
client fd seen = record {
  netfd = fd;
  username = [];
  logged_in = false;
  current_pwd_id = pos 1;
  virtual_path = [];
  is_alive = true;
  last_active = seen;
}

-- Descriptor 7 was last heard of at time 10, descriptor 8 at time 14.
abbrev two : Table
two = record {
  states = client 7 10 ∷ client 8 14 ∷ replicate 98 no_client;
  client_count = 2;
  closed = [];
}

two-IsValid : IsValid two
unfolding alive_count
two-IsValid = record {
  size = refl;
  distinct =
      (λ e. (refl, Absent-replicate 7 98), (λ e. Absent-replicate 8 98, AreDistinct-replicate 98));
  counted = omega arith;
}

get_client_state-Held_example : Held 9 15 two (get_client_state 9 15 two)
get_client_state-Held_example = get_client_state-Held 9 15 two

-- At time 17 descriptor 7 has been silent for seven seconds, descriptor 8 for three.
seven_is_stale : stale_fds 17 two.states ≡ 7 ∷ []
unfolding stale_fds
seven_is_stale = refl

check_timeout_clients-expire_example : check_timeout_clients 17 two ≡ record {
  states = map (expire 17) two.states;
  client_count = 2;
  closed = [] ++ stale_fds 17 two.states;
}
check_timeout_clients-expire_example =
    check_timeout_clients-expire 17 two two-IsValid.size two-IsValid.distinct

check_timeout_clients-drift_example :
    (alive_count (check_timeout_clients 17 two).states + length (stale_fds 17 two.states)
      ≡ alive_count two.states)
    × ((check_timeout_clients 17 two).client_count ≡ 2)
    × (alive_count (check_timeout_clients 17 two).states
        < (check_timeout_clients 17 two).client_count)
check_timeout_clients-drift_example =
    check_timeout_clients-drift 17 two two-IsValid (λ e. cc seven_is_stale)
