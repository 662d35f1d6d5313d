-- ===== src/Clients.antt =====
-- The client table of server/main.c: an array of slots, searched by descriptor.
pub mod Distinct
pub mod Lookup
pub mod Sweep
pub mod Expiry
pub mod Same
pub mod Remove
pub mod Tests
use cloud_sys.Base.Int.{ℤ, pos}
use cloud_sys.Base.{
  ℕ, zero, suc, ◌+◌, ◌-◌, Bool, true, false, not, ◌&&◌, List, [], ◌∷◌, ◌++◌, Option, none, some,
  ltb, ◌==◌, if◌then◌else◌, replicate, get_elem?, modify,
}
use cloud_sys.CString.{Bytes}

abbrev pub max_clients : ℕ
max_clients = 100

abbrev pub timeout_seconds : ℕ
timeout_seconds = 5

-- `client_state_t`. Descriptors are not negative, and times count seconds.
pub record ClientState : Type 0 where
  pub netfd : ℕ
  pub username : Bytes
  pub logged_in : Bool
  pub current_pwd_id : ℤ
  pub virtual_path : Bytes
  pub is_alive : Bool
  pub last_active : ℕ

-- `client_states` and `client_count`. `closed` lists the descriptors that the sweep has sent
-- "closed", taken out of the epoll set and closed, in that order.
pub record Table : Type 0 where
  pub states : List ClientState
  pub client_count : ℕ
  pub closed : List ℕ

abbrev pub no_client : ClientState
no_client = record {
  netfd = 0;
  username = [];
  logged_in = false;
  current_pwd_id = pos 0;
  virtual_path = [];
  is_alive = false;
  last_active = 0;
}

unfoldable pub init : Table
init = record { states = replicate max_clients no_client; client_count = 0; closed = [] }

abbrev pub is_client : ℕ → ClientState → Bool
is_client fd c = c.is_alive && c.netfd == fd

abbrev pub one_on : Option ℕ → Option ℕ
one_on none = none
one_on (some i) = some (suc i)

-- The first slot that passes the test, as the loops over the array look for it.
unfoldable pub find : (ClientState → Bool) → List ClientState → Option ℕ
find p [] = none
find p (c ∷ cs) = let rest = one_on (find p cs) in if p c then some 0 else rest

abbrev pub is_free : ClientState → Bool
is_free c = not c.is_alive

unfoldable pub occupy : ℕ → ℕ → ClientState → ClientState
occupy fd now c = record {
  netfd = fd;
  username = [];
  logged_in = false;
  current_pwd_id = pos 1;
  virtual_path = [];
  is_alive = true;
  last_active = now;
}

take_slot : ℕ → ℕ → Table → Option ℕ → Option ℕ × Table
unfolding occupy
take_slot fd now t none = (none, t)
take_slot fd now t (some i) = (
  some i,
  record t { states = modify t.states i (occupy fd now); client_count = t.client_count + 1 },
)

known_or : Table → Option ℕ × Table → Option ℕ → Option ℕ × Table
known_or t fresh (some i) = (some i, t)
known_or t fresh none = fresh

-- The slot of a descriptor: the one that it has, or else the first free one. `now` is
-- `time(NULL)`, and `none` is NULL.
unfoldable pub get_client_state : ℕ → ℕ → Table → Option ℕ × Table
unfolding find take_slot known_or
get_client_state fd now t =
    known_or t (take_slot fd now t (find is_free t.states)) (find (is_client fd) t.states)

retire : ClientState → ClientState
retire c = record c { is_alive = false; logged_in = false }

drop_slot : Table → Option ℕ → Table
unfolding retire
drop_slot t none = t
drop_slot t (some i) = record t {
  states = modify t.states i retire;
  client_count = t.client_count - 1;
}

pub remove_client_state : ℕ → Table → Table
unfolding find drop_slot
remove_client_state fd t = drop_slot t (find (is_client fd) t.states)

abbrev pub is_stale : ℕ → ClientState → Bool
is_stale now c = c.is_alive && ltb timeout_seconds (now - c.last_active)

abbrev pub kill : ClientState → ClientState
kill c = record c { is_alive = false }

pub sweep_slot : ℕ → ℕ → Table → Option ClientState → Table
unfolding remove_client_state
sweep_slot now i t none = t
sweep_slot now i t (some c) =
    if is_stale now c
    then remove_client_state c.netfd
        (record t { states = modify t.states i kill; closed = t.closed ++ c.netfd ∷ [] })
    else t

pub sweep_from : ℕ → (i rounds : ℕ) → Table → Table
sweep_from now i zero t = t
sweep_from now i (suc r) t = sweep_from now (suc i) r (sweep_slot now i t (get_elem? t.states i))

pub check_timeout_clients : ℕ → Table → Table
unfolding sweep_from sweep_slot
check_timeout_clients now t = sweep_from now 0 max_clients t

-- `state->last_active = current_time`.
unfoldable pub touch : ℕ → ℕ → Table → Table
touch i now t = record t { states = modify t.states i (λ c. record c { last_active = now }) }
