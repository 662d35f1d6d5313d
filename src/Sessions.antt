-- ===== src/Sessions.antt =====
-- The sessions that server/solve_command.c keeps between the two packets of a login or of a
-- registration: ten slots and a count, for all the connections together.
pub mod Valid
use cloud_sys.Base.{
  ℕ, zero, suc, ◌+◌, ◌-◌, Bool, true, false, List, [], ◌∷◌, Option, none, some, ltb, ◌==◌,
  if◌then◌else◌, replicate, take, get_or, set, modify,
}
use cloud_sys.CString.{Bytes}

abbrev pub max_sessions : ℕ
max_sessions = 10

-- One slot. The sessions of a login have no salt: theirs is empty here. `state` is 1 where the
-- password is awaited.
pub record Session : Type 0 where
  pub username : Bytes
  pub salt : Bytes
  pub state : ℕ

abbrev pub no_session : Session
no_session = record { username = []; salt = []; state = 0 }

pub record Sessions : Type 0 where
  pub slots : List Session
  pub session_count : ℕ

abbrev pub no_sessions : Sessions
no_sessions = record { slots = replicate max_sessions no_session; session_count = 0 }

-- The loop for a session that awaits a password, among the first `count` slots from `i` on.
unfoldable pub pending_from : (count i : ℕ) → List Session → Option ℕ
pending_from zero i slots = none
pending_from (suc count) i slots =
    let rest = pending_from count (suc i) slots in
    if (get_or slots i no_session).state == 1 then some i else rest

unfoldable pub pending : Sessions → Option ℕ
unfolding pending_from
pending t = pending_from t.session_count 0 t.slots

-- A new session for the name, whose index is the count; `none` where the table is full. A name is
-- copied into 49 of the 50 bytes.
unfoldable pub open_session : Bytes → Bytes → Sessions → Option Sessions
open_session username salt t =
    if ltb t.session_count max_sessions
    then some (record {
      slots =
          set t.slots t.session_count
            (record { username = take 49 username; salt = salt; state = 1 });
      session_count = suc t.session_count;
    })
    else none

-- The session at `i` is reset, and the last one moves to its place.
unfoldable pub close_session : ℕ → Sessions → Sessions
close_session i t =
    let slots = modify t.slots i (λ x. record x { state = 0 }) in
    record {
      slots =
          if ltb i (t.session_count - 1)
          then set slots i (get_or slots (t.session_count - 1) no_session)
          else slots;
      session_count = t.session_count - 1;
    }

-- The last session is taken back: what a failed step of its opening does.
unfoldable pub drop_session : Sessions → Sessions
drop_session t = record {
  slots = modify t.slots (t.session_count - 1) (λ x. record x { state = 0 });
  session_count = t.session_count - 1;
}
