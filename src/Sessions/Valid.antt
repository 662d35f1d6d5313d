-- ===== src/Sessions/Valid.antt =====
-- The invariant of a table of sessions of server/solve_command.c: it is idle, or one session is
-- pending.
use cloud_sys.Base.{
  ◌≡◌, refl, ◌⊎◌, List, [], ◌∷◌, none, some, arith, length, take, get_or, set, modify,
}
use cloud_sys.CString.{Bytes}
use cloud_sys.Sessions.{
  Session, Sessions, max_sessions, no_session, no_sessions, pending, pending_from, open_session,
  close_session,
}

unfoldable pub IsIdle : Sessions → Type 0
IsIdle t = (length t.slots ≡ max_sessions) × (t.session_count ≡ 0)

unfoldable pub IsPending : Session → Sessions → Type 0
IsPending x t =
    (length t.slots ≡ max_sessions)
    × (t.session_count ≡ 1)
    × (get_or t.slots 0 no_session ≡ x)
    × (x.state ≡ 1)

unfoldable pub IsValid : Sessions → Type 0
IsValid t = IsIdle t ⊎ ((x : Session) × IsPending x t)

pub pending-Idle : (t : Sessions) → IsIdle t → pending t ≡ none
unfolding pending pending_from IsIdle
pending-Idle t h = rw h.1

pub pending-Pending : (t : Sessions) (x : Session) → IsPending x t → pending t ≡ some 0
unfolding pending pending_from IsPending
pending-Pending t x h = rw (h.1, h.2, h.3)

unfoldable pub opened : Bytes → Bytes → Session
opened username salt = record { username = take 49 username; salt = salt; state = 1 }

open_slots :
    (slots : List Session) (x : Session)
    → length slots ≡ max_sessions
    → (length (set slots 0 x) ≡ max_sessions) × (get_or (set slots 0 x) 0 no_session ≡ x)
open_slots [] x h = absurd (ground arith)
open_slots (y ∷ ys) x h = (h, refl)

pub open_session-Pending :
    (username salt : Bytes) (t : Sessions)
    → IsIdle t
    → (u : Sessions) × (open_session username salt t ≡ some u) × IsPending (opened username salt) u
unfolding open_session IsIdle IsPending opened
open_session-Pending username salt t h =
    let x = opened username salt in
    let s = open_slots t.slots x h.0 in
    (record { slots = set t.slots 0 x; session_count = 1 }, rw h.1, (s.0, refl, s.1, refl))

close_slots :
    (slots : List Session)
    → length slots ≡ max_sessions
    → length (modify slots 0 (λ x. record x { state = 0 })) ≡ max_sessions
close_slots [] h = h
close_slots (y ∷ ys) h = h

pub close_session-Idle : (t : Sessions) (x : Session) → IsPending x t → IsIdle (close_session 0 t)
unfolding close_session IsIdle IsPending
close_session-Idle t x h = (rw h.1 (close_slots t.slots h.0), rw h.1)

pub no_sessions-Idle : IsIdle no_sessions
unfolding IsIdle
no_sessions-Idle = (refl, refl)
