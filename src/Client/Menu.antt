-- ===== src/Client/Menu.antt =====
-- The main loop of client/password_auth_client.c, behind its connection to the server.
use cloud_sys.Base.{ℕ, ◌==◌, List, [], ◌∷◌, Option, if◌then◌else◌}
use cloud_sys.CString.{Bytes, text, c_str, bytes_eq}
use cloud_sys.Client.{Dialogue}
use cloud_sys.Client.Login.{handle_register, handle_cancel}
use cloud_sys.Client.Loop.{Typed, login_session}

-- What `epoll_wait` reports: bytes of the server, as they then stand in `buf`, or a number typed,
-- with what is typed behind it: a name, a password, and commands on files.
pub data MenuEvent : Type 0 where
  from_server : (buf : Bytes) → MenuEvent
  chosen : (choice : ℕ) (username password : Bytes) → List (Option Typed) → MenuEvent

-- What an event leads to: the next event, a dialogue, or the end of the program.
pub data Menu : Type 0 where
  again leaves : Menu
  runs : Dialogue → Menu

module _ (crypt_r : Bytes → Bytes → Option Bytes) where
  unfoldable pub choose : ℕ → (username password : Bytes) → List (Option Typed) → Menu
  unfolding handle_register login_session handle_cancel
  choose choice username password is =
      if choice == 1
      then runs (handle_register crypt_r username password)
      else if choice == 2
      then runs (login_session crypt_r username password is)
      else if choice == 3
      then runs (handle_cancel username)
      else if choice == 0
      then leaves
      else again

  unfoldable pub menu_event : MenuEvent → Menu
  unfolding choose text
  menu_event (from_server buf) = if bytes_eq (c_str buf) (text "closed") then leaves else again
  menu_event (chosen choice username password is) = choose choice username password is

  -- One round of the loop: `rest` are the dialogues behind it.
  abbrev pub then_menu : Menu → List Dialogue → List Dialogue
  then_menu again rest = rest
  then_menu leaves rest = []
  then_menu (runs d) rest = d ∷ rest

  -- The dialogues of a list of events, up to the end of the program.
  unfoldable pub menu_from : List MenuEvent → List Dialogue
  unfolding menu_event
  menu_from [] = []
  menu_from (e ∷ es) = then_menu (menu_event e) (menu_from es)
