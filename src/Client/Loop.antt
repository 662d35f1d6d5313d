-- ===== src/Client/Loop.antt =====
-- The loop of `handle_filesystem_commands` of client/client_logic.c, and its call by `handle_login`.
use cloud_sys.Base.{Bool, true, false, List, [], ◌∷◌, Option, none, some, if◌then◌else◌}
use cloud_sys.CString.{Bytes}
use cloud_sys.Client.{
  Dialogue, finish, polled, then_dialogue, Ending, lost, no_encryption, entered, ended, overflow,
  no_file, no_connection, no_command, no_answer, odd_reply, refused, shown, saved,
}
use cloud_sys.Client.Files.{handle_command}
use cloud_sys.Client.Login.{handle_login}

-- What is typed in a round, and what `fopen` and `connect` then give.
pub record Typed : Type 0 where
  pub command : Bytes
  pub word : Bytes
  pub second : Bytes
  pub open_local : Bytes → Option Bytes
  pub connected : Bool

-- The program ends, or a word has left its array.
unfoldable pub stops : Ending → Bool
stops ended = true
stops overflow = true
stops lost = false
stops no_encryption = false
stops entered = false
stops no_file = false
stops no_connection = false
stops no_command = false
stops no_answer = false
stops (odd_reply type) = false
stops (refused v) = false
stops (shown v) = false
stops (saved file_path content) = false

-- From the end of a round to the rounds behind it.
unfoldable pub resume : (Bytes → Dialogue) → Bytes → Ending → Dialogue
unfolding stops
resume next path e = if stops e then finish path e else next path

-- `none` is a `scanf` that reads no word. Behind the last input the loop waits for a command.
unfoldable pub handle_filesystem_commands :
    (username : Bytes) → List (Option Typed) → (path : Bytes) → Dialogue
unfolding resume
handle_filesystem_commands username [] path = polled (finish path entered)
handle_filesystem_commands username (none ∷ is) path =
    polled (handle_filesystem_commands username is path)
handle_filesystem_commands username (some t ∷ is) path = polled (
    then_dialogue (handle_command t.open_local t.connected username path t.command t.word t.second)
      (resume (handle_filesystem_commands username is)))

-- A login that is let in goes on to the files, and does not come back.
unfoldable pub let_in : (username : Bytes) → List (Option Typed) → Bytes → Ending → Dialogue
unfolding handle_filesystem_commands
let_in username is path entered = handle_filesystem_commands username is path
let_in username is path lost = finish path lost
let_in username is path no_encryption = finish path no_encryption
let_in username is path ended = finish path ended
let_in username is path overflow = finish path overflow
let_in username is path no_file = finish path no_file
let_in username is path no_connection = finish path no_connection
let_in username is path no_command = finish path no_command
let_in username is path no_answer = finish path no_answer
let_in username is path (odd_reply type) = finish path (odd_reply type)
let_in username is path (refused v) = finish path (refused v)
let_in username is path (shown v) = finish path (shown v)
let_in username is path (saved file_path content) = finish path (saved file_path content)

-- The whole of `handle_login`.
unfoldable pub login_session :
    (crypt_r : Bytes → Bytes → Option Bytes) (username password : Bytes)
    → List (Option Typed)
    → Dialogue
unfolding let_in
login_session crypt_r username password is =
    then_dialogue (handle_login crypt_r username password) (let_in username is)
