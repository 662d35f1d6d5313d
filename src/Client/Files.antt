-- ===== src/Client/Files.antt =====
-- `handle_filesystem_commands` of client/client_logic.c: what one typed command does. The words that
-- are typed, what `fopen` and `fread` give for a local file, and whether `connect` succeeds are
-- arguments. `recv_tlv` never returns a negative number.
use cloud_sys.Base.{
  ℕ, Bool, ◌&&◌, [], ◌∷◌, ◌++◌, Option, none, some, ltb, ◌==◌, ◌-◌, if◌then◌else◌, length, take,
}
use cloud_sys.CString.{Bytes, text, c_str, bytes_eq}
use cloud_sys.PathStack.{path_max}
use cloud_sys.Cd.{snprintf}
use cloud_sys.Tlv.{Packet, char_size}
use cloud_sys.Commands.{TlvType, ls, cd, mkdir, rmdir, puts, gets, remove, response, type_code}
use cloud_sys.Client.{
  Dialogue, finish, cleared, ask, session, transfer, ended, overflow, odd_reply, refused, shown,
  saved, no_file, no_connection, no_command, no_answer,
}

-- The room of `command`, `path`, `dirname`, `rmdirname` and `filename`.
abbrev pub typed_size : ℕ
typed_size = 1024

-- Words that each fit an array of this size.
abbrev pub typed : Bytes → ℕ → Bytes → Dialogue → Dialogue
typed path room word next = if ltb (length word) room then next else finish path overflow

unfoldable pub ls_answer : Bytes → ℕ → Packet → Dialogue
unfolding type_code
ls_answer path ret tlv = finish path (
    if tlv.type == type_code ls
    then shown (c_str tlv.value)
    else if tlv.type == type_code response
    then refused (c_str tlv.value)
    else odd_reply tlv.type)

-- `virtual_path` becomes what the server sent.
unfoldable pub cd_answer : Bytes → ℕ → Packet → Dialogue
unfolding type_code
cd_answer path ret tlv =
    if ltb 0 ret && (tlv.type == type_code cd)
    then (let new_path = take (path_max - 1) (c_str tlv.value) in finish new_path (shown new_path))
    else finish path no_answer

-- The answer to "mkdir" and to "rmdir".
unfoldable pub dir_answer : TlvType → Bytes → ℕ → Packet → Dialogue
dir_answer type path ret tlv =
    finish path
      (if ltb 0 ret && (tlv.type == type_code type) then shown (c_str tlv.value) else no_answer)

unfoldable pub remove_answer : Bytes → ℕ → Packet → Dialogue
unfolding type_code
remove_answer path ret tlv =
    finish path
      (if tlv.type == type_code remove then shown (c_str tlv.value) else refused (c_str tlv.value))

unfoldable pub puts_answer : Bytes → ℕ → Packet → Dialogue
puts_answer path ret tlv = finish path (shown (c_str tlv.value))

-- The name, a bar, and the content up to its first NUL, cut to `value[4096]`.
unfoldable pub upload_value : (filename content : Bytes) → Bytes
upload_value filename content = snprintf char_size (filename ++ b'|' ∷ c_str content)

-- `fopen` gave the content of the file, or NULL.
unfoldable pub puts_file : Bytes → Bool → (filename : Bytes) → Option Bytes → Dialogue
unfolding puts_answer upload_value
puts_file path connected filename none = finish path no_file
puts_file path connected filename (some content) =
    if connected
    then ask transfer puts (upload_value filename content) (puts_answer path)
    else finish path no_connection

-- `local_file_path`.
unfoldable pub local_path : (username filename : Bytes) → Bytes
unfolding text
local_path username filename =
    snprintf path_max (text "/home/xuewentao/project/test_dir/" ++ (username ++ b'/' ∷ filename))

-- Whatever the answer is, its value becomes the file.
unfoldable pub gets_answer : (path username filename : Bytes) → ℕ → Packet → Dialogue
unfolding local_path
gets_answer path username filename ret tlv =
    finish path (saved (local_path username filename) (take tlv.len tlv.value))

-- What is typed behind the name of a command: one word, and for "puts" a second one.
module _ (open_local : Bytes → Option Bytes) (connected : Bool) (username : Bytes) where
  unfoldable pub type_puts : (path filename file_path : Bytes) → Dialogue
  unfolding puts_file
  type_puts path filename file_path =
      typed path typed_size filename
        (typed path path_max file_path (puts_file path connected filename (open_local file_path)))

  unfoldable pub type_gets : (path filename : Bytes) → Dialogue
  unfolding gets_answer
  type_gets path filename = typed path typed_size filename (
      if connected
      then ask transfer gets filename (gets_answer path username filename)
      else finish path no_connection)

  -- The branches on the name.
  unfoldable pub named_command : (path command word second : Bytes) → Dialogue
  unfolding type_puts type_gets ls_answer cd_answer dir_answer remove_answer text
  named_command path command word second =
      if bytes_eq command (text "pwd")
      then finish path (shown path)
      else if bytes_eq command (text "ls")
      then cleared (ask session ls [] (ls_answer path))
      else if bytes_eq command (text "cd")
      then typed path typed_size word (ask session cd word (cd_answer path))
      else if bytes_eq command (text "mkdir")
      then typed path typed_size word (ask session mkdir word (dir_answer mkdir path))
      else if bytes_eq command (text "rmdir")
      then typed path typed_size word (ask session rmdir word (dir_answer rmdir path))
      else if bytes_eq command (text "puts")
      then type_puts path word second
      else if bytes_eq command (text "gets")
      then type_gets path word
      else if bytes_eq command (text "remove")
      then typed path typed_size word (ask session remove word (remove_answer path))
      else if bytes_eq command (text "quit")
      then finish path ended
      else finish path no_command

  -- One round of the loop, behind its non-blocking `recv`: `path` is `virtual_path` before it.
  unfoldable pub handle_command : (path command word second : Bytes) → Dialogue
  unfolding named_command
  handle_command path command word second =
      typed path typed_size command (named_command path command word second)
