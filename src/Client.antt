-- ===== src/Client.antt =====
-- The client program: the packets of client/tlv.c, and the dialogues of client/client_logic.c with
-- the server. What the user types is an argument.
pub mod Wire
pub mod Login
pub mod Files
pub mod Loop
pub mod Menu
pub mod Listen
pub mod Talk
pub mod Request
pub mod LoginTalk
pub mod Cd
pub mod Session
pub mod Tests
use cloud_sys.Base.Int.{ℤ}
use cloud_sys.Base.{ℕ, Bool, List, Option}
use cloud_sys.CString.{Bytes}
use cloud_sys.Tlv.{Packet}
use cloud_sys.Commands.{TlvType}

-- How a dialogue ends: `recv_tlv` returned 0 and the socket was closed; `crypt_r` failed; the files
-- can be used; the program ends; an input left its array; there is no local file, no connection, no
-- such command, or no answer to show. Or: the answer had another type; the server refused; a text is
-- shown; a downloaded file is to be written.
pub data Ending : Type 0 where
  lost no_encryption entered ended overflow no_file no_connection no_command no_answer : Ending
  odd_reply : ℕ → Ending
  refused shown : Bytes → Ending
  saved : (file_path content : Bytes) → Ending

-- The socket of the session, or a connection of its own.
pub data Socket : Type 0 where
  session transfer : Socket

-- A dialogue: `send_tlv` with a type and a value, and then `recv_tlv`, with its result and what the
-- packet then holds; `path` is the client's `virtual_path` at the end. `cleared`: the packet is set to
-- zero first. `polled`: a `recv` that does not wait drops what has arrived.
pub data Dialogue : Type 0 where
  finish : (path : Bytes) → Ending → Dialogue
  cleared polled : Dialogue → Dialogue
  ask : Socket → TlvType → Bytes → (ℕ → Packet → Dialogue) → Dialogue

-- A dialogue, and then the one that follows from its end.
unfoldable pub then_dialogue : Dialogue → (Bytes → Ending → Dialogue) → Dialogue
then_dialogue (finish path e) k = k path e
then_dialogue (cleared d) k = cleared (then_dialogue d k)
then_dialogue (polled d) k = polled (then_dialogue d k)
then_dialogue (ask socket type value c) k =
    ask socket type value (λ ret tlv. then_dialogue (c ret tlv) k)
