-- ===== src/Commands.antt =====
-- `solve_command` of server/solve_command.c, which runs the short commands in the main thread, and
-- `long_solve_command` of server/long_solve_command.c, which runs the long ones in a worker.
pub mod Login
pub mod LoginRound
pub mod Keeps
pub mod LoginKeeps
pub mod RegisterKeeps
pub mod SameClient
pub mod OneSession
pub mod Refused
pub mod Register
pub mod Short
pub mod Long
pub mod Unheard
pub mod AnyClient
pub mod Tests
use cloud_sys.Base.Int.{ℤ, pos, negsuc, int_eq}
use cloud_sys.Base.{
  ℕ, zero, suc, ◌+◌, ◌-◌, Bool, true, false, List, [], ◌∷◌, ◌++◌, Option, none, some, ltb, ◌==◌,
  if◌then◌else◌, length, take, get_or,
}
use cloud_sys.CString.{Bytes, text, c_str}
use cloud_sys.Database.{Mysql}
use cloud_sys.PathStack.{Cwd}
use cloud_sys.Clients.{ClientState}
use cloud_sys.Sessions.{Sessions}
use cloud_sys.Tlv.{packed}
use cloud_sys.Cd.{success}
use cloud_sys.File.{Files}

abbrev pub response_size : ℕ
response_size = 4096

-- The TLV_TYPEs of header.h.
pub data TlvType : Type 0 where
  transfile cd ls pwd mkdir rmdir remove fileinfo userregister userlogin userquit usercancel :
      TlvType
  puts gets response chunk_data : TlvType

unfoldable pub type_code : TlvType → ℕ
type_code transfile = 1
type_code cd = 2
type_code ls = 3
type_code pwd = 4
type_code mkdir = 5
type_code rmdir = 6
type_code remove = 7
type_code fileinfo = 8
type_code userregister = 9
type_code userlogin = 10
type_code userquit = 11
type_code usercancel = 12
type_code puts = 13
type_code gets = 14
type_code response = 15
type_code chunk_data = 16

-- The constant that a number of the wire is, where it is one.
unfoldable pub type_of : ℕ → Option TlvType
type_of n =
    get_or
      (none
        ∷ some transfile
        ∷ some cd
        ∷ some ls
        ∷ some pwd
        ∷ some mkdir
        ∷ some rmdir
        ∷ some remove
        ∷ some fileinfo
        ∷ some userregister
        ∷ some userlogin
        ∷ some userquit
        ∷ some usercancel
        ∷ some puts
        ∷ some gets
        ∷ some response
        ∷ some chunk_data
        ∷ [])
      n none

-- A packet that `send_tlv` was given: the descriptor, the type, and the value as it is packed.
abbrev pub OutPacket : Type 0
OutPacket = ℕ × ℕ × Bytes

module _ (m : Mysql) (f : Files) where
  -- What `solve_command` reads and writes. `client` is the slot of the table behind its pointer
  -- `state`, and `sent` the packets sent so far, the last first.
  pub record Server : Type 0 where
    pub logins : Sessions
    pub registers : Sessions
    pub current_username : Bytes
    pub cwd : Cwd
    pub client : ClientState
    pub sent : List OutPacket
    pub db : m.Db
    pub fs : f.Fs

  -- `send_tlv`, which returns 0 whenever it returns. Where `fd` is not connected, or its peer has reset
  -- the connection, SIGPIPE ends the process instead.
  unfoldable pub send : ℕ → TlvType → Bytes → Server → ℤ × Server
  unfolding type_code
  send fd type v s = (success, record s { sent = (fd, type_code type, packed v) ∷ s.sent })

  unfoldable pub reply : ℕ → TlvType → Bytes → Server → Server
  unfolding send
  reply fd type v s = (send fd type v s).1

  -- The response of a command: its own type for SUCCESS, TLV_TYPE_RESPONSE for another code.
  unfoldable pub respond : ℕ → TlvType → ℤ → Bytes → Server → Option (ℤ × Server)
  unfolding reply
  respond fd type ret v s = some (ret, reply fd (if int_eq ret success then type else response) v s)

-- What comes from outside during a command: the calls of `rand`, whether `strdup` finds memory when
-- that many pieces of a path are still to come, the byte before a string in memory, and what freed
-- memory shows.
pub record Outside : Type 0 where
  pub draws : List ℕ
  pub memory : ℕ → Bool
  pub before : ℕ
  pub freed : Bytes × Bytes → Bytes × Bytes
