-- ===== src/Net/Connect.antt =====
-- The connections of the client: `create_tcp_connection` of client/client_logic.c and the start of
-- `main` of client/password_auth_client.c.
use cloud_sys.Base.{ℕ, Bool, true, false, Option, none, some}
use cloud_sys.CString.{Bytes, text}
use cloud_sys.Net.{Net, low_half, port_of, epoll_add}
use cloud_sys.Base.Int.{pos}

module _ (n : Net) where
  -- From what `connect` returned.
  unfoldable pub connected : ℕ → Bool × n.World → Option ℕ × n.World
  connected fd (true, w) = (some fd, w)
  connected fd (false, w) = (none, n.close fd w)

  -- From what `inet_pton` wrote.
  unfoldable pub addressed : ℕ → Bytes → n.World → Option ℕ → Option ℕ × n.World
  unfolding port_of connected
  addressed fd port w none = (none, n.close fd w)
  addressed fd port w (some host) = connected fd (n.connect fd (host, port_of port) w)

  unfoldable pub on_socket : Bytes → Bytes → Option ℕ × n.World → Option ℕ × n.World
  unfolding addressed
  on_socket ip port (none, w) = (none, w)
  on_socket ip port (some fd, w) = addressed fd port w (n.inet_pton ip)

  -- `none` is -1.
  unfoldable pub create_tcp_connection : Bytes → Bytes → n.World → Option ℕ × n.World
  unfolding on_socket
  create_tcp_connection ip port w = on_socket ip port (n.socket w)

  -- `main` of the client up to its loop: -1, or the socket with the epoll set that has it and the
  -- standard input. What `inet_pton` returns is not looked at: where it writes no address, the field
  -- keeps its initial value 0.
  pub data ClientStart : Type 0 where
    gives_up : n.World → ClientStart
    ready : (sock : ℕ) (epfd : Option ℕ) → n.World → ClientStart

  unfoldable pub watching : ℕ → Option ℕ × n.World → ClientStart
  unfolding epoll_add
  watching sock (epfd, w) =
      ready sock epfd (epoll_add n epfd (some 0) (epoll_add n epfd (some sock) w).1).1

  unfoldable pub main_connected : ℕ → Bool × n.World → ClientStart
  unfolding watching
  main_connected sock (false, w) = gives_up w
  main_connected sock (true, w) = watching sock (n.epoll_create w)

  unfoldable pub or_zero : Option ℕ → ℕ
  or_zero none = 0
  or_zero (some a) = a

  unfoldable pub main_socket : Option ℕ × n.World → ClientStart
  unfolding main_connected low_half or_zero
  main_socket (none, w) = gives_up w
  main_socket (some sock, w) =
      let host = or_zero (n.inet_pton (text "127.0.0.1")) in
      main_connected sock (n.connect sock (host, low_half (pos 12345)) w)

  unfoldable pub client_start : n.World → ClientStart
  unfolding main_socket
  client_start w = main_socket (n.socket w)
