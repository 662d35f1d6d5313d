-- ===== src/Net.antt =====
-- The set-up of sockets and of epoll: server/tcp.c, server/epoll.c and client/epoll.c, and the
-- connections of client/client_logic.c and client/password_auth_client.c. The calls of the operating
-- system are a parameter.
pub mod Connect
pub mod Tests
use cloud_sys.Base.Int.{ℤ, pos, negsuc}
use cloud_sys.Base.{ℕ, ◌-◌, ◌%◌, Bool, true, Option, none, some}
use cloud_sys.CString.{Bytes, atoi}

-- An address of the internet: the number of a machine, and a port.
abbrev pub Address : Type 0
Address = ℕ × ℕ

-- The calls on sockets, over the state of the operating system. A descriptor of `none` is -1, and
-- `false` is a call that has failed.
pub record Net : Type 1 where
  pub World : Type 0
  pub socket : World → Option ℕ × World
  -- `setsockopt` with SO_REUSEADDR.
  pub reuse_address : ℕ → World → Bool × World
  pub bind : ℕ → Address → World → Bool × World
  pub listen : ℕ → ℕ → World → Bool × World
  pub connect : ℕ → Address → World → Bool × World
  pub close : ℕ → World → World
  pub inet_addr : Bytes → ℕ
  -- `none` where `inet_pton` returns 0 or less.
  pub inet_pton : Bytes → Option ℕ
  pub epoll_create : World → Option ℕ × World
  -- `epoll_ctl` with EPOLL_CTL_ADD for EPOLLIN, and with EPOLL_CTL_DEL.
  pub epoll_ctl_add : (epfd fd : Option ℕ) → World → Bool × World
  pub epoll_ctl_del : (epfd fd : Option ℕ) → World → Bool × World

-- `htons` takes the low sixteen bits.
unfoldable pub low_half : ℤ → ℕ
low_half (pos n) = n % 65536
low_half (negsuc n) = 65535 - n % 65536

unfoldable pub port_of : Bytes → ℕ
unfolding low_half
port_of port = low_half (atoi port)

module _ (n : Net) where
  -- From what `socket` gives: ERROR_CHECK ends the process at -1, which is `none`. What `setsockopt`,
  -- `bind` and `listen` return is not looked at.
  unfoldable pub listening : Bytes → Bytes → Option ℕ × n.World → Option (ℕ × n.World)
  unfolding port_of
  listening ip port (none, w) = none
  listening ip port (some fd, w) =
      let reused = n.reuse_address fd w in
      let bound = n.bind fd (n.inet_addr ip, port_of port) reused.1 in
      some (fd, (n.listen fd 50 bound.1).1)

  unfoldable pub tcp_init : Bytes → Bytes → n.World → Option (ℕ × n.World)
  unfolding listening
  tcp_init ip port w = listening ip port (n.socket w)

  unfoldable pub epoll_add : (epfd fd : Option ℕ) → n.World → ℤ × n.World
  epoll_add epfd fd w = (pos 0, (n.epoll_ctl_add epfd fd w).1)

  unfoldable pub epoll_del : (epfd fd : Option ℕ) → n.World → ℤ × n.World
  epoll_del epfd fd w = (pos 0, (n.epoll_ctl_del epfd fd w).1)
