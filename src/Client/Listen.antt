-- ===== src/Client/Listen.antt =====
-- `listen_server` of client/client_logic.c, which waits for the server's "closed".
use cloud_sys.Base.{[], ◌∷◌, none, some, leb, if◌then◌else◌, length}
use cloud_sys.CString.{text, c_str, bytes_eq}
use cloud_sys.Commands.{response_size}
use cloud_sys.Tlv.{Arrivals}

-- How it goes: the thread waits in `recv`, returns NULL, ends the process, or writes behind `buf`.
pub data Listening : Type 0 where
  hangs returns_null exits_process overruns : Listening

-- A call of `recv` gives a whole run of bytes, where it has less than RESPONSE_SIZE. Else it fills
-- `buf`, and the terminating NUL is written behind it.
unfoldable pub listen_server : Arrivals → Listening
unfolding text
listen_server [] = hangs
listen_server (none ∷ segs) = returns_null
listen_server (some [] ∷ segs) = exits_process
listen_server (some (b ∷ bs) ∷ segs) =
    let rest = listen_server segs in
    if leb response_size (length (b ∷ bs))
    then overruns
    else if bytes_eq (c_str (b ∷ bs)) (text "closed")
    then exits_process
    else rest
