-- ===== src/Tlv.antt =====
-- The packets of server/password_auth_server.c (`send_tlv`, `recv_tlv`) and server/tlv.c
-- (`tlv_unpack`). The type goes over the wire as a 4-byte enum and the length as a uint16_t, in the
-- byte order of the machine, which is little-endian.
pub mod Encoding
pub mod Send
pub mod Receive
pub mod Faults
pub mod Tests
use cloud_sys.Base.Int.{ℤ, pos, negsuc}
use cloud_sys.Base.{
  ℕ, zero, suc, ◌+◌, ◌-◌, ◌*◌, ◌/◌, ◌%◌, ◌^◌, min, Bool, List, [], ◌∷◌, ◌++◌, Option, none, some,
  ltb, leb, ◌==◌, if◌then◌else◌, length, take, drop,
}
use cloud_sys.CString.{Bytes, c_str}

abbrev pub char_size : ℕ
char_size = 4096

-- `tlv_packet_t`: of `value` the bytes that were copied in; the rest of the buffer is zero.
pub record Packet : Type 0 where
  pub type : ℕ
  pub len : ℕ
  pub value : Bytes

abbrev pub empty_packet : Packet
empty_packet = record { type = 0; len = 0; value = [] }

-- A number in `n` bytes, the lowest first.
unfoldable pub le_bytes : ℕ → ℕ → Bytes
le_bytes zero x = []
le_bytes (suc n) x = (x % 256) ∷ le_bytes n (x / 256)

unfoldable pub from_le : Bytes → ℕ
from_le [] = 0
from_le (b ∷ bs) = b + 256 * from_le bs

-- What the calls of `send` will return: a number of bytes, or -1.
abbrev pub SendPlan : Type 0
SendPlan = List (Option ℕ)

-- `while (total < n) { sent = send(…); total += sent; }`. `total` is a size_t, so -1 wraps it.
-- The wire is what was sent so far. `none`: the last call does not return.
pub send_loop : Bytes → ℕ → Bytes → SendPlan → Option (Bytes × SendPlan)
send_loop buf total wire [] = if ltb total (length buf) then none else some (wire, [])
send_loop buf total wire (none ∷ plan) =
    let rest = send_loop buf ((total + (2 ^ 64 - 1)) % 2 ^ 64) wire plan in
    if ltb total (length buf) then rest else some (wire, none ∷ plan)
send_loop buf total wire (some k ∷ plan) =
    let n = min k (length buf - total) in
    let rest = send_loop buf ((total + n) % 2 ^ 64) (wire ++ take n (drop total buf)) plan in
    if ltb total (length buf) then rest else some (wire, some k ∷ plan)

abbrev pub then_send : Option (Bytes × SendPlan) → Bytes → Option (Bytes × SendPlan)
then_send none buf = none
then_send (some (wire, plan)) buf = send_loop buf 0 wire plan

-- The value as it is packed: cut to the buffer, with its terminator.
abbrev pub packed : Bytes → Bytes
packed value = take (char_size - 1) value

finish_send : Option (Bytes × SendPlan) → Option (ℤ × Bytes × SendPlan)
finish_send none = none
finish_send (some (wire, plan)) = some (pos 0, wire, plan)

-- The return value, what went over the wire, and the rest of the plan.
pub send_tlv : ℕ → Bytes → SendPlan → Option (ℤ × Bytes × SendPlan)
unfolding send_loop finish_send
send_tlv type value plan =
    let v = packed value in
    finish_send
      (then_send (then_send (send_loop (le_bytes 4 type) 0 [] plan) (le_bytes 2 (length v))) v)

-- What arrives: runs of bytes, a close (an empty run), or an error (`none`). A `recv` takes what
-- it asks for from the front run, or all of it.
abbrev pub Arrivals : Type 0
Arrivals = List (Option Bytes)

pub data Loop : Type 0 where
  blocked : Loop
  closed : Arrivals → Loop
  errored : Arrivals → Loop
  complete : Bytes → Arrivals → Loop

-- The loop that fills `n` bytes of the buffer, `got` holding the first `total`.
pub recv_loop : ℕ → ℕ → Bytes → Arrivals → Loop
recv_loop n total got [] = if ltb total n then blocked else complete got []
recv_loop n total got (none ∷ segs) =
    if ltb total n then errored segs else complete got (none ∷ segs)
recv_loop n total got (some s ∷ segs) =
    let need = n - total in
    let whole = recv_loop n (total + length s) (got ++ s) segs in
    let part = complete (got ++ take need s) (some (drop need s) ∷ segs) in
    if ltb total n
    then (if length s == 0
        then closed (some s ∷ segs)
        else if leb (length s) need
        then whole
        else part)
    else complete got (some s ∷ segs)

-- How `recv_tlv` ends: it waits, the process exits in ERROR_CHECK, or it returns.
pub data Recv : Type 0 where
  waits : Recv
  exits : Recv
  returns : ℤ → Packet → Arrivals → Recv

recv_value : ℕ → ℕ → Loop → Recv
recv_value t l blocked = waits
recv_value t l (closed segs) = returns (pos 0) (record { type = t; len = l; value = [] }) segs
recv_value t l (errored segs) = returns (negsuc 0) (record { type = t; len = l; value = [] }) segs
recv_value t l (complete v segs) = returns (pos l) (record { type = t; len = l; value = v }) segs

recv_length : ℕ → Loop → Recv
unfolding recv_value recv_loop
recv_length t blocked = waits
recv_length t (closed segs) = returns (pos 0) (record { type = t; len = 0; value = [] }) segs
recv_length t (errored segs) = exits
recv_length t (complete bs segs) =
    let l = from_le bs in
    if ltb (char_size - 1) l
    then returns (negsuc 0) (record { type = t; len = l; value = [] }) segs
    else recv_value t l (recv_loop l 0 [] segs)

recv_type : Loop → Recv
unfolding recv_length recv_loop
recv_type blocked = waits
recv_type (closed segs) = returns (pos 0) empty_packet segs
recv_type (errored segs) = returns (negsuc 0) empty_packet segs
recv_type (complete bs segs) = recv_length (from_le bs) (recv_loop 2 0 [] segs)

pub recv_tlv : Arrivals → Recv
unfolding recv_type recv_loop
recv_tlv segs = recv_type (recv_loop 4 0 [] segs)

-- `strncpy` fills `len` bytes of the caller's `value[CHAR_SIZE]` and the terminator follows:
-- `none` where that leaves the array.
unfoldable pub tlv_unpack : Packet → Option (ℕ × ℕ × Bytes)
tlv_unpack p =
    if ltb p.len char_size then some (p.type, p.len, c_str (take p.len p.value)) else none
