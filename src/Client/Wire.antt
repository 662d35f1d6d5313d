-- ===== src/Client/Wire.antt =====
-- `send_tlv` and `recv_tlv` of client/tlv.c: one call of `send` or `recv` for each part.
pub mod Crossing
use cloud_sys.Base.Int.{ℤ, pos}
use cloud_sys.Base.{
  ℕ, zero, suc, ◌-◌, ◌≤◌, ◌<◌, ◌≡◌, refl, ap, ◌∙◌, ◌^◌, min, Bool, List, [], ◌∷◌, ◌++◌, Option,
  none, some, ltb, leb, ◌==◌, if◌then◌else◌, length, take, drop, arith, take_all,
}
use cloud_sys.CString.{Bytes}
use cloud_sys.Tlv.{Packet, SendPlan, Arrivals, le_bytes, from_le, packed, char_size}

-- A call that blocks, one that fails and ends the program in ERROR_CHECK, or what has been sent.
pub data Sending : Type 0 where
  blocks exits : Sending
  went : Bytes → SendPlan → Sending

-- One call of `send`.
unfoldable pub send_once : Bytes → Sending → Sending
send_once bytes blocks = blocks
send_once bytes exits = exits
send_once bytes (went wire []) = blocks
send_once bytes (went wire (none ∷ plan)) = exits
send_once bytes (went wire (some k ∷ plan)) = went (wire ++ take (min k (length bytes)) bytes) plan

-- Each call may send less than it is given, and is not repeated. It returns 0.
unfoldable pub send_tlv : ℕ → Bytes → SendPlan → Sending
unfolding send_once
send_tlv type value plan =
    let v = packed value in
    send_once v (send_once (le_bytes 2 (length v)) (send_once (le_bytes 4 type) (went [] plan)))

-- One call of `recv`.
pub data Received : Type 0 where
  waits errored : Received
  closed : Arrivals → Received
  got : Bytes → Arrivals → Received

abbrev pub put_back : Bytes → Arrivals → Arrivals
put_back [] segs = segs
put_back (b ∷ bs) segs = some (b ∷ bs) ∷ segs

-- A call for no bytes returns 0 at once.
unfoldable pub recv_once : ℕ → Arrivals → Received
recv_once zero segs = closed segs
recv_once (suc n) [] = waits
recv_once (suc n) (none ∷ segs) = errored
recv_once (suc n) (some [] ∷ segs) = closed (some [] ∷ segs)
recv_once (suc n) (some (b ∷ bs) ∷ segs) =
    got (take (suc n) (b ∷ bs)) (put_back (drop (suc n) (b ∷ bs)) segs)

-- Bytes written over the start of a buffer.
abbrev pub over : Bytes → Bytes → Bytes
over bytes buffer = bytes ++ drop (length bytes) buffer

-- How `recv_tlv` ends: it waits, the program ends, it writes outside the packet, or it returns.
pub data Reply : Type 0 where
  waiting exiting crash : Reply
  returns : ℕ → Packet → Arrivals → Reply

unfoldable pub recv_value : Packet → Received → Reply
recv_value tlv waits = waiting
recv_value tlv errored = exiting
recv_value tlv (closed segs) = returns 0 tlv segs
recv_value tlv (got bytes segs) =
    let value = over bytes tlv.value in
    if ltb tlv.len char_size
    then returns tlv.len (record tlv { value = take tlv.len value }) segs
    else crash

unfoldable pub recv_length : Packet → Received → Reply
unfolding recv_value recv_once
recv_length tlv waits = waiting
recv_length tlv errored = exiting
recv_length tlv (closed segs) = returns 0 tlv segs
recv_length tlv (got bytes segs) =
    let len = from_le (over bytes (le_bytes 2 tlv.len)) in
    recv_value (record tlv { len = len }) (recv_once len segs)

unfoldable pub recv_type : Packet → Received → Reply
unfolding recv_length recv_once
recv_type tlv waits = waiting
recv_type tlv errored = exiting
recv_type tlv (closed segs) = returns 0 tlv segs
recv_type tlv (got bytes segs) =
    let type = from_le (over bytes (le_bytes 4 tlv.type)) in
    recv_length (record tlv { type = type }) (recv_once 2 segs)

-- `tlv` is what the packet held before. A value that arrives in parts is taken for its first part.
unfoldable pub recv_tlv : Packet → Arrivals → Reply
unfolding recv_type recv_once
recv_tlv tlv segs = recv_type tlv (recv_once 4 segs)
