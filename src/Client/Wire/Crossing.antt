-- ===== src/Client/Wire/Crossing.antt =====
-- A packet between the client's `send_tlv` and `recv_tlv` (client/tlv.c) and the server's
-- (server/password_auth_server.c).
use cloud_sys.Base.Int.{pos}
use cloud_sys.Base.{
  ℕ, ◌≤◌, ◌<◌, min, ◌≡◌, refl, ap, ◌∙◌, [], ◌∷◌, ◌++◌, some, arith, length, take, drop, take_all,
  lt→ltb,
}
use mathlib.Core.List.{append_assoc}
use cloud_sys.CString.{Bytes}
use cloud_sys.Tlv.{SendPlan, Arrivals, Packet, le_bytes, from_le, packed, char_size}
use cloud_sys.Tlv.Encoding.{
  length-le_bytes, from_le-le_bytes_four, from_le-le_bytes_two, drop-append_left, take-append_left,
}
use cloud_sys.Tlv.Send.{image}
use cloud_sys.Tlv.Receive.{IsOpen, stream, recv_tlv-image}
use cloud_sys.Tlv as Server
use cloud_sys.Client.Wire.{
  went, send_once, send_tlv, returns, recv_once, got, put_back, recv_value, recv_length, recv_type,
  recv_tlv,
}

-- A call that is allowed all its bytes sends them.
send_once_whole :
    (bytes wire : Bytes) (k : ℕ) (plan : SendPlan)
    → length bytes ≤ k
    → send_once bytes (went wire (some k ∷ plan)) ≡ went (wire ++ bytes) plan
unfolding send_once
send_once_whole bytes wire k plan h =
    let e : min k (length bytes) ≡ length bytes = omega arith in
    ap (λ n. went (wire ++ take n bytes) plan) e
    ∙ ap (λ b. went (wire ++ b) plan) (take_all (length bytes) bytes (omega arith))

send_tlv-whole :
    (type : ℕ) (value : Bytes) (k₁ k₂ k₃ : ℕ) (plan : SendPlan)
    → 4 ≤ k₁
    → 2 ≤ k₂
    → length (packed value) ≤ k₃
    → send_tlv type value (some k₁ ∷ some k₂ ∷ some k₃ ∷ plan) ≡ went (image type value) plan
unfolding send_tlv image
send_tlv-whole type value k₁ k₂ k₃ plan a b c =
    let v = packed value in
    let tb = le_bytes 4 type in
    let lb = le_bytes 2 (length v) in
    ap (λ s. send_once v (send_once lb s))
      (send_once_whole tb [] k₁ (some k₂ ∷ some k₃ ∷ plan) (omega (arith, length-le_bytes 4 type)))
    ∙ ap (send_once v)
        (send_once_whole lb tb k₂ (some k₃ ∷ plan) (omega (arith, length-le_bytes 2 (length v))))
    ∙ send_once_whole v (tb ++ lb) k₃ plan c
    ∙ ap (λ w. went w plan) (append_assoc tb lb v)

-- If the client's three calls of `send` may send the four bytes of the type, the two of the length
-- and the whole value, `send_tlv` puts the packet on the wire; and on an open connection whose
-- stream begins with these bytes, however it is cut into runs, the server's `recv_tlv` returns this
-- type and the value, cut to the buffer, and leaves what comes behind them unread.
pub send_tlv-recv_tlv :
    (type : ℕ) (value after : Bytes) (k₁ k₂ k₃ : ℕ) (plan : SendPlan) (segs : Arrivals)
    → type < 4294967296
    → 4 ≤ k₁
    → 2 ≤ k₂
    → length (packed value) ≤ k₃
    → IsOpen segs
    → stream segs ≡ image type value ++ after
    → (send_tlv type value (some k₁ ∷ some k₂ ∷ some k₃ ∷ plan) ≡ went (image type value) plan)
      × (rest : Arrivals) × (Server.recv_tlv segs
          ≡ Server.returns
              (pos (length (packed value)))
              (record { type = type; len = length (packed value); value = packed value })
              rest)
      × (stream rest ≡ after)
send_tlv-recv_tlv type value after k₁ k₂ k₃ plan segs small a b c o e =
    let r = recv_tlv-image type value after segs small o e in
    (send_tlv-whole type value k₁ k₂ k₃ plan a b c, r.0, r.1, r.2)

-- What a call of `recv` takes of a run, and leaves.
recv_once-front :
    (b : ℕ) (bs more : Bytes) (segs : Arrivals)
    → recv_once (length (b ∷ bs)) (some ((b ∷ bs) ++ more) ∷ segs)
      ≡ got (b ∷ bs) (put_back more segs)
unfolding recv_once
recv_once-front b bs more segs =
    ap (λ t. got (b ∷ t) (put_back (drop (length bs) (bs ++ more)) segs)) (take-append_left bs more)
    ∙ ap (λ d. got (b ∷ bs) (put_back d segs)) (drop-append_left bs more)

recv_value_whole :
    (tlv : Packet) (bytes : Bytes) (segs : Arrivals)
    → tlv.len ≡ length bytes
    → length bytes < char_size
    → recv_value tlv (got bytes segs)
      ≡ returns (length bytes) (record { type = tlv.type; len = length bytes; value = bytes }) segs
unfolding recv_value
recv_value_whole tlv bytes segs e short =
    rw (e, lt→ltb (length bytes) char_size short)
      (ap
        (λ v.
          returns (length bytes) (record { type = tlv.type; len = length bytes; value = v }) segs)
        (take-append_left bytes (drop (length bytes) tlv.value)))

-- The length goes before a value of one byte at least.
recv_length_whole :
    (tlv : Packet) (b : ℕ) (bs more : Bytes) (segs : Arrivals)
    → length (b ∷ bs) < char_size
    → recv_length tlv
        (recv_once 2 (some (le_bytes 2 (length (b ∷ bs)) ++ ((b ∷ bs) ++ more)) ∷ segs))
      ≡ returns
          (length (b ∷ bs))
          (record { type = tlv.type; len = length (b ∷ bs); value = b ∷ bs })
          (put_back more segs)
unfolding recv_length recv_once le_bytes
recv_length_whole tlv b bs more segs short =
    let len = length (b ∷ bs) in
    ap
      (λ n.
        recv_value (record { type = tlv.type; len = n; value = tlv.value })
          (recv_once n (some ((b ∷ bs) ++ more) ∷ segs)))
      (from_le-le_bytes_two len (omega arith))
    ∙ ap (recv_value (record { type = tlv.type; len = len; value = tlv.value }))
        (recv_once-front b bs more segs)
    ∙ recv_value_whole (record { type = tlv.type; len = len; value = tlv.value }) (b ∷ bs)
        (put_back more segs) refl short

-- An answer that arrives in one run, with more behind it or not, is read whole.
pub recv_tlv-one_run :
    (tlv : Packet) (type b : ℕ) (bs more : Bytes) (segs : Arrivals)
    → type < 4294967296
    → length (b ∷ bs) < char_size
    → recv_tlv tlv
        (some (le_bytes 4 type ++ (le_bytes 2 (length (b ∷ bs)) ++ ((b ∷ bs) ++ more))) ∷ segs)
      ≡ returns
          (length (b ∷ bs))
          (record { type = type; len = length (b ∷ bs); value = b ∷ bs })
          (put_back more segs)
unfolding recv_tlv recv_type recv_once le_bytes
recv_tlv-one_run tlv type b bs more segs small short =
    let rest = le_bytes 2 (length (b ∷ bs)) ++ ((b ∷ bs) ++ more) in
    ap
      (λ t.
        recv_length (record { type = t; len = tlv.len; value = tlv.value })
          (recv_once 2 (some rest ∷ segs)))
      (from_le-le_bytes_four type small)
    ∙ recv_length_whole (record { type = type; len = tlv.len; value = tlv.value }) b bs more segs
        short
