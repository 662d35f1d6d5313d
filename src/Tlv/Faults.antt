-- ===== src/Tlv/Faults.antt =====
-- What `recv_tlv` and `tlv_unpack` do with packets that `send_tlv` does not make.
use cloud_sys.Base.Int.{pos, negsuc}
use cloud_sys.Base.{
  ℕ, ◌-◌, ◌≤◌, ◌<◌, ◌≡◌, ◌≢◌, refl, ap, ◌∙◌, [], ◌∷◌, ◌++◌, none, some, arith, length, take_all,
  lt→ltb, le→ltb, ne→==,
}
use cloud_sys.CString.{Bytes, c_str}
use cloud_sys.Tlv.{
  Packet, Arrivals, complete, recv_loop, exits, returns, recv_tlv, recv_type, le_bytes, from_le,
  char_size, tlv_unpack, empty_packet,
}
use cloud_sys.Tlv.Encoding.{length-le_bytes, from_le-le_bytes_four, from_le-le_bytes_two}
use cloud_sys.Tlv.Receive.{IsOpen, stream, recv_loop-Read}

abbrev pub headed : ℕ → ℕ → Packet
headed type l = record { type = type; len = l; value = [] }

oversize_parts :
    (segs s₁ s₂ : Arrivals) (t l : Bytes)
    → recv_loop 4 0 [] segs ≡ complete t s₁
    → recv_loop 2 0 [] s₁ ≡ complete l s₂
    → char_size ≤ from_le l
    → recv_tlv segs ≡ returns (negsuc 0) (headed (from_le t) (from_le l)) s₂
unfolding recv_tlv
oversize_parts segs s₁ s₂ t l a b big =
    rw a (rw b (rw (lt→ltb (char_size - 1) (from_le l) (omega arith))))

unpack_oversize : (type l : ℕ) → char_size ≤ l → tlv_unpack (headed type l) ≡ none
unfolding tlv_unpack
unpack_oversize type l big = rw (le→ltb l char_size big)

-- A header that announces more than the buffer holds makes `recv_tlv` return -1 with the type and
-- the length already in the packet, and `tlv_unpack` of that packet writes outside its array.
pub recv_tlv-oversize :
    (type l : ℕ) (after : Bytes) (segs : Arrivals)
    → type < 4294967296
    → char_size ≤ l
    → l < 65536
    → IsOpen segs
    → stream segs ≡ le_bytes 4 type ++ (le_bytes 2 l ++ after)
    → (rest : Arrivals) × (recv_tlv segs ≡ returns (negsuc 0) (headed type l) rest)
      × (tlv_unpack (headed type l) ≡ none)
recv_tlv-oversize type l after segs small big fits o e =
    let tb = le_bytes 4 type in
    let lb = le_bytes 2 l in
    let r₁ =
      recv_loop-Read 4 0 [] tb (lb ++ after) segs o e (omega (arith, length-le_bytes 4 type)) in
    let r₂ =
      recv_loop-Read 2 0 [] lb after r₁.rest r₁.still_open r₁.left
        (omega (arith, length-le_bytes 2 l)) in
    let n = from_le-le_bytes_two l fits in
    (
      r₂.rest,
      oversize_parts segs r₁.rest r₂.rest tb lb r₁.result r₂.result (omega (arith, n))
          ∙ ap (λ k. returns (negsuc 0) (headed (from_le tb) k) r₂.rest) n
          ∙ ap (λ t. returns (negsuc 0) (headed t l) r₂.rest) (from_le-le_bytes_four type small),
      unpack_oversize type l big,
    )

four_bytes :
    (s : Bytes) (segs : Arrivals)
    → length s ≡ 4
    → recv_loop 4 0 [] (some s ∷ none ∷ segs) ≡ complete s (none ∷ segs)
unfolding recv_loop
four_bytes s segs h = rw h

-- A connection that is reset between the type and the length of a packet ends the process.
pub recv_tlv-reset_exits :
    (s : Bytes) (segs : Arrivals) → length s ≡ 4 → recv_tlv (some s ∷ none ∷ segs) ≡ exits
unfolding recv_tlv
recv_tlv-reset_exits s segs h = rw (four_bytes s segs h)

-- The string that starts a buffer with no NUL is the whole of it.
abbrev pub HasNoNul : Bytes → Type 0
HasNoNul [] = Unit {0}
HasNoNul (b ∷ bs) = (b ≢ 0) × HasNoNul bs

pub c_str-HasNoNul : (s : Bytes) → HasNoNul s → c_str s ≡ s
unfolding c_str
c_str-HasNoNul [] h = refl
c_str-HasNoNul (b ∷ bs) h = rw (ne→== b 0 h.0) (ap (◌∷◌ b) (c_str-HasNoNul bs h.1))

-- A packet that fits its buffer unpacks to its type, its length and the string in it.
pub tlv_unpack-fits :
    (type : ℕ) (value : Bytes)
    → length value < char_size
    → HasNoNul value
    → tlv_unpack (record { type = type; len = length value; value = value })
      ≡ some (type, length value, value)
unfolding tlv_unpack
tlv_unpack-fits type value short clean =
    rw (lt→ltb (length value) char_size short, take_all (length value) value (omega arith))
      (ap (λ v. some (type, length value, v)) (c_str-HasNoNul value clean))

-- The other side closed the connection before a packet.
pub recv_tlv-closed :
    (segs : Arrivals) → recv_tlv (some [] ∷ segs) ≡ returns (pos 0) empty_packet (some [] ∷ segs)
unfolding recv_tlv recv_type recv_loop
recv_tlv-closed segs = refl
