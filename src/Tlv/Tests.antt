-- ===== src/Tlv/Tests.antt =====
-- Packets on a wire that is cut in odd places.
use cloud_sys.Base.Int.{pos, negsuc}
use cloud_sys.Base.{◌≡◌, refl, [], ◌∷◌, ◌++◌, none, some, arith}
use cloud_sys.CString.{Bytes}
use cloud_sys.Tlv.{SendPlan, send_tlv, Arrivals, returns, recv_tlv, tlv_unpack, le_bytes}
use cloud_sys.Tlv.Send.{image, send_tlv-image}
use cloud_sys.Tlv.Receive.{stream, recv_tlv-image}
use cloud_sys.Tlv.Faults.{headed, recv_tlv-oversize}

abbrev name : Bytes
name = b'b' ∷ b'o' ∷ b'b' ∷ []

-- A call that takes two bytes at most, nine times.
abbrev nine : SendPlan
nine = some 2 ∷ some 2 ∷ some 2 ∷ some 2 ∷ some 2 ∷ some 2 ∷ some 2 ∷ some 2 ∷ some 2 ∷ []

send_tlv-image_example :
    (rest : SendPlan) × (send_tlv 10 name nine ≡ some (pos 0, image 10 name, rest))
send_tlv-image_example = send_tlv-image 10 name nine (omega arith) (omega arith)

login_image : image 10 name ≡ 10 ∷ 0 ∷ 0 ∷ 0 ∷ 3 ∷ 0 ∷ name
unfolding image le_bytes
login_image = refl

-- The packet in runs of three, six and two bytes; the last byte belongs to the next packet.
abbrev runs : Arrivals
runs = some (10 ∷ 0 ∷ 0 ∷ []) ∷ some (0 ∷ 3 ∷ 0 ∷ b'b' ∷ b'o' ∷ []) ∷ some (b'b' ∷ 2 ∷ []) ∷ []

runs-image : stream runs ≡ image 10 name ++ (2 ∷ [])
unfolding image le_bytes
runs-image = refl

recv_tlv-image_example :
    (rest : Arrivals) × (recv_tlv runs
      ≡ returns (pos 3) (record { type = 10; len = 3; value = name }) rest)
    × (stream rest ≡ 2 ∷ [])
recv_tlv-image_example = recv_tlv-image 10 name (2 ∷ []) runs (omega arith) (omega arith) runs-image

-- A "cd" packet that announces 65535 bytes.
abbrev long_header : Arrivals
long_header = some (2 ∷ 0 ∷ 0 ∷ 0 ∷ 255 ∷ 255 ∷ []) ∷ []

long_header_bytes : stream long_header ≡ le_bytes 4 2 ++ (le_bytes 2 65535 ++ [])
unfolding le_bytes
long_header_bytes = refl

recv_tlv-oversize_example :
    (rest : Arrivals) × (recv_tlv long_header ≡ returns (negsuc 0) (headed 2 65535) rest)
    × (tlv_unpack (headed 2 65535) ≡ none)
recv_tlv-oversize_example =
    recv_tlv-oversize 2 65535 [] long_header (omega arith) (omega arith) (omega arith) (omega arith)
      long_header_bytes
