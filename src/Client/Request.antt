-- ===== src/Client/Request.antt =====
-- A request of the client to `solve_command`, and the answer.
use cloud_sys.Base.Int.{ℤ}
use cloud_sys.Base.{
  ℕ, ◌-◌, ◌<◌, ◌≡◌, refl, sym, ap, ◌∙◌, List, [], ◌∷◌, ◌++◌, some, arith, length, take_all,
}
use mathlib.Core.List.{reverse, append-nil}
use cloud_sys.CString.{Bytes}
use cloud_sys.Database.{Mysql}
use cloud_sys.File.{Files}
use cloud_sys.Tlv.{Packet, le_bytes, from_le, char_size}
use cloud_sys.Tlv.Send.{image}
use cloud_sys.Tlv.Encoding.{from_le-le_bytes_four}
use cloud_sys.Tlv.Receive.{IsOpen}
use cloud_sys.Commands.{
  Server, Outside, OutPacket, TlvType, transfile, cd, ls, pwd, mkdir, rmdir, remove, fileinfo,
  userregister, userlogin, userquit, usercancel, puts, gets, response, chunk_data, type_code,
}
use cloud_sys.Commands.Short.{solve_command}
use cloud_sys.Client.{Dialogue, ask, session}
use cloud_sys.Client.Wire.{Reply, returns, recv_tlv, recv_type, recv_length, recv_value, recv_once}
use cloud_sys.Client.Wire.Crossing.{send_tlv-recv_tlv, recv_tlv-one_run}
use cloud_sys.Client.Talk.{
  arrived, received, carried, next_reply, Onward, on_reply, after_command, request, talk,
}

-- The packet of a value that fits.
abbrev pub whole : ℕ → Bytes → Packet
whole type v = record { type = type; len = length v; value = v }

pub type_code-small : (type : TlvType) → type_code type < 4294967296
unfolding type_code
type_code-small transfile = omega arith
type_code-small cd = omega arith
type_code-small ls = omega arith
type_code-small pwd = omega arith
type_code-small mkdir = omega arith
type_code-small rmdir = omega arith
type_code-small remove = omega arith
type_code-small fileinfo = omega arith
type_code-small userregister = omega arith
type_code-small userlogin = omega arith
type_code-small userquit = omega arith
type_code-small usercancel = omega arith
type_code-small puts = omega arith
type_code-small gets = omega arith
type_code-small response = omega arith
type_code-small chunk_data = omega arith

pub carried-whole :
    (type : TlvType) (v : Bytes)
    → length v < char_size
    → carried type v ≡ some (whole (type_code type) v)
unfolding carried received arrived image
carried-whole type v short =
    let small = type_code-small type in
    let n = type_code type in
    let one : IsOpen (some (image n v) ∷ []) = unfold le_bytes in (omega arith, tt) in
    let fits = take_all (char_size - 1) v (omega arith) in
    let c =
      send_tlv-recv_tlv n v [] 4 2 char_size [] (some (image n v) ∷ []) small (omega arith)
        (omega arith) (omega (arith, ap length fits)) one refl in
    ap received c.0 ∙ ap arrived c.2 ∙ ap (λ w. some (whole n w)) fits

pub next_reply-whole :
    (tlv : Packet) (fd type b : ℕ) (bs : Bytes) (inbox : List OutPacket)
    → type < 4294967296
    → length (b ∷ bs) < char_size
    → next_reply tlv ((fd, type, b ∷ bs) ∷ inbox)
      ≡ returns (length (b ∷ bs)) (whole type (b ∷ bs)) []
unfolding next_reply image
next_reply-whole tlv fd type b bs inbox small short =
    let fits = take_all (char_size - 1) (b ∷ bs) (omega arith) in
    ap (λ v. recv_tlv tlv (some (le_bytes 4 type ++ (le_bytes 2 (length v) ++ v)) ∷ [])) fits
    ∙ ap (λ v. recv_tlv tlv (some (le_bytes 4 type ++ (le_bytes 2 (length (b ∷ bs)) ++ v)) ∷ []))
        (sym (append-nil (b ∷ bs)))
    ∙ recv_tlv-one_run tlv type b bs [] [] small short

-- An empty answer leaves the client's old value in place.
next_reply-empty :
    (tlv : Packet) (fd type : ℕ) (inbox : List OutPacket)
    → type < 4294967296
    → next_reply tlv ((fd, type, []) ∷ inbox)
      ≡ returns 0 (record { type = type; len = 0; value = tlv.value }) []
unfolding next_reply image recv_tlv recv_type recv_length recv_value recv_once le_bytes from_le
next_reply-empty tlv fd type inbox small =
    ap (λ n. returns 0 (record { type = n; len = 0; value = tlv.value }) [])
      (from_le-le_bytes_four type small)

module _ (m : Mysql) (f : Files) (o : Outside) (fd : ℕ) (request_type : TlvType) where
  talk-reply :
      (tlv : Packet) (v : Bytes) (k : ℕ → Packet → Dialogue) (s t : Server m f) (p : OutPacket)
      (ret : ℤ) {r : Reply}
      → length v < char_size
      → solve_command m f o fd (whole (type_code request_type) v) (record s { sent = [] })
        ≡ some (ret, t)
      → t.sent ≡ p ∷ []
      → next_reply tlv (p ∷ []) ≡ r
      → talk m f o fd tlv [] (ask session request_type v k) s
        ≡ on_reply m f (λ n q ps u. talk m f o fd q ps (k n q) u) (p ∷ []) t r
  unfolding talk request after_command
  talk-reply tlv v k s t p ret short runs sent replied =
      let onward : Onward m f = λ n q ps u. talk m f o fd q ps (k n q) u in
      ap (request m f o fd onward tlv [] s) (carried-whole request_type v short)
      ∙ ap (after_command m f onward tlv []) runs
      ∙ ap (λ l. on_reply m f onward (reverse l) t (next_reply tlv (reverse l))) sent
      ∙ ap (on_reply m f onward (p ∷ []) t) replied

  pub talk-whole :
      (tlv : Packet) (v : Bytes) (k : ℕ → Packet → Dialogue) (s t : Server m f) (fd' type b : ℕ)
      (bs : Bytes) (ret : ℤ)
      → length v < char_size
      → solve_command m f o fd (whole (type_code request_type) v) (record s { sent = [] })
        ≡ some (ret, t)
      → t.sent ≡ (fd', type, b ∷ bs) ∷ []
      → type < 4294967296
      → length (b ∷ bs) < char_size
      → talk m f o fd tlv [] (ask session request_type v k) s
        ≡ talk m f o fd (whole type (b ∷ bs)) [] (k (length (b ∷ bs)) (whole type (b ∷ bs))) t
  unfolding on_reply
  talk-whole tlv v k s t fd' type b bs ret short runs sent small short' =
      talk-reply tlv v k s t (fd', type, b ∷ bs) ret short runs sent
        (next_reply-whole tlv fd' type b bs [] small short')

  pub talk-empty :
      (tlv : Packet) (v : Bytes) (k : ℕ → Packet → Dialogue) (s t : Server m f) (fd' type : ℕ)
      (ret : ℤ)
      → length v < char_size
      → solve_command m f o fd (whole (type_code request_type) v) (record s { sent = [] })
        ≡ some (ret, t)
      → t.sent ≡ (fd', type, []) ∷ []
      → type < 4294967296
      → talk m f o fd tlv [] (ask session request_type v k) s
        ≡ talk m f o fd
            (record { type = type; len = 0; value = tlv.value })
            []
            (k 0 (record { type = type; len = 0; value = tlv.value }))
            t
  unfolding on_reply
  talk-empty tlv v k s t fd' type ret short runs sent small =
      talk-reply tlv v k s t (fd', type, []) ret short runs sent
        (next_reply-empty tlv fd' type [] small)
