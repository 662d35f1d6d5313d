-- ===== src/Client/Talk.antt =====
-- A dialogue of the client with the server's `solve_command`: each request goes through the client's
-- `send_tlv` and the server's `recv_tlv`, and each answer through the client's `recv_tlv`.
use mathlib.Core.List.{reverse}
use cloud_sys.Base.{ℕ, ◌≡◌, refl, ap, List, [], ◌∷◌, ◌++◌, Option, none, some}
use cloud_sys.CString.{Bytes}
use cloud_sys.Database.{Mysql}
use cloud_sys.File.{Files}
use cloud_sys.Tlv.{Packet, empty_packet, Recv, char_size}
use cloud_sys.Tlv.Send.{image}
use cloud_sys.Commands.{Server, Outside, OutPacket, TlvType, type_code}
use cloud_sys.Commands.Login.{Ran}
use cloud_sys.Commands.Short.{solve_command}
use mathlib.Core.Path.{fun_ext}
use cloud_sys.Client.{
  then_dialogue, Ending, Dialogue, finish, cleared, polled, ask, session, transfer,
}
use cloud_sys.Tlv as Tlv
use cloud_sys.Client.Wire.{
  Sending, blocks, exits, went, send_tlv, Reply, waiting, exiting, crash, returns, recv_tlv,
}

-- What a `recv_tlv` of the server returns with.
unfoldable pub arrived : Recv → Option Packet
arrived Tlv.waits = none
arrived Tlv.exits = none
arrived (Tlv.returns ret p rest) = some p

unfoldable pub received : Sending → Option Packet
unfolding arrived
received blocks = none
received exits = none
received (went wire plan) = arrived (Tlv.recv_tlv (some wire ∷ []))

-- A request, sent in three whole parts.
unfoldable pub carried : TlvType → Bytes → Option Packet
unfolding received type_code
carried type value =
    received (send_tlv (type_code type) value (some 4 ∷ some 2 ∷ some char_size ∷ []))

-- The oldest packet of the inbox, which arrives in one run.
unfoldable pub next_reply : Packet → List OutPacket → Reply
next_reply tlv [] = waiting
next_reply tlv ((fd, type, value) ∷ inbox) = recv_tlv tlv (some (image type value) ∷ [])

module _ (m : Mysql) (f : Files) where
  -- How it goes: one of the two stops; the client drops bytes of packets that it has still to read,
  -- after which nothing is said; or it comes to an end of the dialogue.
  pub data Talk : Type 0 where
    stuck dropped : Talk
    ended : (path : Bytes) → Ending → Server m f → Talk

  -- The rest of the dialogue, given the state of the server and the packets not yet read.
  abbrev pub Onward : Type 0
  Onward = ℕ → Packet → List OutPacket → Server m f → Talk

  unfoldable pub on_reply : Onward → List OutPacket → Server m f → Reply → Talk
  on_reply k inbox s waiting = stuck
  on_reply k inbox s exiting = stuck
  on_reply k inbox s crash = stuck
  on_reply k inbox s (returns ret tlv rest) = k ret tlv (drop_first inbox) s
    where
      drop_first : List OutPacket → List OutPacket
      drop_first [] = []
      drop_first (p ∷ ps) = ps

  -- After the command: what the server sent goes to the inbox.
  unfoldable pub after_command : Onward → Packet → List OutPacket → Ran m f → Talk
  unfolding on_reply next_reply
  after_command k tlv inbox none = stuck
  after_command k tlv inbox (some (ret, s)) =
      let all = inbox ++ reverse s.sent in on_reply k all s (next_reply tlv all)

  -- `tlv` is the client's packet before.
  unfoldable pub request :
      Outside → ℕ → Onward → Packet → List OutPacket → Server m f → Option Packet → Talk
  unfolding after_command
  request o fd k tlv inbox s none = stuck
  request o fd k tlv inbox s (some packet) =
      after_command k tlv inbox (solve_command m f o fd packet (record s { sent = [] }))

  -- Only the session's socket leads to `solve_command`.
  unfoldable pub talk : Outside → ℕ → Packet → List OutPacket → Dialogue → Server m f → Talk
  unfolding request carried
  talk o fd tlv inbox (finish path e) s = ended path e s
  talk o fd tlv inbox (cleared d) s = talk o fd empty_packet inbox d s
  talk o fd tlv [] (polled d) s = talk o fd tlv [] d s
  talk o fd tlv (p ∷ ps) (polled d) s = dropped
  talk o fd tlv inbox (ask transfer type value k) s = stuck
  talk o fd tlv inbox (ask session type value k) s =
      request o fd (λ ret p ps t. talk o fd p ps (k ret p) t) tlv inbox s (carried type value)

-- With nothing behind it, a dialogue is as it is.
pub then_finish : (d : Dialogue) → then_dialogue d finish ≡ d
unfolding then_dialogue
then_finish (finish path e) = refl
then_finish (cleared d) = ap cleared (then_finish d)
then_finish (polled d) = ap polled (then_finish d)
then_finish (ask socket type value k) =
    ap (ask socket type value) (fun_ext (λ ret. fun_ext (λ tlv. then_finish (k ret tlv))))
