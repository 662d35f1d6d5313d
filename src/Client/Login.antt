-- ===== src/Client/Login.antt =====
-- The dialogues of client/client_logic.c before the files: `handle_login`, `handle_register` and
-- `handle_cancel`. `crypt_r` of libcrypt is a parameter: `none` is NULL.
use cloud_sys.Base.{ℕ, ◌&&◌, Option, none, some, ltb, ◌==◌, if◌then◌else◌, length}
use cloud_sys.CString.{Bytes, text, c_str, bytes_eq}
use cloud_sys.Tlv.{Packet}
use cloud_sys.PathStack.{root_path}
use cloud_sys.Commands.{TlvType, userlogin, userregister, usercancel, type_code}
use cloud_sys.Client.{
  Dialogue, finish, ask, session, Ending, lost, no_encryption, entered, overflow, odd_reply,
  refused, shown,
}

-- An ending at the root, where `virtual_path` starts.
abbrev pub end : Ending → Dialogue
end e = finish root_path e

-- The rooms of `username[50]` and `password[100]`.
abbrev pub fits : ℕ → Bytes → Dialogue → Dialogue
fits room input next = if ltb (length input) room then next else end overflow

module _ (crypt_r : Bytes → Bytes → Option Bytes) where
  -- From the answer to the encrypted password.
  unfoldable pub login_answer : ℕ → Packet → Dialogue
  unfolding type_code
  login_answer ret tlv =
      if ltb 0 ret
        && ((tlv.type == type_code userlogin) && bytes_eq (c_str tlv.value) (text "登录成功"))
      then end entered
      else end (refused (c_str tlv.value))

  unfoldable pub send_encrypted : TlvType → (ℕ → Packet → Dialogue) → Option Bytes → Dialogue
  send_encrypted type next none = end no_encryption
  send_encrypted type next (some encrypted) = ask session type encrypted next

  -- From the answer to the name, which holds the salt.
  unfoldable pub login_salted : Bytes → ℕ → Packet → Dialogue
  unfolding login_answer send_encrypted type_code
  login_salted password ret tlv =
      if ret == 0
      then end lost
      else if tlv.type == type_code userlogin
      then fits 100 password
          (send_encrypted userlogin login_answer (crypt_r password (c_str tlv.value)))
      else end (odd_reply tlv.type)

  unfoldable pub handle_login : (username password : Bytes) → Dialogue
  unfolding login_salted
  handle_login username password =
      fits 50 username (ask session userlogin username (login_salted password))

  unfoldable pub register_answer : ℕ → Packet → Dialogue
  register_answer ret tlv = end (shown (c_str tlv.value))

  unfoldable pub register_salted : Bytes → ℕ → Packet → Dialogue
  unfolding register_answer send_encrypted type_code
  register_salted password ret tlv =
      if ret == 0
      then end lost
      else if tlv.type == type_code userregister
      then fits 100 password
          (send_encrypted userregister register_answer (crypt_r password (c_str tlv.value)))
      else end (odd_reply tlv.type)

  unfoldable pub handle_register : (username password : Bytes) → Dialogue
  unfolding register_salted
  handle_register username password =
      fits 50 username (ask session userregister username (register_salted password))

unfoldable pub cancel_answer : ℕ → Packet → Dialogue
cancel_answer ret tlv = if ret == 0 then end lost else end (shown (c_str tlv.value))

unfoldable pub handle_cancel : Bytes → Dialogue
unfolding cancel_answer
handle_cancel username = fits 50 username (ask session usercancel username cancel_answer)
