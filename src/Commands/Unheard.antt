-- ===== src/Commands/Unheard.antt =====
-- Where the answer to a long command goes.
use cloud_sys.Base.Int.{ℤ, int_eq}
use cloud_sys.Base.{
  ℕ, ◌≡◌, subst, inl, inr, Bool, true, false, List, [], ◌∷◌, none, some, arith, Option-cases, ◌==◌,
  if◌then◌else◌,
}
use cloud_sys.CString.{Bytes, strtok}
use cloud_sys.Database.{Mysql}
use cloud_sys.PathStack.{path_max}
use cloud_sys.Tlv.{Packet, tlv_unpack}
use cloud_sys.Cd.{success}
use cloud_sys.Dir.{get_current_path}
use cloud_sys.File.{Files}
use cloud_sys.File.Puts.{file_puts}
use cloud_sys.Commands.{
  Server, puts, gets, TlvType, response, type_code, response_size, send, reply, respond,
}
use cloud_sys.Commands.Login.{Ran}
use cloud_sys.Commands.Long.{
  with_path, gets_at, puts_at, do_gets, do_puts, run_long, worker_pwd_id, long_solve_command,
}

module _ (m : Mysql) (f : Files) (sock : ℕ) (s : Server m f) where
  -- The state `t` is `s` with one more packet, on `sock`, and with another database and other files.
  pub data Answers : Server m f → Type 0 where
    answers :
        (type : ℕ) (v : Bytes) (d : m.Db) (w : f.Fs)
        → Answers (record s { sent = (sock, type, v) ∷ s.sent; db = d; fs = w })

  abbrev Heard : Ran m f → Type 0
  Heard none = Unit
  Heard (some r) = Answers r.1

  Heard-if : (b : Bool) (x y : Ran m f) → Heard x → Heard y → Heard (if b then x else y)
  Heard-if true x y p q = p
  Heard-if false x y p q = q

  reply-Answers :
      (type : TlvType) (v : Bytes) (d : m.Db) (w : f.Fs)
      → Answers (reply m f sock type v (record s { db = d; fs = w }))
  unfolding reply send
  reply-Answers type v d w = answers _ _ d w

  respond-Heard :
      (type : TlvType) (ret : ℤ) (v : Bytes) (d : m.Db) (w : f.Fs)
      → Heard (respond m f sock type ret v (record s { db = d; fs = w }))
  unfolding respond
  respond-Heard type ret v d w = reply-Answers _ v d w

  with_path-Heard :
      (use_path : Bytes → Server m f → Ran m f)
      → ((path : Bytes) (d : m.Db) → Heard (use_path path (record s { db = d })))
      → Heard (with_path m f sock s use_path)
  unfolding with_path
  with_path-Heard use_path h =
      Heard-if (int_eq (get_current_path m path_max worker_pwd_id s.db).0 success) _ _ (h _ _)
        (reply-Answers response _ _ s.fs)

  puts_at-Heard :
      (filename content path : Bytes) (d : m.Db)
      → Heard (puts_at m f sock filename content path (record s { db = d }))
  unfolding puts_at
  puts_at-Heard filename content path d =
      elim (Option-cases
        (file_puts f m s.current_username filename path content response_size d s.fs)) [
          | inl z ↦ rw (puts_at, z) tt
          | inr ((ret, out, d', w), z) ↦ rw (puts_at, z) (respond-Heard puts ret _ d' w)
        ]

  do_puts-Heard : (pieces : List Bytes) → Heard (do_puts m f sock pieces s)
  unfolding do_puts
  do_puts-Heard [] = reply-Answers response _ s.db s.fs
  do_puts-Heard (filename ∷ []) = reply-Answers response _ s.db s.fs
  do_puts-Heard (filename ∷ content ∷ rest) =
      with_path-Heard (puts_at m f sock filename content) (puts_at-Heard filename content)

  run_long-Heard : (type : ℕ) (value : Bytes) → Heard (run_long m f sock type value s)
  unfolding run_long do_gets gets_at
  run_long-Heard type value =
      Heard-if (type == type_code gets) _ _
        (with_path-Heard (gets_at m f sock value) (λ path d. respond-Heard gets _ _ _ _))
        (Heard-if (type == type_code puts) _ _ (do_puts-Heard (strtok b'|' value))
          (reply-Answers response _ s.db s.fs))

  long-Heard : (fd : ℕ) (packet : Packet) → Heard (long_solve_command m f (some sock) fd packet s)
  unfolding long_solve_command
  long-Heard fd packet = elim (Option-cases (tlv_unpack packet)) [
    | inl z ↦ rw (long_solve_command, z) tt
    | inr ((type, len, value), z) ↦ rw (long_solve_command, z) (run_long-Heard type value)
  ]

  Heard-returned :
      (r : Ran m f) (ret : ℤ) (t : Server m f) → Heard r → r ≡ some (ret, t) → Answers t
  Heard-returned none ret t h e = absurd (ground arith)
  Heard-returned (some r) ret t h e = subst (λ o. Heard o) e h

  -- A long command that gets the listening socket `sock`, as long as its calls of `send_tlv` return:
  -- it hands one packet to `send_tlv`, for `sock` and not for the client's own descriptor `fd`. The
  -- tables of logins and registrations, the name, the directory and the slot of the client are as
  -- before.
  pub long_solve_command-Answers :
      (fd : ℕ) (packet : Packet) (t : Server m f) (ret : ℤ)
      → long_solve_command m f (some sock) fd packet s ≡ some (ret, t)
      → Answers t
  long_solve_command-Answers fd packet t ret e = Heard-returned _ ret t (long-Heard fd packet) e
