-- ===== src/Client/Session.antt =====
-- A whole session: `handle_login` of client/client_logic.c, and "cd"s in the loop behind it, against
-- `solve_command`.
use cloud_sys.Base.{
  ℕ, ◌≡◌, ◌<◌, ◌∙◌, sym, ap, subst, Bool, true, List, [], map, Option, some, length, if◌then◌else◌,
}
use cloud_sys.CString.{Bytes, text, bytes_eq, c_str}
use cloud_sys.Database.{Mysql}
use cloud_sys.File.{Files}
use cloud_sys.PathStack.{Cwd, root_path}
use cloud_sys.PathStack.Refinement.{stack_init-Represents, stack_init-root}
use cloud_sys.Sessions.Valid.{IsIdle}
use cloud_sys.Cd.Directory.{Directory}
use cloud_sys.Cd.Resolve.{Located}
use cloud_sys.Users.{get_salt, get_encrypted_password}
use cloud_sys.Tlv.{Packet, char_size}
use cloud_sys.Tlv.Faults.{HasNoNul}
use cloud_sys.Commands.{Server, Outside}
use cloud_sys.Commands.Login.{login_cwd, salt_packet}
use cloud_sys.Client.{entered, refused}
use cloud_sys.Client.Loop.{let_in, login_session}
use cloud_sys.Client.Talk.{ended, talk}
use cloud_sys.Client.LoginTalk.{handle_login-Then}
use cloud_sys.Client.Cd.Session.{walk, AreUsable, type_cd, handle_filesystem_commands-walk}

-- A login puts the server at the root.
login_cwd-Located : {m : Mysql} (tree : Directory m) (c : Cwd) → Located tree (login_cwd c) []
unfolding login_cwd
login_cwd-Located tree c = record {
  stack = stack_init-Represents _;
  id = ap some (sym (stack_init-root _));
}

-- A client logs in with the right password at a server where no session is open, and types any list
-- of usable words to "cd": it comes back to its prompt behind the last word. `virtual_path` is the
-- path of the last directory that a whole word resolved to, or the root; the server's directory is
-- where the words lead from the root, where a word that fails leads to where its resolution stops.
-- The database stores the tree once it has been asked for the password. The name has at most 49
-- bytes, the password 99, and what is sent has no NUL and fits a packet.
pub login_session-walk :
    (m : Mysql) (f : Files) (o : Outside) (fd : ℕ) (tlv : Packet) (s : Server m f) (d d' : m.Db)
    (crypt_r : Bytes → Bytes → Option Bytes) (name password salt hash encrypted : Bytes)
    (tree : Directory m) (open_local : Bytes → Option Bytes) (connected : Bool) (ws : List Bytes)
    → IsIdle s.logins
    → length name < 50
    → HasNoNul name
    → length password < 100
    → get_salt m name s.db ≡ some (some salt, d)
    → get_encrypted_password m name d ≡ some (some hash, d')
    → crypt_r password (c_str (salt_packet salt)) ≡ some encrypted
    → length encrypted < char_size
    → HasNoNul encrypted
    → bytes_eq encrypted hash ≡ true
    → tree.Stores d'
    → AreUsable m f o fd tree ws []
    → (t : Server m f) × (talk m f o fd tlv []
          (login_session crypt_r name password (map (type_cd open_local connected) ws))
          s
        ≡ ended (walk m f o fd tree ws root_path []).0 entered t)
      × Located tree t.cwd (walk m f o fd tree ws root_path []).1
unfolding login_session let_in
login_session-walk m f o fd tlv s d d' crypt_r name password salt hash encrypted tree open_local
      connected ws idle short clean room salted stored crypted short' clean' right st usable =
    let is = map (type_cd open_local connected) ws in
    let (t, q, e, client, cwd, idle', db) =
      handle_login-Then m f o fd tlv s d d' crypt_r name password salt hash encrypted idle short
        clean room salted stored crypted short' clean' (let_in name is) in
    let at_root = cwd ∙ ap (λ b. if b then login_cwd s.cwd else s.cwd) right in
    let (u, e', at) =
      handle_filesystem_commands-walk m f o fd tree open_local connected name ws root_path q t []
        (subst (λ c. Located tree c []) (sym at_root) (login_cwd-Located tree s.cwd))
        (subst (λ c. tree.Stores c) (sym db) st) usable in
    (
      u,
      e
          ∙ (ap
                (λ b.
                  talk m f o fd q []
                    (let_in name is root_path (if b then entered else refused (text "登录失败：密码错误")))
                    t)
                right
              ∙ e'),
      at,
    )
