-- ===== src/Client/Cd/Tests.antt =====
-- "cd docs" at the client.
use cloud_sys.Base.{◌≡◌, refl, ap, sym, subst, true, List, [], ◌∷◌, map, none, arith}
use cloud_sys.CString.{Bytes}
use cloud_sys.PathStack.Spec.{path_of, join}
use cloud_sys.Clients.{no_client}
use cloud_sys.Sessions.{no_sessions}
use cloud_sys.Cd.{cd_pieces, dot_dot}
use cloud_sys.Cd.Resolve.{resolve, Located}
use cloud_sys.Cd.Correct.{start_names}
use cloud_sys.Cd.Tests.{
  docs, server, start, one_directory, start-Located, docs_resolves, docs-ArePlain, always_stored,
  up_resolves, up-ArePlain,
}
use cloud_sys.File.{Files}
use cloud_sys.Tlv.{empty_packet}
use cloud_sys.Tlv.Faults.{HasNoNul}
use cloud_sys.Commands.{Server, Outside}
use cloud_sys.Client.Talk.{talk, ended}
use cloud_sys.Client.{entered}
use cloud_sys.Client.Loop.{handle_filesystem_commands}
use cloud_sys.Client.Loop.{login_session}
use cloud_sys.Client.Session.{login_session-walk}
use cloud_sys.Sessions.Valid.{no_sessions-Idle}
use cloud_sys.PathStack.{root_path}
use cloud_sys.Base.{some}
use cloud_sys.Cd.Tests.{pics}
use cloud_sys.Cd.{sql_child, sql_parent}
use cloud_sys.CString.{dec_int}
use cloud_sys.Database.{db_query, kind_of}
use cloud_sys.Users.{get_salt, get_encrypted_password, sql_get_salt, sql_get_password}
use cloud_sys.Client.Cd.Session.{walk, AreUsable, type_cd, handle_filesystem_commands-walk}

abbrev no_disk : Files
no_disk = record {
  Fs = Unit;
  stat = λ p w. none;
  mkdir = λ p w. (true, w);
  open_create = λ p w. (none, w);
  open_read = λ p w. (none, w);
  ftruncate = λ fd n w. (true, w);
  map_write = λ fd n c w. none;
  map_read = λ fd n w. none;
  close = λ fd w. w;
  unlink = λ p w. (true, w);
  error_text = λ w. [];
  sha1 = λ c. none;
}

abbrev at_root : Server server no_disk
at_root = record {
  logins = no_sessions;
  registers = no_sessions;
  current_username = [];
  cwd = start;
  client = no_client;
  sent = [];
  db = [];
  fs = tt;
}

abbrev calm : Outside
calm = record { draws = []; memory = λ n. true; before = 0; freed = λ r. r }

docs-HasNoNul : HasNoNul docs
docs-HasNoNul = (λ e. omega arith, (λ e. omega arith, (λ e. omega arith, (λ e. omega arith, tt))))

docs_path : path_of (docs ∷ []) ≡ b'/' ∷ docs
unfolding path_of join
docs_path = refl

path-HasNoNul :
    HasNoNul
      (path_of (resolve one_directory (λ n. true) (cd_pieces server docs) (start_names docs [])).1)
path-HasNoNul = subst HasNoNul (ap (λ r. path_of r.1) (sym docs_resolves)) (
    subst HasNoNul (sym docs_path) (
      λ e. omega arith,
      (λ e. omega arith, (λ e. omega arith, (λ e. omega arith, (λ e. omega arith, tt)))),
    ))

-- "cd docs" and then "cd ..".
abbrev words : List Bytes
words = docs ∷ dot_dot ∷ []

root-HasNoNul : HasNoNul (path_of [])
unfolding path_of join
root-HasNoNul = (λ e. omega arith, tt)

up-AreUsable : AreUsable server no_disk calm 7 one_directory (dot_dot ∷ []) (docs ∷ [])
unfolding AreUsable
up-AreUsable = (
  up-ArePlain,
  omega arith,
  omega arith,
  (λ e. omega arith, (λ e. omega arith, tt)),
  subst (λ r. HasNoNul (path_of r.1)) (sym up_resolves) root-HasNoNul,
  tt,
)

words-AreUsable : AreUsable server no_disk calm 7 one_directory words []
unfolding AreUsable
words-AreUsable = (
  docs-ArePlain,
  omega arith,
  omega arith,
  docs-HasNoNul,
  path-HasNoNul,
  subst (λ r. AreUsable server no_disk calm 7 one_directory (dot_dot ∷ []) r.1) (sym docs_resolves)
      up-AreUsable,
)

handle_filesystem_commands-walk_example :
    (t : Server server no_disk) × (talk server no_disk calm 7 empty_packet []
        (handle_filesystem_commands docs (map (type_cd (λ name. none) true) words) (b'/' ∷ []))
        at_root
      ≡ ended (walk server no_disk calm 7 one_directory words (b'/' ∷ []) []).0 entered t)
    × Located one_directory t.cwd (walk server no_disk calm 7 one_directory words (b'/' ∷ []) []).1
handle_filesystem_commands-walk_example =
    handle_filesystem_commands-walk server no_disk calm 7 one_directory (λ name. none) true docs
      words (b'/' ∷ []) empty_packet at_root [] start-Located (always_stored []) words-AreUsable

-- The user "docs" with the salt "pi" and the stored password "docs".
has_salt : get_salt server docs [] ≡ some (some pics, (some pics ∷ []) ∷ [])
unfolding get_salt sql_get_salt sql_get_password sql_child sql_parent dec_int db_query kind_of
has_salt = refl

has_password :
    get_encrypted_password server docs ((some pics ∷ []) ∷ [])
    ≡ some (some docs, (some docs ∷ []) ∷ [])
unfolding get_encrypted_password sql_get_salt sql_get_password sql_child sql_parent dec_int db_query
    kind_of
has_password = refl

login_session-walk_example :
    (t : Server server no_disk) × (talk server no_disk calm 7 empty_packet []
        (login_session (λ p c. some docs) docs pics (map (type_cd (λ name. none) true) words))
        at_root
      ≡ ended (walk server no_disk calm 7 one_directory words root_path []).0 entered t)
    × Located one_directory t.cwd (walk server no_disk calm 7 one_directory words root_path []).1
login_session-walk_example =
    login_session-walk server no_disk calm 7 empty_packet at_root ((some pics ∷ []) ∷ [])
      ((some docs ∷ []) ∷ []) (λ p c. some docs) docs pics pics docs docs one_directory
      (λ name. none) true words no_sessions-Idle (omega arith) docs-HasNoNul (omega arith) has_salt
      has_password refl (omega arith) docs-HasNoNul refl (always_stored ((some docs ∷ []) ∷ []))
      words-AreUsable
