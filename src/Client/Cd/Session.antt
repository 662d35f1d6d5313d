-- ===== src/Client/Cd/Session.antt =====
-- Any number of "cd"s in the loop of `handle_filesystem_commands`, against `solve_command`.
use cloud_sys.Base.{
  ℕ, ◌<◌, ◌≡◌, ◌∙◌, refl, ap, Bool, true, false, List, [], ◌∷◌, map, Option, some, arith, length,
  if◌then◌else◌,
}
use cloud_sys.CString.{Bytes, text}
use cloud_sys.Database.{Mysql}
use cloud_sys.File.{Files}
use cloud_sys.PathStack.Spec.{path_of}
use cloud_sys.Cd.{cd_pieces}
use cloud_sys.Cd.Directory.{Directory}
use cloud_sys.Cd.Resolve.{resolve, Located}
use cloud_sys.Cd.Correct.{ArePlain, start_names, dir_cd-resolve}
use cloud_sys.Tlv.{Packet}
use cloud_sys.Tlv.Faults.{HasNoNul}
use cloud_sys.Commands.{Server, Outside, response_size}
use cloud_sys.Client.{shown, no_answer, entered, Dialogue, then_dialogue}
use cloud_sys.Client.Files.{typed_size, cd_answer}
use cloud_sys.Client.Loop.{Typed, stops, resume, handle_filesystem_commands}
use cloud_sys.Client.Talk.{ended, talk}
use cloud_sys.Client.Cd.{command-cd, cd-Follows}

-- "cd" with a word, as it is typed.
module _ (open_local : Bytes → Option Bytes) (connected : Bool) where
  abbrev pub type_cd : Bytes → Option Typed
  type_cd w = some (record {
    command = text "cd";
    word = w;
    second = [];
    open_local = open_local;
    connected = connected;
  })

module _ (m : Mysql) (f : Files) (o : Outside) (fd : ℕ) (tree : Directory m) where
  -- The directory that a word leads to, and whether all of it resolves.
  abbrev pub led : Bytes → List Bytes → Bool × List Bytes
  led word ds = resolve tree o.memory (cd_pieces m word) (start_names word ds)

  -- `virtual_path` and the directory, word after word.
  unfoldable pub walk : List Bytes → Bytes → List Bytes → Bytes × List Bytes
  walk [] path ds = (path, ds)
  walk (w ∷ ws) path ds = let r = led w ds in walk ws (if r.0 then path_of r.1 else path) r.1

  -- Each word has 1 to 1023 bytes, none of them NUL, and pieces that the tree can look up, and the
  -- path that it leads to has no NUL.
  unfoldable pub AreUsable : List Bytes → List Bytes → Type 0
  AreUsable [] ds = Unit
  AreUsable (w ∷ ws) ds =
      ArePlain tree (cd_pieces m w)
      × (0 < length w)
      × (length w < typed_size)
      × HasNoNul w
      × HasNoNul (path_of (led w ds).1)
      × AreUsable ws (led w ds).1

  module _ (open_local : Bytes → Option Bytes) (connected : Bool) (username : Bytes) where
    resume-cd :
        (next : Bytes → Dialogue) (ok : Bool) (path p : Bytes)
        → resume next (if ok then p else path) (if ok then shown p else no_answer)
          ≡ next (if ok then p else path)
    unfolding resume stops
    resume-cd next true path p = refl
    resume-cd next false path p = refl

    -- Any list of usable words typed to "cd", from a directory that is located in a tree that the
    -- database stores: the client comes back to its prompt behind the last word, with no packet
    -- left to read; `virtual_path` is the path of the last directory that a whole word resolved to,
    -- or as it was; and the server's directory is where the words lead one after the other, where a
    -- word that fails leads to where its resolution stops.
    pub handle_filesystem_commands-walk :
        (ws : List Bytes) (path : Bytes) (tlv : Packet) (s : Server m f) (ds : List Bytes)
        → Located tree s.cwd ds
        → tree.Stores s.db
        → AreUsable ws ds
        → (t : Server m f) × (talk m f o fd tlv []
              (handle_filesystem_commands username (map (type_cd open_local connected) ws) path)
              s
            ≡ ended (walk ws path ds).0 entered t)
          × Located tree t.cwd (walk ws path ds).1
    unfolding handle_filesystem_commands talk then_dialogue walk AreUsable
    handle_filesystem_commands-walk [] path tlv s ds loc st usable = (s, refl, loc)
    handle_filesystem_commands-walk (w ∷ ws) path tlv s ds loc st
          (plain, some_byte, room, clean, clean', usable) =
        let r = led w ds in
        let next = handle_filesystem_commands username (map (type_cd open_local connected) ws) in
        let (t, q, e, at, st') =
          cd-Follows m f o fd path (resume next)
            (λ ret p. then_dialogue (cd_answer path ret p) (resume next)) (λ ret p. refl) tree tlv w
            s r.0 r.1 (omega arith) clean clean'
            (dir_cd-resolve tree o.memory w response_size s.cwd ds s.db loc st plain
              (λ z. omega arith) (λ z. omega arith)) in
        let (u, e', at') =
          handle_filesystem_commands-walk ws (if r.0 then path_of r.1 else path) q t r.1 at st'
            usable in
        (
          u,
          ap (λ d. talk m f o fd tlv [] (then_dialogue d (resume next)) s)
                (command-cd m f o fd open_local connected username path w [] room)
              ∙ (e
                  ∙ (ap (λ d. talk m f o fd q [] d t) (resume-cd next r.0 path (path_of r.1))
                      ∙ e')),
          at',
        )
