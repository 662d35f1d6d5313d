-- ===== src/Client/Cd.antt =====
-- "cd" of client/client_logic.c against `solve_command`: the client's `virtual_path` and the
-- directory of the server.
pub mod Session
pub mod Tests
use cloud_sys.Base.Int.{ℤ, int_eq}
use cloud_sys.Base.{
  ℕ, suc, subst, ◌-◌, ◌≤◌, ◌<◌, ◌≡◌, ◌≢◌, ◌&&◌, ◌==◌, refl, sym, ap, ◌∙◌, Bool, true, false, List,
  [], ◌∷◌, ◌++◌, Option, none, some, arith, length, take, take_all, if◌then◌else◌, lt→ltb, inl, inr,
  Bool-cases, ltb, length-take,
}
use cloud_sys.CString.{Bytes, text, c_str, bytes_eq}
use cloud_sys.Database.{Mysql}
use cloud_sys.File.{Files}
use cloud_sys.PathStack.{Cwd, path_max, root_path}
use cloud_sys.PathStack.Spec.{path_of, join}
use cloud_sys.Cd.{snprintf, success, failure_code, dir_cd, cd_pieces}
use cloud_sys.Cd.Directory.{Directory}
use cloud_sys.Cd.Resolve.{resolve, Located}
use cloud_sys.Cd.Correct.{ArePlain, Returns, start_names, dir_cd-resolve}
use cloud_sys.Tlv.{Packet, char_size, packed}
use cloud_sys.Tlv.Send.{length-packed}
use cloud_sys.Tlv.Faults.{HasNoNul, c_str-HasNoNul, tlv_unpack-fits}
use cloud_sys.Commands.{
  Server, Outside, OutPacket, TlvType, cd, response, type_code, type_of, respond, reply, send,
  response_size,
}
use cloud_sys.Commands.Short.{solve_command, run_command, do_cd}
use cloud_sys.Client.{Ending, shown, no_answer, Dialogue, finish, ask, session, then_dialogue}
use cloud_sys.Client.Files.{handle_command, named_command, typed, typed_size, cd_answer}
use cloud_sys.Client.Request.{type_code-small, whole, talk-whole, talk-empty}
use cloud_sys.Client.Talk.{then_finish, Talk, ended, talk}

module _ (m : Mysql) (f : Files) (o : Outside) (fd : ℕ) where
  -- The server behind a "cd".
  abbrev moved : Server m f → ℤ → Bytes → Cwd → m.Db → Server m f
  moved s code out cwd d =
      reply m f fd (if int_eq code success then cd else response) out
        (record s { cwd = cwd; db = d; sent = [] })

  solve_command-cd :
      (word out : Bytes) (s : Server m f) (code : ℤ) (cwd : Cwd) (d : m.Db)
      → length word < char_size
      → HasNoNul word
      → dir_cd m o.memory word response_size s.cwd s.db ≡ some (code, out, cwd, d)
      → solve_command m f o fd (whole (type_code cd) word) (record s { sent = [] })
        ≡ some (code, moved s code out cwd d)
  unfolding solve_command run_command type_of type_code do_cd respond
  solve_command-cd word out s code cwd d short clean ran =
      rw (solve_command, tlv_unpack-fits 2 word short clean) (rw (do_cd, ran) refl)

  cd_answer-moved :
      (path p : Bytes)
      → 0 < length p
      → length p < path_max
      → HasNoNul p
      → cd_answer path (length p) (whole (type_code cd) p) ≡ finish p (shown p)
  unfolding cd_answer type_code
  cd_answer-moved path p some_byte short clean = rw (lt→ltb 0 (length p) some_byte) (
      ap (λ v. let q = take (path_max - 1) v in finish q (shown q)) (c_str-HasNoNul p clean)
      ∙ ap (λ q. finish q (shown q)) (take_all (path_max - 1) p (omega arith)))

  -- An answer of another type, or an empty one.
  cd_answer-refused :
      (path v : Bytes) (ret len : ℕ)
      → cd_answer path ret (record { type = type_code response; len = len; value = v })
        ≡ finish path no_answer
  unfolding cd_answer type_code
  cd_answer-refused path v ret len = elim (Bool-cases (ltb 0 ret)) [
    | inl e ↦ rw e refl
    | inr e ↦ rw e refl
  ]

  path_of-cons :
      (ds : List Bytes) → (bs : Bytes) × (path_of ds ≡ b'/' ∷ bs) × (length (b'/' ∷ bs) < path_max)
  unfolding path_of
  path_of-cons ds =
      (take (path_max - 2) (join ds), refl, omega (arith, length-take (path_max - 2) (join ds)))

  -- Behind the answer the dialogue `k` goes on with `next`.
  module _ (path : Bytes) (next : Bytes → Ending → Dialogue) (k : ℕ → Packet → Dialogue)
      (follows : (ret : ℕ) (p : Packet) → k ret p ≡ then_dialogue (cd_answer path ret p) next) where
    talk-refused :
        (tlv : Packet) (word answer : Bytes) (s t : Server m f) (code : ℤ)
        → length word < char_size
        → solve_command m f o fd (whole (type_code cd) word) (record s { sent = [] })
          ≡ some (code, t)
        → t.sent ≡ (fd, type_code response, answer) ∷ []
        → length answer < char_size
        → (q : Packet) × (talk m f o fd tlv [] (ask session cd word k) s
            ≡ talk m f o fd q [] (next path no_answer) t)
    unfolding then_dialogue
    talk-refused tlv word [] s t code short runs sent room =
        let q : Packet = record { type = type_code response; len = 0; value = tlv.value } in
        (
          q,
          talk-empty m f o fd cd tlv word k s t fd (type_code response) code short runs sent
                (type_code-small response)
              ∙ ap (λ d. talk m f o fd q [] d t)
                  (follows 0 q
                    ∙ ap (λ d. then_dialogue d next) (cd_answer-refused path tlv.value 0 0)),
        )
    talk-refused tlv word (b ∷ bs) s t code short runs sent room =
        let n = length (b ∷ bs) in
        let q = whole (type_code response) (b ∷ bs) in
        (
          q,
          talk-whole m f o fd cd tlv word k s t fd (type_code response) b bs code short runs sent
                (type_code-small response) room
              ∙ ap (λ d. talk m f o fd q [] d t)
                  (follows n q
                    ∙ ap (λ d. then_dialogue d next) (cd_answer-refused path (b ∷ bs) n n)),
        )

    talk-moved :
        (tlv : Packet) (word : Bytes) (b : ℕ) (bs : Bytes) (s t : Server m f) (code : ℤ)
        → length word < char_size
        → solve_command m f o fd (whole (type_code cd) word) (record s { sent = [] })
          ≡ some (code, t)
        → t.sent ≡ (fd, type_code cd, b ∷ bs) ∷ []
        → length (b ∷ bs) < path_max
        → HasNoNul (b ∷ bs)
        → talk m f o fd tlv [] (ask session cd word k) s
          ≡ talk m f o fd (whole (type_code cd) (b ∷ bs)) [] (next (b ∷ bs) (shown (b ∷ bs))) t
    unfolding then_dialogue
    talk-moved tlv word b bs s t code short runs sent room clean =
        let q = whole (type_code cd) (b ∷ bs) in
        talk-whole m f o fd cd tlv word k s t fd (type_code cd) b bs code short runs sent
          (type_code-small cd) room
        ∙ ap (λ d. talk m f o fd q [] d t)
            (follows (length (b ∷ bs)) q
              ∙ ap (λ d. then_dialogue d next)
                  (cd_answer-moved path (b ∷ bs) (omega arith) room clean))

    -- A "cd" against a server that is located in the tree: the dialogue comes to `next`, with
    -- every packet read, and the server is located where the path resolves to.
    pub cd-Follows :
        (tree : Directory m) (tlv : Packet) (word : Bytes) (s : Server m f) (ok : Bool)
        (ds : List Bytes)
        → length word < char_size
        → HasNoNul word
        → HasNoNul (path_of ds)
        → Returns tree response_size (dir_cd m o.memory word response_size s.cwd s.db) (ok, ds)
        → (t : Server m f) × (q : Packet) × (talk m f o fd tlv [] (ask session cd word k) s
            ≡ talk m f o fd q []
                (next
                  (if ok then path_of ds else path)
                  (if ok then shown (path_of ds) else no_answer))
                t)
          × Located tree t.cwd ds
          × tree.Stores t.db
    unfolding reply send
    cd-Follows tree tlv word s true ds short clean clean' (out, cwd, d, e, same, loc, st) =
        let (bs, p, room) = path_of-cons ds in
        let t = moved s success out cwd d in
        let once = take_all (char_size - 1) (b'/' ∷ bs) (omega (arith, room)) in
        let whole_path : packed out ≡ b'/' ∷ bs =
          ap packed (same refl ∙ ap (snprintf response_size) p) ∙ ap packed once ∙ once in
        let q = whole (type_code cd) (b'/' ∷ bs) in
        (
          t,
          q,
          talk-moved tlv word b'/' bs s t success short
                (solve_command-cd word out s success cwd d short clean e)
                (ap (λ v. (fd, type_code cd, v) ∷ []) whole_path) room (subst HasNoNul p clean')
              ∙ ap (λ v. talk m f o fd q [] (next v (shown v)) t) (sym p),
          loc,
          st,
        )
    cd-Follows tree tlv word s false ds short clean clean' (out, cwd, d, e, same, loc, st) =
        let t = moved s failure_code out cwd d in
        let (q, r) =
          talk-refused tlv word (packed out) s t failure_code short
            (solve_command-cd word out s failure_code cwd d short clean e) refl
            (length-packed out) in
        (t, q, r, loc, st)

  pub command-cd :
      (open_local : Bytes → Option Bytes) (connected : Bool) (username path word second : Bytes)
      → length word < typed_size
      → handle_command open_local connected username path (text "cd") word second
        ≡ ask session cd word (cd_answer path)
  unfolding handle_command named_command text
  command-cd open_local connected username path word second room =
      rw (lt→ltb (length word) typed_size room) refl

  module _ (tree : Directory m) where
    -- How a "cd" leaves the client and the server: the client comes to its end in a state that is
    -- located in the tree.
    unfoldable pub Leaves : Talk m f → Bytes → Bool × List Bytes → Type 0
    Leaves r path (ok, ds) =
        (t : Server m f) × (r
          ≡ ended (if ok then path_of ds else path) (if ok then shown (path_of ds) else no_answer)
              t)
        × Located tree t.cwd ds

    -- "cd" at the client, with a word that is not empty, against a server whose directory is located
    -- in a tree that the database stores: the server ends in the directory that the word resolves
    -- to, or where the resolution failed on its way; the client's `virtual_path` becomes the path
    -- of that directory when the whole word resolved, and else stays as it was. The word has at
    -- most 1023 bytes, each of its pieces is one that the tree can look up, and neither it nor the
    -- path has a NUL.
    pub handle_command-Leaves :
        (open_local : Bytes → Option Bytes) (connected : Bool) (username path word second : Bytes)
        (tlv : Packet) (s : Server m f) (ds : List Bytes)
        → Located tree s.cwd ds
        → tree.Stores s.db
        → ArePlain tree (cd_pieces m word)
        → 0 < length word
        → length word < typed_size
        → HasNoNul word
        → HasNoNul (path_of (resolve tree o.memory (cd_pieces m word) (start_names word ds)).1)
        → Leaves
            (talk m f o fd tlv []
              (handle_command open_local connected username path (text "cd") word second)
              s)
            path
            (resolve tree o.memory (cd_pieces m word) (start_names word ds))
    unfolding Leaves talk
    handle_command-Leaves open_local connected username path word second tlv s ds loc st plain
          some_byte room clean clean' =
        let r = resolve tree o.memory (cd_pieces m word) (start_names word ds) in
        let (t, q, e, at, st') =
          cd-Follows path finish (cd_answer path)
            (λ ret p. sym (then_finish (cd_answer path ret p))) tree tlv word s r.0 r.1
            (omega arith) clean clean'
            (dir_cd-resolve tree o.memory word response_size s.cwd ds s.db loc st plain
              (λ z. omega arith) (λ z. omega arith)) in
        (
          t,
          ap (λ d. talk m f o fd tlv [] d s)
                (command-cd open_local connected username path word second room)
              ∙ e,
          at,
        )
