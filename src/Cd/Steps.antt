-- ===== src/Cd/Steps.antt =====
-- One piece of a path: the handler against the resolution of a name.
use cloud_sys.Base.Int.{ℤ, pos, int_eq, int_eq_iff}
use cloud_sys.Base.{
  ℕ, suc, ◌≡◌, ◌≢◌, ◌⊎◌, refl, sym, ap, ◌∙◌, inl, inr, Bool, true, false, List, [], ◌∷◌, ◌++◌, none,
  some, length, take, arith, Bool-cases, Option-cases, subst,
}
use cloud_sys.CString.{Bytes, bytes_eq}
use cloud_sys.CString.Decimal.{atoi-dec_int}
use cloud_sys.Database.{Mysql, rows, select, kind_of, db_query}
use cloud_sys.Database.Laws.{db_query-select}
use cloud_sys.PathStack.{Cwd, done, failed, stack_push, stack_pop}
use cloud_sys.PathStack.Spec.{Refines, Represents-id, push_names, pop_names}
use cloud_sys.PathStack.Refinement.{stack_push-Refines, pop_names_step, stack_pop-Refines}
use cloud_sys.Cd.{
  go_on, dot, dot_dot, sql_parent, sql_child, popped_reply, pushed_reply, child_reply, cd_piece,
  no_directory_message, overflow_message,
}
use cloud_sys.Cd.Directory.{Directory, id_rows}
use cloud_sys.Cd.Resolve.{piece_names, Located, Agrees, id_of-snoc, id_of-last, Located-IsId}

select_child : (id : ℤ) (name : Bytes) → kind_of (sql_child id name) ≡ select
unfolding kind_of sql_child
select_child id name = refl

select_parent : (id : ℤ) → kind_of (sql_parent id) ≡ select
unfolding kind_of sql_parent
select_parent id = refl

push_names-cases :
    (memory : Bool) (name : Bytes) (ds : List Bytes)
    → (push_names memory name ds ≡ (done, ds ++ name ∷ []))
      ⊎ (push_names memory name ds ≡ (failed, ds))
unfolding push_names
push_names-cases memory name ds = ground arith

module _ {m : Mysql} (tree : Directory m) where
  open tree use {child, parent, IsId, IsPlain, Stores, after_child, after_parent}

  child_answer :
      (id : ℤ) (name : Bytes) (d : m.Db)
      → Stores d
      → IsId id
      → IsPlain name
      → db_query m (sql_child id name) d ≡ (rows (id_rows (child id name)), after_child id name d)
  child_answer id name d s i p =
      db_query-select m (sql_child id name) d (after_child id name d) (id_rows (child id name))
        (select_child id name) (tree.child_runs id name d s i p) (tree.child_rows id name d s i p)

  parent_answer :
      (id : ℤ) (d : m.Db)
      → Stores d
      → IsId id
      → db_query m (sql_parent id) d ≡ (rows (id_rows (parent id)), after_parent id d)
  parent_answer id d s i =
      db_query-select m (sql_parent id) d (after_parent id d) (id_rows (parent id))
        (select_parent id) (tree.parent_runs id d s i) (tree.parent_rows id d s i)

  int_ne : (a b : ℤ) → a ≢ b → int_eq a b ≡ false
  int_ne a b h = elim (Bool-cases (int_eq a b)) [
    | inl e ↦ absurd (h ((int_eq_iff a b).0 e))
    | inr e ↦ e
  ]

  popped_parent :
      (t : Cwd) (q : ℤ) (d : m.Db)
      → t.current_pwd_id ≢ pos 1
      → parent t.current_pwd_id ≡ some q
      → Stores d
      → IsId t.current_pwd_id
      → popped_reply m d (some (done, t))
        ≡ go_on (record t { current_pwd_id = q }) (after_parent t.current_pwd_id d)
  unfolding popped_reply
  popped_parent t q d ne p st i =
      rw (int_ne t.current_pwd_id (pos 1) ne, parent_answer t.current_pwd_id d st i, p)
        (rw (atoi-dec_int q))

  -- `cd ..` below the root.
  up_one :
      (s : Cwd) (ds : List Bytes) (k : ℕ) (d : m.Db)
      → Located tree s ds
      → length ds ≡ suc k
      → Stores d
      → Agrees tree (popped_reply m d (stack_pop s)) (true, (pop_names ds).1)
  up_one s ds k d loc l st =
      let (q, n, above, last) = id_of-last tree (pos 1) s.current_pwd_id k ds l loc.id in
      let names = pop_names_step loc.stack k l in
      let (t, e, v, same) = subst (Refines s (stack_pop s)) names (stack_pop-Refines loc.stack) in
      let last' : child q n ≡ some t.current_pwd_id = last ∙ ap some (sym same) in
      let reply =
        popped_parent t q d (tree.child-ne_root q t.current_pwd_id n last')
          (tree.parent-child q t.current_pwd_id n last') st
          (tree.child-IsId q t.current_pwd_id n last') in
      (
        record t { current_pwd_id = q },
        after_parent t.current_pwd_id d,
        ap (popped_reply m d) e ∙ reply,
        rw names (record { stack = Represents-id t (take k ds) q v; id = above }),
        tree.parent_keeps t.current_pwd_id d st,
      )

  up_root :
      (s : Cwd) (d : m.Db)
      → Located tree s []
      → Stores d
      → Agrees tree (popped_reply m d (stack_pop s)) (true, (pop_names []).1)
  unfolding popped_reply pop_names
  up_root s d loc st =
      let (t, e, v, same) = stack_pop-Refines loc.stack in
      (
        record t { current_pwd_id = pos 1 },
        d,
        rw e,
        record { stack = Represents-id t [] (pos 1) v; id = refl },
        st,
      )

  up :
      (s : Cwd) (ds : List Bytes) (d : m.Db)
      → Located tree s ds
      → Stores d
      → Agrees tree (popped_reply m d (stack_pop s)) (true, (pop_names ds).1)
  up s [] d loc st = up_root s d loc st
  up s (n ∷ ns) d loc st = up_one s (n ∷ ns) (length ns) d loc refl st

  missing :
      (memory : Bool) (name : Bytes) (s : Cwd) (ds : List Bytes) (d : m.Db)
      → child s.current_pwd_id name ≡ none
      → Located tree s ds
      → Stores d
      → IsPlain name
      → Agrees tree
          (child_reply m memory name s (db_query m (sql_child s.current_pwd_id name) d))
          (false, ds)
  unfolding child_reply
  missing memory name s ds d none_there loc st plain = (
    no_directory_message name,
    s,
    after_child s.current_pwd_id name d,
    rw (child_answer s.current_pwd_id name d st (Located-IsId tree loc) plain, none_there),
    loc,
    tree.child_keeps s.current_pwd_id name d st,
  )

  pub found_reply :
      (memory : Bool) (name : Bytes) (s : Cwd) (c : ℤ) (d : m.Db)
      → child s.current_pwd_id name ≡ some c
      → Stores d
      → IsId s.current_pwd_id
      → IsPlain name
      → child_reply m memory name s (db_query m (sql_child s.current_pwd_id name) d)
        ≡ pushed_reply m name c (after_child s.current_pwd_id name d) (stack_push memory name s)
  unfolding child_reply
  found_reply memory name s c d there st i plain =
      rw (child_answer s.current_pwd_id name d st i plain, there) (rw (atoi-dec_int c))

  pushed :
      (memory : Bool) (name : Bytes) (s : Cwd) (ds : List Bytes) (c : ℤ) (d : m.Db)
      → child s.current_pwd_id name ≡ some c
      → Located tree s ds
      → Stores d
      → push_names memory name ds ≡ (done, ds ++ name ∷ [])
      → Agrees tree (pushed_reply m name c d (stack_push memory name s)) (true, ds ++ name ∷ [])
  unfolding pushed_reply
  pushed memory name s ds c d there loc st names =
      let (t, e, v, same) =
        subst (Refines s (stack_push memory name s)) names
          (stack_push-Refines loc.stack memory name) in
      let id = id_of-snoc tree (pos 1) s.current_pwd_id ds name loc.id ∙ there in
      (
        record t { current_pwd_id = c },
        d,
        rw e,
        record { stack = Represents-id t (ds ++ name ∷ []) c v; id = id },
        st,
      )

  refused :
      (memory : Bool) (name : Bytes) (s : Cwd) (ds : List Bytes) (c : ℤ) (d : m.Db)
      → Located tree s ds
      → Stores d
      → push_names memory name ds ≡ (failed, ds)
      → Agrees tree (pushed_reply m name c d (stack_push memory name s)) (false, ds)
  unfolding pushed_reply
  refused memory name s ds c d loc st names =
      let (t, e, v, same) =
        subst (Refines s (stack_push memory name s)) names
          (stack_push-Refines loc.stack memory name) in
      let id = loc.id ∙ ap some (sym same) in
      (overflow_message name, t, d, rw e, record { stack = v; id = id }, st)

  found :
      (memory : Bool) (name : Bytes) (s : Cwd) (ds : List Bytes) (c : ℤ) (d : m.Db)
      → child s.current_pwd_id name ≡ some c
      → Located tree s ds
      → Stores d
      → IsPlain name
      → Agrees tree
          (child_reply m memory name s (db_query m (sql_child s.current_pwd_id name) d))
          (int_eq (push_names memory name ds).0 done, (push_names memory name ds).1)
  found memory name s ds c d there loc st plain =
      let d' = after_child s.current_pwd_id name d in
      let st' = tree.child_keeps s.current_pwd_id name d st in
      rw (found_reply memory name s c d there st (Located-IsId tree loc) plain)
        (elim (push_names-cases memory name ds) [
          | inl e ↦ rw e (pushed memory name s ds c d' there loc st' e)
          | inr e ↦ rw e (refused memory name s ds c d' loc st' e)
        ])

  -- Each piece does to the stack and to `current_pwd_id` what it does to the names.
  pub cd_piece-Agrees :
      (memory : Bool) (name : Bytes) (s : Cwd) (ds : List Bytes) (d : m.Db)
      → Located tree s ds
      → Stores d
      → IsPlain name
      → Agrees tree (cd_piece m memory name s d) (piece_names tree memory name ds)
  unfolding cd_piece piece_names
  cd_piece-Agrees memory name s ds d loc st plain = elim (Bool-cases (bytes_eq name dot_dot)) [
    | inl e ↦ rw e (up s ds d loc st)
    | inr e ↦ elim (Bool-cases (bytes_eq name dot)) [
      | inl e' ↦ rw (e, e') (s, d, refl, loc, st)
      | inr e' ↦ elim (Option-cases (child s.current_pwd_id name)) [
        | inl h ↦
            rw (e, e', id_of-snoc tree (pos 1) s.current_pwd_id ds name loc.id, h)
              (missing memory name s ds d h loc st plain)
        | inr (c, h) ↦
            rw (e, e', id_of-snoc tree (pos 1) s.current_pwd_id ds name loc.id, h)
              (found memory name s ds c d h loc st plain)
      ]
    ]
  ]
