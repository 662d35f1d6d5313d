-- ===== src/PathStack/Refinement.antt =====
-- The array stack refines the list of names, and what happens before it is initialised.
use cloud_sys.Base.Int.{pos}
use cloud_sys.Base.{
  ℕ, suc, ◌+◌, ◌-◌, ◌<◌, ◌≡◌, ◌≢◌, refl, subst, sym, ap, ◌∙◌, inl, inr, Bool, true, false, List, [],
  ◌∷◌, ◌++◌, none, some, ltb, ◌==◌, length, take, arith, length-take, length-append, Bool-cases,
  lt→ltb, ltb→lt, ne→==, ==_iff,
}
use cloud_sys.CString.{Bytes}
use cloud_sys.PathStack.{
  Cwd, max_stack_size, root_path, done, fresh, write_slot, rebuild, rebuild_loop, stack_init,
  stack_push, pop_to, stack_pop, stack_clear,
}
use cloud_sys.PathStack.Spec.{join, path_of, Holds, Represents, Refines, push_names, pop_names}
use cloud_sys.PathStack.Rebuild.{rebuild-path_of, Holds-write_slot, Holds-snoc, Holds-take}

-- A stack that was just initialised or cleared stands for the root.
pub stack_init-Represents : (s : Cwd) → Represents (stack_init s).1 []
unfolding stack_init path_of join
stack_init-Represents s = record { size = refl; room = omega arith; slots = tt; path = refl }

pub stack_clear-Represents : (s : Cwd) → Represents (stack_clear s).1 []
unfolding stack_clear path_of join
stack_clear-Represents s = record { size = refl; room = omega arith; slots = tt; path = refl }

pub stack_init-root : (s : Cwd) → (stack_init s).1.current_pwd_id ≡ pos 1
unfolding stack_init
stack_init-root s = refl

pub stack_clear-root : (s : Cwd) → (stack_clear s).1.current_pwd_id ≡ pos 1
unfolding stack_clear
stack_clear-root s = refl

path_of-nil : path_of [] ≡ root_path
unfolding path_of join
path_of-nil = refl

module _ {s : Cwd} {ds : List Bytes} (v : Represents s ds) where
  pushed_slots : (d : Bytes) → Holds (write_slot s.dir s.depth (some d)) 0 (ds ++ d ∷ [])
  pushed_slots d =
      Holds-snoc (write_slot s.dir s.depth (some d)) 0 d ds
        (Holds-write_slot s.dir 0 s.depth (some d) ds v.slots (omega (arith, v.size)))
        (let e : (s.depth == 0 + length ds) ≡ true = (==_iff _ _).1 (omega (arith, v.size)) in rw e)

  pushed_size : (d : Bytes) → suc s.depth ≡ length (ds ++ d ∷ [])
  pushed_size d = omega (arith, v.size, length-append ds (d ∷ []))

  pushed_path :
      (d : Bytes)
      → rebuild (write_slot s.dir s.depth (some d)) (suc s.depth) ≡ some (path_of (ds ++ d ∷ []))
  pushed_path d =
      ap (rebuild (write_slot s.dir s.depth (some d))) (pushed_size d)
      ∙ rebuild-path_of (write_slot s.dir s.depth (some d)) (ds ++ d ∷ []) (pushed_slots d)

  -- The guards of `stack_push` and of `push_names` agree.
  same_room : ltb s.depth max_stack_size ≡ ltb (length ds) max_stack_size
  same_room = ap (λ n. ltb n max_stack_size) v.size

  push_ok :
      (d : Bytes)
      → length ds < max_stack_size
      → (length d == 0) ≡ false
      → Refines s (stack_push true d s) (done, ds ++ d ∷ [])
  unfolding stack_push
  push_ok d h e = (
    record {
      dir = write_slot s.dir s.depth (some d);
      depth = suc s.depth;
      cur_v_path = path_of (ds ++ d ∷ []);
      current_pwd_id = s.current_pwd_id;
    },
    rw (e, same_room, lt→ltb (length ds) max_stack_size h, pushed_path d),
    record {
      size = pushed_size d;
      room = omega (arith, length-append ds (d ∷ []));
      slots = pushed_slots d;
      path = refl;
    },
    refl,
  )

  -- `stack_push` adds a name at the end. It refuses, and changes nothing, where the name is
  -- empty, the stack is full, or `strdup` fails.
  pub stack_push-Refines :
      (memory : Bool) (d : Bytes) → Refines s (stack_push memory d s) (push_names memory d ds)
  unfolding stack_push push_names
  stack_push-Refines memory d = elim (Bool-cases (length d == 0)) [
    | inl e ↦ rw e (s, refl, v, refl)
    | inr e ↦ elim (Bool-cases (ltb (length ds) max_stack_size)) [
      | inr full ↦ rw (e, full) (s, rw (same_room, full), v, refl)
      | inl free ↦ go memory e free
    ]
  ]
    where
      go :
          (m : Bool)
          → (length d == 0) ≡ false
          → ltb (length ds) max_stack_size ≡ true
          → Refines s (stack_push m d s) (push_names m d ds)
      go true e free =
          let names : push_names true d ds ≡ (done, ds ++ d ∷ []) = rw (e, free) in
          subst (Refines s (stack_push true d s)) (sym names)
            (push_ok d (ltb→lt (length ds) max_stack_size free) e)
      go false e free = rw (e, free) (s, rw (same_room, free), v, refl)

  module _ (n : ℕ) (e : length ds ≡ suc n) where
    popped_size : length (take n ds) ≡ n
    popped_size = omega (arith, length-take n ds)

    popped_slots : Holds (write_slot s.dir n none) 0 (take n ds)
    popped_slots =
        Holds-write_slot s.dir 0 n none (take n ds) (Holds-take s.dir 0 n ds v.slots)
          (omega (arith, popped_size))

    popped_path : rebuild (write_slot s.dir n none) n ≡ some (path_of (take n ds))
    popped_path =
        ap (rebuild (write_slot s.dir n none)) (sym popped_size)
        ∙ rebuild-path_of (write_slot s.dir n none) (take n ds) popped_slots

    popped : (path : Bytes) → path ≡ path_of (take n ds) → Cwd
    popped path _ = record {
      dir = write_slot s.dir n none;
      depth = n;
      cur_v_path = path;
      current_pwd_id = s.current_pwd_id;
    }

    popped-Represents :
        (path : Bytes) (h : path ≡ path_of (take n ds)) → Represents (popped path h) (take n ds)
    unfolding popped
    popped-Represents path h = record {
      size = sym popped_size;
      room = omega (arith, popped_size, v.room);
      slots = popped_slots;
      path = h;
    }

  pop_to-Refines : (n : ℕ) → length ds ≡ suc n → Refines s (pop_to n s) (done, take n ds)
  unfolding pop_to popped
  pop_to-Refines n e = elim (Bool-cases (n == 0)) [
    | inl z ↦
        let here : root_path ≡ path_of (take n ds) =
          sym (ap (λ k. path_of (take k ds)) ((==_iff n 0).0 z) ∙ path_of-nil) in
        (popped n e root_path here, rw z, popped-Represents n e root_path here, refl)
    | inr nz ↦ (
      popped n e (path_of (take n ds)) refl,
      rw (nz, popped_path n e),
      popped-Represents n e (path_of (take n ds)) refl,
      refl,
    )
  ]

  pub pop_names_step : (n : ℕ) → length ds ≡ suc n → pop_names ds ≡ (done, take n ds)
  unfolding pop_names
  pop_names_step n e =
      let nz : (length ds == 0) ≡ false = ne→== _ _ (omega arith) in
      let k : length ds - 1 ≡ n = omega arith in rw (nz, k)

  stack_pop_step : (n : ℕ) → length ds ≡ suc n → stack_pop s ≡ pop_to n s
  unfolding stack_pop
  stack_pop_step n e =
      let nz : (s.depth == 0) ≡ false = ne→== _ _ (omega (arith, v.size)) in
      let k : s.depth - 1 ≡ n = omega (arith, v.size) in rw nz (ap (λ j. pop_to j s) k)

  pop_empty : length ds ≡ 0 → Refines s (stack_pop s) (pop_names ds)
  unfolding stack_pop pop_names
  pop_empty e =
      let z : (length ds == 0) ≡ true = (==_iff _ _).1 e in
      let z' : (s.depth == 0) ≡ true = (==_iff _ _).1 (v.size ∙ e) in
      (
        record s { cur_v_path = root_path; depth = 0 },
        rw (z, z'),
        rw z (record { size = refl; room = omega arith; slots = tt; path = sym path_of-nil }),
        refl,
      )

  -- `stack_pop` removes the last name. On the empty stack it fails and stays at the root.
  pub stack_pop-Refines : Refines s (stack_pop s) (pop_names ds)
  stack_pop-Refines = elim (Bool-cases (length ds == 0)) [
    | inl z ↦ pop_empty ((==_iff _ _).0 z)
    | inr nz ↦
        let n : ℕ = length ds - 1 in
        let e : length ds ≡ suc n = ground arith in
        rw (stack_pop_step n e, pop_names_step n e) (pop_to-Refines n e)
  ]

-- Before `stack_init` the slot below the new name is NULL: a push of any name that is let in runs
-- into it and does not return.
pub stack_push-fresh_crash : (d : Bytes) → length d ≢ 0 → stack_push true d fresh ≡ none
unfolding stack_push rebuild rebuild_loop
stack_push-fresh_crash d h = rw (ne→== (length d) 0 h)
