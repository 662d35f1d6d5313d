-- ===== src/PathStack/Rebuild.antt =====
-- The rebuilding loop against the path that the names spell.
use cloud_sys.Base.{
  ℕ, zero, suc, ◌+◌, ◌-◌, ◌≤◌, ◌<◌, ◌≡◌, refl, ap, ◌∙◌, List, [], ◌∷◌, ◌++◌, Option, some, ltb,
  if◌then◌else◌, length, take, arith, take-append, take-take, length-take, lt→ltb, le→ltb, ne→==,
}
use mathlib.Core.List.{append_assoc, append-nil}
use cloud_sys.CString.{Bytes}
use cloud_sys.PathStack.{path_max, root_path, append_room, rebuild_loop, rebuild, write_slot}
use cloud_sys.PathStack.Spec.{join, path_of, Holds}

abbrev cut : Bytes → Bytes
cut = take (path_max - 1)

-- Appending within the room that is left is appending and then cutting.
append_room-cut : (a d : Bytes) → append_room (cut a) d ≡ cut (a ++ d)
append_room-cut a d =
    let e : path_max - length (cut a) - 1 ≡ path_max - 1 - length a =
      omega (arith, length-take (path_max - 1) a) in
    rw e (rw (take-append (path_max - 1) a d))

abbrev next_temp : ℕ → ℕ → Bytes → Bytes → Bytes
next_temp depth i d temp =
    if ltb (suc i) depth then append_room (append_room temp d) root_path else append_room temp d

rebuild_loop_step :
    (dir : ℕ → Option Bytes) (depth i r : ℕ) (d temp : Bytes)
    → dir i ≡ some d
    → rebuild_loop dir depth i (suc r) temp
      ≡ rebuild_loop dir depth (suc i) r (next_temp depth i d temp)
unfolding rebuild_loop
rebuild_loop_step dir depth i r d temp h = rw (h, rebuild_loop)

next_temp_last :
    (depth i : ℕ) (d a : Bytes) → depth ≤ suc i → next_temp depth i d (cut a) ≡ cut (a ++ d)
next_temp_last depth i d a h = rw (le→ltb (suc i) depth h) (append_room-cut a d)

next_temp_more :
    (depth i : ℕ) (d a : Bytes)
    → suc i < depth
    → next_temp depth i d (cut a) ≡ cut ((a ++ d) ++ root_path)
next_temp_more depth i d a h =
    rw (lt→ltb (suc i) depth h, append_room-cut a d) (append_room-cut (a ++ d) root_path)

-- The loop over the slots that hold `ds` appends their names with separators between.
rebuild_loop-join :
    (dir : ℕ → Option Bytes) (depth i : ℕ) (ds : List Bytes) (a : Bytes)
    → Holds dir i ds
    → depth ≡ i + length ds
    → rebuild_loop dir depth i (length ds) (cut a) ≡ some (cut (a ++ join ds))
unfolding join
rebuild_loop-join dir depth i [] a h e = unfold rebuild_loop in rw append-nil
rebuild_loop-join dir depth i (d ∷ []) a h e =
    rw (rebuild_loop_step dir depth i 0 d (cut a) h.0, next_temp_last depth i d a (omega arith))
      (unfold rebuild_loop in refl)
rebuild_loop-join dir depth i (d ∷ d' ∷ ds) a h e =
    rw
      (
        rebuild_loop_step dir depth i (suc (length ds)) d (cut a) h.0,
        next_temp_more depth i d a (omega arith),
      )
      (rebuild_loop-join dir depth (suc i) (d' ∷ ds) ((a ++ d) ++ root_path) h.1 (omega arith)
        ∙ ap (λ b. some (cut b)) (append_assoc (a ++ d) root_path _ ∙ append_assoc a d _))

pub rebuild-path_of :
    (dir : ℕ → Option Bytes) (ds : List Bytes)
    → Holds dir 0 ds
    → rebuild dir (length ds) ≡ some (path_of ds)
unfolding rebuild path_of
rebuild-path_of dir ds h =
    rw (rebuild_loop-join dir (length ds) 0 ds root_path h (omega arith), rebuild)
      (rw (take-take (path_max - 1) (path_max - 1) (root_path ++ join ds)) refl)

-- A write at or above the end of the names leaves them in place.
pub Holds-write_slot :
    (dir : ℕ → Option Bytes) (i j : ℕ) (v : Option Bytes) (ds : List Bytes)
    → Holds dir i ds
    → i + length ds ≤ j
    → Holds (write_slot dir j v) i ds
Holds-write_slot dir i j v [] h le = tt
Holds-write_slot dir i j v (d ∷ ds) h le =
    (rw (ne→== j i (omega arith)) h.0, Holds-write_slot dir (suc i) j v ds h.1 (omega arith))

pub Holds-snoc :
    (dir : ℕ → Option Bytes) (i : ℕ) (d : Bytes) (ds : List Bytes)
    → Holds dir i ds
    → dir (i + length ds) ≡ some d
    → Holds dir i (ds ++ d ∷ [])
Holds-snoc dir i d [] h e = (let z : i + 0 ≡ i = omega arith in rw z at e, tt)
Holds-snoc dir i d (d' ∷ ds) h e =
    let z : i + suc (length ds) ≡ suc i + length ds = omega arith in
    (h.0, Holds-snoc dir (suc i) d ds h.1 (rw z at e))

pub Holds-take :
    (dir : ℕ → Option Bytes) (i n : ℕ) (ds : List Bytes) → Holds dir i ds → Holds dir i (take n ds)
Holds-take dir i zero ds h = tt
Holds-take dir i (suc n) [] h = tt
Holds-take dir i (suc n) (d ∷ ds) h = (h.0, Holds-take dir (suc i) n ds h.1)
