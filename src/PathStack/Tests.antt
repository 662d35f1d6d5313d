-- ===== src/PathStack/Tests.antt =====
-- Runs of the directory stack, and its theorems at concrete states.
use cloud_sys.Base.Int.{ℤ}
use cloud_sys.Base.{◌≡◌, refl, true, [], ◌∷◌, ◌++◌, Option, none, some, arith}
use cloud_sys.CString.{Bytes}
use cloud_sys.PathStack.{
  Cwd, fresh, failed, done, stack_init, stack_push, stack_pop, stack_clear, write_slot, rebuild,
  root_path,
}
use cloud_sys.PathStack.Spec.{Represents, Refines, push_names, pop_names}
use cloud_sys.PathStack.Refinement.{
  stack_init-Represents, stack_push-Refines, stack_pop-Refines, stack_push-fresh_crash,
}

abbrev docs : Bytes
docs = b'd' ∷ b'o' ∷ b'c' ∷ b's' ∷ []

abbrev pics : Bytes
pics = b'p' ∷ b'i' ∷ []

abbrev start : Cwd
start = (stack_init fresh).1

abbrev path_after : Option (ℤ × Cwd) → Bytes
path_after none = []
path_after (some (code, s)) = s.cur_v_path

abbrev state_after : Option (ℤ × Cwd) → Cwd
state_after none = fresh
state_after (some (code, s)) = s

-- `/docs/pi`, and back.
two_levels :
    path_after (stack_push true pics (state_after (stack_push true docs start)))
    ≡ b'/' ∷ (docs ++ (b'/' ∷ pics))
unfolding stack_init stack_push rebuild cloud_sys.PathStack.rebuild_loop
two_levels = refl

back_again :
    path_after
      (stack_pop (state_after (stack_push true pics (state_after (stack_push true docs start)))))
    ≡ b'/' ∷ docs
unfolding stack_init stack_push stack_pop rebuild cloud_sys.PathStack.rebuild_loop
    cloud_sys.PathStack.pop_to
back_again = refl

stack_push-Refines_example : Refines start (stack_push true docs start) (push_names true docs [])
stack_push-Refines_example = stack_push-Refines (stack_init-Represents fresh) true docs

-- The state after one push, as the refinement gives it.
abbrev inside : Cwd
inside = stack_push-Refines_example.0

inside-Represents : Represents inside (push_names true docs []).1
inside-Represents = stack_push-Refines_example.2

stack_pop-Refines_example :
    Refines inside (stack_pop inside) (pop_names (push_names true docs []).1)
stack_pop-Refines_example = stack_pop-Refines inside-Represents

stack_push-fresh_crash_example : stack_push true docs fresh ≡ none
stack_push-fresh_crash_example = stack_push-fresh_crash docs (λ e. omega arith)
