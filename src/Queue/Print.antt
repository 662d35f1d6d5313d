-- ===== src/Queue/Print.antt =====
-- `print_queue`: the loop over the nodes ends.
use cloud_sys.Base.{
  ℕ, zero, suc, ◌<◌, ◌≡◌, refl, ap, ◌∙◌, List, [], ◌∷◌, ◌++◌, some, ◌==◌, if◌then◌else◌, arith,
  length, ne→==,
}
use cloud_sys.CString.{Bytes, text, dec}
use cloud_sys.Queue.{LongCommand, null, Heap, TaskQueue, print_from, print_queue}
use cloud_sys.Queue.Chain.{Cells, first, commands, node, Chain}
use cloud_sys.Queue.Nodes.{load-held, length-commands}
use cloud_sys.Queue.Refinement.{Refines}

arrow : List LongCommand → Bytes
arrow [] = []
arrow (c ∷ xs) = text "-->"

-- The descriptors with arrows between them, and a newline.
pub shown : List LongCommand → Bytes
unfolding arrow
shown [] = 10 ∷ []
shown (c ∷ xs) = dec c.netfd ++ (arrow xs ++ shown xs)

arrow-first :
    (h : Heap) (cs : Cells)
    → Chain h cs
    → (if first cs == null then [] else text "-->") ≡ arrow (commands cs)
unfolding arrow
arrow-first h [] k = refl
arrow-first h ((p, c) ∷ cs) k = rw (ne→== p null k.0) refl

print_from-shown :
    (h : Heap) (cs : Cells) (fuel : ℕ)
    → Chain h cs
    → length cs < fuel
    → print_from fuel h (first cs) ≡ some (shown (commands cs))
unfolding print_from shown
print_from-shown h cs zero k lt = absurd (omega arith)
print_from-shown h [] (suc fuel) k lt = refl
print_from-shown h ((p, c) ∷ cs) (suc fuel) k lt =
    rw
      (
        print_from,
        ne→== p null k.0,
        load-held h p (node c (first cs)) k.0 k.1,
        print_from-shown h cs fuel k.3 (omega arith),
        arrow-first h cs k.3,
      )
      refl

-- With more fuel than the list is long, `print_queue` ends without a fault, and prints the
-- descriptors of the commands in order.
pub print_queue-shown :
    (q : TaskQueue) (xs : List LongCommand) (fuel : ℕ)
    → Refines q xs
    → length xs < fuel
    → print_queue fuel q ≡ some (shown xs)
unfolding Refines print_queue
print_queue-shown q xs fuel (cs, is, e) lt =
    ap (print_from fuel q.heap) is.at_front
    ∙ print_from-shown q.heap cs fuel is.chain (omega (arith, length-commands cs, ap length e, lt))
    ∙ ap (λ ys. some (shown ys)) e
