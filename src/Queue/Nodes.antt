-- ===== src/Queue/Nodes.antt =====
-- The nodes of the queue as a list, and the heap at them.
use cloud_sys.Base.{
  ℕ, suc, ◌+◌, ◌≡◌, ◌≢◌, refl, sym, ap, subst, ◌∙◌, true, false, List, [], ◌∷◌, ◌++◌, Option, none,
  some, ◌==◌, arith, length, ne→==, ==_refl,
}
use cloud_sys.Queue.{LongCommand, Ptr, null, Node, Heap, write, load}
use cloud_sys.Queue.Chain.{Cells, has, last, commands, node, Chain}

pub commands-append :
    (cs : Cells) (p : Ptr) (c : LongCommand) → commands (cs ++ (p, c) ∷ []) ≡ commands cs ++ c ∷ []
commands-append [] p c = refl
commands-append ((q, d) ∷ cs) p c = ap (λ ds. d ∷ ds) (commands-append cs p c)

pub last-append : (cs : Cells) (p : Ptr) (c : LongCommand) → last (cs ++ (p, c) ∷ []) ≡ p
last-append [] p c = refl
last-append ((q, d) ∷ []) p c = refl
last-append ((q, d) ∷ x ∷ cs) p c = last-append (x ∷ cs) p c

pub length-snoc :
    (cs : Cells) (p : Ptr) (c : LongCommand) → length (cs ++ (p, c) ∷ []) ≡ length cs + 1
length-snoc [] p c = omega arith
length-snoc ((q, d) ∷ cs) p c = omega (arith, length-snoc cs p c)

pub has-last :
    (p : Ptr) (d : LongCommand) (cs : Cells) → has (last ((p, d) ∷ cs)) ((p, d) ∷ cs) ≡ true
has-last p d [] = ground arith
has-last p d ((q, e) ∷ cs) = ground (arith, has-last q e cs)

pub last_command : LongCommand → Cells → LongCommand
last_command d [] = d
last_command d ((q, e) ∷ cs) = last_command e cs

-- What `en_queue` reads at the rear.
pub Chain-last :
    (h : Heap) (p : Ptr) (d : LongCommand) (cs : Cells)
    → Chain h ((p, d) ∷ cs)
    → (last ((p, d) ∷ cs) ≢ null) × (h (last ((p, d) ∷ cs)) ≡ some (node (last_command d cs) null))
unfolding last_command
Chain-last h p d [] k = (k.0, k.1)
Chain-last h p d ((q, e) ∷ cs) k = Chain-last h q e cs k.3

pub has-append :
    (b : Ptr) (cs : Cells) (a : Ptr) (c : LongCommand)
    → has b cs ≡ false
    → (b == a) ≡ false
    → has b (cs ++ (a, c) ∷ []) ≡ false
has-append b [] a c out ne = ground arith
has-append b ((q, e) ∷ cs) a c out ne = ground (arith, has-append b cs a c (ground arith) ne)

pub ne_last :
    (p q : Ptr) (e : LongCommand) (cs : Cells)
    → has p ((q, e) ∷ cs) ≡ false
    → (p == last ((q, e) ∷ cs)) ≡ false
ne_last p q e cs out = ne→== p (last ((q, e) ∷ cs)) (λ i.
    let inside = subst (λ z. has z ((q, e) ∷ cs) ≡ true) (sym i) (has-last q e cs) in
    absurd (ground arith))

-- The chain after the last node was made to point to the new one.
pub Chain-append :
    (h g : Heap) (p : Ptr) (d : LongCommand) (cs : Cells) (a : Ptr) (c : LongCommand)
    → a ≢ null
    → has a ((p, d) ∷ cs) ≡ false
    → g a ≡ some (node c null)
    → g (last ((p, d) ∷ cs)) ≡ some (node (last_command d cs) a)
    → ((b : Ptr) → (b == last ((p, d) ∷ cs)) ≡ false → (b == a) ≡ false → g b ≡ h b)
    → Chain h ((p, d) ∷ cs)
    → Chain g (((p, d) ∷ cs) ++ (a, c) ∷ [])
unfolding last_command
Chain-append h g p d [] a c ne out new old same k = (k.0, old, ground arith, (ne, new, refl, tt))
Chain-append h g p d ((q, e) ∷ cs) a c ne out new old same k =
    let rest = Chain-append h g q e cs a c ne (ground arith) new old same k.3 in
    (
      k.0,
      same p (ne_last p q e cs k.2) (ground arith) ∙ k.1,
      has-append p ((q, e) ∷ cs) a c k.2 (ground arith),
      rest,
    )

pub length-commands : (cs : Cells) → length cs ≡ length (commands cs)
length-commands [] = refl
length-commands ((q, d) ∷ cs) = ap suc (length-commands cs)

pub cons_injective :
    {x y : LongCommand} {xs ys : List LongCommand} → x ∷ xs ≡ y ∷ ys → (x ≡ y) × (xs ≡ ys)
cons_injective e = (cc, cc)

pub some-ne-none : (n : Node) → ¬ (some n ≡ none)
some-ne-none n e = ground arith

pub ==_false_sym : (a b : ℕ) → (a == b) ≡ false → (b == a) ≡ false
==_false_sym a b h = ground arith

pub write_self : (h : Heap) (p : Ptr) (n : Option Node) → write h p n p ≡ n
unfolding write
write_self h p n = rw (==_refl p) refl

pub write-other : (h : Heap) (p b : Ptr) (n : Option Node) → (b == p) ≡ false → write h p n b ≡ h b
unfolding write
write-other h p b n ne = rw ne refl

pub load-held : (h : Heap) (p : Ptr) (n : Node) → p ≢ null → h p ≡ some n → load h p ≡ some n
unfolding load
load-held h p n ne held = rw (load, ne→== p null ne, held) refl
