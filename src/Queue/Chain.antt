-- ===== src/Queue/Chain.antt =====
-- The nodes of a linked list, and what of the heap they take.
use cloud_sys.Base.{
  ◌≡◌, ◌≢◌, refl, Bool, true, false, ◌||◌, List, [], ◌∷◌, Option, none, some, ◌==◌, arith,
}
use cloud_sys.Queue.{LongCommand, Ptr, null, Node, Heap, write}

-- The address and the command of each node, in order.
abbrev pub Cells : Type 0
Cells = List (Ptr × LongCommand)

abbrev pub has : Ptr → Cells → Bool
has a [] = false
has a ((p, c) ∷ cs) = (a == p) || has a cs

abbrev pub first : Cells → Ptr
first [] = null
first ((p, c) ∷ cs) = p

abbrev pub last : Cells → Ptr
last [] = null
last ((p, c) ∷ []) = p
last ((p, c) ∷ x ∷ cs) = last (x ∷ cs)

abbrev pub commands : Cells → List LongCommand
commands [] = []
commands ((p, c) ∷ cs) = c ∷ commands cs

abbrev pub node : LongCommand → Ptr → Node
node c q = record { long_command = c; next = q }

-- The heap holds each node, which points to the one behind it; the last one points to NULL.
abbrev pub Chain : Heap → Cells → Type 0
Chain h [] = Unit {0}
Chain h ((p, c) ∷ cs) =
    (p ≢ null) × (h p ≡ some (node c (first cs))) × (has p cs ≡ false) × Chain h cs

pub Chain-frame :
    (h g : Heap) (cs : Cells) → ((a : Ptr) → has a cs ≡ true → g a ≡ h a) → Chain h cs → Chain g cs
Chain-frame h g [] same k = tt
Chain-frame h g ((p, c) ∷ cs) same k =
    (k.0, ground (arith, same p, k.1), k.2, Chain-frame h g cs (λ a i. same a (ground arith)) k.3)

pub Chain-write :
    (h : Heap) (a : Ptr) (n : Option Node) (cs : Cells)
    → has a cs ≡ false
    → Chain h cs
    → Chain (write h a n) cs
unfolding write
Chain-write h a n cs out = Chain-frame h (write h a n) cs (λ b i. ground arith)

-- An address that holds no node is none of the chain's.
pub Chain-unused : (h : Heap) (a : Ptr) (cs : Cells) → h a ≡ none → Chain h cs → has a cs ≡ false
Chain-unused h a [] unused k = refl
Chain-unused h a ((p, c) ∷ cs) unused k = ground (arith, Chain-unused h a cs unused k.3, k.1)
