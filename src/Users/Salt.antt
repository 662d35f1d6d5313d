-- ===== src/Users/Salt.antt =====
-- The salts that `generate_salt` makes.
use cloud_sys.Base.{
  ℕ, zero, suc, ◌<◌, ◌≡◌, refl, ap, ◌∙◌, Bool, true, ◌&&◌, ◌||◌, List, [], ◌∷◌, ◌++◌, map, leb,
  arith, length, le→ltb, get_or, take_all,
}
use cloud_sys.CString.{Bytes, text, c_str}
use cloud_sys.Cd.{success}
use cloud_sys.Users.{alphanum, rand_max, salt_index, generate_salt}

abbrev pub is_salt_char : ℕ → Bool
is_salt_char b = (leb 46 b && leb b 57) || ((leb 65 b && leb b 90) || (leb 97 b && leb b 122))

abbrev pub all_of : (ℕ → Bool) → Bytes → Bool
all_of p [] = true
all_of p (x ∷ xs) = p x && all_of p xs

abbrev pub AllBelow : ℕ → List ℕ → Type 0
AllBelow n [] = Unit
AllBelow n (x ∷ xs) = (x < n) × AllBelow n xs

get_or-all_of :
    (p : ℕ → Bool) (xs ys : Bytes) (i : ℕ)
    → all_of p xs ≡ true
    → i < length xs
    → p (get_or (xs ++ ys) i 0) ≡ true
get_or-all_of p [] ys i h lt = absurd (ground arith)
get_or-all_of p (x ∷ xs) ys zero h lt = ground arith
get_or-all_of p (x ∷ xs) ys (suc i) h lt = get_or-all_of p xs ys i (ground arith) (ground arith)

salt_index-lt : (r : ℕ) → r < rand_max → salt_index r < 64
unfolding salt_index
salt_index-lt r h = omega (arith, h)

salt_char : (r : ℕ) → r < rand_max → is_salt_char (get_or alphanum (salt_index r) 0) ≡ true
unfolding alphanum text
salt_char r h =
    get_or-all_of is_salt_char
      (text "./0123456789ABCDEFGHIJKLMNOPQRSTUVWXYZabcdefghijklmnopqrstuvwxyz") (0 ∷ [])
      (salt_index r) refl (salt_index-lt r h)

c_str-cons : (b : ℕ) (bs : Bytes) → is_salt_char b ≡ true → c_str (b ∷ bs) ≡ b ∷ c_str bs
unfolding c_str
c_str-cons b bs h = ground arith

-- What the loop of `generate_salt` writes.
salt_of : List ℕ → Bytes
salt_of draws = map (λ r. get_or alphanum (salt_index r) 0) draws

salt_of-chars :
    (draws : List ℕ)
    → AllBelow rand_max draws
    → (c_str (salt_of draws) ≡ salt_of draws)
      × (length (salt_of draws) ≡ length draws)
      × (all_of is_salt_char (salt_of draws) ≡ true)
unfolding salt_of c_str
salt_of-chars [] h = (refl, refl, refl)
salt_of-chars (r ∷ rs) h =
    let e = salt_char r h.0 in
    let rest = salt_of-chars rs h.1 in
    (
      c_str-cons (get_or alphanum (salt_index r) 0) (salt_of rs) e
          ∙ ap (λ xs. get_or alphanum (salt_index r) 0 ∷ xs) rest.0,
      ap suc rest.1,
      rw (e, rest.2) refl,
    )

-- Twenty results of `rand` below RAND_MAX, and room for 21 bytes, give a salt of twenty characters
-- of the alphabet ./0-9A-Za-z.
pub generate_salt-chars :
    (size : ℕ) (draws : List ℕ)
    → 20 < size
    → length draws ≡ 20
    → AllBelow rand_max draws
    → (salt : Bytes) × (generate_salt size draws ≡ (success, salt))
      × (length salt ≡ 20)
      × (all_of is_salt_char salt ≡ true)
unfolding generate_salt salt_of
generate_salt-chars size draws room n h =
    let s = salt_of-chars draws h in
    (
      salt_of draws,
      rw (generate_salt, le→ltb size 21 (omega (arith, room)))
          (ap (λ xs. (success, c_str xs)) (take_all 20 (salt_of draws) (omega (arith, s.1, n)))
            ∙ ap (λ xs. (success, xs)) s.0),
      s.1 ∙ n,
      s.2,
    )
