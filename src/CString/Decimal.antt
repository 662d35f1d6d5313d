-- ===== src/CString/Decimal.antt =====
-- `atoi` reads back what `%d` prints.
use cloud_sys.Base.Int.{ℤ, pos, negsuc}
use cloud_sys.Base.{
  ℕ, zero, suc, ◌+◌, ◌-◌, ◌*◌, ◌/◌, ◌%◌, ◌≤◌, ◌<◌, ◌≡◌, refl, ap, ◌∙◌, inl, inr, true, false, [],
  ◌∷◌, ltb, ◌==◌, arith, Bool-cases, ltb→lt, ltb→le,
}
use cloud_sys.CString.{
  Bytes, dec_digits, dec, dec_int, atoi_digits, skip_space, negate, atoi_signed, atoi, is_digit,
  is_space,
}

digit_is_digit : (r : ℕ) → r < 10 → is_digit (48 + r) ≡ true
digit_is_digit r h = ground arith

atoi_digits-cons :
    (a r : ℕ) (acc : Bytes) → r < 10 → atoi_digits a ((48 + r) ∷ acc) ≡ atoi_digits (a * 10 + r) acc
unfolding atoi_digits
atoi_digits-cons a r acc h = let e : 48 + r - 48 ≡ r = omega arith in rw (digit_is_digit r h, e)

atoi_digits-dec_digits :
    (f n : ℕ) (acc : Bytes) → n < f → atoi_digits 0 (dec_digits f n acc) ≡ atoi_digits n acc
unfolding dec_digits
atoi_digits-dec_digits zero n acc h = elim h [ ]
atoi_digits-dec_digits (suc f) n acc h = elim (Bool-cases (ltb n 10)) [
  | inl e ↦
      let z : 0 * 10 + n ≡ n = omega arith in
      rw e (atoi_digits-cons 0 n acc (ltb→lt n 10 e) ∙ ap (λ k. atoi_digits k acc) z)
  | inr e ↦
      let b : 10 ≤ n = ltb→le n 10 e in
      let z : n / 10 * 10 + n % 10 ≡ n = omega arith in
      rw e (
        atoi_digits-dec_digits f (n / 10) ((48 + n % 10) ∷ acc) (omega arith)
        ∙ atoi_digits-cons (n / 10) (n % 10) acc (omega arith)
        ∙ ap (λ k. atoi_digits k acc) z)
]

-- The digits are at least one.
abbrev StartsWithDigit : Bytes → Type 0
StartsWithDigit s = (r : ℕ) × (bs : Bytes) × (r < 10) × (s ≡ (48 + r) ∷ bs)

dec_digits-StartsWithDigit : (f n : ℕ) (acc : Bytes) → n < f → StartsWithDigit (dec_digits f n acc)
unfolding dec_digits
dec_digits-StartsWithDigit zero n acc h = elim h [ ]
dec_digits-StartsWithDigit (suc f) n acc h = elim (Bool-cases (ltb n 10)) [
  | inl e ↦ rw e (n, acc, ltb→lt n 10 e, refl)
  | inr e ↦
      let b : 10 ≤ n = ltb→le n 10 e in
      rw e (dec_digits-StartsWithDigit f (n / 10) ((48 + n % 10) ∷ acc) (omega arith))
]

atoi_digits-dec : (n : ℕ) → atoi_digits 0 (dec n) ≡ n
unfolding dec
atoi_digits-dec n = atoi_digits-dec_digits (suc n) n [] (omega arith) ∙ unfold atoi_digits in refl

atoi_signed-digits : (s : Bytes) → StartsWithDigit s → atoi s ≡ pos (atoi_digits 0 s)
unfolding atoi skip_space atoi_signed
atoi_signed-digits s (r, bs, h, e) =
    let a : is_space (48 + r) ≡ false = ground arith in
    let b : ((48 + r) == b'-') ≡ false = ground arith in
    let c : ((48 + r) == b'+') ≡ false = ground arith in rw (e, a) (rw (b, c))

atoi_minus : (s : Bytes) → atoi (b'-' ∷ s) ≡ negate (atoi_digits 0 s)
unfolding atoi
atoi_minus s = refl

dec-StartsWithDigit : (n : ℕ) → StartsWithDigit (dec n)
unfolding dec
dec-StartsWithDigit n = dec_digits-StartsWithDigit (suc n) n [] (omega arith)

negate-suc : (n : ℕ) → negate (suc n) ≡ negsuc n
unfolding negate
negate-suc n = refl

pub atoi-dec_int : (i : ℤ) → atoi (dec_int i) ≡ i
unfolding dec_int
atoi-dec_int (pos n) =
    atoi_signed-digits (dec n) (dec-StartsWithDigit n) ∙ ap pos (atoi_digits-dec n)
atoi-dec_int (negsuc n) =
    atoi_minus (dec (suc n)) ∙ ap negate (atoi_digits-dec (suc n)) ∙ negate-suc n
