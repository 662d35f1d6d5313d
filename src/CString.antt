-- ===== src/CString.antt =====
-- C strings, as the functions of the C library that the server calls treat them. A string is the
-- list of its bytes before the terminating NUL; a buffer is a list of bytes that may hold NULs.
pub mod Decimal
use Prim.Native.Char.{code}
use Prim.Native.String.{String}
use cloud_sys.Base.Int.{ℤ, pos, negsuc}
use cloud_sys.Base.{
  ℕ, zero, suc, ◌+◌, ◌-◌, ◌*◌, ◌/◌, ◌%◌, ◌≤◌, ◌≡◌, Bool, true, false, ◌&&◌, ◌||◌, List, [], ◌∷◌,
  ◌++◌, map, Option, none, some, ltb, leb, ◌==◌, if◌then◌else◌, length, take, drop,
}

abbrev pub Bytes : Type 0
Bytes = List ℕ

-- One character in UTF-8, the encoding of the sources.
utf8_char : ℕ → Bytes
utf8_char c =
    if ltb c 0x80
    then c ∷ []
    else if ltb c 0x800
    then (0xc0 + c / 64) ∷ (0x80 + c % 64) ∷ []
    else if ltb c 0x10000
    then (0xe0 + c / 4096) ∷ (0x80 + c / 64 % 64) ∷ (0x80 + c % 64) ∷ []
    else (0xf0 + c / 262144) ∷ (0x80 + c / 4096 % 64) ∷ (0x80 + c / 64 % 64) ∷ (0x80 + c % 64) ∷ []

-- A string literal of the source.
unfoldable pub text : String → Bytes
unfolding utf8_char
text String.[] = []
text (String.◌∷◌ c s) = utf8_char (code c) ++ text s

-- The string that starts a buffer: its bytes before the first NUL.
unfoldable pub c_str : Bytes → Bytes
c_str [] = []
c_str (b ∷ bs) = let rest = b ∷ c_str bs in if b == 0 then [] else rest

-- `strcmp(a, b) == 0`.
abbrev pub bytes_eq : Bytes → Bytes → Bool
bytes_eq [] [] = true
bytes_eq [] (b ∷ bs) = false
bytes_eq (a ∷ as') [] = false
bytes_eq (a ∷ as') (b ∷ bs) = (a == b) && bytes_eq as' bs

-- `strncat(dst, src, n)`.
abbrev pub strncat : Bytes → Bytes → ℕ → Bytes
strncat dst src n = dst ++ take n src

-- `strtok` called until it returns NULL: the non-empty pieces between separators. `piece` is
-- the token under way.
strtok_from : ℕ → Bytes → Bytes → List Bytes
strtok_from sep piece [] = if length piece == 0 then [] else piece ∷ []
strtok_from sep piece (b ∷ bs) =
    let skip = strtok_from sep [] bs in
    let cut = piece ∷ strtok_from sep [] bs in
    let more = strtok_from sep (piece ++ b ∷ []) bs in
    if b == sep then (if length piece == 0 then skip else cut) else more

unfoldable pub strtok : ℕ → Bytes → List Bytes
unfolding strtok_from
strtok sep s = strtok_from sep [] s

-- The decimal digits of a number, on fuel; `dec` gives one round for each unit, which is enough.
dec_digits : ℕ → ℕ → Bytes → Bytes
dec_digits zero n acc = acc
dec_digits (suc f) n acc =
    let rest = dec_digits f (n / 10) ((48 + n % 10) ∷ acc) in
    if ltb n 10 then (48 + n) ∷ acc else rest

unfoldable pub dec : ℕ → Bytes
unfolding dec_digits
dec n = dec_digits (suc n) n []

-- `%d`.
unfoldable pub dec_int : ℤ → Bytes
unfolding dec
dec_int (pos n) = dec n
dec_int (negsuc n) = b'-' ∷ dec (suc n)

abbrev pub is_digit : ℕ → Bool
is_digit b = leb 48 b && leb b 57

abbrev pub is_space : ℕ → Bool
is_space b = (b == 32) || (leb 9 b && leb b 13)

atoi_digits : ℕ → Bytes → ℕ
atoi_digits acc [] = acc
atoi_digits acc (b ∷ bs) =
    let rest = atoi_digits (acc * 10 + (b - 48)) bs in if is_digit b then rest else acc

-- `isspace` bytes at the front are skipped.
unfoldable pub skip_space : Bytes → Bytes
skip_space [] = []
skip_space (b ∷ bs) = let rest = skip_space bs in if is_space b then rest else b ∷ bs

negate : ℕ → ℤ
negate zero = pos 0
negate (suc n) = negsuc n

atoi_signed : Bytes → ℤ
unfolding atoi_digits negate
atoi_signed [] = pos 0
atoi_signed (b ∷ bs) =
    if b == b'-'
    then negate (atoi_digits 0 bs)
    else if b == b'+'
    then pos (atoi_digits 0 bs)
    else pos (atoi_digits 0 (b ∷ bs))

-- `atoi`, for values that an `int` holds.
unfoldable pub atoi : Bytes → ℤ
unfolding skip_space atoi_signed
atoi s = atoi_signed (skip_space s)
