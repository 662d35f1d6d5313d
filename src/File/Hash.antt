-- ===== src/File/Hash.antt =====
-- The hash that names a stored file.
use cloud_sys.Base.{
  ℕ, ◌*◌, ◌/◌, ◌%◌, ◌<◌, ◌≡◌, refl, Bool, true, ◌&&◌, ◌||◌, List, [], ◌∷◌, some, leb, arith, length,
}
use cloud_sys.CString.{Bytes}
use cloud_sys.Users.Salt.{all_of, AllBelow}
use cloud_sys.File.{Files, hex, hex_digit, compute_sha1_from_memory}

abbrev pub is_hex : ℕ → Bool
is_hex b = (leb 48 b && leb b 57) || (leb 97 b && leb b 102)

hex_digit-hex : (n : ℕ) → n < 16 → is_hex (hex_digit n) ≡ true
unfolding hex_digit
hex_digit-hex n h = ground arith

hex-digits :
    (md : List ℕ)
    → AllBelow 256 md
    → (length (hex md) ≡ 2 * length md) × (all_of is_hex (hex md) ≡ true)
unfolding hex
hex-digits [] h = (refl, refl)
hex-digits (b ∷ bs) h =
    let (n, a) = hex-digits bs h.1 in
    (
      omega (arith, n),
      rw (hex_digit-hex (b / 16) (omega (arith, h.0)), hex_digit-hex (b % 16) (omega arith), a)
          refl,
    )

module _ (f : Files) where
  -- The name of a stored file has 40 characters from 0 to 9 and a to f, where SHA-1 gives 20 bytes.
  pub compute_sha1_from_memory-hex :
      (content : Bytes) (md : List ℕ)
      → f.sha1 content ≡ some md
      → length md ≡ 20
      → AllBelow 256 md
      → (hash : Bytes) × (compute_sha1_from_memory f content ≡ some hash)
        × (length hash ≡ 40)
        × (all_of is_hex hash ≡ true)
  unfolding compute_sha1_from_memory
  compute_sha1_from_memory-hex content md h n b =
      let d = hex-digits md b in
      (hex md, rw (compute_sha1_from_memory, h) refl, omega (arith, d.0, n), d.1)
