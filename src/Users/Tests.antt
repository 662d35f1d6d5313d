-- ===== src/Users/Tests.antt =====
-- A salt from twenty equal draws.
use cloud_sys.Base.{ℕ, zero, suc, ◌≡◌, ◌<◌, refl, true, arith, length, replicate}
use cloud_sys.CString.{Bytes}
use cloud_sys.Cd.{success}
use cloud_sys.Users.{generate_salt, rand_max}
use cloud_sys.Users.Salt.{AllBelow, all_of, is_salt_char, generate_salt-chars}

AllBelow-replicate : (k n x : ℕ) → x < n → AllBelow n (replicate k x)
AllBelow-replicate zero n x h = tt
AllBelow-replicate (suc k) n x h = (h, AllBelow-replicate k n x h)

generate_salt-chars_example :
    (salt : Bytes) × (generate_salt 25 (replicate 20 1000000000) ≡ (success, salt))
    × (length salt ≡ 20)
    × (all_of is_salt_char salt ≡ true)
generate_salt-chars_example =
    generate_salt-chars 25 (replicate 20 1000000000) (omega arith) refl
      (AllBelow-replicate 20 rand_max 1000000000 (omega arith))
