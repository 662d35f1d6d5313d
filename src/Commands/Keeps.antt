-- ===== src/Commands/Keeps.antt =====
-- What a command keeps of the state, and the tables of sessions.
use cloud_sys.Base.{Bool, true, false, none, some, if◌then◌else◌}
use cloud_sys.Database.{Mysql}
use cloud_sys.Sessions.Valid.{IsValid}
use cloud_sys.File.{Files}
use cloud_sys.Commands.{Server}
use cloud_sys.Commands.Login.{Ran}

-- What holds of the state after a command that returns.
abbrev pub Holds : {m : Mysql} {f : Files} → (Server m f → Type 0) → Ran m f → Type 0
Holds P none = Unit
Holds P (some r) = P r.1

-- Both tables are valid.
unfoldable pub AreValid : {m : Mysql} {f : Files} → Server m f → Type 0
AreValid s = IsValid s.logins × IsValid s.registers

module _ (m : Mysql) (f : Files) where
  pub Holds-if :
      (b : Bool) (x y : Ran m f)
      → Holds AreValid x
      → Holds AreValid y
      → Holds AreValid (if b then x else y)
  Holds-if true x y p q = p
  Holds-if false x y p q = q
