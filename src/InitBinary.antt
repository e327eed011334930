-- ===== src/InitBinary.antt =====
-- src/lib.rs: where the init binary is looked for if a spec names none.
use zeptocapsule.Common.{◌+◌, Bool, Option, none, some, ◌++◌, take, if◌then◌else◌}
use zeptocapsule.Common.Result.{Result, ok, err}
use zeptocapsule.Common.Program.{Program, ret, raise, ◌>>=◌}
use zeptocapsule.Text.{Str, codes, rfind}

-- `path.set_file_name(name)` of a path that ends in a file's name
unfoldable pub set_file_name : Str → Str → Str
unfolding rfind
set_file_name path name = elim (rfind b'/' path) [
  | none ↦ name
  | some i ↦ take (i + 1) path ++ name
]

-- `var` is the environment's ZEPTOCAPSULE_INIT_BINARY, `exe` the running program's path, and
-- `not_supported` makes the error of a text.
module _ {E : Type 0} {Ans : E → Type 0} {X : Type 0} where
  abbrev beside : (Str → X) → Result Str Str → Program E Ans X Str
  beside not_supported (ok path) = ret (set_file_name path (codes "zk-init"))
  beside not_supported (err x) = raise (not_supported (codes "current_exe failed: " ++ x))

  abbrev candidate :
      (exe : Program E Ans X (Result Str Str)) (not_supported : Str → X)
      → Option Str
      → Program E Ans X Str
  candidate exe not_supported (some path) = ret path
  candidate exe not_supported none = exe >>= beside not_supported

  abbrev pub default_init_binary :
      (var : Program E Ans X (Option Str)) (exe : Program E Ans X (Result Str Str))
      (exists : Str → Program E Ans X Bool) (not_supported : Str → X)
      → Program E Ans X Str
  default_init_binary var exe exists not_supported = do
    set ← var
    path ← candidate exe not_supported set
    there ← exists path
    if there then ret path else raise (not_supported (codes "zk-init binary not found at " ++ path))
