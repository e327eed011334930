-- ===== src/Capsule/Backend.antt =====
-- src/backend.rs: the errors of a capsule, and what creates one.
use zeptocapsule.Common.{ℕ}
use zeptocapsule.Common.Result.{Result}
use zeptocapsule.Text.{Str}
use zeptocapsule.Capsule.{CapsuleSpec}

pub data KernelError : Type 0 where
  spawn_failed transport cleanup_failed invalid_state not_supported : Str → KernelError

-- A backend creates a capsule or fails. What it does may change with time: the number is that of the
-- attempts that the caller has made before. `H` is the type of the handles.
pub record Backend (H : Type 0) : Type 0 where
  pub create : ℕ → CapsuleSpec → Result KernelError H
