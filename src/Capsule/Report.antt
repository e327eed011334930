-- ===== src/Capsule/Report.antt =====
-- src/types.rs: what a capsule reports when it is destroyed.
use zeptocapsule.Common.{ℕ, Option, List}
use zeptocapsule.Text.{Str}
use zeptocapsule.Capsule.{ResourceViolation, Isolation, SecurityProfile}
use zeptocapsule.Egress.Types.{EgressDecision}
use zeptocapsule.Guest.Control.{I32}

-- The wall time is not modelled.
pub record CapsuleReport : Type 0 where
  pub exit_code : Option I32
  pub exit_signal : Option I32
  pub killed_by : Option ResourceViolation
  pub peak_memory_mib : Option ℕ
  pub init_error : Option Str
  pub actual_isolation : Option Isolation
  pub actual_security : Option SecurityProfile
  pub egress_log : List EgressDecision
