-- ===== src/Capsule/Tests.antt =====
-- A hardened namespace that falls back to a plain process, which is all that the host supports.
use zeptocapsule.Common.{ℕ, ◌≡◌, ◌↔◌, refl, none, some, [], ◌∷◌, All}
use zeptocapsule.Common.Result.{ok, err}
use zeptocapsule.Text.{codes}
use zeptocapsule.Capsule.{
  Isolation, process, namespace, firecracker, standard, hardened, dev, CapsuleSpec, ceil_as_u32,
  finite, validate, chain_of, security_level, validate_chain, validate_firecracker, validate_pair,
  validate_primary,
}
use zeptocapsule.Capsule.Backend.{Backend, not_supported}
use zeptocapsule.Capsule.Validate.{IsSound, IsBelow, validate_iff}
use zeptocapsule.Capsule.Create.{
  create, try_create, IsFirst, candidates, IsWithin, create-IsFirst, create-IsWithin, settle_first,
  try_fallbacks,
}

abbrev spec : CapsuleSpec
spec = record {
  isolation = namespace;
  workspace = record { host_path = none; guest_path = codes "/workspace"; size_mib = none };
  limits = record { timeout_sec = 300; memory_mib = none; cpu_quota = none; max_pids = none };
  init_binary = none;
  security = hardened;
  security_overrides = record { cgroup_required = none };
  firecracker = none;
  fallback = some ((namespace, standard) ∷ (process, dev) ∷ []);
  egress = none;
}

-- a handle is the number of the attempt that made it
abbrev host : Isolation → Backend ℕ
host process = record { create = λ n spec. ok n }
host namespace = record { create = λ n spec. err (not_supported (codes "no namespaces")) }
host firecracker = record { create = λ n spec. err (not_supported (codes "no kvm")) }

-- 2.5 processors are rounded up
quota : ceil_as_u32 (finite 5 1) ≡ 3
unfolding ceil_as_u32
quota = refl

falls_back : create host spec ≡ ok 2
unfolding create validate validate_primary validate_pair validate_firecracker validate_chain
    security_level settle_first try_create try_fallbacks
falls_back = refl

create-IsFirst_example : IsFirst host 0 (candidates host spec) 2
create-IsFirst_example = create-IsFirst host spec 2 falls_back

create-IsWithin_example :
    (n : ℕ) × (used : CapsuleSpec) × (try_create host n used ≡ ok 2) × IsWithin host spec used
create-IsWithin_example = create-IsWithin host spec 2 falls_back

validate_iff_example : (validate spec ≡ ok tt) ↔ (IsSound spec × All (IsBelow spec) (chain_of spec))
validate_iff_example = validate_iff spec
