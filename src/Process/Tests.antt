-- ===== src/Process/Tests.antt =====
-- A process with a gate.
use zeptocapsule.Common.{false, List, true, none, some, [], ◌∷◌, refl}
use zeptocapsule.Common.Program.{Every}
use zeptocapsule.Text.{Str, codes, str_eq}
use zeptocapsule.Capsule.{CapsuleSpec, process, dev}
use zeptocapsule.Process.{str_eq, ProcessCapsule, destroy, spawn}
use zeptocapsule.Process.Reaped.{see, fresh}
use zeptocapsule.Process.Destroyed.{Ends, destroy-Ends}
use zeptocapsule.Process.Started.{nothing, StartEnds, spawn-StartEnds}

abbrev spec : CapsuleSpec
spec = record {
  isolation = process;
  workspace = record { host_path = none; guest_path = codes "/workspace"; size_mib = none };
  limits = record { timeout_sec = 300; memory_mib = some 512; cpu_quota = none; max_pids = none };
  init_binary = none;
  security = dev;
  security_overrides = record { cgroup_required = none };
  firecracker = none;
  fallback = none;
  egress = none;
}

abbrev spawned : ProcessCapsule
spawned = record {
  spec = spec;
  child = some (some 4711);
  exit_code = none;
  exit_signal = none;
  killed_by = none;
  timeout_cancel = true;
  egress = some (record {
    device = tt;
    ca_cert_path = codes "/tmp/ca.pem";
    env = (codes "HTTP_PROXY", codes "http://127.0.0.1:8080") ∷ [];
  });
}

destroy-Ends_example : Every see fresh (destroy spawned) (Ends spawned)
destroy-Ends_example = destroy-Ends spawned

abbrev own : List (Str × Str)
own = (codes "A", codes "1") ∷ (codes "HTTP_PROXY", codes "http://proxy") ∷ []

abbrev gate : List (Str × Str)
gate = (codes "HTTP_PROXY", codes "http://127.0.0.1:8080") ∷ (codes "B", codes "2") ∷ []

abbrev free_process : ProcessCapsule
free_process = record spawned {
  child = none;
  timeout_cancel = false;
  egress = some (record { device = tt; ca_cert_path = codes "/tmp/ca.pem"; env = gate });
}

spawn-StartEnds_example :
    Every zeptocapsule.Process.Started.see nothing
      (spawn free_process (codes "env") [] own)
      (StartEnds free_process (codes "env") [] own (codes "HTTP_PROXY") none)
unfolding str_eq
spawn-StartEnds_example =
    spawn-StartEnds free_process (codes "env") [] own (codes "HTTP_PROXY") (refl, (refl, tt))
      (refl, (refl, tt))
