-- ===== src/Firecracker/Tests.antt =====
-- A capsule in a microVM with a workspace on the host and a gate.
use zeptocapsule.Common.{true, false, none, some, [], ◌∷◌, refl, inl}
use zeptocapsule.Common.Program.{Every}
use zeptocapsule.Text.{codes}
use zeptocapsule.Egress.Tap.{from_slot}
use zeptocapsule.Capsule.{CapsuleSpec, FirecrackerConfig, firecracker, hardened}
use zeptocapsule.Firecracker.Api.{Texts}
use zeptocapsule.Firecracker.Machine.{Machine, absent, running}
use zeptocapsule.Firecracker.Payload.{stage_firecracker_payload, mount_point_of}
use zeptocapsule.Firecracker.Balanced.{Balanced, stage_firecracker_payload-Balanced}
use zeptocapsule.Firecracker.Handle.{FirecrackerCapsule, spawn}
use zeptocapsule.Firecracker.Spawned.{Ends, spawn-Ends}
use zeptocapsule.Firecracker.Destroy.{destroy}
use zeptocapsule.Firecracker.Left.{start, Destroyed}
use zeptocapsule.Firecracker.Destroyed.{destroy-Destroyed}

abbrev config : FirecrackerConfig
config = record {
  firecracker_bin = codes "/usr/bin/firecracker";
  kernel_path = codes "/opt/vmlinux";
  rootfs_path = codes "/opt/rootfs.ext4";
  vcpus = some 2;
  memory_mib = none;
  enable_network = false;
  tap_name = none;
}

abbrev spec : CapsuleSpec
spec = record {
  isolation = firecracker;
  workspace = record {
    host_path = some (codes "/srv/work");
    guest_path = codes "/workspace";
    size_mib = none;
  };
  limits = record { timeout_sec = 300; memory_mib = some 512; cpu_quota = none; max_pids = none };
  init_binary = some (codes "/opt/zk-init");
  security = hardened;
  security_overrides = record { cgroup_required = none };
  firecracker = some config;
  fallback = none;
  egress = none;
}

abbrev created : FirecrackerCapsule
created = record {
  spec = spec;
  config = config;
  state_dir = codes "/tmp/zk-fc-1";
  fc_process = none;
  control_write_fd = false;
  control_status = none;
  worker_exited = false;
  killed_by = none;
  timeout_cancel = false;
  egress = some (record {
    tap = from_slot 3;
    ca_cert_path = codes "/tmp/ca.pem";
    env = (codes "HTTP_PROXY", codes "http://169.254.33.13:8080") ∷ [];
  });
}

abbrev texts : Texts
texts = record { utf8 = codes "invalid utf-8"; number = codes "invalid digit" }

abbrev idle : Machine
idle = record { vm = absent; requests = []; answers = []; heard = []; mounted = []; unmounted = [] }

spawn-Ends_example :
    Every zeptocapsule.Firecracker.Machine.see idle
      (spawn texts created (codes "cat") (codes "-n" ∷ []) [])
      (Ends created)
spawn-Ends_example =
    spawn-Ends texts created (refl, refl) (codes "cat") (codes "-n" ∷ []) [] idle (refl, refl, refl)

stage_firecracker_payload-Balanced_example :
    Every zeptocapsule.Firecracker.Machine.see idle
      (stage_firecracker_payload
        (codes "cat")
        []
        []
        (codes "/opt/zk-init")
        (codes "/workspace")
        (codes "/tmp/s/rootfs.ext4")
        (codes "/tmp/s"))
      (Balanced (codes "cat") (mount_point_of (codes "/tmp/s")) idle)
stage_firecracker_payload-Balanced_example =
    stage_firecracker_payload-Balanced (codes "cat") [] [] (codes "/opt/zk-init")
      (codes "/workspace") (codes "/tmp/s/rootfs.ext4") (codes "/tmp/s") idle

abbrev spawned : FirecrackerCapsule
spawned = record created { fc_process = some 4711; control_write_fd = true; timeout_cancel = true }

destroy-Destroyed_example :
    Every zeptocapsule.Firecracker.Left.see (start running) (destroy spawned) (Destroyed spawned)
destroy-Destroyed_example = destroy-Destroyed spawned running (inl refl)
