-- ===== src/Namespace/Tests.antt =====
-- A Hardened capsule whose interface is moved into its namespace.
use zeptocapsule.Rootfs.{rootfs_layout, bind_mount_ro, bind_mount_device, c_string, path_c_string}
use zeptocapsule.Rootfs.Pivot.{setup_and_pivot, bind_dirs, bind_devices}
use zeptocapsule.Common.{Option, ℕ, true, none, some, String, [], ◌∷◌, ◌≡◌, refl, length}
use zeptocapsule.Common.Result.{ok}
use zeptocapsule.Common.Program.{Every, run}
use zeptocapsule.Text.{Str, codes, decimal}
use zeptocapsule.Capsule.{CapsuleSpec, namespace, hardened}
use zeptocapsule.Egress.Veth.{NetnsError, VethSetup, from_slot}
use zeptocapsule.Namespace.Clone.{do_clone}
use zeptocapsule.Namespace.Clone.Ends.{Ends, do_clone-Ends}
use zeptocapsule.Namespace.Clone.Seen.{Seen, start}
use zeptocapsule.Namespace.Handle
use zeptocapsule.Egress.Start.{EgressRuntime}
use zeptocapsule.Namespace.Child.{child_main, child_body, sandbox, execute, c_strings}
use zeptocapsule.Namespace.Child.Sandboxed.{AllSandboxed, child_main-AllSandboxed}
use zeptocapsule.Namespace.System.{ChildArgs}
use zeptocapsule.Rootfs.System.{
  Call, Ans, read_sync_byte, set_cloexec, process_id, dup2, close, exists, create_dir_all,
  remove_dir, copy, chmod, write_file, mount, pivot_root, chdir, umount_detach, drop_capability,
  set_no_new_privs, seccomp, execve, write_diag,
}
use zeptocapsule.Rootfs.View.{see, View, outside, in_sandbox}
use zeptocapsule.Text.Path.{join, trim_start_matches_slash}

abbrev spec : CapsuleSpec
spec = record {
  isolation = namespace;
  workspace = record { host_path = none; guest_path = codes "/workspace"; size_mib = some 64 };
  limits = record { timeout_sec = 300; memory_mib = some 512; cpu_quota = none; max_pids = some 8 };
  init_binary = some (codes "/opt/zk-init");
  security = hardened;
  security_overrides = record { cgroup_required = none };
  firecracker = none;
  fallback = none;
  egress = none;
}

abbrev no_text : NetnsError → Str
no_text e = []

do_clone-Ends_example :
    Every zeptocapsule.Namespace.Clone.Seen.see start
      (do_clone no_text spec (codes "/bin/cat") (codes "-n" ∷ []) [] (some (from_slot 3)))
      (Ends spec (some (from_slot 3)))
do_clone-Ends_example =
    do_clone-Ends no_text spec (codes "/bin/cat") (codes "-n" ∷ []) [] (some (from_slot 3))

abbrev gate : Option (EgressRuntime VethSetup)
gate = some (record {
  device = from_slot 3;
  ca_cert_path = codes "/tmp/ca.pem";
  env = (codes "HTTP_PROXY", codes "http://10.200.0.13:8080") ∷ [];
})

abbrev child : ChildArgs
child = record {
  init_binary = codes "/tmp/zk-init-1-0";
  worker_binary = codes "/bin/cat";
  worker_args = codes "-n" ∷ [];
  env = (codes "A", codes "1") ∷ [];
  hardened = true;
  workspace = codes "/workspace";
  workspace_host = none;
}

abbrev numbers : String → ℕ
numbers name = 0

child_main-AllSandboxed_example :
    Every zeptocapsule.Rootfs.View.see
      (in_sandbox outside)
      (child_main numbers true child)
      (AllSandboxed numbers true child)
child_main-AllSandboxed_example = child_main-AllSandboxed numbers true child refl

-- a system that answers every call well, until the init binary is run
abbrev works : View → (e : Call) → Ans e
works v read_sync_byte = tt
works v set_cloexec = tt
works v process_id = 7
works v (dup2 fd n) = tt
works v (close fd) = tt
works v (exists path) = true
works v (create_dir_all path) = ok tt
works v (remove_dir path) = ok tt
works v (copy from to) = ok tt
works v (chmod path mode) = ok tt
works v (write_file path contents) = ok tt
works v (mount args) = ok tt
works v (pivot_root new_root old_root) = ok tt
works v (chdir path) = ok tt
works v (umount_detach path) = ok tt
works v (drop_capability n) = tt
works v set_no_new_privs = ok tt
works v (seccomp prog) = ok tt
works v (execve path argv envp) = codes "replaced"
works v (write_diag text) = tt

-- There the init binary is run, once.
runs_once :
    length (run see works (in_sandbox outside) (child_main numbers true child)).0.executed ≡ 1
unfolding run see child_main child_body sandbox setup_and_pivot rootfs_layout execute bind_dirs
    bind_devices bind_mount_ro bind_mount_device c_string c_strings path_c_string decimal join
    trim_start_matches_slash
runs_once = refl
