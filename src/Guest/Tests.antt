-- ===== src/Guest/Tests.antt =====
-- Arguments of which one is empty, and an environment.
use zeptocapsule.Guest.Config.{init_command_from_parts}
use zeptocapsule.Capsule.{hardened, namespace, CapsuleSpec}
use zeptocapsule.Guest.Init.{run_fc_init_shim}
use zeptocapsule.Firecracker.Payload.{write_stage_files}
use zeptocapsule.Common.Program.{Every}
use zeptocapsule.Common.{none, false, ◌≡◌, refl, some, List, [], ◌∷◌, ◌++◌, All, arith}
use zeptocapsule.Common.Result.{err, ok}
use zeptocapsule.Text.{is_whitespace, trim_end, Str, codes}
use zeptocapsule.Text.Utf8.{is_ascii→IsScalar}
use zeptocapsule.Guest.Staging.{IsPlain, IsVariable}
use zeptocapsule.Guest.Config.Disk
use zeptocapsule.Guest.Init.Phase.{see}
use zeptocapsule.Guest.Config.Stage.{stage_of}
use zeptocapsule.Guest.System.{
  Sys, Ans, exists, read, read_to_string, is_set, create_dir_all, mount, command, socket, bind,
  listen, accept, close, spawn_worker, write_control, flush_control, clone_control,
  start_forwarding, join_forwarding, wait, sync, send_signal, run_worker,
}
use zeptocapsule.Guest.Config.Loaded.{IsLine, Loads, write_stage_files-Loads}
use zeptocapsule.Guest.Init.Ordered.{Ordered, boot_with, run_fc_init_shim-Ordered}
use zeptocapsule.Text.{str_eq}
use zeptocapsule.Namespace.Clone.{init_env}
use zeptocapsule.Guest.Config.Parsed.{
  LacksKey, host_key, mounts_of, init_command_from_parts-init_env,
}
use zeptocapsule.Guest.Control.{with_code, exit_message, pos, exited, parse_exit_status}
use zeptocapsule.Guest.Control.Status.{parse_exit_status-exit_message}

abbrev args : List Str
args = codes "-m" ∷ [] ∷ codes "hi" ∷ []

abbrev env : List (Str × Str)
env = (codes "A", codes "1=2") ∷ (codes "B", []) ∷ []

abbrev spec : CapsuleSpec
spec = record {
  isolation = namespace;
  workspace = record { host_path = none; guest_path = codes "/workspace"; size_mib = some 64 };
  limits = record { timeout_sec = 300; memory_mib = some 512; cpu_quota = none; max_pids = some 8 };
  init_binary = some (codes "/opt/zk-init");
  security = hardened;
  security_overrides = record { cgroup_required = none };
  firecracker = none;
  fallback = none;
  egress = none;
}

args-IsPlain : All IsPlain args
args-IsPlain =
    let first : IsPlain (codes "-m") = (is_ascii→IsScalar (codes "-m") refl, ground arith) in
    let last : IsPlain (codes "hi") = (is_ascii→IsScalar (codes "hi") refl, ground arith) in
    (first, ((tt, tt), (last, tt)))

env-IsVariable : All IsVariable env
env-IsVariable =
    let first : IsPlain (codes "A=1=2") = (is_ascii→IsScalar (codes "A=1=2") refl, ground arith) in
    let last : IsPlain (codes "B=") = (is_ascii→IsScalar (codes "B=") refl, ground arith) in
    ((ground arith, first), ((ground arith, last), tt))

-- a system that refuses every call
refused : Str
refused = codes "Operation not permitted"

abbrev refusing : (e : Sys) → Ans e
refusing (exists path) = false
refusing (read path) = err refused
refusing (read_to_string path) = err refused
refusing (is_set name) = false
refusing (create_dir_all path) = err refused
refusing (mount target) = err refused
refusing (command words) = err refused
refusing (socket port) = err refused
refusing (bind fd port) = err refused
refusing (listen fd) = err refused
refusing (accept fd) = err refused
refusing (close fd) = tt
refusing (spawn_worker words variables fds) = err refused
refusing (write_control text) = err refused
refusing (flush_control what) = err refused
refusing clone_control = err refused
refusing start_forwarding = tt
refusing join_forwarding = tt
refusing wait = err refused
refusing sync = tt
refusing (send_signal pid number) = err refused
refusing (run_worker words) = err refused

abbrev worker : Str
worker = codes "/run/zeptocapsule/worker"

abbrev workspace : Str
workspace = codes "/workspace"

env-LacksKey : LacksKey host_key env
unfolding str_eq
env-LacksKey = (refl, (refl, tt))

worker-IsLine : IsLine worker
unfolding trim_end is_whitespace
worker-IsLine = (is_ascii→IsScalar worker refl, (refl, refl))

workspace-IsLine : IsLine workspace
unfolding trim_end is_whitespace
workspace-IsLine = (is_ascii→IsScalar workspace refl, (refl, refl))

-- an image that is mounted at /mnt
write_stage_files-Loads_example :
    Every Disk.see []
      (write_stage_files (stage_of (codes "/mnt")) worker args env workspace)
      (Loads b'/' (codes "mnt") refusing (codes "invalid utf-8") worker workspace args env)
write_stage_files-Loads_example =
    write_stage_files-Loads b'/' (codes "mnt") refusing (codes "invalid utf-8") worker workspace
      args env args-IsPlain env-IsVariable worker-IsLine workspace-IsLine

run_fc_init_shim-Ordered_example :
    Every see (boot_with []) (run_fc_init_shim (codes "invalid utf-8")) Ordered
run_fc_init_shim-Ordered_example = run_fc_init_shim-Ordered (codes "invalid utf-8")

init_command_from_parts-init_env_example :
    init_command_from_parts (codes "/tmp/zk-init" ∷ worker ∷ args) (env ++ init_env spec)
    ≡ ok (mounts_of spec, worker, args)
init_command_from_parts-init_env_example =
    init_command_from_parts-init_env spec (codes "/tmp/zk-init") worker args env env-LacksKey

parse_exit_status-exit_message_example :
    parse_exit_status (exit_message (with_code 137)) ≡ exited (pos 137)
parse_exit_status-exit_message_example =
    parse_exit_status-exit_message (with_code 137) (omega arith)
