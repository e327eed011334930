-- ===== src/Firecracker/Left.antt =====
-- What is seen of a capsule in a microVM that is destroyed.
use zeptocapsule.Common.{
  true, suc, ℕ, Bool, false, Option, none, some, List, [], ◌∷◌, ◌++◌, if◌then◌else◌, ◌≡◌, ◌⊎◌,
}
use zeptocapsule.Common.Result.{Result, ok, err}
use zeptocapsule.Text.{Str, codes, str_eq}
use zeptocapsule.Text.Path.{join}
use zeptocapsule.Guest.Control.{ControlStatus, exited, signaled, unknown}
use zeptocapsule.Egress.Types.{EgressDecision}
use zeptocapsule.Egress.Tap.{TapSetup}
use zeptocapsule.Capsule.Backend.{KernelError}
use zeptocapsule.Capsule.Report.{CapsuleReport}
use zeptocapsule.Firecracker.System.{
  Io, Output, command, Sys, Ans, exists, kill_vm, wait_vm, remove_file, remove_dir_all,
  drain_audit_log, shutdown_proxy, teardown_tap,
}
use zeptocapsule.Firecracker.Machine.{
  VmState, absent, running, killed, gone, struck, reaped, succeeded,
}
use zeptocapsule.Firecracker.Handle.{FirecrackerCapsule, FcEgressRuntime}

-- the process; the paths that were looked for, the trees and the files that were to be removed, each with
-- whether it was there or was removed, the latest first; the points that an image is mounted on, whether a
-- shell could not be started, and whether an unmount was not started or failed; the log that was drained,
-- the proxies shut down after it, and the devices whose teardown was run
pub record Left : Type 0 where
  pub vm : VmState
  pub probes : List (Str × Bool)
  pub trees : List (Str × Bool)
  pub files : List (Str × Bool)
  pub mounted : List Str
  pub unstarted : Bool
  pub unmount_failed : Bool
  pub drained : List EgressDecision
  pub shut : ℕ
  pub torn : List TapSetup

abbrev pub done : {A : Type 0} → Io A → Bool
done (ok a) = true
done (err e) = false

-- the points but for the first that is the given one
unfoldable pub without : Str → List Str → List Str
without point [] = []
without point (q ∷ qs) = let rest = without point qs in if str_eq point q then qs else q ∷ rest

abbrev pub after_mount : Bool → Str → Left → Left
after_mount true point v = record v { mounted = point ∷ v.mounted }
after_mount false point v = v

abbrev pub after_umount : Bool → Str → Left → Left
after_umount true point v = record v { mounted = without point v.mounted }
after_umount false point v = record v { unmount_failed = true }

abbrev pub after_shell : Bool → Left → Left
after_shell true v = v
after_shell false v = record v { unstarted = true }

-- what a command does, by its words
unfoldable pub after_command : List Str → Io Output → Left → Left
unfolding str_eq
after_command (cmd ∷ point ∷ []) r v =
    if str_eq cmd (codes "umount") then after_umount (succeeded r) point v else v
after_command (cmd ∷ c ∷ script ∷ []) r v =
    if str_eq cmd (codes "sh") then after_shell (done r) v else v
after_command (cmd ∷ o ∷ loop ∷ image ∷ point ∷ []) r v =
    if str_eq cmd (codes "mount") then after_mount (succeeded r) point v else v
after_command args r v = v

abbrev pub probed : Str → Bool → Left → Left
probed path there v = record v { probes = (path, there) ∷ v.probes }

unfoldable pub see : (e : Sys) → Ans e → Left → Left
unfolding after_command
see kill_vm r m = record m { vm = struck m.vm }
see wait_vm r m = record m { vm = reaped m.vm }
see (exists path) r m = probed path r m
see (remove_dir_all path) r m = record m { trees = (path, done r) ∷ m.trees }
see (remove_file path) r m = record m { files = (path, done r) ∷ m.files }
see (command args) r m = after_command args r m
see drain_audit_log r m = record m { drained = m.drained ++ r }
see shutdown_proxy r m = record m { shut = suc m.shut }
see (teardown_tap setup) r m = record m { torn = setup ∷ m.torn }
see e r m = m

abbrev pub start : VmState → Left
start vm = record {
  vm = vm;
  probes = [];
  trees = [];
  files = [];
  mounted = [];
  unstarted = false;
  unmount_failed = false;
  drained = [];
  shut = 0;
  torn = [];
}

-- a handle's process, and the state that it is in
abbrev pub Owns : Option ℕ → VmState → Type 0
Owns none vm = (vm ≡ absent) ⊎ (vm ≡ gone)
Owns (some pid) vm = (vm ≡ running) ⊎ (vm ≡ killed)

abbrev pub IsOver : VmState → Type 0
IsOver vm = (vm ≡ absent) ⊎ (vm ≡ gone)

abbrev pub EgressLeft : Option FcEgressRuntime → Left → Type 0
EgressLeft none v = (v.files ≡ []) × (v.shut ≡ 0) × (v.torn ≡ [])
EgressLeft (some e) v =
    ((removed : Bool) × (v.files ≡ (e.ca_cert_path, removed) ∷ []))
    × (v.shut ≡ 1)
    × (v.torn ≡ e.tap ∷ [])

-- No image is mounted, or one at the point, where the copy was not started or the unmount failed.
abbrev pub Mounts : Str → Left → Type 0
Mounts point v =
    (v.mounted ≡ [])
    ⊎ ((v.mounted ≡ point ∷ []) × ((v.unstarted ≡ true) ⊎ (v.unmount_failed ≡ true)))

-- The directory was looked for, after all else that was, and if it was there, its removal was tried, and
-- of no other.
abbrev pub TreeLeft : Str → Left → Type 0
TreeLeft dir v =
    (there removed : Bool) × (earlier : List (Str × Bool)) × (v.probes ≡ (dir, there) ∷ earlier)
    × (v.trees ≡ (if there then (dir, removed) ∷ [] else []))

-- the status of the guest's last message
abbrev pub Exits : Option ControlStatus → CapsuleReport → Type 0
Exits none report = (report.exit_code ≡ none) × (report.exit_signal ≡ none)
Exits (some (exited code)) report = (report.exit_code ≡ some code) × (report.exit_signal ≡ none)
Exits (some (signaled signal)) report =
    (report.exit_code ≡ none) × (report.exit_signal ≡ some signal)
Exits (some unknown) report = (report.exit_code ≡ none) × (report.exit_signal ≡ none)

-- a report, and what was taken back
abbrev pub Destroyed : FirecrackerCapsule → Left → Result KernelError CapsuleReport → Type 0
Destroyed h v (err e) = ⊥
Destroyed h v (ok report) =
    IsOver v.vm
    × TreeLeft h.state_dir v
    × Mounts (join h.state_dir (codes "ws_export_mount")) v
    × EgressLeft h.egress v
    × (report.egress_log ≡ v.drained)
    × Exits h.control_status report
    × (report.killed_by ≡ h.killed_by)

-- a process that is over, with nothing removed yet
abbrev pub IsFresh : Left → Type 0
IsFresh v =
    IsOver v.vm × (v.trees ≡ []) × (v.files ≡ []) × (v.drained ≡ []) × (v.shut ≡ 0) × (v.torn ≡ [])

-- and what an export leaves mounted
abbrev pub IsExported : Str → Left → Type 0
IsExported point v = IsFresh v × Mounts point v
