-- ===== src/Firecracker/Destroyed.antt =====
-- What is left of a capsule in a microVM that is destroyed.
use zeptocapsule.Text.Path.{join}
use zeptocapsule.Common.{
  by_bool, ℕ, Bool, true, false, Option, none, some, List, [], if◌then◌else◌, ◌≡◌, refl, inl, inr,
}
use zeptocapsule.Common.Result.{Result, ok, err}
use zeptocapsule.Common.Program.{ask, ret, Every, Every->>=, Every-attempt, Valued, attempt, ◌>>◌}
use zeptocapsule.Text.{Str, codes}
use zeptocapsule.Egress.Types.{EgressDecision}
use zeptocapsule.Capsule.Backend.{KernelError}
use zeptocapsule.Guest.Control.{ControlStatus, exited, signaled, unknown}
use zeptocapsule.Firecracker.System.{M, remove_dir_all}
use zeptocapsule.Firecracker.Machine.{VmState, gone, struck, reaped}
use zeptocapsule.Firecracker.Images.{export_to_host, image_path}
use zeptocapsule.Firecracker.Handle.{
  serial_log_path, FirecrackerCapsule, FcEgressRuntime, stopped, closed_control, put_down,
}
use zeptocapsule.Firecracker.Destroy.{
  exit_of, report_of, clear, if_there, destroy, export_workspace, read_serial, remove_state_dir,
  take_egress,
}
use zeptocapsule.Firecracker.Exported.{export_to_host-Exported}
use zeptocapsule.Firecracker.Left.{
  Left, see, start, probed, done, Owns, IsOver, EgressLeft, Mounts, TreeLeft, Exits, Destroyed,
  IsFresh, IsExported,
}

-- a run that does not fail, and what holds of what it leaves
abbrev Leaves : (Left → Type 0) → {A : Type 0} → Left → Result KernelError A → Type 0
Leaves Q w (ok a) = Q w
Leaves Q w (err x) = ⊥

if_there-Every :
    (path : Str) (act : M (Unit {0})) (v : Left) (P : Left → Result KernelError (Unit {0}) → Type 0)
    → ((there : Bool) → Every see (probed path there v) act P)
    → ((there : Bool) → P (probed path there v) (ok tt))
    → Every see v (if_there path act) P
unfolding see
if_there-Every path act v P found missing there =
    by_bool (λ b. Every see (probed path there v) (if b then act else ret tt) P) (found there)
      (missing there) there

abbrev point_in : Str → Str
point_in dir = join dir (codes "ws_export_mount")

export_workspace-Leaves :
    (host : Option Str) (dir : Str) (v : Left)
    → IsFresh v
    → v.mounted ≡ []
    → Every see v (export_workspace host dir) (Leaves (IsExported (point_in dir)))
unfolding export_workspace
export_workspace-Leaves none dir v fresh none_yet = (fresh, inl none_yet)
export_workspace-Leaves (some host) dir v fresh none_yet =
    let image = image_path dir in
    let point = point_in dir in
    if_there-Every image _ v (Leaves (IsExported point))
      (λ there.
        let w = probed image there v in
        Every->>= see w (attempt (export_to_host image host point)) _
          (Valued see (λ w r. IsExported point w)) (Leaves (IsExported point))
          (Every-attempt see w (export_to_host image host point) (λ w r. IsExported point w)
            (export_to_host-Exported point image host w fresh none_yet))
          (λ w r f. f) (λ w x f. f))
      (λ there. (fresh, inl none_yet))

-- The first calls see nothing.
abbrev Same : {A : Type 0} → VmState → Left → Result KernelError A → Type 0
Same vm w (ok a) = w ≡ start vm
Same vm w (err x) = ⊥

stopped-Same : (b : Bool) (vm : VmState) → Every see (start vm) (stopped b) (Same vm)
unfolding see
stopped-Same false vm = refl
stopped-Same true vm = λ _. refl

closed_control-Same : (b : Bool) (vm : VmState) → Every see (start vm) (closed_control b) (Same vm)
unfolding see
closed_control-Same false vm = refl
closed_control-Same true vm = λ _. refl

abbrev Down : Left → Type 0
Down w = IsFresh w × (w.mounted ≡ [])

put_down-Leaves :
    (process : Option ℕ) (vm : VmState)
    → Owns process vm
    → Every see (start vm) (put_down process) (Leaves Down)
unfolding see
put_down-Leaves none vm over = ((over, refl, refl, refl, refl, refl), refl)
put_down-Leaves (some pid) vm owns =
    let waited : reaped (struck vm) ≡ gone = elim owns [ inl e ↦ rw e refl | inr e ↦ rw e refl ] in
    λ _ _. ((inr waited, refl, refl, refl, refl, refl), refl)

-- the directory's removal was tried, if it was there
abbrev Removed : Str → Left → Type 0
Removed dir w =
    IsOver w.vm
    × TreeLeft dir w
    × Mounts (point_in dir) w
    × (w.files ≡ [])
    × (w.drained ≡ [])
    × (w.shut ≡ 0)
    × (w.torn ≡ [])

remove_state_dir-Leaves :
    (dir : Str) (v : Left)
    → IsExported (point_in dir) v
    → Every see v (remove_state_dir dir) (Leaves (Removed dir))
unfolding see
remove_state_dir-Leaves dir v ((over, trees, files, drained, shut, torn), mounts) there =
    by_bool
      (λ b.
        Every see (probed dir b v) (if b then (ask (remove_dir_all dir) >> ret tt) else ret tt)
          (Leaves (Removed dir)))
      (λ r.
        (over, (true, done r, v.probes, refl, rw trees refl), mounts, files, drained, shut, torn))
      (over, (false, false, v.probes, refl, trees), mounts, files, drained, shut, torn) there

abbrev Taken :
    Str → Option FcEgressRuntime → Left → Result KernelError (List EgressDecision) → Type 0
Taken dir egress w (err x) = ⊥
Taken dir egress w (ok log) =
    IsOver w.vm × TreeLeft dir w × Mounts (point_in dir) w × EgressLeft egress w × (log ≡ w.drained)

take_egress-Taken :
    (dir : Str) (egress : Option FcEgressRuntime) (v : Left)
    → Removed dir v
    → Every see v (take_egress egress) (Taken dir egress)
unfolding take_egress see
take_egress-Taken dir none v (over, tree, mounts, files, drained, shut, torn) =
    (over, tree, mounts, (files, shut, torn), rw drained refl)
take_egress-Taken dir (some e) v (over, tree, mounts, files, drained, shut, torn) =
    λ log _ removed _. (
      over,
      tree,
      mounts,
      ((done removed, rw files refl), rw shut refl, rw torn refl),
      rw drained refl,
    )

read_serial-Leaves :
    (dir point : Str) (v : Left)
    → IsExported point v
    → Every see v (read_serial dir) (Leaves (IsExported point))
unfolding see
read_serial-Leaves dir point v exported =
    if_there-Every (serial_log_path dir) _ v (Leaves (IsExported point)) (λ there _. exported)
      (λ there. exported)

exits :
    (h : FirecrackerCapsule) (log : List EgressDecision) (status : Option ControlStatus)
    → Exits status (report_of (record h { control_status = status }) log)
unfolding exit_of
exits h log none = (refl, refl)
exits h log (some (exited code)) = (refl, refl)
exits h log (some (signaled signal)) = (refl, refl)
exits h log (some unknown) = (refl, refl)

report_of-Exits :
    (h : FirecrackerCapsule) (log : List EgressDecision) → Exits h.control_status (report_of h log)
report_of-Exits h log = exits h log h.control_status

clear-Destroyed : (h : FirecrackerCapsule) (v : Left) → Down v → Every see v (clear h) (Destroyed h)
clear-Destroyed h v (fresh, none_yet) =
    let dir = h.state_dir in
    let point = point_in dir in
    let host = h.spec.workspace.host_path in
    Every->>= see v (export_workspace host dir) _ (Leaves (IsExported point)) (Destroyed h)
      (export_workspace-Leaves host dir v fresh none_yet)
      (λ v _ f.
        Every->>= see v (read_serial dir) _ (Leaves (IsExported point)) (Destroyed h)
          (read_serial-Leaves dir point v f)
          (λ v _ f.
            Every->>= see v (remove_state_dir dir) _ (Leaves (Removed dir)) (Destroyed h)
              (remove_state_dir-Leaves dir v f)
              (λ v _ q.
                Every->>= see v (take_egress h.egress) _ (Taken dir h.egress) (Destroyed h)
                  (take_egress-Taken dir h.egress v q)
                  (λ w log (over, tree, mounts, egress, drained).
                    (over, tree, mounts, egress, drained, report_of-Exits h log, refl))
                  (λ w x t. absurd t))
              (λ w x q. absurd q))
          (λ w x q. absurd q))
      (λ w x q. absurd q)

-- However the system answers, `destroy` of a handle that has no process that runs, or whose process runs
-- or was killed, returns a report. A process was killed and waited for. The capsule's directory was looked
-- for, and if it was there, its removal was tried, and of no other. No image is mounted, or that of the
-- workspace, and then the shell that copies was not started or `umount` was not started or failed. If there
-- was a gate, the removal of the certificate was tried, the proxy shut down and the device's teardown
-- run, once each. The report has the log that was drained, the exit code or the signal of the guest's
-- message, if there was one, and what killed the worker.
pub destroy-Destroyed :
    (h : FirecrackerCapsule) (vm : VmState)
    → Owns h.fc_process vm
    → Every see (start vm) (destroy h) (Destroyed h)
unfolding destroy
destroy-Destroyed h vm owns =
    let dir = h.state_dir in
    Every->>= see (start vm) (stopped h.timeout_cancel) _ (Same vm) (Destroyed h)
      (stopped-Same h.timeout_cancel vm)
      (λ v _ e. rw e (
        Every->>= see (start vm) (closed_control h.control_write_fd) _ (Same vm) (Destroyed h)
          (closed_control-Same h.control_write_fd vm)
          (λ v _ e. rw e (
            Every->>= see (start vm) (put_down h.fc_process) _ (Leaves Down) (Destroyed h)
              (put_down-Leaves h.fc_process vm owns) (λ v _ f. clear-Destroyed h v f)
              (λ v x q. absurd q)))
          (λ v x q. absurd q)))
      (λ v x q. absurd q)
