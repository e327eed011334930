-- ===== src/Firecracker/Prepared.antt =====
-- What `spawn` does before the process is started does not start it.
use zeptocapsule.Text.Path.{join}
use zeptocapsule.Common.{
  if_intro, ℕ, Bool, true, false, Option, none, some, List, [], ◌∷◌, ◌≡◌, refl, inl, inr, by_bool,
  by_option,
}
use zeptocapsule.Common.Result.{Result, ok, err, by_result}
use zeptocapsule.Common.Program.{Every, Every->>=, Every_mono, ◌>>=◌}
use zeptocapsule.Text.{str_eq, Str, codes}
use zeptocapsule.Capsule.Backend.{cleanup_failed, spawn_failed, KernelError}
use zeptocapsule.Firecracker.System.{M}
use zeptocapsule.Firecracker.Machine.{Machine, absent, running, see, after_command, with_mount}
use zeptocapsule.Firecracker.Images.{
  umount_args, default_size_mib, image_path, copy_script, shell, mount_args, umount_image,
  succeeded_or, start_command, run_command, mount_image, create_image, seed_from_host,
}
use zeptocapsule.Firecracker.Balanced.{Balanced, stage_firecracker_payload-Balanced}
use zeptocapsule.Firecracker.Payload.{stage_firecracker_payload, mount_point_of}
use zeptocapsule.Firecracker.Handle.{
  rootfs_copy_path, egress_env, or_insert_all, seed, init_binary_of, FirecrackerCapsule, prepare,
}

-- no process, and no request
abbrev pub IsIdle : Machine → Type 0
IsIdle v = (v.vm ≡ absent) × (v.requests ≡ []) × (v.answers ≡ [])

abbrev pub Idles : {A : Type 0} → Machine → Result KernelError A → Type 0
Idles v r = IsIdle v

abbrev pub Keeps : {A : Type 0} → M A → Type 0
Keeps p = (v : Machine) → IsIdle v → Every see v p Idles

pub then-Keeps :
    {A B : Type 0} (p : M A) (next : A → M B)
    → Keeps p
    → ((a : A) → Keeps (next a))
    → Keeps (p >>= next)
then-Keeps p next h k v idle =
    Every->>= see v p next Idles Idles (h v idle) (λ w a i. k a w i) (λ w x i. i)

with_mount-IsIdle :
    (success : Bool) (point : Str) (v : Machine) → IsIdle v → IsIdle (with_mount success point v)
with_mount-IsIdle true point v idle = idle
with_mount-IsIdle false point v idle = idle

-- no command starts a process
after_command-IsIdle :
    (args : List Str) (success : Bool) (v : Machine)
    → IsIdle v
    → IsIdle (after_command args success v)
unfolding after_command
after_command-IsIdle [] success v idle = idle
after_command-IsIdle (cmd ∷ []) success v idle = idle
after_command-IsIdle (cmd ∷ point ∷ []) success v idle =
    if_intro IsIdle (str_eq cmd (codes "umount")) (λ _. idle) (λ _. idle)
after_command-IsIdle (cmd ∷ a ∷ b ∷ []) success v idle = idle
after_command-IsIdle (cmd ∷ a ∷ b ∷ c ∷ []) success v idle = idle
after_command-IsIdle (cmd ∷ a ∷ b ∷ c ∷ point ∷ []) success v idle =
    if_intro IsIdle (str_eq cmd (codes "mount")) (λ _. with_mount-IsIdle success point v idle)
      (λ _. idle)
after_command-IsIdle (cmd ∷ a ∷ b ∷ c ∷ d ∷ e ∷ args) success v idle = idle

run_command-Keeps :
    (kind : Str → KernelError) (a b : Str) (args : List Str) → Keeps (run_command kind a b args)
unfolding see
run_command-Keeps kind a b args v idle =
    by_result _
      (λ out.
        by_bool
          (λ success.
            Every see (after_command args out.success v) (succeeded_or kind b out.stderr success)
              Idles)
          (after_command-IsIdle args out.success v idle)
          (after_command-IsIdle args out.success v idle) out.success)
      (λ _. after_command-IsIdle args false v idle)

start_command-Keeps :
    (kind : Str → KernelError) (a : Str) (args : List Str) → Keeps (start_command kind a args)
unfolding see
start_command-Keeps kind a args v idle =
    by_result _ (λ out. after_command-IsIdle args out.success v idle)
      (λ _. after_command-IsIdle args false v idle)

create_image-Keeps : (path : Str) (size : ℕ) → Keeps (create_image path size)
unfolding create_image see
create_image-Keeps path size v idle =
    by_result _
      (λ _.
        by_result _
          (λ _.
            run_command-Keeps spawn_failed (codes "mkfs.ext4") (codes "mkfs.ext4")
              (codes "mkfs.ext4" ∷ codes "-q" ∷ codes "-F" ∷ path ∷ []) v idle)
          (λ _. idle))
      (λ _. idle)

seed_from_host-Keeps : (image host point : Str) → Keeps (seed_from_host image host point)
unfolding seed_from_host mount_image umount_image see
seed_from_host-Keeps image host point v idle =
    let said = codes "mount workspace image" in
    let copied = codes "copy workspace contents" in
    let script = shell (copy_script host point) in
    by_result _
      (λ _.
        then-Keeps (run_command spawn_failed said said (mount_args image point)) _
          (run_command-Keeps spawn_failed said said (mount_args image point))
          (λ _.
            then-Keeps (start_command spawn_failed copied script) _
              (start_command-Keeps spawn_failed copied script)
              (λ _. start_command-Keeps cleanup_failed (codes "umount") (umount_args point)))
          v idle)
      (λ _. idle)

seed-Keeps : (host : Option Str) (image point : Str) → Keeps (seed host image point)
seed-Keeps none image point v idle = idle
seed-Keeps (some host) image point v idle = seed_from_host-Keeps image host point v idle

stage-Keeps :
    (binary : Str) (args : List Str) (env : List (Str × Str)) (init workspace image dir : Str)
    → Keeps (stage_firecracker_payload binary args env init workspace image dir)
stage-Keeps binary args env init workspace image dir v idle =
    Every_mono see v (stage_firecracker_payload binary args env init workspace image dir)
      (Balanced binary (mount_point_of dir) v) Idles
      (stage_firecracker_payload-Balanced binary args env init workspace image dir v)
      (λ w r.
        by_result
          (λ (r : Result KernelError (Unit {0})).
            Balanced binary (mount_point_of dir) v w r → IsIdle w)
          (λ _ e. rw e idle)
          (λ x cases. elim cases [
            | inl e ↦ rw e idle
            | inr (inl e) ↦ rw e idle
            | inr (inr q) ↦ rw q.1 idle
          ])
          r)

init_binary_of-Keeps : (o : Option Str) → Keeps (init_binary_of o)
unfolding see
init_binary_of-Keeps (some path) v idle = idle
init_binary_of-Keeps none v idle =
    by_option _ (by_result _ (λ path. by_bool _ idle idle) (λ _. idle))
      (λ path. by_bool _ idle idle)

-- A process that is started runs, and no request has been made.
abbrev pub Prepared : Machine → Result KernelError ℕ → Type 0
Prepared v (ok pid) = (v.vm ≡ running) × (v.requests ≡ []) × (v.answers ≡ [])
Prepared v (err e) = v.vm ≡ absent

Then :
    {A : Type 0} (v : Machine)
    → IsIdle v
    → (p : M A) (next : A → M ℕ) → Keeps p
    → ((a : A) (w : Machine) → IsIdle w → Every see w (next a) Prepared)
    → Every see v (p >>= next) Prepared
Then v idle p next h k =
    Every->>= see v p next Idles Prepared (h v idle) (λ w a i. k a w i) (λ w x i. i.0)

pub prepare-Prepared :
    (h : FirecrackerCapsule) (binary : Str) (args : List Str) (env : List (Str × Str)) (v : Machine)
    → IsIdle v
    → Every see v (prepare h binary args env) Prepared
unfolding prepare see
prepare-Prepared h binary args env v idle =
    let full = or_insert_all env (egress_env h.egress) in
    let guest = h.spec.workspace.guest_path in
    let rootfs = rootfs_copy_path h.state_dir in
    let image = image_path h.state_dir in
    let size = default_size_mib h.spec.workspace.size_mib in
    let point = join h.state_dir (codes "ws_mount") in
    by_result _
      (λ _.
        Then v idle (init_binary_of h.spec.init_binary) _ (init_binary_of-Keeps h.spec.init_binary)
          (λ init v1 i1.
            Then v1 i1 (stage_firecracker_payload binary args full init guest rootfs h.state_dir) _
              (stage-Keeps binary args full init guest rootfs h.state_dir)
              (λ _ v2 i2.
                Then v2 i2 (create_image image size) _ (create_image-Keeps image size) (λ _ v3 i3.
                  Then v3 i3 (seed h.spec.workspace.host_path image point) _
                    (seed-Keeps h.spec.workspace.host_path image point)
                    (λ _ v4 i4.
                      by_result _ (λ _. by_result _ (λ pid. (refl, i4.1, i4.2)) (λ _. i4.0))
                        (λ _. i4.0))))))
      (λ _. idle.0)
