-- ===== src/Firecracker/Balanced.antt =====
-- The mounts that the staging of a payload leaves.
use zeptocapsule.Firecracker.Images.{succeeded_or}
use zeptocapsule.Text.Path.{is_absolute, join}
use zeptocapsule.Common.{
  if_intro, Bool, true, false, Option, none, some, List, [], ◌∷◌, ◌++◌, ◌≡◌, refl, ◌⊎◌, inl, inr,
  by_bool,
}
use zeptocapsule.Common.Result.{Result, ok, err, by_result}
use zeptocapsule.Common.Program.{
  lift, attempt, Every_mono, Every, Every->>=, Every-attempt, Valued, ◌>>=◌,
}
use zeptocapsule.Text.{Str, codes}
use zeptocapsule.Capsule.Backend.{spawn_failed, KernelError}
use zeptocapsule.Firecracker.System.{M}
use zeptocapsule.Firecracker.Machine.{with_mount, Machine, see}
use zeptocapsule.Firecracker.Payload.{
  unmount_path, search_in, placed, in_image, resolve_host_binary, mount_loop_image, is_path,
  place_init, write_stage_files, search_dirs, copy_worker, place_worker, stage_firecracker_payload,
  fill_image, mount_point_of,
}

-- The run leaves the machine as it is.
abbrev pub Stays : {A : Type 0} → Machine → Machine → Result KernelError A → Type 0
Stays m v r = v ≡ m

abbrev pub Quiet : {A : Type 0} → M A → Type 0
Quiet p = (m : Machine) → Every see m p (Stays m)

pub then-Quiet :
    {A B : Type 0} (p : M A) (next : A → M B)
    → Quiet p
    → ((a : A) → Quiet (next a))
    → Quiet (p >>= next)
then-Quiet p next h k m =
    Every->>= see m p next (Stays m) (Stays m) (h m) (λ v a e. rw e (k a m)) (λ v x e. e)

search_dirs-Quiet : (binary : Str) (dirs : List Str) → Quiet (search_dirs binary dirs)
unfolding search_dirs see
search_dirs-Quiet binary [] m = refl
search_dirs-Quiet binary (dir ∷ dirs) m = by_bool _ refl (search_dirs-Quiet binary dirs m)

copy_worker-Quiet : (host stage : Str) → Quiet (copy_worker host stage)
unfolding copy_worker see
copy_worker-Quiet host stage m = by_result _ (λ _. by_result _ (λ _. refl) (λ _. refl)) (λ _. refl)

in_image-Quiet : (point host : Str) → Quiet (in_image point host)
unfolding see
in_image-Quiet point host m =
    if_intro (λ (p : M Bool). Every see m p (Stays m)) (is_absolute host) (λ _. λ there. refl)
      (λ _. refl)

place_worker-Quiet : (point host stage : Str) → Quiet (place_worker point host stage)
unfolding place_worker
place_worker-Quiet point host stage =
    then-Quiet (in_image point host) (placed host stage) (in_image-Quiet point host) (λ there m.
      by_bool (λ there. Every see m (placed host stage there) (Stays m)) refl
        (copy_worker-Quiet host stage m) there)

place_init-Quiet : (point init : Str) → Quiet (place_init point init)
unfolding place_init see
place_init-Quiet point init m =
    by_result _ (λ _ removed. by_result _ (λ _. by_result _ (λ _. refl) (λ _. refl)) (λ _. refl))
      (λ _. refl)

write_stage_files-Quiet :
    (stage worker : Str) (args : List Str) (env : List (Str × Str)) (workspace : Str)
    → Quiet (write_stage_files stage worker args env workspace)
unfolding write_stage_files see
write_stage_files-Quiet stage worker args env workspace m =
    by_result _
      (λ _.
        by_result _
          (λ _.
            by_result _
              (λ _.
                by_result _
                  (λ _.
                    by_result _
                      (λ _. by_result _ (λ _. by_result _ (λ _. refl) (λ _. refl)) (λ _. refl))
                      (λ _. refl))
                  (λ _. refl))
              (λ _. refl))
          (λ _. refl))
      (λ _. refl)

fill_image-Quiet :
    (point host : Str) (args : List Str) (env : List (Str × Str)) (init workspace : Str)
    → Quiet (fill_image point host args env init workspace)
unfolding fill_image see
fill_image-Quiet point host args env init workspace m =
    let stage = join point (codes "run/zeptocapsule") in
    by_result _
      (λ _.
        then-Quiet (place_worker point host stage) _ (place_worker-Quiet point host stage)
          (λ worker.
            then-Quiet (place_init point init) _ (place_init-Quiet point init)
              (λ _. write_stage_files-Quiet stage worker args env workspace))
          m)
      (λ _. refl)

search-Quiet : (binary : Str) (dirs : Option (List Str)) → Quiet (search_in binary dirs)
search-Quiet binary none m = refl
search-Quiet binary (some dirs) m = search_dirs-Quiet binary dirs m

-- What staging does to the mounts: the image is mounted once and `umount` run on it once; or the run
-- fails before the mount; or the worker is a name that is not found in PATH, and the image stays mounted.
abbrev pub once : Str → Machine → Machine
once point m = record m { mounted = point ∷ m.mounted; unmounted = point ∷ m.unmounted }

abbrev pub Balanced : Str → Str → Machine → Machine → Result KernelError (Unit {0}) → Type 0
Balanced binary point m v (ok _) = v ≡ once point m
Balanced binary point m v (err e) =
    (v ≡ m)
    ⊎ (v ≡ once point m)
    ⊎ ((is_path binary ≡ false) × (v ≡ record m { mounted = point ∷ m.mounted }))

abbrev Mounted : Str → Machine → Machine → Result KernelError (Unit {0}) → Type 0
Mounted point m v (ok _) = v ≡ record m { mounted = point ∷ m.mounted }
Mounted point m v (err e) = v ≡ m

mount-Mounted :
    (image point : Str) (m : Machine) (stderr : Str) (success : Bool)
    → Every see
        (with_mount success point m)
        (succeeded_or spawn_failed (codes "mount " ++ image) stderr success)
        (Mounted point m)
mount-Mounted image point m stderr true = refl
mount-Mounted image point m stderr false = refl

mount_loop_image-Mounted :
    (image point : Str) (m : Machine) → Every see m (mount_loop_image image point) (Mounted point m)
unfolding mount_loop_image see
mount_loop_image-Mounted image point m =
    by_result _
      (λ _. by_result _ (λ out. mount-Mounted image point m out.stderr out.success) (λ _. refl))
      (λ _. refl)

-- A name that is not found is no path.
abbrev Resolved : Str → Machine → Machine → Result KernelError Str → Type 0
Resolved binary m v (ok host) = v ≡ m
Resolved binary m v (err e) = (is_path binary ≡ false) × (v ≡ m)

resolve_host_binary-Resolved :
    (binary : Str) (m : Machine) → Every see m (resolve_host_binary binary) (Resolved binary m)
unfolding resolve_host_binary see
resolve_host_binary-Resolved binary m =
    if_intro (λ (p : M Str). Every see m p (Resolved binary m)) (is_path binary) (λ _. refl)
      (λ bare dirs.
        Every_mono see m (search_in binary dirs) (Stays m) (Resolved binary m)
          (search-Quiet binary dirs m)
          (λ v r.
            by_result (λ r. Stays m v r → Resolved binary m v r) (λ _ e. e) (λ _ e. (bare, e)) r))

-- However the system answers, staging a payload mounts the image once and runs `umount` on it once, or
-- fails before the mount, or fails since the worker is a name that is not found in PATH, with the image
-- mounted.
pub stage_firecracker_payload-Balanced :
    (binary : Str) (args : List Str) (env : List (Str × Str)) (init workspace image dir : Str)
    (m : Machine)
    → Every see m
        (stage_firecracker_payload binary args env init workspace image dir)
        (Balanced binary (mount_point_of dir) m)
unfolding stage_firecracker_payload unmount_path see
stage_firecracker_payload-Balanced binary args env init workspace image dir m =
    let point = mount_point_of dir in
    let here : Machine = record m { mounted = point ∷ m.mounted } in
    Every->>= see m (mount_loop_image image point) _ (Mounted point m) (Balanced binary point m)
      (mount_loop_image-Mounted image point m)
      (λ v _ e. rw e (
        Every->>= see here (resolve_host_binary binary) _ (Resolved binary here)
          (Balanced binary point m) (resolve_host_binary-Resolved binary here)
          (λ v host e. rw e (
            Every->>= see here (attempt (fill_image point host args env init workspace)) _
              (Valued see (Stays here)) (Balanced binary point m)
              (Every-attempt see here (fill_image point host args env init workspace) (Stays here)
                (fill_image-Quiet point host args env init workspace here))
              (λ v r e. rw e (λ _.
                by_result
                  (λ (r : Result KernelError (Unit {0})).
                    Every see (once point m) (lift r) (Balanced binary point m))
                  (λ _. refl) (λ _. inr (inl refl)) r))
              (λ v x e. absurd e)))
          (λ v x q. inr (inr q))))
      (λ v x e. inl e)
