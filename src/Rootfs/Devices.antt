-- ===== src/Rootfs/Devices.antt =====
-- Which devices stay writable in the new root.
use zeptocapsule.Common.{if_intro, ap, List, [], ◌∷◌, ◌++◌, ◌≡◌, refl, ◌⊎◌, All}
use zeptocapsule.Common.Result.{Result, ok, err, by_result}
use zeptocapsule.Common.Program.{Every, Lands, Lands->>=}
use zeptocapsule.Text.{Str}
use zeptocapsule.Rootfs.{bind_mount_device, M, DeviceNode}
use zeptocapsule.Rootfs.Pivot.{bind_devices, under}
use zeptocapsule.Rootfs.View.{Sandbox, in_sandbox, see}
use zeptocapsule.Rootfs.Mounts.{path_c_string-Every, sealed-cons, with_writable}

-- the mount, source and target, of one of the devices
abbrev pub IsDevice : Str → List DeviceNode → Str × Str → Type 0
IsDevice new_root [] m = ⊥
IsDevice new_root (dev ∷ devices) m =
    (m ≡ (dev.host, under new_root dev.guest)) ⊎ IsDevice new_root devices m

abbrev pub with_mounts : Sandbox → List (Str × Str) → Sandbox
with_mounts s more = record s { writable = more ++ s.writable }

-- Before the mounts of `s`, all that are writable satisfy `P`.
abbrev pub Before : (Str × Str → Type 0) → Sandbox → Sandbox → Result Str (Unit {0}) → Type 0
Before P s t (ok _) = (more : List (Str × Str)) × All P more × (t ≡ with_mounts s more)
Before P s t (err e) = Unit

module _ (P : Str × Str → Type 0) (s : Sandbox) (new_root : Str) where
  abbrev pub Runs : List (Str × Str) → M (Unit {0}) → Type 0
  Runs more m = Every see (in_sandbox (with_mounts s more)) m (Lands in_sandbox (Before P s))

  -- A device whose remount is refused by EPERM stays writable.
  bind_mount_device-Runs :
      (more : List (Str × Str)) (source target : Str)
      → P (source, target)
      → All P more
      → Runs more (bind_mount_device source target)
  unfolding bind_mount_device see
  bind_mount_device-Runs more source target new old =
      path_c_string-Every _ (Lands in_sandbox (Before P s)) source _ (λ x. (_, refl, tt))
        (path_c_string-Every _ (Lands in_sandbox (Before P s)) target _ (λ x. (_, refl, tt))
          (by_result _
            (λ _.
              by_result _
                (λ _. (
                  _,
                  refl,
                  (
                    more,
                    old,
                    ap (with_writable s) (sealed-cons source target (more ++ s.writable)),
                  ),
                ))
                (λ e.
                  if_intro (λ (m : M (Unit {0})). Runs ((source, target) ∷ more) m) e.eperm
                    (λ _. (_, refl, ((source, target) ∷ more, (new, old), refl)))
                    (λ _. (_, refl, tt))))
            (λ e. (_, refl, tt))))

  pub bind_devices-Runs :
      (more : List (Str × Str)) (devices : List DeviceNode)
      → All P more
      → All (λ (dev : DeviceNode). P (dev.host, under new_root dev.guest)) devices
      → Runs more (bind_devices new_root devices)
  unfolding bind_devices see
  bind_devices-Runs more [] old new = (_, refl, (more, old, refl))
  bind_devices-Runs more (dev ∷ devices) old new =
      by_result _
        (λ _.
          Lands->>= see in_sandbox _ (bind_mount_device dev.host (under new_root dev.guest)) _
            (Before P s) (Before P s)
            (bind_mount_device-Runs more dev.host (under new_root dev.guest) new.0 old)
            (λ t a q. rw q.2 (bind_devices-Runs q.0 devices q.1 new.1)) (λ t x q. tt))
        (λ e. (_, refl, tt))
