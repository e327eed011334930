-- ===== src/Rootfs/Pivoted.antt =====
-- The sandbox that `setup_and_pivot` leaves.
use zeptocapsule.Common.{Option, none, some, true, List, [], ◌∷◌, ◌++◌, ◌≡◌, refl, inl, inr, All}
use zeptocapsule.Common.Result.{Result, ok, err, by_result}
use zeptocapsule.Common.Program.{Every_mono, Every, Lands, Lands->>=, ◌>>=◌, ◌>>◌}
use zeptocapsule.Text.{Str, codes}
use zeptocapsule.Text.Path.{join}
use zeptocapsule.Rootfs.{mount_tmpfs, mount_proc, M, rootfs_layout}
use zeptocapsule.Rootfs.Pivot.{
  make_dir, bind_dirs, bind_devices, mount_workspace, make_private, mount_new_root, mount_rest,
  change_root, setup_and_pivot, under,
}
use zeptocapsule.Rootfs.View.{outside, Sandbox, in_sandbox, see}
use zeptocapsule.Rootfs.Mounts.{
  make_dir-Reaches, bind_dirs-Reaches, mount_proc-Reaches, bind_mount_rw-Reaches,
  make_dir-then-Reaches, mount_tmpfs-Reaches, c_string-Reaches, To, Reaches, Reaches->>=,
}
use zeptocapsule.Rootfs.Devices.{IsDevice, Before, bind_devices-Runs}

make_private-Reaches : (s : Sandbox) → Reaches s make_private (record s { isolated = true })
unfolding make_private see
make_private-Reaches s = by_result _ (λ _. (_, refl, refl)) (λ e. (s, refl, tt))

mount_new_root-Reaches :
    (s : Sandbox) (new_root : Str)
    → Reaches s
        (mount_new_root new_root)
        (record s { writable = (new_root, new_root) ∷ s.writable })
unfolding mount_new_root see
mount_new_root-Reaches s new_root =
    by_result _
      (λ _.
        c_string-Reaches s _ (codes "CString: ") new_root _
          (by_result _ (λ _. (_, refl, refl)) (λ e. (s, refl, tt))))
      (λ e. (s, refl, tt))

abbrev pub workspace_mounts : Option Str → Str → List (Str × Str)
workspace_mounts none target = []
workspace_mounts (some host) target = (host, target) ∷ []

mount_workspace-Reaches :
    (s : Sandbox) (host : Option Str) (target : Str)
    → Reaches s
        (mount_workspace host target)
        (record s { writable = workspace_mounts host target ++ s.writable })
mount_workspace-Reaches s none target = mount_tmpfs-Reaches s target (codes "128m")
mount_workspace-Reaches s (some host) target = bind_mount_rw-Reaches s host target

mount_rest-Reaches :
    (s : Sandbox) (new_root guest : Str) (host : Option Str)
    → Reaches s
        (mount_rest new_root guest host)
        (record s { writable = workspace_mounts host (under new_root guest) ++ s.writable })
unfolding mount_rest
mount_rest-Reaches s new_root guest host =
    let goal : Sandbox = record s {
      writable = workspace_mounts host (under new_root guest) ++ s.writable;
    } in
    make_dir-then-Reaches s goal (join new_root (codes "proc")) (codes "/proc") _ (
      Reaches->>= s s goal (mount_proc (join new_root (codes "proc"))) _
        (mount_proc-Reaches s (join new_root (codes "proc")))
        (λ _. make_dir-then-Reaches s goal (join new_root (codes "tmp")) (codes "/tmp") _ (
          Reaches->>= s s goal (mount_tmpfs (join new_root (codes "tmp")) (codes "64m")) _
            (mount_tmpfs-Reaches s (join new_root (codes "tmp")) (codes "64m"))
            (λ _.
              make_dir-then-Reaches s goal (under new_root guest) (codes "workspace") _
                (mount_workspace-Reaches s host (under new_root guest))))))

change_root-Reaches :
    (s : Sandbox) (new_root : Str)
    → Reaches s
        (change_root new_root)
        (record s { root = some new_root; at_root = true; detached = true })
unfolding change_root see
change_root-Reaches s new_root =
    by_result _
      (λ _. c_string-Reaches s _ (codes "CString: ") new_root _ (
        c_string-Reaches s _ (codes "CString: ") (join new_root (codes "old_root")) _ (
          by_result _
            (λ _.
              by_result _ (λ _. by_result _ (λ _ removed. (_, refl, refl)) (λ e. (_, refl, tt)))
                (λ e. (_, refl, tt)))
            (λ e. (s, refl, tt)))))
      (λ e. (s, refl, tt))

-- The child sees only the new root; of the host's files, it can write to no other than the workspace,
-- the devices, and the new root itself.
abbrev pub IsPivoted : Str → Str → Option Str → Sandbox → Type 0
IsPivoted new_root guest host s =
    (devices : List (Str × Str)) × All (IsDevice new_root rootfs_layout.devices) devices
    × (s ≡ record outside {
      isolated = true;
      writable =
          workspace_mounts host (under new_root guest) ++ (devices ++ (new_root, new_root) ∷ []);
      root = some new_root;
      at_root = true;
      detached = true;
    })

abbrev pub Pivoted : Str → Str → Option Str → Sandbox → Result Str (Unit {0}) → Type 0
Pivoted new_root guest host s (ok _) = IsPivoted new_root guest host s
Pivoted new_root guest host s (err e) = Unit

module _ (new_root guest : Str) (host : Option Str) where
  Then :
      {A : Type 0} (s t : Sandbox) (m : M A) (next : A → M (Unit {0}))
      → Reaches s m t
      → ((a : A)
          → Every see (in_sandbox t) (next a) (Lands in_sandbox (Pivoted new_root guest host)))
      → Every see (in_sandbox s) (m >>= next) (Lands in_sandbox (Pivoted new_root guest host))
  Then s t m next h k =
      Lands->>= see in_sandbox s m next (To t) (Pivoted new_root guest host) h (λ u a e. rw e (k a))
        (λ u x e. tt)

  -- the steps behind the devices
  pivot_after :
      (devices : List (Str × Str))
      → All (IsDevice new_root rootfs_layout.devices) devices
      → (let own : Sandbox = record outside {
        isolated = true;
        writable = devices ++ (new_root, new_root) ∷ [];
      } in
          Every see
            (in_sandbox own)
            (mount_rest new_root guest host >> change_root new_root)
            (Lands in_sandbox (Pivoted new_root guest host)))
  pivot_after devices all =
      let own : Sandbox = record outside {
        isolated = true;
        writable = devices ++ (new_root, new_root) ∷ [];
      } in
      let full : Sandbox = record own {
        writable = workspace_mounts host (under new_root guest) ++ own.writable;
      } in
      Then own full (mount_rest new_root guest host) _ (mount_rest-Reaches own new_root guest host)
        (λ _.
          Every_mono see (in_sandbox full) (change_root new_root) _
            (Lands in_sandbox (Pivoted new_root guest host)) (change_root-Reaches full new_root)
            (λ v r.
              by_result
                (λ r.
                  Lands in_sandbox
                    (To (record full { root = some new_root; at_root = true; detached = true })) v r
                  → Lands in_sandbox (Pivoted new_root guest host) v r)
                (λ _ q. (q.0, q.1, (devices, all, q.2))) (λ x q. (q.0, q.1, tt)) r))

pub setup_and_pivot-Pivoted :
    (new_root guest : Str) (host : Option Str)
    → Every see
        (in_sandbox outside)
        (setup_and_pivot new_root guest host)
        (Lands in_sandbox (Pivoted new_root guest host))
unfolding setup_and_pivot rootfs_layout
setup_and_pivot-Pivoted new_root guest host =
    let apart : Sandbox = record outside { isolated = true } in
    let own : Sandbox = record apart { writable = (new_root, new_root) ∷ [] } in
    let devices = rootfs_layout.devices in
    let IsDev = IsDevice new_root devices in
    let dev = join new_root (codes "dev") in
    Then new_root guest host outside apart make_private _ (make_private-Reaches outside) (λ _.
      Then new_root guest host apart own (mount_new_root new_root) _
        (mount_new_root-Reaches apart new_root)
        (λ _.
          Then new_root guest host own own (bind_dirs new_root rootfs_layout.bind_mounts) _
            (bind_dirs-Reaches own new_root rootfs_layout.bind_mounts)
            (λ _.
              Then new_root guest host own own (make_dir dev (codes "/dev")) _
                (make_dir-Reaches own dev (codes "/dev"))
                (λ _.
                  Lands->>= see in_sandbox own (bind_devices new_root devices) _ (Before IsDev own)
                    (Pivoted new_root guest host)
                    (bind_devices-Runs IsDev own new_root [] devices tt
                      (inl refl, (inr (inl refl), (inr (inr (inl refl)), tt))))
                    (λ t a q. rw q.2 (pivot_after new_root guest host q.0 q.1)) (λ t x q. tt)))))
