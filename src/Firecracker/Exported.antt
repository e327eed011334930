-- ===== src/Firecracker/Exported.antt =====
-- What the export of a workspace leaves, of an image that is mounted for it.
use zeptocapsule.Common.{refl, inl, inr, by_bool, [], ◌∷◌, ◌≡◌}
use zeptocapsule.Common.Result.{Result, by_result}
use zeptocapsule.Common.Program.{Every}
use zeptocapsule.Text.{Str, codes}
use zeptocapsule.Text.Laws.{str_eq_refl}
use zeptocapsule.Common.Program.{◌>>◌}
use zeptocapsule.Capsule.Backend.{KernelError, cleanup_failed, spawn_failed}
use zeptocapsule.Firecracker.Images.{
  copy_script, shell, succeeded_or, umount_image, start_command, mount_image, export_to_host,
}
use zeptocapsule.Firecracker.Left.{
  Left, after_mount, after_umount, IsFresh, IsExported, see, without,
}

module _ (point : Str) where
  abbrev Exported : {A : Type 0} → Left → Result KernelError A → Type 0
  Exported w r = IsExported point w

  umount_image-Exported :
      (v : Left) → IsFresh v → v.mounted ≡ point ∷ [] → Every see v (umount_image point) Exported
  unfolding umount_image see without
  umount_image-Exported v fresh mounted =
      by_result _
        (λ out.
          by_bool (λ success. IsExported point (after_umount success point v))
            (fresh, inl (rw (mounted, str_eq_refl point) refl)) (fresh, inr (mounted, inr refl))
            out.success)
        (λ _. (fresh, inr (mounted, inr refl)))

  copy-Exported :
      (script : Str) (v : Left)
      → IsFresh v
      → v.mounted ≡ point ∷ []
      → Every see v
          (start_command cleanup_failed (codes "export workspace") (shell script)
            >> umount_image point)
          Exported
  unfolding see
  copy-Exported script v fresh mounted =
      by_result _ (λ out. umount_image-Exported v fresh mounted)
        (λ _. (fresh, inr (mounted, inl refl)))

  pub export_to_host-Exported :
      (image host : Str) (v : Left)
      → IsFresh v
      → v.mounted ≡ []
      → Every see v (export_to_host image host point) (λ w r. IsExported point w)
  unfolding export_to_host mount_image see
  export_to_host-Exported image host v fresh none_yet =
      let script = copy_script point host in
      let said = codes "mount workspace image" in
      let copied =
        start_command cleanup_failed (codes "export workspace") (shell script)
        >> umount_image point in
      by_result _
        (λ _.
          by_result _
            (λ _.
              by_result _
                (λ out.
                  by_bool
                    (λ success.
                      Every see (after_mount success point v)
                        (succeeded_or spawn_failed said out.stderr success >> copied) Exported)
                    (copy-Exported script (record v { mounted = point ∷ v.mounted }) fresh
                      (rw none_yet refl))
                    (fresh, inl none_yet) out.success)
                (λ _. (fresh, inl none_yet)))
            (λ _. (fresh, inl none_yet)))
        (λ _. (fresh, inl none_yet))
