-- ===== src/Guest/Init/Ordered.antt =====
-- The init of a microVM does its work in order.
use zeptocapsule.Common.{ℕ, Option, none, some, List, [], ◌∷◌, if_intro, ◌≡◌, refl}
use zeptocapsule.Common.Result.{Result, ok, err, by_result}
use zeptocapsule.Common.Program.{Every, Every->>=, Every_mono}
use zeptocapsule.Text.{Str, codes, str_eq}
use zeptocapsule.Text.Laws.{str_eq_refl}
use zeptocapsule.Guest.Control.{Ended, with_code, with_signal, exit_message}
use zeptocapsule.Guest.System.{M, Output}
use zeptocapsule.Guest.Config.{FcInitConfig, load_fc_init_config}
use zeptocapsule.Guest.Init.{
  str_eq, has_nul, report_end, make_dir, c_text, mount_proc, mount_tmpfs, mount_device,
  setup_fc_guest_fs, configure_fc_egress_network, connect_streams, exit_code, run_fc_worker,
  run_fc_init_shim, mounted_or,
}
use zeptocapsule.Guest.Init.Phase.{
  Phase, booting, spawned, ready, out_of_order, ended, synced, reported, Boot, see, Stays, Quiet,
  then-Quiet, load-Quiet, configure-Quiet, connect_streams-Quiet,
}

-- while the worker is not started, with the targets that are mounted
abbrev pub boot_with : List Str → Boot
boot_with targets = record { phase = booting; mounted = targets }

-- a step that mounts one more target, or fails and mounts none
abbrev Mounts : List Str → Str → Boot → Result Str (Unit {0}) → Type 0
Mounts targets target w (ok t) = w ≡ boot_with (target ∷ targets)
Mounts targets target w (err e) = w ≡ boot_with targets

make_dir-Quiet : (what path : Str) → Quiet (make_dir what path)
unfolding see
make_dir-Quiet what path v = by_result _ (λ _. refl) (λ _. refl)

c_text-Quiet : (s : Str) → Quiet (c_text s)
c_text-Quiet s v =
    if_intro (λ (p : M (Unit {0})). Every see v p (Stays v)) (has_nul s) (λ _. refl) (λ _. refl)

mount_proc-Mounts :
    (targets : List Str) → Every see (boot_with targets) mount_proc (Mounts targets (codes "/proc"))
unfolding mount_proc see
mount_proc-Mounts targets = by_result _ (λ _. by_result _ (λ _. refl) (λ _. refl)) (λ _. refl)

mount_tmpfs-Mounts :
    (targets : List Str) (path size : Str)
    → Every see (boot_with targets) (mount_tmpfs path size) (Mounts targets path)
unfolding mount_tmpfs see
mount_tmpfs-Mounts targets path size =
    let v = boot_with targets in
    Every->>= see v (c_text path) _ (Stays v) (Mounts targets path) (c_text-Quiet path v)
      (λ w t e. rw e (
        Every->>= see v (c_text size) _ (Stays v) (Mounts targets path) (c_text-Quiet size v)
          (λ w t e. rw e (by_result _ (λ _. by_result _ (λ _. refl) (λ _. refl)) (λ _. refl)))
          (λ w x e. e)))
      (λ w x e. e)

mounted_or-Quiet : (r : Result Str Output) → Quiet (mounted_or r)
mounted_or-Quiet (err e) v = refl
mounted_or-Quiet (ok out) v =
    if_intro (λ (p : M (Unit {0})). Every see v p (Stays v)) out.success (λ _. refl) (λ _. refl)

mount_device-Quiet : (device : Option Str) (path : Str) → Quiet (mount_device device path)
unfolding see
mount_device-Quiet none path v = make_dir-Quiet (codes "mkdir workspace") path v
mount_device-Quiet (some device) path v =
    then-Quiet (make_dir (codes "mkdir workspace") path) _
      (make_dir-Quiet (codes "mkdir workspace") path) (λ _ v out. mounted_or-Quiet out v) v

-- The file systems are there; or the worker is not started.
abbrev pub guest_mounts : List Str
guest_mounts = codes "/tmp" ∷ codes "/proc" ∷ []

abbrev BootsOr : {A : Type 0} → Boot → Result Str A → Type 0
BootsOr w (ok a) = w ≡ boot_with guest_mounts
BootsOr w (err e) = w.phase ≡ booting

setup-BootsOr : (c : FcInitConfig) → Every see (boot_with []) (setup_fc_guest_fs c) BootsOr
unfolding setup_fc_guest_fs
setup-BootsOr c =
    Every->>= see (boot_with []) mount_proc _ (Mounts [] (codes "/proc")) BootsOr
      (mount_proc-Mounts [])
      (λ w t e. rw e (
        Every->>= see (boot_with (codes "/proc" ∷ [])) (mount_tmpfs (codes "/tmp") c.tmp_size) _
          (Mounts (codes "/proc" ∷ []) (codes "/tmp")) BootsOr
          (mount_tmpfs-Mounts (codes "/proc" ∷ []) (codes "/tmp") c.tmp_size)
          (λ w t e. rw e (
            Every_mono see (boot_with guest_mounts)
              (mount_device c.workspace_device c.workspace_path) (Stays (boot_with guest_mounts))
              BootsOr
              (mount_device-Quiet c.workspace_device c.workspace_path (boot_with guest_mounts))
              (λ w r.
                by_result (λ r. Stays (boot_with guest_mounts) w r → BootsOr w r) (λ _ e. e)
                  (λ _ e. rw e refl) r)))
          (λ w x e. rw e refl)))
      (λ w x e. rw e refl)

-- the phases in which the init may fail
abbrev pub MayFail : Phase → Type 0
MayFail booting = Unit {0}
MayFail spawned = Unit {0}
MayFail ready = Unit {0}
MayFail (ended s) = ⊥
MayFail (synced s) = Unit {0}
MayFail (reported s) = Unit {0}
MayFail out_of_order = ⊥

abbrev pub Ordered : Boot → Result Str ℕ → Type 0
Ordered w (ok code) = w ≡ record { phase = reported (with_code code); mounted = guest_mounts }
Ordered w (err e) = MayFail w.phase

finish-Ordered :
    (path : Str) (s : Ended)
    → Every see (record { phase = reported s; mounted = guest_mounts }) (exit_code path s) Ordered
finish-Ordered path (with_code code) = refl
finish-Ordered path (with_signal n) = tt

report_end-Ordered :
    (path : Str) (s : Ended)
    → Every see (record { phase = ended s; mounted = guest_mounts }) (report_end path s) Ordered
unfolding see
report_end-Ordered path s = λ _.
    by_result _
      (λ _.
        by_result _ (λ _ _. rw (str_eq_refl (exit_message s)) (finish-Ordered path s))
          (λ _. rw (str_eq_refl (exit_message s)) tt))
      (λ _. rw (str_eq_refl (exit_message s)) tt)

run_fc_worker-Ordered :
    (c : FcInitConfig) (fds : List ℕ)
    → Every see (boot_with guest_mounts) (run_fc_worker c fds) Ordered
unfolding run_fc_worker see str_eq
run_fc_worker-Ordered c fds =
    by_result _
      (λ pid.
        by_result _
          (λ _.
            by_result _
              (λ _.
                by_result _ (λ _ _. by_result _ (λ s. report_end-Ordered c.worker_path s) (λ _. tt))
                  (λ _. tt))
              (λ _. tt))
          (λ _. tt))
      (λ _. tt)

-- However the system answers, the init of a microVM exits with a code only if the worker ended with it,
-- after these steps, in this order: /proc and /tmp were mounted, the worker started, the host told that it
-- is ready, the worker waited for, the disks synchronised and the host told of the code.
-- Where it fails, nothing was done out of this order, and the worker had not ended, or its end was
-- synchronised with the disks.
pub run_fc_init_shim-Ordered :
    (utf8 : Str) → Every see (boot_with []) (run_fc_init_shim utf8) Ordered
unfolding run_fc_init_shim configure_fc_egress_network
run_fc_init_shim-Ordered utf8 =
    let full = boot_with guest_mounts in
    Every->>= see (boot_with []) (load_fc_init_config utf8) _ (Stays (boot_with [])) Ordered
      (load-Quiet utf8 (boot_with []))
      (λ w c e. rw e (
        Every->>= see (boot_with []) (setup_fc_guest_fs c) _ BootsOr Ordered (setup-BootsOr c)
          (λ w t e. rw e (
            Every->>= see full (configure_fc_egress_network c.worker_env) _ (Stays full) Ordered
              (configure-Quiet _ _ _ full)
              (λ w t e. rw e (
                Every->>= see full connect_streams _ (Stays full) Ordered
                  (connect_streams-Quiet full) (λ w fds e. rw e (run_fc_worker-Ordered c fds))
                  (λ w x e. rw e tt)))
              (λ w x e. rw e tt)))
          (λ w x e. rw e tt)))
      (λ w x e. rw e tt)
