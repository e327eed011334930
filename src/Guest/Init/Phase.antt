-- ===== src/Guest/Init/Phase.antt =====
-- The order in which the init of a microVM does its work.
use zeptocapsule.Common.{ℕ, Option, none, some, List, ◌∷◌, if◌then◌else◌, ◌≡◌, refl, by_bool}
use zeptocapsule.Common.Result.{Result, ok, err, by_result}
use zeptocapsule.Common.Program.{Every, Every->>=, lift, ◌>>=◌}
use zeptocapsule.Text.{Str, codes, str_eq}
use zeptocapsule.Rootfs.System.{MountArgs}
use zeptocapsule.Guest.Control.{Ended, exit_message}
use zeptocapsule.Guest.System.{M, Io, Sys, Ans, mount, spawn_worker, write_control, wait, sync}
use zeptocapsule.Guest.Config.{or_say, read_trimmed_file, read_if_there, load_fc_init_config}
use zeptocapsule.Guest.Init.{bring_up, configure_iface, vsock_listen, vsock_accept, connect_streams}

-- The worker is not started; it is started; the host was told that it is ready; it ended; the disks were
-- synchronised; the host was told of its end. Whatever is done out of this order is out of order.
pub data Phase : Type 0 where
  booting spawned ready out_of_order : Phase
  ended synced reported : Ended → Phase

-- the phase, and the targets that were mounted, the latest first
pub record Boot : Type 0 where
  pub phase : Phase
  pub mounted : List Str

abbrev on_mount : Phase → Phase
on_mount booting = booting
on_mount p = out_of_order

abbrev add_target : MountArgs → Io (Unit {0}) → List Str → List Str
add_target args (ok t) targets = args.target ∷ targets
add_target args (err e) targets = targets

abbrev on_spawn : Io ℕ → Phase → Phase
on_spawn (ok pid) booting = spawned
on_spawn (err e) booting = booting
on_spawn r p = out_of_order

abbrev expected : Str → Str → Io (Unit {0}) → Phase → Phase → Phase
expected text said (err e) p next = if str_eq text said then p else out_of_order
expected text said (ok t) p next = if str_eq text said then next else out_of_order

abbrev on_write : Str → Io (Unit {0}) → Phase → Phase
on_write text r spawned = expected text (codes "READY\n") r spawned ready
on_write text r (synced s) = expected text (exit_message s) r (synced s) (reported s)
on_write text r p = out_of_order

abbrev on_wait : Io Ended → Phase → Phase
on_wait (ok s) ready = ended s
on_wait (err e) ready = ready
on_wait r p = out_of_order

abbrev on_sync : Phase → Phase
on_sync (ended s) = synced s
on_sync p = out_of_order

unfoldable pub see : (e : Sys) → Ans e → Boot → Boot
see (mount args) r v = record { phase = on_mount v.phase; mounted = add_target args r v.mounted }
see (spawn_worker args env fds) r v = record v { phase = on_spawn r v.phase }
see (write_control text) r v = record v { phase = on_write text r v.phase }
see wait r v = record v { phase = on_wait r v.phase }
see sync r v = record v { phase = on_sync v.phase }
see e r v = v

abbrev pub Stays : {A : Type 0} → Boot → Boot → Result Str A → Type 0
Stays v w r = w ≡ v

abbrev pub Quiet : {A : Type 0} → M A → Type 0
Quiet p = (v : Boot) → Every see v p (Stays v)

pub then-Quiet :
    {A B : Type 0} (p : M A) (next : A → M B)
    → Quiet p
    → ((a : A) → Quiet (next a))
    → Quiet (p >>= next)
then-Quiet p next h k v =
    Every->>= see v p next (Stays v) (Stays v) (h v) (λ w a e. rw e (k a v)) (λ w x e. e)

pub or_say-Quiet : {A : Type 0} (what : Str) (r : Result Str A) → Quiet (or_say what r)
or_say-Quiet what (ok a) v = refl
or_say-Quiet what (err e) v = refl

lift-Quiet : {A : Type 0} (r : Result Str A) → Quiet (lift r)
lift-Quiet (ok a) v = refl
lift-Quiet (err e) v = refl

read_trimmed_file-Quiet : (path : Str) → Quiet (read_trimmed_file path)
unfolding read_trimmed_file see
read_trimmed_file-Quiet path v = by_bool _ (by_result _ (λ _. refl) (λ _. refl)) refl

read_if_there-Quiet : (path : Str) → Quiet (read_if_there path)
unfolding read_if_there see
read_if_there-Quiet path v = by_bool _ (by_result _ (λ _. refl) (λ _. refl)) refl

pub load-Quiet : (utf8 : Str) → Quiet (load_fc_init_config utf8)
unfolding load_fc_init_config
load-Quiet utf8 = then-Quiet _ _ (read_trimmed_file-Quiet _) (λ worker.
    then-Quiet _ _ (read_if_there-Quiet _) (λ args_bytes. then-Quiet _ _ (lift-Quiet _) (λ args.
      then-Quiet _ _ (read_if_there-Quiet _) (λ env_bytes. then-Quiet _ _ (lift-Quiet _) (λ env.
        then-Quiet _ _ (read_trimmed_file-Quiet _) (λ device.
          then-Quiet _ _ (read_trimmed_file-Quiet _)
            (λ workspace. then-Quiet _ _ (read_trimmed_file-Quiet _) (λ size v. refl))))))))

bring_up-Quiet : (guest host iface : Str) → Quiet (bring_up guest host iface)
unfolding see
bring_up-Quiet guest host iface v = λ _ _ _ _. refl

pub configure-Quiet :
    (guest host : Option Str) (iface : Str) → Quiet (configure_iface guest host iface)
configure-Quiet none host iface v = refl
configure-Quiet (some guest) none iface v = refl
configure-Quiet (some guest) (some host) iface v = bring_up-Quiet guest host iface v

vsock_listen-Quiet : (port : ℕ) → Quiet (vsock_listen port)
unfolding vsock_listen see
vsock_listen-Quiet port v =
    by_result _ (λ fd. by_result _ (λ _. by_result _ (λ _. refl) (λ _ _. refl)) (λ _ _. refl))
      (λ _. refl)

vsock_accept-Quiet : (listener : ℕ) → Quiet (vsock_accept listener)
unfolding vsock_accept see
vsock_accept-Quiet listener v = by_result _ (λ _ _. refl) (λ _. refl)

pub connect_streams-Quiet : Quiet connect_streams
unfolding connect_streams
connect_streams-Quiet = then-Quiet _ _ (vsock_listen-Quiet _) (λ a.
    then-Quiet _ _ (vsock_listen-Quiet _) (λ b. then-Quiet _ _ (vsock_listen-Quiet _) (λ c.
      then-Quiet _ _ (vsock_listen-Quiet _) (λ d. then-Quiet _ _ (vsock_accept-Quiet _) (λ e.
        then-Quiet _ _ (vsock_accept-Quiet _) (λ f.
          then-Quiet _ _ (vsock_accept-Quiet _)
            (λ g. then-Quiet _ _ (vsock_accept-Quiet _) (λ h v. refl))))))))
