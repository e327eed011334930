-- ===== src/Firecracker/Spawned.antt =====
-- How `spawn` of a capsule in a microVM ends.
use zeptocapsule.Firecracker.System.{M}
use zeptocapsule.Common.{
  All, [], ◌∷◌, ap, ◌∙◌, ◌||◌, ℕ, Bool, true, false, none, some, List, map, ◌≡◌, refl, ◌⊎◌, inl,
  inr, if_intro, ltb,
}
use zeptocapsule.Common.Result.{Result, ok, err, by_result}
use zeptocapsule.Common.Program.{Every, Every->>=, Every-attempt, Valued, attempt, ◌>>=◌}
use zeptocapsule.Text.{Str, codes}
use zeptocapsule.Text.Path.{join}
use zeptocapsule.Text.Utf8.{from_utf8}
use zeptocapsule.Firecracker.Expected.{boot_requests, puts_same}
use zeptocapsule.Firecracker.Accepted.{IsAccepted}
use zeptocapsule.Capsule.Backend.{KernelError}
use zeptocapsule.Firecracker.Api.{Texts}
use zeptocapsule.Firecracker.Boot.{puts, boot, request_of}
use zeptocapsule.Firecracker.Machine.{Machine, absent, running, gone, see}
use zeptocapsule.Firecracker.Prepared.{IsIdle, Prepared, prepare-Prepared}
use zeptocapsule.Firecracker.Booted.{Asked, boot-Asked, sent_to}
use zeptocapsule.Firecracker.Handle.{
  stopped, closed_control, started_timer, vsock_socket_path, api_socket_path, prepare, launched,
  is_some, settle, cleanup_failed_spawn, FirecrackerCapsule, spawn, config_of,
}

-- the handle has no process and no control channel, so that it can be spawned
abbrev pub IsFree : FirecrackerCapsule → Type 0
IsFree h = (h.fc_process ≡ none) × (h.control_write_fd ≡ false)

abbrev pub running_at : FirecrackerCapsule → ℕ → FirecrackerCapsule
running_at h pid = record h {
  fc_process = some pid;
  control_write_fd = true;
  timeout_cancel = ltb 0 h.spec.limits.timeout_sec;
}

-- requests to the socket of the capsule's process
abbrev pub to_api : FirecrackerCapsule → List Str → List (Str × Str)
to_api h requests = map (λ r. (join h.state_dir (codes "api.sock"), r)) requests

abbrev pub SpawnEnds :
    FirecrackerCapsule → Machine → FirecrackerCapsule → Result KernelError ℕ → Type 0
SpawnEnds h v h' (ok pid) =
    (v.vm ≡ running)
    × (v.requests ≡ to_api h (boot_requests h))
    × All IsAccepted v.answers
    × (from_utf8 v.heard ≡ some (codes "READY"))
    × (h' ≡ running_at h pid)
SpawnEnds h v h' (err e) = ((v.vm ≡ absent) ⊎ (v.vm ≡ gone)) × IsFree h'

abbrev pub Ends :
    FirecrackerCapsule
    → Machine
    → Result KernelError (FirecrackerCapsule × Result KernelError ℕ)
    → Type 0
Ends h v (ok (h', r)) = SpawnEnds h v h' r
Ends h v (err x) = ⊥

module _ {B : Type 0} (next : Unit {0} → M B) (P : Machine → Result KernelError B → Type 0)
    (m : Machine) where
  abbrev GoesOn : Type 0
  GoesOn = (t : Unit {0}) → Every see m (next t) P

  stopped-then : (b : Bool) → GoesOn → Every see m (stopped b >>= next) P
  unfolding see
  stopped-then false good = good tt
  stopped-then true good = good

  closed_control-then : (b : Bool) → GoesOn → Every see m (closed_control b >>= next) P
  unfolding see
  closed_control-then false good = good tt
  closed_control-then true good = good

  started_timer-then : (secs : ℕ) → GoesOn → Every see m (started_timer secs >>= next) P
  unfolding see
  started_timer-then secs good =
      if_intro (λ (p : M (Unit {0})). Every see m (p >>= next) P) (ltb 0 secs) (λ _. good)
        (λ _. good tt)

-- A process that runs is killed and waited for, and the handle is free.
abbrev Cleaned : Machine → Result KernelError FirecrackerCapsule → Type 0
Cleaned v (ok h) = (v.vm ≡ gone) × IsFree h
Cleaned v (err x) = ⊥

cleanup-Cleaned :
    (h : FirecrackerCapsule) (pid : ℕ) (v : Machine)
    → v.vm ≡ running
    → Every see v (cleanup_failed_spawn (record h { fc_process = some pid })) Cleaned
unfolding cleanup_failed_spawn see
cleanup-Cleaned h pid v runs = stopped-then _ Cleaned v h.timeout_cancel (λ _.
    closed_control-then _ Cleaned v h.control_write_fd (λ _ _ _. (rw runs refl, (refl, refl))))

IsFree-unused :
    (h : FirecrackerCapsule) → IsFree h → is_some h.fc_process || h.control_write_fd ≡ false
IsFree-unused h free = rw (free.0, free.1) refl

map_map_lem :
    (h : FirecrackerCapsule) (ps : List (Str × Str))
    → sent_to (api_socket_path h.state_dir) ps ≡ to_api h (map request_of ps)
map_map_lem h [] = refl
map_map_lem h (p ∷ ps) =
    ap (λ rs. (api_socket_path h.state_dir, request_of p) ∷ rs) (map_map_lem h ps)

module _ (texts : Texts) (h : FirecrackerCapsule) (free : IsFree h) where
  abbrev Started : Machine → Type 0
  Started v =
      (v.requests ≡ to_api h (boot_requests h))
      × All IsAccepted v.answers
      × (from_utf8 v.heard ≡ some (codes "READY"))

  settle-Ends :
      (pid : ℕ) (v : Machine) (r : Result KernelError (Unit {0}))
      → v.vm ≡ running
      → (r ≡ ok tt → Started v)
      → Every see v (settle (record h { fc_process = some pid }) pid r) (Ends h)
  unfolding see
  settle-Ends pid v (ok t) runs asked =
      let (requests, accepted, ready) = asked refl in
      λ _.
        started_timer-then _ (Ends h) v h.spec.limits.timeout_sec
          (λ _. (runs, requests, accepted, ready, refl))
  settle-Ends pid v (err e) runs asked =
      Every->>= see v (cleanup_failed_spawn (record h { fc_process = some pid })) _ Cleaned (Ends h)
        (cleanup-Cleaned h pid v runs) (λ w h' c. (inr c.0, c.1)) (λ w x c. absurd c)

  -- The requests of a boot from which nothing was asked are those expected.
  Asked-Started :
      (v w : Machine)
      → v.requests ≡ []
      → v.answers ≡ []
      → Asked (api_socket_path h.state_dir) (puts (config_of h)) v w (ok tt)
      → Started w
  Asked-Started v w none_yet no_answer (same, requests, (answers, e, accepted), ready) = (
    requests ∙ (rw (none_yet, map_map_lem h (puts (config_of h)), puts_same h) refl),
    rw (e, no_answer) accepted,
    ready,
  )

  abbrev booted : M (Unit {0})
  booted = boot texts (api_socket_path h.state_dir) (vsock_socket_path h.state_dir) (config_of h)

  launched-Ends :
      (v : Machine) (r : Result KernelError ℕ)
      → Prepared v r
      → Every see v (launched texts h r) (Ends h)
  launched-Ends v (err e) idle = (inl idle, free)
  launched-Ends v (ok pid) (runs, none_yet, no_answer) =
      let Booted = Asked (api_socket_path h.state_dir) (puts (config_of h)) v in
      Every->>= see v (attempt booted) _ (Valued see Booted) (Ends h)
        (Every-attempt see v booted Booted (
          boot-Asked texts (api_socket_path h.state_dir) (vsock_socket_path h.state_dir)
            (config_of h) v))
        (λ w r q.
          by_result
            (λ r.
              Booted w r → Every see w (settle (record h { fc_process = some pid }) pid r) (Ends h))
            (λ _ q.
              settle-Ends pid w (ok tt) (q.0 ∙ runs) (λ _. Asked-Started v w none_yet no_answer q))
            (λ x e. settle-Ends pid w (err x) (e ∙ runs) (λ same. cc)) r q)
        (λ w x q. absurd q)

  -- Of a handle that is free, where no process has run and nothing was asked: `spawn` returns a running
  -- process, or an error, with no process left and the handle free again. Where it returns a process, the
  -- requests that were sent, all to the socket of the capsule, are the processors and the memory, the kernel
  -- and its arguments, the two drives, the socket of the streams, the network, if there is one, and the
  -- start, in this order and no other; each was answered with a status from 200 to 299; the latest line of
  -- the control channel is "READY"; and the handle has the process, the channel and, with a timeout, a timer.
  pub spawn-Ends :
      (binary : Str) (args : List Str) (env : List (Str × Str)) (m : Machine)
      → IsIdle m
      → Every see m (spawn texts h binary args env) (Ends h)
  unfolding spawn
  spawn-Ends binary args env m idle = rw (IsFree-unused h free) (
      Every->>= see m (attempt (prepare h binary args env)) (launched texts h) (Valued see Prepared)
        (Ends h)
        (Every-attempt see m (prepare h binary args env) Prepared
          (prepare-Prepared h binary args env m idle))
        (λ v r q. launched-Ends v r q) (λ v x q. absurd q))
