-- ===== src/Process.antt =====
-- src/process.rs: the backend that runs a worker as a process, and what its handle does.
use zeptocapsule.Common.{
  ℕ, zero, suc, Bool, true, false, Option, none, some, List, [], ◌∷◌, ◌++◌, if◌then◌else◌, ltb, map,
}
use zeptocapsule.Common.Result.{Result, ok, err}
use zeptocapsule.Common.Program.{Program, ret, raise, ask, on_error, ◌>>=◌, ◌>>◌}
use zeptocapsule.Text.{Str, codes, str_eq}
use zeptocapsule.Capsule.{
  CapsuleSpec, ResourceViolation, Signal, terminate, kill, SecurityProfile, standard, hardened, dev,
  RLimits, from, process,
}
use zeptocapsule.Capsule.Backend.{KernelError, spawn_failed, cleanup_failed, invalid_state}
use zeptocapsule.Capsule.Report.{CapsuleReport}
use zeptocapsule.Egress.Types.{EgressPolicy, EgressDecision}
use zeptocapsule.Egress.Start.{EgressRuntime, gated}
use zeptocapsule.Guest.Control.{I32}
pub mod Merged
pub mod Started
pub mod Reaped
pub mod Destroyed
mod Tests

-- how a process ended
pub record ExitStatus : Type 0 where
  pub code : Option I32
  pub signal : Option I32

-- a started process: its id, and whether the ends of its streams are there
pub record Child : Type 0 where
  pub pid : Option ℕ
  pub stdin : Bool
  pub stdout : Bool
  pub stderr : Bool

-- The lock of the state is never poisoned here, and the start time is not modelled.
pub record ProcessCapsule : Type 0 where
  pub spec : CapsuleSpec
  pub child : Option (Option ℕ)
  pub exit_code : Option I32
  pub exit_signal : Option I32
  pub killed_by : Option ResourceViolation
  pub timeout_cancel : Bool
  pub egress : Option (EgressRuntime (Unit {0}))

abbrev pub free : CapsuleSpec → Option (EgressRuntime (Unit {0})) → ProcessCapsule
free spec egress = record {
  spec = spec;
  child = none;
  exit_code = none;
  exit_signal = none;
  killed_by = none;
  timeout_cancel = false;
  egress = egress;
}

-- `start` is `start_egress`
unfoldable pub new :
    {E : Type 0} {A : E → Type 0}
    → (EgressPolicy → Program E A KernelError (EgressRuntime (Unit {0})))
    → CapsuleSpec
    → Program E A KernelError ProcessCapsule
new start spec = gated start spec.egress >>= λ egress. ret (free spec egress)

-- `start` has the words of the command, its environment and the limits that are set before it runs;
-- `drop_child` is the end of the child's handle, which kills a process that runs.
pub data Sys : Type 0 where
  start : List Str → List (Str × Str) → Option RLimits → Sys
  drop_child : Sys
  start_watchdog : ℕ → Sys
  stop_watchdog : Sys
  send_signal : (pid number : ℕ) → Sys
  try_wait : Sys
  sleep_ms : ℕ → Sys
  drain_audit_log shutdown_proxy : Sys
  remove_file : Str → Sys

abbrev pub Ans : Sys → Type 0
Ans (start args env limits) = Result Str Child
Ans drop_child = Unit {0}
Ans (start_watchdog secs) = Unit {0}
Ans stop_watchdog = Unit {0}
Ans (send_signal pid number) = Unit {0}
Ans try_wait = Result Str (Option ExitStatus)
Ans (sleep_ms n) = Unit {0}
Ans drain_audit_log = List EgressDecision
Ans shutdown_proxy = Unit {0}
Ans (remove_file path) = Result Str (Unit {0})

abbrev pub M : Type 0 → Type 0
M A = Program Sys Ans KernelError A

unfoldable pub signal_number : Signal → ℕ
signal_number terminate = 15
signal_number kill = 9

-- `cmd.env(k, v)`: a later value replaces an earlier one
unfoldable pub set_env : Str → Str → List (Str × Str) → List (Str × Str)
set_env k v [] = (k, v) ∷ []
set_env k v ((j, w) ∷ env) =
    let rest = set_env k v env in if str_eq k j then (j, v) ∷ env else (j, w) ∷ rest

unfoldable pub set_all : List (Str × Str) → List (Str × Str) → List (Str × Str)
set_all env [] = env
set_all env ((k, v) ∷ more) = set_all (set_env k v env) more

abbrev pub egress_env : Option (EgressRuntime (Unit {0})) → List (Str × Str)
egress_env none = []
egress_env (some e) = e.env

abbrev pub limits_of : CapsuleSpec → SecurityProfile → Option RLimits
limits_of spec dev = some (from spec.limits)
limits_of spec standard = none
limits_of spec hardened = none

abbrev pub captured : Str → Str → Bool → M (Unit {0})
captured what binary true = ret tt
captured what binary false =
    raise (spawn_failed (codes "failed to capture " ++ what ++ codes " for " ++ binary))

abbrev pub started_or : Str → Result Str Child → M Child
started_or binary (ok c) = ret c
started_or binary (err e) =
    raise (spawn_failed (codes "failed to spawn " ++ binary ++ codes ": " ++ e))

abbrev pub pid_or : Str → Option ℕ → M ℕ
pid_or binary (some pid) = ret pid
pid_or binary none =
    raise (spawn_failed (codes "spawned process " ++ binary ++ codes " missing pid"))

-- the child's id and streams; a child without them is dropped
unfoldable pub take_streams : Str → Child → M ℕ
take_streams binary c = on_error (ask drop_child) (do
  pid ← pid_or binary c.pid
  captured (codes "stdin") binary c.stdin
  captured (codes "stdout") binary c.stdout
  captured (codes "stderr") binary c.stderr
  ret pid)

abbrev pub install_timeout_watchdog : ℕ → M (Unit {0})
install_timeout_watchdog secs = if ltb 0 secs then ask (start_watchdog secs) else ret tt

-- of a capsule without a child
abbrev pub spawn_free : ProcessCapsule → Str → List Str → List (Str × Str) → M (ProcessCapsule × ℕ)
spawn_free h binary args env = do
  result ← ask (
      start (binary ∷ args) (set_all (set_all [] (egress_env h.egress)) env)
        (limits_of h.spec h.spec.security))
  c ← started_or binary result
  pid ← take_streams binary c
  install_timeout_watchdog h.spec.limits.timeout_sec
  ret (record h { child = some (some pid); timeout_cancel = ltb 0 h.spec.limits.timeout_sec }, pid)

unfoldable pub spawn : ProcessCapsule → Str → List Str → List (Str × Str) → M (ProcessCapsule × ℕ)
spawn h binary args env = elim h.child [
  | some c ↦ raise (invalid_state (codes "capsule already has a running child"))
  | none ↦ spawn_free h binary args env
]

abbrev pub signalled : Option (Option ℕ) → Signal → M (Unit {0})
signalled none signal = raise (invalid_state (codes "capsule has no child to kill"))
signalled (some none) signal = raise (invalid_state (codes "capsule has no child to kill"))
signalled (some (some pid)) signal = ask (send_signal pid (signal_number signal))

unfoldable pub kill_process : ProcessCapsule → Signal → M (Unit {0})
kill_process h signal = signalled h.child signal

abbrev pub inspected : Result Str (Option ExitStatus) → M (Option ExitStatus)
inspected (ok status) = ret status
inspected (err e) = raise (cleanup_failed (codes "failed to inspect child status: " ++ e))

-- a status, or what is done for a process that runs
abbrev pub or_else : M (Option ExitStatus) → Option ExitStatus → M (Option ExitStatus)
or_else rest (some s) = ret (some s)
or_else rest none = rest

-- the rounds that wait for a process that was killed
unfoldable pub poll : ℕ → M (Option ExitStatus)
poll zero = ret none
poll (suc rounds) = do
  answer ← ask try_wait
  status ← inspected answer
  or_else (ask (sleep_ms 25) >> poll rounds) status

abbrev pub or_zero : Option ℕ → ℕ
or_zero none = 0
or_zero (some pid) = pid

-- A process that runs is killed and waited for, in 20 rounds.
unfoldable pub reap : Option ℕ → M (Option ExitStatus)
reap pid = do
  answer ← ask try_wait
  status ← inspected answer
  or_else (ask (send_signal (or_zero pid) 9) >> poll 20) status

-- the child is dropped, whatever the end
abbrev pub reap_child : Option (Option ℕ) → M (Option ExitStatus)
reap_child none = ret none
reap_child (some pid) = on_error (ask drop_child) (reap pid) >>= λ s. ask drop_child >> ret s

unfoldable pub take_egress : Option (EgressRuntime (Unit {0})) → M (List EgressDecision)
take_egress none = ret []
take_egress (some e) = do
  log ← ask drain_audit_log
  ask shutdown_proxy
  ask (remove_file e.ca_cert_path)
  ret log

-- the exit code and the signal: those of the status, if there is one
unfoldable pub exit_of : ProcessCapsule → Option ExitStatus → Option I32 × Option I32
exit_of h none = (h.exit_code, h.exit_signal)
exit_of h (some s) = (s.code, s.signal)

abbrev pub stopped : Bool → M (Unit {0})
stopped false = ret tt
stopped true = ask stop_watchdog

-- A handle of the proxy that is dropped shuts it down.
abbrev pub drop_proxy : Option (EgressRuntime (Unit {0})) → M (Unit {0})
drop_proxy none = ret tt
drop_proxy (some e) = ask shutdown_proxy

-- The handle is dropped where the child cannot be inspected, and the proxy with it.
unfoldable pub destroy : ProcessCapsule → M CapsuleReport
destroy h = do
  stopped h.timeout_cancel
  status ← on_error (drop_proxy h.egress) (reap_child h.child)
  log ← take_egress h.egress
  ret (record {
    exit_code = (exit_of h status).0;
    exit_signal = (exit_of h status).1;
    killed_by = h.killed_by;
    peak_memory_mib = none;
    init_error = none;
    actual_isolation = some process;
    actual_security = some dev;
    egress_log = log;
  })
