-- ===== src/Firecracker/Create.antt =====
-- src/firecracker.rs: `create` of the backend, and the threads that watch a guest.
use zeptocapsule.Common.{
  ℕ, Bool, true, false, ◌||◌, ◌&&◌, not, Option, none, some, List, [], ◌∷◌, ◌++◌, if◌then◌else◌,
}
use zeptocapsule.Common.Result.{ok, err}
use zeptocapsule.Common.Program.{ret, raise, ask, ◌>>=◌, ◌>>◌}
use zeptocapsule.Text.{Str, codes, decimal}
use zeptocapsule.Text.Path.{join}
use zeptocapsule.Capsule.{CapsuleSpec, FirecrackerConfig, ResourceViolation, wall_clock}
use zeptocapsule.Capsule.Backend.{spawn_failed, not_supported}
use zeptocapsule.Egress.Types.{EgressPolicy}
use zeptocapsule.Egress.Start.{gated}
use zeptocapsule.Guest.Control.{ControlStatus, exited, signaled, unknown, parse_exit_status}
use zeptocapsule.Firecracker.System.{M, Io, create_dir_all}
use zeptocapsule.Firecracker.Images.{or_fail}
use zeptocapsule.Firecracker.Handle.{FcEgressRuntime, FirecrackerCapsule}
use zeptocapsule.Firecracker.Destroy.{validate_prerequisites}

abbrev pub state_id : (pid millis count : ℕ) → Str
state_id pid millis count =
    codes "zk-fc-" ++ decimal pid ++ codes "-" ++ decimal millis ++ codes "-" ++ decimal count

-- by the process's id, the time, the counter and the directory for temporary files
unfoldable pub create_state_dir : (pid millis count : ℕ) → Str → M Str
create_state_dir pid millis count temp = do
  let dir = join temp (state_id pid millis count)
  made ← ask (create_dir_all dir)
  or_fail spawn_failed (codes "create state_dir") made
  ret dir

abbrev pub config_or : Option FirecrackerConfig → M FirecrackerConfig
config_or (some config) = ret config
config_or none = raise (not_supported (codes "Firecracker isolation requires firecracker config"))

abbrev pub free :
    CapsuleSpec → FirecrackerConfig → Str → Option FcEgressRuntime → FirecrackerCapsule
free spec config dir egress = record {
  spec = spec;
  config = config;
  state_dir = dir;
  fc_process = none;
  control_write_fd = false;
  control_status = none;
  worker_exited = false;
  killed_by = none;
  timeout_cancel = false;
  egress = egress;
}

-- `state_dir` is `create_state_dir`, and `start` is `start_fc_egress`.
unfoldable pub create :
    M Str → (EgressPolicy → M FcEgressRuntime) → CapsuleSpec → M FirecrackerCapsule
create state_dir start spec = do
  config ← config_or spec.firecracker
  validate_prerequisites config
  dir ← state_dir
  egress ← gated start spec.egress
  ret (free spec config dir egress)

abbrev pub or_status : ControlStatus → Option ControlStatus → Option ControlStatus
or_status unknown rest = rest
or_status (exited code) rest = some (exited code)
or_status (signaled signal) rest = some (signaled signal)

-- The thread that reads the control channel, by what its reads return until one is empty: the first
-- status that is no other line is kept, and the worker has exited.
unfoldable pub read_status : List (Io Str) → Option ControlStatus
read_status [] = none
read_status (err e ∷ reads) = none
read_status (ok [] ∷ reads) = none
read_status (ok (c ∷ line) ∷ reads) = or_status (parse_exit_status (c ∷ line)) (read_status reads)

-- The timer's loop ends in a round that sees the cancel, the worker's exit or the deadline.
unfoldable pub timer_ends : (cancelled done past : Bool) → Bool
timer_ends cancelled done past = cancelled || done || past

-- Behind the loop: what `killed_by` becomes, and whether the process is killed.
unfoldable pub timed_out :
    (past done : Bool) → Option ResourceViolation → Option ResourceViolation × Bool
timed_out past done killed_by =
    if past && not done then (some wall_clock, true) else (killed_by, false)
