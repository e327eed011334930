-- ===== src/Firecracker/Machine.antt =====
-- What is seen of a run of the Firecracker backend: the process, the requests to it, and the mounts.
use zeptocapsule.Common.{ℕ, Bool, true, false, List, [], ◌∷◌, ◌++◌, if◌then◌else◌}
use zeptocapsule.Common.Result.{ok, err}
use zeptocapsule.Text.{Str, codes, str_eq}
use zeptocapsule.Text.Utf8.{Bytes}
use zeptocapsule.Firecracker.System.{
  Io, Output, Exchange, Sys, Ans, command, read_control_line, start_firecracker, api_exchange,
  kill_vm, wait_vm,
}

pub data VmState : Type 0 where
  absent running killed gone : VmState

-- `requests` are the requests with the sockets that they were sent to, and `answers` what came of each;
-- `heard` is the latest line of the control channel. `mounted` are the mount points on which an image was mounted, `unmounted` those on which `umount` was run.
pub record Machine : Type 0 where
  pub vm : VmState
  pub requests : List (Str × Str)
  pub answers : List Exchange
  pub heard : Bytes
  pub mounted : List Str
  pub unmounted : List Str

abbrev pub succeeded : Io Output → Bool
succeeded (ok out) = out.success
succeeded (err e) = false

abbrev pub with_mount : Bool → Str → Machine → Machine
with_mount true point m = record m { mounted = point ∷ m.mounted }
with_mount false point m = m

-- what a command does, by its words
unfoldable pub after_command : List Str → Bool → Machine → Machine
unfolding str_eq
after_command (cmd ∷ point ∷ []) success m =
    if str_eq cmd (codes "umount") then record m { unmounted = point ∷ m.unmounted } else m
after_command (cmd ∷ o ∷ loop ∷ image ∷ point ∷ []) success m =
    if str_eq cmd (codes "mount") then with_mount success point m else m
after_command args success m = m

abbrev begun : Io ℕ → VmState → VmState
begun (ok pid) vm = running
begun (err e) vm = vm

abbrev pub struck : VmState → VmState
struck running = killed
struck absent = absent
struck killed = killed
struck gone = gone

abbrev pub reaped : VmState → VmState
reaped killed = gone
reaped absent = absent
reaped running = running
reaped gone = gone

abbrev latest : Io Bytes → Bytes → Bytes
latest (ok line) old = line
latest (err e) old = old

-- `kill` fails only for a process that has ended.
unfoldable pub see : (e : Sys) → Ans e → Machine → Machine
unfolding after_command
see (command args) r m = after_command args (succeeded r) m
see (start_firecracker args) r m = record m { vm = begun r m.vm }
see (api_exchange socket request) x m = record m {
  requests = m.requests ++ (socket, request) ∷ [];
  answers = m.answers ++ x ∷ [];
}
see read_control_line r m = record m { heard = latest r m.heard }
see kill_vm r m = record m { vm = struck m.vm }
see wait_vm r m = record m { vm = reaped m.vm }
see e r m = m
