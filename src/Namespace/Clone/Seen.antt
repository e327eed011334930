-- ===== src/Namespace/Clone/Seen.antt =====
-- What is seen of a run of `do_clone`: descriptors, the child, and the copy of the init binary.
use zeptocapsule.Common.{ℕ, Bool, true, false, List, [], ◌∷◌, ◌++◌, ◌*◌, ◌+◌, ◌==◌, if◌then◌else◌}
use zeptocapsule.Common.Result.{Result, ok, err}
use zeptocapsule.Text.{Str}
use zeptocapsule.Egress.Veth.{NetnsError, move_guest_into_netns}
use zeptocapsule.Namespace.System.{
  Pipe, stdin, stdout, stderr, sync, diag, Fd, reading, writing, Sys, Ans, current_exe, env_var,
  process_id, next_stage, temp_dir, exists, copy, chmod, create_dir_all, remove_file, remove_dir,
  read_to_string, write_file, make_pipe, close, clone, getuid, getgid, next_capsule_id, move_guest,
  write_sync_byte, kill_child, wait_child, sleep_ms,
}

-- what has been done for the child: the files written, and whether its interface was moved
pub record Setup : Type 0 where
  pub files : List (Str × Str)
  pub moved : Bool

-- A child waits for the byte; then it goes on with what was set up. A child that is waited for after it
-- was killed is gone.
pub data Child : Type 0 where
  absent : Child
  waiting : Setup → Child
  going killed gone : Setup → Child

-- `copies` were made and `removed` are those that were tried to be removed; `unreadable`: the mode of a
-- copy could not be set.
pub record Seen : Type 0 where
  pub open_fds : List Fd
  pub copies : List Str
  pub removed : List Str
  pub unreadable : Bool
  pub child : Child

abbrev pub start : Seen
start = record { open_fds = []; copies = []; removed = []; unreadable = false; child = absent }

abbrev pub pipe_index : Pipe → ℕ
pipe_index stdin = 0
pipe_index stdout = 1
pipe_index stderr = 2
pipe_index sync = 3
pipe_index diag = 4

abbrev pub fd_index : Fd → ℕ
fd_index (reading p) = 2 * pipe_index p
fd_index (writing p) = 2 * pipe_index p + 1

abbrev pub closed : Fd → List Fd → List Fd
closed fd [] = []
closed fd (other ∷ fds) = if fd_index fd == fd_index other then fds else other ∷ closed fd fds

-- A file written, the interface moved, while the child waits.
abbrev pub with_setup : (Setup → Setup) → Child → Child
with_setup f (waiting s) = waiting (f s)
with_setup f absent = absent
with_setup f (going s) = going s
with_setup f (killed s) = killed s
with_setup f (gone s) = gone s

abbrev pub let_go : Child → Child
let_go (waiting s) = going s
let_go absent = absent
let_go (going s) = going s
let_go (killed s) = killed s
let_go (gone s) = gone s

abbrev pub struck : Child → Child
struck absent = absent
struck (waiting s) = killed s
struck (going s) = killed s
struck (killed s) = killed s
struck (gone s) = gone s

abbrev pub reaped : Child → Child
reaped (killed s) = gone s
reaped absent = absent
reaped (waiting s) = waiting s
reaped (going s) = going s
reaped (gone s) = gone s

abbrev pub written : (path contents : Str) → Setup → Setup
written path contents s = record s { files = s.files ++ (path, contents) ∷ [] }

abbrev pub moved_of : Result NetnsError (Unit {0}) → Setup → Setup
moved_of (ok t) s = record s { moved = true }
moved_of (err e) s = s

abbrev pub nothing : Setup
nothing = record { files = []; moved = false }

-- What a call and its answer change; a call that fails changes nothing.
unfoldable pub see : (e : Sys) → Ans e → Seen → Seen
see (copy from to) (ok t) w = record w { copies = to ∷ w.copies }
see (copy from to) (err x) w = w
see (remove_file path) r w = record w { removed = path ∷ w.removed }
see (make_pipe p) (ok t) w = record w { open_fds = w.open_fds ++ reading p ∷ writing p ∷ [] }
see (make_pipe p) (err x) w = w
see (close fd) r w = record w { open_fds = closed fd w.open_fds }
see (clone args) (ok pid) w = record w { child = waiting nothing }
see (clone args) (err x) w = w
see (write_file path contents) (ok t) w = record w {
  child = with_setup (written path contents) w.child;
}
see (write_file path contents) (err x) w = w
see (move_guest setup pid) env w = record w {
  child = with_setup (moved_of (move_guest_into_netns setup pid env).result) w.child;
}
see (create_dir_all path) (ok t) w = w
see (create_dir_all path) (err x) w = w
see write_sync_byte r w = record w { child = let_go w.child }
see (kill_child pid) r w = record w { child = struck w.child }
see (wait_child pid) r w = record w { child = reaped w.child }
see current_exe r w = w
see (env_var name) r w = w
see process_id r w = w
see next_stage r w = w
see temp_dir r w = w
see (exists path) r w = w
see (chmod path mode) (ok t) w = w
see (chmod path mode) (err x) w = record w { unreadable = true }
see (remove_dir path) r w = w
see (read_to_string path) r w = w
see getuid r w = w
see getgid r w = w
see next_capsule_id r w = w
see (sleep_ms n) r w = w
