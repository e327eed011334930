-- ===== src/Namespace/Child.antt =====
-- src/namespace.rs: `child_main`, what the cloned child does up to `execve`.
pub mod Confined
pub mod Sandboxed
use zeptocapsule.Common.{
  ℕ, zero, suc, ◌-◌, Bool, true, false, Option, none, some, List, [], ◌∷◌, ◌++◌, map, if◌then◌else◌,
  String,
}
use zeptocapsule.Common.Result.{Result, ok, err}
use zeptocapsule.Common.Program.{ret, raise, ask, attempt, map_err, ◌>>=◌, ◌>>◌, on_error}
use zeptocapsule.Text.{Str, codes, decimal}
use zeptocapsule.Text.Path.{join}
use zeptocapsule.Seccomp.{build_seccomp_filter, prog_of}
use zeptocapsule.Guest.{env_entry}
use zeptocapsule.Rootfs.{or_raise, c_string}
use zeptocapsule.Rootfs.Pivot.{setup_and_pivot}
use zeptocapsule.Rootfs.System.{
  process_id, close, copy, chmod, create_dir_all, set_cloexec, seccomp, drop_capability, dup2,
  read_sync_byte, set_no_new_privs, write_diag, Call, M, execve,
}
use zeptocapsule.Namespace.System.{sync, ChildArgs, reading, writing, stdin, stdout, stderr}

-- `install_seccomp_filter` as the child runs it
unfoldable pub install_filter : (String → ℕ) → Bool → M (Unit {0})
install_filter libc is_x86_64 = do
  privs ← ask set_no_new_privs
  or_raise (codes "PR_SET_NO_NEW_PRIVS failed: ") privs
  installed ← ask (seccomp (prog_of (build_seccomp_filter libc is_x86_64)))
  or_raise (codes "seccomp install failed: ") installed

-- the capabilities from `from` on, `count` of them
unfoldable pub drop_capabilities : ℕ → ℕ → M (Unit {0})
drop_capabilities from zero = ret tt
drop_capabilities from (suc count) =
    ask (drop_capability from) >> drop_capabilities (suc from) count

-- `CString::new(s)`, with a fixed text for its error
abbrev pub or_text : {A : Type 0} → Str → Result Str A → M A
or_text text (ok a) = ret a
or_text text (err e) = raise text

-- the root and the rights of a Hardened child; its init binary is then at /zk-init
unfoldable pub sandbox : (String → ℕ) → Bool → ChildArgs → M Str
unfolding drop_capabilities install_filter
sandbox libc is_x86_64 args = do
  id ← ask process_id
  let new_root = codes "/tmp/zk-rootfs-" ++ decimal id
  let staged = join new_root (codes "zk-init")
  made ← ask (create_dir_all new_root)
  or_raise (codes "rootfs: mkdir " ++ new_root ++ codes ": ") made
  copied ← ask (copy args.init_binary staged)
  or_raise (codes "rootfs: copy zk-init: ") copied
  ask (chmod staged 493)
  map_err (λ e. codes "rootfs: pivot: " ++ e)
      (setup_and_pivot new_root args.workspace args.workspace_host)
  drop_capabilities 0 41
  map_err (λ e. codes "seccomp: " ++ e) (install_filter libc is_x86_64)
  ret (codes "/zk-init")

-- the first error, or both values
abbrev pub both : Result Str Str → Result Str (List Str) → Result Str (List Str)
both (err e) cs = err e
both (ok c) (err e) = err e
both (ok c) (ok cs) = ok (c ∷ cs)

-- the texts as C strings, or the error of the first that has a zero
unfoldable pub c_strings : List Str → Result Str (List Str)
unfolding c_string
c_strings [] = ok []
c_strings (s ∷ rest) = both (c_string s) (c_strings rest)

abbrev if_ok : Result Str Str → List Str → List Str
if_ok (ok c) cs = c ∷ cs
if_ok (err e) cs = cs

-- an entry with a zero is left out
unfoldable pub env_c_strings : List (Str × Str) → List Str
unfolding c_string
env_c_strings [] = []
env_c_strings (entry ∷ env) = if_ok (c_string (env_entry entry)) (env_c_strings env)

-- `execve` comes back only on an error.
abbrev pub start_init : ChildArgs → (path init worker : Str) → List Str → M (Unit {0})
start_init args path init worker rest = do
  error ← ask (execve init (init ∷ worker ∷ rest) (env_c_strings args.env))
  raise (codes "execve " ++ path ++ codes ": " ++ error)

abbrev pub with_worker : ChildArgs → (path init worker : Str) → M (Unit {0})
with_worker args path init worker =
    or_text (codes "worker arg contains NUL") (c_strings args.worker_args)
    >>= start_init args path init worker

abbrev pub with_init : ChildArgs → (path init : Str) → M (Unit {0})
with_init args path init =
    or_text (codes "worker binary path contains NUL") (c_string args.worker_binary)
    >>= with_worker args path init

-- the last steps, from the conversion of the texts on
unfoldable pub execute : ChildArgs → Str → M (Unit {0})
execute args path =
    or_text (codes "init binary path contains NUL") (c_string path) >>= with_init args path

-- the streams are put on descriptors 0, 1 and 2
unfoldable pub take_streams : M (Unit {0})
take_streams = do
  ask (dup2 (reading stdin) 0)
  ask (dup2 (writing stdout) 1)
  ask (dup2 (writing stderr) 2)
  ask (close (reading stdin))
  ask (close (writing stdout))
  ask (close (writing stderr))
  ret tt

abbrev init_of : (String → ℕ) → Bool → ChildArgs → Bool → M Str
init_of libc is_x86_64 args true = sandbox libc is_x86_64 args
init_of libc is_x86_64 args false = ret args.init_binary

unfoldable pub child_body : (String → ℕ) → Bool → ChildArgs → M (Unit {0})
unfolding take_streams sandbox execute
child_body libc is_x86_64 args = do
  ask read_sync_byte
  ask (close (reading sync))
  ask set_cloexec
  take_streams
  path ← init_of libc is_x86_64 args args.hardened
  execute args path

-- `child_bail`
abbrev pub bail : Result Str (Unit {0}) → M (Unit {0})
bail (ok t) = ret tt
bail (err text) = ask (write_diag text)

-- It comes back, with -1, only where the init binary has not been started.
unfoldable pub child_main : (String → ℕ) → Bool → ChildArgs → M (Unit {0})
unfolding child_body
child_main libc is_x86_64 args = attempt (child_body libc is_x86_64 args) >>= bail
