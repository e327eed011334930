-- ===== src/Guest/Config.antt =====
-- src/init_shim.rs: the configurations of the init, from its environment and from the staged files.
use zeptocapsule.Common.{
  ◌||◌, ℕ, Bool, true, false, Option, none, some, List, [], ◌∷◌, ◌++◌, if◌then◌else◌,
}
use zeptocapsule.Common.Result.{Result, ok, err, ok_or}
use zeptocapsule.Common.Program.{ret, raise, ask, lift, ◌>>=◌, ◌>>◌}
use zeptocapsule.Text.{Str, codes, str_eq, trim, split, split_once}
use zeptocapsule.Text.Words.{split_whitespace}
use zeptocapsule.Text.Utf8.{Bytes}
use zeptocapsule.Guest.{read_nul_delimited_strings, read_nul_delimited_key_values, pairs_of}
use zeptocapsule.Guest.System.{M, Io, exists, read, read_to_string}
pub mod Stage
pub mod Disk
pub mod Loaded
pub mod Parsed

pub record MountConfig : Type 0 where
  pub tmp_size : Str
  pub workspace_size : Str
  pub host_workspace_path : Option Str
  pub workspace_path : Str

pub record FcInitConfig : Type 0 where
  pub worker_path : Str
  pub worker_args : List Str
  pub worker_env : List (Str × Str)
  pub workspace_device : Option Str
  pub workspace_path : Str
  pub tmp_size : Str

abbrev pub default_mounts : MountConfig
default_mounts = record {
  tmp_size = codes "64m";
  workspace_size = codes "128m";
  host_workspace_path = none;
  workspace_path = codes "/workspace";
}

-- a variable of the environment that may change the configuration
unfoldable pub read_variable : MountConfig → Str × Str → MountConfig
read_variable c (key, value) =
    if str_eq key (codes "ZK_INIT_WORKSPACE_HOST_PATH")
    then record c { host_workspace_path = some value }
    else if str_eq key (codes "ZK_INIT_WORKSPACE_PATH")
    then record c { workspace_path = value }
    else if str_eq key (codes "ZK_INIT_WORKSPACE_SIZE")
    then record c { workspace_size = value }
    else if str_eq key (codes "ZK_INIT_TMP_SIZE")
    then record c { tmp_size = value }
    else c

unfoldable pub read_variables : MountConfig → List (Str × Str) → MountConfig
read_variables c [] = c
read_variables c (variable ∷ env) = read_variables (read_variable c variable) env

-- the words of the command line, without the init's own name, and the environment
unfoldable pub init_command_from_parts :
    List Str → List (Str × Str) → Result Str (MountConfig × Str × List Str)
init_command_from_parts (name ∷ worker ∷ args) env =
    ok (read_variables default_mounts env, worker, args)
init_command_from_parts (name ∷ []) env =
    err (codes "usage: zk-init <worker-binary> [worker-args...]")
init_command_from_parts [] env = err (codes "usage: zk-init <worker-binary> [worker-args...]")

unfoldable pub is_firecracker_mode : List (Str × Str) → Bool
is_firecracker_mode [] = false
is_firecracker_mode ((key, value) ∷ env) =
    str_eq key (codes "ZK_FC_MODE") || is_firecracker_mode env

-- the configuration that is parsed, with the worker's path if it was read
abbrev pub Partial : Type 0
Partial = Option Str × FcInitConfig

abbrev pub no_fc_config : Partial
no_fc_config = (
  none,
  record {
    worker_path = [];
    worker_args = [];
    worker_env = [];
    workspace_device = none;
    workspace_path = codes "/workspace";
    tmp_size = codes "64m";
  },
)

unfoldable pub read_fc_variable : Partial → Str × Str → Partial
read_fc_variable (path, c) (key, value) =
    if str_eq key (codes "ZK_FC_WORKER_PATH")
    then (some value, c)
    else if str_eq key (codes "ZK_FC_WORKER_ARGS")
    then (path, record c { worker_args = split_whitespace value })
    else if str_eq key (codes "ZK_FC_WORKER_ENV")
    then (path, record c { worker_env = pairs_of (split (codes "\n") value) })
    else if str_eq key (codes "ZK_FC_WORKSPACE_DEVICE")
    then (path, record c { workspace_device = some value })
    else if str_eq key (codes "ZK_FC_WORKSPACE_PATH")
    then (path, record c { workspace_path = value })
    else if str_eq key (codes "ZK_FC_TMP_SIZE")
    then (path, record c { tmp_size = value })
    else (path, c)

unfoldable pub read_fc_variables : Partial → List (Str × Str) → Partial
read_fc_variables p [] = p
read_fc_variables p (variable ∷ env) = read_fc_variables (read_fc_variable p variable) env

abbrev pub with_path : Partial → Result Str FcInitConfig
with_path (some path, c) = ok (record c { worker_path = path })
with_path (none, c) = err (codes "ZK_FC_WORKER_PATH is required in Firecracker mode")

unfoldable pub parse_fc_init_config : List (Str × Str) → Result Str FcInitConfig
parse_fc_init_config env = with_path (read_fc_variables no_fc_config env)

abbrev pub stage_file : Str → Str
stage_file name = codes "/run/zeptocapsule/" ++ name

-- `map_err(|e| format!("{what}: {e}"))?`
abbrev pub or_say : {A : Type 0} → Str → Result Str A → M A
or_say what (ok a) = ret a
or_say what (err e) = raise (what ++ (codes ": " ++ e))

abbrev pub not_empty : Str → Option Str
not_empty [] = none
not_empty (c ∷ s) = some (c ∷ s)

abbrev pub if_there : {A : Type 0} → M (Option A) → Bool → M (Option A)
if_there next false = ret none
if_there next true = next

abbrev pub trimmed_of : Str → Io Str → M (Option Str)
trimmed_of path answer = do
  content ← or_say (codes "read " ++ path) answer
  ret (not_empty (trim content))

unfoldable pub read_trimmed_file : Str → M (Option Str)
read_trimmed_file path =
    ask (exists path) >>= if_there (ask (read_to_string path) >>= trimmed_of path)

abbrev pub bytes_of : Str → Io Bytes → M (Option Bytes)
bytes_of path answer = do bytes ← or_say (codes "read " ++ path) answer; ret (some bytes)

-- the file's bytes, if there is one
unfoldable pub read_if_there : Str → M (Option Bytes)
read_if_there path = ask (exists path) >>= if_there (ask (read path) >>= bytes_of path)

abbrev pub or_text : Option Str → Str → Str
or_text none other = other
or_text (some s) other = s

-- `utf8` is the text of an error of the decoder.
unfoldable pub load_fc_init_config : Str → M FcInitConfig
load_fc_init_config utf8 = do
  let args_file = stage_file (codes "worker.args")
  let env_file = stage_file (codes "worker.env")
  worker ← read_trimmed_file (stage_file (codes "worker.path"))
  args_bytes ← read_if_there args_file
  args ← lift (
      read_nul_delimited_strings (codes "decode " ++ (args_file ++ (codes ": " ++ utf8)))
        args_bytes)
  env_bytes ← read_if_there env_file
  env ← lift (
      read_nul_delimited_key_values (codes "decode " ++ (env_file ++ (codes ": " ++ utf8)))
        env_bytes)
  device ← read_trimmed_file (stage_file (codes "workspace.device"))
  workspace ← read_trimmed_file (stage_file (codes "workspace.path"))
  size ← read_trimmed_file (stage_file (codes "tmp.size"))
  ret (record {
    worker_path = or_text worker (codes "/run/zeptocapsule/worker");
    worker_args = args;
    worker_env = env;
    workspace_device = device;
    workspace_path = or_text workspace (codes "/workspace");
    tmp_size = or_text size (codes "64m");
  })
