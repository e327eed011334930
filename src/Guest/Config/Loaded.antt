-- ===== src/Guest/Config/Loaded.antt =====
-- The guest loads the configuration that the host has staged.
use zeptocapsule.Common.{ap, ◌∙◌, ℕ, false, Option, some, List, [], ◌∷◌, ◌++◌, map, All, ◌≡◌, refl}
use zeptocapsule.Common.Result.{Result, ok, err, by_result}
use zeptocapsule.Common.Program.{lift, ret, Every, run, run-then, ◌>>=◌}
use zeptocapsule.Text.{is_whitespace, trim_end, Str, codes, str_eq, starts_with}
use zeptocapsule.Text.Path.{is_absolute}
use zeptocapsule.Text.Utf8.{Bytes, into_bytes, IsScalar, is_ascii→IsScalar}
use zeptocapsule.Capsule.Backend.{spawn_failed, KernelError}
use zeptocapsule.Firecracker.Payload.{write_stage_files}
use zeptocapsule.Process.Merged.{lookup}
use zeptocapsule.Guest.{
  read_nul_delimited_key_values, read_nul_delimited_strings, env_entry, write_nul_delimited_strings,
}
use zeptocapsule.Guest.Staging.{
  IsPlain, IsVariable, without_empty, read-write, read_key_values-write,
}
use zeptocapsule.Guest.System.{Sys, Ans, M}
use zeptocapsule.Guest.Config.{
  or_text, FcInitConfig, stage_file, read_trimmed_file, read_if_there, load_fc_init_config,
}
use zeptocapsule.Guest.Config.Disk.{
  Disk, see, boots_on, unseen, Relative, guest, read_if_there-found, read_trimmed_file-line,
}
use zeptocapsule.Guest.Config.Stage.{stage_of, IsTrimmed}

-- the files of the stage directory, by their names
abbrev staged : (worker workspace : Str) → List Str → List (Str × Str) → Disk
staged worker workspace args env =
    (codes "firecracker.mode", into_bytes (codes "1\n"))
    ∷ (codes "tmp.size", into_bytes (codes "64m\n"))
    ∷ (codes "workspace.path", into_bytes (workspace ++ codes "\n"))
    ∷ (codes "workspace.device", into_bytes (codes "/dev/vdb\n"))
    ∷ (codes "worker.env", write_nul_delimited_strings (map env_entry env))
    ∷ (codes "worker.args", write_nul_delimited_strings args)
    ∷ (codes "worker.path", into_bytes (worker ++ codes "\n"))
    ∷ []

-- `load_fc_init_config` in its parts, each with what is read after it
module _ (utf8 : Str) where
  abbrev made :
      Option Str
      → List Str
      → List (Str × Str)
      → Option Str
      → Option Str
      → Option Str
      → M FcInitConfig
  made worker args env device workspace size = ret (record {
    worker_path = or_text worker (codes "/run/zeptocapsule/worker");
    worker_args = args;
    worker_env = env;
    workspace_device = device;
    workspace_path = or_text workspace (codes "/workspace");
    tmp_size = or_text size (codes "64m");
  })

  abbrev before_size :
      Option Str → List Str → List (Str × Str) → Option Str → Option Str → M FcInitConfig
  before_size worker args env device workspace =
      read_trimmed_file (stage_file (codes "tmp.size")) >>= made worker args env device workspace

  abbrev before_workspace : Option Str → List Str → List (Str × Str) → Option Str → M FcInitConfig
  before_workspace worker args env device =
      read_trimmed_file (stage_file (codes "workspace.path")) >>= before_size worker args env device

  abbrev before_device : Option Str → List Str → List (Str × Str) → M FcInitConfig
  before_device worker args env =
      read_trimmed_file (stage_file (codes "workspace.device")) >>= before_workspace worker args env

  abbrev wrong : Str → Str
  wrong name = codes "decode " ++ (stage_file name ++ (codes ": " ++ utf8))

  abbrev env_of : Option Str → List Str → Option Bytes → M FcInitConfig
  env_of worker args bytes =
      lift (read_nul_delimited_key_values (wrong (codes "worker.env")) bytes)
      >>= before_device worker args

  abbrev before_env : Option Str → List Str → M FcInitConfig
  before_env worker args = read_if_there (stage_file (codes "worker.env")) >>= env_of worker args

  abbrev args_of : Option Str → Option Bytes → M FcInitConfig
  args_of worker bytes =
      lift (read_nul_delimited_strings (wrong (codes "worker.args")) bytes) >>= before_env worker

  abbrev before_args : Option Str → M FcInitConfig
  before_args worker = read_if_there (stage_file (codes "worker.args")) >>= args_of worker

abbrev pub loaded : (worker workspace : Str) → List Str → List (Str × Str) → FcInitConfig
loaded worker workspace args env = record {
  worker_path = worker;
  worker_args = without_empty args;
  worker_env = env;
  workspace_device = some (codes "/dev/vdb");
  workspace_path = workspace;
  tmp_size = codes "64m";
}

-- A text of one line.
abbrev pub IsLine : Str → Type 0
IsLine text = All IsScalar text × IsTrimmed text

module _ (c : ℕ) (s : Str) (other : (e : Sys) → Ans e) (utf8 worker workspace : Str)
    (args : List Str) (env : List (Str × Str)) where
  abbrev files : Disk
  files = staged worker workspace args env

  staged-Relative : Relative files
  unfolding is_absolute starts_with
  staged-Relative = (refl, (refl, (refl, (refl, (refl, (refl, (refl, tt)))))))

  abbrev image : (Unit {0}) → (e : Sys) → Ans e
  image = guest c s other files staged-Relative

  line-IsScalar : (text : Str) → All IsScalar text → All IsScalar (text ++ codes "\n")
  line-IsScalar [] h = is_ascii→IsScalar (codes "\n") refl
  line-IsScalar (c ∷ text) (h, hs) = (h, line-IsScalar text hs)

  -- a file of one line, and what is read after it
  line-then :
      (name text : Str) (next : Option Str → M FcInitConfig)
      → is_absolute name ≡ false
      → lookup name files ≡ some (into_bytes (text ++ codes "\n"))
      → IsLine text
      → run unseen image tt (read_trimmed_file (stage_file name) >>= next)
        ≡ run unseen image tt (next (some text))
  line-then name text next h found (scalar, trimmed) =
      run-then unseen image tt tt (some text) (read_trimmed_file (stage_file name)) next (
        read_trimmed_file-line c s other files staged-Relative name text h found
          (line-IsScalar text scalar) trimmed)

  file-then :
      (name : Str) (bytes : Bytes) (next : Option Bytes → M FcInitConfig)
      → is_absolute name ≡ false
      → lookup name files ≡ some bytes
      → run unseen image tt (read_if_there (stage_file name) >>= next)
        ≡ run unseen image tt (next (some bytes))
  file-then name bytes next h found =
      run-then unseen image tt tt (some bytes) (read_if_there (stage_file name)) next
        (read_if_there-found c s other files staged-Relative name bytes h found)

  load-staged :
      All IsPlain args
      → All IsVariable env
      → IsLine worker
      → IsLine workspace
      → run unseen image tt (load_fc_init_config utf8) ≡ (tt, ok (loaded worker workspace args env))
  unfolding lookup str_eq is_absolute starts_with run trim_end is_whitespace load_fc_init_config
  load-staged plain variables w ws =
      let a = without_empty args in
      let device = codes "/dev/vdb" in
      line-then (codes "worker.path") worker (before_args utf8) refl refl w
      ∙ file-then (codes "worker.args") (write_nul_delimited_strings args)
          (args_of utf8 (some worker)) refl refl
      ∙ ap (λ r. run unseen image tt (lift r >>= before_env utf8 (some worker)))
          (read-write (wrong utf8 (codes "worker.args")) args plain)
      ∙ file-then (codes "worker.env") (write_nul_delimited_strings (map env_entry env))
          (env_of utf8 (some worker) a) refl refl
      ∙ ap (λ r. run unseen image tt (lift r >>= before_device utf8 (some worker) a))
          (read_key_values-write (wrong utf8 (codes "worker.env")) env variables)
      ∙ line-then (codes "workspace.device") device (before_workspace utf8 (some worker) a env) refl
          refl (is_ascii→IsScalar device refl, (refl, refl))
      ∙ line-then (codes "workspace.path") workspace
          (before_size utf8 (some worker) a env (some device)) refl refl ws
      ∙ line-then (codes "tmp.size") (codes "64m")
          (made utf8 (some worker) a env (some device) (some workspace)) refl refl
          (is_ascii→IsScalar (codes "64m") refl, (refl, refl))

  abbrev IsSpawnFailed : KernelError → Type 0
  IsSpawnFailed (spawn_failed why) = Unit {0}
  IsSpawnFailed e = ⊥

  -- What the guest loads of an image, if the files were all written.
  abbrev pub Loads : Disk → Result KernelError (Unit {0}) → Type 0
  Loads disk (ok t) =
      run unseen (boots_on (c ∷ s) disk other) tt (load_fc_init_config utf8)
      ≡ (tt, ok (loaded worker workspace args env))
  Loads disk (err e) = IsSpawnFailed e

  -- What the guest loads of an image whose files the host has written. The worker's path and that of the workspace are lines of text without white space at their ends,
  -- no argument and no variable has a U+0000, and no name of a variable has a "=": then, if every
  -- file was written, the guest that has the image mounted loads the worker's path, the arguments
  -- without the empty ones, the environment, the workspace and its device, and a /tmp of 64 MiB,
  -- whatever else the guest's system answers; and an error of the host says which file was not written.
  pub write_stage_files-Loads :
      All IsPlain args
      → All IsVariable env
      → IsLine worker
      → IsLine workspace
      → Every see [] (write_stage_files (stage_of (c ∷ s)) worker args env workspace) Loads
  unfolding write_stage_files see
  write_stage_files-Loads plain variables w ws =
      by_result _
        (λ t.
          by_result _
            (λ t.
              by_result _
                (λ t.
                  by_result _
                    (λ t.
                      by_result _
                        (λ t.
                          by_result _
                            (λ t. by_result _ (λ t. load-staged plain variables w ws) (λ e. tt))
                            (λ e. tt))
                        (λ e. tt))
                    (λ e. tt))
                (λ e. tt))
            (λ e. tt))
        (λ e. tt)
