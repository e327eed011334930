-- ===== src/Guest/Config/Parsed.antt =====
-- The init of a namespace reads the configuration that the host has put into its environment.
use zeptocapsule.Common.{false, Option, none, some, List, [], ◌∷◌, ◌++◌, ◌≡◌, refl, ◌∙◌, arith}
use zeptocapsule.Common.Result.{ok}
use zeptocapsule.Text.{Str, codes, str_eq, decimal}
use zeptocapsule.Capsule.{CapsuleSpec, SecurityProfile, dev, standard, hardened}
use zeptocapsule.Namespace.Clone.{init_env, size_mib_or}
use zeptocapsule.Guest.Config.{
  MountConfig, default_mounts, read_variable, read_variables, init_command_from_parts,
}

abbrev pub host_key : Str
host_key = codes "ZK_INIT_WORKSPACE_HOST_PATH"

-- no pair with the key
abbrev pub LacksKey : Str → List (Str × Str) → Type 0
LacksKey key [] = Unit {0}
LacksKey key ((k, v) ∷ env) = (str_eq k key ≡ false) × LacksKey key env

read_variables-append :
    (c : MountConfig) (env more : List (Str × Str))
    → read_variables c (env ++ more) ≡ read_variables (read_variables c env) more
unfolding read_variables
read_variables-append c [] more = refl
read_variables-append c (variable ∷ env) more =
    read_variables-append (read_variable c variable) env more

-- Other variables leave the host's path alone.
read_variable_other :
    (c : MountConfig) (k v : Str)
    → str_eq k host_key ≡ false
    → (read_variable c (k, v)).host_workspace_path ≡ c.host_workspace_path
unfolding read_variable
read_variable_other c k v h = ground (arith, h)

read_variables_other :
    (c : MountConfig) (env : List (Str × Str))
    → LacksKey host_key env
    → (read_variables c env).host_workspace_path ≡ c.host_workspace_path
unfolding read_variables
read_variables_other c [] h = refl
read_variables_other c ((k, v) ∷ env) (h, hs) =
    read_variables_other (read_variable c (k, v)) env hs ∙ read_variable_other c k v h

-- what the init is to mount for the spec
abbrev pub mounts_of : CapsuleSpec → MountConfig
mounts_of spec = record {
  tmp_size = codes "64m";
  workspace_size = decimal (size_mib_or spec.workspace.size_mib) ++ codes "m";
  host_workspace_path = spec.workspace.host_path;
  workspace_path = spec.workspace.guest_path;
}

abbrev pushed : CapsuleSpec → Option Str → SecurityProfile → List (Str × Str)
pushed spec host profile =
    init_env
      (record spec { workspace = record spec.workspace { host_path = host }; security = profile })

read_pushed :
    (c : MountConfig) (spec : CapsuleSpec) (host : Option Str) (profile : SecurityProfile)
    → c.host_workspace_path ≡ none
    → read_variables c (pushed spec host profile)
      ≡ record (mounts_of spec) { host_workspace_path = host }
unfolding read_variables read_variable init_env str_eq
read_pushed c spec none dev h = rw h refl
read_pushed c spec none standard h = rw h refl
read_pushed c spec none hardened h = rw h refl
read_pushed c spec (some host) dev h = refl
read_pushed c spec (some host) standard h = refl
read_pushed c spec (some host) hardened h = refl

-- Of the words and the environment that the host gives the init of a namespace, the init reads the worker,
-- its arguments and the mounts of the spec, whatever other variables the caller has set, provided that it
-- has not set the variable of the host's path.
pub init_command_from_parts-init_env :
    (spec : CapsuleSpec) (init worker : Str) (args : List Str) (env : List (Str × Str))
    → LacksKey host_key env
    → init_command_from_parts (init ∷ worker ∷ args) (env ++ init_env spec)
      ≡ ok (mounts_of spec, worker, args)
unfolding init_command_from_parts
init_command_from_parts-init_env spec init worker args env h =
    rw (read_variables-append default_mounts env (init_env spec)) (
      rw
        (read_pushed (read_variables default_mounts env) spec spec.workspace.host_path spec.security
          (read_variables_other default_mounts env h))
        refl)
