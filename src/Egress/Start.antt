-- ===== src/Egress/Start.antt =====
-- src/process.rs, src/namespace.rs and src/firecracker.rs: a backend starts the gate of a capsule.
use zeptocapsule.Common.{ℕ, Bool, Option, none, some, List, [], ◌∷◌, ◌++◌}
use zeptocapsule.Common.Result.{Result, ok, err}
use zeptocapsule.Common.Program.{on_error, Program, ret, raise, ask, ◌>>=◌, ◌>>◌}
use zeptocapsule.Text.{Str, codes, decimal}
use zeptocapsule.Text.Path.{join}
use zeptocapsule.Capsule.Backend.{KernelError, spawn_failed, invalid_state}
use zeptocapsule.Egress.Types.{EgressAction, EgressPolicy, JudgeConfig}
use zeptocapsule.Egress.Rules.{
  Globset, CompileError, host_glob, path_glob, CompiledPolicy, Compiled, compile,
}
use zeptocapsule.Egress.Judge.{missing_api_key, display}
use zeptocapsule.Egress.Veth.{VethSetup, show_ip}
use zeptocapsule.Egress.Tap.{TapSetup}
pub mod Undone
mod Tests

-- A judge is its configuration and its key; the certificate authority stays with the system.
pub record ProxyConfig (M : Type 0) : Type 0 where
  pub policy : CompiledPolicy M
  pub block_private_networks : Bool
  pub default_action : EgressAction
  pub judge : Option (JudgeConfig × Str)

-- the runtime of a capsule: its device, if the backend has one, the file of its certificate, and the
-- environment of the worker
pub record EgressRuntime (D : Type 0) : Type 0 where
  pub device : D
  pub ca_cert_path : Str
  pub env : List (Str × Str)

-- the gate of a capsule whose spec has a policy; `start` is the backend's
abbrev pub gated :
    {E : Type 0} {A : E → Type 0} {R : Type 0}
    → (EgressPolicy → Program E A KernelError R)
    → Option EgressPolicy
    → Program E A KernelError (Option R)
gated start none = ret none
gated start (some policy) = start policy >>= λ e. ret (some e)

-- `spawn_on` is told the address that the proxy is bound to, at a port that the system chooses, and
-- answers the address with that port; `shut_down` also stands for the end of a handle that is dropped.
-- A device's error is its text.
pub data Start (D M : Type 0) : Type 0 where
  generate_ca : Start D M
  env_var : Str → Start D M
  set_up : Start D M
  tear_down : D → Start D M
  spawn_on : Str → ProxyConfig M → Start D M
  shut_down : Start D M
  temp_dir nanos process_id : Start D M
  write_file : (path contents : Str) → Start D M
  chmod : Str → ℕ → Start D M

abbrev pub Ans : {D M : Type 0} → Start D M → Type 0
Ans generate_ca = Result Str Str
Ans (env_var name) = Option Str
Ans {D = D} set_up = Result Str D
Ans (tear_down d) = Unit {0}
Ans (spawn_on ip config) = Result Str Str
Ans shut_down = Unit {0}
Ans temp_dir = Str
Ans nanos = ℕ
Ans process_id = ℕ
Ans (write_file path contents) = Result Str (Unit {0})
Ans (chmod path mode) = Result Str (Unit {0})

abbrev pub S : (D M A : Type 0) → Type 0
S D M A = Program (Start D M) Ans KernelError A

module _ {D M : Type 0} where
  abbrev pub or_say : {A : Type 0} → (Str → KernelError) → Str → Result Str A → S D M A
  or_say kind what (ok a) = ret a
  or_say kind what (err e) = raise (kind (what ++ codes ": " ++ e))

  -- `JudgeClient::new` of the policy's judge
  unfoldable pub judge_of : Option JudgeConfig → S D M (Option (JudgeConfig × Str))
  judge_of none = ret none
  judge_of (some c) = do
    key ← ask (env_var c.api_key_env)
    elim key [
      | some k ↦ ret (some (c, k))
      | none ↦ raise (
          invalid_state
            (codes "egress judge init failed: " ++ display (missing_api_key c.api_key_env)))
    ]

  -- the file's name begins with `prefix`, and `what` is what its error calls it
  unfoldable pub write_ca_cert_temp : (prefix what pem : Str) → S D M Str
  write_ca_cert_temp prefix what pem = do
    dir ← ask temp_dir
    n ← ask nanos
    pid ← ask process_id
    let path = join dir (prefix ++ decimal pid ++ codes "-" ++ decimal n ++ codes ".pem")
    written ← ask (write_file path pem)
    or_say spawn_failed (codes "write " ++ what) written
    ask (chmod path 384)
    ret path

-- the proxy's URL and the certificate, under the names that clients read
unfoldable pub worker_env : (url cert : Str) → List (Str × Str)
worker_env url cert =
    (codes "HTTP_PROXY", url)
    ∷ (codes "http_proxy", url)
    ∷ (codes "HTTPS_PROXY", url)
    ∷ (codes "https_proxy", url)
    ∷ (codes "ALL_PROXY", url)
    ∷ (codes "all_proxy", url)
    ∷ (codes "SSL_CERT_FILE", cert)
    ∷ (codes "REQUESTS_CA_BUNDLE", cert)
    ∷ (codes "NODE_EXTRA_CA_CERTS", cert)
    ∷ (codes "CURL_CA_BUNDLE", cert)
    ∷ []

-- what a backend has of its own: the address that the proxy is bound to and what its error says, the name
-- of the certificate's file, and what the guest is told of the device
pub record Kind (D : Type 0) : Type 0 where
  pub bind_ip : D → Str
  pub bind_error : D → Str
  pub prefix : Str
  pub what : Str
  pub hints : D → List (Str × Str)

abbrev pub veth_kind : Kind VethSetup
veth_kind = record {
  bind_ip = λ d. show_ip d.host_ip;
  bind_error = λ d. codes "egress proxy bind on " ++ show_ip d.host_ip ++ codes ":0 failed";
  prefix = codes "zk-egress-ca-";
  what = codes "CA temp file";
  hints = λ d. [];
}

-- The guest's init reads the hints.
abbrev pub tap_kind : Kind TapSetup
tap_kind = record {
  bind_ip = λ d. show_ip d.host_ip;
  bind_error = λ d. codes "egress proxy bind on " ++ show_ip d.host_ip ++ codes ":0 failed";
  prefix = codes "zk-egress-fc-ca-";
  what = codes "FC CA temp file";
  hints = λ d.
      (codes "ZK_FC_GUEST_IP", show_ip d.guest_ip ++ codes "/" ++ decimal d.prefix_len)
      ∷ (codes "ZK_FC_HOST_IP", show_ip d.host_ip)
      ∷ (codes "ZK_FC_GUEST_IFACE", codes "eth0")
      ∷ [];
}

-- The text of an error of the compiler of globs is a parameter.
module _ {M E : Type 0} (g : Globset M E) (cause : E → Str) where
  unfoldable pub compile_message : CompileError E → Str
  compile_message (host_glob id pattern e) =
      codes "rule '" ++ id ++ codes "': invalid host glob '" ++ pattern ++ codes "': " ++ cause e
  compile_message (path_glob id pattern e) =
      codes "rule '" ++ id ++ codes "': invalid path glob '" ++ pattern ++ codes "': " ++ cause e

  abbrev pub compiled_or : {D : Type 0} → Compiled E (CompiledPolicy M) → S D M (CompiledPolicy M)
  compiled_or (ok p) = ret p
  compiled_or (err e) =
      raise (invalid_state (codes "egress policy compile failed: " ++ compile_message e))

  -- an error behind the setup of the device, which is undone
  abbrev pub or_undo : {D A : Type 0} → S D M (Unit {0}) → Result KernelError A → S D M A
  or_undo undo (ok a) = ret a
  or_undo undo (err e) = undo >> raise e

  abbrev pub bound : Str → Result Str Str → Result KernelError Str
  bound what (ok addr) = ok addr
  bound what (err e) = err (spawn_failed (what ++ codes ": " ++ e))

  -- what is started behind the device
  unfoldable pub serve :
      {D : Type 0} → Kind D → ProxyConfig M → (pem : Str) → D → S D M (EgressRuntime D)
  serve k config pem d = do
    answer ← ask (spawn_on (k.bind_ip d) config)
    addr ← or_undo (ask (tear_down d)) (bound (k.bind_error d) answer)
    path ← on_error (ask shut_down >> ask (tear_down d)) (write_ca_cert_temp k.prefix k.what pem)
    ret (record {
      device = d;
      ca_cert_path = path;
      env = worker_env (codes "http://" ++ addr) path ++ k.hints d;
    })

  abbrev pub start : {D : Type 0} → (device : Str) → Kind D → EgressPolicy → S D M (EgressRuntime D)
  start device k policy = do
    compiled ← compiled_or (compile g policy)
    made ← ask generate_ca
    pem ← or_say spawn_failed (codes "egress CA generation failed") made
    judge ← judge_of policy.judge
    prepared ← ask set_up
    d ← or_say spawn_failed (codes "egress " ++ device ++ codes " setup failed") prepared
    serve k
        (record {
          policy = compiled;
          block_private_networks = policy.block_private_networks;
          default_action = policy.default_action;
          judge = judge;
        })
        pem d

  unfoldable pub start_ns_egress : EgressPolicy → S VethSetup M (EgressRuntime VethSetup)
  start_ns_egress policy = start (codes "veth") veth_kind policy

  unfoldable pub start_fc_egress : EgressPolicy → S TapSetup M (EgressRuntime TapSetup)
  start_fc_egress policy = start (codes "TAP") tap_kind policy

  -- of the process backend, which has no device
  unfoldable pub start_egress : EgressPolicy → S (Unit {0}) M (EgressRuntime (Unit {0}))
  start_egress policy = do
    compiled ← compiled_or (compile g policy)
    made ← ask generate_ca
    pem ← or_say spawn_failed (codes "egress CA generation failed") made
    judge ← judge_of policy.judge
    answer ← ask (
        spawn_on (codes "127.0.0.1") (record {
          policy = compiled;
          block_private_networks = policy.block_private_networks;
          default_action = policy.default_action;
          judge = judge;
        }))
    addr ← or_say spawn_failed (codes "egress proxy bind failed") answer
    path ←
        on_error (ask shut_down)
          (write_ca_cert_temp (codes "zk-egress-ca-") (codes "CA temp file") pem)
    ret (record {
      device = tt;
      ca_cert_path = path;
      env = worker_env (codes "http://" ++ addr) path;
    })
