-- ===== src/Egress/Start/Undone.antt =====
-- A start that fails leaves no device and no proxy.
use zeptocapsule.Common.{
  map, ◌∷◌, by_option, length, suc, ℕ, Option, none, some, List, [], ◌∷◌, ◌++◌, ◌≡◌, refl,
}
use zeptocapsule.Common.Result.{Result, ok, err, by_result}
use zeptocapsule.Common.Program.{Every, Every->>=}
use zeptocapsule.Text.{Str, codes}
use zeptocapsule.Capsule.Backend.{KernelError}
use zeptocapsule.Egress.Types.{EgressPolicy, JudgeConfig}
use zeptocapsule.Egress.Rules.{Globset, CompiledPolicy, Compiled, compile}
use zeptocapsule.Egress.Start.{
  start_egress, Start, set_up, tear_down, spawn_on, shut_down, write_file, Ans, Kind, EgressRuntime,
  ProxyConfig, judge_of, serve, start, compiled_or, write_ca_cert_temp, worker_env, veth_kind,
  tap_kind, start_ns_egress, start_fc_egress,
}

-- the devices that are up and those that were torn down; the addresses of the proxies that were started,
-- and how many were shut down; the files that were written
pub record Gate (D : Type 0) : Type 0 where
  pub up : List D
  pub torn : List D
  pub proxies : List Str
  pub shut : ℕ
  pub files : List Str

abbrev raised : {D : Type 0} → Result Str D → Gate D → Gate D
raised (ok d) v = record v { up = d ∷ v.up }
raised (err e) v = v

abbrev opened : {D : Type 0} → Result Str Str → Gate D → Gate D
opened (ok addr) v = record v { proxies = addr ∷ v.proxies }
opened (err e) v = v

abbrev wrote : {D : Type 0} → Str → Result Str (Unit {0}) → Gate D → Gate D
wrote path (ok t) v = record v { files = path ∷ v.files }
wrote path (err e) v = v

unfoldable pub see : {D M : Type 0} → (e : Start D M) → Ans e → Gate D → Gate D
see set_up r v = raised r v
see (tear_down d) r v = record v { torn = d ∷ v.torn }
see (spawn_on ip config) r v = opened r v
see shut_down r v = record v { shut = suc v.shut }
see (write_file path contents) r v = wrote path r v
see e r v = v

abbrev pub closed : {D : Type 0} → Gate D
closed = record { up = []; torn = []; proxies = []; shut = 0; files = [] }

-- nothing is left open: no device was set up; or it was torn down once, and so was the proxy, if it was started
abbrev pub IsUndone : {D : Type 0} → Gate D → Type 0
IsUndone v = (v.torn ≡ v.up) × (v.shut ≡ length v.proxies) × (v.files ≡ [])

-- by which clients find a proxy, and the certificates that they trust
abbrev proxy_names : List Str
proxy_names =
    codes "HTTP_PROXY"
    ∷ codes "http_proxy"
    ∷ codes "HTTPS_PROXY"
    ∷ codes "https_proxy"
    ∷ codes "ALL_PROXY"
    ∷ codes "all_proxy"
    ∷ []

abbrev cert_names : List Str
cert_names =
    codes "SSL_CERT_FILE"
    ∷ codes "REQUESTS_CA_BUNDLE"
    ∷ codes "NODE_EXTRA_CA_CERTS"
    ∷ codes "CURL_CA_BUNDLE"
    ∷ []

-- The environment names a proxy at an address and a certificate's file.
abbrev pub names_gate : (addr path : Str) → List (Str × Str)
names_gate addr path =
    map (λ name. (name, codes "http://" ++ addr)) proxy_names
    ++ map (λ name. (name, path)) cert_names

abbrev pub Ends : {D : Type 0} → Kind D → Gate D → Result KernelError (EgressRuntime D) → Type 0
Ends k v (err e) = IsUndone v
Ends k v (ok r) =
    (v.up ≡ r.device ∷ [])
    × (v.torn ≡ [])
    × (v.shut ≡ 0)
    × (v.files ≡ r.ca_cert_path ∷ [])
    × ((addr : Str) × (v.proxies ≡ addr ∷ [])
        × (r.env ≡ names_gate addr r.ca_cert_path ++ k.hints r.device))

-- what is left before the device
abbrev Untouched : (D : Type 0) → {A : Type 0} → Gate D → Result KernelError A → Type 0
Untouched D v r = v ≡ closed

undone : (D : Type 0) → IsUndone (closed {D = D})
undone D = (refl, refl, refl)

judge_of-Untouched :
    (D M : Type 0) (judge : Option JudgeConfig)
    → Every (see {D = D} {M = M}) closed (judge_of judge) (Untouched D)
unfolding judge_of see
judge_of-Untouched D M none = refl
judge_of-Untouched D M (some c) = by_option _ refl (λ key. refl)

compiled-Untouched :
    (D : Type 0) {M E : Type 0} (g : Globset M E) (cause : E → Str)
    (r : Compiled E (CompiledPolicy M))
    → Every (see {D = D} {M = M}) closed (compiled_or g cause r) (Untouched D)
compiled-Untouched D g cause (ok p) = refl
compiled-Untouched D g cause (err e) = refl

module _ {D M E : Type 0} (g : Globset M E) (cause : E → Str) (k : Kind D) where
  abbrev with_device : D → Gate D
  with_device d = record { up = d ∷ []; torn = []; proxies = []; shut = 0; files = [] }

  serve-Ends :
      (config : ProxyConfig M) (pem : Str) (d : D)
      → Every see (with_device d) (serve g cause k config pem d) (Ends k)
  unfolding serve write_ca_cert_temp see worker_env
  serve-Ends config pem d =
      by_result _
        (λ addr dir n pid.
          by_result _ (λ _ _. (refl, refl, refl, refl, (addr, refl, refl)))
            (λ _ _ _. (refl, refl, refl)))
        (λ _ _. (refl, refl, refl))

  start-Ends :
      (device : Str) (policy : EgressPolicy)
      → Every see closed (start g cause device k policy) (Ends k)
  unfolding see
  start-Ends device policy =
      Every->>= see closed (compiled_or g cause (compile g policy)) _ (Untouched D) (Ends k)
        (compiled-Untouched D g cause (compile g policy))
        (λ v compiled e. rw e (
          by_result _
            (λ pem.
              Every->>= see closed (judge_of policy.judge) _ (Untouched D) (Ends k)
                (judge_of-Untouched D M policy.judge)
                (λ v judge e. rw e (by_result _ (λ d. serve-Ends _ pem d) (λ _. undone D)))
                (λ v x e. rw e (undone D)))
            (λ _. undone D)))
        (λ v x e. rw e (undone D))

-- of a gate without a device
abbrev pub EndsBare : Gate (Unit {0}) → Result KernelError (EgressRuntime (Unit {0})) → Type 0
EndsBare v (err e) = IsUndone v × (v.up ≡ [])
EndsBare v (ok r) =
    (v.up ≡ [])
    × (v.shut ≡ 0)
    × (v.files ≡ r.ca_cert_path ∷ [])
    × ((addr : Str) × (v.proxies ≡ addr ∷ []) × (r.env ≡ names_gate addr r.ca_cert_path))

module _ {M E : Type 0} (g : Globset M E) (cause : E → Str) (policy : EgressPolicy) where
  abbrev bare : IsUndone (closed {D = Unit {0}}) × ((closed {D = Unit {0}}).up ≡ [])
  bare = (undone (Unit {0}), refl)

  start_egress-Ends : Every see closed (start_egress g cause policy) EndsBare
  unfolding start_egress write_ca_cert_temp see worker_env
  start_egress-Ends =
      Every->>= see closed (compiled_or g cause (compile g policy)) _ (Untouched (Unit {0}))
        EndsBare (compiled-Untouched (Unit {0}) g cause (compile g policy))
        (λ v compiled e. rw e (
          by_result _
            (λ pem.
              Every->>= see closed (judge_of policy.judge) _ (Untouched (Unit {0})) EndsBare
                (judge_of-Untouched (Unit {0}) M policy.judge)
                (λ v judge e. rw e (
                  by_result _
                    (λ addr dir n pid.
                      by_result _ (λ _ _. (refl, refl, refl, (addr, refl, refl)))
                        (λ _ _. ((refl, refl, refl), refl)))
                    (λ _. bare)))
                (λ v x e. rw e bare))
            (λ _. bare)))
        (λ v x e. rw e bare)

  -- However the system answers, each start of a gate returns a runtime whose device, if the backend has
  -- one, is up, whose proxy runs and whose environment names the proxy and the certificate that was
  -- written; or it fails, with no certificate written, no device up and no proxy that runs.
  pub start-Undone :
      Every see closed (start_ns_egress g cause policy) (Ends veth_kind)
      × Every see closed (start_fc_egress g cause policy) (Ends tap_kind)
      × Every see closed (start_egress g cause policy) EndsBare
  unfolding start_ns_egress start_fc_egress
  start-Undone = (
    start-Ends g cause veth_kind (codes "veth") policy,
    start-Ends g cause tap_kind (codes "TAP") policy,
    start_egress-Ends,
  )
