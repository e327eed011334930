-- ===== src/Namespace/Child/Sandboxed.antt =====
-- A Hardened child runs the init binary only inside its sandbox.
use zeptocapsule.Common.{ℕ, Bool, true, String, List, [], ◌∷◌, ◌≡◌, refl, All}
use zeptocapsule.Common.Result.{Result, ok, err, by_result}
use zeptocapsule.Common.Program.{Every-attempt, attempt, Every, Lands, Every->>=, ◌>>=◌, Valued}
use zeptocapsule.Text.{Str, codes}
use zeptocapsule.Namespace.System.{ChildArgs}
use zeptocapsule.Namespace.Child.{
  bail, both, start_init, with_worker, with_init, c_strings, or_text, c_string, env_c_strings,
  child_main, child_body, sandbox, execute, take_streams,
}
use zeptocapsule.Rootfs.View.{Sandbox, Execution, View, outside, in_sandbox, see}
use zeptocapsule.Rootfs.Mounts.{c_string-ok}
use zeptocapsule.Rootfs.System.{M}
use zeptocapsule.Namespace.Child.Confined.{IsSandbox, Boxed, sandbox-Boxed}

argv_eq :
    (init worker : Str) (rest : List Str) {path binary : Str} {args : List Str}
    → init ≡ path
    → worker ≡ binary
    → rest ≡ args
    → ◌≡◌ {A = List Str} (init ∷ worker ∷ rest) (path ∷ binary ∷ args)
argv_eq init worker rest p q r = cc

both-ok :
    (r : Result Str Str) (q : Result Str (List Str)) {cs : List Str}
    → both r q ≡ ok cs
    → (c : Str) × (rest : List Str) × (r ≡ ok c) × (q ≡ ok rest) × (cs ≡ c ∷ rest)
both-ok (err e) q h = cc
both-ok (ok c) (err e) h = cc
both-ok (ok c) (ok rest) h = (c, rest, refl, refl, cc)

c_strings-ok : (texts cs : List Str) → c_strings texts ≡ ok cs → cs ≡ texts
unfolding c_strings
c_strings-ok [] cs h = cc
c_strings-ok (t ∷ texts) cs h =
    let (c, rest, first, others, made) = both-ok (c_string t) (c_strings texts) h in
    cc (made, c_string-ok t c first, c_strings-ok texts rest others)

module _ (libc : String → ℕ) (is_x86_64 : Bool) (args : ChildArgs) where
  abbrev pub IsSandboxed : Execution → Type 0
  IsSandboxed x =
      IsSandbox libc is_x86_64 args x.sandbox
      × (x.path ≡ codes "/zk-init")
      × (x.argv ≡ codes "/zk-init" ∷ args.worker_binary ∷ args.worker_args)
      × (x.envp ≡ env_c_strings args.env)

  -- What has been executed was, in the sandbox.
  abbrev pub AllSandboxed : View → Result Str (Unit {0}) → Type 0
  AllSandboxed v r = All IsSandboxed v.executed

  or_text-Every :
      {A : Type 0} (s : Sandbox) (text : Str) (r : Result Str A) (next : A → M (Unit {0}))
      → ((a : A) → r ≡ ok a → Every see (in_sandbox s) (next a) AllSandboxed)
      → Every see (in_sandbox s) (or_text text r >>= next) AllSandboxed
  or_text-Every s text (ok a) next good = good a refl
  or_text-Every s text (err e) next good = tt

  execute-AllSandboxed :
      (s : Sandbox)
      → IsSandbox libc is_x86_64 args s
      → Every see (in_sandbox s) (execute args (codes "/zk-init")) AllSandboxed
  unfolding execute see
  execute-AllSandboxed s box =
      let init_path = codes "/zk-init" in
      or_text-Every s _ (c_string init_path) (with_init args init_path) (λ init e1.
        or_text-Every s _ (c_string args.worker_binary) (with_worker args init_path init)
          (λ worker e2.
            or_text-Every s _ (c_strings args.worker_args) (start_init args init_path init worker)
              (λ rest e3 error. (
                (
                  box,
                  c_string-ok init_path init e1,
                  argv_eq init worker rest (c_string-ok init_path init e1)
                      (c_string-ok args.worker_binary worker e2)
                      (c_strings-ok args.worker_args rest e3),
                  refl,
                ),
                tt,
              ))))

  child_body-AllSandboxed :
      args.hardened ≡ true
      → Every see (in_sandbox outside) (child_body libc is_x86_64 args) AllSandboxed
  unfolding child_body take_streams see
  child_body-AllSandboxed hard = rw hard (λ _ _ _ _ _ _ _ _ _.
      Every->>= see (in_sandbox outside) (sandbox libc is_x86_64 args) (execute args)
        (Lands in_sandbox (Boxed libc is_x86_64 args)) AllSandboxed
        (sandbox-Boxed libc is_x86_64 args)
        (λ v path q. rw (q.1, q.2.1) (execute-AllSandboxed q.0 q.2.0)) (λ v e q. rw q.1 tt))

  -- Of a Hardened child: whatever the system answers, what it executes is the init binary of its new
  -- root, with the worker and its arguments, in the sandbox.
  pub child_main-AllSandboxed :
      args.hardened ≡ true
      → Every see (in_sandbox outside) (child_main libc is_x86_64 args) AllSandboxed
  unfolding child_main see
  child_main-AllSandboxed hard =
      Every->>= see (in_sandbox outside) (attempt (child_body libc is_x86_64 args)) bail
        (Valued see AllSandboxed) AllSandboxed
        (Every-attempt see (in_sandbox outside) (child_body libc is_x86_64 args) AllSandboxed
          (child_body-AllSandboxed hard))
        (λ v r q. by_result (λ r. Every see v (bail r) AllSandboxed) (λ _. q) (λ e _. q) r)
        (λ v x q. absurd q)
