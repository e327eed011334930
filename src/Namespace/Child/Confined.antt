-- ===== src/Namespace/Child/Confined.antt =====
-- The sandbox that a Hardened child makes for itself.
use zeptocapsule.Common.{ap, ℕ, zero, suc, Bool, true, some, String, List, [], ◌∷◌, ◌++◌, ◌≡◌, refl}
use zeptocapsule.Common.Result.{Result, ok, err, by_result}
use zeptocapsule.Common.Program.{Every-map_err, ret, map_err, Every, Lands, Lands->>=, ◌>>◌}
use zeptocapsule.Text.{Str, codes, decimal}
use zeptocapsule.Namespace.System.{ChildArgs}
use zeptocapsule.Namespace.Child.{setup_and_pivot, drop_capabilities, install_filter, sandbox}
use zeptocapsule.Seccomp.{build_seccomp_filter, prog_of}
use zeptocapsule.Rootfs.View.{Sandbox, outside, in_sandbox, see}
use zeptocapsule.Rootfs.Pivoted.{IsPivoted, Pivoted, setup_and_pivot-Pivoted}
use zeptocapsule.Rootfs.Mounts.{To, Reaches}

-- the capabilities from `from` on, `count` of them, the last one first
abbrev pub dropped_by : (from count : ℕ) → List ℕ → List ℕ
dropped_by from zero dropped = dropped
dropped_by from (suc count) dropped = dropped_by (suc from) count (from ∷ dropped)

drop_capabilities-Reaches :
    (from count : ℕ) (s : Sandbox)
    → Reaches s
        (drop_capabilities from count)
        (record s { dropped = dropped_by from count s.dropped })
unfolding drop_capabilities see
drop_capabilities-Reaches from zero s = (s, refl, refl)
drop_capabilities-Reaches from (suc count) s =
    λ _. drop_capabilities-Reaches (suc from) count (record s { dropped = from ∷ s.dropped })

module _ (libc : String → ℕ) (is_x86_64 : Bool) (args : ChildArgs) where
  -- The sandbox of a Hardened child: a new root, no capability of 0 to 40, and the filter of system calls.
  abbrev pub IsSandbox : Sandbox → Type 0
  IsSandbox s =
      (id : ℕ) × (base : Sandbox) × IsPivoted (codes "/tmp/zk-rootfs-" ++ decimal id) args.workspace
        args.workspace_host base
      × (s ≡ record base {
        dropped = dropped_by 0 41 [];
        no_new_privs = true;
        filter = some (prog_of (build_seccomp_filter libc is_x86_64));
      })

  abbrev pub Boxed : Sandbox → Result Str Str → Type 0
  Boxed s (ok path) = IsSandbox s × (path ≡ codes "/zk-init")
  Boxed s (err e) = Unit

  install_filter-Reaches :
      (s : Sandbox)
      → Reaches s (install_filter libc is_x86_64) (record s {
        no_new_privs = true;
        filter = some (prog_of (build_seccomp_filter libc is_x86_64));
      })
  unfolding install_filter see
  install_filter-Reaches s =
      by_result _ (λ _. by_result _ (λ _. (_, refl, refl)) (λ e. (_, refl, tt)))
        (λ e. (s, refl, tt))

  abbrev confined : List ℕ → Sandbox → Sandbox
  confined dropped s = record s {
    dropped = dropped;
    no_new_privs = true;
    filter = some (prog_of (build_seccomp_filter libc is_x86_64));
  }

  abbrev root_of : ℕ → Str
  root_of id = codes "/tmp/zk-rootfs-" ++ decimal id

  -- the steps behind the change of root
  confine-Boxed :
      (id : ℕ) (s : Sandbox)
      → IsPivoted (root_of id) args.workspace args.workspace_host s
      → Every see
          (in_sandbox s)
          (drop_capabilities 0 41
            >> (map_err (λ e. codes "seccomp: " ++ e) (install_filter libc is_x86_64)
                >> ret (codes "/zk-init")))
          (Lands in_sandbox Boxed)
  confine-Boxed id s pivoted =
      let less : Sandbox = record s { dropped = dropped_by 0 41 s.dropped } in
      let full : Sandbox = record less {
        no_new_privs = true;
        filter = some (prog_of (build_seccomp_filter libc is_x86_64));
      } in
      let name = λ (e : Str). codes "seccomp: " ++ e in
      Lands->>= see in_sandbox s (drop_capabilities 0 41) _ (To less) Boxed
        (drop_capabilities-Reaches 0 41 s)
        (λ t a e. rw e (
          Lands->>= see in_sandbox less (map_err name (install_filter libc is_x86_64)) _ (To full)
            Boxed
            (Every-map_err see (in_sandbox less) name (install_filter libc is_x86_64)
              (Lands in_sandbox (To full)) (Lands in_sandbox (To full))
              (install_filter-Reaches less) (λ v a q. q) (λ v x q. (q.0, q.1, tt)))
            (λ u a e. rw e (
              full,
              refl,
              (
                (
                  id,
                  s,
                  pivoted,
                  ap (λ (d : List ℕ). confined (dropped_by 0 41 d) s)
                      (ap (λ (x : Sandbox). x.dropped) pivoted.2),
                ),
                refl,
              ),
            ))
            (λ u x q. tt)))
        (λ t x q. tt)

  pub sandbox-Boxed :
      Every see (in_sandbox outside) (sandbox libc is_x86_64 args) (Lands in_sandbox Boxed)
  unfolding sandbox see
  sandbox-Boxed = λ id.
      let name = λ (e : Str). codes "rootfs: pivot: " ++ e in
      let pivot = setup_and_pivot (root_of id) args.workspace args.workspace_host in
      let Q = Pivoted (root_of id) args.workspace args.workspace_host in
      by_result _
        (λ _.
          by_result _
            (λ _ changed.
              Lands->>= see in_sandbox outside (map_err name pivot) _ Q Boxed
                (Every-map_err see (in_sandbox outside) name pivot (Lands in_sandbox Q)
                  (Lands in_sandbox Q)
                  (setup_and_pivot-Pivoted (root_of id) args.workspace args.workspace_host)
                  (λ v a q. q) (λ v x q. (q.0, q.1, tt)))
                (λ t a pivoted. confine-Boxed id t pivoted) (λ t x q. tt))
            (λ e. (_, refl, tt)))
        (λ e. (_, refl, tt))
