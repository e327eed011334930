-- ===== src/Namespace/Handle/Seen.antt =====
-- What is seen of the life of a handle: what is seen of the clone, and of the child's end and the gate.
use zeptocapsule.Common.{
  ℕ, Bool, true, false, Option, none, some, List, [], ◌∷◌, ◌++◌, ◌+◌, ◌≡◌, refl, ◌==◌,
  if◌then◌else◌,
}
use zeptocapsule.Common.Result.{Result, ok, err}
use zeptocapsule.Common.Program.{Every, ret, raise, call}
use zeptocapsule.Text.{Str}
use zeptocapsule.Egress.Types.{EgressDecision}
use zeptocapsule.Egress.Veth.{VethSetup}
use zeptocapsule.Namespace.System.{remove_dir}
use zeptocapsule.Namespace.Clone.Seen.{Child, absent, waiting, going, killed, gone, struck, start}
use zeptocapsule.Namespace.Handle.{
  Sys, Ans, Ended, host, start_watchdog, stop_watchdog, send_signal, poll_child, wait_child,
  drain_audit_log, shutdown_proxy, teardown_veth, hosted,
}

-- `groups` are the directories that were tried to be removed, the latest first; `ended` is the latest
-- answer of the child's end; the log that was drained, the proxies that were shut down and the devices
-- that were taken down; and whether a watchdog runs.
pub record Seen : Type 0 where
  pub clone : zeptocapsule.Namespace.Clone.Seen.Seen
  pub groups : List Str
  pub signals : List (ℕ × ℕ)
  pub ended : Option Ended
  pub drained : List EgressDecision
  pub shut : ℕ
  pub torn : List VethSetup
  pub watchdog : Bool

abbrev pub fresh : Seen
fresh = record {
  clone = start;
  groups = [];
  signals = [];
  ended = none;
  drained = [];
  shut = 0;
  torn = [];
  watchdog = false;
}

abbrev pub add_group : zeptocapsule.Namespace.System.Sys → List Str → List Str
add_group (remove_dir path) groups = path ∷ groups
add_group e groups = groups

-- a child that goes on or was killed has ended
abbrev pub left : Child → Child
left absent = absent
left (waiting s) = waiting s
left (going s) = gone s
left (killed s) = gone s
left (gone s) = gone s

abbrev pub end_seen : Ended → Seen → Seen
end_seen e v = record v { clone = record v.clone { child = left v.clone.child }; ended = some e }

abbrev pub signal_sent : (pid number : ℕ) → Seen → Seen
signal_sent pid number v = record v {
  clone = record v.clone { child = if number == 9 then struck v.clone.child else v.clone.child };
  signals = (pid, number) ∷ v.signals;
}

unfoldable pub see : (e : Sys) → Ans e → Seen → Seen
see (host e) r v = record v {
  clone = zeptocapsule.Namespace.Clone.Seen.see e r v.clone;
  groups = add_group e v.groups;
}
see (poll_child pid) (ok (some e)) v = end_seen e v
see (wait_child pid) (ok e) v = end_seen e v
see (send_signal pid number) (ok t) v = signal_sent pid number v
see (start_watchdog pid secs) r v = record v { watchdog = true }
see stop_watchdog r v = record v { watchdog = false }
see drain_audit_log r v = record v { drained = v.drained ++ r }
see shutdown_proxy r v = record v { shut = v.shut + 1 }
see (teardown_veth setup) r v = record v { torn = setup ∷ v.torn }
see e r v = v

-- What the host's program leaves, in the state that is seen of it, and nothing else of the handle's.
abbrev pub Hosted :
    {A : Type 0}
    → Seen
    → (zeptocapsule.Namespace.Clone.Seen.Seen → Result Str A → Type 0)
    → Seen
    → Result zeptocapsule.Capsule.Backend.KernelError (Result Str A)
    → Type 0
Hosted v P u (ok r) =
    (w : zeptocapsule.Namespace.Clone.Seen.Seen) × (groups : List Str) × (u
      ≡ record v { clone = w; groups = groups })
    × P w r
Hosted v P u (err e) = ⊥

pub Every_hosted :
    {A : Type 0} (v : Seen) (m : zeptocapsule.Namespace.System.M A)
    (P : zeptocapsule.Namespace.Clone.Seen.Seen → Result Str A → Type 0)
    → Every zeptocapsule.Namespace.Clone.Seen.see v.clone m P
    → Every see v (hosted m) (Hosted v P)
unfolding hosted see
Every_hosted v (ret a) P h = (v.clone, v.groups, refl, h)
Every_hosted v (raise x) P h = (v.clone, v.groups, refl, h)
Every_hosted v (call e go) P h = λ r. Every_hosted (see (host e) r v) (go r) P (h r)
