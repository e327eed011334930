-- ===== src/Process/Reaped.antt =====
-- What is seen of a process that is destroyed, and how it is waited for.
use zeptocapsule.Common.{
  arith, ℕ, zero, suc, Option, none, some, List, [], ◌∷◌, ◌++◌, ◌+◌, ◌≡◌, refl, ◌⊎◌, inl, inr,
  by_option,
}
use zeptocapsule.Common.Result.{Result, ok, err, by_result}
use zeptocapsule.Common.Program.{Every, Every->>=, Every-on_error, ask, on_error, ◌>>◌}
use zeptocapsule.Text.{Str}
use zeptocapsule.Capsule.Backend.{KernelError}
use zeptocapsule.Egress.Types.{EgressDecision}
use zeptocapsule.Process.{
  sleep_ms, or_else, Sys, Ans, ExitStatus, drop_child, send_signal, try_wait, drain_audit_log,
  shutdown_proxy, remove_file, poll, reap, reap_child, or_zero,
}

-- the latest answer about the process, if it is no error, and the number of answers; the signals that were
-- sent, how often the child was dropped; the log that was drained, the proxies shut down, the files removed
pub record Seen : Type 0 where
  pub status : Option ExitStatus
  pub waits : ℕ
  pub signals : List (ℕ × ℕ)
  pub dropped : ℕ
  pub drained : List EgressDecision
  pub shut : ℕ
  pub files : List Str

abbrev pub heard : Result Str (Option ExitStatus) → Option ExitStatus → Option ExitStatus
heard (ok s) old = s
heard (err e) old = old

unfoldable pub see : (e : Sys) → Ans e → Seen → Seen
see try_wait r v = record v { status = heard r v.status; waits = suc v.waits }
see (send_signal pid n) r v = record v { signals = (pid, n) ∷ v.signals }
see drop_child r v = record v { dropped = suc v.dropped }
see drain_audit_log r v = record v { drained = v.drained ++ r }
see shutdown_proxy r v = record v { shut = suc v.shut }
see (remove_file path) r v = record v { files = path ∷ v.files }
see e r v = v

abbrev pub fresh : Seen
fresh = record {
  status = none;
  waits = 0;
  signals = [];
  dropped = 0;
  drained = [];
  shut = 0;
  files = [];
}

-- the gate as it was, and how often the child was dropped
abbrev pub IsBefore : ℕ → Seen → Type 0
IsBefore dropped v = (v.dropped ≡ dropped) × (v.drained ≡ []) × (v.shut ≡ 0) × (v.files ≡ [])

abbrev pub Killed : ℕ → Seen → Type 0
Killed pid v = v.signals ≡ (pid, 9) ∷ []

-- what was seen of the process: its end; or that it did not end, though it was killed and waited for in
-- 20 rounds
abbrev pub Outcome : ℕ → Option ExitStatus → Seen → Type 0
Outcome pid (some s) v = (v.status ≡ some s) × ((v.signals ≡ []) ⊎ Killed pid v)
Outcome pid none v = (v.status ≡ none) × Killed pid v × (v.waits ≡ 21)

abbrev pub Reaped : ℕ → ℕ → Seen → Result KernelError (Option ExitStatus) → Type 0
Reaped pid dropped v (ok status) = IsBefore dropped v × Outcome pid status v
Reaped pid dropped v (err e) = IsBefore dropped v

pub poll-Reaped :
    (pid rounds : ℕ) (v : Seen)
    → IsBefore 0 v
    → v.status ≡ none
    → Killed pid v
    → v.waits + rounds ≡ 21
    → Every see v (poll rounds) (Reaped pid 0)
unfolding poll see
poll-Reaped pid zero v before unseen dead count = (before, (unseen, dead, omega arith))
poll-Reaped pid (suc rounds) v before unseen dead count =
    by_result _
      (λ status.
        by_option
          (λ status.
            Every see (record v { status = status; waits = suc v.waits })
              (or_else (ask (sleep_ms 25) >> poll rounds) status) (Reaped pid 0))
          (λ _.
            poll-Reaped pid rounds (record v { status = none; waits = suc v.waits }) before refl
              dead (omega arith))
          (λ s. (before, (refl, inr dead))) status)
      (λ _. before)

pub reap-Reaped : (pid : Option ℕ) → Every see fresh (reap pid) (Reaped (or_zero pid) 0)
unfolding reap see
reap-Reaped pid =
    by_result _
      (λ status.
        by_option
          (λ status.
            Every see (record fresh { status = status; waits = 1 })
              (or_else (ask (send_signal (or_zero pid) 9) >> poll 20) status)
              (Reaped (or_zero pid) 0))
          (λ _.
            poll-Reaped (or_zero pid) 20
              (record fresh { waits = 1; signals = (or_zero pid, 9) ∷ [] }) (refl, refl, refl, refl)
              refl refl refl)
          (λ s. ((refl, refl, refl, refl), (refl, inl refl))) status)
      (λ _. (refl, refl, refl, refl))

abbrev pub ReapedChild : Option (Option ℕ) → Seen → Result KernelError (Option ExitStatus) → Type 0
ReapedChild (some pid) v r = Reaped (or_zero pid) 1 v r
ReapedChild none v (ok status) = IsBefore 0 v × (v.status ≡ none) × (status ≡ none)
ReapedChild none v (err e) = ⊥

-- on an error the child was dropped already
abbrev pub Guarded : ℕ → Seen → Result KernelError (Option ExitStatus) → Type 0
Guarded pid v (ok status) = Reaped pid 0 v (ok status)
Guarded pid v (err e) = IsBefore 1 v

pub dropped-IsBefore : (v : Seen) → IsBefore 0 v → IsBefore 1 (record v { dropped = suc v.dropped })
dropped-IsBefore v (dropped, drained, shut, files) = (rw dropped refl, drained, shut, files)

pub counted-Outcome :
    (pid : ℕ) (status : Option ExitStatus) (v : Seen)
    → Outcome pid status v
    → Outcome pid status (record v { dropped = suc v.dropped })
counted-Outcome pid (some s) v o = o
counted-Outcome pid none v o = o

pub reap_child-ReapedChild :
    (child : Option (Option ℕ)) → Every see fresh (reap_child child) (ReapedChild child)
unfolding see
reap_child-ReapedChild none = ((refl, refl, refl, refl), refl, refl)
reap_child-ReapedChild (some pid) =
    let n = or_zero pid in
    Every->>= see fresh (on_error (ask drop_child) (reap pid)) _ (Guarded n) (Reaped n 1)
      (Every-on_error see fresh (ask drop_child) (reap pid) (Reaped n 0) (Guarded n)
        (reap-Reaped pid) (λ v s r. r) (λ v x b _. dropped-IsBefore v b))
      (λ v s r _. (dropped-IsBefore v r.0, counted-Outcome n s v r.1)) (λ v x b. b)
