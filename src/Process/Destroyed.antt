-- ===== src/Process/Destroyed.antt =====
-- How `destroy` of a process ends.
use zeptocapsule.Common.{
  ◌∙◌, ℕ, Bool, true, false, Option, none, some, List, [], ◌∷◌, ◌≡◌, ◌≢◌, refl, inl, inr,
}
use zeptocapsule.Common.Result.{Result, ok, err}
use zeptocapsule.Common.Program.{Every, Every->>=, Every-on_error, raise, on_error, ◌>>◌}
use zeptocapsule.Capsule.Backend.{KernelError}
use zeptocapsule.Capsule.Report.{CapsuleReport}
use zeptocapsule.Egress.Types.{EgressDecision}
use zeptocapsule.Egress.Start.{EgressRuntime}
use zeptocapsule.Process.{
  I32, ExitStatus, ProcessCapsule, stopped, reap_child, take_egress, exit_of, destroy, or_zero,
  drop_proxy,
}
use zeptocapsule.Process.Reaped.{
  Seen, see, fresh, IsBefore, Outcome, ReapedChild, reap_child-ReapedChild,
}

abbrev pub EgressLeft : Option (EgressRuntime (Unit {0})) → Seen → Type 0
EgressLeft none v = (v.files ≡ []) × (v.shut ≡ 0)
EgressLeft (some e) v = (v.files ≡ e.ca_cert_path ∷ []) × (v.shut ≡ 1)

abbrev pub proxies : Option (EgressRuntime (Unit {0})) → ℕ
proxies none = 0
proxies (some e) = 1

-- the status by which the child's end is reported
abbrev pub ChildLeft : Option (Option ℕ) → Option ExitStatus → Seen → Type 0
ChildLeft none status v = (v.dropped ≡ 0) × (status ≡ none)
ChildLeft (some pid) status v = (v.dropped ≡ 1) × Outcome (or_zero pid) status v

-- A child and a proxy that were dropped: the log was not drained, and the certificate is there.
abbrev pub IsDropped : Option (EgressRuntime (Unit {0})) → Seen → Type 0
IsDropped egress v = (v.dropped ≡ 1) × (v.drained ≡ []) × (v.shut ≡ proxies egress) × (v.files ≡ [])

-- The report is of the status, or of what the handle has without one.
abbrev pub Exits : ProcessCapsule → Option ExitStatus → (code signal : Option I32) → Type 0
Exits h none code signal = (code ≡ h.exit_code) × (signal ≡ h.exit_signal)
Exits h (some s) code signal = (code ≡ s.code) × (signal ≡ s.signal)

abbrev pub Ends : ProcessCapsule → Seen → Result KernelError CapsuleReport → Type 0
Ends h v (ok report) =
    ((status : Option ExitStatus) × ChildLeft h.child status v
      × Exits h status report.exit_code report.exit_signal)
    × EgressLeft h.egress v
    × (report.egress_log ≡ v.drained)
Ends h v (err e) = (h.child ≢ none) × IsDropped h.egress v

abbrev Stopped : Seen → Result KernelError (Unit {0}) → Type 0
Stopped v (ok t) = v ≡ fresh
Stopped v (err e) = ⊥

stopped-Stopped : (b : Bool) → Every see fresh (stopped b) Stopped
unfolding see
stopped-Stopped false = refl
stopped-Stopped true = λ _. refl

abbrev Taken :
    Seen
    → Option (EgressRuntime (Unit {0}))
    → Seen
    → Result KernelError (List EgressDecision)
    → Type 0
Taken v egress w (err e) = ⊥
Taken v egress w (ok log) =
    (w.status ≡ v.status)
    × (w.waits ≡ v.waits)
    × (w.signals ≡ v.signals)
    × (w.dropped ≡ v.dropped)
    × EgressLeft egress w
    × (log ≡ w.drained)

take_egress-Taken :
    (egress : Option (EgressRuntime (Unit {0}))) (d : ℕ) (v : Seen)
    → IsBefore d v
    → Every see v (take_egress egress) (Taken v egress)
unfolding take_egress see
take_egress-Taken none d v (dropped, drained, shut, files) =
    (refl, refl, refl, refl, (files, shut), rw drained refl)
take_egress-Taken (some e) d v (dropped, drained, shut, files) =
    λ log _ _. (refl, refl, refl, refl, (rw files refl, rw shut refl), rw drained refl)

before :
    (child : Option (Option ℕ)) (status : Option ExitStatus) (v : Seen)
    → ReapedChild child v (ok status)
    → (d : ℕ) × IsBefore d v
before none status v r = (0, r.0)
before (some pid) status v r = (1, r.0)

unchanged-Outcome :
    (pid : ℕ) (status : Option ExitStatus) (v w : Seen)
    → w.status ≡ v.status
    → w.waits ≡ v.waits
    → w.signals ≡ v.signals
    → Outcome pid status v
    → Outcome pid status w
unchanged-Outcome pid none v w a b c (seen, dead, count) = (a ∙ seen, c ∙ dead, b ∙ count)
unchanged-Outcome pid (some s) v w a b c (seen, inl quiet) = (a ∙ seen, inl (c ∙ quiet))
unchanged-Outcome pid (some s) v w a b c (seen, inr dead) = (a ∙ seen, inr (c ∙ dead))

child_left :
    (child : Option (Option ℕ)) (egress : Option (EgressRuntime (Unit {0})))
    (status : Option ExitStatus) (log : List EgressDecision) (v w : Seen)
    → ReapedChild child v (ok status)
    → Taken v egress w (ok log)
    → ChildLeft child status w
child_left none egress status log v w (b, unseen, nothing) t = (t.3 ∙ b.0, nothing)
child_left (some pid) egress status log v w (b, o) t =
    (t.3 ∙ b.0, unchanged-Outcome (or_zero pid) status v w t.0 t.1 t.2 o)

-- the child's end, or the failure once the handle is dropped
abbrev Waited : ProcessCapsule → Seen → Result KernelError (Option ExitStatus) → Type 0
Waited h v (ok status) = ReapedChild h.child v (ok status)
Waited h v (err e) = (h.child ≢ none) × IsDropped h.egress v

drop_proxy-IsDropped :
    (egress : Option (EgressRuntime (Unit {0}))) (v : Seen)
    → IsBefore 1 v
    → Every see v (drop_proxy egress) (λ v r. IsDropped egress v)
unfolding see
drop_proxy-IsDropped none v b = b
drop_proxy-IsDropped (some e) v (dropped, drained, shut, files) =
    λ t. (dropped, drained, rw shut refl, files)

failed :
    (h : ProcessCapsule) (child : Option (Option ℕ)) (v : Seen) (x : KernelError)
    → h.child ≡ child
    → ReapedChild child v (err x)
    → Every see v (drop_proxy h.egress >> raise x) (Waited h)
failed h none v x same r = absurd r
failed h (some pid) v x same b =
    Every->>= see v (drop_proxy h.egress) _ (λ v r. IsDropped h.egress v) (Waited h)
      (drop_proxy-IsDropped h.egress v b) (λ w t d. ((λ missing. cc), d))
      (λ w y d. ((λ missing. cc), d))

reap_child-Waited :
    (h : ProcessCapsule)
    → Every see fresh (on_error (drop_proxy h.egress) (reap_child h.child)) (Waited h)
reap_child-Waited h =
    Every-on_error see fresh (drop_proxy h.egress) (reap_child h.child) (ReapedChild h.child)
      (Waited h) (reap_child-ReapedChild h.child) (λ v s r. r)
      (λ v x r. failed h h.child v x refl r)

exit_of-Exits :
    (h : ProcessCapsule) (status : Option ExitStatus)
    → Exits h status (exit_of h status).0 (exit_of h status).1
unfolding exit_of
exit_of-Exits h none = (refl, refl)
exit_of-Exits h (some s) = (refl, refl)

-- However the system answers, `destroy` returns a report, of the status by which the child ended, if that
-- was seen: a child that was not seen to end was killed, and asked 21 times in all; a child was dropped
-- once; the log is the one that was drained, and the proxy was shut down and its certificate removed, if
-- there were any. Or it fails, since the child could not be inspected: there was a child, it was dropped,
-- the proxy was shut down, and its log and its certificate were left as they are.
pub destroy-Ends : (h : ProcessCapsule) → Every see fresh (destroy h) (Ends h)
unfolding destroy
destroy-Ends h =
    Every->>= see fresh (stopped h.timeout_cancel) _ Stopped (Ends h)
      (stopped-Stopped h.timeout_cancel)
      (λ v _ e. rw e (
        Every->>= see fresh (on_error (drop_proxy h.egress) (reap_child h.child)) _ (Waited h)
          (Ends h) (reap_child-Waited h)
          (λ v status r.
            let (d, b) = before h.child status v r in
            Every->>= see v (take_egress h.egress) _ (Taken v h.egress) (Ends h)
              (take_egress-Taken h.egress d v b)
              (λ w log t. (
                (status, child_left h.child h.egress status log v w r t, exit_of-Exits h status),
                t.4,
                t.5,
              ))
              (λ w x t. absurd t))
          (λ v x r. r)))
      (λ v x q. absurd q)
