-- ===== src/Firecracker/Ready.antt =====
-- What the guest says, behind the requests of a boot.
use zeptocapsule.Common.{
  true, none, some, ◌∙◌, ap, ℕ, zero, suc, Option, [], ◌∷◌, ◌≡◌, refl, by_bool, by_option, if_intro,
}
use zeptocapsule.Common.Result.{Result, ok, err, by_result}
use zeptocapsule.Common.Program.{ask, ret, Every, Every->>=, Every_mono, ◌>>=◌, ◌>>◌}
use zeptocapsule.Text.{Str, codes}
use zeptocapsule.Text.Utf8.{Bytes, from_utf8}
use zeptocapsule.Capsule.Backend.{KernelError}
use zeptocapsule.Firecracker.System.{M, set_nonblocking}
use zeptocapsule.Text.Laws.{str_eq→eq}
use zeptocapsule.Firecracker.Api.{Texts}
use zeptocapsule.Firecracker.Machine.{Machine, see}
use zeptocapsule.Firecracker.Balanced.{Stays, Quiet}
use zeptocapsule.Firecracker.Boot.{
  finish, no_attempt, is_ready, again, tried, dup_or_close, try_blocking_connect,
  blocking_vsock_connect, check_ready, connect, decoded, connect_port, ready_text, or_transport,
}

tried-Quiet :
    (r : Result KernelError (Unit {0})) (rest : KernelError → M (Unit {0}))
    → ((e : KernelError) → Quiet (rest e))
    → Quiet (tried r rest)
tried-Quiet (ok t) rest h m = refl
tried-Quiet (err e) rest h m = h e m

retry-Quiet :
    (attempts : ℕ) (socket : Str) (port : ℕ) (last : KernelError)
    → Quiet (connect_port attempts socket port last)
unfolding connect_port see
retry-Quiet zero socket port last m = refl
retry-Quiet (suc attempts) socket port last m = λ reply.
    tried-Quiet (try_blocking_connect port reply)
      (λ e. again e (connect_port attempts socket port e))
      (λ e m. by_bool _ refl (λ _. retry-Quiet attempts socket port e m)) m

connect-Quiet : (socket : Str) (port : ℕ) → Quiet (connect socket port)
connect-Quiet socket port = retry-Quiet 151 socket port no_attempt

-- the line of the control channel was read, and nothing else seen
abbrev pub heard_line : Bytes → Machine → Machine
heard_line bytes m = record m { heard = bytes }

-- the text of a line that was read; an empty line has none
abbrev pub Says : Option Str → Bytes → Type 0
Says none bytes = Unit {0}
Says (some text) bytes = from_utf8 bytes ≡ some text

abbrev pub Heard : Machine → Machine → Result KernelError (Option Str) → Type 0
Heard m v (ok ready) = (bytes : Bytes) × (v ≡ heard_line bytes m) × Says ready bytes
Heard m v (err e) = v.vm ≡ m.vm

abbrev Reads : Bytes → Machine → Machine → Result KernelError (Option Str) → Type 0
Reads bytes m v (ok ready) = (v ≡ m) × Says ready bytes
Reads bytes m v (err e) = v ≡ m

ready_text-Reads :
    (utf8 : Str) (bytes : Bytes) (m : Machine) → Every see m (ready_text utf8 bytes) (Reads bytes m)
unfolding ready_text
ready_text-Reads utf8 [] m = (refl, tt)
ready_text-Reads utf8 (b ∷ bytes) m =
    by_option (λ o. from_utf8 (b ∷ bytes) ≡ o → Every see m (decoded utf8 o) (Reads (b ∷ bytes) m))
      (λ _. refl) (λ text e. (refl, e)) (from_utf8 (b ∷ bytes)) refl

then-Heard :
    {A : Type 0} (p : M A) (next : A → M (Option Str)) (m : Machine)
    → Quiet p
    → ((a : A) → Every see m (next a) (Heard m))
    → Every see m (p >>= next) (Heard m)
then-Heard p next m quiet good =
    Every->>= see m p next (Stays m) (Heard m) (quiet m) (λ v a e. rw e (good a))
      (λ v x e. rw e refl)

abbrev made_nonblocking : Option Str → M (Option Str)
made_nonblocking ready = do
  a ← ask (set_nonblocking 1001)
  or_transport (codes "set nonblocking: ") a
  b ← ask (set_nonblocking 1002)
  or_transport (codes "set nonblocking: ") b
  c ← ask (set_nonblocking 1003)
  or_transport (codes "set nonblocking: ") c
  d ← ask (set_nonblocking 1004)
  or_transport (codes "set nonblocking: ") d
  ret ready

made_nonblocking-Heard :
    (ready : Option Str) (bytes : Bytes) (m : Machine)
    → Says ready bytes
    → Every see (heard_line bytes m) (made_nonblocking ready) (Heard m)
unfolding see
made_nonblocking-Heard ready bytes m says =
    let v = heard_line bytes m in
    by_result _
      (λ _.
        by_result _
          (λ _. by_result _ (λ _. by_result _ (λ _. (bytes, refl, says)) (λ _. refl)) (λ _. refl))
          (λ _. refl))
      (λ _. refl)

pub blocking_vsock_connect-Heard :
    (texts : Texts) (socket : Str) (m : Machine)
    → Every see m (blocking_vsock_connect texts socket) (Heard m)
unfolding blocking_vsock_connect see
blocking_vsock_connect-Heard texts socket m =
    then-Heard (connect socket 1001) _ m (connect-Quiet socket 1001) (λ _.
      then-Heard (connect socket 1002) _ m (connect-Quiet socket 1002) (λ _.
        then-Heard (connect socket 1003) _ m (connect-Quiet socket 1003) (λ _.
          then-Heard (connect socket 1004) _ m (connect-Quiet socket 1004) (λ _.
            by_result _
              (λ _.
                by_result _
                  (λ bytes.
                    by_result _
                      (λ _.
                        let v = heard_line bytes m in
                        Every->>= see v (ready_text texts.utf8 bytes) made_nonblocking
                          (Reads bytes v) (Heard m) (ready_text-Reads texts.utf8 bytes v)
                          (λ w ready q. rw q.0 (made_nonblocking-Heard ready bytes m q.1))
                          (λ w x e. rw e refl))
                      (λ _. refl))
                  (λ _. refl))
              (λ _. refl)))))

-- A guest is ready if its line is "READY".
abbrev pub Ready : Option Str → Machine → Machine → Result KernelError (Unit {0}) → Type 0
Ready ready m v (ok _) = (v ≡ m) × (ready ≡ some (codes "READY"))
Ready ready m v (err e) = v.vm ≡ m.vm

is_ready-eq-true : (ready : Option Str) → is_ready ready ≡ true → ready ≡ some (codes "READY")
is_ready-eq-true none h = absurd (cc)
is_ready-eq-true (some text) h = ap (λ t. some t) (str_eq→eq text (codes "READY") h)

check_ready-Ready :
    (ready : Option Str) (m : Machine) → Every see m (check_ready ready) (Ready ready m)
check_ready-Ready ready m =
    if_intro (λ (p : M (Unit {0})). Every see m p (Ready ready m)) (is_ready ready)
      (λ h. (refl, is_ready-eq-true ready h)) (λ _. refl)

dup_or_close-Quiet : (r : Result Str (Unit {0})) → Quiet (dup_or_close r)
unfolding see
dup_or_close-Quiet (ok t) m = refl
dup_or_close-Quiet (err e) m = λ _. refl

duplicated-Ready :
    (ready : Option Str) (m : Machine) (r : Result Str (Unit {0}))
    → ready ≡ some (codes "READY")
    → Every see m (dup_or_close r) (Ready ready m)
duplicated-Ready ready m r h =
    Every_mono see m (dup_or_close r) (Stays m) (Ready ready m) (dup_or_close-Quiet r m) (λ v r.
      by_result (λ (r : Result KernelError (Unit {0})). Stays m v r → Ready ready m v r)
        (λ _ e. (e, h)) (λ _ e. rw e refl) r)

pub finish-Ready : (ready : Option Str) (m : Machine) → Every see m (finish ready) (Ready ready m)
unfolding see
finish-Ready ready m =
    by_result _
      (λ _.
        by_result _
          (λ _.
            by_result _
              (λ _.
                Every->>= see m (check_ready ready) _ (Ready ready m) (Ready ready m)
                  (check_ready-Ready ready m)
                  (λ v _ q. rw q.0 (λ duplicated. duplicated-Ready ready m duplicated q.1))
                  (λ v x e. e))
              (λ _. refl))
          (λ _. refl))
      (λ _. refl)

-- What was said, by the bytes that were read.
pub said_ready :
    (ready : Option Str) (bytes : Bytes)
    → ready ≡ some (codes "READY")
    → Says ready bytes
    → from_utf8 bytes ≡ some (codes "READY")
said_ready none bytes h says = absurd (cc)
said_ready (some text) bytes h says = says ∙ h
