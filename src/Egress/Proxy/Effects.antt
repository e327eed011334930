-- ===== src/Egress/Proxy/Effects.antt =====
-- What a connection does, in order: a list of effects beside its result. After an error nothing more is done.
use zeptocapsule.Common.{ℕ, ◌≡◌, refl, List, [], ◌∷◌, ◌++◌, ap, ◌∙◌, append-nil, All}
use zeptocapsule.Common.Result.{Result, ok, err}
use zeptocapsule.Text.{Str}
use zeptocapsule.Text.Utf8.{Bytes}
use zeptocapsule.Egress.Types.{EgressDecision}
use zeptocapsule.Egress.Ssrf.{IpAddr}
use zeptocapsule.Egress.Proxy.{ProxyError}

-- `reply` is text written to the client, `connect` a connection opened to an address and port,
-- `forward` bytes written upstream, `log` an audit entry, `relay` the copying in both directions.
pub data Effect : Type 0 where
  reply : Str → Effect
  connect : IpAddr → ℕ → Effect
  forward : Bytes → Effect
  log : EgressDecision → Effect
  relay : Effect

pub record Run (A : Type 0) : Type 0 where
  pub effects : List Effect
  pub result : Result ProxyError A

abbrev pub pure : {A : Type 0} → A → Run A
pure a = record { effects = []; result = ok a }

abbrev pub fail : {A : Type 0} → ProxyError → Run A
fail e = record { effects = []; result = err e }

abbrev pub emit : Effect → Run (Unit {0})
emit e = record { effects = e ∷ []; result = ok tt }

abbrev pub lift : {A : Type 0} → Result ProxyError A → Run A
lift r = record { effects = []; result = r }

-- a write that the environment lets succeed or fail
abbrev pub attempt : Result ProxyError (Unit {0}) → Effect → Run (Unit {0})
attempt (ok t) e = emit e
attempt (err x) e = fail x

abbrev pub continue : {A B : Type 0} → List Effect → Result ProxyError A → (A → Run B) → Run B
continue done (ok a) next =
    let r = next a in record { effects = done ++ r.effects; result = r.result }
continue done (err x) next = record { effects = done; result = err x }

infixl 5 ◌>>=◌ ◌>>◌
abbrev pub ◌>>=◌ : {A B : Type 0} → Run A → (A → Run B) → Run B
m >>= next = continue m.effects m.result next

abbrev pub ◌>>◌ : {A B : Type 0} → Run A → Run B → Run B
m >> rest = m >>= λ _. rest

-- the connections opened, and the audit entries, in order
abbrev pub connections : List Effect → List (IpAddr × ℕ)
connections [] = []
connections (connect ip port ∷ es) = (ip, port) ∷ connections es
connections (e ∷ es) = connections es

abbrev pub entries : List Effect → List EgressDecision
entries [] = []
entries (log d ∷ es) = d ∷ entries es
entries (e ∷ es) = entries es

entries-append : (es fs : List Effect) → entries (es ++ fs) ≡ entries es ++ entries fs
entries-append [] fs = refl
entries-append (reply t ∷ es) fs = entries-append es fs
entries-append (connect ip port ∷ es) fs = entries-append es fs
entries-append (forward b ∷ es) fs = entries-append es fs
entries-append (log d ∷ es) fs = ap (λ ds. d ∷ ds) (entries-append es fs)
entries-append (relay ∷ es) fs = entries-append es fs

continue-eq-ok :
    {A B : Type 0} (done : List Effect) (r : Result ProxyError A) (next : A → Run B) {b : B}
    → (continue done r next).result ≡ ok b
    → (a : A) × (r ≡ ok a)
      × ((next a).result ≡ ok b)
      × ((continue done r next).effects ≡ done ++ (next a).effects)
continue-eq-ok done (ok a) next h = (a, refl, h, refl)
continue-eq-ok done (err x) next h = cc

-- Where a chain returns, so does its first step and so does the rest, and the audit entries are both steps'.
pub entries-continue :
    {A B : Type 0} (m : Run A) (next : A → Run B) {b : B}
    → (m >>= next).result ≡ ok b
    → (a : A) × (m.result ≡ ok a)
      × ((next a).result ≡ ok b)
      × (entries (m >>= next).effects ≡ entries m.effects ++ entries (next a).effects)
entries-continue m next h =
    let (a, first, rest, same) = continue-eq-ok m.effects m.result next h in
    (a, first, rest, ap entries same ∙ entries-append m.effects (next a).effects)

attempt-eq-ok :
    (w : Result ProxyError (Unit {0})) (e : Effect) {t : Unit {0}}
    → (attempt w e).result ≡ ok t
    → (attempt w e).effects ≡ e ∷ []
attempt-eq-ok (ok t) e h = refl
attempt-eq-ok (err x) e h = cc

-- A write that succeeds logs nothing.
pub entries-attempt :
    (w : Result ProxyError (Unit {0})) (e : Effect)
    → entries (e ∷ []) ≡ []
    → entries (attempt w e).effects ≡ []
entries-attempt (ok t) e h = h
entries-attempt (err x) e h = refl

pub connections-append :
    (es fs : List Effect) → connections (es ++ fs) ≡ connections es ++ connections fs
connections-append [] fs = refl
connections-append (reply t ∷ es) fs = connections-append es fs
connections-append (connect ip port ∷ es) fs = ap (λ cs. (ip, port) ∷ cs) (connections-append es fs)
connections-append (forward b ∷ es) fs = connections-append es fs
connections-append (log d ∷ es) fs = connections-append es fs
connections-append (relay ∷ es) fs = connections-append es fs

pub connections-attempt :
    (w : Result ProxyError (Unit {0})) (e : Effect)
    → connections (e ∷ []) ≡ []
    → connections (attempt w e).effects ≡ []
connections-attempt (ok t) e h = h
connections-attempt (err x) e h = refl

-- A chain whose steps connect nowhere connects nowhere.
pub connections-continue :
    {A B : Type 0} (done : List Effect) (r : Result ProxyError A) (next : A → Run B)
    → connections done ≡ []
    → ((a : A) → r ≡ ok a → connections (next a).effects ≡ [])
    → connections (continue done r next).effects ≡ []
connections-continue done (ok a) next none_first none_after =
    connections-append done (next a).effects ∙ cc (none_first, none_after a refl, append-nil [])
connections-continue done (err x) next none_first none_after = none_first

pub All-connections-append :
    (P : IpAddr × ℕ → Type 0) (es fs : List Effect)
    → All P (connections es)
    → All P (connections fs)
    → All P (connections (es ++ fs))
All-connections-append P [] fs hs ks = ks
All-connections-append P (reply t ∷ es) fs hs ks = All-connections-append P es fs hs ks
All-connections-append P (connect ip port ∷ es) fs (h, hs) ks =
    (h, All-connections-append P es fs hs ks)
All-connections-append P (forward b ∷ es) fs hs ks = All-connections-append P es fs hs ks
All-connections-append P (log d ∷ es) fs hs ks = All-connections-append P es fs hs ks
All-connections-append P (relay ∷ es) fs hs ks = All-connections-append P es fs hs ks

-- What holds of the connections of each step of a chain holds of the chain's.
pub All-connections-continue :
    {A B : Type 0} (P : IpAddr × ℕ → Type 0) (done : List Effect) (r : Result ProxyError A)
    (next : A → Run B)
    → All P (connections done)
    → ((a : A) → r ≡ ok a → All P (connections (next a).effects))
    → All P (connections (continue done r next).effects)
All-connections-continue P done (ok a) next hs ks =
    All-connections-append P done (next a).effects hs (ks a refl)
All-connections-continue P done (err x) next hs ks = hs
