-- ===== src/Common/Program.antt =====
-- A program as the calls that it makes of the system: each call goes on by its answer, so that a
-- program has one run for every way in which the system can answer.
use zeptocapsule.Common.{◌≡◌}
use zeptocapsule.Common.Result.{Result, ok, err}

-- `E` are the calls, `Ans` their answers, and `X` the errors that the program returns.
pub data Program (E : Type 0) (Ans : E → Type 0) (X A : Type 0) : Type 0 where
  ret : A → Program E Ans X A
  raise : X → Program E Ans X A
  call : (e : E) → (Ans e → Program E Ans X A) → Program E Ans X A

-- A run ends in one of the states that `at` gives, and the state and the result are as stated.
abbrev pub Lands :
    {X A S W : Type 0} → (S → W) → (S → Result X A → Type 0) → W → Result X A → Type 0
Lands {S = S} at P v r = (s : S) × (v ≡ at s) × P s r

module _ {E : Type 0} {Ans : E → Type 0} {X : Type 0} where
  -- a call, for its answer
  abbrev pub ask : (e : E) → Program E Ans X (Ans e)
  ask e = call e (λ r. ret r)

  infixl 5 ◌>>=◌ ◌>>◌
  abbrev pub ◌>>=◌ :
      {A B : Type 0} → Program E Ans X A → (A → Program E Ans X B) → Program E Ans X B
  ret a >>= next = next a
  raise x >>= next = raise x
  call e go >>= next = call e (λ r. go r >>= next)

  abbrev pub ◌>>◌ : {A B : Type 0} → Program E Ans X A → Program E Ans X B → Program E Ans X B
  m >> rest = m >>= λ _. rest

  -- what is done on an error before it is returned
  abbrev pub on_error :
      {A : Type 0} → Program E Ans X (Unit {0}) → Program E Ans X A → Program E Ans X A
  on_error undo (ret a) = ret a
  on_error undo (raise x) = undo >> raise x
  on_error undo (call e go) = call e (λ r. on_error undo (go r))

  -- the result as a value, for a caller that does not pass the error on
  abbrev pub attempt : {A : Type 0} → Program E Ans X A → Program E Ans X (Result X A)
  attempt (ret a) = ret (ok a)
  attempt (raise x) = ret (err x)
  attempt (call e go) = call e (λ r. attempt (go r))

  -- `.map_err(f)`
  abbrev pub map_err : {A : Type 0} → (X → X) → Program E Ans X A → Program E Ans X A
  map_err f (ret a) = ret a
  map_err f (raise x) = raise (f x)
  map_err f (call e go) = call e (λ r. map_err f (go r))

  -- `result?`
  abbrev pub lift : {A : Type 0} → Result X A → Program E Ans X A
  lift (ok a) = ret a
  lift (err x) = raise x

  -- `W` is what is observed of a run: `see` is what a call and its answer make of it.
  module _ {W : Type 0} (see : (e : E) → Ans e → W → W) where
    -- However the system answers, a run that starts in the state ends in a state and a result as stated.
    abbrev pub Every : {A : Type 0} → W → Program E Ans X A → (W → Result X A → Type 0) → Type 0
    Every w (ret a) P = P w (ok a)
    Every w (raise x) P = P w (err x)
    Every w (call e go) P = (r : Ans e) → Every (see e r w) (go r) P

    -- the run against a system that answers by the state
    unfoldable pub run :
        {A : Type 0} → ((w : W) (e : E) → Ans e) → W → Program E Ans X A → W × Result X A
    run answer w (ret a) = (w, ok a)
    run answer w (raise x) = (w, err x)
    run answer w (call e go) = let r = answer w e in run answer (see e r w) (go r)

    abbrev pub Valued :
        {A : Type 0} → (W → Result X A → Type 0) → W → Result X (Result X A) → Type 0
    Valued P w (ok r) = P w r
    Valued P w (err x) = ⊥

    -- What holds of every run holds of that one.
    pub Every-run :
        {A : Type 0} (answer : (w : W) (e : E) → Ans e) (w : W) (m : Program E Ans X A)
        (P : W → Result X A → Type 0)
        → Every w m P
        → (let (w', r) = run answer w m in P w' r)
    unfolding run
    Every-run answer w (ret a) P h = h
    Every-run answer w (raise x) P h = h
    Every-run answer w (call e go) P h =
        Every-run answer (see e (answer w e) w) (go (answer w e)) P (h (answer w e))

    -- A run whose first part returns goes on from there.
    pub run-then :
        {A B : Type 0} (answer : (w : W) (e : E) → Ans e) (w v : W) (a : A) (m : Program E Ans X A)
        (next : A → Program E Ans X B)
        → run answer w m ≡ (v, ok a)
        → run answer w (m >>= next) ≡ run answer v (next a)
    unfolding run
    run-then answer w v a (ret b) next h = cc
    run-then answer w v a (raise x) next h = cc
    run-then answer w v a (call e go) next h =
        run-then answer (see e (answer w e) w) v a (go (answer w e)) next h

    -- A chain is proved by its first part and, from what that part leaves, the rest.
    pub Every->>= :
        {A B : Type 0} (w : W) (m : Program E Ans X A) (next : A → Program E Ans X B)
        (Q : W → Result X A → Type 0) (P : W → Result X B → Type 0)
        → Every w m Q
        → ((v : W) (a : A) → Q v (ok a) → Every v (next a) P)
        → ((v : W) (x : X) → Q v (err x) → P v (err x))
        → Every w (m >>= next) P
    Every->>= w (ret a) next Q P h good bad = good w a h
    Every->>= w (raise x) next Q P h good bad = bad w x h
    Every->>= w (call e go) next Q P h good bad =
        λ r. Every->>= (see e r w) (go r) next Q P (h r) good bad

    -- what holds of every run may be weakened
    pub Every_mono :
        {A : Type 0} (w : W) (m : Program E Ans X A) (Q P : W → Result X A → Type 0)
        → Every w m Q
        → ((v : W) (r : Result X A) → Q v r → P v r)
        → Every w m P
    Every_mono w (ret a) Q P h weaker = weaker w (ok a) h
    Every_mono w (raise x) Q P h weaker = weaker w (err x) h
    Every_mono w (call e go) Q P h weaker = λ r. Every_mono (see e r w) (go r) Q P (h r) weaker

    -- A result taken as a value: what holds of it, and of no error, is what held of the result.
    pub Every-attempt :
        {A : Type 0} (w : W) (m : Program E Ans X A) (P : W → Result X A → Type 0)
        → Every w m P
        → Every w (attempt m) (Valued P)
    Every-attempt w (ret a) P h = h
    Every-attempt w (raise x) P h = h
    Every-attempt w (call e go) P h = λ r. Every-attempt (see e r w) (go r) P (h r)

    pub Every-on_error :
        {A : Type 0} (w : W) (undo : Program E Ans X (Unit {0})) (m : Program E Ans X A)
        (Q P : W → Result X A → Type 0)
        → Every w m Q
        → ((v : W) (a : A) → Q v (ok a) → P v (ok a))
        → ((v : W) (x : X) → Q v (err x) → Every v (undo >> raise x) P)
        → Every w (on_error undo m) P
    Every-on_error w undo (ret a) Q P h good bad = good w a h
    Every-on_error w undo (raise x) Q P h good bad = bad w x h
    Every-on_error w undo (call e go) Q P h good bad =
        λ r. Every-on_error (see e r w) undo (go r) Q P (h r) good bad

    pub Every-map_err :
        {A : Type 0} (w : W) (f : X → X) (m : Program E Ans X A) (Q P : W → Result X A → Type 0)
        → Every w m Q
        → ((v : W) (a : A) → Q v (ok a) → P v (ok a))
        → ((v : W) (x : X) → Q v (err x) → P v (err (f x)))
        → Every w (map_err f m) P
    Every-map_err w f (ret a) Q P h good bad = good w a h
    Every-map_err w f (raise x) Q P h good bad = bad w x h
    Every-map_err w f (call e go) Q P h good bad =
        λ r. Every-map_err (see e r w) f (go r) Q P (h r) good bad

    pub Lands->>= :
        {A B S : Type 0} (at : S → W) (s : S) (m : Program E Ans X A) (next : A → Program E Ans X B)
        (P : S → Result X A → Type 0) (Q : S → Result X B → Type 0)
        → Every (at s) m (Lands at P)
        → ((t : S) (a : A) → P t (ok a) → Every (at t) (next a) (Lands at Q))
        → ((t : S) (x : X) → P t (err x) → Q t (err x))
        → Every (at s) (m >>= next) (Lands at Q)
    Lands->>= at s m next P Q h good bad =
        Every->>= (at s) m next (Lands at P) (Lands at Q) h (λ v a q. rw q.1 (good q.0 a q.2))
          (λ v x q. (q.0, q.1, bad q.0 x q.2))
