-- ===== src/Egress/Slots/Unique.antt =====
-- No slot is held twice, whatever the order in which concurrent callers load, exchange and release.
use zeptocapsule.Common.{
  ℕ, ◌<◌, ◌≡◌, ◌≢◌, inl, inr, Bool, true, false, Bool-cases, ==_iff, lt→ltb, ◌==◌, List, [], ◌∷◌,
  ◌++◌, arith,
}
use zeptocapsule.Egress.Slots.{pool_size, find_slot, exhausted, taken, round, release_slot}
use zeptocapsule.Egress.Slots.Bits.{
  test_bit, set_bit, clear_bit, test_bit-set_bit, test_bit-set_bit_other, test_bit-clear_bit,
  test_bit-clear_bit_other, test_bit-zero,
}
use zeptocapsule.Egress.Slots.Held.{
  inserted-Member, Member, Distinct, Member-insert, insert-Member, Distinct-remove, removed,
}
use zeptocapsule.Egress.Slots.Lowest.{find_from-eq-none, exchange-eq-exhausted, round-eq-taken}

-- The word, and the slots that are handed out and not released.
pub record Pool : Type 0 where
  pub bits : ℕ
  pub held : List ℕ

-- One atomic step of any caller: an exchange after a load at any time before, which takes a slot, or the
-- release of a slot that is held.
pub data Step : Pool → Pool → Type 0 where
  acquire :
      (pool : Pool) (loaded slot bits : ℕ)
      → round loaded pool.bits ≡ taken slot bits
      → Step pool (record { bits = bits; held = slot ∷ pool.held })
  release :
      (bits slot : ℕ) (before after : List ℕ)
      → Step
          (record { bits = bits; held = before ++ slot ∷ after })
          (record { bits = release_slot slot bits; held = before ++ after })

pub data Reachable : Pool → Type 0 where
  start : Reachable (record { bits = 0; held = [] })
  step : (p q : Pool) → Reachable p → Step p q → Reachable q

-- The word has exactly the bits of the held slots, which are below 64 and all different.
pub record IsPool (p : Pool) : Type 0 where
  pub set : (s : ℕ) → test_bit s p.bits ≡ true → Member s p.held
  pub member : (s : ℕ) → Member s p.held → test_bit s p.bits ≡ true
  pub distinct : Distinct p.held
  pub small : (s : ℕ) → Member s p.held → s < pool_size

Bool-clash : {b : Bool} {A : Type 0} → b ≡ true → b ≡ false → A
Bool-clash h k = cc

-- the tests of two numbers
ne-of-test : (s t : ℕ) → s == t ≡ false → s ≢ t
ne-of-test s t h e = Bool-clash ((==_iff s t).1 e) h

acquire-IsPool :
    (pool : Pool) (slot bits : ℕ)
    → test_bit slot pool.bits ≡ false
    → slot < pool_size
    → bits ≡ set_bit slot pool.bits
    → IsPool pool
    → IsPool (record { bits = bits; held = slot ∷ pool.held })
acquire-IsPool pool slot bits free high new ok = record {
  set = λ s h. elim (Bool-cases (s == slot)) [
    | inl same ↦ inl ((==_iff s slot).0 same)
    | inr other ↦
        (let same_bit = test_bit-set_bit_other s slot pool.bits (ne-of-test s slot other) in
          let now : test_bit s (set_bit slot pool.bits) ≡ true = rw new at h in
          inr (ok.set s (cc (same_bit, now))))
  ];
  member = λ s m. elim (Bool-cases (s == slot)) [
    | inl same ↦ rw (new, (==_iff s slot).0 same) (test_bit-set_bit slot pool.bits)
    | inr other ↦
        (let apart = ne-of-test s slot other in
          rw (new, test_bit-set_bit_other s slot pool.bits apart)
            (elim m [ inl e ↦ absurd (apart e) | inr k ↦ ok.member s k ]))
  ];
  distinct = ((λ m. Bool-clash (ok.member slot m) free), ok.distinct);
  small = λ s m. elim m [ inl e ↦ rw e high | inr k ↦ ok.small s k ];
}

release-IsPool :
    (bits slot : ℕ) (before after : List ℕ)
    → IsPool (record { bits = bits; held = before ++ slot ∷ after })
    → IsPool (record { bits = release_slot slot bits; held = before ++ after })
unfolding release_slot
release-IsPool bits slot before after ok =
    let gone = removed slot before after ok.distinct in
    let small = lt→ltb slot pool_size (ok.small slot (inserted-Member slot before after)) in
    record {
      set = λ s h. elim (Bool-cases (s == slot)) [
        | inl same ↦
            (let e = (==_iff s slot).0 same in
              let now : test_bit s (clear_bit slot bits) ≡ true = rw small at h in
              Bool-clash now (rw e (test_bit-clear_bit slot bits)))
        | inr other ↦
            (let apart = ne-of-test s slot other in
              let now : test_bit s (clear_bit slot bits) ≡ true = rw small at h in
              elim (Member-insert s slot before after
                (ok.set s (cc (now, test_bit-clear_bit_other s slot bits apart)))) [
                  | inl e ↦ absurd (apart e)
                  | inr k ↦ k
                ])
      ];
      member = λ s m.
          (let apart : s ≢ slot = (λ e. gone (rw e at m)) in
            rw (small, test_bit-clear_bit_other s slot bits apart)
              (ok.member s (insert-Member s slot before after m)));
      distinct = Distinct-remove slot before after ok.distinct;
      small = λ s m. ok.small s (insert-Member s slot before after m);
    }

start-IsPool : IsPool (record { bits = 0; held = [] })
start-IsPool = record {
  set = λ s h. Bool-clash h (test_bit-zero s);
  member = λ s m. absurd m;
  distinct = tt;
  small = λ s m. absurd m;
}

-- In every reachable state the word has exactly the bits of the held slots, which are below 64 and all
-- different.
pub Reachable-IsPool : (p : Pool) → Reachable p → IsPool p
Reachable-IsPool _ start = start-IsPool
Reachable-IsPool _ (step _ _ r (acquire pool loaded slot bits went)) =
    let (free, high, below, new) = round-eq-taken loaded pool.bits slot bits went in
    acquire-IsPool pool slot bits free high new (Reachable-IsPool pool r)
Reachable-IsPool _ (step _ _ r (release bits slot before after)) =
    release-IsPool bits slot before after (Reachable-IsPool _ r)

-- In every reachable state a round that takes a slot takes the lowest that is not held, and it is below 64.
pub Reachable-taken :
    (p : Pool) (loaded slot bits : ℕ)
    → Reachable p
    → round loaded p.bits ≡ taken slot bits
    → ¬ Member slot p.held × (slot < pool_size) × ((t : ℕ) → t < slot → Member t p.held)
Reachable-taken p loaded slot bits r h =
    let ok = Reachable-IsPool p r in
    let (free, high, below, new) = round-eq-taken loaded p.bits slot bits h in
    ((λ m. Bool-clash (ok.member slot m) free), high, λ t less. ok.set t (below t less))

-- In every reachable state a round that loads the current word finds the pool exhausted only if all 64
-- slots are held.
pub Reachable-exhausted :
    (p : Pool) (t : ℕ)
    → Reachable p
    → round p.bits p.bits ≡ exhausted
    → t < pool_size
    → Member t p.held
unfolding round find_slot
Reachable-exhausted p t r h high = (Reachable-IsPool p r).set t (
    find_from-eq-none pool_size 0 p.bits t (exchange-eq-exhausted p.bits p.bits _ h) (omega arith)
      (omega (arith, high)))
