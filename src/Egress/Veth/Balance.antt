-- ===== src/Egress/Veth/Balance.antt =====
-- A setup that fails gives its slot back, but for one branch.
use zeptocapsule.Common.{ℕ, ◌≡◌, refl, ◌⊎◌, inl, inr, List, [], ◌∷◌}
use zeptocapsule.Common.Result.{Result, ok, err}
use zeptocapsule.Egress.Veth.{
  NetnsError, VethSetup, from_slot, NetEffect, run_ip, run_nsenter, release, Net, IpResults,
  or_undo, setup_slot, setup_host_side,
}

-- the slots that are released, in order
pub releases : List NetEffect → List ℕ
releases [] = []
releases (run_ip args ∷ es) = releases es
releases (run_nsenter args ∷ es) = releases es
releases (release slot ∷ es) = slot ∷ releases es

-- a setup and what becomes of its slot: kept, given back, or neither kept nor given back
abbrev pub Kept : ℕ → Net VethSetup → Type 0
Kept slot run = (run.result ≡ ok (from_slot slot)) × (releases run.effects ≡ [])

abbrev pub Returned : ℕ → Net VethSetup → Type 0
Returned slot run = (e : NetnsError) × (run.result ≡ err e) × (releases run.effects ≡ slot ∷ [])

abbrev pub Leaked : Net VethSetup → Type 0
Leaked run = (e : NetnsError) × (run.result ≡ err e) × (releases run.effects ≡ [])

-- how a setup that has a slot ends, by the results of its commands
abbrev pub Ends : IpResults → ℕ → Net VethSetup → Type 0
Ends env slot run =
    ((e : NetnsError) × (env.add ≡ err e) × Leaked run)
    ⊎ ((env.add ≡ ok tt) × (Returned slot run ⊎ Kept slot run))

setup_slot_at :
    (del add addr up del_again : Result NetnsError (Unit {0})) (slot : ℕ)
    → (let env : IpResults = record {
      del = del;
      add = add;
      addr = addr;
      up = up;
      del_again = del_again;
    } in
        Ends env slot (setup_slot env slot))
unfolding setup_slot or_undo releases from_slot
setup_slot_at del (err e) addr up again slot = inl (e, refl, (e, refl, refl))
setup_slot_at del (ok t) (err e) up again slot = inr (refl, inl (e, refl, refl))
setup_slot_at del (ok t) (ok u) (err e) again slot = inr (refl, inl (e, refl, refl))
setup_slot_at del (ok t) (ok u) (ok v) again slot = inr (refl, inr (refl, refl))

-- Of a setup that has a slot: if the pair is not created, it fails and the slot is not released; if the
-- pair is created and a later command fails, it fails and releases the slot once; otherwise it returns
-- the setup of the slot and releases none.
pub setup_host_side-Ends :
    (env : IpResults) (slot : ℕ) → Ends env slot (setup_host_side env (ok slot))
unfolding setup_host_side
setup_host_side-Ends env slot = setup_slot_at env.del env.add env.addr env.up env.del_again slot
