-- ===== src/Egress/Tap/Balance.antt =====
-- A setup of a TAP device that fails gives its slot back, but for one branch.
use zeptocapsule.Common.{◌||◌, ℕ, Bool, true, false, List, [], ◌∷◌, ◌≡◌, refl, ◌⊎◌, inl, inr}
use zeptocapsule.Common.Result.{Result, ok, err, by_result}
use zeptocapsule.Common.Program.{Every}
use zeptocapsule.Text.{Str, codes, str_eq}
use zeptocapsule.Egress.Tap.{
  FcNetError, TapSetup, from_slot, TapCall, allocate_slot, run_ip, release_slot, TapAns, setup_tap,
  add_device, teardown,
}

-- The slots that are taken and those that are released, the latest first, and whether a device was added.
pub record Pool : Type 0 where
  pub taken : List ℕ
  pub released : List ℕ
  pub added : Bool

abbrev took : Result FcNetError ℕ → Pool → Pool
took (ok slot) m = record m { taken = slot ∷ m.taken }
took (err e) m = m

abbrev adds : List Str → Result FcNetError (Unit {0}) → Pool → Pool
adds (what ∷ args) (ok t) m = record m { added = m.added || str_eq what (codes "tuntap") }
adds (what ∷ args) (err e) m = m
adds [] r m = m

unfoldable pub see : (e : TapCall) → TapAns e → Pool → Pool
unfolding str_eq
see allocate_slot r m = took r m
see (run_ip args) r m = adds args r m
see (release_slot slot) r m = record m { released = slot ∷ m.released }

abbrev pub start : Pool
start = record { taken = []; released = []; added = false }

-- a setup of a device, or an error: without a slot, with a slot that is released, or with one that is not
abbrev pub Ends : Pool → Result FcNetError TapSetup → Type 0
Ends v (ok setup) =
    (setup ≡ from_slot setup.slot)
    × (v ≡ record { taken = setup.slot ∷ []; released = []; added = true })
Ends v (err e) =
    (v ≡ start)
    ⊎ ((slot : ℕ) × (v ≡ record { taken = slot ∷ []; released = slot ∷ []; added = true }))
    ⊎ ((slot : ℕ) × (v ≡ record { taken = slot ∷ []; released = []; added = false }))

abbrev holding : ℕ → Bool → Pool
holding slot added = record { taken = slot ∷ []; released = []; added = added }

add_device-Ends : (slot : ℕ) → Every see (holding slot false) (add_device (from_slot slot)) Ends
unfolding add_device teardown from_slot see str_eq
add_device-Ends slot =
    by_result _
      (λ _.
        by_result _
          (λ _.
            by_result _ (λ _. (refl, refl))
              (λ _. by_result _ (λ _ _. inr (inl (slot, refl))) (λ _ _. inr (inl (slot, refl)))))
          (λ _. by_result _ (λ _ _. inr (inl (slot, refl))) (λ _ _. inr (inl (slot, refl)))))
      (λ _. inr (inr (slot, refl)))

-- However the system answers, `setup_tap` takes at most one slot, and ends with: the setup of the slot,
-- whose device was added and which is not released; an error and no slot; an error after the device was
-- added, the slot released once; or an error where the device was not added, the slot not released.
pub setup_tap-Ends : Every see start setup_tap Ends
unfolding setup_tap from_slot see str_eq
setup_tap-Ends =
    by_result _ (λ slot. by_result _ (λ _. add_device-Ends slot) (λ _. add_device-Ends slot))
      (λ _. inl refl)
