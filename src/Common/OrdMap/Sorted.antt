-- ===== src/Common/OrdMap/Sorted.antt =====
-- A map keeps its keys in order, so an entry is in the map exactly if it is found.
use mathlib.Core.Path.{◌≡◌, refl}
use mathlib.Core.Bool.{Bool, true, false, ◌||◌}
use mathlib.Core.List.{List, [], ◌∷◌}
use mathlib.Core.Logic.{inl, inr, ◌↔◌}
use mathlib.Core.Option.{none, some}
use native.Mathlib.Omega.{arith}
use homecontrol_server.Common.Tests.{Bool-cases}
use homecontrol_server.Common.Lists.{All}
use homecontrol_server.Common.OrdMap.{Key, find, assign, erase}

module _ {K V : Type 0} ⦃k : Key K⦄ where
  abbrev Above : K → List (K × V) → Type 0
  Above x = All (λ e. k.lt x e.0 ≡ true)

  abbrev pub IsSorted : List (K × V) → Type 0
  IsSorted [] = Unit {0}
  IsSorted ((x, v) ∷ m) = Above x m × IsSorted m

  Above-trans : (x y : K) (m : List (K × V)) → k.lt x y ≡ true → Above y m → Above x m
  Above-trans x y [] h a = tt
  Above-trans x y ((z, v) ∷ m) h a = (k.lt_trans x y z h a.0, Above-trans x y m h a.1)

  Above-assign :
      (x y : K) (v : V) (m : List (K × V)) → k.lt y x ≡ true → Above y m → Above y (assign x v m)
  unfolding assign
  Above-assign x y v [] h a = (h, tt)
  Above-assign x y v ((z, w) ∷ m) h a = ground (arith, Above-assign x y v m)

  pub assign-IsSorted : (x : K) (v : V) (m : List (K × V)) → IsSorted m → IsSorted (assign x v m)
  unfolding assign
  assign-IsSorted x v [] s = (tt, tt)
  assign-IsSorted x v ((y, w) ∷ m) s = ground (
    arith,
    k.eq_sound y x,
    k.lt_total y x,
    Above-trans x y m,
    Above-assign x y v m,
    assign-IsSorted x v m,
  )

  find-Above : (x : K) (m : List (K × V)) → Above x m → find x m ≡ none
  unfolding find
  find-Above x [] a = refl
  find-Above x ((y, w) ∷ m) a = ground (arith, k.eq_sound y x, k.lt_irrefl x, find-Above x m)

  Above-erase : (x y : K) (m : List (K × V)) → Above y m → Above y (erase x m)
  unfolding erase
  Above-erase x y [] a = tt
  Above-erase x y ((z, w) ∷ m) a = ground (arith, Above-erase x y m)

  pub erase-IsSorted : (x : K) (m : List (K × V)) → IsSorted m → IsSorted (erase x m)
  unfolding erase
  erase-IsSorted x [] s = tt
  erase-IsSorted x ((y, w) ∷ m) s = ground (arith, Above-erase x y m, erase-IsSorted x m)

  -- A loop over the map that looks for a value.
  unfoldable pub any_value : (V → Bool) → List (K × V) → Bool
  any_value p [] = false
  any_value p ((x, v) ∷ m) = p v || any_value p m

  pub any_value_of_find :
      (p : V → Bool) (x : K) (v : V) (m : List (K × V))
      → find x m ≡ some v
      → p v ≡ true
      → any_value p m ≡ true
  unfolding find any_value
  any_value_of_find p x v [] h e = ground arith
  any_value_of_find p x v ((y, w) ∷ m) h e = ground (arith, any_value_of_find p x v m)

  find_of_any_value :
      (p : V → Bool) (m : List (K × V))
      → IsSorted m
      → any_value p m ≡ true
      → (x : K) × (v : V) × (find x m ≡ some v) × (p v ≡ true)
  unfolding find any_value
  find_of_any_value p [] s h = absurd (ground arith)
  find_of_any_value p ((y, w) ∷ m) s h = elim (Bool-cases (p w)) [
    | inl e ↦ (y, w, ground (arith, k.eq_refl y), e)
    | inr e ↦
        let (x, v, f, q) = find_of_any_value p m s.1 (ground arith) in
        (x, v, ground (arith, k.eq_sound y x, find-Above y m), q)
  ]

  pub any_value_iff :
      (p : V → Bool) (m : List (K × V))
      → IsSorted m
      → (any_value p m ≡ true) ↔ ((x : K) × (v : V) × (find x m ≡ some v) × (p v ≡ true))
  any_value_iff p m s = (find_of_any_value p m s, λ (x, v, f, q). any_value_of_find p x v m f q)
