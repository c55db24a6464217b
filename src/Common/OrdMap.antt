-- ===== src/Common/OrdMap.antt =====
-- `std::map`: entries in the order of their keys, one for each key. The key's order is an instance.
pub mod Sorted
use Prim.Native.Nat.{ℕ}
use mathlib.Core.Path.{◌≡◌, refl}
use mathlib.Core.Bool.{Bool, true, false}
use mathlib.Core.List.{List, [], ◌∷◌, map}
use mathlib.Core.Option.{Option, none, some}
use mathlib.Core.Logic.{inl, inr}
use native.Mathlib.Omega.{arith}
use homecontrol_server.Common.Tests.{ltb, ◌==◌, ==_iff, if◌then◌else◌, Bool-cases}
use homecontrol_server.Common.Int.{ℤ, ltb_ℤ, eq_ℤ, eq_ℤ_iff}
use homecontrol_server.Common.Strings.{Text, text_eq, text_eq→eq, text_eq_refl}

-- A strict total order on keys, with the equality that it decides.
pub record Key (K : Type 0) : Type 0 where
  pub lt : K → K → Bool
  pub eq : K → K → Bool
  pub eq_sound : (a b : K) → eq a b ≡ true → a ≡ b
  pub eq_refl : (a : K) → eq a a ≡ true
  pub lt_irrefl : (a : K) → lt a a ≡ false
  pub lt_trans : (a b c : K) → lt a b ≡ true → lt b c ≡ true → lt a c ≡ true
  pub lt_total : (a b : K) → eq a b ≡ false → lt b a ≡ false → lt a b ≡ true

pub ltb_irrefl : (a : ℕ) → ltb a a ≡ false
ltb_irrefl a = ground arith

pub ltb_trans : (a b c : ℕ) → ltb a b ≡ true → ltb b c ≡ true → ltb a c ≡ true
ltb_trans a b c h k = ground arith

pub ltb_total : (a b : ℕ) → (a == b) ≡ false → ltb b a ≡ false → ltb a b ≡ true
ltb_total a b h k = ground arith

pub ltb_ℤ_irrefl : (a : ℤ) → ltb_ℤ a a ≡ false
ltb_ℤ_irrefl a = ground arith

pub ltb_ℤ_trans : (a b c : ℤ) → ltb_ℤ a b ≡ true → ltb_ℤ b c ≡ true → ltb_ℤ a c ≡ true
ltb_ℤ_trans a b c h k = ground arith

pub ltb_ℤ_total : (a b : ℤ) → eq_ℤ a b ≡ false → ltb_ℤ b a ≡ false → ltb_ℤ a b ≡ true
ltb_ℤ_total a b h k = ground arith

instance abbrev pub ℕ_key : Key ℕ
ℕ_key = record {
  lt = ltb;
  eq = ◌==◌;
  eq_sound = λ a b. (==_iff a b).0;
  eq_refl = λ a. (==_iff a a).1 refl;
  lt_irrefl = ltb_irrefl;
  lt_trans = ltb_trans;
  lt_total = ltb_total;
}

instance abbrev pub ℤ_key : Key ℤ
ℤ_key = record {
  lt = ltb_ℤ;
  eq = eq_ℤ;
  eq_sound = λ a b. (eq_ℤ_iff a b).0;
  eq_refl = λ a. (eq_ℤ_iff a a).1 refl;
  lt_irrefl = ltb_ℤ_irrefl;
  lt_trans = ltb_ℤ_trans;
  lt_total = ltb_ℤ_total;
}

abbrev pub text_lt : Text → Text → Bool
text_lt [] [] = false
text_lt [] (b ∷ t) = true
text_lt (a ∷ s) [] = false
text_lt (a ∷ s) (b ∷ t) = if a == b then text_lt s t else ltb a b

pub text_lt_irrefl : (s : Text) → text_lt s s ≡ false
text_lt_irrefl [] = refl
text_lt_irrefl (a ∷ s) = ground (arith, text_lt_irrefl s)

pub text_lt_trans : (s t u : Text) → text_lt s t ≡ true → text_lt t u ≡ true → text_lt s u ≡ true
text_lt_trans [] [] u h k = k
text_lt_trans [] (b ∷ t) [] h k = k
text_lt_trans [] (b ∷ t) (c ∷ u) h k = refl
text_lt_trans (a ∷ s) [] u h k = ground arith
text_lt_trans (a ∷ s) (b ∷ t) [] h k = k
text_lt_trans (a ∷ s) (b ∷ t) (c ∷ u) h k = ground (arith, text_lt_trans s t u)

pub text_lt_total : (s t : Text) → text_eq s t ≡ false → text_lt t s ≡ false → text_lt s t ≡ true
text_lt_total [] [] h k = ground arith
text_lt_total [] (b ∷ t) h k = refl
text_lt_total (a ∷ s) [] h k = ground arith
text_lt_total (a ∷ s) (b ∷ t) h k = ground (arith, text_lt_total s t)

instance abbrev pub text_key : Key Text
text_key = record {
  lt = text_lt;
  eq = text_eq;
  eq_sound = text_eq→eq;
  eq_refl = text_eq_refl;
  lt_irrefl = text_lt_irrefl;
  lt_trans = text_lt_trans;
  lt_total = text_lt_total;
}

module _ {K V : Type 0} ⦃k : Key K⦄ where
  unfoldable pub find : K → List (K × V) → Option V
  find x [] = none
  find x ((y, v) ∷ m) = if k.eq y x then some v else find x m

  -- `m[x] = v`: a present entry is overwritten in its place, a new one goes to its place in the order.
  unfoldable pub assign : K → V → List (K × V) → List (K × V)
  assign x v [] = (x, v) ∷ []
  assign x v ((y, w) ∷ m) =
      if k.eq y x
      then (x, v) ∷ m
      else if k.lt x y
      then (x, v) ∷ (y, w) ∷ m
      else (y, w) ∷ assign x v m

  unfoldable pub erase : K → List (K × V) → List (K × V)
  erase x [] = []
  erase x ((y, w) ∷ m) = if k.eq y x then erase x m else (y, w) ∷ erase x m

  pub find-assign_self : (x : K) (v : V) (m : List (K × V)) → find x (assign x v m) ≡ some v
  unfolding find assign
  find-assign_self x v [] = ground (arith, k.eq_refl x)
  find-assign_self x v ((y, w) ∷ m) = ground (arith, k.eq_refl x, find-assign_self x v m)

  -- A key that is not assigned keeps its entry.
  pub find-assign_ne :
      (x z : K) (v : V) (m : List (K × V)) → k.eq x z ≡ false → find z (assign x v m) ≡ find z m
  unfolding find assign
  find-assign_ne x z v [] h = ground arith
  find-assign_ne x z v ((y, w) ∷ m) h = elim (Bool-cases (k.eq y x)) [
    | inl e ↦ ground (arith, k.eq_sound y x)
    | inr e ↦ ground (arith, find-assign_ne x z v m)
  ]

  pub find-erase_self : (x : K) (m : List (K × V)) → find x (erase x m) ≡ none
  unfolding find erase
  find-erase_self x [] = refl
  find-erase_self x ((y, w) ∷ m) = ground (arith, find-erase_self x m)

  pub find-erase_ne :
      (x z : K) (m : List (K × V)) → k.eq x z ≡ false → find z (erase x m) ≡ find z m
  unfolding find erase
  find-erase_ne x z [] h = refl
  find-erase_ne x z ((y, w) ∷ m) h = elim (Bool-cases (k.eq y x)) [
    | inl e ↦ ground (arith, k.eq_sound y x, find-erase_ne x z m)
    | inr e ↦ ground (arith, find-erase_ne x z m)
  ]

  abbrev pub values : List (K × V) → List V
  values = map (λ e. e.1)
