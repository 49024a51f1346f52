-- ===== src/Prelude/Equality.antt =====
-- `===` as an interface, so that one `==` serves texts, numbers and enumerations.
use Prim.Native.Nat.{ℕ}
use Prim.Native.String.{String}
use mathlib.Core.Path.{◌≡◌, refl, ap, subst}
use mathlib.Core.Logic.{◌↔◌}
use mathlib.Core.Bool.{Bool, true, false, ◌&&◌}
use mathlib.Core.List.{List, [], ◌∷◌}
use native.Mathlib.Omega.{arith}
use text.Mathlib.Text.{◌==◌ as str_eq}
use text.Mathlib.TextEquality.{eq_iff}
use muslimrentals.Prelude.Tests.{eqb, eqb_iff}

-- A Boolean test that decides equality.
pub record HasEquality {ℓ} (K : Type ℓ) : Type ℓ where
  pub same : K → K → Bool
  pub same_iff : (j k : K) → (same j k ≡ true) ↔ (j ≡ k)

-- An enumeration is compared by the number of each constructor.
abbrev pub ranked_equality {ℓ} :
    {K : Type ℓ} (rank : K → ℕ) → ((j k : K) → rank j ≡ rank k → j ≡ k) → HasEquality K
ranked_equality rank injective = record {
  same = λ j k. eqb (rank j) (rank k);
  same_iff = λ j k. (λ h. injective j k ((eqb_iff _ _).0 h), λ h. (eqb_iff _ _).1 (ap rank h));
}

instance abbrev pub string_equality : HasEquality String
string_equality = record { same = str_eq; same_iff = eq_iff }

instance abbrev pub nat_equality : HasEquality ℕ
nat_equality = ranked_equality (λ n. n) (λ j k h. h)

module _ {ℓ} {K : Type ℓ} ⦃q : HasEquality K⦄ where
  infix 50 ◌==◌
  abbrev pub ◌==◌ : K → K → Bool
  j == k = q.same j k

  pub same_refl : (k : K) → (k == k) ≡ true
  same_refl k = (q.same_iff k k).1 refl

  pub eq_of_same : (j k : K) → (j == k) ≡ true → j ≡ k
  eq_of_same j k = (q.same_iff j k).0

-- Lists are compared element by element.
module _ {ℓ} {K : Type ℓ} ⦃q : HasEquality K⦄ where
  abbrev same_list : List K → List K → Bool
  same_list [] [] = true
  same_list (j ∷ js) (k ∷ ks) = (j == k) && same_list js ks
  same_list js ks = false

  same_list_refl : (ks : List K) → same_list ks ks ≡ true
  same_list_refl [] = refl
  same_list_refl (k ∷ ks) = ground (arith, same_refl k, same_list_refl ks)

  eq_of_same_list : (js ks : List K) → same_list js ks ≡ true → js ≡ ks
  eq_of_same_list [] [] h = refl
  eq_of_same_list (j ∷ js) (k ∷ ks) h = ground (arith, eq_of_same j k, eq_of_same_list js ks)
  eq_of_same_list [] (k ∷ ks) h = cc
  eq_of_same_list (j ∷ js) [] h = cc

  pub same_list_iff : (js ks : List K) → (same_list js ks ≡ true) ↔ (js ≡ ks)
  same_list_iff js ks =
      (eq_of_same_list js ks, λ e. subst (λ ls. same_list js ls ≡ true) e (same_list_refl js))

instance abbrev pub codes_equality : HasEquality (List ℕ)
codes_equality = record { same = same_list; same_iff = same_list_iff }
