-- ===== src/Prelude/Sort.antt =====
-- `ORDER BY` and `Array.prototype.sort`: a stable sort by a Boolean order. (SQLite leaves the order
-- of equal rows open; here they stay in the order of insertion.)
use Prim.Native.Nat.{ℕ, zero, suc, ◌+◌}
use mathlib.Core.Path.{◌≡◌, refl, subst}
use mathlib.Core.Logic.{inl, inr}
use mathlib.Core.Bool.{Bool, true, false, ◌&&◌}
use mathlib.Core.Option.{none, some}
use mathlib.Core.List.{List, [], ◌∷◌}
use native.Mathlib.Omega.{arith}
use muslimrentals.Prelude.Tests.{if◌then◌else◌, Bool-cases}
use muslimrentals.Prelude.Lists.{filter, find, All, take, take-All}

module _ {ℓ} {A : Type ℓ} where
  -- How many elements pass a test.
  abbrev pub tally : (A → Bool) → List A → ℕ
  tally p [] = 0
  tally p (x ∷ xs) = (if p x then 1 else 0) + tally p xs

  pub tally-filter :
      (p q : A → Bool) (xs : List A) → tally p (filter q xs) ≡ tally (λ x. q x && p x) xs
  tally-filter p q [] = refl
  tally-filter p q (x ∷ xs) = ground (arith, tally-filter p q xs)

  -- Two tests that agree count the same.
  pub tally-same : (p q : A → Bool) (xs : List A) → ((x : A) → p x ≡ q x) → tally p xs ≡ tally q xs
  tally-same p q [] same = refl
  tally-same p q (x ∷ xs) same = ground (arith, same x, tally-same p q xs same)

  -- A search that finds nothing passes over elements that do not count.
  pub find-none : (p : A → Bool) (xs : List A) → find p xs ≡ none → tally p xs ≡ 0
  find-none p [] h = refl
  find-none p (x ∷ xs) h = ground (arith, find-none p xs)

  pub find-some : (p : A → Bool) (xs : List A) (x : A) → find p xs ≡ some x → p x ≡ true
  find-some p [] x h = cc
  find-some p (y ∷ xs) x h = ground (arith, find-some p xs x)

  pub find-All {κ} :
      (P : A → Type κ) (p : A → Bool) (xs : List A) (x : A) → find p xs ≡ some x → All P xs → P x
  find-All P p [] x h a = cc
  find-All P p (y ∷ xs) x h (q, a) = elim (Bool-cases (p y)) [
    | inl e ↦ (let same : y ≡ x = ground arith in subst P same q)
    | inr n ↦ find-All P p xs x (rw n at h) a
  ]

module _ {ℓ} {A : Type ℓ} (le : A → A → Bool) where
  insert_sorted : A → List A → List A
  insert_sorted x [] = x ∷ []
  insert_sorted x (y ∷ ys) = if le x y then x ∷ y ∷ ys else y ∷ insert_sorted x ys

  unfoldable pub sort_by : List A → List A
  unfolding insert_sorted
  sort_by [] = []
  sort_by (x ∷ xs) = insert_sorted x (sort_by xs)

  -- Each element stands before all that follow it.
  abbrev pub IsSortedBy : List A → Type ℓ
  IsSortedBy [] = Unit
  IsSortedBy (x ∷ xs) = All (λ y. le x y ≡ true) xs × IsSortedBy xs

  insert_sorted-All {κ} :
      (P : A → Type κ) (x : A) (xs : List A) → P x → All P xs → All P (insert_sorted x xs)
  unfolding insert_sorted
  insert_sorted-All P x [] p h = (p, tt)
  insert_sorted-All P x (y ∷ ys) p (q, h) = elim (Bool-cases (le x y)) [
    | inl e ↦ rw e (p, (q, h))
    | inr n ↦ rw n (q, insert_sorted-All P x ys p h)
  ]

  pub sort_by-All {κ} : (P : A → Type κ) (xs : List A) → All P xs → All P (sort_by xs)
  unfolding sort_by
  sort_by-All P [] h = tt
  sort_by-All P (x ∷ xs) (p, h) = insert_sorted-All P x (sort_by xs) p (sort_by-All P xs h)

  insert_sorted-tally :
      (p : A → Bool) (x : A) (xs : List A)
      → tally p (insert_sorted x xs) ≡ (if p x then 1 else 0) + tally p xs
  unfolding insert_sorted
  insert_sorted-tally p x [] = refl
  insert_sorted-tally p x (y ∷ ys) = ground (arith, insert_sorted-tally p x ys)

  pub sort_by-tally : (p : A → Bool) (xs : List A) → tally p (sort_by xs) ≡ tally p xs
  unfolding sort_by
  sort_by-tally p [] = refl
  sort_by-tally p (x ∷ xs) =
      ground (arith, insert_sorted-tally p x (sort_by xs), sort_by-tally p xs)

  module _ (total : (x y : A) → le x y ≡ false → le y x ≡ true)
      (trans : (x y z : A) → le x y ≡ true → le y z ≡ true → le x z ≡ true) where
    weaken :
        (x y : A) (ys : List A)
        → le x y ≡ true
        → All (λ z. le y z ≡ true) ys
        → All (λ z. le x z ≡ true) ys
    weaken x y [] h k = tt
    weaken x y (z ∷ ys) h (k, ks) = (trans x y z h k, weaken x y ys h ks)

    insert_sorted-IsSortedBy :
        (x : A) (xs : List A) → IsSortedBy xs → IsSortedBy (insert_sorted x xs)
    unfolding insert_sorted
    insert_sorted-IsSortedBy x [] h = (tt, tt)
    insert_sorted-IsSortedBy x (y ∷ ys) (before, h) = elim (Bool-cases (le x y)) [
      | inl e ↦ rw e ((e, weaken x y ys e before), (before, h))
      | inr n ↦ rw n (
        insert_sorted-All (λ z. le y z ≡ true) x ys (total x y n) before,
        insert_sorted-IsSortedBy x ys h,
      )
    ]

    pub sort_by-IsSortedBy : (xs : List A) → IsSortedBy (sort_by xs)
    unfolding sort_by
    sort_by-IsSortedBy [] = tt
    sort_by-IsSortedBy (x ∷ xs) = insert_sorted-IsSortedBy x (sort_by xs) (sort_by-IsSortedBy xs)

  pub take-IsSortedBy : (n : ℕ) (xs : List A) → IsSortedBy xs → IsSortedBy (take n xs)
  take-IsSortedBy zero xs h = tt
  take-IsSortedBy (suc n) [] h = tt
  take-IsSortedBy (suc n) (x ∷ xs) (before, h) =
      (take-All (λ y. le x y ≡ true) n xs before, take-IsSortedBy n xs h)

-- Each element stands in the relation to all that follow it.
abbrev pub IsOrdered {ℓ κ} : {A : Type ℓ} → (A → A → Type κ) → List A → Type κ
IsOrdered R [] = Unit
IsOrdered R (x ∷ xs) = All (R x) xs × IsOrdered R xs

module _ {ℓ κ} {A : Type ℓ} (le : A → A → Bool) (R : A → A → Type κ)
    (means : (x y : A) → le x y ≡ true → R x y) where
  means-All : (x : A) (ys : List A) → All (λ y. le x y ≡ true) ys → All (R x) ys
  means-All x [] h = tt
  means-All x (y ∷ ys) (first, rest) = (means x y first, means-All x ys rest)

  pub IsSortedBy-IsOrdered : (xs : List A) → IsSortedBy le xs → IsOrdered R xs
  IsSortedBy-IsOrdered [] h = tt
  IsSortedBy-IsOrdered (x ∷ xs) (before, rest) =
      (means-All x xs before, IsSortedBy-IsOrdered xs rest)
