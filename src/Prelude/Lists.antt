-- ===== src/Prelude/Lists.antt =====
-- Lists: the array methods of the source, and predicates on lists.
use Prim.Native.Nat.{ℕ, zero, suc, ◌+◌, ◌≤◌}
use mathlib.Core.Path.{◌≡◌, refl, ◌∙◌}
use mathlib.Core.Bool.{Bool, true, false, ◌&&◌, ◌||◌}
use mathlib.Core.Option.{Option, none, some}
use mathlib.Core.List.{List, [], ◌∷◌, ◌++◌, append-nil, append_assoc}
use native.Mathlib.Omega.{arith}
use mathlib.Core.Logic.{◌≢◌, inl, inr}
use muslimrentals.Prelude.Tests.{if◌then◌else◌, Bool-cases}
use muslimrentals.Prelude.Equality.{HasEquality, ◌==◌, eq_of_same, same_refl}

module _ {ℓ} {A : Type ℓ} where
  abbrev pub length : List A → ℕ
  length [] = 0
  length (x ∷ xs) = suc (length xs)

  -- `xs.slice(0, n)`.
  abbrev pub take : ℕ → List A → List A
  take zero xs = []
  take (suc n) [] = []
  take (suc n) (x ∷ xs) = x ∷ take n xs

  abbrev pub get_elem? : List A → ℕ → Option A
  get_elem? [] i = none
  get_elem? (x ∷ xs) zero = some x
  get_elem? (x ∷ xs) (suc i) = get_elem? xs i

  abbrev pub filter : (A → Bool) → List A → List A
  filter p [] = []
  filter p (x ∷ xs) = let rest = filter p xs in if p x then x ∷ rest else rest

  -- `xs.find(p)`.
  abbrev pub find : (A → Bool) → List A → Option A
  find p [] = none
  find p (x ∷ xs) = if p x then some x else find p xs

  -- `xs.some(p)` and `xs.every(p)`.
  abbrev pub any : (A → Bool) → List A → Bool
  any p [] = false
  any p (x ∷ xs) = p x || any p xs

  abbrev pub all : (A → Bool) → List A → Bool
  all p [] = true
  all p (x ∷ xs) = p x && all p xs

  pub length-append : (xs ys : List A) → length (xs ++ ys) ≡ length xs + length ys
  length-append [] ys = omega arith
  length-append (x ∷ xs) ys = omega (arith, length-append xs ys)

  pub length-take-le : (n : ℕ) (xs : List A) → length (take n xs) ≤ n
  length-take-le zero xs = omega arith
  length-take-le (suc n) [] = omega arith
  length-take-le (suc n) (x ∷ xs) = omega (arith, length-take-le n xs)

  pub length-filter-le : (p : A → Bool) (xs : List A) → length (filter p xs) ≤ length xs
  length-filter-le p [] = omega arith
  length-filter-le p (x ∷ xs) = ground (arith, length-filter-le p xs)

  pub all-filter : (p : A → Bool) (xs : List A) → all p (filter p xs) ≡ true
  all-filter p [] = refl
  all-filter p (x ∷ xs) = ground (arith, all-filter p xs)

-- What holds of every element.
abbrev pub All {ℓ κ} : {A : Type ℓ} → (A → Type κ) → List A → Type κ
All P [] = Unit
All P (x ∷ xs) = P x × All P xs

pub All-append {ℓ κ} :
    {A : Type ℓ} (P : A → Type κ) (front back : List A)
    → All P front
    → All P back
    → All P (front ++ back)
All-append P [] back _ later = later
All-append P (x ∷ front) back (first, rest) later = (first, All-append P front back rest later)

module _ {ℓ} {A : Type ℓ} ⦃e : HasEquality A⦄ where
  -- `xs.includes(x)`, and `has` of the `Set` built from `xs`.
  abbrev pub includes : A → List A → Bool
  includes a [] = false
  includes a (x ∷ xs) = (a == x) || includes a xs

  pub includes-append :
      (a : A) (xs ys : List A) → includes a (xs ++ ys) ≡ (includes a xs || includes a ys)
  includes-append a [] ys = refl
  includes-append a (x ∷ xs) ys = ground (arith, includes-append a xs ys)

  pub includes-filter :
      (p : A → Bool) (a : A) (xs : List A) → includes a (filter p xs) ≡ (p a && includes a xs)
  includes-filter p a [] = ground arith
  includes-filter p a (x ∷ xs) = ground (arith, includes-filter p a xs, eq_of_same a x)

  pub includes-take :
      (n : ℕ) (a : A) (xs : List A) → includes a (take n xs) ≡ true → includes a xs ≡ true
  includes-take zero a xs h = cc
  includes-take (suc n) a [] h = cc
  includes-take (suc n) a (x ∷ xs) h = ground (arith, includes-take n a xs)

  pub any_of_includes :
      (f : A → Bool) (a : A) (xs : List A) → includes a xs ≡ true → f a ≡ true → any f xs ≡ true
  any_of_includes f a [] h k = cc
  any_of_includes f a (x ∷ xs) h k = ground (arith, eq_of_same a x, any_of_includes f a xs)

  pub all_of_includes :
      (f : A → Bool) (a : A) (xs : List A) → includes a xs ≡ true → f a ≡ false → all f xs ≡ false
  all_of_includes f a [] h k = cc
  all_of_includes f a (x ∷ xs) h k = ground (arith, eq_of_same a x, all_of_includes f a xs)

  pub length_of_two :
      (a b : A) (xs : List A)
      → (a == b) ≡ false
      → includes a xs ≡ true
      → includes b xs ≡ true
      → 2 ≤ length xs
  length_of_two a b [] n h k = cc
  length_of_two a b (x ∷ []) n h k = ground (arith, eq_of_same a x, eq_of_same b x, same_refl x)
  length_of_two a b (x ∷ y ∷ xs) n h k = omega arith

  -- `Array.from(new Set(xs))`, on top of what is already there.
  unfoldable pub unique_onto : List A → List A → List A
  unique_onto seen [] = seen
  unique_onto seen (x ∷ xs) = unique_onto (if includes x seen then seen else seen ++ x ∷ []) xs

  unfoldable pub unique : List A → List A
  unique xs = unique_onto [] xs

  includes-unique_onto :
      (a : A) (seen xs : List A)
      → includes a (unique_onto seen xs) ≡ (includes a seen || includes a xs)
  unfolding unique_onto
  includes-unique_onto a seen [] = ground arith
  includes-unique_onto a seen (x ∷ xs) = ground (
    arith,
    includes-unique_onto a (if includes x seen then seen else seen ++ x ∷ []) xs,
    includes-append a seen (x ∷ []),
    eq_of_same a x,
  )

  -- The `Set` keeps each element.
  pub includes-unique : (a : A) (xs : List A) → includes a (unique xs) ≡ includes a xs
  unfolding unique
  includes-unique a xs = includes-unique_onto a [] xs

module _ {ℓ} {A : Type ℓ} where
  abbrev pub flatten : List (List A) → List A
  flatten [] = []
  flatten (xs ∷ xss) = xs ++ flatten xss

  pub flatten-concat :
      (xss : List (List A)) (xs : List A) → flatten (xss ++ xs ∷ []) ≡ flatten xss ++ xs
  flatten-concat [] xs = append-nil xs
  flatten-concat (ys ∷ xss) xs = rw (flatten-concat xss xs, append_assoc ys (flatten xss) xs)

  -- What passes a test, and has one property, has another.
  pub filter-All-with {κ ι} :
      {P : A → Type κ} {Q : A → Type ι} (p : A → Bool) (xs : List A)
      → ((x : A) → p x ≡ true → P x → Q x)
      → All P xs
      → All Q (filter p xs)
  filter-All-with p [] f h = tt
  filter-All-with p (x ∷ xs) f (q, h) = elim (Bool-cases (p x)) [
    | inl e ↦ rw e (f x e q, filter-All-with p xs f h)
    | inr n ↦ rw n (filter-All-with p xs f h)
  ]

module _ {ℓ κ} {A : Type ℓ} (P : A → Type κ) where
  pub take-All : (n : ℕ) (xs : List A) → All P xs → All P (take n xs)
  take-All zero xs h = tt
  take-All (suc n) [] h = tt
  take-All (suc n) (x ∷ xs) (p, h) = (p, take-All n xs h)

  pub filter-All : (p : A → Bool) (xs : List A) → ((x : A) → p x ≡ true → P x) → All P (filter p xs)
  filter-All p [] h = tt
  filter-All p (x ∷ xs) h = elim (Bool-cases (p x)) [
    | inl e ↦ rw e (h x e, filter-All p xs h)
    | inr n ↦ rw n (filter-All p xs h)
  ]

  pub filter-All_kept : (p : A → Bool) (xs : List A) → All P xs → All P (filter p xs)
  filter-All_kept p [] h = tt
  filter-All_kept p (x ∷ xs) (q, h) = elim (Bool-cases (p x)) [
    | inl e ↦ rw e (q, filter-All_kept p xs h)
    | inr n ↦ rw n (filter-All_kept p xs h)
  ]

module _ {ℓ} {A : Type ℓ} ⦃e : HasEquality A⦄ where
  pub unique_onto-append :
      (seen xs ys : List A) → unique_onto seen (xs ++ ys) ≡ unique_onto (unique_onto seen xs) ys
  unfolding unique_onto
  unique_onto-append seen [] ys = refl
  unique_onto-append seen (x ∷ xs) ys =
      unique_onto-append (if includes x seen then seen else seen ++ x ∷ []) xs ys

  pub unique_onto-seen :
      (seen ys : List A)
      → ((y : A) → includes y ys ≡ true → includes y seen ≡ true)
      → unique_onto seen ys ≡ seen
  unfolding unique_onto
  unique_onto-seen seen [] h = refl
  unique_onto-seen seen (y ∷ ys) h =
      rw (h y (ground (arith, same_refl y))) (unique_onto-seen seen ys (λ z k. h z (ground arith)))

  pub length-unique_onto-le :
      (seen xs : List A) → length (unique_onto seen xs) ≤ length seen + length xs
  unfolding unique_onto
  length-unique_onto-le seen [] = omega arith
  length-unique_onto-le seen (x ∷ xs) = ground (
    arith,
    length-unique_onto-le (if includes x seen then seen else seen ++ x ∷ []) xs,
    length-append seen (x ∷ []),
  )

  -- A list has as many different elements as its double.
  pub length-unique-twice : (xs : List A) → length (unique (xs ++ xs)) ≤ length xs
  unfolding unique
  length-unique-twice xs = rw (unique_onto-append [] xs xs) (
      rw (unique_onto-seen (unique_onto [] xs) xs (λ y h. includes-unique y xs ∙ h))
        (omega (arith, length-unique_onto-le [] xs)))

  filter-subset :
      (xs ys : List A)
      → ((y : A) → includes y xs ≡ true → includes y ys ≡ true)
      → filter (λ x. includes x ys) xs ≡ xs
  filter-subset [] ys h = refl
  filter-subset (x ∷ xs) ys h =
      let rest = filter-subset xs ys (λ y k. h y (ground (arith, k))) in
      let here : includes x ys ≡ true = h x (ground (arith, same_refl x)) in
      ground (arith, rest, here)

  -- Every element of a list is in the list.
  pub filter-includes : (xs : List A) → filter (λ x. includes x xs) xs ≡ xs
  filter-includes xs = filter-subset xs xs (λ y h. h)

  pub length-of_includes : (x : A) (xs : List A) → includes x xs ≡ true → length xs ≢ 0
  length-of_includes x [] h k = cc
  length-of_includes x (y ∷ ys) h k = omega arith

  -- A list with an element has a different one.
  pub length-unique-pos : (xs ys : List A) → length xs ≢ 0 → length (unique (xs ++ ys)) ≢ 0
  length-unique-pos [] ys h k = h refl
  length-unique-pos (x ∷ xs) ys h k =
      length-of_includes x (unique (x ∷ xs ++ ys))
        (includes-unique x (x ∷ xs ++ ys) ∙ ground (arith, same_refl x)) k
