-- ===== src/Prelude/Sort.antt =====
-- `sort.Slice` followed by the test of neighbours for duplicates. The order of elements that the
-- comparison does not tell apart is not specified by `sort.Slice`; a slice that holds two such
-- elements is refused by the test that follows, so insertion sort gives every accepted result.
use ne_kiro.Prelude.{arith}
use ne_kiro.Prelude.Lists.{any_of, All, first_error}
use ne_kiro.Prelude.Tests.{if◌then◌else◌, Bool-cases, Result, ok, err, unless_error}
use mathlib.Core.Path.{◌≡◌, refl}
use mathlib.Core.Logic.{inl, inr}
use mathlib.Core.Bool.{Bool, true, false, ◌||◌}
use mathlib.Core.Option.{Option, none}
use mathlib.Core.List.{List, [], ◌∷◌, Perm}
use mathlib.Core.List.Perm

module _ {ℓ} {A : Type ℓ} (lt : A → A → Bool) where
  unfoldable pub insert : A → List A → List A
  insert x [] = x ∷ []
  insert x (y ∷ ys) = if lt x y then x ∷ y ∷ ys else y ∷ insert x ys

  unfoldable pub sort : List A → List A
  unfolding insert
  sort [] = []
  sort (x ∷ xs) = insert x (sort xs)

  abbrev pub Before : A → List A → Type 0
  Before x [] = Unit
  Before x (y ∷ ys) = lt x y ≡ true

  -- Neighbours strictly increase.
  abbrev pub IsSorted : List A → Type 0
  IsSorted [] = Unit
  IsSorted (x ∷ xs) = Before x xs × IsSorted xs

  abbrev pub NotAfter : A → List A → Type 0
  NotAfter x [] = Unit
  NotAfter x (y ∷ ys) = lt y x ≡ false

  abbrev pub IsWeaklySorted : List A → Type 0
  IsWeaklySorted [] = Unit
  IsWeaklySorted (x ∷ xs) = NotAfter x xs × IsWeaklySorted xs

  insert-perm : (x : A) (ys : List A) → Perm (insert x ys) (x ∷ ys)
  unfolding insert
  insert-perm x [] = Perm.refl (x ∷ [])
  insert-perm x (y ∷ ys) = elim (Bool-cases (lt x y)) [
    | inl e ↦ rw e (Perm.refl (x ∷ y ∷ ys))
    | inr e ↦ rw e (Perm.trans (Perm.cons y (insert-perm x ys)) (Perm.swap x y ys))
  ]

  pub sort-perm : (xs : List A) → Perm (sort xs) xs
  unfolding sort
  sort-perm [] = Perm.refl []
  sort-perm (x ∷ xs) = Perm.trans (insert-perm x (sort xs)) (Perm.cons x (sort-perm xs))

  insert-NotAfter :
      (x y : A) (ys : List A) → lt x y ≡ false → NotAfter y ys → NotAfter y (insert x ys)
  unfolding insert
  insert-NotAfter x y [] h k = h
  insert-NotAfter x y (z ∷ zs) h k = elim (Bool-cases (lt x z)) [ inl e ↦ rw e h | inr e ↦ rw e k ]

  insert-Before : (x : A) (xs : List A) → Before x xs → insert x xs ≡ x ∷ xs
  unfolding insert
  insert-Before x [] h = refl
  insert-Before x (y ∷ ys) h = rw h

  -- A sorted slice is left as it is.
  pub sort-IsSorted_self : (xs : List A) → IsSorted xs → sort xs ≡ xs
  unfolding sort
  sort-IsSorted_self [] h = refl
  sort-IsSorted_self (x ∷ xs) h = rw (sort-IsSorted_self xs h.1) (insert-Before x xs h.0)

  module _ (asymm : (x y : A) → lt x y ≡ true → lt y x ≡ false) where
    insert-IsWeaklySorted : (x : A) (ys : List A) → IsWeaklySorted ys → IsWeaklySorted (insert x ys)
    unfolding insert
    insert-IsWeaklySorted x [] h = (tt, tt)
    insert-IsWeaklySorted x (y ∷ ys) h = elim (Bool-cases (lt x y)) [
      | inl e ↦ rw e (asymm x y e, h)
      | inr e ↦ rw e (insert-NotAfter x y ys e h.0, insert-IsWeaklySorted x ys h.1)
    ]

    pub sort-IsWeaklySorted : (xs : List A) → IsWeaklySorted (sort xs)
    unfolding sort
    sort-IsWeaklySorted [] = tt
    sort-IsWeaklySorted (x ∷ xs) = insert-IsWeaklySorted x (sort xs) (sort-IsWeaklySorted xs)

module _ {ℓ} {A : Type ℓ} (same : A → A → Bool) where
  abbrev pub same_as_next : A → List A → Bool
  same_as_next x [] = false
  same_as_next x (y ∷ ys) = same x y

  unfoldable pub has_duplicate : List A → Bool
  has_duplicate [] = false
  has_duplicate (x ∷ xs) = same_as_next x xs || has_duplicate xs

  -- Two elements of a slice that the comparison does not tell apart.
  abbrev pub Repeats : List A → Type ℓ
  Repeats xs = (a : A) × (b : A) × (rest : List A) × Perm (a ∷ b ∷ rest) xs × (same a b ≡ true)

  Repeats-cons : (x : A) (xs : List A) → Repeats xs → Repeats (x ∷ xs)
  Repeats-cons x xs (a, b, rest, p, e) = (
    a,
    b,
    x ∷ rest,
    Perm.trans (Perm.trans (Perm.cons a (Perm.swap x b rest)) (Perm.swap x a (b ∷ rest)))
        (Perm.cons x p),
    e,
  )

  pub has_duplicate-Repeats : (xs : List A) → has_duplicate xs ≡ true → Repeats xs
  unfolding has_duplicate
  has_duplicate-Repeats [] h = absurd (cc)
  has_duplicate-Repeats (x ∷ []) h = absurd (cc)
  has_duplicate-Repeats (x ∷ y ∷ ys) h = elim (Bool-cases (same x y)) [
    | inl e ↦ (x, y, ys, Perm.refl (x ∷ y ∷ ys), e)
    | inr e ↦ Repeats-cons x (y ∷ ys) (has_duplicate-Repeats (y ∷ ys) (rw e at h))
  ]

-- The shape of the three `normalize` functions of the registry: check each element, sort a copy,
-- refuse equal neighbours.
module _ {ℓ κ} {A : Type ℓ} {E : Type κ} (check : A → Option E) (lt same : A → A → Bool)
    (twice : E) where
  unfoldable pub normalize : List A → Result E (List A)
  normalize xs =
      let sorted = sort lt xs in
      unless_error (first_error check xs)
        (if has_duplicate same sorted then err twice else ok sorted)

  abbrev pub IsNormal : List A → Type κ
  IsNormal ys = IsSorted lt ys × All (λ y. check y ≡ none) ys

module _ {ℓ} {A : Type ℓ} (lt : A → A → Bool) (p : A → Bool) where
  any_of-insert : (x : A) (ys : List A) → any_of p (insert lt x ys) ≡ (p x || any_of p ys)
  unfolding insert
  any_of-insert x [] = refl
  any_of-insert x (y ∷ ys) = elim (Bool-cases (lt x y)) [
    | inl e ↦ rw e refl
    | inr e ↦ ground (arith, e, any_of-insert x ys)
  ]

  -- Sorting keeps what a list holds.
  pub any_of-sort : (xs : List A) → any_of p (sort lt xs) ≡ any_of p xs
  unfolding sort
  any_of-sort [] = refl
  any_of-sort (x ∷ xs) = ground (arith, any_of-insert x (sort lt xs), any_of-sort xs)
