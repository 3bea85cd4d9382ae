-- ===== src/Prelude/Table.antt =====
-- Rows of a database table: the first row that a condition selects, and its replacement.
use ne_kiro.Prelude.Tests.{if◌then◌else◌, Bool-cases}
use ne_kiro.Prelude.Lists.{any_of, count, bit}
use Prim.Native.Nat.{◌+◌, ◌≤◌}
use native.Mathlib.Omega.{arith}
use mathlib.Core.Path.{◌∙◌, ◌≡◌, refl, sym, ap, subst}
use mathlib.Core.Bool.{Bool, true, false}
use mathlib.Core.Option.{Option, none, some}
use mathlib.Core.List.{List, [], ◌∷◌}
use mathlib.Core.Logic.{inl, inr}

module _ {ℓ} {A : Type ℓ} (p : A → Bool) where
  unfoldable pub find_row : List A → Option A
  find_row [] = none
  find_row (x ∷ xs) = if p x then some x else find_row xs

  unfoldable pub put_row : A → List A → List A
  put_row a [] = []
  put_row a (x ∷ xs) = let rest = put_row a xs in if p x then a ∷ xs else x ∷ rest

  pub find_row-true : (xs : List A) {x : A} → find_row xs ≡ some x → p x ≡ true
  unfolding find_row
  find_row-true [] h = absurd (cc h)
  find_row-true (y ∷ xs) {x} h = elim (Bool-cases (p y)) [
    | inl e ↦ subst (λ z. p z ≡ true) (cc (rw (e, find_row) at h)) e
    | inr e ↦ find_row-true xs (rw (e, find_row) at h)
  ]

  pub find_row-any_of-false : (xs : List A) → any_of p xs ≡ false → find_row xs ≡ none
  unfolding find_row
  find_row-any_of-false [] h = refl
  find_row-any_of-false (y ∷ xs) h = ground (arith, h, find_row-any_of-false xs)

  pub find_row-none-count : (xs : List A) → find_row xs ≡ none → count p xs ≡ 0
  unfolding find_row
  find_row-none-count [] h = refl
  find_row-none-count (y ∷ xs) h = elim (Bool-cases (p y)) [
    | inl e ↦ absurd (cc (e, rw (e, find_row) at h))
    | inr e ↦ ground (arith, e, find_row-none-count xs (rw (e, find_row) at h))
  ]

  pub find_row-cons_false : (x : A) (xs : List A) → p x ≡ false → find_row (x ∷ xs) ≡ find_row xs
  unfolding find_row
  find_row-cons_false x xs h = rw h refl

  pub find_row-cons_true : (x : A) (xs : List A) → p x ≡ true → find_row (x ∷ xs) ≡ some x
  unfolding find_row
  find_row-cons_true x xs h = rw h refl

module _ {ℓ} {A : Type ℓ} (q p : A → Bool) where
  -- A replaced row, seen by another condition.
  pub count-put_row :
      (x y : A) (xs : List A)
      → find_row q xs ≡ some x
      → count p (put_row q y xs) + bit (p x) ≡ count p xs + bit (p y)
  unfolding find_row put_row
  count-put_row x y [] h = absurd (cc h)
  count-put_row x y (z ∷ xs) h = elim (Bool-cases (q z)) [
    | inl e ↦ let same : z ≡ x = cc (rw (e, find_row) at h) in rw (e, same, put_row) (omega arith)
    | inr e ↦ rw (e, put_row) (omega (arith, count-put_row x y xs (rw (e, find_row) at h)))
  ]

  find_row-counted : (x : A) (xs : List A) → find_row q xs ≡ some x → p x ≡ true → 1 ≤ count p xs
  unfolding find_row
  find_row-counted x [] h a = absurd (cc h)
  find_row-counted x (z ∷ xs) h a = elim (Bool-cases (q z)) [
    | inl e ↦
        let here : p z ≡ true = subst (λ w. p w ≡ true) (sym (cc (rw (e, find_row) at h))) a in
        rw here (omega arith)
    | inr e ↦ omega (arith, find_row-counted x xs (rw (e, find_row) at h) a)
  ]

  pub find-put_row_other :
      (x y : A) (xs : List A)
      → find_row q xs ≡ some x
      → p x ≡ false
      → p y ≡ false
      → find_row p (put_row q y xs) ≡ find_row p xs
  unfolding find_row put_row
  find-put_row_other x y [] h a b = refl
  find-put_row_other x y (z ∷ xs) h a b = elim (Bool-cases (q z)) [
    | inl e ↦
        let same : p z ≡ false = subst (λ w. p w ≡ false) (sym (cc (rw (e, find_row) at h))) a in
        rw (e, b, same, find_row, put_row) refl
    | inr e ↦
        let rest = find-put_row_other x y xs (rw (e, find_row) at h) a b in
        rw (e, rest, find_row, put_row) refl
  ]

  pub find-put_row_same :
      (x y : A) (xs : List A)
      → find_row q xs ≡ some x
      → p x ≡ true
      → p y ≡ true
      → count p xs ≤ 1
      → (find_row p xs ≡ some x) × (find_row p (put_row q y xs) ≡ some y)
  unfolding find_row put_row
  find-put_row_same x y [] h a b c = absurd (cc h)
  find-put_row_same x y (z ∷ xs) h a b c = elim (Bool-cases (q z)) [
    | inl e ↦
        let same : z ≡ x = cc (rw (e, find_row) at h) in
        let here : p z ≡ true = subst (λ w. p w ≡ true) (sym same) a in
        (rw (here, find_row) (ap some same), rw (e, b, find_row, put_row) refl)
    | inr e ↦ elim (Bool-cases (p z)) [
      | inl t ↦ absurd (ground (arith, t, c, find_row-counted x xs (rw (e, find_row) at h) a))
      | inr t ↦
          let rest = find-put_row_same x y xs (rw (e, find_row) at h) a b (omega (arith, c)) in
          (rw (t, find_row) rest.0, rw (e, t, find_row, put_row) rest.1)
    ]
  ]

module _ {ℓ} {A : Type ℓ} (q : A → Bool) where
  pub find-put_row_self :
      (x y : A) (xs : List A)
      → find_row q xs ≡ some x
      → q y ≡ true
      → find_row q (put_row q y xs) ≡ some y
  unfolding find_row put_row
  find-put_row_self x y [] h b = absurd (cc h)
  find-put_row_self x y (z ∷ xs) h b = elim (Bool-cases (q z)) [
    | inl e ↦ rw (e, b, find_row, put_row) refl
    | inr e ↦
        rw (e, put_row)
          (find_row-cons_false q z (put_row q y xs) e
            ∙ find-put_row_self x y xs (rw (e, find_row) at h) b)
  ]
