-- ===== src/Prelude/Normalize.antt =====
-- What `normalize` of Prelude/Sort returns: exactly the sorted copy of a slice whose elements pass
-- the check and differ from one another.
use ne_kiro.Prelude.Lists.{All, first_error, first_error-All, All-first_error, All-perm, All-mem}
use ne_kiro.Prelude.Tests.{if◌then◌else◌, Bool-cases, ok, err, Option-cases, Result-cases}
use ne_kiro.Prelude.Sort.{
  sort, sort-perm, IsSorted, sort-IsSorted_self, Before, IsWeaklySorted, NotAfter,
  sort-IsWeaklySorted, has_duplicate, has_duplicate-Repeats, same_as_next, Repeats, normalize,
  IsNormal,
}
use mathlib.Core.Path.{◌≡◌, refl, subst}
use mathlib.Core.Logic.{◌⊎◌, inl, inr}
use mathlib.Core.Bool.{Bool, true, false}
use mathlib.Core.Option.{Option, none, some}
use mathlib.Core.List.{List, [], ◌∷◌, Perm}
use mathlib.Core.List.Perm
use mathlib.Core.Bool.{Bool-set}
use mathlib.Core.List.{Pairwise, Pairwise-cons, mem-cons_self}
use native.Mathlib.Omega.{arith}

-- A strict order and the equality that goes with it.
pub record IsOrder {ℓ} {A : Type ℓ} (lt same : A → A → Bool) : Type ℓ where
  pub asymm : (x y : A) → lt x y ≡ true → lt y x ≡ false
  pub trans : (x y z : A) → lt x y ≡ true → lt y z ≡ true → lt x z ≡ true
  pub total : (x y : A) → lt x y ≡ false → lt y x ≡ false → same x y ≡ true
  pub apart : (x y : A) → lt x y ≡ true → same x y ≡ false
  pub symm : (x y : A) → same x y ≡ false → same y x ≡ false

module _ {ℓ} {A : Type ℓ} {lt same : A → A → Bool} (order : IsOrder lt same) where
  Before-of_weak :
      (x : A) (ys : List A) → NotAfter lt x ys → same_as_next same x ys ≡ false → Before lt x ys
  Before-of_weak x [] h k = tt
  Before-of_weak x (y ∷ ys) h k = elim (Bool-cases (lt x y)) [
    | inl e ↦ e
    | inr e ↦ absurd (cc (order.total x y e h))
  ]

  IsSorted-of_weak :
      (xs : List A) → IsWeaklySorted lt xs → has_duplicate same xs ≡ false → IsSorted lt xs
  unfolding has_duplicate
  IsSorted-of_weak [] h k = tt
  IsSorted-of_weak (x ∷ xs) h k =
      (Before-of_weak x xs h.0 (ground arith), IsSorted-of_weak xs h.1 (ground arith))

  same_as_next-Before : (x : A) (xs : List A) → Before lt x xs → same_as_next same x xs ≡ false
  same_as_next-Before x [] h = refl
  same_as_next-Before x (y ∷ ys) h = order.apart x y h

  has_duplicate-IsSorted : (xs : List A) → IsSorted lt xs → has_duplicate same xs ≡ false
  unfolding has_duplicate
  has_duplicate-IsSorted [] h = refl
  has_duplicate-IsSorted (x ∷ xs) h =
      ground (arith, same_as_next-Before x xs h.0, has_duplicate-IsSorted xs h.1)

  -- In a sorted slice the first element precedes all others.
  pub IsSorted-All : (x : A) (xs : List A) → IsSorted lt (x ∷ xs) → All (λ y. lt x y ≡ true) xs
  IsSorted-All x [] h = tt
  IsSorted-All x (y ∷ ys) h = (h.0, IsSorted-All x ys (before x y ys h.0 h.1, h.1.1))
    where
      before : (x y : A) (ys : List A) → lt x y ≡ true → IsSorted lt (y ∷ ys) → Before lt x ys
      before x y [] h k = tt
      before x y (z ∷ zs) h k = order.trans x y z h k.0

  pub IsSorted-Pairwise : (xs : List A) → IsSorted lt xs → Pairwise (λ x y. same x y ≡ false) xs
  IsSorted-Pairwise [] h = Pairwise.nil
  IsSorted-Pairwise (x ∷ xs) h =
      Pairwise.cons
        (λ y m.
          order.apart x y
            (All-mem (λ z. lt x z ≡ true) (λ z. Bool-set _ _) xs (IsSorted-All x xs h) m))
        (IsSorted-Pairwise xs h.1)

  -- No two elements of a sorted slice, or of one that sorts to it, are the same.
  pub IsSorted-distinct : (xs ys : List A) → IsSorted lt ys → Perm ys xs → ¬ Repeats same xs
  IsSorted-distinct xs ys h p (a, b, rest, q, e) =
      let apart = Pairwise-cons.0 (
        Perm.pairwise (λ x y. Bool-set _ _) order.symm (Perm.trans p (Perm.symm q))
          (IsSorted-Pairwise ys h)) in
      cc (apart.0 b mem-cons_self)

module _ {ℓ κ} {A : Type ℓ} {E : Type κ} (check : A → Option E) {lt same : A → A → Bool} (twice : E)
    (order : IsOrder lt same) where
  -- A sorted slice of accepted elements is returned unchanged.
  pub normalize-IsNormal :
      (ys : List A) → IsNormal check lt same twice ys → normalize check lt same twice ys ≡ ok ys
  unfolding normalize
  normalize-IsNormal ys h = rw (
    All-first_error check ys h.1,
    sort-IsSorted_self lt ys h.0,
    has_duplicate-IsSorted order ys h.0,
  )

module _ {ℓ} {A E : Type ℓ} (E_set : IsSet (Option E)) (check : A → Option E)
    {lt same : A → A → Bool} (twice : E) (order : IsOrder lt same) where
  normalize_ok_of :
      (xs : List A) {ys : List A}
      → first_error check xs ≡ none
      → (if has_duplicate same (sort lt xs) then err twice else ok (sort lt xs)) ≡ ok ys
      → Perm ys xs × IsNormal check lt same twice ys
  normalize_ok_of xs {ys} e h = elim (Bool-cases (has_duplicate same (sort lt xs))) [
    | inl d ↦ absurd (cc)
    | inr d ↦
        let same_list : sort lt xs ≡ ys = ground arith in
        (
          subst (λ l. Perm l xs) same_list (sort-perm lt xs),
          subst (IsNormal check lt same twice) same_list (
            IsSorted-of_weak order (sort lt xs) (sort-IsWeaklySorted lt order.asymm xs) d,
            All-perm (λ x. check x ≡ none) (λ x. E_set _ _) xs (sort lt xs)
                (Perm.symm (sort-perm lt xs)) (first_error-All check xs e),
          ),
        )
  ]

  pub normalize_ok :
      (xs : List A) {ys : List A}
      → normalize check lt same twice xs ≡ ok ys
      → Perm ys xs × IsNormal check lt same twice ys
  unfolding normalize
  normalize_ok xs h = elim (Option-cases (first_error check xs)) [
    | inl e ↦ normalize_ok_of xs e (rw e at h)
    | inr (z, e) ↦ absurd (cc)
  ]

  -- A refusal has a cause: an element that the check refuses, or two that are the same.
  pub normalize-err :
      (xs : List A) {e : E}
      → normalize check lt same twice xs ≡ err e
      → (first_error check xs ≡ some e) ⊎ ((e ≡ twice) × Repeats same xs)
  unfolding normalize
  normalize-err xs {e} h = elim (Option-cases (first_error check xs)) [
    | inl f ↦ inr (twice_of xs (rw f at h))
    | inr (z, f) ↦ inl (ground arith)
  ]
    where
      twice_of :
          (xs : List A)
          → (if has_duplicate same (sort lt xs) then err twice else ok (sort lt xs)) ≡ err e
          → (e ≡ twice) × Repeats same xs
      twice_of xs h = elim (Bool-cases (has_duplicate same (sort lt xs))) [
        | inl d ↦
            let (a, b, rest, p, s) = has_duplicate-Repeats same (sort lt xs) d in
            (ground arith, (a, b, rest, Perm.trans p (sort-perm lt xs), s))
        | inr d ↦ absurd (cc)
      ]

  pub normalize-distinct :
      (xs : List A) {ys : List A} → normalize check lt same twice xs ≡ ok ys → ¬ Repeats same xs
  normalize-distinct xs {ys} h =
      let (p, n) = normalize_ok xs h in IsSorted-distinct order xs ys n.0 p

  -- Distinct elements that all pass the check are accepted.
  pub normalize_total :
      (xs : List A)
      → All (λ x. check x ≡ none) xs
      → ¬ Repeats same xs
      → (ys : List A) × (normalize check lt same twice xs ≡ ok ys)
  normalize_total xs h d = elim (Result-cases (normalize check lt same twice xs)) [
    | inl ys ↦ ys
    | inr (e, k) ↦ elim (normalize-err xs k) [
      | inl f ↦ absurd (cc (All-first_error check xs h))
      | inr (t, r) ↦ absurd (d r)
    ]
  ]
