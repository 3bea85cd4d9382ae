-- ===== src/Prelude/Lists.antt =====
-- Lists measured by native numbers, and what loops over slices compute.
use Prim.Native.Nat.{ℕ, suc, ◌+◌, ◌≤◌}
use mathlib.Core.Path.{◌≡◌, refl, sym, subst}
use mathlib.Core.Bool.{Bool, true, false, ◌&&◌, ◌||◌}
use mathlib.Core.List.{List, [], ◌∷◌, ◌++◌}
use mathlib.Core.Option.{Option, none}
use mathlib.Core.Logic.{inl, inr}
use mathlib.Core.Logic.Or
use mathlib.Core.List.{Mem, mem-cons, mem-cons_self, not-mem-nil, Perm}
use mathlib.Core.List.Perm
use native.Mathlib.Omega.{arith}
use ne_kiro.Prelude.Tests.{◌or_else◌, Option-cases}

module _ {ℓ} {A : Type ℓ} where
  abbrev pub length : List A → ℕ
  length [] = 0
  length (x ∷ xs) = suc (length xs)

  abbrev pub is_empty : List A → Bool
  is_empty [] = true
  is_empty (x ∷ xs) = false

  pub length-append : (xs ys : List A) → length (xs ++ ys) ≡ length xs + length ys
  length-append [] ys = omega arith
  length-append (x ∷ xs) ys = omega (arith, length-append xs ys)

-- A predicate at every element.
abbrev pub All {ℓ κ} : {A : Type ℓ} → (A → Type κ) → List A → Type κ
All P [] = Unit
All P (x ∷ xs) = P x × All P xs

-- The first error that a check finds, in slice order.
abbrev pub first_error {ℓ κ} : {A : Type ℓ} {E : Type κ} → (A → Option E) → List A → Option E
first_error check [] = none
first_error check (x ∷ xs) = check x or_else first_error check xs

abbrev pub all_of {ℓ} : {A : Type ℓ} → (A → Bool) → List A → Bool
all_of p [] = true
all_of p (x ∷ xs) = p x && all_of p xs

abbrev pub any_of {ℓ} : {A : Type ℓ} → (A → Bool) → List A → Bool
any_of p [] = false
any_of p (x ∷ xs) = p x || any_of p xs

abbrev pub keep {ℓ} : {A : Type ℓ} → (A → Bool) → List A → List A
keep p [] = []
keep p (x ∷ xs) = let rest = keep p xs in elim (p x) [ true ↦ x ∷ rest | false ↦ rest ]

-- 1 for true.
abbrev pub bit : Bool → ℕ
bit true = 1
bit false = 0

-- How many elements pass a test.
abbrev pub count {ℓ} : {A : Type ℓ} → (A → Bool) → List A → ℕ
count p [] = 0
count p (x ∷ xs) = bit (p x) + count p xs

-- `len(l) == len(r)` and element by element equality, as the comparison loops compute it.
abbrev pub same_elements {ℓ} : {A : Type ℓ} → (A → A → Bool) → List A → List A → Bool
same_elements eq [] [] = true
same_elements eq [] (y ∷ ys) = false
same_elements eq (x ∷ xs) [] = false
same_elements eq (x ∷ xs) (y ∷ ys) = eq x y && same_elements eq xs ys

pub any_of-false-count {ℓ} :
    {A : Type ℓ} (p : A → Bool) (xs : List A) → any_of p xs ≡ false → count p xs ≡ 0
any_of-false-count p [] h = refl
any_of-false-count p (x ∷ xs) h = ground (arith, any_of-false-count p xs)

-- A test that fails where another fails passes no more often.
pub count_le {ℓ} :
    {A : Type ℓ} (p q : A → Bool)
    → ((a : A) → q a ≡ false → p a ≡ false)
    → (xs : List A) → count p xs ≤ count q xs
count_le p q h [] = omega arith
count_le p q h (x ∷ xs) = ground (arith, h x, count_le p q h xs)

pub first_error-All {ℓ κ} :
    {A : Type ℓ} {E : Type κ} (check : A → Option E) (xs : List A)
    → first_error check xs ≡ none
    → All (λ x. check x ≡ none) xs
first_error-All check [] h = tt
first_error-All check (x ∷ xs) h = elim (Option-cases (check x)) [
  | inl e ↦ (e, first_error-All check xs (rw e at h))
  | inr (z, e) ↦ absurd (cc)
]

pub All-first_error {ℓ κ} :
    {A : Type ℓ} {E : Type κ} (check : A → Option E) (xs : List A)
    → All (λ x. check x ≡ none) xs
    → first_error check xs ≡ none
All-first_error check [] h = refl
All-first_error check (x ∷ xs) h = rw h.0 (All-first_error check xs h.1)

pub All-map {ℓ κ ι} :
    {A : Type ℓ} {P : A → Type κ} {Q : A → Type ι} (xs : List A)
    → ((a : A) → P a → Q a)
    → All P xs
    → All Q xs
All-map [] f h = tt
All-map (x ∷ xs) f h = (f x h.0, All-map xs f h.1)

-- An element of a list on which a predicate holds has it.
pub All-mem {ℓ κ} :
    {A : Type ℓ} (P : A → Type κ) (prop : (a : A) → IsProp (P a)) (xs : List A) {a : A}
    → All P xs
    → Mem a xs
    → P a
All-mem P prop [] h m = absurd (not-mem-nil m)
All-mem P prop (x ∷ xs) {a} h m =
    Or.elim (prop a) (mem-cons.0 m) (λ e. subst P (sym e) h.0) (All-mem P prop xs h.1)

pub All-of_mem {ℓ κ} :
    {A : Type ℓ} (P : A → Type κ) (xs : List A) → ((a : A) → Mem a xs → P a) → All P xs
All-of_mem P [] h = tt
All-of_mem P (x ∷ xs) h = (h x mem-cons_self, All-of_mem P xs (λ a m. h a (mem-cons.1 (Or.inr m))))

pub All-perm {ℓ κ} :
    {A : Type ℓ} (P : A → Type κ) (prop : (a : A) → IsProp (P a)) (xs ys : List A)
    → Perm xs ys
    → All P xs
    → All P ys
All-perm P prop xs ys p h = All-of_mem P ys (λ a m. All-mem P prop xs h ((Perm.mem_iff p).1 m))

pub keep-true {ℓ} :
    {A : Type ℓ} (p : A → Bool) (x : A) (xs : List A) → p x ≡ true → keep p (x ∷ xs) ≡ x ∷ keep p xs
keep-true p x xs h = rw (h, keep) refl

pub keep-false {ℓ} :
    {A : Type ℓ} (p : A → Bool) (x : A) (xs : List A) → p x ≡ false → keep p (x ∷ xs) ≡ keep p xs
keep-false p x xs h = rw (h, keep) refl
