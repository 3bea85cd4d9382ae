-- ===== src/Prelude/Tests.antt =====
-- Boolean tests on numbers, equality as an instance, the conditional, and results with an error.
use Prim.Native.Nat.{ℕ, compare, Ordering}
use mathlib.Core.Path.{◌≡◌, refl}
use mathlib.Core.Logic.{◌≢◌, ◌↔◌, ◌⊎◌, inl, inr}
use mathlib.Core.Bool.{Bool, true, false}
use mathlib.Core.Option.{Option, none, some}
use native.Mathlib.Omega.{arith}

abbrev pub ltb : ℕ → ℕ → Bool
ltb a b = elim (compare a b) [ Ordering.lt ↦ true | _ ↦ false ]

abbrev pub leb : ℕ → ℕ → Bool
leb a b = elim (compare a b) [ Ordering.gt ↦ false | _ ↦ true ]

abbrev pub nat_eq : ℕ → ℕ → Bool
nat_eq a b = elim (compare a b) [ Ordering.eq ↦ true | _ ↦ false ]

-- Times are numbers of nanoseconds since the zero time of Go, which is 0.
abbrev pub Time : Type 0
Time = ℕ

infix 1 if◌then◌else◌
abbrev pub if◌then◌else◌ {ℓ} : {A : Type ℓ} → Bool → A → A → A
if true then x else y = x
if false then x else y = y

pub nat_eq_iff : (a b : ℕ) → (nat_eq a b ≡ true) ↔ (a ≡ b)
nat_eq_iff a b = ground arith

pub Bool-cases : (b : Bool) → (b ≡ true) ⊎ (b ≡ false)
Bool-cases true = inl refl
Bool-cases false = inr refl

pub Option-cases {ℓ} : {A : Type ℓ} (o : Option A) → (o ≡ none) ⊎ ((a : A) × (o ≡ some a))
Option-cases none = inl refl
Option-cases (some a) = inr (a, refl)

infix 50 ◌==◌
-- Go's `==` at a type whose equality is decided by a test.
pub record Eq {ℓ} (T : Type ℓ) : Type ℓ where
  pub beq : (x y : T) → Bool
  pub decides : (x y : T) → (beq x y ≡ true) ↔ (x ≡ y)

abbrev pub ◌==◌ {ℓ} : {T : Type ℓ} ⦃eq : Eq T⦄ (x y : T) → Bool
◌==◌ ⦃eq⦄ x y = eq.beq x y

pub ==_refl {ℓ} : {A : Type ℓ} ⦃e : Eq A⦄ (a : A) → (a == a) ≡ true
==_refl ⦃e⦄ a = (e.decides a a).1 refl

instance abbrev pub ℕ_eq : Eq ℕ
ℕ_eq = record { beq = nat_eq; decides = nat_eq_iff }

-- Equality from a decision, for enumerations.
abbrev pub test {ℓ} : {A : Type ℓ} → Dec A → Bool
test (yes _) = true
test (no _) = false

pub test_iff {ℓ} : {A : Type ℓ} (d : Dec A) → (test d ≡ true) ↔ A
test_iff (yes a) = ((λ _. a), (λ _. refl))
test_iff (no n) = ((λ e. cc), (λ a. absurd (n a)))

infixl 5 ◌>>=◌
-- A Go pair `(T, error)`: an error that is not nil, or a value.
pub data Result {ℓ κ} (E : Type ℓ) (T : Type κ) : Type (ℓ ⊔ κ) where
  err : E → Result E T
  ok : T → Result E T

abbrev pub ◌>>=◌ {ℓ κ μ} :
    {E : Type ℓ} {T : Type κ} {U : Type μ} → Result E T → (T → Result E U) → Result E U
err e >>= next = err e
ok t >>= next = next t

-- `if err := check; err != nil { return err }` before the rest.
abbrev pub unless_error {ℓ κ} : {E : Type ℓ} {A : Type κ} → Option E → Result E A → Result E A
unless_error none rest = rest
unless_error (some e) rest = err e

-- The same in a function that returns the error alone.
infixr 6 ◌or_else◌
abbrev pub ◌or_else◌ {ℓ} : {E : Type ℓ} → Option E → Option E → Option E
none or_else rest = rest
some e or_else rest = some e

abbrev pub error_of {ℓ κ} : {E : Type ℓ} {A : Type κ} → Result E A → Option E
error_of (ok a) = none
error_of (err e) = some e

abbrev pub reject_if {ℓ} : {E : Type ℓ} → Bool → E → Option E
reject_if true e = some e
reject_if false e = none

pub Result-cases {ℓ κ} :
    {E : Type ℓ} {A : Type κ} (r : Result E A) → ((a : A) × (r ≡ ok a)) ⊎ ((e : E) × (r ≡ err e))
Result-cases (ok a) = inl (a, refl)
Result-cases (err e) = inr (e, refl)

-- Both steps of a chain that returned a value returned one.
pub >>=-eq-ok {ℓ κ μ} :
    {E : Type ℓ} {T : Type κ} {U : Type μ} (r : Result E T) (next : T → Result E U) {u : U}
    → (r >>= next) ≡ ok u
    → (t : T) × (r ≡ ok t) × (next t ≡ ok u)
>>=-eq-ok (err e) next p = cc
>>=-eq-ok (ok t) next p = (t, refl, p)

pub ==_false-ne {ℓ} : {A : Type ℓ} (e : Eq A) (a b : A) → e.beq a b ≡ false → a ≢ b
==_false-ne e a b h p = cc ((e.decides a b).1 p)

-- Both checks of a chain that returned nil returned nil.
pub or_else-none {ℓ} :
    {E : Type ℓ} (a b : Option E) → (a or_else b) ≡ none → (a ≡ none) × (b ≡ none)
or_else-none none b h = (refl, h)
or_else-none (some e) b h = cc

pub reject_if-none {ℓ} : {E : Type ℓ} (b : Bool) (e : E) → reject_if b e ≡ none → b ≡ false
reject_if-none true e h = cc
reject_if-none false e h = refl

-- A value that was returned after a check was returned because the check passed.
pub unless_error-ok {ℓ κ} :
    {E : Type ℓ} {A : Type κ} (o : Option E) (r : Result E A) (a : A)
    → unless_error o r ≡ ok a
    → (o ≡ none) × (r ≡ ok a)
unless_error-ok none r a h = (refl, h)
unless_error-ok (some e) r a h = cc

abbrev pub some_if {ℓ} : {A : Type ℓ} → Bool → A → Option A
some_if true a = some a
some_if false a = none

pub some_if-eq {ℓ} : {A : Type ℓ} (b : Bool) (a c : A) → some_if b a ≡ some c → (b ≡ true) × (a ≡ c)
some_if-eq true a c h = (refl, cc h)
some_if-eq false a c h = cc
