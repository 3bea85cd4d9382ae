-- ===== src/Prelude/Int.antt =====
-- Go's `int` as an integer, its tests, and the decimal text that `strconv.Itoa` prints.
use ne_kiro.Prelude.Tests.{Eq, nat_eq, ltb, leb, if◌then◌else◌}
use ne_kiro.Prelude.Text.{Text, codes}
use Prim.Native.Nat.{ℕ, zero, suc, ◌+◌, ◌-◌, ◌*◌, ◌/◌, ◌%◌}
use mathlib.Core.Path.{◌≡◌, refl}
use mathlib.Core.Bool.{Bool, true, false, ◌&&◌}
use mathlib.Core.Option.{Option, none, some}
use mathlib.Core.List.{[], ◌∷◌}
use native.Mathlib.Omega.{arith}

-- `negsuc n` is -(n + 1).
pub data ℤ : Type 0 where
  pos : ℕ → ℤ
  negsuc : ℕ → ℤ

abbrev pub int_beq : ℤ → ℤ → Bool
int_beq (pos a) (pos b) = nat_eq a b
int_beq (negsuc a) (negsuc b) = nat_eq a b
int_beq _ _ = false

abbrev pub int_lt : ℤ → ℤ → Bool
int_lt (pos a) (pos b) = ltb a b
int_lt (pos a) (negsuc b) = false
int_lt (negsuc a) (pos b) = true
int_lt (negsuc a) (negsuc b) = ltb b a

pub int_beq→eq : (a b : ℤ) → int_beq a b ≡ true → a ≡ b
int_beq→eq (pos a) (pos b) h = ground arith
int_beq→eq (pos a) (negsuc b) h = cc
int_beq→eq (negsuc a) (pos b) h = cc
int_beq→eq (negsuc a) (negsuc b) h = ground arith

pub int_beq_self : (a : ℤ) → int_beq a a ≡ true
int_beq_self (pos a) = ground arith
int_beq_self (negsuc a) = ground arith

instance abbrev pub int_eq : Eq ℤ
int_eq = record { beq = int_beq; decides = λ a b. (int_beq→eq a b, λ e. rw e (int_beq_self b)) }

pub int_lt_asymm : (a b : ℤ) → int_lt a b ≡ true → int_lt b a ≡ false
int_lt_asymm a b h = ground arith

pub int_lt_trans : (a b c : ℤ) → int_lt a b ≡ true → int_lt b c ≡ true → int_lt a c ≡ true
int_lt_trans a b c h k = ground arith

pub int_lt_total : (a b : ℤ) → int_lt a b ≡ false → int_lt b a ≡ false → a ≡ b
int_lt_total a b h k = ground arith

-- Twenty digits print every 64-bit number.
decimal : ℕ → ℕ → Text → Text
decimal zero n acc = acc
decimal (suc fuel) n acc =
    let rest = decimal fuel (n / 10) ((n % 10 + 48) ∷ acc) in
    if ltb n 10 then (n + 48) ∷ acc else rest

-- `strconv.Itoa`.
unfoldable pub itoa : ℤ → Text
unfolding decimal
itoa (pos n) = decimal 20 n []
itoa (negsuc n) = b'-' ∷ decimal 20 (suc n) []

read_digits : ℕ → Text → Option ℕ
read_digits n [] = some n
read_digits n (c ∷ cs) =
    let rest = read_digits (n * 10 + (c - 48)) cs in if leb 48 c && leb c 57 then rest else none

read_natural : Text → Option ℕ
unfolding read_digits
read_natural [] = none
read_natural (c ∷ cs) = read_digits 0 (c ∷ cs)

max_int : ℕ
max_int = 9223372036854775807

negate : ℕ → ℤ
negate zero = pos 0
negate (suc n) = negsuc n

-- `strconv.Atoi` on a 64-bit platform; `none` is its error.
unfoldable pub atoi : Text → Option ℤ
unfolding read_natural max_int negate
atoi [] = none
atoi (c ∷ cs) =
    if nat_eq c b'-'
    then elim (read_natural cs) [
      | none ↦ none
      | some n ↦ if leb n (suc max_int) then some (negate n) else none
    ]
    else elim (read_natural (if nat_eq c b'+' then cs else c ∷ cs)) [
      | none ↦ none
      | some n ↦ if leb n max_int then some (pos n) else none
    ]

itoa_port : itoa (pos 8080) ≡ codes "8080"
unfolding itoa
itoa_port = refl

atoi_port : atoi (codes "8080") ≡ some (pos 8080)
unfolding atoi
atoi_port = refl
