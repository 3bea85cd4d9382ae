-- ===== src/ConfigCenter/Mapping/Affixes.antt =====
-- mapping.go: what cutting a prefix or a suffix leaves.
use ne_kiro.Prelude.{
  subst, ap, sym, ◌∙◌, ℕ, ◌≡◌, ◌∙◌, refl, sym, ap, subst, true, false, List, [], ◌∷◌, ◌++◌, arith,
  nat_eq, any_of,
}
use ne_kiro.Prelude.Text.{text_eq}
use mathlib.Core.List.{append_assoc, reverse, reverse-append, reverse-reverse}
use ne_kiro.ConfigCenter.Mapping.{has_prefix, has_suffix, drop_prefix, trim_suffix, trim_prefix}

pub has_prefix-append : (p s : List ℕ) → has_prefix p (p ++ s) ≡ true
unfolding has_prefix
has_prefix-append [] s = refl
has_prefix-append (c ∷ p) s = ground (arith, has_prefix-append p s)

pub drop_prefix-append : (p s : List ℕ) → drop_prefix p (p ++ s) ≡ s
unfolding drop_prefix
drop_prefix-append [] s = refl
drop_prefix-append (c ∷ p) s = drop_prefix-append p s

pub has_prefix-drop_prefix : (p s : List ℕ) → has_prefix p s ≡ true → p ++ drop_prefix p s ≡ s
unfolding has_prefix drop_prefix
has_prefix-drop_prefix [] s h = refl
has_prefix-drop_prefix (c ∷ p) [] h = absurd (cc h)
has_prefix-drop_prefix (c ∷ p) (d ∷ s) h =
    let same : c ≡ d = ground (arith, h) in
    rw (same, has_prefix-drop_prefix p s (ground (arith, h))) refl

-- A prefix that does not hold the byte c, of a list with c after r, is a prefix of r.
pub has_prefix-before :
    (p r : List ℕ) (c : ℕ) (q : List ℕ)
    → has_prefix p (r ++ (c ∷ q)) ≡ true
    → any_of (nat_eq c) p ≡ false
    → has_prefix p r ≡ true
unfolding has_prefix
has_prefix-before [] r c q h k = refl
has_prefix-before (x ∷ p) [] c q h k = ground (arith, h, k)
has_prefix-before (x ∷ p) (y ∷ r) c q h k =
    ground (arith, h, k, has_prefix-before p r c q (ground (arith, h)) (ground (arith, k)))

pub has_suffix-append : (suffix s : List ℕ) → has_suffix suffix (s ++ suffix) ≡ true
unfolding has_suffix
has_suffix-append suffix s =
    rw (reverse-append s suffix) (has_prefix-append (reverse suffix) (reverse s))

pub trim_suffix-append : (suffix s : List ℕ) → trim_suffix suffix (s ++ suffix) ≡ s
unfolding trim_suffix
trim_suffix-append suffix s =
    rw
      (
        has_suffix-append suffix s,
        reverse-append s suffix,
        drop_prefix-append (reverse suffix) (reverse s),
      )
      (reverse-reverse s)

pub has_suffix-trim_suffix :
    (suffix s : List ℕ) → has_suffix suffix s ≡ true → trim_suffix suffix s ++ suffix ≡ s
unfolding trim_suffix has_suffix
has_suffix-trim_suffix suffix s h =
    let parts = has_prefix-drop_prefix (reverse suffix) (reverse s) h in
    let rest = drop_prefix (reverse suffix) (reverse s) in
    rw h (
      ap (λ t. reverse rest ++ t) (sym (reverse-reverse suffix))
      ∙ sym (reverse-append (reverse suffix) rest)
      ∙ ap reverse parts
      ∙ reverse-reverse s)

-- Both affixes of a list are found, and cutting them leaves what is between.
pub both_affixes :
    (p e s : List ℕ)
    → (has_prefix p (p ++ (e ++ s)) ≡ true)
      × (has_suffix s (p ++ (e ++ s)) ≡ true)
      × (trim_suffix s (trim_prefix p (p ++ (e ++ s))) ≡ e)
unfolding trim_prefix
both_affixes p e s = (
  has_prefix-append p (e ++ s),
  subst (λ l. has_suffix s l ≡ true) (append_assoc p e s) (has_suffix-append s (p ++ e)),
  rw (has_prefix-append p (e ++ s), drop_prefix-append p (e ++ s)) (trim_suffix-append s e),
)

-- A list with both affixes is the prefix, what cutting them leaves, and the suffix, if the last byte
-- of the prefix is not in the suffix.
pub between_affixes :
    (p q : List ℕ) (c : ℕ) (s l : List ℕ)
    → reverse p ≡ c ∷ q
    → any_of (nat_eq c) (reverse s) ≡ false
    → has_prefix p l ≡ true
    → has_suffix s l ≡ true
    → p ++ (trim_suffix s (trim_prefix p l) ++ s) ≡ l
unfolding has_suffix trim_prefix
between_affixes p q c s l r n hp hs =
    let rest = drop_prefix p l in
    let whole = has_prefix-drop_prefix p l hp in
    let backwards : reverse l ≡ reverse rest ++ (c ∷ q) =
      ap reverse (sym whole) ∙ reverse-append p rest ∙ ap (λ t. reverse rest ++ t) r in
    let ends : has_suffix s rest ≡ true =
      has_prefix-before (reverse s) (reverse rest) c q
        (subst (λ t. has_prefix (reverse s) t ≡ true) backwards hs) n in
    rw hp (ap (λ t. p ++ t) (has_suffix-trim_suffix s rest ends) ∙ whole)
