-- ===== src/Nested/Binding/Bearer.antt =====
-- binding.go: the token of an Authorization header.
use ne_kiro.Prelude.{
  ◌≡◌, refl, ap, subst, inl, inr, false, not, ◌||◌, some, List, [], ◌∷◌, ◌++◌, arith, ◌==◌,
  is_empty, nat_eq, Bool-cases, Option-cases,
}
use ne_kiro.Prelude.Text.{Text, codes, text_eq, text_beq_iff, trim_space}
use ne_kiro.Nested.Binding.{cut_prefix, bearer, bearer_token}

-- One Authorization value that is "Bearer ", and then a token that is not empty and has no space
-- around it.
pub record IsBearer (values : List Text) (token : Text) : Type 0 where
  pub one_value : values ≡ (codes "Bearer " ++ token) ∷ []
  pub not_empty : is_empty token ≡ false
  pub trimmed : trim_space token ≡ token

cut_prefix-some : (prefix s token : Text) → cut_prefix prefix s ≡ some token → s ≡ prefix ++ token
unfolding cut_prefix
cut_prefix-some [] s token h = cc h
cut_prefix-some (c ∷ prefix) [] token h = absurd (cc h)
cut_prefix-some (c ∷ prefix) (d ∷ s) token h = elim (Bool-cases (nat_eq c d)) [
  | inr e ↦ absurd (cc (rw (e, cut_prefix) at h))
  | inl e ↦
      let same : c ≡ d = ground (arith, e) in
      cc (same, cut_prefix-some prefix s token (rw (e, cut_prefix) at h))
]

cut_prefix-append : (prefix token : Text) → cut_prefix prefix (prefix ++ token) ≡ some token
unfolding cut_prefix
cut_prefix-append [] token = refl
cut_prefix-append (c ∷ prefix) token = ground (arith, cut_prefix-append prefix token)

bearer-IsBearer : (value token : Text) → bearer value ≡ some token → IsBearer (value ∷ []) token
unfolding bearer
bearer-IsBearer value token h = elim (Option-cases (cut_prefix (codes "Bearer ") value)) [
  | inl e ↦ absurd (cc (rw (e, bearer) at h))
  | inr (t, e) ↦ elim (Bool-cases (is_empty t || not (trim_space t == t))) [
    | inl k ↦ absurd (cc (rw (e, k, bearer) at h))
    | inr k ↦
        let same : t ≡ token = cc (rw (e, k, bearer) at h) in
        subst (IsBearer (value ∷ [])) same (record {
          one_value = ap (λ v. v ∷ []) (cut_prefix-some (codes "Bearer ") value t e);
          not_empty = ground (arith, k);
          trimmed = (text_beq_iff (trim_space t) t).0 (ground (arith, k));
        })
  ]
]

pub bearer_token-IsBearer :
    (values : List Text) (token : Text) → bearer_token values ≡ some token → IsBearer values token
unfolding bearer_token
bearer_token-IsBearer [] token h = absurd (cc h)
bearer_token-IsBearer (value ∷ []) token h = elim (Bool-cases (is_empty value)) [
  | inl e ↦ absurd (cc (rw (e, bearer_token) at h))
  | inr e ↦ bearer-IsBearer value token (rw (e, bearer_token) at h)
]
bearer_token-IsBearer (value ∷ (other ∷ values)) token h = absurd (cc h)

pub IsBearer-bearer_token :
    (values : List Text) (token : Text) → IsBearer values token → bearer_token values ≡ some token
unfolding bearer_token bearer
IsBearer-bearer_token values token b =
    rw
      (
        b.one_value,
        cut_prefix-append (codes "Bearer ") token,
        b.not_empty,
        (text_beq_iff (trim_space token) token).1 b.trimmed,
      )
      refl
