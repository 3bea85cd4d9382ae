-- ===== src/Registry/Endpoint/Order.antt =====
-- `compareNetworkEndpoints` of registry/model.go as an order.
use ne_kiro.Prelude.Normalize.{IsOrder}
use ne_kiro.Prelude.{refl, ◌≡◌, ◌↔◌, Bool, true, false, not, arith, if◌then◌else◌}
use ne_kiro.Prelude.Int.{
  int_lt_total, int_lt_trans, int_beq_self, int_lt_asymm, int_lt, int_beq, int_eq,
}
use ne_kiro.Prelude.Text.{
  text_beq_self, text_beq, text_lt, text_beq_iff, text_lt_asymm, text_lt_trans, text_lt_total,
}
use ne_kiro.Registry.Endpoint.{
  compare_network_endpoints, NetworkEndpoint, same, precedes, equal, coincides, Sign, less, greater,
  is_less, is_same,
}

-- A test for equality with a strict order.
record Lawful {A : Type 0} (beq lt : A → A → Bool) : Type 0 where
  decides : (a b : A) → (beq a b ≡ true) ↔ (a ≡ b)
  asymm : (a b : A) → lt a b ≡ true → lt b a ≡ false
  trans : (a b c : A) → lt a b ≡ true → lt b c ≡ true → lt a c ≡ true
  total : (a b : A) → lt a b ≡ false → lt b a ≡ false → a ≡ b

-- One field of the comparison.
module _ {A : Type 0} {beq lt : A → A → Bool} (w : Lawful beq lt) where
  open w use {decides, asymm, trans, total}

  abbrev field : A → A → Sign → Sign
  field l r rest = if not (beq l r) then (if lt l r then less else greater) else rest

  field_asymm :
      (l r : A) (s t : Sign)
      → (is_less s ≡ true → is_less t ≡ false)
      → is_less (field l r s) ≡ true
      → is_less (field r l t) ≡ false
  field_asymm l r s t rest h = grind (arith, decides l r, decides r l, asymm l r, rest)

  field_trans :
      (a b c : A) (s t u : Sign)
      → (is_less s ≡ true → is_less t ≡ true → is_less u ≡ true)
      → is_less (field a b s) ≡ true
      → is_less (field b c t) ≡ true
      → is_less (field a c u) ≡ true
  field_trans a b c s t u rest h k =
      ground (arith, decides a b, decides b c, decides a c, trans a b c, asymm a b, rest)

  field_total :
      (l r : A) (s t : Sign)
      → (is_less s ≡ false → is_less t ≡ false → is_same s ≡ true)
      → is_less (field l r s) ≡ false
      → is_less (field r l t) ≡ false
      → is_same (field l r s) ≡ true
  field_total l r s t rest h k = ground (arith, decides l r, decides r l, total l r, rest)

text-Lawful : Lawful text_beq text_lt
text-Lawful = record {
  decides = text_beq_iff;
  asymm = text_lt_asymm;
  trans = text_lt_trans;
  total = text_lt_total;
}

int-Lawful : Lawful int_beq int_lt
int-Lawful = record {
  decides = int_eq.decides;
  asymm = int_lt_asymm;
  trans = int_lt_trans;
  total = int_lt_total;
}

precedes_asymm : (x y : NetworkEndpoint) → precedes x y ≡ true → precedes y x ≡ false
unfolding precedes compare_network_endpoints
precedes_asymm x y = field_asymm text-Lawful x.address_type y.address_type _ _ (
    field_asymm text-Lawful x.address y.address _ _ (
      field_asymm text-Lawful x.port_name y.port_name _ _ (
        field_asymm int-Lawful x.port y.port _ _
          (field_asymm text-Lawful x.protocol y.protocol same same (λ h. cc)))))

precedes_trans :
    (x y z : NetworkEndpoint) → precedes x y ≡ true → precedes y z ≡ true → precedes x z ≡ true
unfolding precedes compare_network_endpoints
precedes_trans x y z = field_trans text-Lawful x.address_type y.address_type z.address_type _ _ _ (
    field_trans text-Lawful x.address y.address z.address _ _ _ (
      field_trans text-Lawful x.port_name y.port_name z.port_name _ _ _ (
        field_trans int-Lawful x.port y.port z.port _ _ _
          (field_trans text-Lawful x.protocol y.protocol z.protocol same same same (λ h k. h)))))

precedes_total :
    (x y : NetworkEndpoint) → precedes x y ≡ false → precedes y x ≡ false → coincides x y ≡ true
unfolding precedes coincides compare_network_endpoints
precedes_total x y = field_total text-Lawful x.address_type y.address_type _ _ (
    field_total text-Lawful x.address y.address _ _ (
      field_total text-Lawful x.port_name y.port_name _ _ (
        field_total int-Lawful x.port y.port _ _
          (field_total text-Lawful x.protocol y.protocol same same (λ h k. refl)))))

less-not-same : (s : Sign) → is_less s ≡ true → is_same s ≡ false
less-not-same less h = refl
less-not-same same h = cc
less-not-same greater h = refl

-- The comparison returns 0 exactly for equal tuples, and `Equal` agrees with it.
pub coincides-iff-eq : (x y : NetworkEndpoint) → (coincides x y ≡ true) ↔ (x ≡ y)
unfolding coincides compare_network_endpoints
coincides-iff-eq x y = (
  λ h. ground (
    arith,
    text_beq_iff x.address_type y.address_type,
    text_beq_iff x.address y.address,
    text_beq_iff x.port_name y.port_name,
    int_eq.decides x.port y.port,
    text_beq_iff x.protocol y.protocol,
  ),
  λ e. rw e (simp (text_beq_self, int_beq_self)),
)

coincides_symm : (x y : NetworkEndpoint) → coincides x y ≡ false → coincides y x ≡ false
coincides_symm x y h = ground (arith, coincides-iff-eq x y, coincides-iff-eq y x)

pub endpoint-IsOrder : IsOrder precedes coincides
unfolding precedes coincides
endpoint-IsOrder = record {
  asymm = precedes_asymm;
  trans = precedes_trans;
  total = precedes_total;
  apart = λ x y h. less-not-same (compare_network_endpoints x y) h;
  symm = λ x y h. coincides_symm x y h;
}

pub equal-iff-eq : (x y : NetworkEndpoint) → (equal x y ≡ true) ↔ (x ≡ y)
unfolding equal
equal-iff-eq x y = (
  λ h. ground (
    arith,
    text_beq_iff x.address_type y.address_type,
    text_beq_iff x.address y.address,
    text_beq_iff x.port_name y.port_name,
    int_eq.decides x.port y.port,
    text_beq_iff x.protocol y.protocol,
  ),
  λ e. rw e (simp (text_beq_self, int_beq_self)),
)
