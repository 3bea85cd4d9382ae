-- ===== src/Catalog/Select/Greatest.antt =====
-- service.go of the catalog: the loop of `SelectInstallable`.
use ne_kiro.Prelude.{
  ◌≡◌, ◌⊎◌, refl, subst, inl, inr, true, false, Option, none, some, List, [], ◌∷◌, arith, ok, All,
  Bool-cases, Option-cases,
}
use ne_kiro.Prelude.Text.{Text, text_eq}
use ne_kiro.Prelude.Text.{text_lt_irrefl, text_lt_trans}
use mathlib.Core.List.{Mem, mem-cons, mem-cons_self}
use mathlib.Core.Logic.Or
use ne_kiro.Catalog.Model.{AgentVersion}
use ne_kiro.Catalog.Select.{Semver, replaces, skipped, select_from}

-- The documented behaviour of GreaterThan and Equal of semver, which compare in one order.
pub record Ordered (sv : Semver) : Type 0 where
  pub irrefl : (a : sv.Version) → sv.greater_than a a ≡ false
  pub trans :
      (a b c : sv.Version)
      → sv.greater_than a b ≡ true
      → sv.greater_than b c ≡ true
      → sv.greater_than a c ≡ true
  pub greater_equal :
      (a b c : sv.Version)
      → sv.greater_than a b ≡ true
      → sv.equal b c ≡ true
      → sv.greater_than a c ≡ true
  pub equal_greater :
      (a b c : sv.Version)
      → sv.equal a b ≡ true
      → sv.greater_than b c ≡ true
      → sv.greater_than a c ≡ true
  pub equal_trans :
      (a b c : sv.Version) → sv.equal a b ≡ true → sv.equal b c ≡ true → sv.equal a c ≡ true

module _ (sv : Semver) (constraint : Text) (parsed : sv.Constraint) where
  -- The candidate does not satisfy the constraint, or it does not come after the one that is held.
  pub record Unbeaten (held : Option (AgentVersion × sv.Version)) (candidate : AgentVersion)
      : Type 0 where
    pub version : sv.Version
    pub is_version : sv.strict_new_version candidate.card.version ≡ some version
    pub behind :
        (skipped sv constraint parsed version ≡ true) ⊎ (replaces sv held candidate version ≡ false)

  -- What the loop holds at its end comes from what it held.
  abbrev pub Follows :
      Option (AgentVersion × sv.Version) → Option (AgentVersion × sv.Version) → Type 0
  Follows none final = Unit
  Follows (some s) none = ⊥
  Follows (some s) (some f) = (f ≡ s) ⊎ (replaces sv (some s) f.0 f.1 ≡ true)

  Follows-refl : (held : Option (AgentVersion × sv.Version)) → Follows held held
  Follows-refl none = tt
  Follows-refl (some s) = inl refl

  -- Where a choice comes from.
  pub record Admitted (cs : List AgentVersion) (s : AgentVersion × sv.Version) : Type 0 where
    pub among : Mem s.0 cs
    pub is_version : sv.strict_new_version s.0.card.version ≡ some s.1
    pub admitted : skipped sv constraint parsed s.1 ≡ false

  abbrev pub Source :
      Option (AgentVersion × sv.Version)
      → List AgentVersion
      → Option (AgentVersion × sv.Version)
      → Type 0
  Source held cs none = Unit
  Source held cs (some f) = (held ≡ some f) ⊎ Admitted cs f

  pub record Looped (held : Option (AgentVersion × sv.Version)) (cs : List AgentVersion)
      (final : Option (AgentVersion × sv.Version)) : Type 0 where
    pub follows : Follows held final
    pub unbeaten : All (Unbeaten final) cs
    pub source : Source held cs final

  Source-more :
      (held final : Option (AgentVersion × sv.Version)) (c : AgentVersion) (cs : List AgentVersion)
      → Source held cs final
      → Source held (c ∷ cs) final
  Source-more held none c cs o = tt
  Source-more held (some f) c cs (inl e) = inl e
  Source-more held (some f) c cs (inr a) = inr (record {
    among = mem-cons.1 (Or.inr a.among);
    is_version = a.is_version;
    admitted = a.admitted;
  })

  Source-new :
      (held final : Option (AgentVersion × sv.Version)) (c : AgentVersion) (v : sv.Version)
      (cs : List AgentVersion)
      → sv.strict_new_version c.card.version ≡ some v
      → skipped sv constraint parsed v ≡ false
      → Source (some (c, v)) cs final
      → Source held (c ∷ cs) final
  Source-new held none c v cs e k o = tt
  Source-new held (some f) c v cs e k (inl p) = inr (
      subst (Admitted (c ∷ cs)) (cc p)
        (record { among = mem-cons_self; is_version = e; admitted = k }))
  Source-new held (some f) c v cs e k (inr a) = inr (record {
    among = mem-cons.1 (Or.inr a.among);
    is_version = a.is_version;
    admitted = a.admitted;
  })

  Source-refl : (held : Option (AgentVersion × sv.Version)) → Source held [] held
  Source-refl none = tt
  Source-refl (some s) = inl refl

  module _ (laws : Ordered sv) where
    replaces_irrefl : (c : AgentVersion) (v : sv.Version) → replaces sv (some (c, v)) c v ≡ false
    unfolding replaces
    replaces_irrefl c v = ground (arith, laws.irrefl v, text_lt_irrefl c.card.version)

    replaces_trans :
        (a : AgentVersion) (u : sv.Version) (b : AgentVersion) (v : sv.Version) (c : AgentVersion)
        (w : sv.Version)
        → replaces sv (some (b, v)) a u ≡ true
        → replaces sv (some (c, w)) b v ≡ true
        → replaces sv (some (c, w)) a u ≡ true
    unfolding replaces
    replaces_trans a u b v c w h k = ground (
      arith,
      h,
      k,
      laws.trans u v w,
      laws.greater_equal u v w,
      laws.equal_greater u v w,
      laws.equal_trans u v w,
      text_lt_trans c.card.version b.card.version a.card.version,
    )

    -- A candidate that does not replace what was held does not replace what is held at the end.
    Follows-unbeaten :
        (held final : Option (AgentVersion × sv.Version)) (c : AgentVersion) (v : sv.Version)
        → Follows held final
        → replaces sv held c v ≡ false
        → replaces sv final c v ≡ false
    Follows-unbeaten none final c v o h = unfold replaces in absurd (cc h)
    Follows-unbeaten (some s) none c v o h = absurd o
    Follows-unbeaten (some s) (some f) c v (inl e) h = rw e h
    Follows-unbeaten (some s) (some f) c v (inr b) h =
        elim (Bool-cases (replaces sv (some f) c v)) [
          | inr e ↦ e
          | inl e ↦ absurd (cc (replaces_trans c v f.0 f.1 s.0 s.1 e b, h))
        ]

    -- A new candidate is not replaced by itself at the end.
    Follows-self :
        (c : AgentVersion) (v : sv.Version) (final : Option (AgentVersion × sv.Version))
        → Follows (some (c, v)) final
        → replaces sv final c v ≡ false
    Follows-self c v none o = absurd o
    Follows-self c v (some f) (inl e) = rw e (replaces_irrefl c v)
    Follows-self c v (some f) (inr b) = elim (Bool-cases (replaces sv (some f) c v)) [
      | inr e ↦ e
      | inl e ↦ absurd (cc (replaces_trans f.0 f.1 c v f.0 f.1 b e, replaces_irrefl f.0 f.1))
    ]

    -- What the loop held before a candidate that replaced it.
    Follows-replaced :
        (held final : Option (AgentVersion × sv.Version)) (c : AgentVersion) (v : sv.Version)
        → replaces sv held c v ≡ true
        → Follows (some (c, v)) final
        → Follows held final
    Follows-replaced none final c v h o = tt
    Follows-replaced (some s) none c v h o = absurd o
    Follows-replaced (some s) (some f) c v h (inl e) = inr (rw e h)
    Follows-replaced (some s) (some f) c v h (inr b) = inr (replaces_trans f.0 f.1 c v s.0 s.1 b h)

    -- The loop held `held` and a candidate was passed over or did not replace it.
    Looped-kept :
        (held final : Option (AgentVersion × sv.Version)) (c : AgentVersion)
        (cs : List AgentVersion) (v : sv.Version)
        → sv.strict_new_version c.card.version ≡ some v
        → (skipped sv constraint parsed v ≡ true) ⊎ (replaces sv held c v ≡ false)
        → Looped held cs final
        → Looped held (c ∷ cs) final
    Looped-kept held final c cs v e b l = record {
      follows = l.follows;
      unbeaten = (record { version = v; is_version = e; behind = behind b }, l.unbeaten);
      source = Source-more held final c cs l.source;
    }
      where
        behind :
            (skipped sv constraint parsed v ≡ true) ⊎ (replaces sv held c v ≡ false)
            → (skipped sv constraint parsed v ≡ true) ⊎ (replaces sv final c v ≡ false)
        behind (inl k) = inl k
        behind (inr r) = inr (Follows-unbeaten held final c v l.follows r)

    Looped-replaced :
        (held final : Option (AgentVersion × sv.Version)) (c : AgentVersion)
        (cs : List AgentVersion) (v : sv.Version)
        → sv.strict_new_version c.card.version ≡ some v
        → skipped sv constraint parsed v ≡ false
        → replaces sv held c v ≡ true
        → Looped (some (c, v)) cs final
        → Looped held (c ∷ cs) final
    Looped-replaced held final c cs v e k r l = record {
      follows = Follows-replaced held final c v r l.follows;
      unbeaten = (
        record { version = v; is_version = e; behind = inr (Follows-self c v final l.follows) },
        l.unbeaten,
      );
      source = Source-new held final c v cs e k l.source;
    }

    pub select_from-Looped :
        (held : Option (AgentVersion × sv.Version)) (cs : List AgentVersion)
        (final : Option (AgentVersion × sv.Version))
        → select_from sv constraint parsed held cs ≡ ok final
        → Looped held cs final
    unfolding select_from
    select_from-Looped held [] final h =
        subst (Looped held []) (cc h)
          (record { follows = Follows-refl held; unbeaten = tt; source = Source-refl held })
    select_from-Looped held (c ∷ cs) final h =
        elim (Option-cases (sv.strict_new_version c.card.version)) [
          | inl e ↦ absurd (cc (e, rw (e, select_from) at h))
          | inr (v, e) ↦ elim (Bool-cases (skipped sv constraint parsed v)) [
            | inl k ↦
                Looped-kept held final c cs v e (inl k)
                  (select_from-Looped held cs final (rw (e, k, select_from) at h))
            | inr k ↦ elim (Bool-cases (replaces sv held c v)) [
              | inr r ↦
                  Looped-kept held final c cs v e (inr r)
                    (select_from-Looped held cs final (rw (e, k, r, select_from) at h))
              | inl r ↦
                  Looped-replaced held final c cs v e k r
                    (select_from-Looped (some (c, v)) cs final (rw (e, k, r, select_from) at h))
            ]
          ]
        ]
