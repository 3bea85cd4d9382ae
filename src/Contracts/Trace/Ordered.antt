-- ===== src/Contracts/Trace/Ordered.antt =====
-- The order that `orderTraceProjections` gives a trace.
use mathlib.Core.List.{
  reverse, reverse_aux, reverse_perm, reverse-reverse, append-nil, perm_append_comm, Perm,
  perm_middle,
}
use mathlib.Core.List.Perm
use ne_kiro.Prelude.{
  ◌==◌, ℕ, zero, suc, ◌+◌, ◌≤◌, ◌<◌, ◌≡◌, ◌⊎◌, refl, sym, subst, inl, inr, Bool, true, false, not,
  List, [], ◌∷◌, ◌++◌, arith, if◌then◌else◌, Result, ok, err, length,
}
use ne_kiro.Prelude.Int.{int_eq}
use ne_kiro.Prelude.Text.{text_eq, text_beq_iff, text_eq}
use ne_kiro.Registry.Instance.{lifecycle_eq}
use ne_kiro.Contracts.Trace.{
  is_empty, is_emitted, Text, Bool-cases, InvocationRecord, Pass, may_emit, visit_when, visit,
  visit_all, begin_pass, order_rounds, order_trace_projections, TraceError, broken_lineage,
}

-- A record with this identifier.
abbrev pub Emits : Text → List InvocationRecord → Type 0
Emits id [] = ⊥
Emits id (r ∷ rs) = (r.invocation_id ≡ id) ⊎ Emits id rs

-- In a list with the newest first, each record is a root or has its parent among the older ones.
abbrev pub ParentsOlder : List InvocationRecord → Type 0
ParentsOlder [] = Unit {0}
ParentsOlder (v ∷ older) =
    ((v.parent_invocation_id ≡ []) ⊎ Emits v.parent_invocation_id older) × ParentsOlder older

pub is_emitted-Emits :
    (id : Text) (rs : List InvocationRecord) → is_emitted id rs ≡ true → Emits id rs
unfolding is_emitted
is_emitted-Emits id [] h = cc
is_emitted-Emits id (r ∷ rs) h = elim (Bool-cases (r.invocation_id == id)) [
  | inl e ↦ inl ((text_beq_iff r.invocation_id id).0 e)
  | inr e ↦ inr (is_emitted-Emits id rs (ground (arith, h, e)))
]

pub not_is_emitted-Emits :
    (id : Text) (rs : List InvocationRecord) → is_emitted id rs ≡ false → ¬ Emits id rs
unfolding is_emitted
not_is_emitted-Emits id [] h m = m
not_is_emitted-Emits id (r ∷ rs) h (inl e) =
    absurd (ground (arith, h, (text_beq_iff r.invocation_id id).1 e))
not_is_emitted-Emits id (r ∷ rs) h (inr m) = not_is_emitted-Emits id rs (ground (arith, h)) m

empty_text : (t : Text) → is_empty t ≡ true → t ≡ []
empty_text [] h = refl
empty_text (c ∷ cs) h = cc

pub may_emit-parent :
    (v : InvocationRecord) (older : List InvocationRecord)
    → may_emit v older ≡ true
    → (v.parent_invocation_id ≡ []) ⊎ Emits v.parent_invocation_id older
unfolding may_emit
may_emit-parent v older h = elim (Bool-cases (is_empty v.parent_invocation_id)) [
  | inl e ↦ inl (empty_text v.parent_invocation_id e)
  | inr e ↦ inr (is_emitted-Emits v.parent_invocation_id older (ground (arith, h, e)))
]

length-reverse_aux :
    {A : Type 0} (xs ys : List A) → length (reverse_aux xs ys) ≡ length xs + length ys
length-reverse_aux [] ys = omega arith
length-reverse_aux (x ∷ xs) ys = omega (arith, length-reverse_aux xs (x ∷ ys))

-- What a pass keeps from its state p to its state q, after m more records.
record Keeps (m : ℕ) (p q : Pass) : Type 0 where
  older_kept : ParentsOlder p.ordered → ParentsOlder q.ordered
  shrinks : length q.next ≤ length p.next + m
  progresses : q.progress ≡ true → (p.progress ≡ true) ⊎ (length q.next < length p.next + m)

visit_when-Keeps :
    (b : Bool) (v : InvocationRecord) (p : Pass)
    → may_emit v p.ordered ≡ b
    → Keeps 1 p (visit_when b v p)
unfolding visit_when
visit_when-Keeps true v p h = record {
  older_kept = λ o. (may_emit-parent v p.ordered h, o);
  shrinks = omega arith;
  progresses = λ e. inr (omega arith);
}
visit_when-Keeps false v p h = record {
  older_kept = λ o. o;
  shrinks = omega arith;
  progresses = λ e. inl e;
}

visit_all-Keeps : (vs : List InvocationRecord) (p : Pass) → Keeps (length vs) p (visit_all vs p)
unfolding visit_all visit
visit_all-Keeps [] p = record { older_kept = λ o. o; shrinks = omega arith; progresses = inl }
visit_all-Keeps (v ∷ vs) p =
    let one = visit_when-Keeps (may_emit v p.ordered) v p refl in
    let all = visit_all-Keeps vs (visit v p) in
    record {
      older_kept = λ o. all.older_kept (one.older_kept o);
      shrinks = omega (arith, one.shrinks, all.shrinks);
      progresses = λ e. elim (all.progresses e) [
        | inr l ↦ inr (omega (arith, one.shrinks, l))
        | inl f ↦ elim (one.progresses f) [
          | inl g ↦ inl g
          | inr l ↦ inr (omega (arith, all.shrinks, l))
        ]
      ];
    }

pub visit_all-perm :
    (vs : List InvocationRecord) (p : Pass)
    → Perm ((visit_all vs p).ordered ++ (visit_all vs p).next) (vs ++ (p.ordered ++ p.next))
unfolding visit_all visit
visit_all-perm [] p = Perm.refl (p.ordered ++ p.next)
visit_all-perm (v ∷ vs) p = Perm.trans (visit_all-perm vs (visit v p)) (
    Perm.trans (Perm.append_left vs (one (may_emit v p.ordered)))
      (perm_middle vs (p.ordered ++ p.next)))
  where
    one :
        (b : Bool)
        → Perm ((visit_when b v p).ordered ++ (visit_when b v p).next) (v ∷ (p.ordered ++ p.next))
    one true = unfold visit_when in Perm.refl (v ∷ (p.ordered ++ p.next))
    one false = unfold visit_when in perm_middle p.ordered p.next

-- The outcome of the rounds: a broken lineage, or every record once with parents before children.
abbrev pub LineageOutcome :
    List InvocationRecord → Result TraceError (List InvocationRecord) → Type 0
LineageOutcome values r =
    (r ≡ err broken_lineage)
    ⊎ ((out : List InvocationRecord) × (r ≡ ok out) × Perm out values × ParentsOlder (reverse out))

rounds-LineageOutcome :
    (fuel : ℕ) (vs ordered : List InvocationRecord)
    → length vs ≤ fuel
    → ParentsOlder ordered
    → LineageOutcome (vs ++ ordered) (order_rounds fuel vs ordered)
unfolding order_rounds
rounds-LineageOutcome fuel [] ordered b o = inr (
  reverse ordered,
  refl,
  reverse_perm ordered,
  subst ParentsOlder (sym (reverse-reverse ordered)) o,
)
rounds-LineageOutcome zero (v ∷ vs) ordered b o = absurd (omega (arith, b))
rounds-LineageOutcome (suc fuel) (v ∷ vs) ordered b o =
    let k = visit_all-Keeps (v ∷ vs) (begin_pass ordered) in
    progressed (visit_all (v ∷ vs) (begin_pass ordered)).progress refl (λ e.
      rounds-LineageOutcome fuel (reverse (visit_all (v ∷ vs) (begin_pass ordered)).next)
        (visit_all (v ∷ vs) (begin_pass ordered)).ordered (enough k e) (k.older_kept o))
  where
    enough :
        Keeps (suc (length vs)) (begin_pass ordered) (visit_all (v ∷ vs) (begin_pass ordered))
        → (visit_all (v ∷ vs) (begin_pass ordered)).progress ≡ true
        → length (reverse (visit_all (v ∷ vs) (begin_pass ordered)).next) ≤ fuel
    enough k e = elim (k.progresses e) [
      | inl f ↦ cc
      | inr l ↦
          omega (arith, l, b, length-reverse_aux (visit_all (v ∷ vs) (begin_pass ordered)).next [])
    ]

    kept :
        (q : Pass)
        → Perm (q.ordered ++ q.next) (v ∷ vs ++ (ordered ++ []))
        → Perm (reverse q.next ++ q.ordered) (v ∷ vs ++ ordered)
    kept q h = Perm.trans (Perm.append_right q.ordered (reverse_perm q.next)) (
        Perm.trans (perm_append_comm q.next q.ordered)
          (subst (λ l. Perm (q.ordered ++ q.next) (v ∷ vs ++ l)) (append-nil ordered) h))

    carry :
        (r : Result TraceError (List InvocationRecord))
        → LineageOutcome
            (reverse (visit_all (v ∷ vs) (begin_pass ordered)).next
              ++ (visit_all (v ∷ vs) (begin_pass ordered)).ordered)
            r
        → LineageOutcome (v ∷ vs ++ ordered) r
    carry r (inl e) = inl e
    carry r (inr (out, e, p, q)) = inr (
      out,
      e,
      Perm.trans p (
          kept (visit_all (v ∷ vs) (begin_pass ordered))
            (visit_all-perm (v ∷ vs) (begin_pass ordered))),
      q,
    )

    progressed :
        (b : Bool)
        → (visit_all (v ∷ vs) (begin_pass ordered)).progress ≡ b
        → ((visit_all (v ∷ vs) (begin_pass ordered)).progress ≡ true
            → LineageOutcome
                (reverse (visit_all (v ∷ vs) (begin_pass ordered)).next
                  ++ (visit_all (v ∷ vs) (begin_pass ordered)).ordered)
                (order_rounds fuel
                  (reverse (visit_all (v ∷ vs) (begin_pass ordered)).next)
                  (visit_all (v ∷ vs) (begin_pass ordered)).ordered))
        → LineageOutcome (v ∷ vs ++ ordered) (
            if not b
            then err broken_lineage
            else order_rounds fuel
                (reverse (visit_all (v ∷ vs) (begin_pass ordered)).next)
                (visit_all (v ∷ vs) (begin_pass ordered)).ordered)
    progressed false e k = inl refl
    progressed true e k = carry _ (k e)

-- The loops always end, after at most as many rounds as there are records. They report a broken
-- lineage, or give every record exactly as often as it was stored, each after its parent unless it
-- is a root.
pub order_trace_projections-LineageOutcome :
    (values : List InvocationRecord) → LineageOutcome values (order_trace_projections values)
unfolding order_trace_projections
order_trace_projections-LineageOutcome values =
    subst (λ l. LineageOutcome l (order_rounds (length values) values [])) (append-nil values)
      (rounds-LineageOutcome (length values) values [] (omega arith) tt)
