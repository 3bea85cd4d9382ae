-- ===== src/Contracts/Trace/Complete.antt =====
-- Which traces `orderTraceProjections` orders.
use mathlib.Core.List.{Perm, reverse, reverse_perm, perm_append_comm, append-nil}
use mathlib.Core.List.Perm
use mathlib.Core.Bool.{Bool-set}
use mathlib.Core.HLevel.{→_prop}
use ne_kiro.Prelude.{
  if◌then◌else◌, ℕ, zero, suc, All, All-perm, ◌≡◌, ◌≢◌, ◌⊎◌, refl, sym, subst, inl, inr, Bool, true,
  false, not, List, [], ◌∷◌, ◌++◌, arith, if◌then◌else◌, ok, err, length, Bool-cases,
}
use ne_kiro.Prelude.Int.{int_eq}
use ne_kiro.Prelude.Text.{Text, text_eq, text_beq_self}
use ne_kiro.Registry.Instance.{lifecycle_eq}
use ne_kiro.Contracts.Trace.{
  InvocationRecord, Pass, is_emitted, may_emit, visit_when, visit, visit_all, begin_pass,
  order_rounds, order_trace_projections, broken_lineage,
}
use ne_kiro.Contracts.Trace.Ordered.{
  visit_all-perm, order_trace_projections-LineageOutcome, Emits, ParentsOlder,
}

-- Records that a pass over `vs` leaves as it found them.
abbrev Stuck : List InvocationRecord → List InvocationRecord → Type 0
Stuck o vs = All (λ v. may_emit v o ≡ false) vs

visit_all_progress :
    (vs : List InvocationRecord) (p : Pass) → p.progress ≡ true → (visit_all vs p).progress ≡ true
unfolding visit_all visit
visit_all_progress [] p h = h
visit_all_progress (v ∷ vs) p h = visit_all_progress vs (visit v p) (kept (may_emit v p.ordered))
  where
    kept : (b : Bool) → (visit_when b v p).progress ≡ true
    kept true = unfold visit_when in refl
    kept false = unfold visit_when in h

visit_all-Stuck :
    (vs : List InvocationRecord) (p : Pass) → (visit_all vs p).progress ≡ false → Stuck p.ordered vs
unfolding visit_all visit
visit_all-Stuck [] p h = tt
visit_all-Stuck (v ∷ vs) p h =
    tried (may_emit v p.ordered) refl h (visit_all_progress vs) (visit_all-Stuck vs)
  where
    tried :
        (b : Bool)
        → may_emit v p.ordered ≡ b
        → (visit_all vs (visit_when b v p)).progress ≡ false
        → ((q : Pass) → q.progress ≡ true → (visit_all vs q).progress ≡ true)
        → ((q : Pass) → (visit_all vs q).progress ≡ false → Stuck q.ordered vs)
        → Stuck p.ordered (v ∷ vs)
    tried true e h f g =
        absurd (ground (arith, h, f (visit_when true v p) (unfold visit_when in refl)))
    tried false e h f g = (e, unfold visit_when in g (visit_when false v p) h)

-- Whoever may be emitted was emitted.
abbrev Settled : List InvocationRecord → InvocationRecord → Type 0
Settled o v = may_emit v o ≡ true → is_emitted v.invocation_id o ≡ true

All-append :
    (P : InvocationRecord → Type 0) (xs ys : List InvocationRecord)
    → All P xs
    → All P ys
    → All P (xs ++ ys)
All-append P [] ys a b = b
All-append P (x ∷ xs) ys a b = (a.0, All-append P xs ys a.1 b)

Stuck-Settled : (o vs : List InvocationRecord) → Stuck o vs → All (Settled o) vs
Stuck-Settled o [] s = tt
Stuck-Settled o (v ∷ vs) s = ((λ e. absurd (ground (arith, e, s.0))), Stuck-Settled o vs s.1)

own-Settled :
    (o rest : List InvocationRecord)
    → ((id : Text) → is_emitted id rest ≡ true → is_emitted id o ≡ true)
    → All (Settled o) rest
unfolding is_emitted
own-Settled o [] f = tt
own-Settled o (v ∷ vs) f = (
  (λ e. f v.invocation_id (ground (arith, text_beq_self v.invocation_id))),
  own-Settled o vs (λ id e. f id (ground (arith, e))),
)

Emits-is_emitted :
    (o older : List InvocationRecord) (id : Text)
    → All (λ v. is_emitted v.invocation_id o ≡ true) older
    → Emits id older
    → is_emitted id o ≡ true
Emits-is_emitted o [] id a m = absurd m
Emits-is_emitted o (r ∷ rs) id a (inl e) = subst (λ t. is_emitted t o ≡ true) e a.0
Emits-is_emitted o (r ∷ rs) id a (inr m) = Emits-is_emitted o rs id a.1 m

ParentsOlder-is_emitted :
    (o order : List InvocationRecord)
    → ParentsOlder order
    → All (Settled o) order
    → All (λ v. is_emitted v.invocation_id o ≡ true) order × All (λ v. may_emit v o ≡ true) order
unfolding may_emit
ParentsOlder-is_emitted o [] p s = (tt, tt)
ParentsOlder-is_emitted o (v ∷ older) p s =
    let (e, m) = ParentsOlder-is_emitted o older p.1 s.1 in
    let k = may e p.0 in ((s.0 k, e), (k, m))
  where
    may :
        All (λ v. is_emitted v.invocation_id o ≡ true) older
        → (v.parent_invocation_id ≡ []) ⊎ Emits v.parent_invocation_id older
        → may_emit v o ≡ true
    may e (inl n) = rw n refl
    may e (inr m) = ground (arith, Emits-is_emitted o older v.parent_invocation_id e m)

not-Stuck :
    (v : InvocationRecord) (vs o order : List InvocationRecord)
    → Perm (v ∷ vs ++ o) order
    → ParentsOlder order
    → ¬ Stuck o (v ∷ vs)
not-Stuck v vs o order p a s =
    let settled =
      All-append (Settled o) (v ∷ vs) o (Stuck-Settled o (v ∷ vs) s)
        (own-Settled o o (λ id e. e)) in
    let (e, m) =
      ParentsOlder-is_emitted o order a
        (All-perm (Settled o) (λ v. →_prop (Bool-set _ _)) (v ∷ vs ++ o) order p settled) in
    let back =
      All-perm (λ v. may_emit v o ≡ true) (λ v. Bool-set _ _) order (v ∷ vs ++ o) (Perm.symm p) m in
    absurd (ground (arith, s.0, back.0))

-- What is left after a pass and what was emitted are the records there were.
pass_perm :
    (vs ordered : List InvocationRecord)
    → Perm
        (reverse (visit_all vs (begin_pass ordered)).next
          ++ (visit_all vs (begin_pass ordered)).ordered)
        (vs ++ ordered)
pass_perm vs ordered =
    let q = visit_all vs (begin_pass ordered) in
    Perm.trans (Perm.append_right q.ordered (reverse_perm q.next)) (
      Perm.trans (perm_append_comm q.next q.ordered) (
        subst (λ l. Perm (q.ordered ++ q.next) (vs ++ l)) (append-nil ordered)
          (visit_all-perm vs (begin_pass ordered))))

rounds_unbroken :
    (fuel : ℕ) (vs ordered order : List InvocationRecord)
    → Perm (vs ++ ordered) order
    → ParentsOlder order
    → order_rounds fuel vs ordered ≢ err broken_lineage
unfolding order_rounds
rounds_unbroken fuel [] ordered order p a h = cc
rounds_unbroken zero (v ∷ vs) ordered order p a h = cc
rounds_unbroken (suc fuel) (v ∷ vs) ordered order p a h =
    elim (Bool-cases (visit_all (v ∷ vs) (begin_pass ordered)).progress) [
      | inr e ↦ not-Stuck v vs ordered order p a (visit_all-Stuck (v ∷ vs) (begin_pass ordered) e)
      | inl e ↦
          rounds_unbroken fuel (reverse (visit_all (v ∷ vs) (begin_pass ordered)).next)
            (visit_all (v ∷ vs) (begin_pass ordered)).ordered order
            (Perm.trans (pass_perm (v ∷ vs) ordered) p) a
            (subst
              (λ b.
                (if not b
                  then err broken_lineage
                  else order_rounds fuel (reverse (visit_all (v ∷ vs) (begin_pass ordered)).next)
                      (visit_all (v ∷ vs) (begin_pass ordered)).ordered)
                ≡ err broken_lineage)
              e h)
    ]

-- A trace that has an order with parents before children, which here is written with the newest
-- first, is never reported as broken: the loops give all of its records, each after its parent
-- unless it is a root.
pub order_trace_projections_total :
    (values order : List InvocationRecord)
    → Perm values order
    → ParentsOlder order
    → (out : List InvocationRecord) × (order_trace_projections values ≡ ok out)
      × Perm out values
      × ParentsOlder (reverse out)
unfolding order_trace_projections
order_trace_projections_total values order p a =
    elim (order_trace_projections-LineageOutcome values) [
      | inr r ↦ r
      | inl e ↦ absurd (
          rounds_unbroken (length values) values [] order
            (subst (λ l. Perm l order) (sym (append-nil values)) p) a e)
    ]
