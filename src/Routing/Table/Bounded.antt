-- ===== src/Routing/Table/Bounded.antt =====
-- The size of the table of watch_selector.go.
use mathlib.Core.Logic.{∥∥₁_elim}
use mathlib.Core.HLevel.{⊥_prop}
use mathlib.Core.List.Pairwise
use mathlib.Core.List.{Mem, Nodup, Nodup-cons, not-mem-nil, mem-cons}
use ne_kiro.Prelude.{
  ◌∙◌, ℕ, suc, ◌≤◌, ◌≡◌, refl, sym, ap, subst, inl, inr, Bool, true, false, Option, none, some,
  List, [], ◌∷◌, arith, ok, leb, length, Bool-cases,
}
use ne_kiro.Prelude.Int.{int_eq}
use ne_kiro.Prelude.Text.{text_eq}
use ne_kiro.Registry.Target
use ne_kiro.Registry.Target.{ReleaseTarget, join_host_port, new_release_target}
use ne_kiro.Registry.Instance.{lifecycle_eq}
use ne_kiro.Routing.Session.{ObservationSession, Time, new_session}
use ne_kiro.Routing.Table.{
  WatchSelector, session, open_when, find_or_add, add_when, find_session, update, close_table,
  close_table_when, new_table,
}

pub data Step : WatchSelector → WatchSelector → Type 0 where
  asks :
      {w : WatchSelector} {out : WatchSelector × ObservationSession} (now : Time)
      (t : ReleaseTarget)
      → session now t w ≡ ok out
      → Step w out.0
  writes :
      {w : WatchSelector} (t : ReleaseTarget) (s : ObservationSession)
      → Step w (record w { sessions = update t s w.sessions })
  closes : {w : WatchSelector} → Step w (close_table w).0

pub data Reaches (w : WatchSelector) : WatchSelector → Type 0 where
  here : Reaches w w
  next : {u v : WatchSelector} → Reaches w u → Step u v → Reaches w v

abbrev pub targets : List (ReleaseTarget × ObservationSession) → List ReleaseTarget
targets [] = []
targets ((t, s) ∷ rest) = t ∷ targets rest

pub record IsBounded (w : WatchSelector) : Type 0 where
  pub within : length w.sessions ≤ w.max_observations
  pub one_each : Nodup (targets w.sessions)

targets-update :
    (t : ReleaseTarget) (s : ObservationSession) (xs : List (ReleaseTarget × ObservationSession))
    → targets (update t s xs) ≡ targets xs
unfolding update
targets-update t s [] = refl
targets-update t s ((u, old) ∷ rest) = elim (Bool-cases (Target.equal u t)) [
  | inl h ↦ rw h refl
  | inr h ↦ rw h (ap (λ l. u ∷ l) (targets-update t s rest))
]

pub find_session-none :
    (t : ReleaseTarget) (xs : List (ReleaseTarget × ObservationSession))
    → find_session t xs ≡ none
    → ¬ Mem t (targets xs)
unfolding find_session
find_session-none t [] h m = not-mem-nil m
find_session-none t ((u, s) ∷ rest) h m = elim (Bool-cases (Target.equal u t)) [
  | inl k ↦ absurd (ground (arith, h))
  | inr k ↦ ∥∥₁_elim (mem-cons.0 m) ⊥_prop (λ o. elim o [
    | inl e ↦ absurd (ground (arith, k, (Target.equal_iff u t).1 (sym e)))
    | inr r ↦ find_session-none t rest (ground arith) r
  ])
]

length-update :
    (t : ReleaseTarget) (s : ObservationSession) (xs : List (ReleaseTarget × ObservationSession))
    → length (update t s xs) ≡ length xs
unfolding update
length-update t s [] = refl
length-update t s ((u, old) ∷ rest) = elim (Bool-cases (Target.equal u t)) [
  | inl h ↦ rw h refl
  | inr h ↦ rw h (ap suc (length-update t s rest))
]

-- A table that the first one may become without any change of its limit.
pub record Keeps (w v : WatchSelector) : Type 0 where
  pub bounded : IsBounded v
  pub same_limit : v.max_observations ≡ w.max_observations

add_when-Keeps :
    (full : Bool) (now : Time) (t : ReleaseTarget) (w : WatchSelector)
    {out : WatchSelector × ObservationSession}
    → IsBounded w
    → leb w.max_observations (length w.sessions) ≡ full
    → find_session t w.sessions ≡ none
    → add_when full now t w ≡ ok out
    → Keeps w out.0
unfolding add_when
add_when-Keeps true now t w b f n e = cc
add_when-Keeps false now t w {out} b f n e =
    let p : record w { sessions = (t, new_session now) ∷ w.sessions } ≡ out.0 = ground arith in
    subst (Keeps w) p (record {
      bounded = record {
        within = ground (arith, f);
        one_each = Nodup-cons.1 (find_session-none t w.sessions n, b.one_each);
      };
      same_limit = refl;
    })

find_or_add-Keeps :
    (found : Option ObservationSession) (now : Time) (t : ReleaseTarget) (w : WatchSelector)
    {out : WatchSelector × ObservationSession}
    → IsBounded w
    → find_session t w.sessions ≡ found
    → find_or_add found now t w ≡ ok out
    → Keeps w out.0
unfolding find_or_add
find_or_add-Keeps (some s) now t w {out} b n e =
    let p : w ≡ out.0 = ground arith in
    subst (Keeps w) p (record { bounded = b; same_limit = refl })
find_or_add-Keeps none now t w b n e =
    add_when-Keeps (leb w.max_observations (length w.sessions)) now t w b refl n e

open_when-Keeps :
    (c : Bool) (now : Time) (t : ReleaseTarget) (w : WatchSelector)
    {out : WatchSelector × ObservationSession}
    → IsBounded w
    → open_when c now t w ≡ ok out
    → Keeps w out.0
unfolding open_when
open_when-Keeps true now t w b e = cc
open_when-Keeps false now t w b e = find_or_add-Keeps (find_session t w.sessions) now t w b refl e

close_table_when-Keeps :
    (c : Bool) (w : WatchSelector) → IsBounded w → Keeps w (close_table_when c w).0
unfolding close_table_when
close_table_when-Keeps true w b = record { bounded = b; same_limit = refl }
close_table_when-Keeps false w b = record {
  bounded = record { within = b.within; one_each = b.one_each };
  same_limit = refl;
}

session-Keeps :
    (now : Time) (t : ReleaseTarget) (w : WatchSelector) {out : WatchSelector × ObservationSession}
    → IsBounded w
    → session now t w ≡ ok out
    → Keeps w out.0
unfolding session
session-Keeps now t w b e = open_when-Keeps w.closed now t w b e

Step-Keeps : {w v : WatchSelector} → Step w v → IsBounded w → Keeps w v
Step-Keeps {w} (asks {out = out} now t e) b = session-Keeps now t w {out = out} b e
Step-Keeps {w} (writes t s) b = record {
  bounded = record {
    within = rw (length-update t s w.sessions) b.within;
    one_each = rw (targets-update t s w.sessions) b.one_each;
  };
  same_limit = refl;
}
Step-Keeps {w} closes b = unfold close_table in close_table_when-Keeps w.closed w b

pub Reaches-Keeps :
    (max : ℕ) {w : WatchSelector} → Reaches (new_table max) w → Keeps (new_table max) w
Reaches-Keeps max here = record {
  bounded = record { within = omega arith; one_each = Pairwise.nil };
  same_limit = refl;
}
Reaches-Keeps max (next r st) =
    let k = Reaches-Keeps max r in
    let j = Step-Keeps st k.bounded in
    record { bounded = j.bounded; same_limit = j.same_limit ∙ k.same_limit }

-- Through any calls of `session` and `Close` and any progress of the observations, the selector
-- holds at most the configured number of sessions, and never two for one target.
pub sessions-IsBounded :
    (max : ℕ) {w : WatchSelector}
    → Reaches (new_table max) w
    → (length w.sessions ≤ max) × Nodup (targets w.sessions)
sessions-IsBounded max {w} path =
    let k = Reaches-Keeps max path in (rw (sym k.same_limit) k.bounded.within, k.bounded.one_each)
