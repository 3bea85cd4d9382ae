-- ===== src/Routing/Table/Found.antt =====
-- Which session the selector of watch_selector.go gives to a target.
use mathlib.Core.List.{Mem, mem-cons}
use mathlib.Core.Logic.Or
use ne_kiro.Prelude.{
  ℕ, [], Option-cases, ◌≤◌, ◌≡◌, ◌≢◌, ◌↔◌, refl, sym, subst, inl, inr, Bool, true, false, Option,
  none, some, List, ◌∷◌, arith, ok, err, leb, length, Bool-cases,
}
use ne_kiro.Prelude.Int.{int_eq}
use ne_kiro.Prelude.Text.{text_eq}
use ne_kiro.Registry.Target
use ne_kiro.Registry.Target.{ReleaseTarget, join_host_port, new_release_target}
use ne_kiro.Registry.Instance.{lifecycle_eq}
use ne_kiro.Routing.Session.{ObservationSession, Time, new_session}
use ne_kiro.Routing.Table.Bounded.{Reaches, targets, Keeps, Reaches-Keeps, find_session-none}
use ne_kiro.Routing.Table.{
  new_table, limit_reached, WatchSelector, session, open_when, find_or_add, add_when, find_session,
}

-- The session a target had, or a new one.
abbrev pub had_or_new : Option ObservationSession → Time → ObservationSession
had_or_new (some s) now = s
had_or_new none now = new_session now

-- What `session` gives for t from the table w: a table and a session.
pub record Gives (now : Time) (t : ReleaseTarget) (w : WatchSelector)
    (out : WatchSelector × ObservationSession) : Type 0 where
  pub was_open : w.closed ≡ false
  pub returned : out.1 ≡ had_or_new (find_session t w.sessions) now
  pub given : find_session t out.0.sessions ≡ some out.1
  pub others_kept :
      (u : ReleaseTarget) → u ≢ t → find_session u out.0.sessions ≡ find_session u w.sessions

find_other :
    (t u : ReleaseTarget) (s : ObservationSession) (xs : List (ReleaseTarget × ObservationSession))
    → u ≢ t
    → find_session u ((t, s) ∷ xs) ≡ find_session u xs
unfolding find_session
find_other t u s xs d = elim (Bool-cases (Target.equal t u)) [
  | inl h ↦ absurd (d (sym ((Target.equal_iff t u).0 h)))
  | inr h ↦ rw h refl
]

add_when-Gives :
    (full : Bool) (now : Time) (t : ReleaseTarget) (w : WatchSelector)
    {out : WatchSelector × ObservationSession}
    → w.closed ≡ false
    → find_session t w.sessions ≡ none
    → add_when full now t w ≡ ok out
    → Gives now t w out
unfolding add_when find_session
add_when-Gives true now t w c n e = cc
add_when-Gives false now t w {out} c n e =
    let p : (record w { sessions = (t, new_session now) ∷ w.sessions }, new_session now) ≡ out =
      cc e in
    subst (Gives now t w) p (record {
      was_open = c;
      returned = rw n refl;
      given = rw ((Target.equal_iff t t).1 refl) refl;
      others_kept = λ u d. find_other t u (new_session now) w.sessions d;
    })

find_or_add-Gives :
    (found : Option ObservationSession) (now : Time) (t : ReleaseTarget) (w : WatchSelector)
    {out : WatchSelector × ObservationSession}
    → w.closed ≡ false
    → find_session t w.sessions ≡ found
    → find_or_add found now t w ≡ ok out
    → Gives now t w out
unfolding find_or_add
find_or_add-Gives (some s) now t w {out} c n e =
    let p : (w, s) ≡ out = cc e in
    subst (Gives now t w) p
      (record { was_open = c; returned = rw n refl; given = n; others_kept = λ u d. refl })
find_or_add-Gives none now t w c n e =
    add_when-Gives (leb w.max_observations (length w.sessions)) now t w c n e

open_when-Gives :
    (c : Bool) (now : Time) (t : ReleaseTarget) (w : WatchSelector)
    {out : WatchSelector × ObservationSession}
    → w.closed ≡ c
    → open_when c now t w ≡ ok out
    → Gives now t w out
unfolding open_when
open_when-Gives true now t w c e = cc
open_when-Gives false now t w c e = find_or_add-Gives (find_session t w.sessions) now t w c refl e

-- A call of `session` that succeeds was made on an open selector. It returns the session that
-- the target already had, or else a new one, keeps it in the table for the target, and leaves the
-- session of every other target as it was.
pub session-Gives :
    (now : Time) (t : ReleaseTarget) (w : WatchSelector) {out : WatchSelector × ObservationSession}
    → session now t w ≡ ok out
    → Gives now t w out
unfolding session
session-Gives now t w e = open_when-Gives w.closed now t w refl e

length-targets : (xs : List (ReleaseTarget × ObservationSession)) → length (targets xs) ≡ length xs
length-targets [] = refl
length-targets ((t, s) ∷ rest) = omega (arith, length-targets rest)

find_session-Mem :
    (t : ReleaseTarget) (xs : List (ReleaseTarget × ObservationSession)) {s : ObservationSession}
    → find_session t xs ≡ some s
    → Mem t (targets xs)
unfolding find_session
find_session-Mem t [] h = absurd (cc h)
find_session-Mem t ((u, old) ∷ rest) {s} h = elim (Bool-cases (Target.equal u t)) [
  | inl k ↦ mem-cons.1 (Or.inl (sym ((Target.equal_iff u t).0 k)))
  | inr k ↦ mem-cons.1 (Or.inr (find_session-Mem t rest {s = s} (rw (k, find_session) at h)))
]

limit_reached-full :
    (now : Time) (t : ReleaseTarget) (w : WatchSelector)
    → (session now t w ≡ err limit_reached) ↔ (
        (w.closed ≡ false)
        × (find_session t w.sessions ≡ none)
        × (w.max_observations ≤ length w.sessions))
unfolding session open_when find_or_add add_when
limit_reached-full now t w = (λ h. (ground arith, ground arith, ground arith), λ h. ground arith)

-- On a selector that any calls of `session` and `Close` and any progress of the observations lead to,
-- `session` refuses a target for the limit exactly when the selector is open, observes as many targets
-- as its limit, and the target is none of them.
pub session_refused :
    (max : ℕ) {w : WatchSelector}
    → Reaches (new_table max) w
    → (now : Time) (t : ReleaseTarget)
    → (session now t w ≡ err limit_reached)
      ↔ ((w.closed ≡ false) × (¬ Mem t (targets w.sessions)) × (length (targets w.sessions) ≡ max))
session_refused max {w} path now t = (refused, full)
  where
    kept : Keeps (new_table max) w
    kept = Reaches-Keeps max path

    refused :
        session now t w ≡ err limit_reached
        → (w.closed ≡ false) × (¬ Mem t (targets w.sessions)) × (length (targets w.sessions) ≡ max)
    refused h =
        let (was_open, missing, reached) = (limit_reached-full now t w).0 h in
        (
          was_open,
          find_session-none t w.sessions missing,
          omega (arith, reached, kept.bounded.within, kept.same_limit, length-targets w.sessions),
        )

    full :
        (w.closed ≡ false) × (¬ Mem t (targets w.sessions)) × (length (targets w.sessions) ≡ max)
        → session now t w ≡ err limit_reached
    full (was_open, absent, reached) = (limit_reached-full now t w).1 (
      was_open,
      elim (Option-cases (find_session t w.sessions)) [
        | inl e ↦ e
        | inr (s, e) ↦ absurd (absent (find_session-Mem t w.sessions {s = s} e))
      ],
      omega (arith, reached, kept.same_limit, length-targets w.sessions),
    )
