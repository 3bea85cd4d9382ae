-- ===== src/Catalog/Releases/Steps.antt =====
-- postgres/store.go of the catalog: the releases after a change of one.
use ne_kiro.Prelude.{
  ℕ, ◌+◌, ◌≤◌, ◌≡◌, refl, sym, subst, inl, inr, Bool, true, false, ◌&&◌, Option, none, some, List,
  arith, ◌==◌, Bool-cases,
}
use ne_kiro.Prelude.Text.{Text, text_eq}
use ne_kiro.Catalog.Model.{ReleaseState, publication_status_eq, release_state_eq, AgentRelease}
use ne_kiro.Catalog.Store.{Tables, VersionRow, is_version, is_release_of, has_release_id}
use ne_kiro.Catalog.Releases.{
  release_row, next_release, version_step, write_release, transition_row, transition_release_found,
  transition_release,
}
use ne_kiro.Prelude.Table.{find_row, put_row, count-put_row, find-put_row_other, find-put_row_same}
use ne_kiro.Prelude.{Time, count}
use mathlib.Core.Option
use ne_kiro.Catalog.Releases.Backed.{Backed, backed_by, is_release_of-key}
use ne_kiro.Catalog.Releases.Versions.{Stepped, step_change, version_step-Stepped}
use ne_kiro.Catalog.Releases.Moves.{Follows, next_release-Follows}

-- The tables after both writes of a transition.
module _ (column : Time → Time) (at : Time) (target : ReleaseState) (release_id : Text)
    (r next : AgentRelease) (db after : Tables)
    (found : find_row (has_release_id release_id) db.releases ≡ some r)
    (follows : Follows column at target (db.last_sequence + 1) r next)
    (stepped : Stepped column at r target db after) (b : Backed db) where
  next_is_release_of :
      (a v : Text) (t : Bool) → is_release_of a v r ≡ t → is_release_of a v next ≡ t
  next_is_release_of a v t h =
      unfold is_release_of in
      subst (λ x. (x == a && next.agent_card_version == v) ≡ t) (sym follows.same_agent)
        (subst (λ x. (r.agent_id == a && x == v) ≡ t) (sym follows.same_version)
          (unfold is_release_of in h))

  written-single :
      (a v : Text)
      → count (is_release_of a v) (put_row (has_release_id release_id) next db.releases) ≤ 1
  written-single a v = elim (Bool-cases (is_release_of a v r)) [
    | inl e ↦ grind (
      arith,
      e,
      next_is_release_of a v true e,
      b.single a v,
      count-put_row (has_release_id release_id) (is_release_of a v) r next db.releases found,
    )
    | inr e ↦ grind (
      arith,
      e,
      next_is_release_of a v false e,
      b.single a v,
      count-put_row (has_release_id release_id) (is_release_of a v) r next db.releases found,
    )
  ]

  abbrev change : VersionRow → VersionRow
  change = step_change column at target (db.last_sequence + 1)

  written-backed :
      (a v : Text)
      → backed_by
          (find_row (is_version a v) after.versions)
          (find_row (is_release_of a v) (put_row (has_release_id release_id) next db.releases))
        ≡ true
  written-backed a v = elim (Bool-cases (is_release_of a v r)) [
    | inl e ↦
        let own = is_release_of-key a v r e in
        let both =
          find-put_row_same (has_release_id release_id) (is_release_of a v) r next db.releases found
            e (next_is_release_of a v true e) (b.single a v) in
        let here =
          subst
            (λ x.
              find_row (is_version a x) after.versions
              ≡ Option.map change (find_row (is_version a x) db.versions))
            own.1
            (subst
              (λ x.
                find_row (is_version x r.agent_card_version) after.versions
                ≡ Option.map change (find_row (is_version x r.agent_card_version) db.versions))
              own.0 stepped.versions_changed.here) in
        rw (both.1, here)
          (follows.still_backed (find_row (is_version a v) db.versions) (
            subst (λ o. backed_by (find_row (is_version a v) db.versions) o ≡ true) both.0
              (b.backed a v)))
    | inr e ↦
        let other =
          find-put_row_other (has_release_id release_id) (is_release_of a v) r next db.releases
            found e (next_is_release_of a v false e) in
        rw (other, stepped.versions_changed.elsewhere a v (unfold is_release_of in e))
          (b.backed a v)
  ]

  pub written-Backed :
      Backed (record after { releases = put_row (has_release_id release_id) next after.releases })
  written-Backed = record {
    backed = λ a v.
        subst
          (λ rs.
            backed_by (find_row (is_version a v) after.versions)
              (find_row (is_release_of a v) (put_row (has_release_id release_id) next rs))
            ≡ true)
          (sym stepped.same_releases) (written-backed a v);
    single = λ a v.
        subst (λ rs. count (is_release_of a v) (put_row (has_release_id release_id) next rs) ≤ 1)
          (sym stepped.same_releases) (written-single a v);
  }

transition_row-Backed :
    (column : Time → Time) (at : Time) (release_id : Text) (target : ReleaseState)
    (r : AgentRelease) (evidence : Option (List ℕ)) (moved : Option AgentRelease) (db : Tables)
    → find_row (has_release_id release_id) db.releases ≡ some r
    → next_release (column at) evidence r.state target r ≡ moved
    → Backed db
    → Backed (transition_row column at release_id target r moved db).0
unfolding transition_row
transition_row-Backed column at release_id target r evidence none db f n b = b
transition_row-Backed column at release_id target r evidence (some next) db f n b =
    write (version_step column at r target db) refl (release_row next)
  where
    write :
        (o : Option Tables)
        → version_step column at r target db ≡ o
        → (row_ok : Bool) → Backed (write_release o row_ok release_id next db).0
    write none e row_ok = unfold write_release in b
    write (some after) e false = unfold write_release in b
    write (some after) e true =
        unfold write_release in
        written-Backed column at target release_id r next db after f
          (next_release-Follows column at evidence r.state target (db.last_sequence + 1) r next n)
          (version_step-Stepped column at r target db after e) b

transition_release_found-Backed :
    (column : Time → Time) (at : Time) (release_id : Text) (evidence : Option (List ℕ))
    (target : ReleaseState) (r : Option AgentRelease) (db : Tables)
    → find_row (has_release_id release_id) db.releases ≡ r
    → Backed db
    → Backed (transition_release_found column at release_id evidence target r db).0
unfolding transition_release_found
transition_release_found-Backed column at release_id evidence target none db f b = b
transition_release_found-Backed column at release_id evidence target (some r) db f b =
    transition_row-Backed column at release_id target r evidence
      (next_release (column at) evidence r.state target r) db f refl b

-- `TransitionRelease` keeps the releases backed.
pub transition_release-Backed :
    (column : Time → Time) (sent : Bool) (release_id : Text) (target : ReleaseState)
    (evidence : Option (List ℕ)) (at : Time) (db : Tables)
    → Backed db
    → Backed (transition_release column sent release_id target evidence at db).0
unfolding transition_release
transition_release-Backed column false release_id target evidence at db b = b
transition_release-Backed column true release_id target evidence at db b =
    transition_release_found-Backed column at release_id evidence target
      (find_row (has_release_id release_id) db.releases) db refl b
