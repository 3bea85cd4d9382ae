-- ===== src/Contracts/Lineage/Parents.antt =====
-- What a trace response is that `ValidateTraceResponseV1` accepts.
use mathlib.Core.List.{reverse, reverse_aux}
use ne_kiro.Prelude.{
  or_else-none, All, ◌≡◌, ◌≢◌, not, ◌&&◌, ◌||◌, none, List, [], ◌∷◌, arith, ◌==◌, reject_if,
  is_empty,
}
use ne_kiro.Prelude.Int.{int_eq}
use ne_kiro.Prelude.Text.{Text, text_eq, text_beq_iff}
use ne_kiro.Registry.Instance.{lifecycle_eq}
use ne_kiro.Contracts.Event.{word_eq, Schemas}
use ne_kiro.Contracts.Trace.{InvocationRecord, is_emitted}
use ne_kiro.Contracts.Trace.{may_emit}
use ne_kiro.Contracts.Trace.Ordered.{not_is_emitted-Emits, may_emit-parent, Emits, ParentsOlder}
use ne_kiro.Contracts.Lineage.{
  Versions, valid_record, TraceResponse, invocation_error, lineage_error, nonempty_error,
  validate_trace, record_invalid, outside_trace, root_changed, repeated, self_parent, trace_changed,
}

-- No two records have one identifier.
abbrev pub Distinct : List InvocationRecord → Type 0
Distinct [] = Unit {0}
Distinct (r ∷ older) = (¬ Emits r.invocation_id older) × Distinct older

-- A record of the workspace, trace and root task.
abbrev pub Within : Text → Text → Text → InvocationRecord → Type 0
Within w t root r = (r.workspace_id ≡ w) × (r.trace_id ≡ t) × (r.root_task_id ≡ root)

-- A list of records with the newest first that is the lineage of one root task.
pub record IsLineage (w t root : Text) (newest_first : List InvocationRecord) : Type 0 where
  pub parents_older : ParentsOlder newest_first
  pub distinct : Distinct newest_first
  pub within : All (Within w t root) newest_first

module _ (schemas : Schemas) (versions : Versions) (w t root : Text) where
  extended :
      (seen : List InvocationRecord) (r : InvocationRecord)
      → IsLineage w t root seen
      → invocation_error schemas versions w t root seen r ≡ none
      → IsLineage w t root (r ∷ seen)
  unfolding invocation_error may_emit
  extended seen r l h =
      let (h1, t1) =
        or_else-none (reject_if (not (valid_record schemas versions r)) record_invalid) _ h in
      let (h2, t2) =
        or_else-none (reject_if (not (r.workspace_id == w) || not (r.trace_id == t)) outside_trace)
          _ t1 in
      let (h3, t3) = or_else-none (reject_if (not (r.root_task_id == root)) root_changed) _ t2 in
      let (h4, t4) = or_else-none (reject_if (is_emitted r.invocation_id seen) repeated) _ t3 in
      let (h5, h6) =
        or_else-none
          (reject_if
            (not (is_empty r.parent_invocation_id) && r.parent_invocation_id == r.invocation_id)
            self_parent)
          _ t4 in
      record {
        parents_older = (may_emit-parent r seen (ground (arith, h6)), l.parents_older);
        distinct = (not_is_emitted-Emits r.invocation_id seen (ground (arith, h4)), l.distinct);
        within = (
          (
            (text_beq_iff r.workspace_id w).0 (ground (arith, h2)),
            (text_beq_iff r.trace_id t).0 (ground (arith, h2)),
            (text_beq_iff r.root_task_id root).0 (ground (arith, h3)),
          ),
          l.within,
        );
      }

  lineage :
      (rs seen : List InvocationRecord)
      → IsLineage w t root seen
      → lineage_error schemas versions w t root seen rs ≡ none
      → IsLineage w t root (reverse_aux rs seen)
  unfolding lineage_error
  lineage [] seen l h = l
  lineage (r ∷ rs) seen l h =
      let (h1, h2) = or_else-none (invocation_error schemas versions w t root seen r) _ h in
      lineage rs (r ∷ seen) (extended seen r l h1) h2

-- A trace response that is accepted has the requested trace and at least one invocation; all its
-- invocations lie in the workspace, the trace and one root task, no identifier occurs twice, and
-- each invocation comes after its parent unless it is a root.
pub validate_trace-IsLineage :
    (schemas : Schemas) (versions : Versions) (workspace_id trace_id : Text)
    (response : TraceResponse)
    → validate_trace schemas versions workspace_id trace_id response ≡ none
    → (response.trace_id ≡ trace_id)
      × (response.invocations ≢ [])
      × ((root : Text) × IsLineage workspace_id trace_id root (reverse response.invocations))
unfolding validate_trace nonempty_error
validate_trace-IsLineage schemas versions w t response h =
    let (h1, h2) = or_else-none (reject_if (not (response.trace_id == t)) trace_changed) _ h in
    let (a, b) = listed response.invocations h2 in
    ((text_beq_iff response.trace_id t).0 (ground (arith, h1)), a, b)
  where
    listed :
        (rs : List InvocationRecord)
        → nonempty_error schemas versions w t rs ≡ none
        → (rs ≢ []) × ((root : Text) × IsLineage w t root (reverse rs))
    listed [] k = cc
    listed (r ∷ rs) k = (
      λ e. cc,
      (
        r.root_task_id,
        lineage schemas versions w t r.root_task_id (r ∷ rs) []
            (record { parents_older = tt; distinct = tt; within = tt }) k,
      ),
    )
