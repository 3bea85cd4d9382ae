-- ===== src/Nested/Context/Lineage.antt =====
-- context.go: the lineage of a child invocation that is derived from its parent.
use ne_kiro.Prelude.{
  >>=-eq-ok, sym, ℕ, Time, ◌≡◌, ◌≢◌, subst, inl, inr, Bool, false, Option, none, List, arith,
  unless_error-ok, ok, Bool-cases,
}
use ne_kiro.Prelude.Int.{pos, int_eq}
use ne_kiro.Prelude.Text.{Text, codes, text_eq, text_beq, text_beq_iff, text_beq_self}
use ne_kiro.Contracts.Event.{word_eq, created, pending, InvocationEvent}
use ne_kiro.Contracts.Trace.{InvocationRecord}
use ne_kiro.Contracts.Lineage.{validate_nested}
use ne_kiro.Nested.Binding.{Crypto, AuthenticatedAgent}
use ne_kiro.Nested.Context.{
  ChildContext, new_invocation_id, parent_error, child_of, derive_child_context,
  build_child_dispatch_request, lifecycle_event,
}

-- What the event of a child says.
pub record Isolated (parent : InvocationRecord) (agent : AuthenticatedAgent)
    (event : InvocationEvent) : Type 0 where
  pub parent_target : parent.target_agent_id ≡ agent.agent_id
  pub parent_workspace : parent.workspace_id ≡ agent.workspace_id
  pub workspace : event.workspace_id ≡ agent.workspace_id
  pub accepted : validate_nested parent event ≡ none

child_of-Isolated :
    (crypto : Crypto) (parent : InvocationRecord) (agent : AuthenticatedAgent) (child_id : Text)
    → parent_error parent agent ≡ none
    → child_id ≢ parent.invocation_id
    → (format : Time → Text) (target capability : Text) (input : List ℕ) (streaming : Bool)
      (version release digest : Text) (at : Time)
    → Isolated parent agent (
        lifecycle_event crypto format
          (build_child_dispatch_request
            (child_of parent agent child_id)
            target
            capability
            input
            streaming
            version
            release
            digest)
          (pos 0)
          created
          pending
          at)
unfolding lifecycle_event build_child_dispatch_request validate_nested parent_error child_of
child_of-Isolated crypto parent agent child_id h fresh format target capability input streaming
      version release digest at =
    record {
      parent_target = same_target;
      parent_workspace = same_workspace;
      workspace = same_workspace;
      accepted = ground (
        arith,
        h,
        not_itself,
        text_beq_self (codes "agent"),
        text_beq_self parent.invocation_id,
        text_beq_self parent.root_task_id,
        text_beq_self parent.trace_id,
        text_beq_self parent.workspace_id,
        (text_beq_iff agent.agent_id parent.target_agent_id).1 (sym same_target),
      );
    }
  where
    same_target : parent.target_agent_id ≡ agent.agent_id
    same_target = (text_beq_iff parent.target_agent_id agent.agent_id).0 (ground (arith, h))

    same_workspace : parent.workspace_id ≡ agent.workspace_id
    same_workspace = (text_beq_iff parent.workspace_id agent.workspace_id).0 (ground (arith, h))

    not_itself : text_beq child_id parent.invocation_id ≡ false
    not_itself = elim (Bool-cases (text_beq child_id parent.invocation_id)) [
      | inr e ↦ e
      | inl e ↦ absurd (fresh ((text_beq_iff child_id parent.invocation_id).0 e))
    ]

-- If `DeriveChildContext` gives a child for an authenticated agent and the child's new identifier is
-- not its parent's, then the agent is the target of the parent in the agent's own workspace, and for
-- every request that `BuildChildDispatchRequest` makes of the child the event `created` is in the
-- agent's workspace and passes `ValidateNestedInvocationCorrelation` with the parent.
pub derive_child_context-Isolated :
    (crypto : Crypto) (source : Option (List ℕ)) (parent : InvocationRecord)
    (agent : AuthenticatedAgent) (child : ChildContext)
    → derive_child_context crypto source parent agent ≡ ok child
    → child.child_invocation_id ≢ parent.invocation_id
    → (format : Time → Text) (target capability : Text) (input : List ℕ) (streaming : Bool)
      (version release digest : Text) (at : Time)
    → Isolated parent agent (
        lifecycle_event crypto format
          (build_child_dispatch_request child target capability input streaming version release
            digest)
          (pos 0)
          created
          pending
          at)
unfolding derive_child_context child_of
derive_child_context-Isolated crypto source parent agent child h fresh format target capability
      input streaming version release digest at =
    let checked = unless_error-ok (parent_error parent agent) _ child h in
    let made = >>=-eq-ok (new_invocation_id crypto source) _ checked.1 in
    let same : child_of parent agent made.0 ≡ child = cc made.2 in
    subst
      (λ c.
        c.child_invocation_id ≢ parent.invocation_id
        → Isolated parent agent (
            lifecycle_event crypto format
              (build_child_dispatch_request c target capability input streaming version release
                digest)
              (pos 0) created pending at))
      same
      (λ other.
        child_of-Isolated crypto parent agent made.0 checked.0 other format target capability input
          streaming version release digest at)
      fresh
