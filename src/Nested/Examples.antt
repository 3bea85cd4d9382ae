-- ===== src/Nested/Examples.antt =====
-- Concrete bindings, tokens and children.
use ne_kiro.Prelude.{ℕ, ◌≡◌, ◌↔◌, refl, inl, inr, false, none, some, List, [], ◌∷◌, ok, err, length}
use ne_kiro.Prelude.Int.{pos}
use ne_kiro.Prelude.Text.{Text, codes, text_beq, text_eq, is_identifier_tail}
use ne_kiro.Registry.Target.{byte_length}
use ne_kiro.Contracts.Event.{created, pending, running, Word-discrete}
use ne_kiro.Contracts.Trace.{InvocationRecord}
use ne_kiro.Nested.Binding.{
  Crypto, AgentPrincipal, AuthenticatedAgent, Digests, identity_of, principal_error, bind_from,
  new_agent_binding, valid_identifier, token_digest, authenticate, bearer_token, has_digest,
  unauthenticated, token_duplicated,
}
use ne_kiro.Contracts.Event.{is_safe_identifier}
use ne_kiro.Nested.Binding.Identifier.{valid_identifier-is_safe_identifier}
use ne_kiro.Nested.Binding.Bearer.{IsBearer}
use ne_kiro.Nested.Binding.Bound.{entries_of, Listed, SameEntries, authenticate-Listed}
use ne_kiro.Nested.Context.{
  ChildContext, derive_child_context, new_invocation_id, parent_error, child_of,
  build_child_dispatch_request, lifecycle_event,
}
use ne_kiro.Nested.Context.Lineage.{Isolated, derive_child_context-Isolated}

-- A hash that is 32 times the length.
abbrev thirty_two : ℕ → List ℕ
thirty_two n =
    n ∷ n ∷ n ∷ n ∷ n ∷ n ∷ n ∷ n ∷ n ∷ n ∷ n ∷ n ∷ n ∷ n ∷ n ∷ n ∷ n ∷ n ∷ n ∷ n ∷ n ∷ n ∷ n ∷ n
    ∷ n ∷ n ∷ n ∷ n ∷ n ∷ n ∷ n ∷ n ∷ []

abbrev crypto : Crypto
crypto = record {
  sum_sha256 = λ t. thirty_two (length t);
  encode_to_string = λ bs. bs;
  decode_string = λ t. some t;
  to_lower = λ t. t;
}

abbrev principals : List AgentPrincipal
principals =
    record { workspace_id = codes "w"; agent_id = codes "a"; token_sha256 = thirty_two 1 }
    ∷ record { workspace_id = codes "w"; agent_id = codes "b"; token_sha256 = thirty_two 2 }
    ∷ []

abbrev first_agent : AuthenticatedAgent
first_agent = record { workspace_id = codes "w"; agent_id = codes "a" }

abbrev second_agent : AuthenticatedAgent
second_agent = record { workspace_id = codes "w"; agent_id = codes "b" }

abbrev one_order : Digests
one_order = (thirty_two 2, second_agent) ∷ (thirty_two 1, first_agent) ∷ []

abbrev other_order : Digests
other_order = (thirty_two 1, first_agent) ∷ (thirty_two 2, second_agent) ∷ []

principals_bound : new_agent_binding crypto principals ≡ ok one_order
unfolding new_agent_binding bind_from principal_error valid_identifier identity_of has_digest
    text_beq byte_length is_identifier_tail
principals_bound = refl

same_token_refused :
    new_agent_binding crypto (
      record { workspace_id = codes "w"; agent_id = codes "a"; token_sha256 = thirty_two 1 }
      ∷ record { workspace_id = codes "v"; agent_id = codes "a"; token_sha256 = thirty_two 1 }
      ∷ [])
    ≡ err token_duplicated
unfolding new_agent_binding bind_from principal_error valid_identifier identity_of has_digest
    text_beq byte_length is_identifier_tail
same_token_refused = refl

two_values_refused :
    authenticate crypto one_order (codes "Bearer x" ∷ codes "Bearer x" ∷ []) ≡ err unauthenticated
unfolding authenticate bearer_token
two_values_refused = refl

orders_same : SameEntries other_order one_order
orders_same d a = (swapped, back)
  where
    swapped : Listed d a other_order → Listed d a one_order
    swapped (inl e) = inr (inl e)
    swapped (inr (inl e)) = inl e
    swapped (inr (inr l)) = absurd l

    back : Listed d a one_order → Listed d a other_order
    back (inl e) = inr (inl e)
    back (inr (inl e)) = inl e
    back (inr (inr l)) = absurd l

authenticate-Listed_example :
    (authenticate crypto other_order (codes "Bearer xy" ∷ []) ≡ ok second_agent) ↔ (
      (token : Text) × IsBearer (codes "Bearer xy" ∷ []) token
      × Listed (token_digest crypto token) second_agent (entries_of principals))
authenticate-Listed_example =
    authenticate-Listed crypto principals one_order other_order principals_bound orders_same
      (codes "Bearer xy" ∷ []) second_agent

abbrev parent : InvocationRecord
parent = record {
  invocation_id = codes "i";
  root_task_id = codes "r";
  parent_invocation_id = [];
  trace_id = codes "t";
  caller = record { caller_type = codes "user"; id = codes "u" };
  workspace_id = codes "w";
  target_agent_id = codes "a";
  agent_card_version = codes "1.0.0";
  agent_release_id = [];
  agent_card_digest = [];
  capability = codes "c";
  status = running;
  latency_ms = none;
  error_code = [];
  created_at = pos 1;
  updated_at = pos 2;
}

abbrev a_child : ChildContext
a_child = record {
  child_invocation_id = codes "inv_x";
  parent_invocation = parent;
  caller = record { caller_type = codes "agent"; id = codes "a" };
  workspace_id = codes "w";
  root_task_id = codes "r";
  trace_id = codes "t";
}

child_derived : derive_child_context crypto (some (codes "x")) parent first_agent ≡ ok a_child
unfolding derive_child_context parent_error new_invocation_id child_of text_beq Word-discrete
child_derived = refl

derive_child_context-Isolated_example : Isolated parent first_agent (
    lifecycle_event crypto
      (λ t. codes "2024-01-01T00:00:00Z")
      (build_child_dispatch_request a_child (codes "b") (codes "c") [] false (codes "1.0.0") [] [])
      (pos 0)
      created
      pending
      0)
derive_child_context-Isolated_example =
    derive_child_context-Isolated crypto (some (codes "x")) parent first_agent a_child child_derived
      (λ e. cc e) (λ t. codes "2024-01-01T00:00:00Z") (codes "b") (codes "c") [] false
      (codes "1.0.0") [] [] 0

valid_identifier-is_safe_identifier_example :
    valid_identifier (codes "agent-1:é") ≡ is_safe_identifier (codes "agent-1:é")
valid_identifier-is_safe_identifier_example =
    valid_identifier-is_safe_identifier (codes "agent-1:é")
