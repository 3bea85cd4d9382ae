-- ===== src/Nested/Binding/Bound.antt =====
-- binding.go: the map of an agent binding and what `Authenticate` finds in it.
use ne_kiro.Prelude.{
  ◌≡◌, ◌↔◌, ◌⊎◌, ◌∙◌, refl, sym, ap, subst, inl, inr, false, none, some, List, [], ◌∷◌, map, arith,
  reject_if, unless_error-ok, ok, is_empty, Bool-cases, Option-cases,
}
use ne_kiro.Prelude.Text.{Text, text_eq, text_beq, text_beq_iff}
use ne_kiro.Nested.Binding.Bearer.{IsBearer, bearer_token-IsBearer, IsBearer-bearer_token}
use ne_kiro.Nested.Binding.{
  Crypto, AgentPrincipal, AuthenticatedAgent, Digests, identity_of, has_digest, principal_error,
  bind_from, new_agent_binding, bearer_token, find_digest, token_digest, authenticate,
  no_principals,
}

-- The pairs of digests and agents that principals give.
abbrev pub entries_of : List AgentPrincipal → Digests
entries_of ps = map (λ p. (p.token_sha256, identity_of p)) ps

-- The map has this digest with this agent.
abbrev pub Listed : Text → AuthenticatedAgent → Digests → Type 0
Listed digest agent [] = ⊥
Listed digest agent (e ∷ es) = ((e.0 ≡ digest) × (e.1 ≡ agent)) ⊎ Listed digest agent es

-- Two orders of one map.
abbrev pub SameEntries : Digests → Digests → Type 0
SameEntries a b =
    (digest : Text) (agent : AuthenticatedAgent) → Listed digest agent a ↔ Listed digest agent b

-- One agent at most has a digest.
abbrev Functional : Digests → Type 0
Functional es =
    (digest : Text) (a b : AuthenticatedAgent) → Listed digest a es → Listed digest b es → a ≡ b

find_digest-Listed :
    (digest : Text) (agent : AuthenticatedAgent) (es : Digests)
    → find_digest digest es ≡ ok agent
    → Listed digest agent es
unfolding find_digest
find_digest-Listed digest agent [] h = absurd (cc h)
find_digest-Listed digest agent (e ∷ es) h = elim (Bool-cases (text_beq e.0 digest)) [
  | inl k ↦ inl ((text_beq_iff e.0 digest).0 k, cc (rw (k, find_digest) at h))
  | inr k ↦ inr (find_digest-Listed digest agent es (rw (k, find_digest) at h))
]

Listed-find_digest :
    (digest : Text) (agent : AuthenticatedAgent) (es : Digests)
    → Listed digest agent es
    → (found : AuthenticatedAgent) × (find_digest digest es ≡ ok found)
unfolding find_digest
Listed-find_digest digest agent [] l = absurd l
Listed-find_digest digest agent (e ∷ es) l = elim (Bool-cases (text_beq e.0 digest)) [
  | inl k ↦ (e.1, rw (k, find_digest) refl)
  | inr k ↦ elim l [
    | inl (p, q) ↦ absurd (cc (k, (text_beq_iff e.0 digest).1 p))
    | inr m ↦
        let rest = Listed-find_digest digest agent es m in (rest.0, rw (k, find_digest) rest.1)
  ]
]

has_digest-Listed :
    (digest : Text) (agent : AuthenticatedAgent) (es : Digests)
    → has_digest digest es ≡ false
    → ¬ Listed digest agent es
unfolding has_digest
has_digest-Listed digest agent [] h l = l
has_digest-Listed digest agent (e ∷ es) h (inl (p, q)) =
    cc (rw ((text_beq_iff e.0 digest).1 p, has_digest) at h)
has_digest-Listed digest agent (e ∷ es) h (inr m) =
    has_digest-Listed digest agent es (ground (arith, h)) m

Functional-cons :
    (digest : Text) (agent : AuthenticatedAgent) (es : Digests)
    → has_digest digest es ≡ false
    → Functional es
    → Functional ((digest, agent) ∷ es)
Functional-cons digest agent es h f d a b (inl p) (inl q) = sym p.1 ∙ q.1
Functional-cons digest agent es h f d a b (inl p) (inr m) =
    absurd (has_digest-Listed d b es (subst (λ x. has_digest x es ≡ false) p.0 h) m)
Functional-cons digest agent es h f d a b (inr m) (inl q) =
    absurd (has_digest-Listed d a es (subst (λ x. has_digest x es ≡ false) q.0 h) m)
Functional-cons digest agent es h f d a b (inr m) (inr n) = f d a b m n

-- What the loop returns: a map of what it held and of what the principals give.
record Bound (held : Digests) (ps : List AgentPrincipal) (out : Digests) : Type 0 where
  functional : Functional out
  sound :
      (d : Text) (a : AuthenticatedAgent)
      → Listed d a out
      → Listed d a held ⊎ Listed d a (entries_of ps)
  keeps : (d : Text) (a : AuthenticatedAgent) → Listed d a held → Listed d a out
  complete : (d : Text) (a : AuthenticatedAgent) → Listed d a (entries_of ps) → Listed d a out

principal_error-fresh :
    (crypto : Crypto) (ids : List AuthenticatedAgent) (held : Digests) (p : AgentPrincipal)
    → principal_error crypto ids held p ≡ none
    → has_digest p.token_sha256 held ≡ false
unfolding principal_error has_digest
principal_error-fresh crypto ids held p h = ground (arith, h)

bind_from-Bound :
    (crypto : Crypto) (ids : List AuthenticatedAgent) (held : Digests) (ps : List AgentPrincipal)
    (out : Digests)
    → Functional held
    → bind_from crypto ids held ps ≡ ok out
    → Bound held ps out
unfolding bind_from
bind_from-Bound crypto ids held [] out f h = subst (Bound held []) (cc h) (record {
  functional = f;
  sound = λ d a l. inl l;
  keeps = λ d a l. l;
  complete = λ d a l. absurd l;
})
bind_from-Bound crypto ids held (p ∷ ps) out f h =
    let checked = unless_error-ok (principal_error crypto ids held p) _ out h in
    let fresh = principal_error-fresh crypto ids held p checked.0 in
    let rest =
      bind_from-Bound crypto (identity_of p ∷ ids) ((p.token_sha256, identity_of p) ∷ held) ps out
        (Functional-cons p.token_sha256 (identity_of p) held fresh f) checked.1 in
    record {
      functional = rest.functional;
      sound = λ d a l. moved d a (rest.sound d a l);
      keeps = λ d a l. rest.keeps d a (inr l);
      complete = λ d a l. elim l [ inl e ↦ rest.keeps d a (inl e) | inr m ↦ rest.complete d a m ];
    }
  where
    moved :
        (d : Text) (a : AuthenticatedAgent)
        → Listed d a ((p.token_sha256, identity_of p) ∷ held) ⊎ Listed d a (entries_of ps)
        → Listed d a held ⊎ Listed d a (entries_of (p ∷ ps))
    moved d a (inl (inl e)) = inr (inl e)
    moved d a (inl (inr m)) = inl m
    moved d a (inr m) = inr (inr m)

new_agent_binding-Bound :
    (crypto : Crypto) (ps : List AgentPrincipal) (digests : Digests)
    → new_agent_binding crypto ps ≡ ok digests
    → Bound [] ps digests
unfolding new_agent_binding
new_agent_binding-Bound crypto ps digests h =
    bind_from-Bound crypto [] [] ps digests (λ d a b l m. absurd l)
      (unless_error-ok (reject_if (is_empty ps) no_principals) _ digests h).1

authenticate-ok :
    (crypto : Crypto) (entries : Digests) (values : List Text) (agent : AuthenticatedAgent)
    → authenticate crypto entries values ≡ ok agent
    → (token : Text) × (bearer_token values ≡ some token)
      × (find_digest (token_digest crypto token) entries ≡ ok agent)
unfolding authenticate
authenticate-ok crypto entries values agent h = elim (Option-cases (bearer_token values)) [
  | inl e ↦ absurd (cc (rw (e, authenticate) at h))
  | inr (token, e) ↦ (token, e, rw (e, authenticate) at h)
]

-- For a binding that `NewAgentBinding` makes of principals, and for every order of its map,
-- `Authenticate` returns an agent exactly when the one Authorization value holds a bearer token
-- whose digest is that of a principal with the agent's workspace and identifier.
pub authenticate-Listed :
    (crypto : Crypto) (ps : List AgentPrincipal) (digests entries : Digests)
    → new_agent_binding crypto ps ≡ ok digests
    → SameEntries entries digests
    → (values : List Text) (agent : AuthenticatedAgent)
    → (authenticate crypto entries values ≡ ok agent) ↔ (
        (token : Text) × IsBearer values token
        × Listed (token_digest crypto token) agent (entries_of ps))
unfolding authenticate
authenticate-Listed crypto ps digests entries h same values agent = (found, given)
  where
    bound : Bound [] ps digests
    bound = new_agent_binding-Bound crypto ps digests h

    found :
        authenticate crypto entries values ≡ ok agent
        → (token : Text) × IsBearer values token
          × Listed (token_digest crypto token) agent (entries_of ps)
    found k =
        let (token, e, f) = authenticate-ok crypto entries values agent k in
        let d = token_digest crypto token in
        let stored = (same d agent).0 (find_digest-Listed d agent entries f) in
        (
          token,
          bearer_token-IsBearer values token e,
          elim (bound.sound d agent stored) [ inl l ↦ absurd l | inr l ↦ l ],
        )

    given :
        (token : Text) × IsBearer values token
          × Listed (token_digest crypto token) agent (entries_of ps)
        → authenticate crypto entries values ≡ ok agent
    given (token, b, l) =
        let d = token_digest crypto token in
        let stored = bound.complete d agent l in
        let (other, f) = Listed-find_digest d agent entries ((same d agent).1 stored) in
        let again = (same d other).0 (find_digest-Listed d other entries f) in
        rw (IsBearer-bearer_token values token b, authenticate)
          (f ∙ ap ok (bound.functional d other agent again stored))
