-- ===== src/Routing/Selector/Single.antt =====
-- The loops of selector.go against the list of ready endpoints.
use ne_kiro.Prelude.{
  ◌≡◌, refl, inl, inr, Option, none, some, List, [], ◌∷◌, ◌++◌, ◌==◌, if◌then◌else◌, Result, ok,
  err, ◌>>=◌, keep, keep-true, keep-false, Bool-cases,
}
use ne_kiro.Prelude.Int.{int_eq}
use ne_kiro.Prelude.Text.{Text, text_eq}
use ne_kiro.Registry.Url.{Net}
use ne_kiro.Registry.Endpoint.{NetworkEndpoint}
use ne_kiro.Registry.Instance.{Instance, ready, lifecycle_eq}
use ne_kiro.Registry.Snapshot.{InstanceSnapshot}
use ne_kiro.Routing.Selector.{
  A2aTarget, UrlPrinter, RoutingError, multiple_ready_endpoints, no_ready_endpoint, is_candidate,
  scan_endpoints, scan_instances, redirect, finish_selection, select_snapshot_target,
}

-- The endpoints that may be chosen, in the order of the snapshot.
unfoldable pub candidates : Text → List Instance → List NetworkEndpoint
candidates port_name [] = []
candidates port_name (i ∷ is) =
    if i.state == ready
    then keep (is_candidate port_name) i.endpoints ++ candidates port_name is
    else candidates port_name is

-- What a run over a list of candidates ends with.
choose :
    List NetworkEndpoint → Option NetworkEndpoint → Result RoutingError (Option NetworkEndpoint)
choose [] selected = ok selected
choose (e ∷ es) none = choose es (some e)
choose (e ∷ es) (some s) = err multiple_ready_endpoints

choose-++ :
    (xs ys : List NetworkEndpoint) (o : Option NetworkEndpoint)
    → choose (xs ++ ys) o ≡ (choose xs o >>= choose ys)
unfolding choose
choose-++ [] ys o = refl
choose-++ (x ∷ xs) ys none = choose-++ xs ys (some x)
choose-++ (x ∷ xs) ys (some s) = refl

scan_endpoints-choose :
    (port : Text) (es : List NetworkEndpoint) (o : Option NetworkEndpoint)
    → scan_endpoints port es o ≡ choose (keep (is_candidate port) es) o
unfolding scan_endpoints choose
scan_endpoints-choose port [] o = refl
scan_endpoints-choose port (e ∷ es) o = elim (Bool-cases (is_candidate port e)) [
  | inr h ↦ rw (keep-false (is_candidate port) e es h, h) (scan_endpoints-choose port es o)
  | inl h ↦
      rw (keep-true (is_candidate port) e es h, h)
        (taken (scan_endpoints-choose port es (some e)) o)
]
  where
    taken :
        scan_endpoints port es (some e) ≡ choose (keep (is_candidate port) es) (some e)
        → (p : Option NetworkEndpoint)
        → (elim p [
          | some s ↦ err multiple_ready_endpoints
          | none ↦ scan_endpoints port es (some e)
        ])
          ≡ choose (e ∷ keep (is_candidate port) es) p
    taken first none = first
    taken first (some s) = refl

bind_ext :
    {A B : Type 0} (r : Result RoutingError A) {f g : A → Result RoutingError B}
    → ((a : A) → f a ≡ g a)
    → (r >>= f) ≡ (r >>= g)
bind_ext (ok a) h = h a
bind_ext (err e) h = refl

scan_instances-choose :
    (port : Text) (is : List Instance) (o : Option NetworkEndpoint)
    → scan_instances port is o ≡ choose (candidates port is) o
unfolding scan_instances candidates
scan_instances-choose port [] o = unfold choose in refl
scan_instances-choose port (i ∷ is) o = elim (Bool-cases (i.state == ready)) [
  | inr h ↦ rw h (scan_instances-choose port is o)
  | inl h ↦
      rw
        (
          h,
          choose-++ (keep (is_candidate port) i.endpoints) (candidates port is) o,
          scan_endpoints-choose port i.endpoints o,
        )
        (bind_ext (choose (keep (is_candidate port) i.endpoints) o) (scan_instances-choose port is))
]

-- The selection that the candidates alone decide.
unfoldable pub select_single :
    Net → UrlPrinter → A2aTarget → List NetworkEndpoint → Result RoutingError A2aTarget
select_single net printer target [] = err no_ready_endpoint
select_single net printer target (e ∷ []) = redirect net printer target e
select_single net printer target (e ∷ f ∷ es) = err multiple_ready_endpoints

choose_finish :
    (net : Net) (printer : UrlPrinter) (target : A2aTarget) (es : List NetworkEndpoint)
    → (choose es none >>= (λ o. finish_selection net printer target o))
      ≡ select_single net printer target es
unfolding choose finish_selection select_single
choose_finish net printer target [] = refl
choose_finish net printer target (e ∷ []) = refl
choose_finish net printer target (e ∷ f ∷ es) = refl

-- The nested loops select by the TCP endpoints with the configured port name of the ready instances
-- of the snapshot: one such endpoint is the one chosen, none and several are two different errors.
pub select_snapshot_target-eq-select_single :
    (net : Net) (printer : UrlPrinter) (target : A2aTarget) (s : InstanceSnapshot) (port : Text)
    → select_snapshot_target net printer target s port
      ≡ select_single net printer target (candidates port s.instances)
unfolding select_snapshot_target
select_snapshot_target-eq-select_single net printer target s port =
    rw (scan_instances-choose port s.instances none)
      (choose_finish net printer target (candidates port s.instances))
