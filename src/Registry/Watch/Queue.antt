-- ===== src/Registry/Watch/Queue.antt =====
-- The queue of a watch of registry/watch.go between two critical sections.
use ne_kiro.Prelude.{
  ℕ, suc, ◌≤◌, ◌≡◌, refl, sym, ap, subst, Bool, true, false, ◌&&◌, Option, none, some, List, [],
  ◌∷◌, ◌++◌, arith, All, length, length-append, Bool-cases, leb, is_empty, if◌then◌else◌, inl, inr,
}
use ne_kiro.Registry.Errors.{OutcomeError, ContextError}
use ne_kiro.Registry.Url.{Net}
use ne_kiro.Registry.Change
use ne_kiro.Registry.Change.{InstanceChange}
use ne_kiro.Registry.Watch.{
  InstanceWatch, publish, latch, poll, is_target_deleted, fresh, take_next, take_first, overflow,
  wait_or_fail, latch_when, latch_unless, publish_when, publish_unless, publish_checked,
  enqueue_when, notify_locked,
}

-- A queue with a deletion of the target pending holds it at its end and nowhere else; any other
-- queue holds none.
abbrev pub Marks : Bool → List InstanceChange → Type 0
Marks false q = All (λ c. is_target_deleted c ≡ false) q
Marks true [] = ⊥
Marks true (c ∷ []) = is_target_deleted c ≡ true
Marks true (c ∷ d ∷ r) = (is_target_deleted c ≡ false) × Marks true (d ∷ r)

pub record IsSound (w : InstanceWatch) : Type 0 where
  pub bounded : length w.queue ≤ w.capacity
  pub ended : (e : OutcomeError) → w.terminal ≡ some e → w.queue ≡ []
  pub pending_open : w.target_deleted_pending ≡ true → w.terminal ≡ none
  pub marked : Marks w.target_deleted_pending w.queue

pub fresh-IsSound : (n : ℕ) → IsSound (fresh n)
fresh-IsSound n = record {
  bounded = omega arith;
  ended = λ e h. refl;
  pending_open = λ h. refl;
  marked = tt;
}

Marks-snoc :
    (q : List InstanceChange) (c : InstanceChange)
    → Marks false q
    → Marks (if is_target_deleted c then true else false) (q ++ c ∷ [])
Marks-snoc q c h = elim (Bool-cases (is_target_deleted c)) [
  | inl d ↦ rw d (at_end q d h)
  | inr d ↦ rw d (none_of q d h)
]
  where
    at_end :
        (q : List InstanceChange)
        → is_target_deleted c ≡ true
        → Marks false q
        → Marks true (q ++ c ∷ [])
    at_end [] d h = d
    at_end (x ∷ []) d h = (h.0, d)
    at_end (x ∷ y ∷ q) d h = (h.0, at_end (y ∷ q) d h.1)

    none_of :
        (q : List InstanceChange)
        → is_target_deleted c ≡ false
        → Marks false q
        → Marks false (q ++ c ∷ [])
    none_of [] d h = (d, tt)
    none_of (x ∷ q) d h = (h.0, none_of q d h.1)

-- A watch whose queue was dropped with a terminal error.
dropped-IsSound :
    (w : InstanceWatch) (e : OutcomeError)
    → w.target_deleted_pending ≡ false
    → IsSound (record w { terminal = some e; queue = []; signal = suc w.signal })
dropped-IsSound w e p = record {
  bounded = omega arith;
  ended = λ t h. refl;
  pending_open = λ h. cc;
  marked = subst (λ b. Marks b []) (sym p) tt;
}

latch_unless-IsSound :
    (b : Bool) (e : OutcomeError) {w : InstanceWatch}
    → IsSound w
    → w.target_deleted_pending ≡ b
    → IsSound (latch_unless b e w)
unfolding latch_unless notify_locked
latch_unless-IsSound true e s p = s
latch_unless-IsSound false e {w} s p = dropped-IsSound w e p

latch_when-IsSound :
    (t : Option OutcomeError) (e : OutcomeError) {w : InstanceWatch}
    → IsSound w
    → IsSound (latch_when t e w)
unfolding latch_when
latch_when-IsSound (some t) e s = s
latch_when-IsSound none e {w} s = latch_unless-IsSound w.target_deleted_pending e s refl

pub latch-IsSound : (e : OutcomeError) {w : InstanceWatch} → IsSound w → IsSound (latch e w)
unfolding latch
latch-IsSound e {w} s = latch_when-IsSound w.terminal e s

enqueue_when-IsSound :
    (b : Bool) (c : InstanceChange) {w : InstanceWatch}
    → IsSound w
    → w.target_deleted_pending ≡ false
    → w.terminal ≡ none
    → leb w.capacity (length w.queue) ≡ b
    → IsSound (enqueue_when b c w).0
unfolding enqueue_when notify_locked
enqueue_when-IsSound true c {w} s p o h = dropped-IsSound w overflow p
enqueue_when-IsSound false c {w} s p o h = record {
  bounded = ground (arith, length-append w.queue (c ∷ []));
  ended = λ e k. cc;
  pending_open = λ k. o;
  marked =
      subst (λ b. Marks (if is_target_deleted c then true else b) (w.queue ++ c ∷ [])) (sym p)
        (Marks-snoc w.queue c (subst (λ b. Marks b w.queue) p s.marked));
}

publish_when-IsSound :
    (t : Option OutcomeError) (c : InstanceChange) {w : InstanceWatch}
    → IsSound w
    → w.target_deleted_pending ≡ false
    → w.terminal ≡ t
    → IsSound (publish_when t c w).0
unfolding publish_when
publish_when-IsSound (some e) c s p h = s
publish_when-IsSound none c {w} s p h =
    enqueue_when-IsSound (leb w.capacity (length w.queue)) c s p h refl

publish_unless-IsSound :
    (b : Bool) (c : InstanceChange) {w : InstanceWatch}
    → IsSound w
    → w.target_deleted_pending ≡ b
    → IsSound (publish_unless b c w).0
unfolding publish_unless
publish_unless-IsSound true c s p = s
publish_unless-IsSound false c {w} s p = publish_when-IsSound w.terminal c s p refl

pub publish-IsSound :
    (net : Net) (c : InstanceChange) {w : InstanceWatch} → IsSound w → IsSound (publish net c w).0
unfolding publish
publish-IsSound net c {w} s = checked (Change.validate net c)
  where
    checked : (o : Option OutcomeError) → IsSound (publish_checked o c w).0
    checked (some e) = s
    checked none = publish_unless-IsSound w.target_deleted_pending c s refl

Marks-tail :
    (b : Bool) (c : InstanceChange) (rest : List InstanceChange)
    → Marks b (c ∷ rest)
    → (is_target_deleted c && b && is_empty rest) ≡ false
    → Marks b rest
Marks-tail false c rest m h = m.1
Marks-tail true c [] m h = cc
Marks-tail true c (d ∷ r) m h = m.1

take_first-IsSound :
    (b : Bool) (c : InstanceChange) (rest : List InstanceChange) {w : InstanceWatch}
    → IsSound w
    → w.queue ≡ c ∷ rest
    → (is_target_deleted c && w.target_deleted_pending && is_empty rest) ≡ b
    → IsSound (take_first b rest w)
unfolding take_first notify_locked
take_first-IsSound true c [] s q h = record {
  bounded = omega arith;
  ended = λ e k. refl;
  pending_open = λ k. cc;
  marked = tt;
}
take_first-IsSound true c (d ∷ rest) s q h = absurd (ground arith)
take_first-IsSound false c rest {w} s q h = record {
  bounded = omega (arith, ap length q, s.bounded);
  ended = λ e k. absurd (cc (s.ended e k));
  pending_open = s.pending_open;
  marked =
      Marks-tail w.target_deleted_pending c rest (subst (Marks w.target_deleted_pending) q s.marked)
        h;
}

pub poll-IsSound : (e : Option ContextError) {w : InstanceWatch} → IsSound w → IsSound (poll e w).0
poll-IsSound (some e) s = unfold poll in s
poll-IsSound none {w} s = unfold poll in take_next-IsSound w.queue refl
  where
    failing : (t : Option OutcomeError) → IsSound (wait_or_fail t w).0
    failing none = unfold wait_or_fail in s
    failing (some e) = unfold wait_or_fail in s

    take_next-IsSound : (q : List InstanceChange) → w.queue ≡ q → IsSound (take_next q w).0
    take_next-IsSound [] h = unfold take_next in failing w.terminal
    take_next-IsSound (c ∷ rest) h = unfold take_next in take_first-IsSound _ c rest s h refl
