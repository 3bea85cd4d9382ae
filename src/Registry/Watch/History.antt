-- ===== src/Registry/Watch/History.antt =====
-- What the consumer of a watch of registry/watch.go has received, in every interleaving.
use mathlib.Core.List.{append_assoc}
use ne_kiro.Prelude.{
  ℕ, suc, ◌≤◌, ◌≡◌, refl, sym, ap, subst, ◌∙◌, Bool, true, false, Option, none, some, List, [], ◌∷◌,
  ◌++◌, arith,
}
use ne_kiro.Registry.Errors.{OutcomeError, ContextError}
use ne_kiro.Registry.Url.{Net}
use ne_kiro.Registry.Change
use ne_kiro.Registry.Change.{InstanceChange}
use ne_kiro.Registry.Watch.{
  InstanceWatch, publish, publish_checked, publish_valid, publish_when, publish_unless,
  enqueue_when, latch, latch_when, latch_unless, poll, end_next, delivered, take_next, take_first,
  wait_or_fail, notify_locked,
}
use ne_kiro.Registry.Watch.Queue.{
  IsSound, fresh-IsSound, latch-IsSound, publish-IsSound, poll-IsSound,
}
use ne_kiro.Registry.Watch.System.{
  System, Consumer, idle, polling, blocked, start, after_publish, after_poll, record_publish,
  record_poll,
}

-- While the watch has no terminal outcome, what was accepted is what was received and what is
-- queued, in this order; afterwards it starts with what was received.
abbrev pub Recorded : Option OutcomeError → System → Type 0
Recorded none s = s.received ++ s.watch.queue ≡ s.accepted
Recorded (some e) s = (lost : List InstanceChange) × (s.received ++ lost ≡ s.accepted)

-- A blocked consumer holds a channel that is not newer than the present one; if it is the present
-- one, there is nothing to deliver and no terminal outcome.
abbrev pub Waits : Consumer → InstanceWatch → Type 0
Waits (blocked g) w = (g ≤ w.signal) × (g ≡ w.signal → (w.queue ≡ []) × (w.terminal ≡ none))
Waits idle w = Unit
Waits polling w = Unit

abbrev pub is_calling : Consumer → Bool
is_calling idle = false
is_calling polling = true
is_calling (blocked g) = true

pub record IsRun (s : System) : Type 0 where
  pub sound : IsSound s.watch
  pub recorded : Recorded s.watch.terminal s
  pub waits : Waits s.consumer s.watch
  pub active : s.watch.next_active ≡ is_calling s.consumer

pub start-IsRun : (n : ℕ) → IsRun (start n)
start-IsRun n = record { sound = fresh-IsSound n; recorded = refl; waits = tt; active = refl }

Waits-signal :
    (c : Consumer) (w v : InstanceWatch) → Waits c w → v.signal ≡ suc w.signal → Waits c v
Waits-signal idle w v h e = tt
Waits-signal polling w v h e = tt
Waits-signal (blocked g) w v h e = (omega arith, λ p. absurd (omega (arith, h.0)))

pub lost_of :
    (t : Option OutcomeError) (s : System)
    → Recorded t s
    → (lost : List InstanceChange) × (s.received ++ lost ≡ s.accepted)
lost_of none s h = (s.watch.queue, h)
lost_of (some e) s h = h

dropped-IsRun :
    {s : System} (e : OutcomeError)
    → IsRun s
    → IsSound (record s.watch { terminal = some e; queue = []; signal = suc s.watch.signal })
    → IsRun (record s {
      watch = record s.watch { terminal = some e; queue = []; signal = suc s.watch.signal };
    })
dropped-IsRun {s} e r sound = record {
  sound = sound;
  recorded = lost_of s.watch.terminal s r.recorded;
  waits = Waits-signal s.consumer s.watch _ r.waits refl;
  active = r.active;
}

enqueue_when-IsRun :
    (b : Bool) (c : InstanceChange) {s : System}
    → IsRun s
    → s.watch.terminal ≡ none
    → IsSound (enqueue_when b c s.watch).0
    → IsRun (record_publish c (enqueue_when b c s.watch) s)
unfolding enqueue_when notify_locked record_publish
enqueue_when-IsRun true c r o sound = dropped-IsRun _ r sound
enqueue_when-IsRun false c {s} r o sound = record {
  sound = sound;
  recorded =
      subst (λ t. Recorded t (record_publish c (enqueue_when false c s.watch) s)) (sym o)
        (sym (append_assoc s.received s.watch.queue (c ∷ []))
          ∙ ap (λ l. l ++ c ∷ []) (subst (λ t. Recorded t s) o r.recorded));
  waits = Waits-signal s.consumer s.watch _ r.waits refl;
  active = r.active;
}

publish_when-IsRun :
    (t : Option OutcomeError) (c : InstanceChange) {s : System}
    → IsRun s
    → s.watch.terminal ≡ t
    → IsSound (publish_when t c s.watch).0
    → IsRun (record_publish c (publish_when t c s.watch) s)
unfolding publish_when
publish_when-IsRun (some e) c r h sound = unfold record_publish in r
publish_when-IsRun none c r h sound = enqueue_when-IsRun _ c r h sound

publish_unless-IsRun :
    (b : Bool) (c : InstanceChange) {s : System}
    → IsRun s
    → IsSound (publish_unless b c s.watch).0
    → IsRun (record_publish c (publish_unless b c s.watch) s)
unfolding publish_unless
publish_unless-IsRun true c r sound = unfold record_publish in r
publish_unless-IsRun false c {s} r sound = publish_when-IsRun s.watch.terminal c r refl sound

publish_checked-IsRun :
    (o : Option OutcomeError) (c : InstanceChange) {s : System}
    → IsRun s
    → IsSound (publish_checked o c s.watch).0
    → IsRun (record_publish c (publish_checked o c s.watch) s)
unfolding publish_checked publish_valid
publish_checked-IsRun (some e) c r sound = unfold record_publish in r
publish_checked-IsRun none c {s} r sound =
    publish_unless-IsRun s.watch.target_deleted_pending c r sound

pub after_publish-IsRun :
    (net : Net) (c : InstanceChange) {s : System} → IsRun s → IsRun (after_publish net c s)
unfolding after_publish publish
after_publish-IsRun net c {s} r =
    publish_checked-IsRun (Change.validate net c) c r (publish-IsSound net c r.sound)

latch_unless-IsRun :
    (b : Bool) (e : OutcomeError) {s : System}
    → IsRun s
    → IsSound (latch_unless b e s.watch)
    → IsRun (record s { watch = latch_unless b e s.watch })
unfolding latch_unless notify_locked
latch_unless-IsRun true e r sound = r
latch_unless-IsRun false e r sound = dropped-IsRun e r sound

latch_when-IsRun :
    (t : Option OutcomeError) (e : OutcomeError) {s : System}
    → IsRun s
    → IsSound (latch_when t e s.watch)
    → IsRun (record s { watch = latch_when t e s.watch })
unfolding latch_when
latch_when-IsRun (some t) e r sound = r
latch_when-IsRun none e {s} r sound = latch_unless-IsRun s.watch.target_deleted_pending e r sound

pub latch-IsRun :
    (e : OutcomeError) {s : System} → IsRun s → IsRun (record s { watch = latch e s.watch })
unfolding latch
latch-IsRun e {s} r = latch_when-IsRun s.watch.terminal e r (latch-IsSound e r.sound)

end_next-IsSound : (w : InstanceWatch) → IsSound w → IsSound (end_next w)
unfolding end_next
end_next-IsSound w s = record {
  bounded = s.bounded;
  ended = s.ended;
  pending_open = s.pending_open;
  marked = s.marked;
}

pub idle-IsRun :
    {s : System} → IsRun s → IsRun (record s { watch = end_next s.watch; consumer = idle })
unfolding end_next
idle-IsRun {s} r = record {
  sound = end_next-IsSound s.watch r.sound;
  recorded = returned s.watch.terminal r.recorded;
  waits = tt;
  active = refl;
}
  where
    returned :
        (t : Option OutcomeError)
        → Recorded t s
        → Recorded t (record s { watch = end_next s.watch; consumer = idle })
    returned none h = h
    returned (some e) h = h

taken-IsRun :
    (b : Bool) (c : InstanceChange) (rest : List InstanceChange) {s : System}
    → IsRun s
    → s.watch.queue ≡ c ∷ rest
    → s.watch.terminal ≡ none
    → IsSound (take_first b rest s.watch)
    → IsRun (record_poll (take_first b rest s.watch, delivered c) s)
unfolding record_poll take_first notify_locked
taken-IsRun b c rest {s} r q o sound = record {
  sound = end_next-IsSound _ sound;
  recorded = kept b;
  waits = tt;
  active = unfold end_next in refl;
}
  where
    moved : (s.received ++ c ∷ []) ++ rest ≡ s.accepted
    moved =
        append_assoc s.received (c ∷ []) rest
        ∙ (ap (λ l. s.received ++ l) (sym q) ∙ subst (λ t. Recorded t s) o r.recorded)

    kept :
        (b : Bool)
        → Recorded
            (end_next (take_first b rest s.watch)).terminal
            (record_poll (take_first b rest s.watch, delivered c) s)
    kept true = unfold end_next in (rest, moved)
    kept false =
        unfold end_next in
        subst (λ t. Recorded t (record_poll (take_first false rest s.watch, delivered c) s)) (sym o)
          moved

waiting-IsRun :
    (t : Option OutcomeError) {s : System}
    → IsRun s
    → s.consumer ≡ polling
    → s.watch.queue ≡ []
    → s.watch.terminal ≡ t
    → IsRun (record_poll (wait_or_fail t s.watch) s)
unfolding record_poll wait_or_fail
waiting-IsRun (some e) r p q h = idle-IsRun r
waiting-IsRun none {s} r p q h = record {
  sound = r.sound;
  recorded = blocks s.watch.terminal r.recorded;
  waits = (omega arith, λ e. (q, h));
  active = subst (λ c. s.watch.next_active ≡ is_calling c) p r.active;
}
  where
    blocks :
        (t : Option OutcomeError)
        → Recorded t s
        → Recorded t (record s { consumer = blocked s.watch.signal })
    blocks none k = k
    blocks (some e) k = k

open_of_queue :
    (t : Option OutcomeError) {w : InstanceWatch} {c : InstanceChange} {rest : List InstanceChange}
    → IsSound w
    → w.queue ≡ c ∷ rest
    → w.terminal ≡ t
    → w.terminal ≡ none
open_of_queue none s q h = h
open_of_queue (some e) s q h = absurd (cc (s.ended e h))

take_next-IsRun :
    (q : List InstanceChange) {s : System}
    → IsRun s
    → s.consumer ≡ polling
    → s.watch.queue ≡ q
    → IsSound (take_next q s.watch).0
    → IsRun (record_poll (take_next q s.watch) s)
unfolding take_next
take_next-IsRun [] {s} r p h sound = waiting-IsRun s.watch.terminal r p h refl
take_next-IsRun (c ∷ rest) {s} r p h sound =
    taken-IsRun _ c rest r h (open_of_queue s.watch.terminal r.sound h refl) sound

pub after_poll-IsRun :
    (e : Option ContextError) {s : System} → IsRun s → s.consumer ≡ polling → IsRun (after_poll e s)
unfolding after_poll poll
after_poll-IsRun (some e) r p = unfold record_poll in idle-IsRun r
after_poll-IsRun none {s} r p = take_next-IsRun s.watch.queue r p refl (poll-IsSound none r.sound)
