-- ===== src/Registry/Watch/Delivery.antt =====
-- What holds of a watch of registry/watch.go in every interleaving of its provider and its consumer.
use ne_kiro.Prelude.{
  ℕ, ◌≤◌, ◌<◌, ◌≡◌, ◌≢◌, ◌⊎◌, refl, subst, Bool, true, false, Option, none, some, List, [], ◌++◌,
  arith, length, inl, inr,
}
use ne_kiro.Registry.Errors.{OutcomeError, err_closed, typed_terminal}
use ne_kiro.Registry.Url.{Net}
use ne_kiro.Registry.Change.{InstanceChange}
use ne_kiro.Registry.Watch.{Context, context, nil_context, begin_next, begin_when, close, terminate}
use ne_kiro.Registry.Watch.System.{
  System, polling, blocked, start, Step, publishes, terminates, closes, calls, polls, wakes,
  gives_up, Reaches, here, next, after_begin, record_begin,
}
use ne_kiro.Registry.Watch.History.{
  IsRun, start-IsRun, Recorded, Waits, is_calling, after_poll-IsRun, after_publish-IsRun,
  latch-IsRun, idle-IsRun,
}

begun-IsRun :
    (b : Bool) {s : System}
    → IsRun s
    → s.watch.next_active ≡ b
    → IsRun (record_begin (begin_when b s.watch) s)
unfolding begin_when record_begin
begun-IsRun true r h = r
begun-IsRun false {s} r h = record {
  sound = record {
    bounded = r.sound.bounded;
    ended = r.sound.ended;
    pending_open = r.sound.pending_open;
    marked = r.sound.marked;
  };
  recorded = begun s.watch.terminal r.recorded;
  waits = tt;
  active = refl;
}
  where
    begun :
        (t : Option OutcomeError)
        → Recorded t s
        → Recorded t
            (record s { watch = record s.watch { next_active = true }; consumer = polling })
    begun none k = k
    begun (some e) k = k

after_begin-IsRun : (ctx : Context) {s : System} → IsRun s → IsRun (after_begin ctx s)
unfolding after_begin begin_next
after_begin-IsRun nil_context r = unfold record_begin in r
after_begin-IsRun (context e) {s} r = begun-IsRun s.watch.next_active r refl

woken-IsRun :
    {s : System} (g : ℕ)
    → IsRun s
    → s.consumer ≡ blocked g
    → IsRun (record s { consumer = polling })
woken-IsRun {s} g r p = record {
  sound = r.sound;
  recorded = woken s.watch.terminal r.recorded;
  waits = tt;
  active = subst (λ c. s.watch.next_active ≡ is_calling c) p r.active;
}
  where
    woken : (t : Option OutcomeError) → Recorded t s → Recorded t (record s { consumer = polling })
    woken none k = k
    woken (some e) k = k

Step-IsRun : (net : Net) {s t : System} → Step net s t → IsRun s → IsRun t
Step-IsRun net (publishes c) r = after_publish-IsRun net c r
Step-IsRun net (terminates e) r = unfold terminate in latch-IsRun (typed_terminal e) r
Step-IsRun net closes r = unfold close in latch-IsRun err_closed r
Step-IsRun net (calls ctx) r = after_begin-IsRun ctx r
Step-IsRun net (polls e p) r = after_poll-IsRun e r p
Step-IsRun net (wakes g p h) r = woken-IsRun g r p
Step-IsRun net (gives_up g p) r = idle-IsRun r

pub Reaches-IsRun : (net : Net) {s t : System} → IsRun s → Reaches net s t → IsRun t
Reaches-IsRun net h here = h
Reaches-IsRun net h (next r st) = Step-IsRun net st (Reaches-IsRun net h r)

-- In every interleaving the consumer receives the accepted changes in order, from the first one
-- and with none left out. While the watch has no terminal outcome, those it has not received are
-- exactly the queue, and the queue is never longer than the capacity.
pub received-prefix-accepted :
    (net : Net) (n : ℕ) {s : System}
    → Reaches net (start n) s
    → ((rest : List InstanceChange) × (s.received ++ rest ≡ s.accepted)
        × (s.watch.terminal ≡ none → rest ≡ s.watch.queue))
      × (length s.watch.queue ≤ s.watch.capacity)
received-prefix-accepted net n {s} path =
    let r = Reaches-IsRun net (start-IsRun n) path in
    (undelivered s.watch.terminal refl r.recorded, r.sound.bounded)
  where
    undelivered :
        (t : Option OutcomeError)
        → s.watch.terminal ≡ t
        → Recorded t s
        → (rest : List InstanceChange) × (s.received ++ rest ≡ s.accepted)
          × (s.watch.terminal ≡ none → rest ≡ s.watch.queue)
    undelivered none e h = (s.watch.queue, h, λ k. refl)
    undelivered (some x) e h = (h.0, h.1, λ k. absurd (cc))

-- No wake-up is lost: a consumer that is blocked in `Next` while there is a change to deliver or a
-- terminal outcome holds a channel that was closed, so that it can go on.
pub blocked-wakes :
    (net : Net) (n g : ℕ) {s : System}
    → Reaches net (start n) s
    → s.consumer ≡ blocked g
    → (s.watch.queue ≢ []) ⊎ (s.watch.terminal ≢ none)
    → g < s.watch.signal
blocked-wakes net n g {s} path p ready =
    let r = Reaches-IsRun net (start-IsRun n) path in
    let w = subst (λ c. Waits c s.watch) p r.waits in omega (arith, w.0, not_present ready w.1)
  where
    not_present :
        (s.watch.queue ≢ []) ⊎ (s.watch.terminal ≢ none)
        → (g ≡ s.watch.signal → (s.watch.queue ≡ []) × (s.watch.terminal ≡ none))
        → g ≢ s.watch.signal
    not_present (inl q) h e = q (h e).0
    not_present (inr t) h e = t (h e).1
