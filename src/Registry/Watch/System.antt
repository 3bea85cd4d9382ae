-- ===== src/Registry/Watch/System.antt =====
-- A provider and a consumer around one watch of registry/watch.go, as interleavings of its critical
-- sections. `accepted` and `received` record what `Publish` took and what `Next` returned.
use ne_kiro.Prelude.{ℕ, ◌<◌, ◌≡◌, Option, none, some, List, [], ◌∷◌, ◌++◌}
use ne_kiro.Registry.Errors.{OutcomeError, GoError, ContextError}
use ne_kiro.Registry.Url.{Net}
use ne_kiro.Registry.Change.{InstanceChange}
use ne_kiro.Registry.Watch.{
  InstanceWatch, Context, Poll, delivered, failed, waiting, fresh, publish, close, terminate,
  begin_next, end_next, poll,
}

-- Where the one admitted call of `Next` stands.
pub data Consumer : Type 0 where
  idle polling : Consumer
  blocked : ℕ → Consumer

pub record System : Type 0 where
  pub watch : InstanceWatch
  pub consumer : Consumer
  pub accepted : List InstanceChange
  pub received : List InstanceChange

abbrev pub start : ℕ → System
start capacity = record { watch = fresh capacity; consumer = idle; accepted = []; received = [] }

unfoldable pub record_publish :
    InstanceChange → InstanceWatch × Option OutcomeError → System → System
record_publish c (w, none) s = record s { watch = w; accepted = s.accepted ++ c ∷ [] }
record_publish c (w, some e) s = record s { watch = w }

unfoldable pub after_publish : Net → InstanceChange → System → System
unfolding record_publish
after_publish net c s = record_publish c (publish net c s.watch) s

unfoldable pub record_begin : InstanceWatch × Option OutcomeError → System → System
record_begin (w, none) s = record s { watch = w; consumer = polling }
record_begin (w, some e) s = record s { watch = w }

unfoldable pub after_begin : Context → System → System
unfolding record_begin
after_begin ctx s = record_begin (begin_next ctx s.watch) s

unfoldable pub record_poll : InstanceWatch × Poll → System → System
record_poll (w, delivered c) s = record s {
  watch = end_next w;
  consumer = idle;
  received = s.received ++ c ∷ [];
}
record_poll (w, failed e) s = record s { watch = end_next w; consumer = idle }
record_poll (w, waiting g) s = record s { watch = w; consumer = blocked g }

unfoldable pub after_poll : Option ContextError → System → System
unfolding record_poll
after_poll e s = record_poll (poll e s.watch) s

pub data Step (net : Net) : System → System → Type 0 where
  publishes : {s : System} (c : InstanceChange) → Step net s (after_publish net c s)
  terminates :
      {s : System} (e : Option GoError) → Step net s (record s { watch = terminate e s.watch })
  closes : {s : System} → Step net s (record s { watch = close s.watch })
  calls : {s : System} (ctx : Context) → Step net s (after_begin ctx s)
  polls :
      {s : System} (e : Option ContextError) → s.consumer ≡ polling → Step net s (after_poll e s)
  wakes :
      {s : System} (g : ℕ)
      → s.consumer ≡ blocked g
      → g < s.watch.signal
      → Step net s (record s { consumer = polling })
  gives_up :
      {s : System} (g : ℕ)
      → s.consumer ≡ blocked g
      → Step net s (record s { watch = end_next s.watch; consumer = idle })

pub data Reaches (net : Net) (s : System) : System → Type 0 where
  here : Reaches net s s
  next : {t u : System} → Reaches net s t → Step net t u → Reaches net s u
